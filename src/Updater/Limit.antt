-- ===== src/Updater/Limit.antt =====
-- `artifactLimitReader` of updater.go, and the copy of an artifact through it.
pub mod Laws
use banyan_hub_sdk.Base.{
  ltb, leb, if◌then◌else◌, length, take, drop, ℕ, zero, suc, ◌+◌, ◌-◌, ◌*◌, min, Option, none, some,
  List, [], ◌∷◌, ◌++◌,
}
use banyan_hub_sdk.Errors.{update_download, Error, text, detail, Result, ok, err}
use banyan_hub_sdk.Errors.Api.{Bytes}

-- `normalizeArtifactMaxBytes`
unfoldable pub normalize_artifact_max_bytes : ℕ → ℕ
normalize_artifact_max_bytes max_bytes = if ltb 0 max_bytes then max_bytes else 500 * 1024 * 1024

-- `artifactTooLargeError`
unfoldable pub artifact_too_large_error : Error
artifact_too_large_error = detail update_download (text "artifact exceeds max size")

-- A reader as the pieces that it will give, none larger than what a read asks for, and its end:
-- `none` is `io.EOF`.
pub record Pieces : Type 0 where
  pub pieces : List Bytes
  pub failure : Option Error

-- What a read returns: bytes and no error, the end of the reader, or an error.
pub data Answer : Type 0 where
  more : Bytes → Answer
  ended : Answer
  failed : Error → Answer

-- A read of at most `size` bytes from a reader whose next piece is `c`.
unfoldable pub read_piece : ℕ → Bytes → List Bytes → Bytes × List Bytes
read_piece size c cs = if leb (length c) size then (c, cs) else (take size c, drop size c ∷ cs)

-- The probe of one byte, after all that is allowed was read.
unfoldable pub after_probe : Bytes × List Bytes → Answer × ℕ × List Bytes
after_probe ([], rest) = (more [], 0, rest)
after_probe (b ∷ bs, rest) = (failed artifact_too_large_error, 0, rest)

unfoldable pub after_read : ℕ → Bytes × List Bytes → Answer × ℕ × List Bytes
after_read remaining (b, rest) = (more b, remaining - length b, rest)

-- `(*artifactLimitReader).Read` into a buffer of `size` bytes: the answer, and what remains.
unfoldable pub read : ℕ → ℕ → List Bytes → Answer × ℕ × List Bytes
read size remaining [] = (ended, remaining, [])
read size zero (c ∷ cs) = after_probe (read_piece 1 c cs)
read size (suc r) (c ∷ cs) = after_read (suc r) (read_piece (min size (suc r)) c cs)

-- `io.Copy`: the bytes that were written, once the reader ends; `none` is out of fuel.
unfoldable pub prepend : Bytes → Option (Result Bytes) → Option (Result Bytes)
prepend b none = none
prepend b (some (err e)) = some (err e)
prepend b (some (ok bs)) = some (ok (b ++ bs))

unfoldable pub at_end : Option Error → Result Bytes
at_end none = ok []
at_end (some e) = err e

-- What a copy makes of one read; `next` reads on.
unfoldable pub resume :
    (ℕ → List Bytes → Option (Result Bytes))
    → Option Error
    → Answer × ℕ × List Bytes
    → Option (Result Bytes)
unfolding at_end prepend
resume next fault (ended, left, rest) = some (at_end fault)
resume next fault (failed e, left, rest) = some (err e)
resume next fault (more b, left, rest) = prepend b (next left rest)

unfoldable pub copy : ℕ → ℕ → Option Error → ℕ → List Bytes → Option (Result Bytes)
copy zero size fault remaining cs = none
copy (suc fuel) size fault remaining cs =
    resume (λ left rest. copy fuel size fault left rest) fault (read size remaining cs)

-- The reads that a reader can take: one for every byte and one for every piece.
abbrev pub measure : List Bytes → ℕ
measure [] = 0
measure (c ∷ cs) = suc (length c + measure cs)

-- The copy of `downloadArtifactWithProgress` through a limit reader.
unfoldable pub copy_artifact : ℕ → ℕ → Pieces → Option (Result Bytes)
unfolding copy normalize_artifact_max_bytes
copy_artifact size max_bytes body =
    copy (suc (measure body.pieces)) size body.failure (normalize_artifact_max_bytes max_bytes)
      body.pieces
