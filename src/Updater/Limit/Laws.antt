-- ===== src/Updater/Limit/Laws.antt =====
-- What comes through the limit reader.
use banyan_hub_sdk.Base.{
  leb, if◌then◌else◌, Bool-cases, length, take, drop, length-append, length-take, length-drop,
  take-drop, ℕ, zero, suc, ◌-◌, ◌≤◌, ◌<◌, min, ◌≡◌, refl, sym, ap, ◌∙◌, inl, inr, true, false,
  Option, none, some, List, [], ◌∷◌, ◌++◌, arith,
}
use banyan_hub_sdk.Errors.{Error, Result, ok, err}
use banyan_hub_sdk.Errors.Api.{Bytes}
use banyan_hub_sdk.Updater.Limit.{
  normalize_artifact_max_bytes, artifact_too_large_error, Pieces, more, read_piece, after_probe,
  after_read, read, prepend, resume, copy, measure, copy_artifact, at_end,
}

abbrev pub concat : List Bytes → Bytes
concat [] = []
concat (c ∷ cs) = c ++ concat cs

-- The whole content, or the error of its reader, or the error of a content that is too large.
unfoldable pub copied : Option Error → ℕ → Bytes → Result Bytes
copied fault limit content =
    if leb (length content) limit
    then elim fault [ none ↦ ok content | some e ↦ err e ]
    else err artifact_too_large_error

prepend-copied :
    (fault : Option Error) (limit : ℕ) (b content : Bytes)
    → length b ≤ limit
    → prepend b (some (copied fault (limit - length b) content))
      ≡ some (copied fault limit (b ++ content))
unfolding prepend copied
prepend-copied fault limit b content h = ground (arith, length-append b content)

prepend-nil : (r : Result Bytes) → prepend [] (some r) ≡ some r
unfolding prepend
prepend-nil (ok bs) = refl
prepend-nil (err e) = refl

module _ (size : ℕ) (positive : 0 < size) (fault : Option Error) where
  at_end-copied : (limit : ℕ) → at_end fault ≡ copied fault limit []
  unfolding at_end copied
  at_end-copied limit = ground arith

  too_large :
      (x : ℕ) (content : Bytes) → copied fault 0 (x ∷ content) ≡ err artifact_too_large_error
  unfolding copied
  too_large x content = ground arith

  read_whole :
      (c : Bytes) (cs : List Bytes) (n r : ℕ)
      → leb (length c) n ≡ true
      → after_read r (read_piece n c cs) ≡ (more c, r - length c, cs)
  unfolding read_piece after_read
  read_whole c cs n r h = rw h refl

  read_part :
      (c : Bytes) (cs : List Bytes) (n r : ℕ)
      → leb (length c) n ≡ false
      → after_read r (read_piece n c cs) ≡ (more (take n c), r - length (take n c), drop n c ∷ cs)
  unfolding read_piece after_read
  read_part c cs n r h = rw h refl

  probe_refuses :
      (next : ℕ → List Bytes → Option (Result Bytes)) (x : ℕ) (c : Bytes) (cs : List Bytes)
      → resume next fault (after_probe (read_piece 1 (x ∷ c) cs))
        ≡ some (err artifact_too_large_error)
  unfolding read_piece after_probe resume
  probe_refuses next x c cs = elim (Bool-cases (leb (suc (length c)) 1)) [
    | inl fits ↦ rw fits refl
    | inr larger ↦ rw larger refl
  ]

  probe_skips :
      (next : ℕ → List Bytes → Option (Result Bytes)) (cs : List Bytes)
      → resume next fault (after_probe (read_piece 1 [] cs)) ≡ prepend [] (next 0 cs)
  unfolding read_piece after_probe resume
  probe_skips next cs = refl

  -- A piece that is read in part: what follows is shorter, and the part is within the limit.
  part_lem :
      (fuel r n : ℕ) (c : Bytes) (cs : List Bytes)
      → 0 < n
      → n ≤ r
      → leb (length c) n ≡ false
      → measure (c ∷ cs) < suc fuel
      → (measure (drop n c ∷ cs) < fuel) × (length (take n c) ≤ r)
  part_lem fuel r n c cs p q larger h = ground (arith, length-take n c, length-drop n c)

  copy_lem :
      (fuel remaining : ℕ) (cs : List Bytes)
      → measure cs < fuel
      → copy fuel size fault remaining cs ≡ some (copied fault remaining (concat cs))
  unfolding copy resume read
  copy_lem zero remaining cs h = absurd (omega arith)
  copy_lem (suc fuel) remaining [] h = ap some (at_end-copied remaining)
  copy_lem (suc fuel) zero ([] ∷ cs) h =
      probe_skips _ cs
      ∙ rw (copy_lem fuel zero cs (omega arith)) (prepend-nil (copied fault zero (concat cs)))
  copy_lem (suc fuel) zero ((x ∷ c) ∷ cs) h =
      probe_refuses _ x c cs ∙ ap some (sym (too_large x (c ++ concat cs)))
  copy_lem (suc fuel) (suc r) (c ∷ cs) h = elim (Bool-cases (leb (length c) (min size (suc r)))) [
    | inl fits ↦
        rw (read_whole c cs _ (suc r) fits, copy_lem fuel (suc r - length c) cs (omega arith))
          (prepend-copied fault (suc r) c (concat cs) (ground arith))
    | inr larger ↦
        let k = min size (suc r) in
        let (shorter, within) = part_lem fuel (suc r) k c cs (omega arith) (omega arith) larger h in
        rw
          (
            read_part c cs k (suc r) larger,
            copy_lem fuel (suc r - length (take k c)) (drop k c ∷ cs) shorter,
          )
          (prepend-copied fault (suc r) (take k c) (drop k c ++ concat cs) within
            ∙ ap (λ x. some (copied fault (suc r) x)) (take-drop k c (concat cs)))
  ]

-- With a buffer that is not empty, a copy through the limit reader ends, in whatever pieces the
-- body comes: with the whole body where it is within the limit and ends well, with the body's own
-- error where it is within the limit and ends badly, and with the error of an artifact that is too
-- large where it exceeds the limit.
pub copy_artifact_lem :
    (size max_bytes : ℕ) (body : Pieces)
    → 0 < size
    → copy_artifact size max_bytes body
      ≡ some (copied (body.failure) (normalize_artifact_max_bytes max_bytes) (concat body.pieces))
unfolding copy_artifact
copy_artifact_lem size max_bytes body positive =
    copy_lem size positive body.failure (suc (measure body.pieces))
      (normalize_artifact_max_bytes max_bytes) body.pieces (omega arith)
