-- ===== src/Updater/Download.antt =====
-- `downloadArtifactWithProgress` of updater.go.
use banyan_hub_sdk.Base.{
  nat_eq, if◌then◌else◌, length, ℕ, ◌≤◌, ◌<◌, String, ◌≡◌, sym, ap, ◌∙◌, ◌↔◌, false, not, Option,
  none, some, arith,
}
use banyan_hub_sdk.Errors.{Error, text, wrap, Result, ok, err}
use banyan_hub_sdk.Errors.Api.{Bytes, announces_more}
use banyan_hub_sdk.Platform.{Platform}
use banyan_hub_sdk.Updater.Limit.{
  normalize_artifact_max_bytes, artifact_too_large_error, Pieces, copy_artifact,
}
use banyan_hub_sdk.Updater.Limit.Laws.{concat, copied, copy_artifact_lem}

-- What a download meets: the errors of `NewRequestWithContext` and of `Do`, the response, the error of the
-- creation of the temporary file, and that of a write to it, if one ends the copy.
pub record Download : Type 0 where
  pub create_request : Option Error
  pub send : Option Error
  pub status_code : ℕ
  pub content_length : Option ℕ
  pub body : Pieces
  pub create_temp : Option Error
  pub write_temp : Option Error

module _ (P : Platform) where
  -- The file's content and its hash.
  unfoldable pub finish_copy : Option (Result Bytes) → Option (Result (Bytes × String))
  finish_copy none = none
  finish_copy (some (err e)) = some (err (wrap "copy failed" e))
  finish_copy (some (ok content)) = some (ok (content, P.encode_hex (P.sha256 content)))

  -- `io.Copy` to the file and the hash: a write to the file that fails ends it.
  unfoldable pub copy_to_temp : ℕ → ℕ → Download → Option (Result (Bytes × String))
  copy_to_temp size limit d = elim d.write_temp [
    | some e ↦ some (err (wrap "copy failed" e))
    | none ↦ finish_copy (copy_artifact size limit d.body)
  ]

  -- What is done with the response.
  unfoldable pub receive_artifact : ℕ → ℕ → Download → Option (Result (Bytes × String))
  unfolding copy_to_temp
  receive_artifact size limit d =
      if not (nat_eq d.status_code 200)
      then some (err (text "download failed with status"))
      else if announces_more d.content_length limit
      then some (err artifact_too_large_error)
      else elim d.create_temp [
        | some e ↦ some (err (wrap "create temp file" e))
        | none ↦ copy_to_temp size limit d
      ]

  -- `downloadArtifactWithProgress`, with a copy buffer of `size` bytes.
  unfoldable pub download_artifact : ℕ → ℕ → Download → Option (Result (Bytes × String))
  unfolding receive_artifact
  download_artifact size max_bytes d = elim d.create_request [
    | some e ↦ some (err (wrap "create request" e))
    | none ↦ elim d.send [
      | some e ↦ some (err (wrap "download failed" e))
      | none ↦ receive_artifact size (normalize_artifact_max_bytes max_bytes) d
    ]
  ]

  -- What a download that succeeds gives: the whole body, within the limit, and its hash.
  pub record IsWhole (limit : ℕ) (d : Download) (content : Bytes) (hash : String) : Type 0 where
    pub requested : d.create_request ≡ none
    pub sent : d.send ≡ none
    pub accepted : d.status_code ≡ 200
    pub announced : announces_more d.content_length limit ≡ false
    pub created : d.create_temp ≡ none
    pub written : d.write_temp ≡ none
    pub ended_well : d.body.failure ≡ none
    pub all : content ≡ concat d.body.pieces
    pub fits : length content ≤ limit
    pub measured : hash ≡ P.encode_hex (P.sha256 content)

  normalize_twice :
      (n : ℕ)
      → normalize_artifact_max_bytes (normalize_artifact_max_bytes n)
        ≡ normalize_artifact_max_bytes n
  unfolding normalize_artifact_max_bytes
  normalize_twice n = ground arith

  finished :
      (limit : ℕ) (fault : Option Error) (content : Bytes) {got : Bytes} {hash : String}
      → finish_copy (some (copied fault limit content)) ≡ some (ok (got, hash))
      → (fault ≡ none)
        × (got ≡ content)
        × (length content ≤ limit)
        × (hash ≡ P.encode_hex (P.sha256 content))
  unfolding finish_copy copied
  finished limit fault content h = ground arith

  finishes :
      (limit : ℕ) (fault : Option Error) {content body : Bytes} {hash : String}
      → content ≡ body
      → fault ≡ none
      → length content ≤ limit
      → hash ≡ P.encode_hex (P.sha256 content)
      → finish_copy (some (copied fault limit body)) ≡ some (ok (content, hash))
  unfolding finish_copy copied
  finishes limit fault same e fits measured = ground arith

  module _ (size max_bytes : ℕ) (d : Download) (positive : 0 < size) where
    abbrev limit : ℕ
    limit = normalize_artifact_max_bytes max_bytes

    copied_body :
        copy_artifact size limit d.body ≡ some (copied d.body.failure limit (concat d.body.pieces))
    copied_body =
        copy_artifact_lem size limit d.body positive
        ∙ ap (λ n. some (copied d.body.failure n (concat d.body.pieces)))
            (normalize_twice max_bytes)

    passed :
        {r : Bytes × String}
        → download_artifact size max_bytes d ≡ some (ok r)
        → (d.create_request ≡ none)
          × (d.send ≡ none)
          × (d.status_code ≡ 200)
          × (announces_more d.content_length limit ≡ false)
          × (d.create_temp ≡ none)
          × (d.write_temp ≡ none)
          × (finish_copy (copy_artifact size limit d.body) ≡ some (ok r))
    unfolding download_artifact
    passed h = ground arith

    whole :
        {content : Bytes} {hash : String}
        → download_artifact size max_bytes d ≡ some (ok (content, hash))
        → IsWhole limit d content hash
    whole h =
        let (requested, sent, accepted, announced, created, written, copied_ok) = passed h in
        let (ended_well, all, fits, measured) =
          finished limit d.body.failure (concat d.body.pieces)
            (ap finish_copy (sym copied_body) ∙ copied_ok) in
        record {
          requested = requested;
          sent = sent;
          accepted = accepted;
          announced = announced;
          created = created;
          written = written;
          ended_well = ended_well;
          all = all;
          fits = rw all fits;
          measured = measured ∙ ap (λ b. P.encode_hex (P.sha256 b)) (sym all);
        }

    whole_finishes :
        {content : Bytes} {hash : String}
        → IsWhole limit d content hash
        → finish_copy (copy_artifact size limit d.body) ≡ some (ok (content, hash))
    whole_finishes w =
        ap finish_copy copied_body
        ∙ finishes limit d.body.failure w.all w.ended_well w.fits w.measured

    -- With a buffer that is not empty, a download gives a content and a hash exactly when the
    -- request was created and sent without an error, the status is 200, the Content-Length, if
    -- known, is within the limit, the temporary file was created and no write to it failed, the
    -- body ended without an error, the content is all of the body and within the limit, and the
    -- hash is that of the content.
    pub download_artifact_iff :
        (content : Bytes) (hash : String)
        → (download_artifact size max_bytes d ≡ some (ok (content, hash)))
          ↔ IsWhole limit d content hash
    unfolding download_artifact
    download_artifact_iff content hash = (whole, λ w. ground (arith, whole_finishes w))
