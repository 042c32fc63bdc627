-- ===== src/Updater/Delivery.antt =====
-- A binary update with its parts put together: the download through the limit reader, and
-- `applyBackendBinaryWithSelfupdate` of updater.go.
use banyan_hub_sdk.Base.{
  ℕ, ◌<◌, String, ◌≡◌, refl, sym, ap, ◌∙◌, Bool, true, Option, none, some, List, arith,
}
use banyan_hub_sdk.Errors.{update_rollback, Error, text, wrap, detail, Result, ok, err}
use banyan_hub_sdk.Errors.Api.{Bytes}
use banyan_hub_sdk.License.Laws.{SignedByAny}
use banyan_hub_sdk.Platform.{Platform}
use banyan_hub_sdk.Updater.{
  Callbacks, Updates, Target, current_version, set_version, DownloadMeta, BinaryEnv,
  update_binary_component,
}
use banyan_hub_sdk.Updater.Download.{Download, download_artifact, IsWhole, download_artifact_iff}
use banyan_hub_sdk.Updater.Laws.{Installed, Updated, update_binary_component-Updated}
use banyan_hub_sdk.Updater.Limit.{normalize_artifact_max_bytes}
use banyan_hub_sdk.Updater.Versions.{Same}

-- What is called to replace a binary: the opening of the downloaded file, and `update.Apply` and
-- `update.RollbackError` of the self-update library.
pub record SelfUpdate : Type 0 where
  pub open_temp : Option Error
  pub apply : Bytes → Result (Unit {0})
  pub rollback_error : Error → Option Error

replaced : (Error → Option Error) → Result (Unit {0}) → Result (Unit {0})
replaced rollback_error (ok _) = ok tt
replaced rollback_error (err e) = elim (rollback_error e) [
  | some r ↦ err (detail update_rollback r)
  | none ↦ err e
]

-- `applyBackendBinaryWithSelfupdate`, of the content of the downloaded file.
unfoldable pub apply_backend_binary : SelfUpdate → Bytes → Result (Unit {0})
unfolding replaced
apply_backend_binary S content = elim S.open_temp [
  | some e ↦ err (wrap "open temp file" e)
  | none ↦ replaced S.rollback_error (S.apply content)
]

-- What the network delivers: the metadata, and the response to a download; and the buffer and the limit
-- of the copy.
pub record Delivery : Type 0 where
  pub announced : Result DownloadMeta
  pub served : String → Download
  pub size : ℕ
  pub max_bytes : ℕ

module _ (P : Platform) (D : Delivery) (S : SelfUpdate) where
  -- A copy that does not end is none of the copies: a buffer is not empty.
  ended_copy : Option (Result (Bytes × String)) → Result (Bytes × String)
  ended_copy none = err (text "no end")
  ended_copy (some r) = r

  abbrev fetched : String → Result (Bytes × String)
  fetched url = ended_copy (download_artifact P D.size D.max_bytes (D.served url))

  hash_of : Result (Bytes × String) → Result String
  hash_of (err e) = err e
  hash_of (ok (content, hash)) = ok hash

  apply_file : Result (Bytes × String) → Result (Unit {0})
  apply_file (err e) = err e
  apply_file (ok (content, hash)) = apply_backend_binary S content

  apply_announced : Result DownloadMeta → Result (Unit {0})
  unfolding apply_file ended_copy
  apply_announced (err e) = err e
  apply_announced (ok m) = apply_file (fetched m.url)

  -- The steps of an update, over the network and on the file that was downloaded.
  unfoldable pub delivered_env : BinaryEnv
  unfolding hash_of apply_announced ended_copy
  delivered_env = record {
    request_meta = D.announced;
    download = λ url. hash_of (fetched url);
    apply_binary = apply_announced D.announced;
  }

  -- The bytes that were installed: all of the body that was served, within the limit, with the
  -- announced hash, which one of the keys signed.
  pub record IsGenuineBinary (keys : List Bytes) : Type 0 where
    pub m : DownloadMeta
    pub content : Bytes
    pub sig : Bytes
    pub requested : D.announced ≡ ok m
    pub whole :
        IsWhole P (normalize_artifact_max_bytes D.max_bytes) (D.served m.url) content m.sha256
    pub decoded : P.decode_base64 m.signature ≡ ok sig
    pub signed : SignedByAny P keys (P.sha256 (P.bytes_of m.sha256)) sig
    pub installed : S.apply content ≡ ok tt

  replaced_lem : (r : Result (Unit {0})) → replaced S.rollback_error r ≡ ok tt → r ≡ ok tt
  unfolding replaced
  replaced_lem (ok tt) h = refl
  replaced_lem (err e) h = absurd (ground arith)

  applied_lem : (content : Bytes) → apply_backend_binary S content ≡ ok tt → S.apply content ≡ ok tt
  unfolding apply_backend_binary
  applied_lem content h = replaced_lem (S.apply content) (ground arith)

  fetched_lem :
      (m : DownloadMeta) (r : Option (Result (Bytes × String))) (hash : String)
      → download_artifact P D.size D.max_bytes (D.served m.url) ≡ r
      → hash_of (ended_copy r) ≡ ok hash
      → (content : Bytes) × (r ≡ some (ok (content, hash)))
  unfolding hash_of ended_copy
  fetched_lem m none hash d h = absurd (ground arith)
  fetched_lem m (some (err e)) hash d h = absurd (ground arith)
  fetched_lem m (some (ok (content, got))) hash d h = (content, ground arith)

  module _ (C : Callbacks) (keys : List Bytes) (newer : String → String → Bool) (component : String)
      (t : Target) (latest : String) (positive : 0 < D.size) where
    genuine :
        {old_version : String}
        → Installed C P keys newer delivered_env component t latest old_version
        → IsGenuineBinary keys
    unfolding delivered_env apply_announced apply_file
    genuine i =
        let (content, d) = fetched_lem i.announced _ i.announced.sha256 refl i.downloaded in
        let fetch : fetched i.announced.url ≡ ok (content, i.announced.sha256) = ap ended_copy d in
        record {
          m = i.announced;
          content = content;
          sig = i.sig;
          requested = i.requested;
          whole =
              (download_artifact_iff P D.size D.max_bytes (D.served i.announced.url) positive
                  content i.announced.sha256).0
                d;
          decoded = i.decoded;
          signed = i.signed;
          installed =
              applied_lem content
                (ap apply_file (sym fetch) ∙ (ap apply_announced (sym i.requested) ∙ i.applied));
        }

    succeeded :
        (u : Updates) (r : Updates × Result (Unit {0}))
        → Updated C P keys newer delivered_env component t latest u r
        → r.1 ≡ ok tt
        → IsGenuineBinary keys
          × (newer (current_version t u) latest ≡ true)
          × Same r.0 (set_version t latest u)
    succeeded u (v, ok tt) (i, s) h = (genuine i, i.is_newer, s)
    succeeded u (v, err e) k h = absurd (ground arith)

    -- With a copy buffer that is not empty: where an update over the network succeeds, the bytes
    -- that the self-update library installed without an error are the whole body of a download that
    -- ended without an error, within the limit; their hash is the announced one, which one of the
    -- keys signed; and the version that was recorded is strictly newer than the one before.
    pub update_binary_component-IsGenuineBinary :
        (u : Updates)
        → let r = update_binary_component C P keys newer delivered_env component t latest u in
          r.1 ≡ ok tt
          → IsGenuineBinary keys
            × (newer (current_version t u) latest ≡ true)
            × Same r.0 (set_version t latest u)
    update_binary_component-IsGenuineBinary u h =
        succeeded u (update_binary_component C P keys newer delivered_env component t latest u)
          (update_binary_component-Updated C P keys newer delivered_env component t latest u).0 h
