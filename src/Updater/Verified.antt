-- ===== src/Updater/Verified.antt =====
-- What the verification of a downloaded artifact shows.
use banyan_hub_sdk.Base.{String, ◌≡◌, List, arith}
use banyan_hub_sdk.Errors.{ok}
use banyan_hub_sdk.Errors.Api.{Bytes}
use banyan_hub_sdk.License.{verify_ed25519_digest}
use banyan_hub_sdk.License.Laws.{SignedByAny, verify_ed25519_digest-signed}
use banyan_hub_sdk.Platform.{Platform}
use banyan_hub_sdk.Updater.{DownloadMeta, verify_artifact_signature, verify_artifact}

module _ (P : Platform) (keys : List Bytes) (m : DownloadMeta) (actual : String) where
  accepted :
      verify_artifact P keys m actual ≡ ok tt
      → (actual ≡ m.sha256)
        × (verify_ed25519_digest P (P.bytes_of m.sha256) m.signature keys ≡ ok tt)
  unfolding verify_artifact verify_artifact_signature
  accepted checked = ground arith

  pub verify_artifact-signed :
      verify_artifact P keys m actual ≡ ok tt
      → (actual ≡ m.sha256)
        × ((sig : Bytes) × (P.decode_base64 m.signature ≡ ok sig)
            × SignedByAny P keys (P.sha256 (P.bytes_of m.sha256)) sig)
  verify_artifact-signed checked =
      let (same, checked') = accepted checked in
      (same, verify_ed25519_digest-signed P (P.bytes_of m.sha256) m.signature keys checked')
