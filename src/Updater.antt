-- ===== src/Updater.antt =====
-- updater.go: the update of a binary, from the notification to the version that is recorded.
pub mod Version
pub mod Limit
pub mod Download
pub mod Versions
pub mod Verified
pub mod Frontend
pub mod Laws
pub mod Routing
pub mod Delivery
use banyan_hub_sdk.Base.{
  if◌then◌else◌, string_eq, ◌==◌, String, Bool, true, false, not, Option, none, some, List, [], ◌∷◌,
  ◌++◌,
}
use banyan_hub_sdk.Errors.{
  update_download, update_verify, update_apply, update_downgrade, update_concurrent, sentinel_eq,
  Error, sentinel, text, detail, Result, ok, err,
}
use banyan_hub_sdk.Errors.Api.{Bytes}
use banyan_hub_sdk.License.{verify_ed25519_digest}
use banyan_hub_sdk.License.Online.{signal}
use banyan_hub_sdk.Platform.{Platform}
use banyan_hub_sdk.Types.{state_eq}

-- The callbacks of `OTAConfig` that are set.
pub record Callbacks : Type 0 where
  pub on_progress : Bool
  pub on_result : Bool
  pub on_failure : Bool

-- What the callbacks are told, in order.
pub data Event : Type 0 where
  progress : String → String → Event
  result : String → String → String → Option Error → Event
  failure : String → Error → Event

-- What updates share: the versions under the guard's lock, the update lock, and the calls so far.
pub record Updates : Type 0 where
  pub version : String
  pub managed_versions : List (String × String)
  pub locked : Bool
  pub events : List Event

-- Which version an update reads and writes: the guard's own or that of a managed component.
pub data Target : Type 0 where
  own : Target
  managed : String → Target

-- An assignment to a key of a Go map.
abbrev pub assign : String → String → List (String × String) → List (String × String)
assign k v [] = (k, v) ∷ []
assign k v ((j, w) ∷ m) = if j == k then (j, v) ∷ m else (j, w) ∷ assign k v m

-- `currentVersion` and `currentManagedVersion`
unfoldable pub current_version : Target → Updates → String
current_version own u = u.version
current_version (managed slug) u = signal slug u.managed_versions

-- The closures that record the new version.
unfoldable pub set_version : Target → String → Updates → Updates
set_version own v u = record u { version = v }
set_version (managed slug) v u = record u { managed_versions = assign slug v u.managed_versions }

unfoldable pub emit_if : Bool → Event → Updates → Updates
emit_if set e u = if set then record u { events = u.events ++ (e ∷ []) } else u

-- What the server says of a download.
pub record DownloadMeta : Type 0 where
  pub url : String
  pub sha256 : String
  pub signature : String

-- The steps of an update that leave the program: the request of the metadata, the download with the
-- hash that was measured, and the replacement of the binary.
pub record BinaryEnv : Type 0 where
  pub request_meta : Result DownloadMeta
  pub download : String → Result String
  pub apply_binary : Result (Unit {0})

module _ (P : Platform) (keys : List Bytes) where
  -- `verifySignature`: of the hash, as a text.
  unfoldable pub verify_artifact_signature : String → String → Result (Unit {0})
  verify_artifact_signature hash signature =
      verify_ed25519_digest P (P.bytes_of hash) signature keys

  -- The comparison of the hashes, then the signature of the announced one.
  unfoldable pub verify_artifact : DownloadMeta → String → Result (Unit {0})
  verify_artifact m actual =
      if not (actual == m.sha256)
      then err (text "hash mismatch")
      else verify_artifact_signature m.sha256 m.signature

module _ (C : Callbacks) where
  -- `notifyUpdateFailure`
  unfoldable pub notify_update_failure : String → String → String → Error → Updates → Updates
  unfolding emit_if
  notify_update_failure component old_version new_version e u =
      emit_if C.on_result (result component old_version new_version (some e))
        (emit_if C.on_failure (failure component e) u)

  unfoldable pub report_progress : String → String → Updates → Updates
  unfolding emit_if
  report_progress component stage u = emit_if C.on_progress (progress component stage) u

  unfoldable pub report_success : String → String → String → Updates → Updates
  unfolding emit_if
  report_success component old_version new_version u =
      emit_if C.on_progress (progress component "completed")
        (emit_if C.on_result (result component old_version new_version none) u)

  -- A stage that fails ends the update with its error.
  unfoldable pub fail_with :
      String → String → String → Error → Updates → Updates × Result (Unit {0})
  unfolding notify_update_failure
  fail_with component old_version new_version e u =
      (notify_update_failure component old_version new_version e u, err e)

  module _ (P : Platform) (keys : List Bytes) (newer : String → String → Bool) (E : BinaryEnv)
      (component : String) (t : Target) (latest : String) where
    unfoldable pub after_apply : String → Updates → Result (Unit {0}) → Updates × Result (Unit {0})
    unfolding fail_with report_success
    after_apply old_version v (err e) =
        fail_with component old_version latest (detail update_apply e) v
    after_apply old_version v (ok _) =
        (report_success component old_version latest (set_version t latest v), ok tt)

    unfoldable pub after_verify : String → Updates → Result (Unit {0}) → Updates × Result (Unit {0})
    after_verify old_version v (err e) =
        fail_with component old_version latest (detail update_verify e) v
    after_verify old_version v (ok _) =
        after_apply old_version (report_progress component "applying" v) E.apply_binary

    unfoldable pub after_download :
        String → DownloadMeta → Updates → Result String → Updates × Result (Unit {0})
    after_download old_version m v (err e) =
        fail_with component old_version latest (detail update_download e) v
    after_download old_version m v (ok actual) =
        after_verify old_version (report_progress component "verifying" v)
          (verify_artifact P keys m actual)

    unfoldable pub after_request :
        String → Updates → Result DownloadMeta → Updates × Result (Unit {0})
    after_request old_version v (err e) =
        fail_with component old_version latest (detail update_download e) v
    after_request old_version v (ok m) =
        after_download old_version m (report_progress component "downloading" v) (E.download m.url)

    -- What `updateBinaryComponent` does while it holds the update lock.
    unfoldable pub locked_update : Updates → Updates × Result (Unit {0})
    locked_update u =
        let old_version = current_version t u in
        if not (newer old_version latest)
        then fail_with component old_version latest (sentinel update_downgrade) u
        else after_request old_version (report_progress component "requesting" u) E.request_meta

    unfoldable pub unlock : Updates × Result (Unit {0}) → Updates × Result (Unit {0})
    unlock (u, r) = (record u { locked = false }, r)

    -- `tryLockUpdate` of a held lock and of a free one, with the deferred unlocking after the latter.
    unfoldable pub try_lock_update : Bool → Updates → Updates × Result (Unit {0})
    try_lock_update true u =
        fail_with component (current_version t u) latest (sentinel update_concurrent) u
    try_lock_update false u = unlock (locked_update (record u { locked = true }))

    -- `updateBinaryComponent`
    unfoldable pub update_binary_component : Updates → Updates × Result (Unit {0})
    update_binary_component u = try_lock_update u.locked u
