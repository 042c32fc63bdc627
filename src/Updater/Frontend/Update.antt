-- ===== src/Updater/Frontend/Update.antt =====
-- `updateFrontend` as a whole, from the notification to the directory in place.
pub mod Stages
pub mod Laws
use banyan_hub_sdk.Base.{
  if◌then◌else◌, String, Bool, true, false, not, Option, none, some, List, [],
}
use banyan_hub_sdk.Errors.{
  locked, update_download, update_verify, update_apply, update_downgrade, update_concurrent, Error,
  sentinel, detail, Result, ok, err,
}
use banyan_hub_sdk.Errors.Api.{Bytes}
use banyan_hub_sdk.Platform.{Platform}
use banyan_hub_sdk.Updater.{
  Callbacks, Updates, managed, current_version, set_version, DownloadMeta, verify_artifact,
  report_progress, report_success, fail_with,
}
use banyan_hub_sdk.Updater.Frontend.Archive.{Archive, FileCall, unpack}
use banyan_hub_sdk.Updater.Frontend.Swap.{Directories, SwapFaults, remove_all, swap}

-- The steps that leave the program: as for a binary, then the temporary directory, the opening of the
-- downloaded archive, its reader, the renames, and the hook. `tree` is what the calls leave in the
-- temporary directory.
pub record FrontendEnv (A : Type 0) : Type 0 where
  pub request_meta : Result DownloadMeta
  pub download : String → Result String
  pub make_temp : Result String
  pub open_archive : Option Error
  pub new_reader : Result Archive
  pub tree : List FileCall → A
  pub swap_faults : SwapFaults
  pub has_hook : Bool

-- What the update changes: versions, lock and events, directories, the calls made, and whether the hook
-- was called. The error of the hook is only logged.
pub record FrontendUpdate (A : Type 0) : Type 0 where
  pub updates : Updates
  pub directories : Directories A
  pub calls : List FileCall
  pub hook_called : Bool

module _ {A : Type 0} (C : Callbacks) where
  unfoldable pub report_stage : String → String → FrontendUpdate A → FrontendUpdate A
  report_stage slug stage w = record w { updates = report_progress C slug stage w.updates }

  unfoldable pub hold : List FileCall → Option A → FrontendUpdate A → FrontendUpdate A
  hold calls d w = record w { calls = calls; directories = record w.directories { unpacked = d } }

  module _ (P : Platform) (keys : List Bytes) (newer : String → String → Bool) (E : FrontendEnv A)
      (slug : String) (latest : String) where
    unfoldable pub fail_frontend :
        String → Error → FrontendUpdate A → FrontendUpdate A × Result (Unit {0})
    unfolding fail_with
    fail_frontend old_version e w =
        let (u, r) = fail_with C slug old_version latest e w.updates in
        (record w { updates = u }, r)

    unfoldable pub on_swap :
        String
        → FrontendUpdate A
        → Directories A × Result (Unit {0})
        → FrontendUpdate A × Result (Unit {0})
    on_swap old_version w (d, err e) = fail_frontend old_version e (record w { directories = d })
    on_swap old_version w (d, ok _) = (
      record w {
        updates =
            report_success C slug old_version latest (set_version (managed slug) latest w.updates);
        directories = d;
        hook_called = E.has_hook;
      },
      ok tt,
    )

    unfoldable pub on_unpack :
        String
        → FrontendUpdate A
        → List FileCall × Result (Unit {0})
        → FrontendUpdate A × Result (Unit {0})
    on_unpack old_version w (calls, err e) =
        fail_frontend old_version e (hold calls (some (E.tree calls)) w)
    on_unpack old_version w (calls, ok _) =
        let v = report_stage slug "applying" (hold calls (some (E.tree calls)) w) in
        on_swap old_version v (swap E.swap_faults v.directories)

    unfoldable pub on_reader :
        String → String → FrontendUpdate A → Result Archive → FrontendUpdate A × Result (Unit {0})
    on_reader old_version dir w (err e) = fail_frontend old_version (detail update_verify e) w
    on_reader old_version dir w (ok archive) = on_unpack old_version w (unpack dir archive)

    unfoldable pub on_open :
        String → String → FrontendUpdate A → Option Error → FrontendUpdate A × Result (Unit {0})
    on_open old_version dir w (some e) = fail_frontend old_version (detail update_apply e) w
    on_open old_version dir w none = on_reader old_version dir w E.new_reader

    -- The deferred removal of the temporary directory.
    unfoldable pub remove_temp :
        FrontendUpdate A × Result (Unit {0}) → FrontendUpdate A × Result (Unit {0})
    remove_temp (w, r) = (
      record w {
        directories = record w.directories {
          unpacked = remove_all E.swap_faults.remove_unpacked w.directories.unpacked;
        };
      },
      r,
    )

    unfoldable pub on_temp :
        String → FrontendUpdate A → Result String → FrontendUpdate A × Result (Unit {0})
    on_temp old_version w (err e) = fail_frontend old_version (detail update_apply e) w
    on_temp old_version w (ok dir) = remove_temp (
        on_open old_version dir (report_stage slug "extracting" (hold [] (some (E.tree [])) w))
          E.open_archive)

    unfoldable pub on_verify :
        String → FrontendUpdate A → Result (Unit {0}) → FrontendUpdate A × Result (Unit {0})
    on_verify old_version w (err e) = fail_frontend old_version (detail update_verify e) w
    on_verify old_version w (ok _) = on_temp old_version w E.make_temp

    unfoldable pub on_download :
        String
        → DownloadMeta
        → FrontendUpdate A
        → Result String
        → FrontendUpdate A × Result (Unit {0})
    on_download old_version m w (err e) = fail_frontend old_version (detail update_download e) w
    on_download old_version m w (ok actual) =
        on_verify old_version (report_stage slug "verifying" w) (verify_artifact P keys m actual)

    unfoldable pub on_request :
        String → FrontendUpdate A → Result DownloadMeta → FrontendUpdate A × Result (Unit {0})
    on_request old_version w (err e) = fail_frontend old_version (detail update_download e) w
    on_request old_version w (ok m) =
        on_download old_version m (report_stage slug "downloading" w) (E.download m.url)

    -- What `updateFrontend` does while it holds the update lock.
    unfoldable pub locked_frontend : FrontendUpdate A → FrontendUpdate A × Result (Unit {0})
    locked_frontend w =
        let old_version = current_version (managed slug) w.updates in
        if not (newer old_version latest)
        then fail_frontend old_version (sentinel update_downgrade) w
        else on_request old_version (report_stage slug "requesting" w) E.request_meta

    unfoldable pub set_lock : Bool → FrontendUpdate A → FrontendUpdate A
    set_lock l w = record w { updates = record w.updates { locked = l } }

    -- The update with the update lock held, or free, with the deferred unlocking.
    unfoldable pub lock_frontend : Bool → FrontendUpdate A → FrontendUpdate A × Result (Unit {0})
    lock_frontend true w =
        fail_frontend (current_version (managed slug) w.updates) (sentinel update_concurrent) w
    lock_frontend false w = let (v, r) = locked_frontend (set_lock true w) in (set_lock false v, r)

    -- `updateFrontend`
    unfoldable pub update_managed_frontend : FrontendUpdate A → FrontendUpdate A × Result (Unit {0})
    update_managed_frontend w = lock_frontend w.updates.locked w
