-- ===== src/Updater/Versions.antt =====
-- Which operations of an update change the versions and the lock, and the errors that updates return.
-- The errors that an update returns to its caller.
use banyan_hub_sdk.Base.{String, ◌≡◌, refl, ap, ◌∙◌, true, false, arith}
use banyan_hub_sdk.Errors.{
  update_download, update_verify, update_apply, update_rollback, update_downgrade,
  update_concurrent, sentinel_eq, Error, sentinel, detail, is,
}
use banyan_hub_sdk.Updater.{
  Callbacks, Updates, Target, own, managed, assign, current_version, set_version, emit_if,
  notify_update_failure, report_progress, report_success,
}

pub data IsUpdateError : Error → Type 0 where
  concurrent : IsUpdateError (sentinel update_concurrent)
  downgrade : IsUpdateError (sentinel update_downgrade)
  at_download : (e : Error) → IsUpdateError (detail update_download e)
  at_verify : (e : Error) → IsUpdateError (detail update_verify e)
  at_apply : (e : Error) → IsUpdateError (detail update_apply e)

-- None of them is a failed rollback to `errors.Is`.
pub rollback_hidden : {e : Error} → IsUpdateError e → is e update_rollback ≡ false
unfolding is sentinel_eq
rollback_hidden concurrent = refl
rollback_hidden downgrade = refl
rollback_hidden (at_download e) = refl
rollback_hidden (at_verify e) = refl
rollback_hidden (at_apply e) = refl

-- The versions are the same in both.
abbrev pub Same : Updates → Updates → Type 0
Same w u = (w.version ≡ u.version) × (w.managed_versions ≡ u.managed_versions)

pub Same-trans : (a b c : Updates) → Same a b → Same b c → Same a c
Same-trans a b c (p, q) (p', q') = (p ∙ p', q ∙ q')

module _ (C : Callbacks) (component : String) (latest : String) where
  pub notified-Same :
      (old_version : String) (e : Error) (u : Updates)
      → Same (notify_update_failure C component old_version latest e u) u
  unfolding notify_update_failure emit_if
  notified-Same old_version e u = ground arith

  pub progress-Same :
      (stage : String) (w u : Updates) → Same w u → Same (report_progress C component stage w) u
  unfolding report_progress emit_if
  progress-Same stage w u h = ground arith

  pub success-Same :
      (old_version : String) (u : Updates)
      → Same (report_success C component old_version latest u) u
  unfolding report_success emit_if
  success-Same old_version u = ground arith

  pub notified-locked :
      (old_version : String) (e : Error) (u : Updates)
      → (notify_update_failure C component old_version latest e u).locked ≡ u.locked
  unfolding notify_update_failure emit_if
  notified-locked old_version e u = ground arith

module _ (latest : String) where
  pub set_version-Same :
      (t : Target) (w u : Updates)
      → Same w u
      → Same (set_version t latest w) (set_version t latest u)
  unfolding set_version
  set_version-Same own w u (a, b) = (refl, b)
  set_version-Same (managed slug) w u (a, b) = (a, ap (assign slug latest) b)

  pub current_version-locked :
      (t : Target) (u : Updates)
      → current_version t (record u { locked = true }) ≡ current_version t u
  unfolding current_version
  current_version-locked own u = refl
  current_version-locked (managed slug) u = refl

  pub set_version-locked :
      (t : Target) (u : Updates)
      → Same (set_version t latest (record u { locked = true })) (set_version t latest u)
  unfolding set_version
  set_version-locked own u = (refl, refl)
  set_version-locked (managed slug) u = (refl, refl)
