-- ===== src/Updater/Routing/Laws.antt =====
-- What every update does to the versions, whichever function makes it.
use banyan_hub_sdk.Base.{Bool-cases, String, ◌≡◌, ◌⊎◌, inl, inr, Bool, true, none, List}
use banyan_hub_sdk.Base.Text.{trim_space, is_empty}
use banyan_hub_sdk.Config.{ManagedComponent, Config}
use banyan_hub_sdk.Errors.{update_apply, Error, detail, Result, ok, err}
use banyan_hub_sdk.Errors.Api.{Bytes}
use banyan_hub_sdk.Platform.{Platform}
use banyan_hub_sdk.Updater.{
  Callbacks, Updates, Target, own, managed, current_version, set_version, BinaryEnv, fail_with,
  update_binary_component,
}
use banyan_hub_sdk.Updater.Frontend.Update.{FrontendUpdate, update_managed_frontend}
use banyan_hub_sdk.Updater.Frontend.Update.Laws.{update_managed_frontend-Updated}
use banyan_hub_sdk.Updater.Frontend.Update.Stages.{FrontendUpdated}
use banyan_hub_sdk.Updater.Laws.{Updated, update_binary_component-Updated}
use banyan_hub_sdk.Updater.Routing.{
  UpdateEnv, UpdateCall, call_backend, call_managed_backend, call_frontend, update_own_backend,
  update_managed_backend, run_update, own_backend,
}
use banyan_hub_sdk.Updater.Versions.{IsUpdateError, at_apply, Same, notified-Same}

-- The version that an update reads and writes.
abbrev pub target_of : UpdateCall → Target
target_of call_backend = own
target_of (call_managed_backend mc) = managed mc.slug
target_of (call_frontend mc) = managed mc.slug

module _ {A : Type 0} (C : Callbacks) (P : Platform) (keys : List Bytes)
    (newer : String → String → Bool) (E : UpdateEnv A) (cfg : Config) (latest : String) where
  -- On success the version is the newer one and the others are as they were; on an error all are.
  abbrev pub Recorded : Target → Updates → Updates × Result (Unit {0}) → Type 0
  Recorded t u (v, ok _) =
      (newer (current_version t u) latest ≡ true) × Same v (set_version t latest u)
  Recorded t u (v, err e) = IsUpdateError e × Same v u

  update_was-Recorded :
      (B : BinaryEnv) (component : String) (t : Target) (u : Updates)
      (r : Updates × Result (Unit {0}))
      → Updated C P keys newer B component t latest u r
      → Recorded t u r
  update_was-Recorded B component t u (v, ok x) (i, s) = (i.is_newer, s)
  update_was-Recorded B component t u (v, err e) h = h

  binary-Recorded :
      (B : BinaryEnv) (component : String) (t : Target) (u : Updates)
      → Recorded t u (update_binary_component C P keys newer B component t latest u)
  binary-Recorded B component t u =
      update_was-Recorded B component t u
        (update_binary_component C P keys newer B component t latest u)
        (update_binary_component-Updated C P keys newer B component t latest u).0

  failed-Recorded :
      (t : Target) (component old_version : String) (e : Error) (u : Updates)
      → Recorded t u (fail_with C component old_version latest (detail update_apply e) u)
  unfolding fail_with
  failed-Recorded t component old_version e u =
      (at_apply e, notified-Same C component latest old_version (detail update_apply e) u)

  own_backend-Recorded :
      (u : Updates) (exe : Result String)
      → Recorded own u (own_backend C P keys newer E cfg latest u exe)
  unfolding own_backend
  own_backend-Recorded u (err e) = failed-Recorded own _ _ e u
  own_backend-Recorded u (ok exe) = binary-Recorded (E.binary exe) cfg.component_slug own u

  update_managed_backend-Recorded :
      (mc : ManagedComponent) (u : Updates)
      → Recorded (managed mc.slug) u (update_managed_backend C P keys newer E cfg latest mc u)
  unfolding update_managed_backend
  update_managed_backend-Recorded mc u = elim (Bool-cases (is_empty (trim_space mc.dir))) [
    | inl e ↦ rw e (failed-Recorded (managed mc.slug) mc.slug _ _ u)
    | inr e ↦ rw e (binary-Recorded (E.binary (trim_space mc.dir)) mc.slug (managed mc.slug) u)
  ]

  -- The old backup of a frontend can be removed, or is not there.
  abbrev pub CanBackUp : UpdateCall → FrontendUpdate A → Type 0
  CanBackUp call_backend w = Unit {0}
  CanBackUp (call_managed_backend mc) w = Unit {0}
  CanBackUp (call_frontend mc) w =
      ((E.frontend mc).swap_faults.remove_backup ≡ none) ⊎ (w.directories.backup ≡ none)

  frontend-Recorded :
      (mc : ManagedComponent) (w : FrontendUpdate A) (r : FrontendUpdate A × Result (Unit {0}))
      → FrontendUpdated C P keys newer (E.frontend mc) mc.slug latest w r
      → Recorded (managed mc.slug) w.updates (r.0.updates, r.1)
  frontend-Recorded mc w (v, ok x) (i, s, t, b, h) = (i.is_newer, s)
  frontend-Recorded mc w (v, err e) (k, s, b, h) = (k, s)

  pub run_update-Recorded :
      (c : UpdateCall) (w : FrontendUpdate A)
      → CanBackUp c w
      → let r = run_update C P keys newer E cfg latest c w in
        Recorded (target_of c) w.updates (r.0.updates, r.1)
  unfolding run_update update_own_backend
  run_update-Recorded call_backend w b = own_backend-Recorded w.updates E.executable
  run_update-Recorded (call_managed_backend mc) w b = update_managed_backend-Recorded mc w.updates
  run_update-Recorded (call_frontend mc) w b =
      frontend-Recorded mc w
        (update_managed_frontend C P keys newer (E.frontend mc) mc.slug latest w)
        (update_managed_frontend-Updated C P keys newer (E.frontend mc) mc.slug latest w b).0
