-- ===== src/Updater/Routing.antt =====
-- Which update a component gets: `handleUpdateNotification`, `updateBackend` and `updateManagedBackend` of
-- updater.go.
pub mod Laws
use banyan_hub_sdk.Base.{
  if◌then◌else◌, string_eq, ◌==◌, String, Bool, Option, none, some, List, [], ◌∷◌,
}
use banyan_hub_sdk.Base.Text.{trim_space, is_empty}
use banyan_hub_sdk.Config.{
  UpdateStrategy, update_backend, update_frontend, other_strategy, ManagedComponent, Config,
}
use banyan_hub_sdk.Errors.{update_apply, sentinel_eq, text, detail, Result, ok, err}
use banyan_hub_sdk.Errors.Api.{Bytes}
use banyan_hub_sdk.Platform.{Platform}
use banyan_hub_sdk.Types.{state_eq}
use banyan_hub_sdk.Updater.{
  Callbacks, Updates, own, managed, current_version, BinaryEnv, fail_with, update_binary_component,
}
use banyan_hub_sdk.Updater.Frontend.Update.{FrontendEnv, FrontendUpdate, update_managed_frontend}

-- What the updates call: `os.Executable`, and for each path or component the steps of its update.
pub record UpdateEnv (A : Type 0) : Type 0 where
  pub executable : Result String
  pub binary : String → BinaryEnv
  pub frontend : ManagedComponent → FrontendEnv A

-- A call of one of the three update functions.
pub data UpdateCall : Type 0 where
  call_backend : UpdateCall
  call_managed_backend call_frontend : ManagedComponent → UpdateCall

-- The switch over the strategy.
unfoldable pub call_for : ManagedComponent → UpdateStrategy → UpdateCall
call_for mc update_backend = call_managed_backend mc
call_for mc update_frontend = call_frontend mc
call_for mc (other_strategy n) = call_frontend mc

unfoldable pub notify_managed : Bool → String → List ManagedComponent → Option UpdateCall
notify_managed auto_update component [] = none
notify_managed auto_update component (mc ∷ components) =
    let rest = notify_managed auto_update component components in
    if mc.slug == component
    then if auto_update then some (call_for mc mc.strategy) else none
    else rest

-- `handleUpdateNotification`: the update that it starts in a goroutine, if any.
unfoldable pub handle_update_notification : Config → String → Option UpdateCall
handle_update_notification cfg component =
    if component == cfg.component_slug
    then if cfg.ota.auto_update then some call_backend else none
    else notify_managed cfg.ota.auto_update component cfg.managed_components

module _ {A : Type 0} (C : Callbacks) (P : Platform) (keys : List Bytes)
    (newer : String → String → Bool) (E : UpdateEnv A) (cfg : Config) (latest : String) where
  own_backend : Updates → Result String → Updates × Result (Unit {0})
  unfolding fail_with
  own_backend u (err e) =
      fail_with C cfg.component_slug (current_version own u) latest (detail update_apply e) u
  own_backend u (ok exe) =
      update_binary_component C P keys newer (E.binary exe) cfg.component_slug own latest u

  -- `updateBackend`
  unfoldable pub update_own_backend : Updates → Updates × Result (Unit {0})
  unfolding own_backend
  update_own_backend u = own_backend u E.executable

  -- `updateManagedBackend`
  unfoldable pub update_managed_backend : ManagedComponent → Updates → Updates × Result (Unit {0})
  unfolding fail_with
  update_managed_backend mc u =
      if is_empty (trim_space mc.dir)
      then fail_with C mc.slug (current_version (managed mc.slug) u) latest
          (detail update_apply (text "managed backend component requires Dir")) u
      else update_binary_component C P keys newer (E.binary (trim_space mc.dir)) mc.slug
          (managed mc.slug) latest u

  abbrev with_updates :
      FrontendUpdate A → Updates × Result (Unit {0}) → FrontendUpdate A × Result (Unit {0})
  with_updates w (u, r) = (record w { updates = u }, r)

  unfoldable pub run_update : UpdateCall → FrontendUpdate A → FrontendUpdate A × Result (Unit {0})
  run_update call_backend w = with_updates w (update_own_backend w.updates)
  run_update (call_managed_backend mc) w = with_updates w (update_managed_backend mc w.updates)
  run_update (call_frontend mc) w =
      update_managed_frontend C P keys newer (E.frontend mc) mc.slug latest w
