-- ===== src/Plugins/Laws.antt =====
-- The update of a plugin by hand, and the one that a notification starts.
use banyan_hub_sdk.Base.{
  if◌then◌else◌, Bool-cases, string_eq, ◌==◌, String, ◌≡◌, refl, sym, ap, ◌∙◌, subst, ◌⊎◌, inl, inr,
  Bool, true, false, Option, none, some, List, [], ◌∷◌, arith,
}
use banyan_hub_sdk.Base.Text.{is_empty}
use banyan_hub_sdk.Config.{ManagedComponent, Config}
use banyan_hub_sdk.Errors.{plugin_not_managed, sentinel_eq, sentinel, Result, ok, err, ◌>>=◌}
use banyan_hub_sdk.Errors.Api.{Bytes}
use banyan_hub_sdk.Platform.{Platform}
use banyan_hub_sdk.Plugins.{
  PluginInfo, PluginCatalog, find_plugin, find_managed_component, ready_plugin, update_component,
  update_plugin, newest, check_target, update_managed, update_ready,
}
use banyan_hub_sdk.Plugins.Targets.{target_of-call_for, IsTargetOf, own_or_managed}
use banyan_hub_sdk.Types.{state_eq}
use banyan_hub_sdk.Updater.{Callbacks, Target, managed, current_version, set_version}
use banyan_hub_sdk.Updater.Frontend.Update.{FrontendUpdate}
use banyan_hub_sdk.Updater.Routing.{
  UpdateEnv, UpdateCall, call_backend, call_for, notify_managed, handle_update_notification,
  run_update,
}
use banyan_hub_sdk.Updater.Routing.Laws.{target_of, Recorded, CanBackUp, run_update-Recorded}
use banyan_hub_sdk.Updater.Versions.{Same}
use mathlib.Core.Logic.{if_pos, if_neg}

module _ {A : Type 0} (C : Callbacks) (P : Platform) (keys : List Bytes)
    (newer : String → String → Bool) (E : UpdateEnv A) (cfg : Config) where
  -- The update that a notification starts, where the version is not already there.
  abbrev pub by_notification :
      String → FrontendUpdate A → Option UpdateCall → FrontendUpdate A × Result (Unit {0})
  by_notification latest w none = (w, err (sentinel plugin_not_managed))
  by_notification latest w (some c) =
      if current_version (target_of c) w.updates == latest
      then (w, ok tt)
      else run_update C P keys newer E cfg latest c w

  module _ (slug : String) (latest : String) (w : FrontendUpdate A) where
    called :
        (mc : ManagedComponent)
        → mc.slug ≡ slug
        → update_managed C P keys newer E cfg slug latest w (some mc)
          ≡ by_notification latest w (some (call_for mc mc.strategy))
    unfolding update_managed
    called mc same =
        ap
          (λ t.
            if current_version t w.updates == latest
            then (w, ok tt)
            else run_update C P keys newer E cfg latest (call_for mc mc.strategy) w)
          (ap managed (sym same) ∙ sym (target_of-call_for mc mc.strategy))

    managed_notified :
        (components : List ManagedComponent)
        → update_managed C P keys newer E cfg slug latest w (find_managed_component slug components)
          ≡ by_notification latest w (notify_managed true slug components)
    unfolding update_managed notify_managed
    managed_notified [] = refl
    managed_notified (mc ∷ components) = elim (string_eq.dec mc.slug slug) [
      | yes same ↦ rw (if_pos _ same) (called mc same)
      | no other ↦ rw (if_neg _ other) (managed_notified components)
    ]

    -- The update of the component that the slug names.
    abbrev chosen : Option UpdateCall
    chosen =
        if slug == cfg.component_slug
        then some call_backend
        else notify_managed true slug cfg.managed_components

    update_component-chosen :
        update_component C P keys newer E cfg slug latest w ≡ by_notification latest w chosen
    unfolding update_component
    update_component-chosen = elim (string_eq.dec slug cfg.component_slug) [
      | yes same ↦ rw (if_pos _ same) refl
      | no other ↦ rw (if_neg _ other) (managed_notified cfg.managed_components)
    ]

    -- With automatic updates on, the update that `UpdatePlugin` makes of a component is the one
    -- that a notification for the same slug starts, where the version is not there already, and
    -- `ErrPluginNotManaged` where a notification starts none.
    pub update_component-notification :
        cfg.ota.auto_update ≡ true
        → update_component C P keys newer E cfg slug latest w
          ≡ by_notification latest w (handle_update_notification cfg slug)
    unfolding handle_update_notification
    update_component-notification auto =
        update_component-chosen
        ∙ ap
            (λ b. by_notification latest w (
              if slug == cfg.component_slug
              then if b then some call_backend else none
              else notify_managed b slug cfg.managed_components))
            (sym auto)

  -- What the catalog offers of the plugin.
  pub record Offered (catalog : Result PluginCatalog) (slug latest : String) : Type 0 where
    pub shown : PluginCatalog
    pub plugin : PluginInfo
    pub fetched : catalog ≡ ok shown
    pub thawed : shown.updates_frozen ≡ false
    pub found : find_plugin slug shown.plugins ≡ some plugin
    pub enabled : plugin.ota_enabled ≡ true
    pub waiting : plugin.update_available ≡ true
    pub allowed : plugin.can_update ≡ true
    pub version : plugin.latest_version ≡ some latest

  newest_lem : (v : Option String) (latest : String) → newest v ≡ ok latest → v ≡ some latest
  unfolding newest
  newest_lem none latest h = absurd (ground arith)
  newest_lem (some v) latest h = ground arith

  module _ (slug : String) (latest : String) where
    checked_lem :
        (shown : PluginCatalog) (found : Option PluginInfo)
        → shown.updates_frozen ≡ false
        → find_plugin slug shown.plugins ≡ found
        → check_target found ≡ ok latest
        → Offered (ok shown) slug latest
    unfolding check_target
    checked_lem shown none t f h = absurd (ground arith)
    checked_lem shown (some p) t f h = record {
      shown = shown;
      plugin = p;
      fetched = refl;
      thawed = t;
      found = f;
      enabled = ground arith;
      waiting = ground arith;
      allowed = ground arith;
      version = newest_lem p.latest_version latest (ground arith);
    }

    ready_plugin_lem :
        (shown : PluginCatalog)
        → ready_plugin slug shown ≡ ok latest
        → Offered (ok shown) slug latest
    unfolding ready_plugin
    ready_plugin_lem shown h =
        checked_lem shown (find_plugin slug shown.plugins) (ground arith) refl (ground arith)

    offered_lem :
        (catalog : Result PluginCatalog)
        → (catalog >>= ready_plugin slug) ≡ ok latest
        → Offered catalog slug latest
    offered_lem (err e) h = absurd (ground arith)
    offered_lem (ok shown) h = ready_plugin_lem shown h

  -- On success the plugin was offered, and is either at the offered version, or at it now and was at an
  -- older one; on an error all versions are as they were.
  abbrev pub PluginUpdated :
      Result PluginCatalog
      → String
      → FrontendUpdate A
      → FrontendUpdate A × Result (Unit {0})
      → Type 0
  PluginUpdated catalog slug w (v, ok _) =
      (latest : String) × Offered catalog slug latest
      × ((t : Target) × IsTargetOf cfg slug t
          × (((v ≡ w) × (current_version t w.updates ≡ latest))
              ⊎ ((newer (current_version t w.updates) latest ≡ true)
                  × Same v.updates (set_version t latest w.updates))))
  PluginUpdated catalog slug w (v, err e) = Same v.updates w.updates

  module _ (catalog : Result PluginCatalog) (slug : String) (w : FrontendUpdate A) (latest : String)
      (offered : Offered catalog slug latest) where
    recorded :
        (t : Target) (r : FrontendUpdate A × Result (Unit {0}))
        → IsTargetOf cfg slug t
        → Recorded C P keys newer E cfg latest t w.updates (r.0.updates, r.1)
        → PluginUpdated catalog slug w r
    recorded t (v, ok x) m (n, s) = (latest, offered, (t, m, inr (n, s)))
    recorded t (v, err e) m (k, s) = s

    module _ (b : (c : UpdateCall) → CanBackUp C P keys newer E cfg latest c w) where
      notified_lem :
          (c : Option UpdateCall)
          → ((x : UpdateCall) → c ≡ some x → IsTargetOf cfg slug (target_of x))
          → PluginUpdated catalog slug w (by_notification latest w c)
      notified_lem none named = (refl, refl)
      notified_lem (some c) named =
          elim (string_eq.dec (current_version (target_of c) w.updates) latest) [
            | yes same ↦
                rw (if_pos _ same) (latest, offered, (target_of c, named c refl, inl (refl, same)))
            | no other ↦ rw (if_neg _ other) (
                recorded (target_of c) (run_update C P keys newer E cfg latest c w) (named c refl)
                  (run_update-Recorded C P keys newer E cfg latest c w (b c)))
          ]

      component_lem :
          PluginUpdated catalog slug w (update_component C P keys newer E cfg slug latest w)
      component_lem =
          subst (PluginUpdated catalog slug w) (sym (update_component-chosen slug latest w))
            (notified_lem (chosen slug latest w) (own_or_managed cfg slug))

  module _ (catalog : Result PluginCatalog) (slug : String) (w : FrontendUpdate A)
      (b : (latest : String) (c : UpdateCall) → CanBackUp C P keys newer E cfg latest c w) where
    ready_lem :
        (r : Result String)
        → (catalog >>= ready_plugin slug) ≡ r
        → PluginUpdated catalog slug w (update_ready C P keys newer E cfg slug w r)
    unfolding update_ready
    ready_lem (err e) h = (refl, refl)
    ready_lem (ok latest) h =
        component_lem catalog slug w latest (offered_lem slug latest catalog h) (b latest)

    -- Where the old backup of a frontend can be removed or is not there: an update of a plugin by
    -- hand that succeeds was offered by a catalog that is not frozen, with over-the-air updates
    -- enabled and allowed and the version named; its slug is that of the guard's own component or,
    -- if it is not, of a managed one; and either that component was at the version already and
    -- nothing changed, or the version was recorded for that component, over an older one. One that
    -- fails leaves all versions as they were.
    pub update_plugin-Updated :
        PluginUpdated catalog slug w (update_plugin C P keys newer E cfg catalog slug w)
    unfolding update_plugin
    update_plugin-Updated = elim (Bool-cases (is_empty slug)) [
      | inl e ↦ rw e (refl, refl)
      | inr e ↦ rw e (ready_lem (catalog >>= ready_plugin slug) refl)
    ]
