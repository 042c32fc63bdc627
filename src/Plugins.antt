-- ===== src/Plugins.antt =====
-- plugins.go: the catalog of plugins, and the update of one of them by hand.
pub mod Targets
pub mod Laws
use banyan_hub_sdk.Base.{
  if◌then◌else◌, string_eq, ◌==◌, String, ◌<>◌, Bool, true, not, Option, none, some, List, [], ◌∷◌,
}
use banyan_hub_sdk.Base.Text.{trim_space, is_empty}
use banyan_hub_sdk.Config.{ManagedComponent, Config}
use banyan_hub_sdk.Errors.{
  update_frozen, invalid_server_response, plugin_not_found, plugin_not_managed, no_plugin_update,
  plugin_ota_disabled, sentinel_eq, sentinel, text, wrap, detail, Result, ok, err, ◌>>=◌, ◌>>◌,
  refuse_if, map_err,
}
use banyan_hub_sdk.Errors.Api.{Bytes, or_else}
use banyan_hub_sdk.Http.{Http, post_json, get_json}
use banyan_hub_sdk.Platform.{Platform}
use banyan_hub_sdk.Types.{state_eq}
use banyan_hub_sdk.Updater.{Callbacks, own, managed, current_version}
use banyan_hub_sdk.Updater.Frontend.Update.{FrontendUpdate}
use banyan_hub_sdk.Updater.Routing.{UpdateEnv, call_backend, call_for, run_update}

-- `PluginInfo`, without its description, release notes and size, which the SDK only passes on.
pub record PluginInfo : Type 0 where
  pub slug : String
  pub name : String
  pub kind : String
  pub ota_enabled : Bool
  pub installed_version : Option String
  pub latest_version : Option String
  pub update_available : Bool
  pub can_update : Bool

-- `PluginCatalog`
pub record PluginCatalog : Type 0 where
  pub project_slug : String
  pub machine_id : String
  pub source_os : String
  pub source_arch : String
  pub updates_frozen : Bool
  pub plugins : List PluginInfo

-- `PluginUpdateOptions`, and `pluginUpdateRequestBody` with an absent version as the empty text.
pub record PluginUpdateOptions : Type 0 where
  pub version : String
  pub os : String
  pub arch : String

pub record PluginUpdateRequestBody : Type 0 where
  pub license_key : String
  pub machine_id : String
  pub project_slug : String
  pub os : String
  pub arch : String
  pub version : String

module _ (H : Http) (cfg : Config) (machine_id : String) where
  catalog_query : Bool → List (String × String)
  catalog_query include_uninstalled =
      ("license_key", cfg.license_key)
      ∷ ("machine_id", machine_id)
      ∷ ("project_slug", cfg.project_slug)
      ∷ ("os", cfg.ota.os)
      ∷ ("arch", cfg.ota.arch)
      ∷ (if not include_uninstalled then ("include_uninstalled", "false") ∷ [] else [])

  -- `GetPluginCatalog`; the argument is `json.Unmarshal` at its type.
  module _ (unmarshal_catalog : Bytes → Result PluginCatalog) where
    unfoldable pub get_plugin_catalog : Bool → Result PluginCatalog
    unfolding catalog_query
    get_plugin_catalog include_uninstalled =
        map_err (wrap "request plugin catalog")
          (get_json H "/api/v1/plugins/catalog" (catalog_query include_uninstalled))
        >>= λ raw. map_err (detail invalid_server_response) (unmarshal_catalog raw)

    -- `ListPlugins`
    unfoldable pub list_plugins : Result (List PluginInfo)
    list_plugins = get_plugin_catalog true >>= λ catalog. ok catalog.plugins

    abbrev pub available : List PluginInfo → List PluginInfo
    available [] = []
    available (p ∷ plugins) =
        if p.update_available then p ∷ available plugins else available plugins

    -- `CheckPluginUpdates`
    unfoldable pub check_plugin_updates : Result (List PluginInfo)
    check_plugin_updates = list_plugins >>= λ plugins. ok (available plugins)

  -- `resolveOTAPlatform`
  unfoldable pub resolve_ota_platform : String → String → String × String
  resolve_ota_platform os_override arch_override = (
    or_else (or_else (trim_space os_override) (trim_space cfg.ota.os)) "universal",
    or_else (or_else (trim_space arch_override) (trim_space cfg.ota.arch)) "universal",
  )

  -- `RequestPluginUpdate`; the arguments are `url.PathEscape`, and the encoder and decoder of its body.
  module _ {Package : Type 0} (path_escape : String → String)
      (marshal_request : PluginUpdateRequestBody → Result Bytes)
      (unmarshal_package : Bytes → Result Package) where
    plugin_request : PluginUpdateOptions → PluginUpdateRequestBody
    unfolding resolve_ota_platform
    plugin_request options =
        let (os, arch) = resolve_ota_platform options.os options.arch in
        record {
          license_key = cfg.license_key;
          machine_id = machine_id;
          project_slug = cfg.project_slug;
          os = os;
          arch = arch;
          version = trim_space options.version;
        }

    unfoldable pub request_plugin_update : String → PluginUpdateOptions → Result Package
    unfolding plugin_request
    request_plugin_update slug options =
        refuse_if (is_empty slug) (text "plugin slug is required")
        >> (map_err (wrap "marshal request") (marshal_request (plugin_request options)))
        >>= λ body.
            map_err (wrap "request plugin update")
              (post_json H ("/api/v1/plugins/" <> (path_escape slug <> "/update")) body)
            >>= λ raw. map_err (detail invalid_server_response) (unmarshal_package raw)

-- The first plugin of the slug.
abbrev pub find_plugin : String → List PluginInfo → Option PluginInfo
find_plugin slug [] = none
find_plugin slug (p ∷ plugins) = if p.slug == slug then some p else find_plugin slug plugins

-- `findManagedComponent`
abbrev pub find_managed_component : String → List ManagedComponent → Option ManagedComponent
find_managed_component slug [] = none
find_managed_component slug (mc ∷ components) =
    if mc.slug == slug then some mc else find_managed_component slug components

newest : Option String → Result String
newest none = err (sentinel no_plugin_update)
newest (some v) = if is_empty v then err (sentinel no_plugin_update) else ok v

check_target : Option PluginInfo → Result String
unfolding newest
check_target none = err (sentinel plugin_not_found)
check_target (some p) =
    if not p.ota_enabled
    then err (sentinel plugin_ota_disabled)
    else if not p.update_available
    then err (sentinel no_plugin_update)
    else if not p.can_update
    then err (sentinel no_plugin_update)
    else newest p.latest_version

-- The checks of `UpdatePlugin`, which end in the version to install.
unfoldable pub ready_plugin : String → PluginCatalog → Result String
unfolding check_target
ready_plugin slug catalog =
    if catalog.updates_frozen
    then err (sentinel update_frozen)
    else check_target (find_plugin slug catalog.plugins)

module _ {A : Type 0} (C : Callbacks) (P : Platform) (keys : List Bytes)
    (newer : String → String → Bool) (E : UpdateEnv A) (cfg : Config) where
  update_managed :
      String
      → String
      → FrontendUpdate A
      → Option ManagedComponent
      → FrontendUpdate A × Result (Unit {0})
  update_managed slug latest w none = (w, err (sentinel plugin_not_managed))
  update_managed slug latest w (some mc) =
      if current_version (managed slug) w.updates == latest
      then (w, ok tt)
      else run_update C P keys newer E cfg latest (call_for mc mc.strategy) w

  -- The end of `UpdatePlugin`: the component that the slug names.
  unfoldable pub update_component :
      String → String → FrontendUpdate A → FrontendUpdate A × Result (Unit {0})
  unfolding update_managed
  update_component slug latest w =
      if slug == cfg.component_slug
      then if current_version own w.updates == latest
        then (w, ok tt)
        else run_update C P keys newer E cfg latest call_backend w
      else update_managed slug latest w (find_managed_component slug cfg.managed_components)

  update_ready : String → FrontendUpdate A → Result String → FrontendUpdate A × Result (Unit {0})
  update_ready slug w (err e) = (w, err e)
  update_ready slug w (ok latest) = update_component slug latest w

  -- `UpdatePlugin`, of what `GetPluginCatalog` returns.
  unfoldable pub update_plugin :
      Result PluginCatalog → String → FrontendUpdate A → FrontendUpdate A × Result (Unit {0})
  unfolding update_ready
  update_plugin catalog slug w =
      if is_empty slug
      then (w, err (text "plugin slug is required"))
      else update_ready slug w (catalog >>= ready_plugin slug)
