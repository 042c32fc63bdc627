-- ===== src/Tests/Frontends.antt =====
-- The update of a frontend, from the paths of an archive to the directory in place.
use banyan_hub_sdk.Base.{
  ltb, string_eq, All, String, ◌≡◌, refl, inl, Bool, true, false, none, some, List, [], ◌∷◌,
}
use banyan_hub_sdk.Base.Text.{has_prefix}
use banyan_hub_sdk.Config.{update_frontend, Config}
use banyan_hub_sdk.Errors.{update_concurrent, sentinel, ok, err}
use banyan_hub_sdk.Errors.Api.{Bytes}
use banyan_hub_sdk.Plugins.{PluginCatalog, update_component, update_plugin}
use banyan_hub_sdk.Plugins.Laws.{
  by_notification, update_component-notification, PluginUpdated, update_plugin-Updated,
}
use banyan_hub_sdk.Tests.Toy.{toy}
use banyan_hub_sdk.Updater.{Callbacks}
use banyan_hub_sdk.Updater.Frontend.Archive.{
  regular_file, Member, Archive, FileCall, make_parents, open_path, write_content, then_call,
  unpack_file, unpack_kind, unpack_member, unpack_members, unpack,
}
use banyan_hub_sdk.Updater.Frontend.Archive.Laws.{IsConfined, unpack-Confined}
use banyan_hub_sdk.Updater.Frontend.Paths.{is_rooted, clean, join, is_inside}
use banyan_hub_sdk.Updater.Frontend.Swap.{no_swap_faults}
use banyan_hub_sdk.Updater.Frontend.Update.{FrontendEnv, FrontendUpdate, update_managed_frontend}
use banyan_hub_sdk.Updater.Frontend.Update.Laws.{update_managed_frontend-Updated}
use banyan_hub_sdk.Updater.Frontend.Update.Stages.{FrontendUpdated}
use banyan_hub_sdk.Updater.Routing.{
  UpdateEnv, UpdateCall, call_backend, call_managed_backend, call_frontend,
  handle_update_notification,
}
use banyan_hub_sdk.Updater.Routing.Laws.{CanBackUp}

up_and_out : clean "/tmp/x/../../etc/passwd" ≡ "/etc/passwd"
unfolding clean string_eq has_prefix
up_and_out = refl

dots : join "/tmp/x" "./a//b/../c/" ≡ "/tmp/x/a/c"
unfolding join string_eq has_prefix clean
dots = refl

relative : join "x" "../../a" ≡ "../a"
unfolding join string_eq has_prefix clean
relative = refl

abbrev page : Member
page = record {
  name = "index.html";
  kind = regular_file;
  mode = 420;
  content = 1 ∷ [];
  mkdir = none;
  open_file = none;
  copy_content = none;
  close_file = none;
}

-- A member that would leave the directory, and one that does not.
abbrev site : Archive
site = record { members = (record page { name = "../../etc/passwd" }) ∷ page ∷ []; failure = none }

is_rooted_tmp : is_rooted "/tmp/x" ≡ true
unfolding has_prefix
is_rooted_tmp = refl

unpack-Confined_example : All (IsConfined "/tmp/x") (unpack "/tmp/x" site).0
unpack-Confined_example = unpack-Confined "/tmp/x" is_rooted_tmp site

unpacked_site : unpack "/tmp/x" site ≡ (
  make_parents "/tmp/x/index.html"
      ∷ open_path "/tmp/x/index.html" 420
      ∷ write_content "/tmp/x/index.html" (1 ∷ [])
      ∷ [],
  ok tt,
)
unfolding unpack unpack_members unpack_member unpack_kind unpack_file then_call join is_inside clean
    string_eq has_prefix
unpacked_site = refl

abbrev site_env : FrontendEnv (List FileCall)
site_env = record {
  request_meta = ok (record { url = "u"; sha256 = "h"; signature = "sig" });
  download = λ url. ok "h";
  make_temp = ok "/tmp/x";
  open_archive = none;
  new_reader = ok site;
  tree = λ calls. calls;
  swap_faults = no_swap_faults;
  has_hook = true;
}

abbrev all_callbacks : Callbacks
all_callbacks = record { on_progress = true; on_result = true; on_failure = true }

abbrev before : FrontendUpdate (List FileCall)
before = record {
  updates = record {
    version = "1";
    managed_versions = ("web", "1") ∷ [];
    locked = false;
    events = [];
  };
  directories = record { target = some []; backup = none; unpacked = none };
  calls = [];
  hook_called = false;
}

abbrev keys : List Bytes
keys = (3 ∷ []) ∷ []

abbrev newer : String → String → Bool
newer a b = ltb 0 1

update_managed_frontend-Updated_example :
    let r = update_managed_frontend all_callbacks toy keys newer site_env "web" "2" before in
    FrontendUpdated all_callbacks toy keys newer site_env "web" "2" before r
    × (r.0.updates.locked ≡ false)
    × (false ≡ true → r.1 ≡ err (sentinel update_concurrent))
update_managed_frontend-Updated_example =
    update_managed_frontend-Updated all_callbacks toy keys newer site_env "web" "2" before
      (inl refl)

-- The plugin whose update this is.
abbrev plugin_config : Config
plugin_config = record {
  server_url = "http://localhost";
  license_key = "K";
  public_key_pem = none;
  legacy_public_keys_pem = [];
  project_slug = "p";
  component_slug = "c";
  heartbeat_interval = 0;
  grace_policy = record { max_offline_duration = 0; warning_interval = 0 };
  ota = record {
    enabled = true;
    auto_update = true;
    check_interval = 0;
    os = "linux";
    arch = "amd64";
    download_timeout = 0;
    max_artifact_bytes = 0;
  };
  managed_components = record { slug = "web"; dir = "/srv/web"; strategy = update_frontend } ∷ [];
  allow_system_trust = false;
  pinned_spki_hashes = " pin " ∷ "" ∷ [];
}

abbrev offered : PluginCatalog
offered = record {
  project_slug = "p";
  machine_id = "m";
  source_os = "linux";
  source_arch = "amd64";
  updates_frozen = false;
  plugins =
      record {
        slug = "web";
        name = "Web";
        kind = "frontend";
        ota_enabled = true;
        installed_version = some "1";
        latest_version = some "2";
        update_available = true;
        can_update = true;
      }
      ∷ [];
}

abbrev site_updates : UpdateEnv (List FileCall)
site_updates = record {
  executable = ok "/usr/bin/app";
  binary = λ path. record {
    request_meta = ok (record { url = "u"; sha256 = "h"; signature = "sig" });
    download = λ url. ok "h";
    apply_binary = ok tt;
  };
  frontend = λ mc. site_env;
}

backs_up :
    (latest : String) (c : UpdateCall)
    → CanBackUp all_callbacks toy keys newer site_updates plugin_config latest c before
backs_up latest call_backend = tt
backs_up latest (call_managed_backend mc) = tt
backs_up latest (call_frontend mc) = inl refl

update_plugin-Updated_example :
    PluginUpdated all_callbacks toy keys newer site_updates plugin_config
      (ok offered)
      "web"
      before
      (update_plugin all_callbacks toy keys newer site_updates plugin_config
        (ok offered)
        "web"
        before)
update_plugin-Updated_example =
    update_plugin-Updated all_callbacks toy keys newer site_updates plugin_config (ok offered) "web"
      before backs_up

update_component-notification_example :
    update_component all_callbacks toy keys newer site_updates plugin_config "web" "2" before
    ≡ by_notification all_callbacks toy keys newer site_updates plugin_config "2" before
        (handle_update_notification plugin_config "web")
update_component-notification_example =
    update_component-notification all_callbacks toy keys newer site_updates plugin_config "web" "2"
      before refl
