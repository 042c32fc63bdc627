-- ===== src/Config.antt =====
-- config.go: the configuration, its defaults, and the URLs that are made of it.
pub mod Url
pub mod Laws
use banyan_hub_sdk.Base.{leb, if◌then◌else◌, ℕ, ◌*◌, String, Bool, Option, List}
use banyan_hub_sdk.Errors.Api.{Bytes, or_else}

-- `UpdateStrategy`; any other number behaves like `update_frontend`.
pub data UpdateStrategy : Type 0 where
  update_backend update_frontend : UpdateStrategy
  other_strategy : ℕ → UpdateStrategy

-- `ManagedComponent`, without its hook.
pub record ManagedComponent : Type 0 where
  pub slug : String
  pub dir : String
  pub strategy : UpdateStrategy

-- `GracePolicy`, `OTAConfig` and `Config`, without the callbacks. A duration or size that Go gives as
-- a negative number is 0 here: every use of one tests `<= 0` first.
pub record GracePolicy : Type 0 where
  pub max_offline_duration : ℕ
  pub warning_interval : ℕ

pub record OtaConfig : Type 0 where
  pub enabled : Bool
  pub auto_update : Bool
  pub check_interval : ℕ
  pub os : String
  pub arch : String
  pub download_timeout : ℕ
  pub max_artifact_bytes : ℕ

pub record Config : Type 0 where
  pub server_url : String
  pub license_key : String
  pub public_key_pem : Option Bytes
  pub legacy_public_keys_pem : List Bytes
  pub project_slug : String
  pub component_slug : String
  pub heartbeat_interval : ℕ
  pub grace_policy : GracePolicy
  pub ota : OtaConfig
  pub managed_components : List ManagedComponent
  pub allow_system_trust : Bool
  pub pinned_spki_hashes : List String

-- `DefaultServerURL`
abbrev pub default_server_url : String
default_server_url = "https://guard.iluwen.cn"

-- `time.Hour` and `time.Minute`, in nanoseconds.
abbrev pub hour : ℕ
hour = 3_600_000_000_000

abbrev pub minute : ℕ
minute = 60_000_000_000

-- `if n <= 0 { n = d }`
abbrev pub positive_or : ℕ → ℕ → ℕ
positive_or n d = if leb n 0 then d else n

-- `setDefaults`; the last two arguments are `runtime.GOOS` and `runtime.GOARCH`.
unfoldable pub set_defaults : String → String → Config → Config
set_defaults goos goarch c = record c {
  server_url = or_else c.server_url default_server_url;
  heartbeat_interval = positive_or c.heartbeat_interval (1 * hour);
  grace_policy = record {
    max_offline_duration = positive_or c.grace_policy.max_offline_duration (72 * hour);
    warning_interval = positive_or c.grace_policy.warning_interval (4 * hour);
  };
  ota = record c.ota {
    check_interval = positive_or c.ota.check_interval (6 * hour);
    os = or_else c.ota.os goos;
    arch = or_else c.ota.arch goarch;
    download_timeout = positive_or c.ota.download_timeout (10 * minute);
    max_artifact_bytes = positive_or c.ota.max_artifact_bytes (500 * 1024 * 1024);
  };
}
