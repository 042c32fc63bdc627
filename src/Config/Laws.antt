-- ===== src/Config/Laws.antt =====
-- What the defaults guarantee.
use banyan_hub_sdk.Base.{◌<◌, String, ◌≡◌, refl, false, arith}
use banyan_hub_sdk.Base.Text.{is_empty}
use banyan_hub_sdk.Config.{Config, default_server_url, set_defaults}
use banyan_hub_sdk.Errors.Api.{or_else}

-- Every value that the guard waits for or limits by is positive, and every text that has a default is
-- not empty.
pub record IsComplete (c : Config) : Type 0 where
  pub server_url : is_empty c.server_url ≡ false
  pub heartbeat_interval : 0 < c.heartbeat_interval
  pub max_offline_duration : 0 < c.grace_policy.max_offline_duration
  pub warning_interval : 0 < c.grace_policy.warning_interval
  pub check_interval : 0 < c.ota.check_interval
  pub os : is_empty c.ota.os ≡ false
  pub arch : is_empty c.ota.arch ≡ false
  pub download_timeout : 0 < c.ota.download_timeout
  pub max_artifact_bytes : 0 < c.ota.max_artifact_bytes

is_empty-or_else : (s t : String) → is_empty t ≡ false → is_empty (or_else s t) ≡ false
is_empty-or_else String.[] t h = h
is_empty-or_else (String.◌∷◌ c s) t h = refl

or_else-kept : (s t : String) → is_empty s ≡ false → or_else s t ≡ s
or_else-kept String.[] t h = cc
or_else-kept (String.◌∷◌ c s) t h = refl

module _ (goos goarch : String) where
  set_defaults-IsComplete :
      is_empty goos ≡ false
      → is_empty goarch ≡ false
      → (c : Config) → IsComplete (set_defaults goos goarch c)
  unfolding set_defaults
  set_defaults-IsComplete a b c = record {
    server_url = is_empty-or_else c.server_url default_server_url refl;
    heartbeat_interval = ground arith;
    max_offline_duration = ground arith;
    warning_interval = ground arith;
    check_interval = ground arith;
    os = is_empty-or_else c.ota.os goos a;
    arch = is_empty-or_else c.ota.arch goarch b;
    download_timeout = ground arith;
    max_artifact_bytes = ground arith;
  }

  set_defaults_of_IsComplete : (c : Config) → IsComplete c → set_defaults goos goarch c ≡ c
  unfolding set_defaults
  set_defaults_of_IsComplete c k = ground (
    arith,
    or_else-kept c.server_url default_server_url k.server_url,
    or_else-kept c.ota.os goos k.os,
    or_else-kept c.ota.arch goarch k.arch,
  )

  -- On a platform whose names are not empty, the defaults make every configuration complete, leave
  -- a complete one as it is, and so change nothing when they are set again.
  set_defaults_lem :
      is_empty goos ≡ false
      → is_empty goarch ≡ false
      → (c : Config)
      → IsComplete (set_defaults goos goarch c)
        × (IsComplete c → set_defaults goos goarch c ≡ c)
        × (set_defaults goos goarch (set_defaults goos goarch c) ≡ set_defaults goos goarch c)
  set_defaults_lem a b c = (
    set_defaults-IsComplete a b c,
    set_defaults_of_IsComplete c,
    set_defaults_of_IsComplete (set_defaults goos goarch c) (set_defaults-IsComplete a b c),
  )
