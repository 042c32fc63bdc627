-- ===== src/Services/Releases.antt =====
-- `requestDownloadMeta` of updater.go and `AutoResolveVersion` of guard.go.
use banyan_hub_sdk.Base.{String, ◌<>◌, not}
use banyan_hub_sdk.Base.Text.{is_empty}
use banyan_hub_sdk.Config.{Config}
use banyan_hub_sdk.Errors.{Error, text, wrap, Result, ok, err, ◌>>=◌, ◌>>◌, refuse_if, map_err}
use banyan_hub_sdk.Errors.Api.{Bytes}
use banyan_hub_sdk.Http.{Http, post_json}
use banyan_hub_sdk.Services.{exchange}
use banyan_hub_sdk.Updater.{Updates, own, set_version, DownloadMeta}

-- `downloadMetaRequestBody`, and the answer.
pub record DownloadMetaRequest : Type 0 where
  pub license_key : String
  pub machine_id : String
  pub project_slug : String
  pub component_slug : String
  pub version : String
  pub os : String
  pub arch : String

pub record DownloadMetaResponse : Type 0 where
  pub download_url : String
  pub sha256 : String
  pub signature : String
  pub error : String

-- `versionResolveRequest`, and the answer.
pub record VersionResolveRequest : Type 0 where
  pub license_key : String
  pub machine_id : String
  pub project_slug : String
  pub component : String
  pub binary_hash : String

pub record VersionResolveResponse : Type 0 where
  pub version : String
  pub git_commit : String
  pub build_time : String
  pub error : String

server_error : String → Error
server_error message = text ("server error: " <> message)

module _ (H : Http) (cfg : Config) (machine_id : String) where
  module _ (marshal : DownloadMetaRequest → Result Bytes)
      (unmarshal : Bytes → Result DownloadMetaResponse) where
    -- `requestDownloadMeta`
    unfoldable pub request_download_meta : String → String → String → String → Result DownloadMeta
    unfolding server_error
    request_download_meta component version os arch = do
      resp ←
          exchange marshal unmarshal (λ e. e) (post_json H "/api/v1/update/download")
            (record {
              license_key = cfg.license_key;
              machine_id = machine_id;
              project_slug = cfg.project_slug;
              component_slug = component;
              version = version;
              os = os;
              arch = arch;
            })
      refuse_if (not (is_empty resp.error)) (server_error resp.error)
      ok (record { url = resp.download_url; sha256 = resp.sha256; signature = resp.signature })

  module _ (marshal : VersionResolveRequest → Result Bytes)
      (unmarshal : Bytes → Result VersionResolveResponse) where
    -- What `AutoResolveVersion` asks for, given the result of `GetBinaryHash`.
    unfoldable pub resolve_version : Result String → Result String
    unfolding server_error
    resolve_version binary_hash = do
      hash ← map_err (wrap "calculate binary hash") binary_hash
      resp ←
          exchange marshal unmarshal (wrap "request version resolution")
            (post_json H "/api/v1/version/resolve")
            (record {
              license_key = cfg.license_key;
              machine_id = machine_id;
              project_slug = cfg.project_slug;
              component = cfg.component_slug;
              binary_hash = hash;
            })
      refuse_if (not (is_empty resp.error)) (server_error resp.error)
      ok resp.version

    -- `AutoResolveVersion`
    unfoldable pub auto_resolve_version : Result String → Updates → Updates × Result (Unit {0})
    auto_resolve_version binary_hash u = elim (resolve_version binary_hash) [
      | err e ↦ (u, err e)
      | ok v ↦ (set_version own v u, ok tt)
    ]
