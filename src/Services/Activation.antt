-- ===== src/Services/Activation.antt =====
-- `ActivateWithOptions` of activate.go.
pub mod Laws
use banyan_hub_sdk.Base.{
  if◌then◌else◌, ℕ, String, ◌<>◌, Bool, true, false, not, Option, none, some, List, [], ◌∷◌,
}
use banyan_hub_sdk.Base.Text.{is_empty}
use banyan_hub_sdk.Config.{Config, positive_or}
use banyan_hub_sdk.Config.Url.{ParsedUrl, normalize_server_url}
use banyan_hub_sdk.Errors.{
  network_error, invalid_server_response, text, wrap, detail, Result, ok, ◌>>=◌, ◌>>◌, refuse_if,
  map_err,
}
use banyan_hub_sdk.Errors.Api.{Bytes, Response, or_else}
use banyan_hub_sdk.Http.{Request, Http, accept_answer, make_request}
use banyan_hub_sdk.Http.Pinning.{Client, new_pinned_http_client}

-- `ActivationOptions` without its context, and `ActivationResult`. The client is what its `Do` does.
pub record ActivationOptions : Type 0 where
  pub server_url : String
  pub code : String
  pub organization : String
  pub email : String
  pub timeout : ℕ
  pub http_client : Option (Request → Result Response)
  pub allow_system_trust : Bool
  pub pinned_spki_hashes : List String
  pub user_agent : String

pub record ActivationResult : Type 0 where
  pub license_key : String
  pub project_slug : String
  pub expires_at : String

-- `defaultActivationTimeout`, in nanoseconds.
abbrev pub default_activation_timeout : ℕ
default_activation_timeout = 30_000_000_000

-- What is called: the client's `Do`, with its timeout, and the encoder, the decoder and the URLs.
pub record ActivationEnv : Type 0 where
  pub parse_url : String → Result ParsedUrl
  pub connect : Client → ℕ → Request → Result Response
  pub marshal : List (String × String) → Result Bytes
  pub unmarshal : Bytes → Result ActivationResult

-- `Config{}` with the three fields that a client is made of.
client_config : String → Bool → List String → Config
client_config server_url allow_system_trust pins = record {
  server_url = server_url;
  license_key = "";
  public_key_pem = none;
  legacy_public_keys_pem = [];
  project_slug = "";
  component_slug = "";
  heartbeat_interval = 0;
  grace_policy = record { max_offline_duration = 0; warning_interval = 0 };
  ota = record {
    enabled = false;
    auto_update = false;
    check_interval = 0;
    os = "";
    arch = "";
    download_timeout = 0;
    max_artifact_bytes = 0;
  };
  managed_components = [];
  allow_system_trust = allow_system_trust;
  pinned_spki_hashes = pins;
}

module _ (H : Http) (E : ActivationEnv) where
  unfoldable pub sender : ActivationOptions → String → Result (Request → Result Response)
  unfolding client_config
  sender o server_url = elim o.http_client [
    | some send ↦ ok send
    | none ↦
        new_pinned_http_client (client_config server_url o.allow_system_trust o.pinned_spki_hashes)
        >>= λ c. ok (E.connect c (positive_or o.timeout default_activation_timeout))
  ]

  payload_of : ActivationOptions → List (String × String)
  payload_of o =
      ("code", o.code)
      ∷ ("organization", o.organization)
      ∷ (if not (is_empty o.email) then ("email", o.email) ∷ [] else [])

  -- `activationUserAgent`
  activation_user_agent : String → String
  activation_user_agent user_agent = or_else user_agent ("BanyanHub-SDK/" <> H.version)

  activation_request : ActivationOptions → String → Bytes → Request
  unfolding activation_user_agent
  activation_request o url body = record {
    method = "POST";
    url = url;
    payload = some body;
    user_agent = activation_user_agent o.user_agent;
    content_type = some "application/json";
  }

  -- `ActivateWithOptions`
  unfoldable pub activate_with_options : ActivationOptions → Result ActivationResult
  unfolding payload_of activation_request normalize_server_url
  activate_with_options o = do
    refuse_if (is_empty o.code) (text "activation code is required")
    refuse_if (is_empty o.organization) (text "organization is required")
    server_url ← normalize_server_url E.parse_url o.server_url
    send ← sender o server_url
    body ← map_err (wrap "marshal request") (E.marshal (payload_of o))
    map_err (wrap "create request") (make_request H "POST" (server_url <> "/api/v1/activate"))
    resp ←
        map_err (detail network_error)
          (send (activation_request o (server_url <> "/api/v1/activate") body))
    raw ← accept_answer H resp
    map_err (detail invalid_server_response) (E.unmarshal raw)

  -- `Activate`
  unfoldable pub activate : String → String → String → String → Result ActivationResult
  activate server_url code organization email = activate_with_options (record {
    server_url = server_url;
    code = code;
    organization = organization;
    email = email;
    timeout = default_activation_timeout;
    http_client = none;
    allow_system_trust = true;
    pinned_spki_hashes = [];
    user_agent = "";
  })
