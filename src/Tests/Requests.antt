-- ===== src/Tests/Requests.antt =====
-- Requests, pinned connections and sealed boxes on concrete input.
use banyan_hub_sdk.Base.{
  nat_eq, if◌then◌else◌, string_eq, All, ℕ, ◌≡◌, refl, ◌↔◌, true, false, none, some, [], ◌∷◌, arith,
}
use banyan_hub_sdk.Base.Text.{trim_right, trim_space, has_prefix}
use banyan_hub_sdk.Binding.{Aead, sealing, feature_token, unseal, seal}
use banyan_hub_sdk.Binding.Laws.{IsAead, unseal-seal, Unsealed, IsBound, unseal-feature_token}
use banyan_hub_sdk.Config.{Config, set_defaults}
use banyan_hub_sdk.Config.Url.{normalize_server_url}
use banyan_hub_sdk.Errors.{text, Result, ok, err}
use banyan_hub_sdk.Errors.Api.{Bytes}
use banyan_hub_sdk.Guard.{LeaseState, lease_state_of, current_active_lease, open_guard}
use banyan_hub_sdk.Hash.{Executable, new_hash_cache, measure_binary, get_all, get_binary_hash_once}
use banyan_hub_sdk.Http.Pinning.{
  pinned, new_pinned_http_client, verify_connection, IsPinned, verify_connection_iff,
}
use banyan_hub_sdk.Opening.{OpeningEnv, NewGuard, decode_public_keys, new_guard}
use banyan_hub_sdk.Opening.Laws.{IsReady, new_guard-IsReady}
use banyan_hub_sdk.Tests.Toy.{toy_lease, toy, leased_store, active_guard}

abbrev pub pinned_config : Config
pinned_config = record {
  server_url = "https://localhost";
  license_key = "K";
  public_key_pem = none;
  legacy_public_keys_pem = [];
  project_slug = "p";
  component_slug = "c";
  heartbeat_interval = 0;
  grace_policy = record { max_offline_duration = 0; warning_interval = 0 };
  ota = record {
    enabled = true;
    auto_update = true;
    check_interval = 0;
    os = "linux";
    arch = "amd64";
    download_timeout = 0;
    max_artifact_bytes = 0;
  };
  managed_components = [];
  allow_system_trust = false;
  pinned_spki_hashes = " mac " ∷ "" ∷ [];
}

pinned_client : new_pinned_http_client pinned_config ≡ ok (pinned ("mac" ∷ []))
unfolding new_pinned_http_client trim_space has_prefix
pinned_client = refl

verify_connection_iff_example :
    (verify_connection toy ("mac" ∷ []) ((7 ∷ []) ∷ []) ≡ ok tt)
    ↔ IsPinned toy (" mac " ∷ "" ∷ []) ((7 ∷ []) ∷ [])
verify_connection_iff_example =
    verify_connection_iff toy pinned_config ("mac" ∷ []) ((7 ∷ []) ∷ []) pinned_client

-- A cipher that keeps the text in the clear, with nonces of one byte.
abbrev plain_cipher : Aead
plain_cipher = record {
  nonce_size = 1;
  seal_bytes = λ nonce plain aad. plain;
  open_bytes = λ nonce box aad. ok box;
}

abbrev plain_gcm : Bytes → Result Aead
plain_gcm key = ok plain_cipher

abbrev zeros : ℕ → Result Bytes
zeros n = if nat_eq n 1 then ok (0 ∷ []) else err (text "no entropy")

plain_cipher-IsAead : IsAead toy plain_gcm zeros
plain_cipher-IsAead = record {
  opens = λ key a nonce plain aad k n. ground arith;
  fills = λ n nonce k. ground arith;
}

abbrev toy_lease_state : LeaseState
toy_lease_state = record { lease = toy_lease; lease_signature = "sig" }

held_lease : current_active_lease active_guard ≡ ok toy_lease_state
unfolding current_active_lease lease_state_of
held_lease = refl

sealed_box : seal toy plain_gcm zeros (sealing toy_lease) "sig" (4 ∷ 5 ∷ []) ≡ ok (0 ∷ 4 ∷ 5 ∷ [])
unfolding seal sealing
sealed_box = refl

unseal-seal_example : unseal toy plain_gcm active_guard (0 ∷ 4 ∷ 5 ∷ []) ≡ ok (4 ∷ 5 ∷ [])
unseal-seal_example =
    unseal-seal toy plain_gcm zeros active_guard toy_lease_state (4 ∷ 5 ∷ []) (0 ∷ 4 ∷ 5 ∷ [])
      plain_cipher-IsAead held_lease sealed_box

unseal-feature_token_example :
    Unsealed toy plain_gcm active_guard
      (0 ∷ 4 ∷ [])
      (unseal toy plain_gcm active_guard (0 ∷ 4 ∷ []))
    × IsBound toy plain_gcm active_guard "export" (feature_token toy active_guard "export")
unseal-feature_token_example = unseal-feature_token toy plain_gcm active_guard (0 ∷ 4 ∷ []) "export"

abbrev binary_file : Executable
binary_file = record { path = ok "/app"; open_file = λ path. none; content = λ path. ok (1 ∷ []) }

abbrev no_file : Executable
no_file = record { path = err (text "gone"); open_file = λ path. none; content = λ path. ok [] }

get_binary_hash_once_example :
    All
      (λ s. s ≡ measure_binary toy binary_file)
      (get_all toy (binary_file ∷ no_file ∷ []) new_hash_cache)
get_binary_hash_once_example = get_binary_hash_once toy binary_file (no_file ∷ [])

-- A guard made of one key.
abbrev some_key : Bytes
some_key =
    1 ∷ 2 ∷ 3 ∷ 4 ∷ 5 ∷ 6 ∷ 7 ∷ 8 ∷ 1 ∷ 2 ∷ 3 ∷ 4 ∷ 5 ∷ 6 ∷ 7 ∷ 8 ∷ 1 ∷ 2 ∷ 3 ∷ 4 ∷ 5 ∷ 6 ∷ 7 ∷ 8
    ∷ 1 ∷ 2 ∷ 3 ∷ 4 ∷ 5 ∷ 6 ∷ 7 ∷ 8 ∷ []

abbrev opening : OpeningEnv
opening = record {
  goos = "linux";
  goarch = "amd64";
  decode_pem = λ b. some some_key;
  parse_url = λ s. ok (record {
    scheme = "https";
    host = "localhost";
    raw_query = "";
    fragment = "";
    printed = "https://localhost";
  });
  machine_id = ok "m";
  aux_signals = [];
  hostname = "host";
  read_error = none;
  now = 1;
  save_time = 1;
}

abbrev keyed_config : Config
keyed_config = record pinned_config { public_key_pem = some (7 ∷ []) }

abbrev opened_guard : NewGuard
opened_guard = record {
  config = record (set_defaults "linux" "amd64" keyed_config) { server_url = "https://localhost" };
  settings = record {
    identity = record {
      license_key = "K";
      machine_id = "m";
      project_slug = "p";
      component_slug = "c";
    };
    public_key = some_key;
    public_keys = some_key ∷ [];
    aux_signals = [];
    hostname = "host";
  };
  client = pinned ("mac" ∷ []);
  guard =
      open_guard toy
        (record { license_key = "K"; machine_id = "m"; project_slug = "p"; component_slug = "c" }) 1
        1 none leased_store;
  version = "unknown";
  managed_versions = [];
}

opens : new_guard toy opening keyed_config leased_store ≡ ok opened_guard
unfolding new_guard set_defaults decode_public_keys normalize_server_url new_pinned_http_client
    trim_space trim_right has_prefix string_eq
opens = refl

new_guard-IsReady_example : IsReady toy opening keyed_config leased_store opened_guard
new_guard-IsReady_example =
    new_guard-IsReady toy opening keyed_config leased_store opened_guard opens
