-- ===== src/Tests/Toy.antt =====
-- The toy platform and the data that the examples share.
use banyan_hub_sdk.Base.{
  nat_eq, if◌then◌else◌, string_eq, ◌==◌, ℕ, String, Bool, true, false, none, some, [], ◌∷◌,
}
use banyan_hub_sdk.Errors.{sentinel_eq, text, Result, ok, err}
use banyan_hub_sdk.Errors.Api.{Bytes}
use banyan_hub_sdk.Guard.{Settings, Guard}
use banyan_hub_sdk.Heartbeat.{HeartbeatResponse, HeartbeatEnv}
use banyan_hub_sdk.Heartbeat.Loop.{Round}
use banyan_hub_sdk.License.Online.{VerifyEnv}
use banyan_hub_sdk.Platform.{Platform}
use banyan_hub_sdk.Store.{Identity, Store}
use banyan_hub_sdk.Types.{Lease, PersistedState, init, active, state_eq}

-- Times are texts from a table; the one key that verifies a signature starts with the byte 3.

abbrev pub toy_parse_time : String → Result ℕ
toy_parse_time s =
    if s == "2025"
    then ok 900_000_000_000
    else if s == "2026"
    then ok 1_000_000_000_000
    else if s == "2030"
    then ok 2_000_000_000_000
    else err (text "cannot parse time")

abbrev toy_verify : Bytes → Bytes → Bytes → Bool
toy_verify [] digest signature = false
toy_verify (k ∷ key) digest signature = nat_eq k 3

abbrev pub toy_lease : Lease
toy_lease = record {
  expires_at = "2030";
  features = "export" ∷ [];
  grace_until = "2030";
  issued_at = "2025";
  lease_id = "lease";
  license_key = "K";
  machine_id = "m";
  max_machines = 1;
  project_slug = "p";
  server_time = "2026";
  tier = "pro";
}

abbrev pub toy_state : PersistedState
toy_state = record {
  lease = some toy_lease;
  lease_canonical = 1 ∷ [];
  lease_signature = "sig";
  watermark = "2025";
  lock_flag = false;
  ban_flag = false;
  updated_at = "2026";
}

-- A platform whose decoder of states always gives `held`.
abbrev pub toy_platform : PersistedState → Platform
toy_platform held = record {
  bytes_of = λ s. 1 ∷ [];
  trim_bytes = λ b. b;
  encode_base64 = λ b. "mac";
  decode_base64 = λ s. ok (9 ∷ []);
  encode_hex = λ b. "hex";
  parse_time = toy_parse_time;
  format_time = λ t. "2026";
  sha256 = λ b. b;
  hmac = λ key b. 9 ∷ [];
  hkdf = λ secret salt info. ok (5 ∷ []);
  ed25519_verify = toy_verify;
  json_valid = λ b. true;
  unmarshal_object = λ b. err (text "not an object");
  unmarshal_array = λ b. err (text "not an array");
  json_compact = ok;
  marshal_text = λ s. 1 ∷ [];
  marshal_lease = λ l. ok (1 ∷ []);
  unmarshal_lease = λ b. ok toy_lease;
  marshal_state = λ s. ok (2 ∷ []);
  unmarshal_state = λ b. ok held;
  marshal_envelope = λ e. ok (e.payload);
  unmarshal_envelope = λ b. ok (record { payload = b; signature = "mac" });
}

abbrev pub toy : Platform
toy = toy_platform toy_state

abbrev pub toy_identity : Identity
toy_identity = record {
  license_key = "K";
  machine_id = "m";
  project_slug = "p";
  component_slug = "c";
}

abbrev pub toy_settings : Settings
toy_settings = record {
  identity = toy_identity;
  public_key = [];
  public_keys = (3 ∷ []) ∷ [];
  aux_signals = ("os", "linux") ∷ [];
  hostname = "host";
}

-- A store with no files, and one whose file holds an envelope.
abbrev pub leased_store : Store
leased_store = record {
  current = some toy_state;
  files = record { target = none; temp = none };
  faults = [];
}

abbrev pub written_store : Store
written_store = record {
  current = none;
  files = record { target = some (2 ∷ []); temp = none };
  faults = [];
}

abbrev pub leased_guard : Guard
leased_guard = record { machine = init; store = leased_store }

abbrev pub active_guard : Guard
active_guard = record { machine = active; store = leased_store }

abbrev pub blank_guard : Guard
blank_guard = record {
  machine = init;
  store = record { current = none; files = record { target = none; temp = none }; faults = [] };
}

-- A license check at the time `now` that cannot reach the server.
abbrev pub offline_at : ℕ → VerifyEnv
offline_at now = record {
  now = now;
  save_time = now;
  binary_hash = err (text "unreadable");
  nonce = ok "n";
  marshal_request = λ r. ok (1 ∷ []);
  post = λ path b. err (text "no route to host");
  unmarshal_response = λ b. err (text "no answer");
}

abbrev pub kill_response : HeartbeatResponse
kill_response = record {
  status = "kill";
  lease = [];
  lease_signature = "";
  response_signature = "sig";
  nonce = "n";
  server_time = "2026";
  updates = [];
  reason = "";
  message = "";
}

-- A heartbeat that is answered by `kill_response`.
abbrev pub kill_env : HeartbeatEnv
kill_env = record {
  version = "1.0.0";
  managed_versions = [];
  managed_slugs = [];
  ota_enabled = true;
  request_time = 1_000_000_000_000;
  lease_time = 1_000_000_000_000;
  save_time = 1_000_000_000_000;
  binary_hash = ok "hash";
  nonce = ok "n";
  context_error = none;
  marshal_request = λ r. ok (1 ∷ []);
  post = λ path b. ok (1 ∷ []);
  unmarshal_response = λ b. ok kill_response;
  marshal_updates = λ us. [];
  marshal_payload = λ p. ok (1 ∷ []);
}

-- A heartbeat that fails.
abbrev pub silent_env : HeartbeatEnv
silent_env = record kill_env { post = λ path b. err (text "no route to host") }

abbrev pub round_of : HeartbeatEnv → Round
round_of E = record {
  done = false;
  env = E;
  ban_time = 0;
  grace_save_time = 0;
  lock_time = 0;
  start_time = 10;
  since_time = 20;
}
