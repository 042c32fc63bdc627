-- ===== src/License/Online.antt =====
-- `validatePersistedLease`, `verifyOnline` and `verifyLicense` of license.go.
pub mod Stored
pub mod Laws
pub mod Restored
use banyan_hub_sdk.Base.{
  if◌then◌else◌, string_eq, ◌==◌, ℕ, ◌/◌, String, Bool, true, false, not, ◌||◌, Option, none, some,
  List, [], ◌∷◌,
}
use banyan_hub_sdk.Base.Text.{is_empty}
use banyan_hub_sdk.Errors.{
  network_error, invalid_server_response, locked, banned, clock_rollback, lease_unavailable,
  sentinel_eq, Error, sentinel, wrap, detail, as_api, Result, ok, err, ◌>>=◌, ◌>>◌, refuse_if,
  map_err,
}
use banyan_hub_sdk.Errors.Api.{Bytes}
use banyan_hub_sdk.Errors.Codes.{map_verify_error}
use banyan_hub_sdk.Guard.{Settings, Guard, verification_keys, current_lease_state, lease_state_of}
use banyan_hub_sdk.License.{before_skewed, parse_and_verify_lease, watermark_of, accept_lease}
use banyan_hub_sdk.Platform.{Platform}
use banyan_hub_sdk.State.{on_verify_success, on_kill, on_grace_period_expired}
use banyan_hub_sdk.Store.{Store}
use banyan_hub_sdk.Types.{Lease, PersistedState, State, state_eq}

-- `verifyResponse`
pub record VerifyResponse : Type 0 where
  pub lease : Bytes
  pub lease_signature : String
  pub server_time : String
  pub error : String
  pub message : String

-- `licenseVerifyRequestBody`
pub record VerifyRequest : Type 0 where
  pub license_key : String
  pub machine_id : String
  pub aux_signals : List (String × String)
  pub project_slug : String
  pub component_slug : String
  pub hostname : String
  pub os : String
  pub arch : String
  pub nonce : String
  pub timestamp : ℕ
  pub binary_hash : String

-- The environment of one check: its clock at the start and at the save, the hash of the binary, the
-- nonce, the encoders, and what `postJSON` answers to a request.
pub record VerifyEnv : Type 0 where
  pub now : ℕ
  pub save_time : ℕ
  pub binary_hash : Result String
  pub nonce : Result String
  pub marshal_request : VerifyRequest → Result Bytes
  pub post : String → Bytes → Result Bytes
  pub unmarshal_response : Bytes → Result VerifyResponse

-- A missing key of a Go map gives the empty text.
abbrev pub signal : String → List (String × String) → String
signal k [] = ""
signal k ((j, v) ∷ m) = if j == k then v else signal k m

-- An API error is returned as it is, any other is a network error.
unfoldable pub api_or_network : Error → Error
unfolding as_api
api_or_network e = elim (as_api e) [ some a ↦ e | none ↦ detail network_error e ]

abbrev is_nil : Bytes → Bool
is_nil [] = true
is_nil (b ∷ bs) = false

module _ (P : Platform) (S : Settings) (E : VerifyEnv) where
  unfoldable pub verify_request : String → String → VerifyRequest
  verify_request binary_hash nonce = record {
    license_key = S.identity.license_key;
    machine_id = S.identity.machine_id;
    aux_signals = S.aux_signals;
    project_slug = S.identity.project_slug;
    component_slug = S.identity.component_slug;
    hostname = S.hostname;
    os = signal "os" S.aux_signals;
    arch = signal "arch" S.aux_signals;
    nonce = nonce;
    timestamp = E.now / 1_000_000_000;
    binary_hash = binary_hash;
  }

  -- What `verifyOnline` makes of the answer.
  unfoldable pub accept_response : String → VerifyResponse → Result (Lease × String)
  accept_response watermark resp = do
    refuse_if (not (is_empty resp.error)) (map_verify_error resp.error)
    refuse_if (is_nil resp.lease || is_empty resp.lease_signature)
        (sentinel invalid_server_response)
    value ←
        parse_and_verify_lease P resp.lease resp.lease_signature (verification_keys S)
          S.identity.machine_id E.now watermark
    ok (value, resp.lease_signature)

  -- `verifyOnline`
  unfoldable pub verify_online : Guard → Result (Lease × String)
  unfolding verify_request
  verify_online g = do
    binary_hash ← map_err (detail network_error) E.binary_hash
    nonce ← E.nonce
    request ←
        map_err (wrap "marshal request") (E.marshal_request (verify_request binary_hash nonce))
    raw ← map_err api_or_network (E.post "/api/v1/verify" request)
    resp ← map_err (detail invalid_server_response) (E.unmarshal_response raw)
    accept_response (watermark_of (current_lease_state g)) resp

  -- The checks of a persisted lease that has a lease, a signature and no flag.
  unfoldable pub validate_lease : PersistedState → Result (Unit {0})
  validate_lease state = do
    parse_and_verify_lease P state.lease_canonical state.lease_signature (verification_keys S)
          S.identity.machine_id E.now state.watermark
        >>= λ _. ok tt
    elim (P.parse_time state.watermark) [
      | ok t ↦ refuse_if (before_skewed E.now t) (sentinel clock_rollback)
      | err e ↦ ok tt
    ]

  validate_state : State → Option PersistedState → State × Result (Unit {0})
  unfolding lease_state_of on_grace_period_expired on_kill
  validate_state m none = (m, err (sentinel lease_unavailable))
  validate_state m (some state) = elim (lease_state_of state) [
    | none ↦ (m, err (sentinel lease_unavailable))
    | some _ ↦
        if state.lock_flag
        then (on_grace_period_expired m, err (sentinel locked))
        else if state.ban_flag
        then (on_kill m, err (sentinel banned))
        else (m, validate_lease state)
  ]

  -- `validatePersistedLease`: the new state of the machine, and the error.
  unfoldable pub validate_persisted_lease : Guard → State × Result (Unit {0})
  unfolding validate_state
  validate_persisted_lease g = validate_state g.machine (current_lease_state g)

  finish_accepting : Guard → Store × Result (Unit {0}) → Guard × Result (Unit {0})
  unfolding on_verify_success
  finish_accepting g (s, err e) = (record g { store = s }, err e)
  finish_accepting g (s, ok _) =
      (record { machine = on_verify_success g.machine; store = s }, ok tt)

  accept_verified : Guard → Result (Lease × String) → Guard × Result (Unit {0})
  unfolding finish_accepting
  accept_verified g (err e) = (g, err e)
  accept_verified g (ok (value, signature)) =
      finish_accepting g (accept_lease P S.identity E.save_time value signature false g.store)

  continue_online : Guard → State × Result (Unit {0}) → Guard × Result (Unit {0})
  unfolding accept_verified on_verify_success
  continue_online g (m, ok _) = (record g { machine = on_verify_success m }, ok tt)
  continue_online g (m, err _) =
      accept_verified (record g { machine = m }) (verify_online (record g { machine = m }))

  -- `verifyLicense`
  unfoldable pub verify_license : Guard → Guard × Result (Unit {0})
  unfolding continue_online
  verify_license g = continue_online g (validate_persisted_lease g)
