-- ===== src/Heartbeat.antt =====
-- heartbeat.go: one heartbeat, and the checks of its answer.
pub mod Laws
pub mod Loop
pub mod Jitter
pub mod Persistence
use banyan_hub_sdk.Base.{
  nat_eq, if◌then◌else◌, string_eq, ◌==◌, ℕ, ◌/◌, String, Bool, true, false, not, ◌&&◌, Option,
  none, some, List, [], ◌∷◌, map,
}
use banyan_hub_sdk.Base.Text.{is_empty}
use banyan_hub_sdk.Canonical.{canonical_json}
use banyan_hub_sdk.Errors.{
  network_error, invalid_server_response, banned, heartbeat_invalid, heartbeat_nonce_mismatch,
  sentinel_eq, Error, sentinel, wrap, detail, Result, ok, err, ◌>>=◌, ◌>>◌, refuse_if, map_err,
}
use banyan_hub_sdk.Errors.Api.{Bytes}
use banyan_hub_sdk.Guard.{Settings, Guard, verification_keys, current_lease_state}
use banyan_hub_sdk.License.{
  verify_ed25519_digest, parse_and_verify_lease, state_or_empty, watermark_of, accept_lease,
}
use banyan_hub_sdk.License.Online.{signal, api_or_network}
use banyan_hub_sdk.Platform.{Platform}
use banyan_hub_sdk.State.{on_kill}
use banyan_hub_sdk.Store.{Identity, Store, save}
use banyan_hub_sdk.Types.{Lease, state_eq}

-- `updateInfo`
pub record UpdateInfo : Type 0 where
  pub component : String
  pub current : String
  pub latest : String
  pub update_available : Bool
  pub mandatory : Bool
  pub release_notes : String

-- `heartbeatResponse`
pub record HeartbeatResponse : Type 0 where
  pub status : String
  pub lease : Bytes
  pub lease_signature : String
  pub response_signature : String
  pub nonce : String
  pub server_time : String
  pub updates : List UpdateInfo
  pub reason : String
  pub message : String

-- `heartbeatComponent`
pub record HeartbeatComponent : Type 0 where
  pub slug : String
  pub version : String

-- `heartbeatRequestBody`
pub record HeartbeatRequest : Type 0 where
  pub license_key : String
  pub machine_id : String
  pub project_slug : String
  pub component_slug : String
  pub components : List HeartbeatComponent
  pub nonce : String
  pub timestamp : ℕ
  pub binary_hash : String

-- `heartbeatSignaturePayload`
pub record SignaturePayload : Type 0 where
  pub lease : Bytes
  pub lease_signature : String
  pub nonce : String
  pub server_time : String
  pub status : String
  pub updates_digest : String

-- What one heartbeat finds: the versions under the guard's lock and the managed slugs, its clock at the
-- request, at the check of the lease and at a save, the error of its context, the encoders, and what
-- `postJSON` answers.
pub record HeartbeatEnv : Type 0 where
  pub version : String
  pub managed_versions : List (String × String)
  pub managed_slugs : List String
  pub ota_enabled : Bool
  pub request_time : ℕ
  pub lease_time : ℕ
  pub save_time : ℕ
  pub binary_hash : Result String
  pub nonce : Result String
  pub context_error : Option Error
  pub marshal_request : HeartbeatRequest → Result Bytes
  pub post : String → Bytes → Result Bytes
  pub unmarshal_response : Bytes → Result HeartbeatResponse
  pub marshal_updates : List UpdateInfo → Bytes
  pub marshal_payload : SignaturePayload → Result Bytes

-- What a heartbeat leaves: the guard, the error, and the updates that it passed on to
-- `handleUpdateNotification`.
pub record Beat : Type 0 where
  pub guard : Guard
  pub result : Result (Unit {0})
  pub notified : List UpdateInfo

-- `persistBan`, `persistLock` and `persistGrace`; their callers drop the error.
unfoldable pub persist_ban : Platform → Identity → ℕ → Guard → Guard
persist_ban P I now g = record g {
  store =
      (save P I now
        (record (state_or_empty (current_lease_state g)) { ban_flag = true; lock_flag = false })
        g.store).0;
}

unfoldable pub persist_lock : Platform → Identity → ℕ → Guard → Guard
persist_lock P I now g = record g {
  store =
      (save P I now (record (state_or_empty (current_lease_state g)) { lock_flag = true })
        g.store).0;
}

unfoldable pub persist_grace : Platform → Identity → ℕ → Guard → Guard
persist_grace P I now g = elim (current_lease_state g) [
  | none ↦ g
  | some state ↦ record g { store = (save P I now state g.store).0 }
]

-- The components that a heartbeat reports: the program's own, then the managed ones, in order.
unfoldable pub heartbeat_components : String → HeartbeatEnv → List HeartbeatComponent
heartbeat_components component_slug E =
    record { slug = component_slug; version = E.version }
    ∷ map (λ slug. record { slug = slug; version = signal slug E.managed_versions }) E.managed_slugs

-- The updates that are passed on: where OTA is enabled, those that are available.
unfoldable pub passed_on : Bool → List UpdateInfo → List UpdateInfo
passed_on ota_enabled [] = []
passed_on ota_enabled (u ∷ us) =
    let rest = passed_on ota_enabled us in
    if ota_enabled && u.update_available then u ∷ rest else rest

module _ (P : Platform) (S : Settings) (E : HeartbeatEnv) where
  is_object : Bytes → Bool
  is_object [] = false
  is_object (b ∷ rest) = P.json_valid (b ∷ rest) && nat_eq b b'{'

  -- `normalizedJSONObject`
  unfoldable pub normalized_json_object : Bytes → Bytes
  unfolding is_object
  normalized_json_object raw =
      let trimmed = P.trim_bytes raw in
      if not (is_object trimmed) then b'{' ∷ b'}' ∷ [] else trimmed

  -- `updatesDigest`
  unfoldable pub updates_digest : List UpdateInfo → String
  updates_digest updates =
      let raw = E.marshal_updates updates in
      elim (canonical_json P raw) [
        | err e ↦ P.encode_hex (P.sha256 raw)
        | ok canonical ↦ P.encode_hex (P.sha256 canonical)
      ]

  -- What the server signs of its answer.
  unfoldable pub signature_payload : HeartbeatResponse → SignaturePayload
  unfolding normalized_json_object updates_digest
  signature_payload resp = record {
    lease = normalized_json_object resp.lease;
    lease_signature = resp.lease_signature;
    nonce = resp.nonce;
    server_time = resp.server_time;
    status = resp.status;
    updates_digest = updates_digest resp.updates;
  }

  -- `verifyHeartbeatResponse`
  unfoldable pub verify_heartbeat_response : HeartbeatResponse → String → Result (Unit {0})
  verify_heartbeat_response resp request_nonce = do
    refuse_if (is_empty resp.response_signature) (sentinel heartbeat_invalid)
    refuse_if (not (resp.nonce == request_nonce)) (sentinel heartbeat_nonce_mismatch)
    raw ← map_err (λ _. sentinel heartbeat_invalid) (E.marshal_payload (signature_payload resp))
    canonical ← map_err (λ _. sentinel heartbeat_invalid) (canonical_json P raw)
    map_err (λ _. sentinel heartbeat_invalid)
        (verify_ed25519_digest P canonical resp.response_signature (verification_keys S))

  heartbeat_request : String → String → HeartbeatRequest
  unfolding heartbeat_components
  heartbeat_request binary_hash nonce = record {
    license_key = S.identity.license_key;
    machine_id = S.identity.machine_id;
    project_slug = S.identity.project_slug;
    component_slug = S.identity.component_slug;
    components = heartbeat_components S.identity.component_slug E;
    nonce = nonce;
    timestamp = E.request_time / 1_000_000_000;
    binary_hash = binary_hash;
  }

  -- The error of a request that failed: that of the context, or the API's, or a network error.
  post_error : Error → Error
  unfolding api_or_network
  post_error e = elim E.context_error [ some c ↦ c | none ↦ api_or_network e ]

  -- The part of `sendHeartbeat` up to the verified answer.
  unfoldable pub heartbeat_answer : Result HeartbeatResponse
  unfolding heartbeat_request post_error
  heartbeat_answer = do
    binary_hash ← map_err (detail network_error) E.binary_hash
    nonce ← E.nonce
    request ←
        map_err (wrap "marshal request") (E.marshal_request (heartbeat_request binary_hash nonce))
    raw ← map_err post_error (E.post "/api/v1/heartbeat" request)
    resp ← map_err (detail invalid_server_response) (E.unmarshal_response raw)
    verify_heartbeat_response resp nonce
    ok resp

  stored : Guard → List UpdateInfo → Store × Result (Unit {0}) → Beat
  stored g updates (s, err e) = record {
    guard = record g { store = s };
    result = err e;
    notified = [];
  }
  stored g updates (s, ok _) = record {
    guard = record g { store = s };
    result = ok tt;
    notified = passed_on E.ota_enabled updates;
  }

  accept_beat : Guard → HeartbeatResponse → Result Lease → Beat
  unfolding stored passed_on
  accept_beat g resp (err e) = record { guard = g; result = err e; notified = [] }
  accept_beat g resp (ok value) =
      stored g resp.updates
        (accept_lease P S.identity E.save_time value resp.lease_signature false g.store)

  obey : Guard → HeartbeatResponse → Beat
  unfolding accept_beat on_kill
  obey g resp =
      if resp.status == "kill"
      then record {
        guard = persist_ban P S.identity E.save_time (record g { machine = on_kill g.machine });
        result = err (sentinel banned);
        notified = [];
      }
      else accept_beat g resp (
          parse_and_verify_lease P resp.lease resp.lease_signature (verification_keys S)
            S.identity.machine_id E.lease_time (watermark_of (current_lease_state g)))

  unfoldable pub beat_from : Guard → Result HeartbeatResponse → Beat
  unfolding obey
  beat_from g (err e) = record { guard = g; result = err e; notified = [] }
  beat_from g (ok resp) = obey g resp

  -- `sendHeartbeat`
  unfoldable pub send_heartbeat : Guard → Beat
  unfolding beat_from
  send_heartbeat g = beat_from g heartbeat_answer
