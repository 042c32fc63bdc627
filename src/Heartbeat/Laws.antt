-- ===== src/Heartbeat/Laws.antt =====
-- Which answers a heartbeat obeys, and how it moves the state machine.
use banyan_hub_sdk.Base.{string_eq, String, ◌≡◌, refl, sym, ap, ◌∙◌, ◌≢◌, inl, inr, List, arith}
use banyan_hub_sdk.Canonical.{canonical_json}
use banyan_hub_sdk.Errors.{banned, Error, sentinel, Result, ok, err, ok-eq, Result-cases}
use banyan_hub_sdk.Errors.Api.{Bytes}
use banyan_hub_sdk.Guard.{Settings, Guard, verification_keys, current_lease_state}
use banyan_hub_sdk.Heartbeat.{
  UpdateInfo, HeartbeatResponse, HeartbeatEnv, Beat, persist_ban, signature_payload,
  verify_heartbeat_response, heartbeat_answer, send_heartbeat, heartbeat_request, stored,
  accept_beat, obey, beat_from,
}
use banyan_hub_sdk.License.{verify_ed25519_digest, parse_and_verify_lease, watermark_of}
use banyan_hub_sdk.License.Laws.{SignedByAny, verify_ed25519_digest-signed}
use banyan_hub_sdk.Platform.{Platform}
use banyan_hub_sdk.State.{on_kill}
use banyan_hub_sdk.Store.{Store}
use banyan_hub_sdk.Types.{Lease, banned_state}

-- The answer carries the nonce of the request, and one of the keys signed the canonical form of what
-- the answer says: its status, lease, time and updates.
pub record IsGenuine (P : Platform) (S : Settings) (E : HeartbeatEnv) (resp : HeartbeatResponse)
    (nonce : String) : Type 0 where
  pub canonical : Bytes
  pub raw : Bytes
  pub sig : Bytes
  pub same_nonce : resp.nonce ≡ nonce
  pub marshalled : E.marshal_payload (signature_payload P S E resp) ≡ ok raw
  pub canonical_form : canonical_json P raw ≡ ok canonical
  pub sig_decoded : P.decode_base64 resp.response_signature ≡ ok sig
  pub signed : SignedByAny P (verification_keys S) (P.sha256 canonical) sig

module _ (P : Platform) (S : Settings) (E : HeartbeatEnv) where
  verify_heartbeat_response_by_parts :
      (resp : HeartbeatResponse) (nonce : String)
      → verify_heartbeat_response P S E resp nonce ≡ ok tt
      → IsGenuine P S E resp nonce
  unfolding verify_heartbeat_response
  verify_heartbeat_response_by_parts resp nonce h =
      elim (Result-cases (E.marshal_payload (signature_payload P S E resp))) [
        | inr (x, m) ↦ absurd (ground arith)
        | inl (raw, m) ↦ elim (Result-cases (canonical_json P raw)) [
          | inr (x, c) ↦ absurd (ground arith)
          | inl (canonical, c) ↦
              elim (Result-cases
                (verify_ed25519_digest P canonical resp.response_signature (verification_keys S))) [
                  | inr (x, v) ↦ absurd (ground arith)
                  | inl (o, v) ↦
                      let (sig, decoded, signed) =
                        verify_ed25519_digest-signed P canonical resp.response_signature
                          (verification_keys S) v in
                      record {
                        canonical = canonical;
                        raw = raw;
                        sig = sig;
                        same_nonce = ground arith;
                        marshalled = m;
                        canonical_form = c;
                        sig_decoded = decoded;
                        signed = signed;
                      }
                ]
        ]
      ]

  -- An answer that a heartbeat acts on carries the nonce that the heartbeat drew, and one of the
  -- keys signed the canonical form of its status, lease, time and updates digest.
  pub heartbeat_answer-IsGenuine :
      {resp : HeartbeatResponse}
      → heartbeat_answer P S E ≡ ok resp
      → (nonce : String) × (E.nonce ≡ ok nonce) × IsGenuine P S E resp nonce
  unfolding heartbeat_answer
  heartbeat_answer-IsGenuine {resp} h = elim (Result-cases E.binary_hash) [
    | inr (x, b) ↦ absurd (ground arith)
    | inl (hash, b) ↦ elim (Result-cases E.nonce) [
      | inr (x, n) ↦ absurd (ground arith)
      | inl (nonce, n) ↦
          elim (Result-cases (E.marshal_request (heartbeat_request P S E hash nonce))) [
            | inr (x, m) ↦ absurd (ground arith)
            | inl (request, m) ↦ elim (Result-cases (E.post "/api/v1/heartbeat" request)) [
              | inr (x, p) ↦ absurd (ground arith)
              | inl (raw, p) ↦ elim (Result-cases (E.unmarshal_response raw)) [
                | inr (x, u) ↦ absurd (ground arith)
                | inl (got, u) ↦ elim (Result-cases (verify_heartbeat_response P S E got nonce)) [
                  | inr (x, v) ↦ absurd (ground arith)
                  | inl (o, v) ↦
                      let same : got ≡ resp = ground arith in
                      (nonce, n, rw (← same) (verify_heartbeat_response_by_parts got nonce v))
                ]
              ]
            ]
          ]
    ]
  ]

  -- How one heartbeat moves the machine: a verified kill bans it and is reported as such; where there is
  -- none, the machine stays.
  pub data Moves (g : Guard) (b : Beat) : Type 0 where
    kill :
        (resp : HeartbeatResponse)
        → heartbeat_answer P S E ≡ ok resp
        → resp.status ≡ "kill"
        → b.guard.machine ≡ banned_state
        → b.result ≡ err (sentinel banned)
        → Moves g b
    stay :
        ((resp : HeartbeatResponse) → heartbeat_answer P S E ≡ ok resp → resp.status ≢ "kill")
        → b.guard.machine ≡ g.machine
        → Moves g b

  stored-stays :
      (g : Guard) (us : List UpdateInfo) (w : Store × Result (Unit {0}))
      → (stored P S E g us w).guard.machine ≡ g.machine
  unfolding stored
  stored-stays g us (s, ok x) = refl
  stored-stays g us (s, err e) = refl

  accept_beat-stays :
      (g : Guard) (resp : HeartbeatResponse) (r : Result Lease)
      → (accept_beat P S E g resp r).guard.machine ≡ g.machine
  unfolding accept_beat
  accept_beat-stays g resp (ok v) = stored-stays g resp.updates _
  accept_beat-stays g resp (err e) = refl

  other_status :
      (resp : HeartbeatResponse)
      → heartbeat_answer P S E ≡ ok resp
      → resp.status ≢ "kill"
      → (other : HeartbeatResponse) → heartbeat_answer P S E ≡ ok other
      → other.status ≢ "kill"
  other_status resp e n other f k =
      n (ap (λ (r : HeartbeatResponse). r.status) (ok-eq (sym e ∙ f)) ∙ k)

  failed_answer :
      {x : Error} (resp : HeartbeatResponse)
      → heartbeat_answer P S E ≡ ok resp
      → heartbeat_answer P S E ≡ err x
      → ⊥
  failed_answer resp a e = cc

  obey-Moves :
      (g : Guard) (resp : HeartbeatResponse)
      → heartbeat_answer P S E ≡ ok resp
      → Moves g (obey P S E g resp)
  unfolding obey persist_ban on_kill
  obey-Moves g resp e = elim (string_eq.dec resp.status "kill") [
    | yes p ↦ kill resp e p (ground arith) (ground arith)
    | no n ↦ stay (other_status resp e n) (
        ground (
          arith,
          accept_beat-stays g resp (
              parse_and_verify_lease P resp.lease resp.lease_signature (verification_keys S)
                S.identity.machine_id E.lease_time (watermark_of (current_lease_state g))),
        ))
  ]

  beat-Moves :
      (g : Guard) (r : Result HeartbeatResponse)
      → heartbeat_answer P S E ≡ r
      → Moves g (beat_from P S E g r)
  unfolding beat_from
  beat-Moves g (ok resp) e = obey-Moves g resp e
  beat-Moves g (err x) e = stay (λ resp a. absurd (failed_answer resp a e)) refl

  -- A heartbeat whose verified answer has the status `kill` bans the machine and reports a ban;
  -- every other heartbeat leaves the machine as it was.
  pub send_heartbeat-Moves : (g : Guard) → Moves g (send_heartbeat P S E g)
  unfolding send_heartbeat
  send_heartbeat-Moves g = beat-Moves g _ refl
