-- ===== src/License/Online/Laws.antt =====
-- What a successful license check rests on, and what a failed one leaves.
use banyan_hub_sdk.Base.{
  ℕ, String, ◌≡◌, refl, sym, ap, subst, ◌⊎◌, inl, inr, false, Option, none, some, arith,
}
use banyan_hub_sdk.Errors.{
  network_error, invalid_server_response, Error, wrap, detail, Result, ok, err, map_err, chained,
}
use banyan_hub_sdk.Errors.Api.{Bytes}
use banyan_hub_sdk.Guard.{Settings, Guard, verification_keys, current_lease_state}
use banyan_hub_sdk.License.{parse_and_verify_lease, watermark_of}
use banyan_hub_sdk.License.Laws.{IsAcceptable, IsSigned, parse_and_verify_lease_iff}
use banyan_hub_sdk.License.Online.{
  VerifyResponse, VerifyEnv, api_or_network, verify_request, accept_response, verify_online,
  validate_lease, validate_persisted_lease, verify_license, validate_state, finish_accepting,
  accept_verified, continue_online,
}
use banyan_hub_sdk.License.Online.Stored.{IsStored, accept_lease-IsStored}
use banyan_hub_sdk.Platform.{Platform}
use banyan_hub_sdk.State.{on_verify_success}
use banyan_hub_sdk.Store.{Store}
use banyan_hub_sdk.Store.Laws.{map_err-eq-ok}
use banyan_hub_sdk.Types.{Lease, PersistedState, State, active}

-- A lease that one of the keys signed in these bytes, for this machine and acceptable at this time.
abbrev pub IsVouched : Platform → Settings → ℕ → String → Bytes → String → Lease → Type 0
IsVouched P S now watermark raw signature value =
    IsSigned P raw signature (verification_keys S) value
    × IsAcceptable P value S.identity.machine_id now watermark

module _ (P : Platform) (S : Settings) (E : VerifyEnv) where
  -- The check rested on the stored bytes and signature, and left the store alone.
  pub record Persisted (g v : Guard) : Type 0 where
    pub state : PersistedState
    pub value : Lease
    pub held : current_lease_state g ≡ some state
    pub unlocked : state.lock_flag ≡ false
    pub unbanned : state.ban_flag ≡ false
    pub vouched :
        IsVouched P S E.now state.watermark state.lease_canonical state.lease_signature value
    pub kept : v.store ≡ g.store

  -- The reply to the request of this check.
  pub record Replied (resp : VerifyResponse) : Type 0 where
    pub hash : String
    pub nonce : String
    pub request : Bytes
    pub raw : Bytes
    pub drawn : E.nonce ≡ ok nonce
    pub marshalled : E.marshal_request (verify_request P S E hash nonce) ≡ ok request
    pub answered : E.post "/api/v1/verify" request ≡ ok raw
    pub read_as : E.unmarshal_response raw ≡ ok resp

  -- The check rested on the lease of the reply, which the store holds afterwards.
  pub record Fetched (g v : Guard) : Type 0 where
    pub resp : VerifyResponse
    pub value : Lease
    pub replied : Replied resp
    pub vouched :
        IsVouched P S E.now
          (watermark_of (current_lease_state g))
          resp.lease
          resp.lease_signature
          value
    pub stored : IsStored P value resp.lease_signature v.store

  abbrev parsed : Bytes → String → String → Result Lease
  parsed raw signature watermark =
      parse_and_verify_lease P raw signature (verification_keys S) S.identity.machine_id E.now
        watermark

  parsed-IsVouched :
      (raw : Bytes) (signature watermark : String) (value : Lease)
      → parsed raw signature watermark ≡ ok value
      → IsVouched P S E.now watermark raw signature value
  parsed-IsVouched raw signature watermark value h =
      (parse_and_verify_lease_iff P raw signature (verification_keys S) S.identity.machine_id E.now
          watermark value).0
        h

  validate_lease-parsed :
      (state : PersistedState) (r : Result Lease)
      → parsed state.lease_canonical state.lease_signature state.watermark ≡ r
      → validate_lease P S E state ≡ ok tt
      → (value : Lease) × IsVouched P S E.now state.watermark state.lease_canonical
          state.lease_signature value
  unfolding validate_lease
  validate_lease-parsed state (ok v) e h = (v, parsed-IsVouched _ _ _ v e)
  validate_lease-parsed state (err x) e h = absurd (ground arith)

  validate_state-Persisted :
      (g v : Guard) (current : Option PersistedState)
      → current_lease_state g ≡ current
      → v.store ≡ g.store
      → (validate_state P S E g.machine current).1 ≡ ok tt
      → Persisted g v
  unfolding validate_state
  validate_state-Persisted g v none c k h = cc
  validate_state-Persisted g v (some state) c k h =
      let (value, vouched) = validate_lease-parsed state _ refl (ground arith) in
      record {
        state = state;
        value = value;
        held = c;
        unlocked = ground arith;
        unbanned = ground arith;
        vouched = vouched;
        kept = k;
      }

  accept_response-parsed :
      (watermark : String) (resp : VerifyResponse) {value : Lease} {signature : String}
      (r : Result Lease)
      → parsed resp.lease resp.lease_signature watermark ≡ r
      → accept_response P S E watermark resp ≡ ok (value, signature)
      → (r ≡ ok value) × (resp.lease_signature ≡ signature)
  unfolding accept_response
  accept_response-parsed watermark resp (ok v) e h = ground arith
  accept_response-parsed watermark resp (err x) e h = absurd (ground arith)

  module _ (g : Guard) where
    abbrev watermark : String
    watermark = watermark_of (current_lease_state g)

    -- An accepted answer comes from the reply to a request.
    verify_online-Replied :
        {got : Lease × String}
        → verify_online P S E g ≡ ok got
        → (resp : VerifyResponse) × Replied resp × (accept_response P S E watermark resp ≡ ok got)
    unfolding verify_online
    verify_online-Replied h =
        let (hash, _, h₁) = chained (map_err (detail network_error) E.binary_hash) _ h in
        let (nonce, n, h₂) = chained E.nonce _ h₁ in
        let (request, m, h₃) =
          chained
            (map_err (wrap "marshal request") (E.marshal_request (verify_request P S E hash nonce)))
            _ h₂ in
        let (raw, p, h₄) =
          chained (map_err api_or_network (E.post "/api/v1/verify" request)) _ h₃ in
        let (resp, u, h₅) =
          chained (map_err (detail invalid_server_response) (E.unmarshal_response raw)) _ h₄ in
        (
          resp,
          record {
            hash = hash;
            nonce = nonce;
            request = request;
            raw = raw;
            drawn = n;
            marshalled = map_err-eq-ok P S.identity _ _ m;
            answered = map_err-eq-ok P S.identity _ _ p;
            read_as = map_err-eq-ok P S.identity _ _ u;
          },
          h₅,
        )

    finished :
        (w : Store × Result (Unit {0}))
        → (finish_accepting P S E g w).1 ≡ ok tt
        → ((finish_accepting P S E g w).0.machine ≡ active)
          × (w.1 ≡ ok tt)
          × ((finish_accepting P S E g w).0.store ≡ w.0)
    unfolding finish_accepting on_verify_success
    finished (s, ok x) h = (refl, refl, refl)
    finished (s, err e) h = cc

    accept_verified-IsStored :
        (r : Result (Lease × String))
        → (accept_verified P S E g r).1 ≡ ok tt
        → ((accept_verified P S E g r).0.machine ≡ active)
          × ((value : Lease) × (signature : String) × (r ≡ ok (value, signature))
              × IsStored P value signature (accept_verified P S E g r).0.store)
    unfolding accept_verified
    accept_verified-IsStored (err e) h = cc
    accept_verified-IsStored (ok (value, signature)) h =
        let (running, saved, same) = finished _ h in
        (
          running,
          (
            value,
            signature,
            refl,
            subst (IsStored P value signature) (sym same)
                (accept_lease-IsStored P S.identity E.save_time value signature g.store saved),
          ),
        )

    fetched :
        (v : Guard) {value : Lease} {signature : String}
        → verify_online P S E g ≡ ok (value, signature)
        → IsStored P value signature v.store
        → Fetched g v
    fetched v {value} {signature} h stored =
        let (resp, replied, accepted) = verify_online-Replied h in
        let (e, same) = accept_response-parsed watermark resp _ refl accepted in
        record {
          resp = resp;
          value = value;
          replied = replied;
          vouched = parsed-IsVouched _ _ _ value e;
          stored = rw same stored;
        }

  module _ (g : Guard) where
    continue_online_ok :
        (v : State × Result (Unit {0}))
        → validate_persisted_lease P S E g ≡ v
        → (continue_online P S E g v).1 ≡ ok tt
        → ((continue_online P S E g v).0.machine ≡ active)
          × (Persisted g (continue_online P S E g v).0 ⊎ Fetched g (continue_online P S E g v).0)
    unfolding continue_online on_verify_success validate_persisted_lease
    continue_online_ok (m, ok x) e h = (
      refl,
      inl (validate_state-Persisted g _ (current_lease_state g) refl refl (ap (λ p. p.1) e)),
    )
    continue_online_ok (m, err x) e h =
        let reached = record g { machine = m } in
        let (running, (value, signature, got, stored)) =
          accept_verified-IsStored reached (verify_online P S E reached) h in
        let f =
          fetched reached (accept_verified P S E reached (verify_online P S E reached)).0 got
            stored in
        (
          running,
          inr (record {
            resp = f.resp;
            value = f.value;
            replied = f.replied;
            vouched = f.vouched;
            stored = f.stored;
          }),
        )

    -- A guard that passes the license check is active then, and either its store is as it was and
    -- held a state without a flag, whose bytes one of its keys signed with the signature in it, as
    -- a lease that is for this machine, in time, and not behind the stored watermark (the lease
    -- beside these bytes is not compared with them); or the reply to the request of this check
    -- carried such a lease and its signature, and the store holds this lease with this signature
    -- and with the lease's canonical form.
    pub verify_license_ok :
        (verify_license P S E g).1 ≡ ok tt
        → ((verify_license P S E g).0.machine ≡ active)
          × (Persisted g (verify_license P S E g).0 ⊎ Fetched g (verify_license P S E g).0)
    unfolding verify_license
    verify_license_ok h = continue_online_ok _ refl h

    after_failed_check :
        (v : State × Result (Unit {0}))
        → {e : Error} → (continue_online P S E g v).1 ≡ err e
        → (continue_online P S E g v).0.machine ≡ v.0
    unfolding continue_online accept_verified finish_accepting
    after_failed_check (m, ok x) h = cc
    after_failed_check (m, err x) h = ground arith

    -- A failed license check leaves the state machine as `validatePersistedLease` left it, whatever
    -- went wrong online or in the saving of the lease.
    pub verify_license_failed :
        {e : Error}
        → (verify_license P S E g).1 ≡ err e
        → (verify_license P S E g).0.machine ≡ (validate_persisted_lease P S E g).0
    unfolding verify_license
    verify_license_failed h = after_failed_check _ h
