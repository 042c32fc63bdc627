-- ===== src/License.antt =====
-- license.go: the verification of a lease, its persistence, and the license check at the start.
pub mod Laws
pub mod Watermark
pub mod Online
use banyan_hub_sdk.Base.{
  ltb, if◌then◌else◌, string_eq, ◌==◌, ℕ, ◌+◌, String, Bool, false, not, ◌||◌, Option, none, some,
  List, [], ◌∷◌,
}
use banyan_hub_sdk.Base.Text.{is_empty}
use banyan_hub_sdk.Canonical.{canonical_json}
use banyan_hub_sdk.Errors.{
  Sentinel, license_invalid, license_expired, invalid_server_response, state_tampered,
  clock_rollback, lease_binding_mismatch, sentinel_eq, sentinel, detail, Result, ok, err, ◌>>=◌,
  ◌>>◌, refuse_if, map_err,
}
use banyan_hub_sdk.Errors.Api.{Bytes}
use banyan_hub_sdk.Platform.{Platform}
use banyan_hub_sdk.Store.{Identity, Store, snapshot, save}
use banyan_hub_sdk.Types.{Lease, PersistedState, empty_state, state_eq}

-- Nanoseconds.
abbrev pub default_lease_clock_skew : ℕ
default_lease_clock_skew = 300_000_000_000

-- `now.Before(t.Add(-defaultLeaseClockSkew))`
abbrev pub before_skewed : ℕ → ℕ → Bool
before_skewed now t = ltb (now + default_lease_clock_skew) t

module _ (P : Platform) where
  -- `parseRFC3339`, with the error that the caller returns instead.
  abbrev parse_or : Sentinel → String → Result ℕ
  parse_or s value = map_err (λ _. sentinel s) (P.parse_time value)

  verify_with_any : List Bytes → Bytes → Bytes → Result (Unit {0})
  verify_with_any [] digest signature = err (sentinel license_invalid)
  verify_with_any (key ∷ keys) digest signature =
      if P.ed25519_verify key digest signature then ok tt else verify_with_any keys digest signature

  -- `verifyEd25519Digest`
  unfoldable pub verify_ed25519_digest : Bytes → String → List Bytes → Result (Unit {0})
  unfolding verify_with_any
  verify_ed25519_digest canonical signature public_keys = do
    sig ← map_err (detail invalid_server_response) (P.decode_base64 signature)
    verify_with_any public_keys (P.sha256 canonical) sig

  -- The watermark's part of `parseAndVerifyLease`.
  unfoldable pub check_watermark : ℕ → ℕ → String → Result (Unit {0})
  check_watermark now server_time watermark = if is_empty watermark then ok tt else do
    t ← parse_or state_tampered watermark
    refuse_if (before_skewed now t) (sentinel clock_rollback)
    refuse_if (ltb server_time t) (sentinel clock_rollback)

  -- The part of `parseAndVerifyLease` that looks at the lease itself.
  unfoldable pub check_lease : Lease → String → ℕ → String → Result (Unit {0})
  unfolding check_watermark
  check_lease value machine_id now watermark = do
    refuse_if (not (value.machine_id == machine_id)) (sentinel lease_binding_mismatch)
    expires_at ← parse_or invalid_server_response value.expires_at
    grace_until ← parse_or invalid_server_response value.grace_until
    server_time ← parse_or invalid_server_response value.server_time
    refuse_if (ltb expires_at now || ltb grace_until now) (sentinel license_expired)
    refuse_if (before_skewed now server_time) (sentinel clock_rollback)
    check_watermark now server_time watermark

  -- The part of `parseAndVerifyLease` before it: the signature, and what was signed.
  unfoldable pub read_signed_lease : Bytes → String → List Bytes → Result Lease
  unfolding verify_ed25519_digest
  read_signed_lease raw signature public_keys = do
    refuse_if (not (P.json_valid raw)) (sentinel invalid_server_response)
    canonical ← map_err (λ _. sentinel invalid_server_response) (canonical_json P raw)
    verify_ed25519_digest canonical signature public_keys
    map_err (λ _. sentinel invalid_server_response) (P.unmarshal_lease canonical)

  -- `parseAndVerifyLease`
  unfoldable pub parse_and_verify_lease :
      Bytes → String → List Bytes → String → ℕ → String → Result Lease
  parse_and_verify_lease raw signature public_keys machine_id now watermark = do
    value ← read_signed_lease raw signature public_keys
    check_lease value machine_id now watermark
    ok value

  -- The `switch` of `maxTimestamp`.
  later_timestamp : String → String → Result ℕ → Result ℕ → String
  later_timestamp current candidate (err e) _ = candidate
  later_timestamp current candidate (ok t) (err e) = current
  later_timestamp current candidate (ok t) (ok u) = if ltb t u then candidate else current

  -- `maxTimestamp`
  unfoldable pub max_timestamp : String → String → String
  unfolding later_timestamp
  max_timestamp current candidate =
      if is_empty current
      then candidate
      else later_timestamp current candidate (P.parse_time current) (P.parse_time candidate)

  -- `canonicalJSONFromLease`
  unfoldable pub canonical_json_from_lease : Lease → Result Bytes
  canonical_json_from_lease value = do raw ← P.marshal_lease value; canonical_json P raw

-- The state that a store holds, or the empty one: `if state == nil { state = &persistedState{} }`.
abbrev pub state_or_empty : Option PersistedState → PersistedState
state_or_empty none = empty_state
state_or_empty (some s) = s

abbrev pub watermark_of : Option PersistedState → String
watermark_of none = ""
watermark_of (some s) = s.watermark

module _ (P : Platform) (I : Identity) where
  -- The state that `acceptLease` saves.
  unfoldable pub accepted_state : Lease → Bytes → String → Bool → PersistedState → PersistedState
  unfolding max_timestamp
  accepted_state value canonical signature keep_current_state state = record state {
    lease = some value;
    lease_canonical = canonical;
    lease_signature = signature;
    watermark = max_timestamp P state.watermark value.server_time;
    lock_flag = if not keep_current_state then false else state.lock_flag;
    ban_flag = if not keep_current_state then false else state.ban_flag;
  }

  save_accepted : ℕ → Lease → String → Bool → Result Bytes → Store → Store × Result (Unit {0})
  unfolding accepted_state empty_state
  save_accepted now value signature keep_current_state (err e) s = (s, err e)
  save_accepted now value signature keep_current_state (ok canonical) s =
      save P I now
        (accepted_state value canonical signature keep_current_state (state_or_empty (snapshot s)))
        s

  -- `acceptLease`; `now` is the time of the save.
  unfoldable pub accept_lease : ℕ → Lease → String → Bool → Store → Store × Result (Unit {0})
  unfolding save_accepted
  accept_lease now value signature keep_current_state s =
      save_accepted now value signature keep_current_state (canonical_json_from_lease P value) s
