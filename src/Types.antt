-- ===== src/Types.antt =====
-- The data that the guard keeps and persists: the lease (license.go), the persisted state and its
-- envelope, and the states of the state machine (state.go).
use banyan_hub_sdk.Base.{Eq, ℕ, String, Bool, false, Option, none, List, []}
use banyan_hub_sdk.Errors.Api.{Bytes}

-- `lease`. Times are texts in RFC 3339, as the server sends them.
pub record Lease : Type 0 where
  pub expires_at : String
  pub features : List String
  pub grace_until : String
  pub issued_at : String
  pub lease_id : String
  pub license_key : String
  pub machine_id : String
  pub max_machines : ℕ
  pub project_slug : String
  pub server_time : String
  pub tier : String

-- `persistedState`
pub record PersistedState : Type 0 where
  pub lease : Option Lease
  pub lease_canonical : Bytes
  pub lease_signature : String
  pub watermark : String
  pub lock_flag : Bool
  pub ban_flag : Bool
  pub updated_at : String

-- `&persistedState{}`
unfoldable pub empty_state : PersistedState
empty_state = record {
  lease = none;
  lease_canonical = [];
  lease_signature = "";
  watermark = "";
  lock_flag = false;
  ban_flag = false;
  updated_at = "";
}

-- `persistedEnvelope`
pub record Envelope : Type 0 where
  pub payload : Bytes
  pub signature : String

-- `State`
pub data State : Type 0 where
  init active grace locked_state banned_state : State

State-discrete : Discrete State
State-discrete = hlevel

instance unfoldable pub state_eq : Eq State
unfolding State-discrete
state_eq = record { dec = State-discrete }
