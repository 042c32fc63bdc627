-- ===== src/State.antt =====
-- The state machine of state.go. A `stateMachine` is its `State`; a method returns the new one.
pub mod Laws
use banyan_hub_sdk.Base.{if◌then◌else◌, string_eq, ◌==◌, String, ◌||◌, Option, none, some}
use banyan_hub_sdk.Errors.{sentinel_eq}
use banyan_hub_sdk.Types.{
  PersistedState, State, init, active, grace, locked_state, banned_state, state_eq,
}

-- `(State).String`
unfoldable pub to_string : State → String
to_string init = "INIT"
to_string active = "ACTIVE"
to_string grace = "GRACE"
to_string locked_state = "LOCKED"
to_string banned_state = "BANNED"

-- `newStateMachine`
abbrev pub new_state_machine : State
new_state_machine = init

-- `restore`
unfoldable pub restore : Option PersistedState → State
restore none = init
restore (some s) =
    if s.ban_flag
    then banned_state
    else if s.lock_flag
    then locked_state
    else elim s.lease [ some l ↦ active | none ↦ init ]

-- `OnVerifySuccess`
unfoldable pub on_verify_success : State → State
on_verify_success s = active

-- `OnHeartbeatOK`
unfoldable pub on_heartbeat_ok : State → State
unfolding state_eq
on_heartbeat_ok s = if s == grace || s == active then active else s

-- `OnHeartbeatFail`
unfoldable pub on_heartbeat_fail : State → State
unfolding state_eq
on_heartbeat_fail s = if s == active then grace else s

-- `OnKill`
unfoldable pub on_kill : State → State
on_kill s = banned_state

-- `OnGracePeriodExpired`
unfoldable pub on_grace_period_expired : State → State
unfolding state_eq
on_grace_period_expired s = if s == grace || s == active then locked_state else s
