-- ===== src/Guard.antt =====
-- The guard of guard.go: its fixed parts, the state that its methods share, and the methods that only
-- read it.
pub mod Lifecycle
pub mod Leases
use banyan_hub_sdk.Base.{if◌then◌else◌, ℕ, String, true, not, Option, none, some, List, [], ◌∷◌}
use banyan_hub_sdk.Base.Text.{is_empty}
use banyan_hub_sdk.Errors.{
  not_activated, locked, banned, lease_unavailable, not_exist, Error, sentinel, is, Result, ok, err,
  or_fail,
}
use banyan_hub_sdk.Errors.Api.{Bytes}
use banyan_hub_sdk.Platform.{Platform}
use banyan_hub_sdk.State.{new_state_machine, restore}
use banyan_hub_sdk.Store.{Identity, Store, snapshot, stamped, load, save}
use banyan_hub_sdk.Types.{
  Lease, PersistedState, empty_state, State, init, active, grace, locked_state, banned_state,
}

-- What `New` fixes: who the installation is, the keys, and the signals of the fingerprint.
pub record Settings : Type 0 where
  pub identity : Identity
  pub public_key : Bytes
  pub public_keys : List Bytes
  pub aux_signals : List (String × String)
  pub hostname : String

-- What changes: the state machine and the persistent store.
pub record Guard : Type 0 where
  pub machine : State
  pub store : Store

-- `verificationKeys`
unfoldable pub verification_keys : Settings → List Bytes
verification_keys s = by_keys s.public_keys s.public_key
  where
    by_keys : List Bytes → Bytes → List Bytes
    by_keys (k ∷ ks) key = k ∷ ks
    by_keys [] (b ∷ key) = (b ∷ key) ∷ []
    by_keys [] [] = []

-- `Check`: `ok` is a nil error.
unfoldable pub check_state : State → Result (Unit {0})
check_state active = ok tt
check_state grace = ok tt
check_state locked_state = err (sentinel locked)
check_state banned_state = err (sentinel banned)
check_state init = err (sentinel not_activated)

unfoldable pub check : Guard → Result (Unit {0})
unfolding check_state
check g = check_state g.machine

-- `currentLeaseState`; the store of a guard that `New` made is never nil.
abbrev pub current_lease_state : Guard → Option PersistedState
current_lease_state g = snapshot g.store

-- A state with the lease in it, as `currentActiveLease` returns one.
pub record LeaseState : Type 0 where
  pub lease : Lease
  pub lease_signature : String

unfoldable pub lease_state_of : PersistedState → Option LeaseState
lease_state_of s = elim s.lease [
  | none ↦ none
  | some l ↦
      if not (is_empty s.lease_signature)
      then some (record { lease = l; lease_signature = s.lease_signature })
      else none
]

active_lease : State → Option PersistedState → Option LeaseState
unfolding lease_state_of
active_lease active (some s) = lease_state_of s
active_lease grace (some s) = lease_state_of s
active_lease _ _ = none

-- `currentActiveLease`
unfoldable pub current_active_lease : Guard → Result LeaseState
unfolding active_lease
current_active_lease g =
    or_fail (active_lease g.machine (current_lease_state g)) (sentinel lease_unavailable)

-- The last lines of `New`: the machine is restored from what was loaded. Where loading fails and the
-- file was there, a locked state takes its place, and is saved at the time `now`.
locked_out : Platform → ℕ → PersistedState
unfolding empty_state
locked_out P now = record empty_state { lock_flag = true; updated_at = P.format_time now }

restore_loaded : Platform → Identity → ℕ → ℕ → Store × Result PersistedState → Guard
unfolding locked_out is restore save
restore_loaded P I now save_time (s, ok state) = record {
  machine = restore (some state);
  store = s;
}
restore_loaded P I now save_time (s, err e) =
    if not (is e not_exist)
    then record {
      machine = restore (some (stamped P save_time (locked_out P now)));
      store = (save P I save_time (locked_out P now) s).0;
    }
    else record { machine = new_state_machine; store = s }

-- The part of `New` that loads the state; `now` is the time of the locked state, `save_time` that of
-- its save.
unfoldable pub open_guard : Platform → Identity → ℕ → ℕ → Option Error → Store → Guard
unfolding restore_loaded load
open_guard P I now save_time read_error s = restore_loaded P I now save_time (load P I read_error s)
