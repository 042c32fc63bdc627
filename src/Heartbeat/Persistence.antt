-- ===== src/Heartbeat/Persistence.antt =====
-- The flags that the loop writes hold after a restart of the program.
use banyan_hub_sdk.Base.{if◌then◌else◌, ℕ, ◌≡◌, refl, true, false, none, some, arith}
use banyan_hub_sdk.Errors.{locked, banned, sentinel, ok, err}
use banyan_hub_sdk.Guard.{Guard, check, current_lease_state, open_guard}
use banyan_hub_sdk.Heartbeat.{persist_ban, persist_lock}
use banyan_hub_sdk.License.{state_or_empty}
use banyan_hub_sdk.Platform.{Platform}
use banyan_hub_sdk.State.{restore}
use banyan_hub_sdk.Store.{Identity, Store, stamped, load, save}
use banyan_hub_sdk.Store.Laws.{Decodes, IsReplaceable, load-save}
use banyan_hub_sdk.Types.{PersistedState}

module _ (P : Platform) (I : Identity) (now load_time save_time : ℕ) (g : Guard) (s : Store)
    (r : IsReplaceable g.store) where
  -- The states that `persistBan` and `persistLock` save.
  abbrev pub ban_state : PersistedState
  ban_state = record (state_or_empty (current_lease_state g)) { ban_flag = true; lock_flag = false }

  abbrev pub lock_state : PersistedState
  lock_state = record (state_or_empty (current_lease_state g)) { lock_flag = true }

  reopened-machine :
      {state : PersistedState} {t : Store}
      → load P I none s ≡ (t, ok state)
      → (open_guard P I load_time save_time none s).machine ≡ restore (some state)
  unfolding open_guard
  reopened-machine e = rw e

  -- A ban that was saved without an error, off Windows, with no temporary file about, and by
  -- encoders that read back what they wrote for the saved state, bans the guard that is opened on
  -- that file, before any check.
  pub ban_survives_restart :
      Decodes P (stamped P now ban_state)
      → (save P I now ban_state g.store).1 ≡ ok tt
      → s.files.target ≡ (persist_ban P I now g).store.files.target
      → check (open_guard P I load_time save_time none s) ≡ err (sentinel banned)
  unfolding persist_ban check restore
  ban_survives_restart D saved same =
      rw (reopened-machine (load-save P I now ban_state g.store s r D saved same)) refl

  -- A lock that was saved without an error, off Windows, with no temporary file about, and by
  -- encoders that read back what they wrote for the saved state, locks the guard that is opened on
  -- that file, before any check, unless the saved state is banned, which takes precedence.
  pub lock_survives_restart :
      Decodes P (stamped P now lock_state)
      → (save P I now lock_state g.store).1 ≡ ok tt
      → s.files.target ≡ (persist_lock P I now g).store.files.target
      → check (open_guard P I load_time save_time none s)
        ≡ (if lock_state.ban_flag then err (sentinel banned) else err (sentinel locked))
  unfolding persist_lock check restore
  lock_survives_restart D saved same =
      rw (reopened-machine (load-save P I now lock_state g.store s r D saved same)) (ground arith)
