-- ===== src/Heartbeat/Loop.antt =====
-- The goroutine of `startHeartbeat`: heartbeats, and the way from a failed one to the lock.
pub mod Laws
pub mod Expiry
use banyan_hub_sdk.Base.{ltb, if◌then◌else◌, ℕ, ◌+◌, Bool, Option, none, some, List, [], ◌∷◌}
use banyan_hub_sdk.Errors.{context_canceled, Error, is, is_fatal_error, ok, err}
use banyan_hub_sdk.Guard.{Settings, Guard}
use banyan_hub_sdk.Guard.Lifecycle.{start}
use banyan_hub_sdk.Heartbeat.{
  HeartbeatEnv, Beat, persist_ban, persist_lock, persist_grace, send_heartbeat,
}
use banyan_hub_sdk.Platform.{Platform}
use banyan_hub_sdk.State.{on_heartbeat_ok, on_heartbeat_fail, on_kill, on_grace_period_expired}

-- One round after the waiting: the context is done, or a heartbeat is sent. The clock is read at the
-- saves after a fatal error, after a failure and after the expiry, for the start of the grace period,
-- and for its length.
pub record Round : Type 0 where
  pub done : Bool
  pub env : HeartbeatEnv
  pub ban_time : ℕ
  pub grace_save_time : ℕ
  pub lock_time : ℕ
  pub start_time : ℕ
  pub since_time : ℕ

-- Why the goroutine returned.
pub data Exit : Type 0 where
  stopped killed expired : Exit

-- The guard and the variable `graceStart`, `none` for the zero time.
pub record LoopState : Type 0 where
  pub guard : Guard
  pub grace_start : Option ℕ

abbrev pub started_at : Option ℕ → ℕ → ℕ
started_at none now = now
started_at (some t) now = t

module _ (P : Platform) (S : Settings) (max_offline : ℕ) where
  -- `OnHeartbeatFail` and `persistGrace`
  unfoldable pub degrade : Round → Guard → Guard
  degrade r g =
      persist_grace P S.identity r.grace_save_time
        (record g { machine = on_heartbeat_fail g.machine })

  -- `OnGracePeriodExpired` and `persistLock`
  unfoldable pub expire : Round → Guard → Guard
  expire r g =
      persist_lock P S.identity r.lock_time
        (record g { machine = on_grace_period_expired g.machine })

  -- After a failure that is not fatal.
  unfoldable pub on_failure : Round → LoopState → LoopState × Option Exit
  on_failure r s =
      let start = started_at s.grace_start r.start_time in
      let g = degrade r s.guard in
      if ltb (start + max_offline) r.since_time
      then (record { guard = expire r g; grace_start = some start }, some expired)
      else (record { guard = g; grace_start = some start }, none)

  -- What follows the error of a heartbeat.
  unfoldable pub on_error : Round → Error → LoopState → LoopState × Option Exit
  on_error r e s =
      if is e context_canceled
      then (s, some stopped)
      else if is_fatal_error e
      then (
        record s {
          guard =
              persist_ban P S.identity r.ban_time
                (record s.guard { machine = on_kill s.guard.machine });
        },
        some killed,
      )
      else on_failure r s

  -- What follows a heartbeat.
  unfoldable pub after_beat : Round → Option ℕ → Beat → LoopState × Option Exit
  after_beat r start b = elim b.result [
    | ok _ ↦ (
      record {
        guard = record b.guard { machine = on_heartbeat_ok b.guard.machine };
        grace_start = none;
      },
      none,
    )
    | err e ↦ on_error r e (record { guard = b.guard; grace_start = start })
  ]

  -- One round of the loop.
  unfoldable pub round : Round → LoopState → LoopState × Option Exit
  unfolding after_beat
  round r s =
      if r.done
      then (s, some stopped)
      else after_beat r s.grace_start (send_heartbeat P S r.env s.guard)

  unfoldable pub go_on :
      (LoopState → LoopState × Option Exit) → LoopState × Option Exit → LoopState × Option Exit
  go_on rest (s, some x) = (s, some x)
  go_on rest (s, none) = rest s

  -- The loop over the rounds that are given; `none` means that it still runs after them.
  unfoldable pub run : List Round → LoopState → LoopState × Option Exit
  unfolding go_on
  run [] s = (s, none)
  run (r ∷ rs) s = go_on (λ t. run rs t) (round r s)

-- The goroutine starts with no grace period.
unfoldable pub start_heartbeat :
    Platform → Settings → ℕ → List Round → Guard → LoopState × Option Exit
start_heartbeat P S max_offline rounds g =
    run P S max_offline rounds (record { guard = g; grace_start = none })
