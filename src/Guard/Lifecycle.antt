-- ===== src/Guard/Lifecycle.antt =====
-- `Start`, `Stop` and `finishHeartbeat` of guard.go, each under the lifecycle lock, and their interleavings.
pub mod Laws
pub mod Joining
use banyan_hub_sdk.Base.{
  nat_eq, if◌then◌else◌, ℕ, suc, ◌≡◌, ◌⊎◌, Bool, true, false, not, Option, none, some,
}
use banyan_hub_sdk.Errors.{wrap, Result, ok, err}

-- The goroutine of a heartbeat: it runs its loop, has closed its channel, or has run `finishHeartbeat`.
pub data Goroutine : Type 0 where
  absent looping closed_done gone : Goroutine

-- A call of `Stop` after it gave up the lock: it cancels the context, waits for the channel, returns.
pub data Stopping : Type 0 where
  not_called cancels waits returned : Stopping

-- The fields `running`, `cancel` and `heartbeatDone`, and for each channel, which also names the
-- context of its goroutine: the goroutine, whether the context is canceled, and the `Stop` that took
-- the channel. `made` counts the channels.
pub record Lifecycle : Type 0 where
  pub running : Bool
  pub cancel : Option ℕ
  pub heartbeat_done : Option ℕ
  pub made : ℕ
  pub goroutine : ℕ → Goroutine
  pub canceled : ℕ → Bool
  pub stopping : ℕ → Stopping

abbrev pub update {ℓ} : {A : Type ℓ} → (ℕ → A) → ℕ → A → ℕ → A
update f n a m = if nat_eq n m then a else f m

-- A guard as `New` makes it.
abbrev pub new_lifecycle : Lifecycle
new_lifecycle = record {
  running = false;
  cancel = none;
  heartbeat_done = none;
  made = 0;
  goroutine = λ n. absent;
  canceled = λ n. false;
  stopping = λ n. not_called;
}

-- The end of `Start`, after the license was verified.
unfoldable pub launch : Lifecycle → Lifecycle
launch s = record s {
  running = true;
  cancel = some s.made;
  heartbeat_done = some s.made;
  made = suc s.made;
  goroutine = update s.goroutine s.made looping;
}

-- `Start`, given what `verifyLicense` returns.
unfoldable pub start : Result (Unit {0}) → Lifecycle → Lifecycle × Result (Unit {0})
unfolding launch
start checked s = if s.running then (s, ok tt) else elim checked [
  | err e ↦ (s, err (wrap "license verification failed" e))
  | ok _ ↦ (launch s, ok tt)
]

abbrev pub set_stopping : Option ℕ → Stopping → Lifecycle → Lifecycle
set_stopping none p s = s
set_stopping (some n) p s = record s { stopping = update s.stopping n p }

-- The part of `Stop` under the lock; the call goes on with the channel that it read.
unfoldable pub stop : Lifecycle → Lifecycle
stop s =
    if not s.running
    then s
    else set_stopping s.heartbeat_done cancels
        (record s { running = false; cancel = none; heartbeat_done = none })

-- The part of `finishHeartbeat` under the lock.
unfoldable pub finish_heartbeat : ℕ → Lifecycle → Lifecycle
finish_heartbeat n s = elim s.heartbeat_done [
  | none ↦ s
  | some m ↦
      if nat_eq m n then record s { running = false; cancel = none; heartbeat_done = none } else s
]

-- One step of any of the threads: the calls of `Start` and `Stop`, a `Stop` that goes on after the lock,
-- and a goroutine, whose loop ends of its own (`end_step`: a fatal error or the expiry), which nobody can
-- rely on, or because it finds its context canceled (`notice_step`).
infix 40 ◌⇝◌
pub data ◌⇝◌ : Lifecycle → Lifecycle → Type 0 where
  starts : (checked : Result (Unit {0})) (s : Lifecycle) → s ⇝ (start checked s).0
  stops : (s : Lifecycle) → s ⇝ stop s
  cancel_step :
      (n : ℕ) (s : Lifecycle)
      → s.stopping n ≡ cancels
      → s ⇝ record s { canceled = update s.canceled n true; stopping = update s.stopping n waits }
  return_step :
      (n : ℕ) (s : Lifecycle)
      → s.stopping n ≡ waits
      → (s.goroutine n ≡ closed_done) ⊎ (s.goroutine n ≡ gone)
      → s ⇝ record s { stopping = update s.stopping n returned }
  end_step :
      (n : ℕ) (s : Lifecycle)
      → s.goroutine n ≡ looping
      → s ⇝ record s { goroutine = update s.goroutine n closed_done }
  notice_step :
      (n : ℕ) (s : Lifecycle)
      → s.goroutine n ≡ looping
      → s.canceled n ≡ true
      → s ⇝ record s { goroutine = update s.goroutine n closed_done }
  finish_step :
      (n : ℕ) (s : Lifecycle)
      → s.goroutine n ≡ closed_done
      → s ⇝ record (finish_heartbeat n s) { goroutine = update s.goroutine n gone }

-- What any interleaving of the threads can lead to.
pub data IsReachable : Lifecycle → Type 0 where
  at_first : IsReachable new_lifecycle
  later : {s t : Lifecycle} → IsReachable s → s ⇝ t → IsReachable t
