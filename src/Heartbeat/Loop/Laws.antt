-- ===== src/Heartbeat/Loop/Laws.antt =====
-- Where the loop can leave the state machine, and when it locks.
use banyan_hub_sdk.Base.{
  ltb, Bool-cases, ℕ, ◌+◌, ◌≡◌, refl, ◌∙◌, ◌⊎◌, inl, inr, true, false, Option, none, some, List, [],
  ◌∷◌, arith,
}
use banyan_hub_sdk.Errors.{
  banned, context_canceled, sentinel_eq, Error, sentinel, is, is_fatal_error, ok, err, Result-cases,
}
use banyan_hub_sdk.Guard.{Settings, Guard}
use banyan_hub_sdk.Guard.Lifecycle.{start}
use banyan_hub_sdk.Heartbeat.{Beat, persist_ban, persist_lock, persist_grace}
use banyan_hub_sdk.Heartbeat.Laws.{Moves, kill, stay, send_heartbeat-Moves}
use banyan_hub_sdk.Heartbeat.Loop.{
  Round, Exit, stopped, killed, expired, LoopState, started_at, degrade, expire, on_failure,
  on_error, round, run, after_beat, go_on,
}
use banyan_hub_sdk.Platform.{Platform}
use banyan_hub_sdk.State.{on_kill}
use banyan_hub_sdk.State.Laws.{
  is_usable, on_heartbeat_ok-usable, on_heartbeat_fail-usable, on_grace_period_expired-usable,
}
use banyan_hub_sdk.Types.{active, grace, locked_state, banned_state}

-- While the loop runs the machine is active with no grace period, or in a grace period that began.
abbrev pub IsRunning : LoopState → Type 0
IsRunning s =
    ((s.guard.machine ≡ active) × (s.grace_start ≡ none))
    ⊎ ((s.guard.machine ≡ grace) × ((t : ℕ) × (s.grace_start ≡ some t)))

-- The state of the machine that belongs to each way out.
abbrev pub Outcome : LoopState × Option Exit → Type 0
Outcome (s, none) = IsRunning s
Outcome (s, some stopped) = IsRunning s
Outcome (s, some killed) = s.guard.machine ≡ banned_state
Outcome (s, some expired) = s.guard.machine ≡ locked_state

banned_is_fatal : is_fatal_error (sentinel banned) ≡ true
unfolding is_fatal_error sentinel_eq
banned_is_fatal = refl

banned_not_canceled : is (sentinel banned) context_canceled ≡ false
unfolding is sentinel_eq
banned_not_canceled = refl

module _ (P : Platform) (S : Settings) (max_offline : ℕ) where
  persist_grace-machine :
      (now : ℕ) (g : Guard) → (persist_grace P S.identity now g).machine ≡ g.machine
  unfolding persist_grace
  persist_grace-machine now g = ground arith

  persist_lock-machine :
      (now : ℕ) (g : Guard) → (persist_lock P S.identity now g).machine ≡ g.machine
  unfolding persist_lock
  persist_lock-machine now g = refl

  persist_ban-machine : (now : ℕ) (g : Guard) → (persist_ban P S.identity now g).machine ≡ g.machine
  unfolding persist_ban
  persist_ban-machine now g = refl

  degrade-grace :
      (r : Round) (g : Guard)
      → is_usable g.machine ≡ true
      → (degrade P S max_offline r g).machine ≡ grace
  unfolding degrade
  degrade-grace r g u = persist_grace-machine _ _ ∙ on_heartbeat_fail-usable g.machine u

  expire-locked :
      (r : Round) (g : Guard)
      → is_usable g.machine ≡ true
      → (expire P S max_offline r g).machine ≡ locked_state
  unfolding expire
  expire-locked r g u = persist_lock-machine _ _ ∙ on_grace_period_expired-usable g.machine u

  on_failure-Outcome :
      (r : Round) (s : LoopState)
      → is_usable s.guard.machine ≡ true
      → Outcome (on_failure P S max_offline r s)
  unfolding on_failure
  on_failure-Outcome r s u =
      let start = started_at s.grace_start r.start_time in
      let g = degrade P S max_offline r s.guard in
      elim (Bool-cases (ltb (start + max_offline) r.since_time)) [
        | inl late ↦ rw late (expire-locked r g (rw (degrade-grace r s.guard u)))
        | inr early ↦ rw early (inr (degrade-grace r s.guard u, (start, refl)))
      ]

  running-usable : (s : LoopState) → IsRunning s → is_usable s.guard.machine ≡ true
  running-usable s (inl (m, n)) = rw m
  running-usable s (inr (m, t)) = rw m

  on_error-Outcome :
      (r : Round) (e : Error) (s : LoopState)
      → IsRunning s
      → Outcome (on_error P S max_offline r e s)
  unfolding on_error on_kill
  on_error-Outcome r e s h = elim (Bool-cases (is e context_canceled)) [
    | inl c ↦ rw c h
    | inr n ↦ elim (Bool-cases (is_fatal_error e)) [
      | inl f ↦ rw (n, f) (persist_ban-machine _ _)
      | inr k ↦ rw (n, k) (on_failure-Outcome r s (running-usable s h))
    ]
  ]

  killed_beat :
      (r : Round) (s : LoopState) → Outcome (on_error P S max_offline r (sentinel banned) s)
  unfolding on_error on_kill
  killed_beat r s = rw (banned_not_canceled, banned_is_fatal) (persist_ban-machine _ _)

  answered :
      (r : Round) (start : Option ℕ) (b : Beat)
      → is_usable b.guard.machine ≡ true
      → b.result ≡ ok tt
      → Outcome (after_beat P S max_offline r start b)
  unfolding after_beat
  answered r start b u e = rw e (inl (on_heartbeat_ok-usable b.guard.machine u, refl))

  failed :
      (r : Round) (start : Option ℕ) (b : Beat) {e : Error}
      → b.result ≡ err e
      → Outcome (on_error P S max_offline r e (record { guard = b.guard; grace_start = start }))
      → Outcome (after_beat P S max_offline r start b)
  unfolding after_beat
  failed r start b e o = rw e o

  after_beat-Outcome :
      (r : Round) (s : LoopState) (b : Beat)
      → IsRunning s
      → Moves P S r.env s.guard b
      → Outcome (after_beat P S max_offline r s.grace_start b)
  after_beat-Outcome r s b h (kill resp a k m e) = failed r s.grace_start b e (killed_beat r _)
  after_beat-Outcome r s b h (stay n m) = elim (Result-cases b.result) [
    | inl (x, e) ↦ answered r s.grace_start b (rw m (running-usable s h)) e
    | inr (x, e) ↦ failed r s.grace_start b e (on_error-Outcome r x _ (rw m h))
  ]

  -- One round, from a machine that runs, ends as its way out says.
  round-Outcome : (r : Round) (s : LoopState) → IsRunning s → Outcome (round P S max_offline r s)
  unfolding round
  round-Outcome r s h = elim (Bool-cases r.done) [
    | inl d ↦ simp d h
    | inr n ↦ simp n (after_beat-Outcome r s _ h (send_heartbeat-Moves P S r.env s.guard))
  ]

  go_on-Outcome :
      (rest : LoopState → LoopState × Option Exit)
      → ((s : LoopState) → IsRunning s → Outcome (rest s))
      → (w : LoopState × Option Exit) → Outcome w
      → Outcome (go_on P S max_offline rest w)
  unfolding go_on
  go_on-Outcome rest h (s, some x) o = o
  go_on-Outcome rest h (s, none) o = h s o

  -- Whatever the rounds of the loop bring, from a machine that runs: while the loop runs, and where
  -- it is stopped, the machine is active with no grace period or in a grace period that began;
  -- where it returns after a fatal error the machine is banned, and where it returns on expiry it
  -- is locked.
  pub run-Outcome :
      (rounds : List Round) (s : LoopState) → IsRunning s → Outcome (run P S max_offline rounds s)
  unfolding run
  run-Outcome [] s h = h
  run-Outcome (r ∷ rounds) s h =
      go_on-Outcome (run P S max_offline rounds) (run-Outcome rounds) (round P S max_offline r s)
        (round-Outcome r s h)
