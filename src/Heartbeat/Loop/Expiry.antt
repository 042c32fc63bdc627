-- ===== src/Heartbeat/Loop/Expiry.antt =====
-- When the loop gives up: after failures in a row, past the offline limit.
use banyan_hub_sdk.Base.{
  ltb, ltb→lt, Bool-cases, ℕ, ◌+◌, ◌<◌, ◌≡◌, refl, sym, ap, ◌∙◌, subst, ◌↔◌, ◌⊎◌, inl, inr, true,
  false, Option, none, some, List, [], ◌∷◌, arith,
}
use banyan_hub_sdk.Errors.{context_canceled, Error, is, is_fatal_error, Result, ok, err}
use banyan_hub_sdk.Guard.{Settings, Guard}
use banyan_hub_sdk.Guard.Lifecycle.{start}
use banyan_hub_sdk.Heartbeat.{send_heartbeat}
use banyan_hub_sdk.Heartbeat.Loop.{
  Round, Exit, stopped, killed, expired, LoopState, started_at, on_failure, on_error, after_beat,
  round, go_on, run, start_heartbeat,
}
use banyan_hub_sdk.Platform.{Platform}

module _ (P : Platform) (S : Settings) (max_offline : ℕ) where
  -- The heartbeat of this round gets an answer, or fails with an error that does not end the loop.
  abbrev pub Succeeds : Round → Guard → Type 0
  Succeeds r g = (r.done ≡ false) × ((send_heartbeat P S r.env g).result ≡ ok tt)

  abbrev pub Fails : Round → Guard → Type 0
  Fails r g =
      (r.done ≡ false)
      × ((e : Error) × ((send_heartbeat P S r.env g).result ≡ err e)
          × (is e context_canceled ≡ false)
          × (is_fatal_error e ≡ false))

  -- What the rounds must bring for an expiry, given when the failures in a row began, if there were any:
  -- a success ends the row; a failure begins one, unless it goes on; and one comes that is later than
  -- the limit after the begin.
  pub data Expires : Option ℕ → List Round → LoopState → Type 0 where
    answered :
        {begin : Option ℕ} {r : Round} {rounds : List Round} {s : LoopState}
        → Succeeds r s.guard
        → Expires none rounds (round P S max_offline r s).0
        → Expires begin (r ∷ rounds) s
    missed :
        {begin : Option ℕ} {r : Round} {rounds : List Round} {s : LoopState}
        → Fails r s.guard
        → ltb (started_at begin r.start_time + max_offline) r.since_time ≡ false
        → Expires (some (started_at begin r.start_time)) rounds (round P S max_offline r s).0
        → Expires begin (r ∷ rounds) s
    overdue :
        {begin : Option ℕ} {r : Round} {rounds : List Round} {s : LoopState}
        → Fails r s.guard
        → started_at begin r.start_time + max_offline < r.since_time
        → Expires begin (r ∷ rounds) s

  -- How a round goes on.
  data Turn (r : Round) (s : LoopState) (w : LoopState × Option Exit) : Type 0 where
    after_answer : Succeeds r s.guard → w.1 ≡ none → w.0.grace_start ≡ none → Turn r s w
    after_miss :
        Fails r s.guard
        → ltb (started_at s.grace_start r.start_time + max_offline) r.since_time ≡ false
        → w.1 ≡ none
        → w.0.grace_start ≡ some (started_at s.grace_start r.start_time)
        → Turn r s w
    at_expiry :
        Fails r s.guard
        → started_at s.grace_start r.start_time + max_offline < r.since_time
        → w.1 ≡ some expired
        → Turn r s w
    at_end :
        (w.1 ≡ some stopped) ⊎ (w.1 ≡ some killed)
        → ¬ (Succeeds r s.guard)
        → ¬ (Fails r s.guard)
        → Turn r s w

  not_both : (r : Round) (g : Guard) → Succeeds r g → ¬ (Fails r g)
  not_both r g (n, a) (m, (e, x, c, f)) = cc

  canceled_ends :
      (r : Round) (g : Guard) {e : Error}
      → (send_heartbeat P S r.env g).result ≡ err e
      → is e context_canceled ≡ true
      → ¬ (Fails r g)
  canceled_ends r g x c (m, (e, y, n, k)) = cc

  fatal_ends :
      (r : Round) (g : Guard) {e : Error}
      → (send_heartbeat P S r.env g).result ≡ err e
      → is_fatal_error e ≡ true
      → ¬ (Fails r g)
  fatal_ends r g x f (m, (e, y, n, k)) = cc

  failure_only :
      (r : Round) (g : Guard) {e : Error}
      → (send_heartbeat P S r.env g).result ≡ err e
      → ¬ (Succeeds r g)
  failure_only r g x (m, a) = cc

  on_failure-Turn :
      (r : Round) (s : LoopState) (g : Guard)
      → Fails r s.guard
      → Turn r s (on_failure P S max_offline r (record s { guard = g }))
  unfolding on_failure
  on_failure-Turn r s g f =
      elim (Bool-cases (ltb (started_at s.grace_start r.start_time + max_offline) r.since_time)) [
        | inl late ↦ rw late (at_expiry f (ltb→lt _ _ late) refl)
        | inr early ↦ rw early (after_miss f early refl refl)
      ]

  on_error-Turn :
      (r : Round) (e : Error) (s : LoopState) (g : Guard)
      → r.done ≡ false
      → (send_heartbeat P S r.env s.guard).result ≡ err e
      → Turn r s (on_error P S max_offline r e (record s { guard = g }))
  unfolding on_error
  on_error-Turn r e s g n x = elim (Bool-cases (is e context_canceled)) [
    | inl c ↦ rw c (at_end (inl refl) (failure_only r s.guard x) (canceled_ends r s.guard x c))
    | inr c ↦ elim (Bool-cases (is_fatal_error e)) [
      | inl f ↦ rw (c, f) (at_end (inr refl) (failure_only r s.guard x) (fatal_ends r s.guard x f))
      | inr f ↦ rw (c, f) (on_failure-Turn r s g (n, (e, x, c, f)))
    ]
  ]

  beat-Turn :
      (r : Round) (s : LoopState) (x : Result (Unit {0}))
      → r.done ≡ false
      → (send_heartbeat P S r.env s.guard).result ≡ x
      → Turn r s (after_beat P S max_offline r s.grace_start (send_heartbeat P S r.env s.guard))
  unfolding after_beat
  beat-Turn r s (ok y) n e = rw e (after_answer (n, e) refl refl)
  beat-Turn r s (err x) n e =
      rw e (on_error-Turn r x s (send_heartbeat P S r.env s.guard).guard n e)

  done_only : (r : Round) → r.done ≡ true → ¬ (r.done ≡ false)
  done_only r d n = cc

  round-Turn : (r : Round) (s : LoopState) → Turn r s (round P S max_offline r s)
  unfolding round
  round-Turn r s = elim (Bool-cases r.done) [
    | inl d ↦ simp d (at_end (inl refl) (λ a. done_only r d a.0) (λ f. done_only r d f.0))
    | inr n ↦ simp n (beat-Turn r s _ n refl)
  ]

  go_on-ended :
      (rest : LoopState → LoopState × Option Exit) (w : LoopState × Option Exit) {x : Exit}
      → w.1 ≡ some x
      → (go_on P S max_offline rest w).1 ≡ some x
  unfolding go_on
  go_on-ended rest (t, some y) e = e
  go_on-ended rest (t, none) e = cc

  go_on-goes :
      (rest : LoopState → LoopState × Option Exit) (w : LoopState × Option Exit)
      → w.1 ≡ none
      → go_on P S max_offline rest w ≡ rest w.0
  unfolding go_on
  go_on-goes rest (t, some y) e = cc
  go_on-goes rest (t, none) e = refl

  another_end : Path (Option Exit) (some stopped) (some expired) → ⊥
  another_end h = cc

  other_end : Path (Option Exit) (some killed) (some expired) → ⊥
  other_end h = cc

  run-Expires :
      (rounds : List Round) (s : LoopState)
      → (run P S max_offline rounds s).1 ≡ some expired
      → Expires s.grace_start rounds s
  unfolding run
  run-Expires [] s h = cc
  run-Expires (r ∷ rounds) s h =
      let rest = run P S max_offline rounds in
      let w = round P S max_offline r s in
      elim (round-Turn r s) [
        | after_answer a n z ↦ answered a (
            subst (λ b. Expires b rounds w.0) z
              (run-Expires rounds w.0 (ap (λ v. v.1) (sym (go_on-goes rest w n)) ∙ h)))
        | after_miss f early n z ↦ missed f early (
            subst (λ b. Expires b rounds w.0) z
              (run-Expires rounds w.0 (ap (λ v. v.1) (sym (go_on-goes rest w n)) ∙ h)))
        | at_expiry f late e ↦ overdue f late
        | at_end (inl e) k n ↦ absurd (another_end (sym (go_on-ended rest w e) ∙ h))
        | at_end (inr e) k n ↦ absurd (other_end (sym (go_on-ended rest w e) ∙ h))
      ]

  not_late :
      (start : ℕ) (r : Round)
      → ltb (start + max_offline) r.since_time ≡ false
      → ¬ (start + max_offline < r.since_time)
  not_late start r early late = ground arith

  Expires-run :
      {begin : Option ℕ} {rounds : List Round} {s : LoopState}
      → Expires begin rounds s
      → begin ≡ s.grace_start
      → (run P S max_offline rounds s).1 ≡ some expired
  unfolding run
  Expires-run (answered {r = r} {rounds = rounds} {s = s} a x) same =
      let rest = run P S max_offline rounds in
      let w = round P S max_offline r s in
      elim (round-Turn r s) [
        | after_answer _ n z ↦ ap (λ v. v.1) (go_on-goes rest w n) ∙ Expires-run x (sym z)
        | after_miss f _ n z ↦ absurd (not_both r s.guard a f)
        | at_expiry f late e ↦ absurd (not_both r s.guard a f)
        | at_end e k n ↦ absurd (k a)
      ]
  Expires-run (missed {begin = begin} {r = r} {rounds = rounds} {s = s} f early x) same =
      let rest = run P S max_offline rounds in
      let starts = ap (λ b. started_at b r.start_time) same in
      let w = round P S max_offline r s in
      elim (round-Turn r s) [
        | after_answer a n z ↦ absurd (not_both r s.guard a f)
        | after_miss _ _ n z ↦
            ap (λ v. v.1) (go_on-goes rest w n) ∙ Expires-run x (ap some starts ∙ sym z)
        | at_expiry _ late e ↦ absurd (
            not_late (started_at begin r.start_time) r early
              (subst (λ t. t + max_offline < r.since_time) (sym starts) late))
        | at_end e k n ↦ absurd (n f)
      ]
  Expires-run (overdue {begin = begin} {r = r} {rounds = rounds} {s = s} f late) same =
      let rest = run P S max_offline rounds in
      let starts = ap (λ b. started_at b r.start_time) same in
      let w = round P S max_offline r s in
      elim (round-Turn r s) [
        | after_answer a n z ↦ absurd (not_both r s.guard a f)
        | after_miss _ early n z ↦ absurd (
            not_late (started_at begin r.start_time) r
              (subst (λ t. ltb (t + max_offline) r.since_time ≡ false) (sym starts) early) late)
        | at_expiry _ _ e ↦ go_on-ended rest w e
        | at_end e k n ↦ absurd (n f)
      ]

  -- The heartbeat loop ends by expiry exactly when its rounds bring failures in a row that do not
  -- end it otherwise, of which one finds the clock past the offline limit, counted from the first
  -- failure of the row, and none before it does; a success clears the row, and no row has begun at
  -- the start of the loop.
  pub start_heartbeat-Expires :
      (rounds : List Round) (g : Guard)
      → ((start_heartbeat P S max_offline rounds g).1 ≡ some expired)
        ↔ Expires none rounds (record { guard = g; grace_start = none })
  unfolding start_heartbeat
  start_heartbeat-Expires rounds g =
      (run-Expires rounds (record { guard = g; grace_start = none }), λ x. Expires-run x refl)
