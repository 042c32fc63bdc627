-- ===== src/Guard/Lifecycle/Laws.antt =====
-- What holds of every interleaving of `Start`, `Stop` and the goroutines.
use banyan_hub_sdk.Base.{
  Bool-cases, ℕ, ◌≤◌, ◌<◌, ◌≡◌, ◌⊎◌, inl, inr, true, false, none, some, arith,
}
use banyan_hub_sdk.Errors.{Result, ok, err}
use banyan_hub_sdk.Guard.Lifecycle.{
  absent, looping, closed_done, gone, not_called, cancels, waits, returned, Lifecycle, update,
  new_lifecycle, launch, start, set_stopping, stop, finish_heartbeat, ◌⇝◌, starts, stops,
  cancel_step, return_step, end_step, notice_step, finish_step, IsReachable, at_first, later,
}

-- The fields are all set or all cleared.
abbrev pub Agree : Lifecycle → Type 0
Agree s =
    (s.cancel ≡ s.heartbeat_done)
    × (s.running ≡ false → s.heartbeat_done ≡ none)
    × (s.running ≡ true → (n : ℕ) × (s.heartbeat_done ≡ some n))

-- The goroutine of the current channel has not finished, and nothing stops it.
abbrev pub IsCurrent : Lifecycle → ℕ → Type 0
IsCurrent s n =
    (n < s.made)
    × (s.stopping n ≡ not_called)
    × (s.canceled n ≡ false)
    × ((s.goroutine n ≡ looping) ⊎ (s.goroutine n ≡ closed_done))

-- A loop is the current one, or a `Stop` is about to cancel it, or has canceled it and waits.
abbrev pub IsOwned : Lifecycle → ℕ → Type 0
IsOwned s n =
    (s.heartbeat_done ≡ some n)
    ⊎ (s.stopping n ≡ cancels)
    ⊎ ((s.stopping n ≡ waits) × (s.canceled n ≡ true))

-- Of one channel: nothing refers to it before it is made; and what the words above say.
abbrev pub At : Lifecycle → ℕ → Type 0
At s n =
    (s.made ≤ n → (s.goroutine n ≡ absent) × (s.stopping n ≡ not_called) × (s.canceled n ≡ false))
    × (s.heartbeat_done ≡ some n → IsCurrent s n)
    × (s.goroutine n ≡ looping → IsOwned s n)
    × (s.goroutine n ≡ absent → s.stopping n ≡ not_called)
    × (s.stopping n ≡ returned → (s.goroutine n ≡ closed_done) ⊎ (s.goroutine n ≡ gone))

pub record WellFormed (s : Lifecycle) : Type 0 where
  pub agree : Agree s
  pub at : (n : ℕ) → At s n

new_lifecycle-WellFormed : WellFormed new_lifecycle
new_lifecycle-WellFormed = record { agree = ground arith; at = λ n. ground arith }

launch-WellFormed : (s : Lifecycle) → s.running ≡ false → WellFormed s → WellFormed (launch s)
unfolding launch
launch-WellFormed s r w = record {
  agree = ground arith;
  at = λ n. ground (arith, w.agree, w.at n, w.at s.made);
}

start-WellFormed :
    (checked : Result (Unit {0})) (s : Lifecycle) → WellFormed s → WellFormed (start checked s).0
unfolding start
start-WellFormed checked s w = elim (Bool-cases s.running) [
  | inl r ↦ simp r w
  | inr r ↦ go checked r
]
  where
    go : (checked : Result (Unit {0})) → s.running ≡ false → WellFormed (start checked s).0
    go (ok x) r = simp r (launch-WellFormed s r w)
    go (err e) r = simp r w

-- A `Stop` takes the channel of the goroutine that runs.
taken-WellFormed :
    (n : ℕ) (s : Lifecycle)
    → s.heartbeat_done ≡ some n
    → WellFormed s
    → WellFormed (
        set_stopping
          (some n)
          cancels
          (record s { running = false; cancel = none; heartbeat_done = none }))
taken-WellFormed n s e w = record { agree = ground arith; at = λ m. ground (arith, w.at m, w.at n) }

stop-WellFormed : (s : Lifecycle) → WellFormed s → WellFormed (stop s)
unfolding stop
stop-WellFormed s w = elim (Bool-cases s.running) [
  | inr r ↦ simp r w
  | inl r ↦ let (n, e) = w.agree.2 r in simp (r, e) (taken-WellFormed n s e w)
]

-- A goroutine that ends on its own gives its channel up; one whose channel was taken leaves the fields.
finish-WellFormed :
    (n : ℕ) (s : Lifecycle)
    → s.goroutine n ≡ closed_done
    → WellFormed s
    → WellFormed (record (finish_heartbeat n s) { goroutine = update s.goroutine n gone })
unfolding finish_heartbeat
finish-WellFormed n s c w = record {
  agree = ground (arith, w.agree);
  at = λ m. ground (arith, w.agree, w.at m, w.at n);
}

-- Every step of any thread keeps the state well formed.
pub step-WellFormed : {s t : Lifecycle} → s ⇝ t → WellFormed s → WellFormed t
step-WellFormed (starts checked s) w = start-WellFormed checked s w
step-WellFormed (stops s) w = stop-WellFormed s w
step-WellFormed (cancel_step n s e) w = record { agree = w.agree; at = λ m. ground (arith, w.at m) }
step-WellFormed (return_step n s e c) w = record {
  agree = w.agree;
  at = λ m. ground (arith, w.at m);
}
step-WellFormed (end_step n s e) w = record { agree = w.agree; at = λ m. ground (arith, w.at m) }
step-WellFormed (notice_step n s e c) w = record {
  agree = w.agree;
  at = λ m. ground (arith, w.at m);
}
step-WellFormed (finish_step n s e) w = finish-WellFormed n s e w

-- Whatever the interleaving
pub IsReachable-WellFormed : {s : Lifecycle} → IsReachable s → WellFormed s
IsReachable-WellFormed at_first = new_lifecycle-WellFormed
IsReachable-WellFormed (later r st) = step-WellFormed st (IsReachable-WellFormed r)

-- Whatever the interleaving of `Start`, `Stop` and the goroutines: two heartbeat loops that no
-- `Stop` has taken are the same loop, and the guard is marked as running.
pub single_heartbeat :
    {s : Lifecycle} {m n : ℕ}
    → IsReachable s
    → s.goroutine m ≡ looping
    → s.goroutine n ≡ looping
    → s.stopping m ≡ not_called
    → s.stopping n ≡ not_called
    → (m ≡ n) × (s.running ≡ true)
single_heartbeat {s} {m} {n} r a b e f =
    let w = IsReachable-WellFormed r in ground (arith, w.agree, w.at m, w.at n)
