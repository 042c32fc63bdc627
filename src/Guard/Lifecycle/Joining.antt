-- ===== src/Guard/Lifecycle/Joining.antt =====
-- A `Stop` that gave up the lock can always go on to its return.
use banyan_hub_sdk.Base.{ℕ, suc, ◌≡◌, refl, ◌∙◌, ◌⊎◌, inl, inr, true, arith}
use banyan_hub_sdk.Guard.Lifecycle.{
  Goroutine, absent, looping, closed_done, gone, cancels, waits, returned, Lifecycle, update, ◌⇝◌,
  cancel_step, return_step, notice_step, IsReachable,
}
use banyan_hub_sdk.Guard.Lifecycle.Laws.{WellFormed, step-WellFormed, IsReachable-WellFormed}

-- The steps that end a call of `Stop`: its own two after the lock, and the one of the loop of its channel
-- that finds the context canceled. No thread starts or stops the guard by them.
pub data Helps : ℕ → Lifecycle → Lifecycle → Type 0 where
  cancels_it :
      (n : ℕ) (s : Lifecycle)
      → s.stopping n ≡ cancels
      → Helps n s
          (record s { canceled = update s.canceled n true; stopping = update s.stopping n waits })
  notices :
      (n : ℕ) (s : Lifecycle)
      → s.goroutine n ≡ looping
      → s.canceled n ≡ true
      → Helps n s (record s { goroutine = update s.goroutine n closed_done })
  comes_back :
      (n : ℕ) (s : Lifecycle)
      → s.stopping n ≡ waits
      → (s.goroutine n ≡ closed_done) ⊎ (s.goroutine n ≡ gone)
      → Helps n s (record s { stopping = update s.stopping n returned })

-- Each of them is a step of the threads.
Helps-step : {n : ℕ} {s t : Lifecycle} → Helps n s t → s ⇝ t
Helps-step (cancels_it n s e) = cancel_step n s e
Helps-step (notices n s e c) = notice_step n s e c
Helps-step (comes_back n s e c) = return_step n s e c

-- At most so many of these steps, each a step of the threads.
pub data StepsOf (n : ℕ) : ℕ → Lifecycle → Lifecycle → Type 0 where
  here : {k : ℕ} {s : Lifecycle} → StepsOf n k s s
  more : {k : ℕ} {s t u : Lifecycle} → Helps n s t → s ⇝ t → StepsOf n k t u → StepsOf n (suc k) s u

-- After at most so many steps the call that took the channel `n` has returned, its loop has ended, and
-- neither needed the fields that `Start` and `Stop` read.
pub record Returns (k : ℕ) (s : Lifecycle) (n : ℕ) : Type 0 where
  pub last : Lifecycle
  pub path : StepsOf n k s last
  pub has_returned : last.stopping n ≡ returned
  pub loop_ended : (last.goroutine n ≡ closed_done) ⊎ (last.goroutine n ≡ gone)
  pub same_running : last.running ≡ s.running
  pub same_cancel : last.cancel ≡ s.cancel
  pub same_channel : last.heartbeat_done ≡ s.heartbeat_done

-- One more step in front.
step_first :
    {k : ℕ} (s t : Lifecycle) (n : ℕ)
    → Helps n s t
    → t.running ≡ s.running
    → t.cancel ≡ s.cancel
    → t.heartbeat_done ≡ s.heartbeat_done
    → Returns k t n
    → Returns (suc k) s n
step_first s t n st p c q r = record {
  last = r.last;
  path = more st (Helps-step st) r.path;
  has_returned = r.has_returned;
  loop_ended = r.loop_ended;
  same_running = r.same_running ∙ p;
  same_cancel = r.same_cancel ∙ c;
  same_channel = r.same_channel ∙ q;
}

return_now :
    (k : ℕ) (s : Lifecycle) (n : ℕ)
    → s.stopping n ≡ waits
    → (s.goroutine n ≡ closed_done) ⊎ (s.goroutine n ≡ gone)
    → Returns (suc k) s n
return_now k s n e c = record {
  last = record s { stopping = update s.stopping n returned };
  path = more (comes_back n s e c) (return_step n s e c) here;
  has_returned = ground arith;
  loop_ended = c;
  same_running = refl;
  same_cancel = refl;
  same_channel = refl;
}

return_from :
    (s : Lifecycle) (n : ℕ) (g : Goroutine)
    → WellFormed s
    → s.stopping n ≡ waits
    → s.goroutine n ≡ g
    → Returns 2 s n
return_from s n absent w e p = absurd (ground (arith, w.at n))
return_from s n closed_done w e p = return_now 1 s n e (inl p)
return_from s n gone w e p = return_now 1 s n e (inr p)
return_from s n looping w e p =
    let t = record s { goroutine = update s.goroutine n closed_done } in
    step_first s t n (notices n s p (ground (arith, w.at n))) refl refl refl
      (return_now 0 t n e (inl (ground arith)))

waiting_longer : {s : Lifecycle} {n : ℕ} → Returns 2 s n → Returns 3 s n
waiting_longer r = record {
  last = r.last;
  path = longer r.path;
  has_returned = r.has_returned;
  loop_ended = r.loop_ended;
  same_running = r.same_running;
  same_cancel = r.same_cancel;
  same_channel = r.same_channel;
}
  where
    longer : {n k : ℕ} {s t : Lifecycle} → StepsOf n k s t → StepsOf n (suc k) s t
    longer here = here
    longer (more h st p) = more h st (longer p)

-- From every reachable state in which a `Stop` has given up the lock, at most three steps, each of
-- that `Stop` or of the loop whose channel it took, which finds its context canceled, and none of
-- them a call of `Start` or `Stop`, lead to a state in which that `Stop` has returned and that loop
-- has ended, with the three fields of the guard as they were.
pub stop-Returns :
    {s : Lifecycle} (n : ℕ)
    → IsReachable s
    → (s.stopping n ≡ cancels) ⊎ (s.stopping n ≡ waits)
    → Returns 3 s n
stop-Returns {s} n r (inr e) =
    waiting_longer (return_from s n (s.goroutine n) (IsReachable-WellFormed r) e refl)
stop-Returns {s} n r (inl e) =
    let t = record s {
      canceled = update s.canceled n true;
      stopping = update s.stopping n waits;
    } in
    step_first s t n (cancels_it n s e) refl refl refl (
      return_from t n (t.goroutine n)
        (step-WellFormed (cancel_step n s e) (IsReachable-WellFormed r)) (ground arith) refl)
