-- ===== src/Tests/Lifecycles.antt =====
-- A guard that is started and stopped.
use banyan_hub_sdk.Base.{ℕ, ◌≡◌, refl, inl, true, false, none, some}
use banyan_hub_sdk.Errors.{ok}
use banyan_hub_sdk.Guard.Lifecycle.{
  looping, not_called, cancels, Lifecycle, new_lifecycle, launch, start, set_stopping, stop, starts,
  stops, IsReachable, at_first, later,
}
use banyan_hub_sdk.Guard.Lifecycle.Joining.{Returns, stop-Returns}
use banyan_hub_sdk.Guard.Lifecycle.Laws.{single_heartbeat}

abbrev started : Lifecycle
started = launch new_lifecycle

abbrev stopped : Lifecycle
stopped =
    set_stopping (some 0) cancels
      (record started { running = false; cancel = none; heartbeat_done = none })

started_reachable : IsReachable started
unfolding start launch
started_reachable = later at_first (starts (ok tt) new_lifecycle)

stopped_reachable : IsReachable stopped
unfolding stop launch
stopped_reachable = later started_reachable (stops started)

loops : started.goroutine 0 ≡ looping
unfolding launch
loops = refl

untaken : started.stopping 0 ≡ not_called
unfolding launch
untaken = refl

single_heartbeat_example : Path ℕ 0 0 × (started.running ≡ true)
single_heartbeat_example = single_heartbeat started_reachable loops loops untaken untaken

stop-Returns_example : Returns 3 stopped 0
stop-Returns_example = stop-Returns 0 stopped_reachable (inl refl)
