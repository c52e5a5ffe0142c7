-- ===== src/Worker/Tests.antt =====
-- The theorems on crates/sapi/src/rapira_worker.rs and crates/sapi/src/start.rs at concrete inputs.
use Prim.Native.Nat.{max}
use rapira_windows.Common.{
  ℕ, ◌+◌, ◌/◌, ◌≡◌, ◌≤◌, ◌<◌, ◌↔◌, refl, true, false, List, [], ◌∷◌, some, arith,
}
use rapira_windows.Pool.Scoreboard.{free_slot, u64}
use rapira_windows.Pool.Events.{
  Thread, is_unhealthy, sb_update, update_bound, update_draining, fire_unhealthy, run, is_draining,
  install, sb_set,
}
use rapira_windows.Worker.Pull.{
  unit, Channels, received, timeout, recv, pull_unit_to_shed, effective_quota,
}
use rapira_windows.Worker.Cycles.{CycleRun, rapira_worker, run_cycle, count_failure}
use rapira_windows.Worker.Failing.{
  Closed, FiveInARow, thread_of, Closed-rapira_worker, unhealthy-FiveInARow,
}
use rapira_windows.Worker.Main.{
  Round, Main, panics, worker_main, round, after_serve, after_unhealthy,
}
use rapira_windows.Worker.Backoff.{Failing, Backed, worker_main-Backed, effective_quota-bounds}
use rapira_windows.Worker.Boot.{Somewhere, main_of, worker_main-Somewhere}

abbrev thread : Thread
thread = record {
  bound = true;
  slot = free_slot;
  draining = false;
  quota = record { served = 0; max = 0; draining = false; unhealthy = false };
  attached = true;
  any_handled = false;
}

abbrev quiet : Channels ℕ
quiet = record { stopping = false; wait = λ t. timeout; wait_again = λ t. received 7 }

abbrev failing_cycle : CycleRun ℕ
failing_cycle = record {
  events = [];
  bailed = false;
  closed_seen = false;
  wants_recycle = false;
  has_received = false;
  job = some quiet;
}

abbrev five_cycles : List (CycleRun ℕ)
five_cycles = failing_cycle ∷ failing_cycle ∷ failing_cycle ∷ failing_cycle ∷ failing_cycle ∷ []

recv_purges : recv quiet (some 5000) ≡ unit 7
unfolding recv
recv_purges = refl

five_unhealthy : is_unhealthy (thread_of (rapira_worker 0 thread five_cycles)) ≡ true
unfolding rapira_worker run_cycle run count_failure fire_unhealthy update_draining sb_update
    update_bound pull_unit_to_shed recv is_draining is_unhealthy
five_unhealthy = refl

Closed-rapira_worker_example : Closed (rapira_worker 0 thread five_cycles)
Closed-rapira_worker_example =
    Closed-rapira_worker thread five_cycles (refl, (refl, (refl, (refl, (refl, tt))))) (omega arith)

healthy_at_first : is_unhealthy thread ≡ false
unfolding is_unhealthy
healthy_at_first = refl

unhealthy-FiveInARow_example : FiveInARow five_cycles
unhealthy-FiveInARow_example =
    unhealthy-FiveInARow thread five_cycles healthy_at_first five_unhealthy

abbrev panicking : Round
panicking = record {
  booted = true;
  quota = 0;
  events = [];
  fired = false;
  outcome = panics;
  stopping = false;
  any_handled = false;
  any_serving = false;
  elapsed = 20;
  stop_after = some 300;
}

abbrev started : Main
started = record { thread = thread; streak = 0; boot_failed = false }

abbrev two_rounds : List Round
two_rounds = panicking ∷ panicking ∷ []

Failing-panicking : Failing panicking
Failing-panicking = record {
  booted = refl;
  failing = refl;
  goes_on = refl;
  short_lived = omega arith;
}

-- The waits are of 100 and 200 ms, and the stop channel would answer after 300.
worker_main-Backed_example : Backed (0 + 2) (worker_main two_rounds started)
worker_main-Backed_example =
    worker_main-Backed two_rounds started 0 refl
      (Failing-panicking, omega arith, (Failing-panicking, omega arith, tt))

flag_raised : (main_of (worker_main two_rounds started)).boot_failed ≡ true
unfolding worker_main round after_serve after_unhealthy is_unhealthy fire_unhealthy update_draining
    run install sb_update sb_set
flag_raised = refl

worker_main-Somewhere_example : Somewhere two_rounds
worker_main-Somewhere_example = worker_main-Somewhere two_rounds started refl flag_raised

effective_quota-bounds_example :
    (500 ≤ effective_quota 500 12345)
    × (effective_quota 500 12345 ≤ 500 + max (500 / 2) 1)
    × (effective_quota 500 12345 < u64)
    × ((effective_quota 500 12345 ≡ 0) ↔ (◌≡◌ {A = ℕ} 500 0))
effective_quota-bounds_example = effective_quota-bounds 500 12345 (omega arith)
