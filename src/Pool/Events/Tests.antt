-- ===== src/Pool/Events/Tests.antt =====
-- Runs of a thread's events (crates/sapi/src/scoreboard.rs, crates/sapi/src/quota.rs).
use rapira_windows.Common.{
  ◌+◌, ◌≤◌, ◌%◌, ◌≡◌, refl, true, false, ◌&&◌, ◌⊎◌, List, [], ◌∷◌, arith, ltb, leb,
}
use rapira_windows.Pool.Scoreboard.{free_slot, slot_active, slot_draining, u64}
use rapira_windows.Pool.Events.{
  Thread, Event, handled, shed, idle, active, draining, install, is_draining, sb_update, run,
}
use rapira_windows.Pool.Events.Quota.{count_served, is_draining-run-install}
use rapira_windows.Pool.Events.Counters.{
  sum_of, finished, failed, restarted, run-exact, run-draining,
}

abbrev fresh_thread : Thread
fresh_thread = record {
  bound = true;
  slot = free_slot;
  draining = false;
  quota = record { served = 0; max = 0; draining = false; unhealthy = false };
  attached = true;
  any_handled = false;
}

abbrev two_units : List Event
two_units = idle ∷ active ∷ handled false ∷ idle ∷ active ∷ shed ∷ handled true ∷ []

drained_at_two : is_draining (run (install fresh_thread 2) two_units) ≡ true
unfolding is_draining run install sb_update
drained_at_two = refl

shown_as_draining : (run (install fresh_thread 2) two_units).slot.state ≡ slot_draining
unfolding run install sb_update
shown_as_draining = refl

is_draining-run-install_example :
    is_draining (run (install fresh_thread 2) two_units)
    ≡ (ltb 0 2 && leb 2 (count_served two_units))
is_draining-run-install_example =
    is_draining-run-install fresh_thread 2 two_units refl (omega arith)

run-exact_example :
    ((run fresh_thread two_units).slot.handled ≡ 0 + sum_of finished two_units)
    × ((run fresh_thread two_units).slot.errors ≡ 0 + sum_of failed two_units)
    × ((run fresh_thread two_units).slot.errors ≤ (run fresh_thread two_units).slot.handled)
    × ((run fresh_thread two_units).slot.recycles ≡ (0 + sum_of restarted two_units) % u64)
run-exact_example =
    run-exact fresh_thread two_units
      (record { bound = refl; handled = omega arith; errors = omega arith; recycles = omega arith })
      (omega arith) (omega arith)

run-draining_example :
    let s = run (sb_update fresh_thread draining) (idle ∷ active ∷ []) in
    (s.slot.state ≡ slot_draining) ⊎ (s.slot.state ≡ slot_active)
run-draining_example = run-draining fresh_thread (idle ∷ active ∷ []) refl
