-- ===== src/Observability/Tests.antt =====
-- The theorem on crates/observability/src/stats.rs at a concrete pool, and the probe.
use rapira_windows.Common.{ℕ, ◌+◌, ◌≡◌, ◌≤◌, refl, [], ◌∷◌, arith}
use rapira_windows.Pool.Scoreboard.{SharedSlot, Pool, free_slot}
use rapira_windows.Observability.{pool_stats, unready}
use rapira_windows.Observability.Totals.{handled_of, errors_of, total, ready_of, pool_stats-adds}

abbrev slot_in : ℕ → SharedSlot
slot_in state = record { state = state; pid = 301; handled = 10; errors = 2; recycles = 1 }

abbrev http : Pool
http = record {
  name = "http";
  slots = slot_in 2 ∷ slot_in 3 ∷ slot_in 1 ∷ [];
  pending = 7;
  failed_on_full_queue = 5;
  shed = 3;
}

abbrev grpc : Pool
grpc = record {
  name = "grpc";
  slots = slot_in 4 ∷ free_slot ∷ [];
  pending = 4;
  failed_on_full_queue = 2;
  shed = 1;
}

requests_total : (pool_stats http).requests ≡ 33
unfolding pool_stats
requests_total = refl

only_grpc : unready (http ∷ grpc ∷ []) ≡ "grpc" ∷ []
unfolding unready
only_grpc = refl

pool_stats-adds_example :
    let r = pool_stats http in
    (r.requests ≡ http.shed + handled_of http.slots)
    × (r.failed ≡ http.shed + errors_of http.slots)
    × (r.failed ≤ r.requests)
    × (total r.states ≤ r.configured)
    × (r.states.idle + r.states.active ≡ ready_of http.slots)
pool_stats-adds_example =
    pool_stats-adds http (omega arith, (omega arith, (omega arith, tt))) (omega arith) (omega arith)
