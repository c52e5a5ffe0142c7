-- ===== src/Observability.antt =====
-- crates/observability/src/stats.rs and probes.rs: the numbers of the pools, and whether they are
-- ready, from the scoreboard.
--
-- The four states are the fields of `States`, and a sum wraps at 64 bits.
pub mod Totals
mod Tests
use Prim.Native.String.{String}
use rapira_windows.Common.{
  ℕ, ◌+◌, ◌%◌, Bool, true, false, not, ◌&&◌, List, [], ◌∷◌, length, any, ◌==◌, if◌then◌else◌,
}
use rapira_windows.Pool.Scoreboard.{
  SharedSlot, Pool, u64, slot_starting, slot_idle, slot_active, slot_draining, serving,
}

pub record States : Type 0 where
  pub starting : ℕ
  pub idle : ℕ
  pub active : ℕ
  pub draining : ℕ

pub record PoolStats : Type 0 where
  pub name : String
  pub configured : ℕ
  pub states : States
  pub requests : ℕ
  pub failed : ℕ
  pub failed_on_full_queue : ℕ
  pub queued : ℕ
  pub script_restarts : ℕ

-- `stats.states[i] += 1` at the state's place, if it has one.
unfoldable pub count_state : ℕ → States → States
count_state state s =
    if state == slot_starting
    then record s { starting = (s.starting + 1) % u64 }
    else if state == slot_idle
    then record s { idle = (s.idle + 1) % u64 }
    else if state == slot_active
    then record s { active = (s.active + 1) % u64 }
    else if state == slot_draining
    then record s { draining = (s.draining + 1) % u64 }
    else s

unfoldable pub add_slot : SharedSlot → PoolStats → PoolStats
unfolding count_state
add_slot slot s = record s {
  requests = (s.requests + slot.handled) % u64;
  failed = (s.failed + slot.errors) % u64;
  script_restarts = (s.script_restarts + slot.recycles) % u64;
  states = if slot.pid == 0 then s.states else count_state slot.state s.states;
}

unfoldable pub add_slots : List SharedSlot → PoolStats → PoolStats
unfolding add_slot
add_slots [] s = s
add_slots (slot ∷ slots) s = add_slots slots (add_slot slot s)

abbrev pub no_states : States
no_states = record { starting = 0; idle = 0; active = 0; draining = 0 }

unfoldable pub pool_stats : Pool → PoolStats
unfolding add_slots
pool_stats pool = add_slots pool.slots (record {
  name = pool.name;
  configured = length pool.slots;
  states = no_states;
  requests = pool.shed;
  failed = pool.shed;
  failed_on_full_queue = pool.failed_on_full_queue;
  queued = pool.pending;
  script_restarts = 0;
})

unfoldable pub board_stats : List Pool → List PoolStats
unfolding pool_stats
board_stats [] = []
board_stats (p ∷ ps) = pool_stats p ∷ board_stats ps

unfoldable pub unready : List Pool → List String
unfolding serving
unready [] = []
unready (p ∷ ps) =
    let rest = unready ps in if not (any serving p.slots) then p.name ∷ rest else rest
