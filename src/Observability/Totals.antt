-- ===== src/Observability/Totals.antt =====
-- What the numbers of crates/observability/src/stats.rs add up to.
use rapira_windows.Common.{
  ℕ, ◌+◌, ◌≡◌, ◌≤◌, ◌<◌, refl, not, ◌&&◌, ◌||◌, List, [], ◌∷◌, All, length, arith, ◌==◌,
  if◌then◌else◌, Bool-cases, inl, inr,
}
use rapira_windows.Pool.Scoreboard.{SharedSlot, Pool, u64, slot_idle, slot_active, serving}
use rapira_windows.Observability.{
  States, PoolStats, count_state, add_slot, add_slots, no_states, pool_stats,
}

abbrev pub handled_of : List SharedSlot → ℕ
handled_of [] = 0
handled_of (s ∷ ss) = s.handled + handled_of ss

abbrev pub errors_of : List SharedSlot → ℕ
errors_of [] = 0
errors_of (s ∷ ss) = s.errors + errors_of ss

abbrev pub total : States → ℕ
total s = s.starting + s.idle + s.active + s.draining

-- The slots that serve, with a process.
abbrev pub ready_of : List SharedSlot → ℕ
ready_of [] = 0
ready_of (s ∷ ss) = (if not (s.pid == 0) && serving s then 1 else 0) + ready_of ss

-- What the loop over the slots adds.
pub record Sums (slots : List SharedSlot) (s r : PoolStats) : Type 0 where
  pub requests : r.requests ≡ s.requests + handled_of slots
  pub failed : r.failed ≡ s.failed + errors_of slots
  pub states : total r.states ≤ total s.states + length slots
  pub ready : r.states.idle + r.states.active ≡ s.states.idle + s.states.active + ready_of slots

count_state-total :
    (n : ℕ) (s : States)
    → total s + 1 < u64
    → (total (count_state n s) ≤ total s + 1)
      × ((count_state n s).idle + (count_state n s).active
          ≡ s.idle + s.active + (if n == slot_idle || n == slot_active then 1 else 0))
unfolding count_state
count_state-total n s w = ground arith

-- What one slot adds.
record One (slot : SharedSlot) (s r : PoolStats) : Type 0 where
  requests : r.requests ≡ s.requests + slot.handled
  failed : r.failed ≡ s.failed + slot.errors
  states : total r.states ≤ total s.states + 1
  ready :
      r.states.idle + r.states.active
      ≡ s.states.idle + s.states.active + (if not (slot.pid == 0) && serving slot then 1 else 0)

add_slot-One :
    (slot : SharedSlot) (s : PoolStats)
    → s.requests + slot.handled < u64
    → s.failed + slot.errors < u64
    → total s.states + 1 < u64
    → One slot s (add_slot slot s)
unfolding add_slot serving
add_slot-One slot s h e w =
    let c = count_state-total slot.state s.states w in
    elim (Bool-cases (slot.pid == 0)) [
      | inl free ↦ record {
        requests = omega (arith, h);
        failed = omega (arith, e);
        states = simp free (omega arith);
        ready = simp free (omega arith);
      }
      | inr bound ↦ record {
        requests = omega (arith, h);
        failed = omega (arith, e);
        states = simp bound c.0;
        ready = simp bound c.1;
      }
    ]

add_slots-Sums :
    (slots : List SharedSlot) (s : PoolStats)
    → s.requests + handled_of slots < u64
    → s.failed + errors_of slots < u64
    → total s.states + length slots < u64
    → Sums slots s (add_slots slots s)
unfolding add_slots
add_slots-Sums [] s h e w = record {
  requests = omega arith;
  failed = omega arith;
  states = omega arith;
  ready = omega arith;
}
add_slots-Sums (slot ∷ slots) s h e w =
    let one = add_slot-One slot s (omega (arith, h)) (omega (arith, e)) (omega (arith, w)) in
    let rest =
      add_slots-Sums slots (add_slot slot s) (omega (arith, h, one.requests))
        (omega (arith, e, one.failed)) (omega (arith, w, one.states)) in
    record {
      requests = omega (arith, one.requests, rest.requests);
      failed = omega (arith, one.failed, rest.failed);
      states = omega (arith, one.states, rest.states);
      ready = omega (arith, one.ready, rest.ready);
    }

add_slots-configured :
    (slots : List SharedSlot) (s : PoolStats) → (add_slots slots s).configured ≡ s.configured
unfolding add_slots add_slot
add_slots-configured [] s = refl
add_slots-configured (slot ∷ slots) s = add_slots-configured slots (add_slot slot s)

errors-le-handled :
    (slots : List SharedSlot)
    → All (λ s. s.errors ≤ s.handled) slots
    → errors_of slots ≤ handled_of slots
errors-le-handled [] h = omega arith
errors-le-handled (s ∷ ss) h = omega (arith, h.0, errors-le-handled ss h.1)

-- In a pool with fewer than 2^64 slots, which count no more errors than units, and whose units with the
-- shed ones are below 2^64, the requests are
-- the shed units with those of every slot, no fewer than the failed ones; every slot is in at most one
-- state; and the idle and active ones are the slots that serve and have a process.
pub pool_stats-adds :
    (pool : Pool)
    → All (λ s. s.errors ≤ s.handled) pool.slots
    → pool.shed + handled_of pool.slots < u64
    → length pool.slots < u64
    → let r = pool_stats pool in
      (r.requests ≡ pool.shed + handled_of pool.slots)
      × (r.failed ≡ pool.shed + errors_of pool.slots)
      × (r.failed ≤ r.requests)
      × (total r.states ≤ r.configured)
      × (r.states.idle + r.states.active ≡ ready_of pool.slots)
unfolding pool_stats
pool_stats-adds pool le h w =
    let start : PoolStats = record {
      name = pool.name;
      configured = length pool.slots;
      states = no_states;
      requests = pool.shed;
      failed = pool.shed;
      failed_on_full_queue = pool.failed_on_full_queue;
      queued = pool.pending;
      script_restarts = 0;
    } in
    let few = errors-le-handled pool.slots le in
    let sums = add_slots-Sums pool.slots start h (omega (arith, h, few)) (omega (arith, w)) in
    (
      sums.requests,
      sums.failed,
      omega (arith, sums.requests, sums.failed, few),
      (let kept = add_slots-configured pool.slots start in omega (arith, sums.states, kept)),
      omega (arith, sums.ready),
    )
