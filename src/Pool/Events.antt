-- ===== src/Pool/Events.antt =====
-- crates/sapi/src/scoreboard.rs and crates/sapi/src/quota.rs: what one interpreter thread reports
-- to its slot, and its request quota.
--
-- The thread-local variables are the fields of `Thread`: `SB` with the slot it points at, the
-- `DRAINING` flag, the quota, and the pool's `handled` flag that `start::note_handled` raises.
pub mod Quota
pub mod Counters
mod Tests
use rapira_windows.Common.{ℕ, ◌+◌, ◌%◌, Bool, true, false, ◌||◌, List, [], ◌∷◌, ◌==◌, if◌then◌else◌}
use rapira_windows.Pool.Scoreboard.{
  SharedSlot, slot_starting, slot_idle, slot_active, slot_draining, u64, add_one,
}

pub record QuotaState : Type 0 where
  pub served : ℕ
  pub max : ℕ
  pub draining : Bool
  pub unhealthy : Bool

pub record Thread : Type 0 where
  -- Whether `SB` is set; `slot` is what it points at.
  pub bound : Bool
  pub slot : SharedSlot
  pub draining : Bool
  pub quota : QuotaState
  -- Whether `UNIT_RX` is set.
  pub attached : Bool
  -- `UnitRx::handled`.
  pub any_handled : Bool

pub data Event : Type 0 where
  handled : Bool → Event
  shed recycled idle active draining boot_failed : Event

unfoldable pub install : Thread → ℕ → Thread
install t max = record t {
  quota = record { served = 0; max = max; draining = false; unhealthy = false };
}

unfoldable pub is_draining : Thread → Bool
is_draining t = t.quota.draining

unfoldable pub is_unhealthy : Thread → Bool
is_unhealthy t = t.quota.unhealthy

unfoldable pub sb_set : Thread → SharedSlot → Thread
sb_set t slot = record t { bound = true; slot = slot; draining = false }

abbrev pub store_state : Thread → ℕ → Thread
store_state t state = record t { slot = record (t.slot) { state = state } }

-- `draining_or`.
abbrev pub draining_or : Thread → ℕ → ℕ
draining_or t state = if t.draining then slot_draining else state

-- `sb_update(Event::Draining)`, the only event that the quota reports.
unfoldable pub update_draining : Thread → Thread
update_draining t = if t.bound then store_state (record t { draining = true }) slot_draining else t

-- `start::note_handled`.
unfoldable pub note_handled : Thread → Thread
note_handled t = if t.attached then record t { any_handled = true } else t

-- The closure of `tick`.
abbrev count_served : Thread → Thread
count_served t = record t { quota = record (t.quota) { served = (t.quota.served + 1) % u64 } }

abbrev drain : Thread → Thread
drain t = record t { quota = record (t.quota) { draining = true } }

unfoldable pub tick : Thread → Thread
unfolding note_handled update_draining
tick t =
    let t₀ = note_handled t in
    if t₀.quota.max == 0 || t₀.quota.draining
    then t₀
    else let t₁ = count_served t₀ in
      if t₁.quota.served == t₁.quota.max then update_draining (drain t₁) else t₁

unfoldable pub fire_unhealthy : Thread → Thread
fire_unhealthy t =
    update_draining (record t { quota = record (t.quota) { unhealthy = true; draining = true } })

abbrev add_handled : Bool → Thread → Thread
add_handled errored t = record t {
  slot = record (t.slot) {
    errors = if errored then add_one t.slot.errors else t.slot.errors;
    handled = add_one t.slot.handled;
  };
}

-- The match of `sb_update`, for a thread with a slot.
unfoldable pub update_bound : Thread → Event → Thread
unfolding tick
update_bound t (handled errored) = tick (add_handled errored t)
update_bound t shed = add_handled true t
update_bound t recycled = record t { slot = record (t.slot) { recycles = add_one t.slot.recycles } }
update_bound t idle = store_state t (draining_or t slot_idle)
update_bound t active = store_state t slot_active
update_bound t draining = update_draining t
update_bound t boot_failed = store_state t (draining_or t slot_starting)

unfoldable pub sb_update : Thread → Event → Thread
unfolding update_bound
sb_update t e = if t.bound then update_bound t e else t

-- The events of a thread, in order.
unfoldable pub run : Thread → List Event → Thread
run t [] = t
run t (e ∷ es) = run (sb_update t e) es
