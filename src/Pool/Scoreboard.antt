-- ===== src/Pool/Scoreboard.antt =====
-- crates/scoreboard/src/lib.rs. An atomic counter wraps at its width.
use rapira_windows.Common.{
  ℕ, ◌+◌, ◌-◌, ◌%◌, ◌^◌, Bool, ◌&&◌, ◌||◌, Option, none, some, List, [], ◌∷◌, leb, ◌==◌,
  if◌then◌else◌,
}
use Prim.Native.String.{String}
use Prim.Native.Nat.{zero, suc}

abbrev pub sb_max_slots : ℕ
sb_max_slots = 4096

abbrev pub slot_free : ℕ
slot_free = 0

abbrev pub slot_starting : ℕ
slot_starting = 1

abbrev pub slot_idle : ℕ
slot_idle = 2

abbrev pub slot_active : ℕ
slot_active = 3

abbrev pub slot_draining : ℕ
slot_draining = 4

abbrev pub u64 : ℕ
u64 = 2 ^ 64

-- `fetch_add` and `fetch_sub` of one on an AtomicU64.
abbrev pub add_one : ℕ → ℕ
add_one n = (n + 1) % u64

abbrev pub sub_one : ℕ → ℕ
sub_one n = (n + u64 - 1) % u64

pub record SharedSlot : Type 0 where
  pub state : ℕ
  pub pid : ℕ
  pub handled : ℕ
  pub errors : ℕ
  pub recycles : ℕ

-- `SharedSlot::default`.
abbrev pub free_slot : SharedSlot
free_slot = record { state = 0; pid = 0; handled = 0; errors = 0; recycles = 0 }

abbrev repeat_slot : ℕ → List SharedSlot
repeat_slot zero = []
repeat_slot (suc n) = free_slot ∷ repeat_slot n

-- `none` is the error "scoreboard slots out of range".
unfoldable pub create : ℕ → Option (List SharedSlot)
create nslots = if leb 1 nslots && leb nslots sb_max_slots then some (repeat_slot nslots) else none

unfoldable pub bind : SharedSlot → ℕ → SharedSlot
bind slot pid = record slot { pid = pid; state = slot_starting }

unfoldable pub serving : SharedSlot → Bool
serving slot = slot.state == slot_idle || slot.state == slot_active

pub record Pool : Type 0 where
  pub name : String
  pub slots : List SharedSlot
  pub pending : ℕ
  pub failed_on_full_queue : ℕ
  pub shed : ℕ

-- `Pool::new`.
abbrev pub new_pool : String → List SharedSlot → Pool
new_pool name slots = record {
  name = name;
  slots = slots;
  pending = 0;
  failed_on_full_queue = 0;
  shed = 0;
}
