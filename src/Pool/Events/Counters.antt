-- ===== src/Pool/Events/Counters.antt =====
-- The counters and the state that crates/sapi/src/scoreboard.rs writes over any run of a thread.
use rapira_windows.Common.{
  ℕ, ◌+◌, ◌%◌, ◌≤◌, ◌<◌, ◌≡◌, true, false, List, [], ◌∷◌, arith, if◌then◌else◌, ◌⊎◌,
}
use rapira_windows.Pool.Scoreboard.{slot_active, slot_draining, u64}
use rapira_windows.Pool.Events.{
  Thread, Event, handled, shed, recycled, idle, active, draining, boot_failed, sb_update, run,
}

-- The events that the slot counts.
abbrev pub finished : Event → ℕ
finished (handled errored) = 1
finished shed = 1
finished _ = 0

abbrev pub failed : Event → ℕ
failed (handled errored) = if errored then 1 else 0
failed shed = 1
failed _ = 0

abbrev pub restarted : Event → ℕ
restarted recycled = 1
restarted _ = 0

abbrev pub sum_of : (Event → ℕ) → List Event → ℕ
sum_of f [] = 0
sum_of f (e ∷ es) = f e + sum_of f es

-- Adding to a counter of 64 bits.
abbrev pub Adds : ℕ → ℕ → ℕ → Type 0
Adds n old new = new ≡ (old + n) % u64

pub record Counts (h f r : ℕ) (t t' : Thread) : Type 0 where
  pub handled_by : Adds h t.slot.handled t'.slot.handled
  pub errors_by : Adds f t.slot.errors t'.slot.errors
  pub recycles_by : Adds r t.slot.recycles t'.slot.recycles

pub record Fits (t : Thread) : Type 0 where
  pub bound : t.bound ≡ true
  pub handled : t.slot.handled < u64
  pub errors : t.slot.errors < u64
  pub recycles : t.slot.recycles < u64

step-Counts :
    (t : Thread) (e : Event)
    → Fits t
    → Counts (finished e) (failed e) (restarted e) t (sb_update t e) × Fits (sb_update t e)
unfolding sb_update
step-Counts t (handled true) v = ground arith
step-Counts t (handled false) v = ground arith
step-Counts t shed v = ground arith
step-Counts t recycled v = ground arith
step-Counts t idle v = ground arith
step-Counts t active v = ground arith
step-Counts t draining v = ground arith
step-Counts t boot_failed v = ground arith

run-Counts :
    (t : Thread) (es : List Event)
    → Fits t
    → Counts (sum_of finished es) (sum_of failed es) (sum_of restarted es) t (run t es)
unfolding run
run-Counts t [] v = ground arith
run-Counts t (e ∷ es) v =
    let (c, w) = step-Counts t e v in
    let d = run-Counts (sb_update t e) es w in
    record {
      handled_by = omega (arith, c.handled_by, d.handled_by);
      errors_by = omega (arith, c.errors_by, d.errors_by);
      recycles_by = omega (arith, c.recycles_by, d.recycles_by);
    }

failed-le-finished : (es : List Event) → sum_of failed es ≤ sum_of finished es
failed-le-finished [] = omega arith
failed-le-finished (handled true ∷ es) = omega (arith, failed-le-finished es)
failed-le-finished (handled false ∷ es) = omega (arith, failed-le-finished es)
failed-le-finished (shed ∷ es) = omega (arith, failed-le-finished es)
failed-le-finished (recycled ∷ es) = omega (arith, failed-le-finished es)
failed-le-finished (idle ∷ es) = omega (arith, failed-le-finished es)
failed-le-finished (active ∷ es) = omega (arith, failed-le-finished es)
failed-le-finished (draining ∷ es) = omega (arith, failed-le-finished es)
failed-le-finished (boot_failed ∷ es) = omega (arith, failed-le-finished es)

-- Over any run of a thread with a slot, short of 2^64 units, the slot counts every unit that the
-- thread handled or shed, once; as an error every one that it handled with an error or shed; and
-- every restart. So the errors are no more than the units.
pub run-exact :
    (t : Thread) (es : List Event)
    → Fits t
    → t.slot.handled + sum_of finished es < u64
    → t.slot.errors ≤ t.slot.handled
    → ((run t es).slot.handled ≡ t.slot.handled + sum_of finished es)
      × ((run t es).slot.errors ≡ t.slot.errors + sum_of failed es)
      × ((run t es).slot.errors ≤ (run t es).slot.handled)
      × ((run t es).slot.recycles ≡ (t.slot.recycles + sum_of restarted es) % u64)
run-exact t es v w le =
    let c = run-Counts t es v in
    let k = failed-le-finished es in
    (
      omega (arith, c.handled_by),
      omega (arith, c.errors_by, k),
      omega (arith, c.handled_by, c.errors_by, k),
      c.recycles_by,
    )

-- What a thread that drains may show.
pub record Retiring (t : Thread) : Type 0 where
  pub bound : t.bound ≡ true
  pub flag : t.draining ≡ true
  pub shown : (t.slot.state ≡ slot_draining) ⊎ (t.slot.state ≡ slot_active)

step-Retiring : (t : Thread) (e : Event) → Retiring t → Retiring (sb_update t e)
unfolding sb_update
step-Retiring t (handled true) v = ground arith
step-Retiring t (handled false) v = ground arith
step-Retiring t shed v = ground arith
step-Retiring t recycled v = ground arith
step-Retiring t idle v = ground arith
step-Retiring t active v = ground arith
step-Retiring t draining v = ground arith
step-Retiring t boot_failed v = ground arith

run-Retiring : (t : Thread) (es : List Event) → Retiring t → Retiring (run t es)
unfolding run
run-Retiring t [] v = v
run-Retiring t (e ∷ es) v = run-Retiring (sb_update t e) es (step-Retiring t e v)

drained-Retiring : (t : Thread) → t.bound ≡ true → Retiring (sb_update t draining)
unfolding sb_update
drained-Retiring t b = ground arith

-- Once a thread with a slot has reported that it drains, it never shows its slot as idle or
-- starting again until it is bound anew: whatever it reports later, the slot is draining, or active
-- for a unit in hand.
pub run-draining :
    (t : Thread) (es : List Event)
    → t.bound ≡ true
    → let s = run (sb_update t draining) es in
      (s.slot.state ≡ slot_draining) ⊎ (s.slot.state ≡ slot_active)
run-draining t es b = (run-Retiring (sb_update t draining) es (drained-Retiring t b)).shown
