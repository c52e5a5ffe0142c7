-- ===== src/Pool/Events/Quota.antt =====
-- The request quota of crates/sapi/src/quota.rs over any run of a thread.
use native.Mathlib.Nat.{zero-add}
use rapira_windows.Common.{
  ap, ℕ, ◌+◌, ◌<◌, ◌≡◌, refl, ◌∙◌, true, false, ◌&&◌, List, [], ◌∷◌, arith, ltb, leb, inl, inr, ◌⊎◌,
  Bool-cases,
}
use rapira_windows.Pool.Scoreboard.{u64}
use rapira_windows.Pool.Events.{
  Thread, Event, handled, shed, recycled, idle, active, draining, boot_failed, install, is_draining,
  sb_update, run,
}

-- The events that the quota counts.
abbrev pub served_by : Event → ℕ
served_by (handled errored) = 1
served_by _ = 0

abbrev pub count_served : List Event → ℕ
count_served [] = 0
count_served (e ∷ es) = served_by e + count_served es

-- A thread keeps its slot and its limit.
run_bound : (t : Thread) (e : Event) → t.bound ≡ true → (sb_update t e).bound ≡ true
unfolding sb_update
run_bound t (handled errored) h = ground arith
run_bound t shed h = ground arith
run_bound t recycled h = ground arith
run_bound t idle h = ground arith
run_bound t active h = ground arith
run_bound t draining h = ground arith
run_bound t boot_failed h = ground arith

-- Below the quota.
pub record Counting (m : ℕ) (t : Thread) : Type 0 where
  pub bound : t.bound ≡ true
  pub max : t.quota.max ≡ m
  pub live : t.quota.draining ≡ false
  pub room : t.quota.served < m
  pub width : m < u64

-- One event takes a thread that counts towards its quota on, or drains it.
step-Counting :
    (m : ℕ) (t : Thread) (e : Event)
    → Counting m t
    → (Counting m (sb_update t e) × ((sb_update t e).quota.served ≡ t.quota.served + served_by e))
      ⊎ (((sb_update t e).quota.draining ≡ true) × (t.quota.served + served_by e ≡ m))
unfolding sb_update
step-Counting m t (handled errored) c = ground arith
step-Counting m t shed c = ground arith
step-Counting m t recycled c = ground arith
step-Counting m t idle c = ground arith
step-Counting m t active c = ground arith
step-Counting m t draining c = ground arith
step-Counting m t boot_failed c = ground arith

stays_drained :
    (t : Thread) (e : Event) → t.quota.draining ≡ true → (sb_update t e).quota.draining ≡ true
unfolding sb_update
stays_drained t (handled errored) h = ground arith
stays_drained t shed h = ground arith
stays_drained t recycled h = ground arith
stays_drained t idle h = ground arith
stays_drained t active h = ground arith
stays_drained t draining h = ground arith
stays_drained t boot_failed h = ground arith

run_drained :
    (t : Thread) (es : List Event) → t.quota.draining ≡ true → (run t es).quota.draining ≡ true
unfolding run
run_drained t [] h = h
run_drained t (e ∷ es) h = run_drained (sb_update t e) es (stays_drained t e h)

run-Counting :
    (m : ℕ) (t : Thread) (es : List Event)
    → Counting m t
    → (run t es).quota.draining ≡ leb m (t.quota.served + count_served es)
unfolding run
run-Counting m t [] c = ground (arith, c.live, c.room)
run-Counting m t (e ∷ es) c = elim (step-Counting m t e c) [
  | inl (c', more) ↦ ground (arith, run-Counting m (sb_update t e) es c', more)
  | inr (d, full) ↦ ground (arith, run_drained (sb_update t e) es d, full)
]

unlimited :
    (t : Thread) (e : Event)
    → t.quota.max ≡ 0
    → t.quota.draining ≡ false
    → ((sb_update t e).quota.max ≡ 0) × ((sb_update t e).quota.draining ≡ false)
unfolding sb_update
unlimited t (handled errored) z h = ground arith
unlimited t shed z h = ground arith
unlimited t recycled z h = ground arith
unlimited t idle z h = ground arith
unlimited t active z h = ground arith
unlimited t draining z h = ground arith
unlimited t boot_failed z h = ground arith

run_unlimited :
    (t : Thread) (es : List Event)
    → t.quota.max ≡ 0
    → t.quota.draining ≡ false
    → (run t es).quota.draining ≡ false
unfolding run
run_unlimited t [] z h = h
run_unlimited t (e ∷ es) z h = let u = unlimited t e z h in run_unlimited (sb_update t e) es u.0 u.1

-- From `install` on, whatever a thread with a slot reports, it drains exactly when it has finished
-- as many units as its quota says; with a quota of 0 it never does.
pub is_draining-run-install :
    (t : Thread) (max : ℕ) (es : List Event)
    → t.bound ≡ true
    → max < u64
    → is_draining (run (install t max) es) ≡ (ltb 0 max && leb max (count_served es))
unfolding is_draining install
is_draining-run-install t max es b w = elim (Bool-cases (ltb 0 max)) [
  | inl limited ↦
      let c : Counting max (install t max) = record {
        bound = b;
        max = refl;
        live = refl;
        room = ground arith;
        width = w;
      } in
      rw limited (run-Counting max (install t max) es c ∙ ap (leb max) (zero-add (count_served es)))
  | inr none_set ↦ rw none_set (run_unlimited (install t max) es (ground arith) refl)
]
