-- ===== src/Worker/Health.antt =====
-- What changes the health of a thread in crates/sapi/src/rapira_worker.rs.
use rapira_windows.Common.{
  ℕ, ◌≡◌, refl, sym, ap, ◌∙◌, true, false, List, [], ◌∷◌, Option, ◌==◌, arith,
}
use rapira_windows.Pool.Events.{
  Event, handled, shed, recycled, idle, active, draining, boot_failed, Thread, sb_update,
  update_bound, update_draining, tick, note_handled, fire_unhealthy, run, is_draining, is_unhealthy,
}
use rapira_windows.Worker.Pull.{closed, Channels, pull_unit_to_shed}
use rapira_windows.Worker.Cycles.{count_failure}

tick-unhealthy : (t : Thread) → is_unhealthy (tick t) ≡ is_unhealthy t
unfolding tick note_handled update_draining is_unhealthy
tick-unhealthy t = ground arith

pub sb_update-unhealthy : (t : Thread) (e : Event) → is_unhealthy (sb_update t e) ≡ is_unhealthy t
unfolding sb_update update_bound tick note_handled update_draining is_unhealthy
sb_update-unhealthy t (handled true) = ground arith
sb_update-unhealthy t (handled false) = ground arith
sb_update-unhealthy t shed = ground arith
sb_update-unhealthy t recycled = ground arith
sb_update-unhealthy t idle = ground arith
sb_update-unhealthy t active = ground arith
sb_update-unhealthy t draining = ground arith
sb_update-unhealthy t boot_failed = ground arith

pub run-unhealthy : (t : Thread) (es : List Event) → is_unhealthy (run t es) ≡ is_unhealthy t
unfolding run
run-unhealthy t [] = refl
run-unhealthy t (e ∷ es) = run-unhealthy (sb_update t e) es ∙ sb_update-unhealthy t e

boot_failed-quota : (t : Thread) → (sb_update t boot_failed).quota ≡ t.quota
unfolding sb_update update_bound
boot_failed-quota t = ground arith

pub fire_unhealthy-quota :
    (t : Thread)
    → ((fire_unhealthy t).quota.draining ≡ true) × ((fire_unhealthy t).quota.unhealthy ≡ true)
unfolding fire_unhealthy update_draining
fire_unhealthy-quota t = ground arith

pub shut_when_draining :
    {W : Type 0} (t : Thread) (job : Option (Channels W)) (wait : ℕ)
    → is_draining t ≡ true
    → pull_unit_to_shed t job wait ≡ closed
unfolding pull_unit_to_shed
shut_when_draining t job wait d = rw (d, pull_unit_to_shed) refl

-- The fifth failure makes the thread drain.
pub fifth_failure : (t : Thread) (n : ℕ) → (n == 5) ≡ true → is_draining (count_failure t n) ≡ true
unfolding count_failure is_draining
fifth_failure t n e =
    rw (e, count_failure)
      (ap (λ q. q.draining) (boot_failed-quota (fire_unhealthy t)) ∙ (fire_unhealthy-quota t).0)

pub other_failure :
    (t : Thread) (n : ℕ) → (n == 5) ≡ false → is_unhealthy (count_failure t n) ≡ is_unhealthy t
unfolding count_failure
other_failure t n e = rw (e, count_failure) (sb_update-unhealthy t boot_failed)

pub clash : (t : Thread) → is_unhealthy t ≡ false → is_unhealthy t ≡ true → ⊥
clash t a b = absurd (let bad : false ≡ true = sym a ∙ b in cc)
