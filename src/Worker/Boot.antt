-- ===== src/Worker/Boot.antt =====
-- When a thread of crates/sapi/src/start.rs counts the boot of its pool as failed.
use rapira_windows.Common.{
  ◌≡◌, refl, sym, ap, ◌∙◌, true, false, not, ◌&&◌, ◌||◌, List, [], ◌∷◌, if◌then◌else◌, Bool-cases,
  inl, inr, ◌⊎◌, arith,
}
use rapira_windows.Pool.Events.{
  Thread, boot_failed, draining, sb_set, sb_update, is_draining, is_unhealthy,
}
use rapira_windows.Worker.Main.{
  Round, Main, Turn, breaks, again, is_closed, serve, answers_within, delay_of, streak_before,
  after_unhealthy, after_serve, recycle_turn, round, release_slot, worker_main,
}
use rapira_windows.Worker.Backoff.{is_failing, is_unhealthy-serve}

-- PHP did not start, or the round left the thread unhealthy while no unit of the pool had been handled
-- and no slot of it was serving.
abbrev pub Blamed : Round → Type 0
Blamed r =
    (r.booted ≡ false) ⊎ ((is_failing r ≡ true) × (r.any_handled ≡ false) × (r.any_serving ≡ false))

abbrev pub Somewhere : List Round → Type 0
Somewhere [] = ⊥
Somewhere (r ∷ rs) = Blamed r ⊎ Somewhere rs

abbrev pub main_of : Turn → Main
main_of (breaks s) = s
main_of (again s) = s

recycle-boot_failed : (o : Turn) → (main_of (recycle_turn o)).boot_failed ≡ (main_of o).boot_failed
recycle-boot_failed (breaks s) = refl
recycle-boot_failed (again s) = refl

after_unhealthy-raised :
    (r : Round) (s : Main)
    → s.boot_failed ≡ false
    → (main_of (after_unhealthy r s)).boot_failed ≡ true
    → (r.any_handled ≡ false) × (r.any_serving ≡ false)
unfolding after_unhealthy
after_unhealthy-raised r s f e =
    elim (Bool-cases (answers_within (delay_of (streak_before r s)) r.stop_after)) [
      | inl stops ↦ raised (simp stops at e)
      | inr waits ↦ raised (simp waits at e)
    ]
  where
    raised :
        (if not r.any_handled && not r.any_serving then true else s.boot_failed) ≡ true
        → (r.any_handled ≡ false) × (r.any_serving ≡ false)
    raised h = ground (arith, h, f)

after_serve-raised :
    (r : Round) (s : Main) (t : Thread)
    → s.boot_failed ≡ false
    → (main_of (after_serve r s t)).boot_failed ≡ true
    → (is_unhealthy t ≡ true) × (r.any_handled ≡ false) × (r.any_serving ≡ false)
unfolding after_serve
after_serve-raised r s t f e =
    elim (Bool-cases (r.stopping || (is_closed r.outcome && not (is_draining t)))) [
      | inl ends ↦ absurd (let bad : s.boot_failed ≡ true = simp ends at e in clash bad)
      | inr stays ↦ elim (Bool-cases (is_unhealthy t)) [
        | inl sick ↦
            let why =
              after_unhealthy-raised r ended f
                (sym (recycle-boot_failed (after_unhealthy r ended)) ∙ simp (stays, sick) at e) in
            (sick, why.0, why.1)
        | inr fit ↦ absurd (let bad : s.boot_failed ≡ true = simp (stays, fit) at e in clash bad)
      ]
    ]
  where
    ended : Main
    ended = record s { thread = sb_update t draining }

    clash : s.boot_failed ≡ true → ⊥
    clash h = absurd (let bad : false ≡ true = sym f ∙ h in cc)

round-raised :
    (r : Round) (s : Main)
    → s.boot_failed ≡ false
    → (main_of (round r s)).boot_failed ≡ true
    → Blamed r
unfolding round
round-raised r s f e = elim (Bool-cases r.booted) [
  | inr unbooted ↦ inl unbooted
  | inl booted ↦
      let t₀ = sb_update (sb_set s.thread s.thread.slot) boot_failed in
      let why = after_serve-raised r s (serve r t₀) f (simp booted at e) in
      inr (sym (is_unhealthy-serve r t₀) ∙ why.0, why.1, why.2)
]

-- The flag that fails the boot of a pool is raised only by a round in which PHP did not start, or which
-- left the thread unhealthy while no unit of the pool had been handled and no slot of it was serving.
pub worker_main-Somewhere :
    (rs : List Round) (s : Main)
    → s.boot_failed ≡ false
    → (main_of (worker_main rs s)).boot_failed ≡ true
    → Somewhere rs
unfolding worker_main release_slot
worker_main-Somewhere [] s f e = absurd (let bad : false ≡ true = sym f ∙ e in cc)
worker_main-Somewhere (r ∷ rs) s f e =
    go (round r s) refl e (λ u g h. worker_main-Somewhere rs u g h)
  where
    go :
        (o : Turn)
        → round r s ≡ o
        → (main_of (elim o [
          | breaks s' ↦ breaks (release_slot s')
          | again s' ↦ worker_main rs s'
        ])).boot_failed
          ≡ true
        → ((u : Main)
            → u.boot_failed ≡ false
            → (main_of (worker_main rs u)).boot_failed ≡ true
            → Somewhere rs)
        → Blamed r ⊎ Somewhere rs
    go (breaks u) same h later =
        inl (round-raised r s f (ap (λ o. (main_of o).boot_failed) same ∙ h))
    go (again u) same h later = elim (Bool-cases u.boot_failed) [
      | inl raised ↦ inl (round-raised r s f (ap (λ o. (main_of o).boot_failed) same ∙ raised))
      | inr quiet ↦ inr (later u quiet h)
    ]
