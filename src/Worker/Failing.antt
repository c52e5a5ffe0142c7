-- ===== src/Worker/Failing.antt =====
-- When a worker of crates/sapi/src/rapira_worker.rs is flagged unhealthy.
use mathlib.Core.Path.{subst}
use rapira_windows.Common.{
  ℕ, ◌+◌, ◌≡◌, ◌<◌, ◌≤◌, refl, sym, ap, ◌∙◌, true, false, List, [], ◌∷◌, ◌++◌, Option, none, some,
  ◌==◌, Bool-cases, inl, inr, arith, All, length,
}
use rapira_windows.Pool.Events.{shed, recycled, boot_failed, Thread, sb_update, is_unhealthy}
use rapira_windows.Worker.Health.{
  sb_update-unhealthy, run-unhealthy, shut_when_draining, fifth_failure, other_failure, clash,
}
use rapira_windows.Worker.Pull.{Pulled, unit, timed_out, nothing, closed, pull_unit_to_shed}
use rapira_windows.Worker.Cycles.{
  Cycle, stop, recycle, failed, restart, exit_closed, CycleRun, ending, run_cycle, Left, leaves,
  goes_on, count_failure, after_shed, rapira_worker, boot_retry,
}

-- The thread after the loop, or as it is.
abbrev pub thread_of : Left → Thread
thread_of (leaves e t) = t
thread_of (goes_on k t) = t

-- The loop was left because no unit can come any more.
pub data Closed : Left → Type 0 where
  left_closed : (t : Thread) → Closed (leaves exit_closed t)

module _ {W : Type 0} where
  abbrev pub IsFailing : CycleRun W → Type 0
  IsFailing c = ending c ≡ failed

  -- The cycles have five failures in a row, where `k` failures came before them.
  data Row (k : ℕ) : List (CycleRun W) → Type 0 where
    completed :
        (fs post : List (CycleRun W)) → All IsFailing fs → length fs + k ≡ 5 → Row k (fs ++ post)
    apart :
        (pre fs post : List (CycleRun W))
        → All IsFailing fs
        → length fs ≡ 5
        → Row k (pre ++ (fs ++ post))

  fail_cons :
      (k : ℕ) (c : CycleRun W) (cs : List (CycleRun W))
      → IsFailing c
      → Row (k + 1) cs
      → Row k (c ∷ cs)
  fail_cons k c _ f (completed fs post a e) = completed (c ∷ fs) post (f, a) (omega (arith, e))
  fail_cons k c _ f (apart pre fs post a e) = apart (c ∷ pre) fs post a e

  skip_cons : (k : ℕ) (c : CycleRun W) (cs : List (CycleRun W)) → Row 0 cs → Row k (c ∷ cs)
  skip_cons k c _ (completed fs post a e) = apart (c ∷ []) fs post a (omega (arith, e))
  skip_cons k c _ (apart pre fs post a e) = apart (c ∷ pre) fs post a e

  run_cycle-unhealthy :
      (t : Thread) (c : CycleRun W) → is_unhealthy (run_cycle t c) ≡ is_unhealthy t
  unfolding run_cycle
  run_cycle-unhealthy t c =
      run-unhealthy (sb_update t boot_failed) c.events ∙ sb_update-unhealthy t boot_failed

  after_shed-unhealthy :
      (t t' : Thread) (p : Pulled W) → after_shed t p ≡ some t' → is_unhealthy t' ≡ is_unhealthy t
  after_shed-unhealthy t t' closed e = absurd (cc)
  after_shed-unhealthy t t' (unit w) e =
      let same : sb_update t shed ≡ t' = cc in
      subst (λ x. is_unhealthy x ≡ is_unhealthy t) same (sb_update-unhealthy t shed)
  after_shed-unhealthy t t' timed_out e = let same : t ≡ t' = cc in ap is_unhealthy (sym same)
  after_shed-unhealthy t t' nothing e = let same : t ≡ t' = cc in ap is_unhealthy (sym same)

  unhealthy-Row :
      (k : ℕ) (t : Thread) (cs : List (CycleRun W))
      → is_unhealthy t ≡ false
      → is_unhealthy (thread_of (rapira_worker k t cs)) ≡ true
      → Row k cs
  unfolding rapira_worker
  unhealthy-Row k t [] fit e = absurd (clash t fit e)
  unhealthy-Row k t (c ∷ cs) fit e =
      go (ending c) refl (λ u. unhealthy-Row 0 u cs) (λ u. unhealthy-Row (k + 1) u cs)
    where
      t₁ : Thread
      t₁ = run_cycle t c

      t₂ : Thread
      t₂ = count_failure t₁ (k + 1)

      fit₁ : is_unhealthy t₁ ≡ false
      fit₁ = run_cycle-unhealthy t c ∙ fit

      shed_one :
          IsFailing c
          → (o : Option Thread) → after_shed t₂ (pull_unit_to_shed t₂ c.job boot_retry) ≡ o
          → is_unhealthy t₂ ≡ false
          → ((u : Thread)
              → is_unhealthy u ≡ false
              → is_unhealthy (thread_of (rapira_worker (k + 1) u cs)) ≡ true
              → Row (k + 1) cs)
          → Row k (c ∷ cs)
      shed_one f none o fit₂ later = absurd (clash t₂ fit₂ (rw (f, o, rapira_worker) at e))
      shed_one f (some t₃) o fit₂ later =
          fail_cons k c cs f
            (later t₃ (after_shed-unhealthy t₂ t₃ _ o ∙ fit₂) (rw (f, o, rapira_worker) at e))

      go :
          (y : Cycle)
          → ending c ≡ y
          → ((u : Thread)
              → is_unhealthy u ≡ false
              → is_unhealthy (thread_of (rapira_worker 0 u cs)) ≡ true
              → Row 0 cs)
          → ((u : Thread)
              → is_unhealthy u ≡ false
              → is_unhealthy (thread_of (rapira_worker (k + 1) u cs)) ≡ true
              → Row (k + 1) cs)
          → Row k (c ∷ cs)
      go stop s zero_more next_more = absurd (clash t₁ fit₁ (rw (s, rapira_worker) at e))
      go restart s zero_more next_more = absurd (clash t₁ fit₁ (rw (s, rapira_worker) at e))
      go recycle s zero_more next_more = skip_cons k c cs (
          zero_more (sb_update t₁ recycled) (sb_update-unhealthy t₁ recycled ∙ fit₁)
            (rw (s, rapira_worker) at e))
      go failed s zero_more next_more = elim (Bool-cases (k + 1 == 5)) [
        | inl fifth ↦ completed (c ∷ []) cs (s, tt) (ground (arith, fifth))
        | inr fewer ↦
            shed_one s (after_shed t₂ (pull_unit_to_shed t₂ c.job boot_retry)) refl
              (other_failure t₁ (k + 1) fewer ∙ fit₁) next_more
      ]

  -- Somewhere five cycles in a row have failed.
  pub data FiveInARow : List (CycleRun W) → Type 0 where
    five :
        (pre fs post : List (CycleRun W))
        → All IsFailing fs
        → length fs ≡ 5
        → FiveInARow (pre ++ (fs ++ post))

  Row-five : (cs : List (CycleRun W)) → Row 0 cs → FiveInARow cs
  Row-five _ (completed fs post a e) = five [] fs post a (omega (arith, e))
  Row-five _ (apart pre fs post a e) = five pre fs post a e

  -- A thread that comes healthy into the loop is unhealthy at its end, or while it goes on, only if
  -- five cycles in a row have failed: without a bailout at their shutdown, without a unit received, and
  -- with no recycling asked for and no closing seen.
  pub unhealthy-FiveInARow :
      (t : Thread) (cs : List (CycleRun W))
      → is_unhealthy t ≡ false
      → is_unhealthy (thread_of (rapira_worker 0 t cs)) ≡ true
      → FiveInARow cs
  unhealthy-FiveInARow t cs fit e = Row-five cs (unhealthy-Row 0 t cs fit e)

  Closed-after :
      (k : ℕ) (t : Thread) (cs : List (CycleRun W))
      → k < 5
      → All IsFailing cs
      → 5 ≤ k + length cs
      → Closed (rapira_worker k t cs)
  unfolding rapira_worker
  Closed-after k t [] lt a le = absurd (omega (arith, lt, le))
  Closed-after k t (c ∷ cs) lt a le = elim (Bool-cases (k + 1 == 5)) [
    | inl fifth ↦
        let shut : pull_unit_to_shed t₂ c.job boot_retry ≡ closed =
          shut_when_draining t₂ c.job boot_retry (fifth_failure t₁ (k + 1) fifth) in
        rw (a.0, shut, rapira_worker) (left_closed t₂)
    | inr fewer ↦
        rw (a.0, rapira_worker)
          (go (after_shed t₂ (pull_unit_to_shed t₂ c.job boot_retry))
            (λ u. Closed-after (k + 1) u cs (ground (arith, lt, fewer)) a.1 (omega (arith, le))))
  ]
    where
      t₁ : Thread
      t₁ = run_cycle t c

      t₂ : Thread
      t₂ = count_failure t₁ (k + 1)

      go :
          (o : Option Thread)
          → ((u : Thread) → Closed (rapira_worker (k + 1) u cs))
          → Closed (elim o [ none ↦ leaves exit_closed t₂ | some t₃ ↦ rapira_worker (k + 1) t₃ cs ])
      go none later = left_closed t₂
      go (some t₃) later = later t₃

  -- A worker that fails five times in a row from its start on does not stay in its loop: it leaves as
  -- closed, whatever the units do that it is given to shed.
  pub Closed-rapira_worker :
      (t : Thread) (cs : List (CycleRun W))
      → All IsFailing cs
      → 5 ≤ length cs
      → Closed (rapira_worker 0 t cs)
  Closed-rapira_worker t cs a le = Closed-after 0 t cs (omega arith) a (omega (arith, le))
