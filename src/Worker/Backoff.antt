-- ===== src/Worker/Backoff.antt =====
-- How a thread of crates/sapi/src/start.rs that stays unhealthy waits longer and longer, and the bounds
-- of a quota.
use Prim.Native.Nat.{min, max}
use native.Mathlib.Nat.{mod-lt}
use mathlib.Core.Path.{subst}
use rapira_windows.Common.{
  ℕ, suc, ◌+◌, ◌*◌, ◌/◌, ◌^◌, ◌≡◌, ◌<◌, ◌≤◌, ◌↔◌, refl, ap, ◌∙◌, Bool, true, false, not, ◌&&◌, ◌||◌,
  Option, none, some, List, [], ◌∷◌, leb, ltb, ◌==◌, ==_iff, ◌-◌, ◌%◌, Bool-cases, inl, inr, arith,
  length,
}
use rapira_windows.Pool.Scoreboard.{u64}
use rapira_windows.Pool.Events.{
  Thread, boot_failed, sb_set, sb_update, install, is_draining, is_unhealthy, run,
}
use rapira_windows.Worker.Pull.{effective_quota}
use rapira_windows.Worker.Health.{run-unhealthy, fire_unhealthy-quota}
use rapira_windows.Worker.Main.{
  Round, Main, Turn, breaks, again, delay_of, next_streak, answers_within, has_panicked, is_closed,
  serve, fire_if, after_serve, after_unhealthy, round, release_slot, worker_main,
}

-- The round leaves the thread unhealthy.
abbrev pub is_failing : Round → Bool
is_failing r = r.fired || has_panicked r.outcome

is_unhealthy-fire_if : (b : Bool) (t : Thread) → is_unhealthy (fire_if b t) ≡ (b || is_unhealthy t)
unfolding is_unhealthy
is_unhealthy-fire_if true t = (fire_unhealthy-quota t).1
is_unhealthy-fire_if false t = refl

installed : (t : Thread) (m : ℕ) → is_unhealthy (install t m) ≡ false
unfolding install is_unhealthy
installed t m = refl

or_comm : (a b : Bool) → (a || (b || false)) ≡ (b || a)
or_comm true true = refl
or_comm true false = refl
or_comm false true = refl
or_comm false false = refl

pub is_unhealthy-serve : (r : Round) (t : Thread) → is_unhealthy (serve r t) ≡ is_failing r
unfolding serve
is_unhealthy-serve r t =
    let start = run (install t r.quota) r.events in
    is_unhealthy-fire_if (has_panicked r.outcome) (fire_if r.fired start)
    ∙ ap (◌||◌ (has_panicked r.outcome)) (
        is_unhealthy-fire_if r.fired start
        ∙ ap (◌||◌ r.fired) (run-unhealthy (install t r.quota) r.events ∙ installed t r.quota))
    ∙ or_comm (has_panicked r.outcome) r.fired

is_draining-fire_if :
    (b : Bool) (t : Thread) → (b || is_draining t) ≡ true → is_draining (fire_if b t) ≡ true
unfolding is_draining
is_draining-fire_if true t e = (fire_unhealthy-quota t).0
is_draining-fire_if false t e = e

is_draining-serve : (r : Round) (t : Thread) → is_failing r ≡ true → is_draining (serve r t) ≡ true
unfolding serve
is_draining-serve r t e =
    let start = run (install t r.quota) r.events in
    is_draining-fire_if (has_panicked r.outcome) (fire_if r.fired start)
      (elim (Bool-cases (has_panicked r.outcome)) [
        | inl up ↦ rw up refl
        | inr down ↦ rw down (
            is_draining-fire_if r.fired start (elim (Bool-cases r.fired) [
              | inl fired ↦ rw fired refl
              | inr calm ↦ absurd (let bad : false ≡ true = rw (calm, down) at e in cc)
            ]))
      ])

-- A round that leaves the thread unhealthy in less than ten seconds, on a pool that goes on.
pub record Failing (r : Round) : Type 0 where
  pub booted : r.booted ≡ true
  pub failing : is_failing r ≡ true
  pub goes_on : r.stopping ≡ false
  pub short_lived : r.elapsed < 10000

-- The wait behind such a round when `n` of them came before: 100 ms, doubled for each up to eight times.
abbrev pub wait_of : ℕ → ℕ
wait_of n = 100 * 2 ^ min n 8

-- The stop channel does not answer while this wait lasts.
abbrev pub IsUnanswered : ℕ → Option ℕ → Type 0
IsUnanswered delay none = Unit
IsUnanswered delay (some w) = delay ≤ w

-- All these rounds, when `n` came before.
abbrev pub AllFailing : ℕ → List Round → Type 0
AllFailing n [] = Unit
AllFailing n (r ∷ rs) = Failing r × IsUnanswered (wait_of n) r.stop_after × AllFailing (n + 1) rs

counted_delay : (n streak : ℕ) → streak ≡ min n (2 ^ 32 - 1) → delay_of streak ≡ wait_of n
counted_delay n streak e = ap (λ k. 100 * 2 ^ k) (omega (arith, e))

-- What follows a round: the end, or the loop with this counter.
pub data After (n : ℕ) (stops : Bool) : Turn → Type 0 where
  ends : (s : Main) → stops ≡ true → After n stops (breaks s)
  carries_on : (s : Main) → stops ≡ false → s.streak ≡ n → After n stops (again s)

after_serve-After :
    (r : Round) (s : Main) (t : Thread)
    → Failing r
    → is_draining t ≡ true
    → is_unhealthy t ≡ true
    → After
        (next_streak s.streak)
        (answers_within (delay_of s.streak) r.stop_after)
        (after_serve r s t)
unfolding after_serve after_unhealthy
after_serve-After r s t q drains sick =
    let brief : leb 10000 r.elapsed ≡ false = ground (arith, q.short_lived) in
    let stays : (is_closed r.outcome && not (is_draining t)) ≡ false =
      elim (Bool-cases (is_closed r.outcome)) [
        | inl closes ↦ rw closes (rw drains refl)
        | inr other ↦ rw other refl
      ] in
    elim (Bool-cases (answers_within (delay_of s.streak) r.stop_after)) [
      | inl answered ↦ simp (q.goes_on, stays, sick, brief, answered) (ends _ refl)
      | inr silent ↦ simp (q.goes_on, stays, sick, brief, silent) (carries_on _ refl refl)
    ]

round-After :
    (r : Round) (s : Main)
    → Failing r
    → After (next_streak s.streak) (answers_within (delay_of s.streak) r.stop_after) (round r s)
unfolding round
round-After r s q =
    let t₀ = sb_update (sb_set s.thread s.thread.slot) boot_failed in
    simp q.booted (
      after_serve-After r s (serve r t₀) q (is_draining-serve r t₀ q.failing)
        (is_unhealthy-serve r t₀ ∙ q.failing))

abbrev pub IsEnd : Turn → Type 0
IsEnd (breaks s) = Unit
IsEnd (again s) = ⊥

-- The loop goes on after `n` such rounds: the counter is `n`, up to its width, and an answer of the
-- stop channel within the wait behind the next one ends it.
pub record Waiting (n : ℕ) (s : Main) : Type 0 where
  pub counted : s.streak ≡ min n (2 ^ 32 - 1)
  pub stops :
      (r : Round) (w : ℕ) → Failing r → r.stop_after ≡ some w → w < wait_of n → IsEnd (round r s)

pub data Backed (n : ℕ) : Turn → Type 0 where
  backed : (s : Main) → Waiting n s → Backed n (again s)

unanswered : (delay : ℕ) (o : Option ℕ) → IsUnanswered delay o → answers_within delay o ≡ false
unanswered delay none u = refl
unanswered delay (some w) u = ground (arith, u)

stopped : (n : ℕ) (stops : Bool) (o : Turn) → stops ≡ true → After n stops o → IsEnd o
stopped n stops _ e (ends s e') = tt
stopped n stops _ e (carries_on s e' same) = absurd (cc)

waiting : (n : ℕ) (s : Main) → s.streak ≡ min n (2 ^ 32 - 1) → Waiting n s
waiting n s e = record {
  counted = e;
  stops = λ r w q answer early.
      let up : answers_within (delay_of s.streak) r.stop_after ≡ true =
        ap (answers_within (delay_of s.streak)) answer
        ∙ ap (λ d. ltb w d) (counted_delay n s.streak e)
        ∙ ground (arith, early) in
      stopped _ _ (round r s) up (round-After r s q);
}

-- As long as every round leaves the thread unhealthy within ten seconds, boots, and finds the pool
-- going on, and the stop channel does not answer during the wait behind it, the loop goes on and
-- its counter counts the rounds, short of its width; and an answer during the wait behind one more
-- such round ends the loop: the waits double from 100 ms up to 25.6 s.
pub worker_main-Backed :
    (rs : List Round) (s : Main) (n : ℕ)
    → s.streak ≡ min n (2 ^ 32 - 1)
    → AllFailing n rs
    → Backed (n + length rs) (worker_main rs s)
unfolding worker_main
worker_main-Backed [] s n e q = backed s (waiting (n + 0) s (omega (arith, e)))
worker_main-Backed (r ∷ rs) s n e q =
    let silent : answers_within (delay_of s.streak) r.stop_after ≡ false =
      ap (λ d. answers_within d r.stop_after) (counted_delay n s.streak e)
      ∙ unanswered (wait_of n) r.stop_after q.1 in
    go (round r s)
      (subst (λ b. After (next_streak s.streak) b (round r s)) silent (round-After r s q.0))
      (λ u f. worker_main-Backed rs u (n + 1) f q.2)
  where
    go :
        (o : Turn)
        → After (next_streak s.streak) false o
        → ((u : Main)
            → u.streak ≡ min (n + 1) (2 ^ 32 - 1)
            → Backed (n + 1 + length rs) (worker_main rs u))
        → Backed
            (n + suc (length rs))
            (elim o [ breaks s' ↦ breaks (release_slot s') | again s' ↦ worker_main rs s' ])
    go _ (ends u stops) later = absurd (cc)
    go _ (carries_on u silent f) later =
        subst (λ k. Backed k (worker_main rs u)) (omega arith) (later u (omega (arith, e, f)))

-- A quota of 0 stays 0, and any other is at least as large as configured, by at most the half of it more
-- (by one for a quota of 1), within 64 bits.
pub effective_quota-bounds :
    (m hash : ℕ)
    → m < u64
    → (m ≤ effective_quota m hash)
      × (effective_quota m hash ≤ m + max (m / 2) 1)
      × (effective_quota m hash < u64)
      × ((effective_quota m hash ≡ 0) ↔ (m ≡ 0))
unfolding effective_quota
effective_quota-bounds m hash w =
    let spread : hash % max (m / 2) 1 < max (m / 2) 1 = mod-lt hash (omega arith) in
    elim (Bool-cases (m == 0)) [
      | inl zero_quota ↦
          let z : m ≡ 0 = (==_iff m 0).0 zero_quota in
          rw zero_quota (omega (arith, z), omega arith, omega arith, (λ e. z, λ e. refl))
      | inr other ↦
          let p : 0 < m = ground (arith, other) in
          rw other (
            omega (arith, spread, w),
            omega (arith, spread),
            omega arith,
            (λ e. absurd (omega (arith, e, p, w)), λ e. absurd (omega (arith, e, p))),
          )
    ]
