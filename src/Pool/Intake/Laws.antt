-- ===== src/Pool/Intake/Laws.antt =====
-- What the calls of crates/sapi/src/work.rs answer, on every branch.
use Prim.Native.Nat.{min}
use rapira_windows.Common.{
  ℕ, ◌+◌, ◌-◌, ◌≤◌, ◌<◌, ◌≡◌, true, false, arith, ltb, leb, inl, inr, Bool-cases, leb→le, ltb→lt,
}
use rapira_windows.Pool.Semaphore.{Semaphore, TryAcquire, acquired, closed, no_permits}
use rapira_windows.Pool.Intake.{
  body_budget, over_budget, stopped, Result, ok, err, Intake, count_shed, reserve_body, grow_body,
}

module _ (sem : Semaphore) where
  open sem use {Sem, available, is_closed, try_acquire, try_closed, try_short, try_enough}

  -- What `try_acquire` answers, by what the semaphore shows.
  pub data Tried (s : Sem) (n : ℕ) : TryAcquire Sem → Type 0 where
    shut : is_closed s ≡ true → Tried s n closed
    short : is_closed s ≡ false → available s < n → Tried s n no_permits
    enough :
        (t : Sem)
        → is_closed s ≡ false
        → available t + n ≡ available s
        → is_closed t ≡ false
        → Tried s n (acquired t)

  pub tried : (s : Sem) (n : ℕ) → Tried s n (try_acquire s n)
  tried s n = elim (Bool-cases (is_closed s)) [
    | inl c ↦ rw (try_closed s n c) (shut c)
    | inr o ↦ elim (Bool-cases (leb n (available s))) [
      | inl le ↦
          let (t, e, sum, open_after) = try_enough s n o (leb→le _ _ le) in
          rw e (enough t o sum open_after)
      | inr gt ↦ let lt : available s < n = ground arith in rw (try_short s n o lt) (short o lt)
    ]
  ]

module _ {sem : Semaphore} {W : Type 0} where
  open sem use {Sem, available, is_closed, try_acquire}

  -- What a reservation of `n` units does.
  pub data Reserved (s : Intake sem W) (n : ℕ) : Result ℕ × Intake sem W → Type 0 where
    refused_stopped : is_closed s.budget ≡ true → Reserved s n (err stopped, s)
    refused_budget :
        is_closed s.budget ≡ false
        → available s.budget < n
        → Reserved s n (err over_budget, count_shed s)
    reserved :
        (left : Sem)
        → is_closed s.budget ≡ false
        → available left + n ≡ available s.budget
        → Reserved s n (ok n, record s { budget = left })

  -- A reservation holds the bytes of the body, at most the whole budget. It fails exactly where the
  -- intake is closed, with no effect, and where the budget has fewer units left, which counts as
  -- shed; otherwise it takes exactly these units and changes nothing else.
  pub reserve_body-Reserved :
      (s : Intake sem W) (bytes : ℕ) → Reserved s (min bytes body_budget) (reserve_body s bytes)
  unfolding reserve_body
  reserve_body-Reserved s bytes =
      go (try_acquire s.budget (min bytes body_budget)) (tried sem s.budget (min bytes body_budget))
    where
      n : ℕ
      n = min bytes body_budget

      go :
          (r : TryAcquire Sem)
          → Tried sem s.budget n r
          → Reserved s n (elim r [
            | acquired left ↦ (ok n, record s { budget = left })
            | closed ↦ (err stopped, s)
            | no_permits ↦ (err over_budget, count_shed s)
          ])
      go r (shut c) = refused_stopped c
      go r (short o lt) = refused_budget o lt
      go r (enough t o sum o') = reserved t o sum

  -- What growing a permit of `held` units does; `n` is the capped size of the body.
  pub data Grown (s : Intake sem W) (held n : ℕ)
      : Result (Unit {0}) × ℕ × Intake sem W → Type 0 where
    large_enough : n ≤ held → Grown s held n (ok tt, held, s)
    grown :
        (left : Sem)
        → held < n
        → is_closed s.budget ≡ false
        → available left + (n - held) ≡ available s.budget
        → Grown s held n (ok tt, n, record s { budget = left })
    grow_stopped : held < n → is_closed s.budget ≡ true → Grown s held n (err stopped, held, s)
    grow_refused :
        held < n
        → is_closed s.budget ≡ false
        → available s.budget < n - held
        → Grown s held n (err over_budget, held, count_shed s)

  Reserved-Grown :
      (s : Intake sem W) (held n k : ℕ)
      → k ≡ n - held
      → held < n
      → (r : Result ℕ × Intake sem W) → Reserved s k r
      → Grown s held n
          (elim r.0 [ ok more ↦ (ok tt, held + more, r.1) | err e ↦ (err e, held, r.1) ])
  Reserved-Grown s held n k e lt r (refused_stopped c) = grow_stopped lt c
  Reserved-Grown s held n k e lt r (refused_budget o few) = grow_refused lt o (rw e at few)
  Reserved-Grown s held n k e lt r (reserved left o sum) =
      let total : held + k ≡ n = omega arith in rw total (grown left lt o (rw e at sum))

  -- Growing leaves a permit that covers the body up to the whole budget alone; otherwise it takes
  -- exactly the missing units, or refuses and leaves the permit and the budget as they were.
  pub grow_body-Grown :
      (s : Intake sem W) (held bytes : ℕ)
      → Grown s held (min bytes body_budget) (grow_body s held bytes)
  unfolding grow_body
  grow_body-Grown s held bytes =
      let n = min bytes body_budget in
      elim (Bool-cases (ltb 0 (n - held))) [
        | inl more ↦
            let lt : held < n = omega (arith, ltb→lt _ _ more) in
            rw more (
              Reserved-Grown s held n (min (n - held) body_budget) (omega arith) lt _
                (reserve_body-Reserved s (n - held)))
        | inr covered ↦ rw covered (large_enough (ground (arith, covered)))
      ]
