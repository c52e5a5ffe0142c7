-- ===== src/Pool/Intake/System.antt =====
-- The tasks around the intake of crates/sapi/src/work.rs, and the steps that they and the
-- interpreter threads make, in any order.
use rapira_windows.Common.{ℕ, suc, ◌+◌, ◌≡◌, refl, false, List, [], ◌∷◌, ◌++◌, arith, length, some}
use rapira_windows.Pool.Semaphore.{Semaphore, acquired}
use rapira_windows.Pool.Intake.{
  Result, ok, err, Intake, Entry, reserve_body, grow_body, submit, Submitted, done, waits, Waited,
  granted, shut, elapsed, resume, dequeue, close,
}

abbrev pub sum : List ℕ → ℕ
sum [] = 0
sum (n ∷ ns) = n + sum ns

-- `Pick n xs rest`: one entry `n` of `xs`, and the others.
pub data Pick (n : ℕ) : List ℕ → List ℕ → Type 0 where
  here : (xs : List ℕ) → Pick n (n ∷ xs) xs
  there : (x : ℕ) {xs ys : List ℕ} → Pick n xs ys → Pick n (x ∷ xs) (x ∷ ys)

pub Pick-sum :
    {n : ℕ} {xs ys : List ℕ} → Pick n xs ys → (sum xs ≡ n + sum ys) × (length xs ≡ suc (length ys))
Pick-sum (here xs) = (refl, refl)
Pick-sum (there x p) = (omega (arith, (Pick-sum p).0), omega (arith, (Pick-sum p).1))

module _ {W : Type 0} where
  abbrev pub queued_bytes : List (Entry W) → ℕ
  queued_bytes [] = 0
  queued_bytes (e ∷ es) = e.bytes + queued_bytes es

  pub queued_bytes-append :
      (es fs : List (Entry W)) → queued_bytes (es ++ fs) ≡ queued_bytes es + queued_bytes fs
  queued_bytes-append [] fs = omega arith
  queued_bytes-append (e ∷ es) fs = omega (arith, queued_bytes-append es fs)

-- The permit that a successful reservation adds to the held ones.
abbrev pub hold : Result ℕ → List ℕ → List ℕ
hold (ok n) held = n ∷ held
hold (err e) held = held

module _ {sem : Semaphore} where
  -- What `submit` leaves of the task: it waits with its permit, or is done with it.
  abbrev pub waiting_after : Submitted sem → ℕ → List ℕ → List ℕ
  waiting_after waits n ws = n ∷ ws
  waiting_after (done r) n ws = ws

module _ (sem : Semaphore) (W : Type 0) where
  open sem use {Sem, available, is_closed, available-add}

  -- The intake with the plugin tasks around it: the body permits that tasks hold, and those of the
  -- tasks that wait in `submit` for a slot.
  pub record System : Type 0 where
    pub intake : Intake sem W
    pub held : List ℕ
    pub waiting : List ℕ

  abbrev pub after_reserve : System → ℕ → System
  after_reserve s bytes =
      let r = reserve_body s.intake bytes in record s { intake = r.1; held = hold r.0 s.held }

  abbrev pub after_grow : System → ℕ → ℕ → List ℕ → System
  after_grow s n bytes rest =
      let r = grow_body s.intake n bytes in record s { intake = r.2; held = r.1 ∷ rest }

  abbrev pub after_submit : System → W → ℕ → List ℕ → System
  after_submit s unit n rest =
      let r = submit s.intake unit n in
      record { intake = r.1; held = rest; waiting = waiting_after r.0 n s.waiting }

  abbrev pub after_wait : System → W → ℕ → Waited sem → List ℕ → System
  after_wait s unit n w rest = record s { intake = (resume s.intake unit n w).1; waiting = rest }

  -- A task gives its body up before it submits it.
  abbrev pub after_abandon : System → ℕ → List ℕ → System
  after_abandon s n rest = record s {
    intake = record (s.intake) { budget = sem.add_permits s.intake.budget n };
    held = rest;
  }

  pub data Step (s : System) : System → Type 0 where
    reserves : (bytes : ℕ) → Step s (after_reserve s bytes)
    grows : (n bytes : ℕ) {rest : List ℕ} → Pick n s.held rest → Step s (after_grow s n bytes rest)
    abandons : (n : ℕ) {rest : List ℕ} → Pick n s.held rest → Step s (after_abandon s n rest)
    submits :
        (n : ℕ) (unit : W) {rest : List ℕ}
        → Pick n s.held rest
        → Step s (after_submit s unit n rest)
    -- The wait ends with a slot that the semaphore grants, or without one.
    gets_slot :
        (n : ℕ) (unit : W) (left : Sem) {rest : List ℕ}
        → Pick n s.waiting rest
        → sem.try_acquire s.intake.slots 1 ≡ acquired left
        → Step s (after_wait s unit n (granted left) rest)
    finds_closed :
        (n : ℕ) (unit : W) {rest : List ℕ}
        → Pick n s.waiting rest
        → Step s (after_wait s unit n shut rest)
    times_out :
        (n : ℕ) (unit : W) {rest : List ℕ}
        → Pick n s.waiting rest
        → Step s (after_wait s unit n elapsed rest)
    takes :
        (unit : W) (after : Intake sem W)
        → dequeue s.intake ≡ some (unit, after)
        → Step s (record s { intake = after })
    closes : Step s (record s { intake = close s.intake })
    -- The last receiver goes.
    disconnects : Step s (record s { intake = record (s.intake) { connected = false } })
