-- ===== src/Pool/Intake/Conservation.antt =====
-- Any interleaving of the calls of crates/sapi/src/work.rs: no permit is lost or made up, and the
-- `pending` counter is the number of units that wait.
use rapira_windows.Common.{
  ℕ, suc, none, ap, ◌+◌, ◌≤◌, ◌%◌, ◌≡◌, refl, Bool, true, false, List, [], ◌∷◌, arith, inl, inr,
  length, length-append, Bool-cases, Option, some,
}
use rapira_windows.Pool.Scoreboard.{Pool, u64}
use rapira_windows.Pool.Semaphore.{Semaphore, TryAcquire, acquired}
use rapira_windows.Pool.Intake.{
  body_budget, intake_slots, Result, Intake, Entry, count_shed, send, submit, give_up, arm, granted,
  resume, submit_from, dequeue, without_first, close, new_intake,
}
use rapira_windows.Pool.Intake.Laws.{
  Tried, shut as sem_shut, short, enough, tried, Reserved, refused_stopped, refused_budget,
  reserved, reserve_body-Reserved, Grown, large_enough, grown, grow_stopped, grow_refused,
  grow_body-Grown,
}
use rapira_windows.Pool.Intake.System.{
  sum, Pick-sum, queued_bytes, queued_bytes-append, System, hold, waiting_after, after_wait, Step,
  reserves, grows, abandons, submits, gets_slot, finds_closed, times_out, takes, closes,
  disconnects,
}

module _ (sem : Semaphore) where
  open sem use {Sem, available}

  acquired_total :
      (s left : Sem) → sem.try_acquire s 1 ≡ acquired left → available left + 1 ≡ available s
  acquired_total s left e = go (sem.try_acquire s 1) (tried sem s 1) e
    where
      go :
          (r : TryAcquire Sem)
          → Tried sem s 1 r
          → r ≡ acquired left
          → available left + 1 ≡ available s
      go r (sem_shut c) h = absurd (cc)
      go r (short o few) h = absurd (cc)
      go r (enough t o total o') h = let same : t ≡ left = cc in rw (← same) total

module _ {sem : Semaphore} {W : Type 0} where
  open sem use {Sem, available, is_closed, available-add}

  -- No permit is lost or made up, and `pending` counts the units in the queue and before it.
  pub record Conserved (s : System sem W) : Type 0 where
    pub budget :
        available s.intake.budget + sum s.held + sum s.waiting + queued_bytes s.intake.queue
        ≡ body_budget
    pub slots : available s.intake.slots + length s.intake.queue ≡ intake_slots
    pub pending : s.intake.pool.pending ≡ (length s.intake.queue + length s.waiting) % u64

  reserve-Conserved :
      (s : System sem W) (n : ℕ) (r : Result ℕ × Intake sem W)
      → Reserved s.intake n r
      → Conserved s
      → Conserved (record s { intake = r.1; held = hold r.0 s.held })
  reserve-Conserved s n r (refused_stopped c) v = v
  reserve-Conserved s n r (refused_budget o lt) v = record {
    budget = v.budget;
    slots = v.slots;
    pending = v.pending;
  }
  reserve-Conserved s n r (reserved left o total) v = record {
    budget = omega (arith, v.budget, total);
    slots = v.slots;
    pending = v.pending;
  }

  grow-Conserved :
      (s : System sem W) (n m : ℕ) (rest : List ℕ) (r : Result (Unit {0}) × ℕ × Intake sem W)
      → Grown s.intake n m r
      → sum s.held ≡ n + sum rest
      → Conserved s
      → Conserved (record s { intake = r.2; held = r.1 ∷ rest })
  grow-Conserved s n m rest r (large_enough le) e v = record {
    budget = omega (arith, v.budget, e);
    slots = v.slots;
    pending = v.pending;
  }
  grow-Conserved s n m rest r (grown left lt o total) e v = record {
    budget = omega (arith, v.budget, e, total, lt);
    slots = v.slots;
    pending = v.pending;
  }
  grow-Conserved s n m rest r (grow_stopped lt c) e v = record {
    budget = omega (arith, v.budget, e);
    slots = v.slots;
    pending = v.pending;
  }
  grow-Conserved s n m rest r (grow_refused lt o few) e v = record {
    budget = omega (arith, v.budget, e);
    slots = v.slots;
    pending = v.pending;
  }

  -- `send` with the body permit and one slot permit in hand, and the unit counted as pending.
  send-Conserved :
      (s : System sem W) (f : Bool) (unit : W) (n : ℕ) (i : Intake sem W)
      → available i.budget + n + sum s.held + sum s.waiting + queued_bytes i.queue ≡ body_budget
      → available i.slots + 1 + length i.queue ≡ intake_slots
      → i.pool.pending ≡ (length i.queue + length s.waiting + 1) % u64
      → Conserved (record s { intake = (send f unit n i).1 })
  unfolding send
  send-Conserved s f unit n i b l p = elim (Bool-cases i.connected) [
    | inl up ↦
        let new : List (Entry W) = record { unit = unit; bytes = n } ∷ [] in
        simp up (record {
          budget = omega (arith, b, queued_bytes-append i.queue new);
          slots = omega (arith, l, length-append i.queue new);
          pending = omega (arith, p, length-append i.queue new);
        })
    | inr down ↦ simp down (record {
      budget = omega (arith, b, available-add i.budget n);
      slots = omega (arith, l, available-add i.slots 1);
      pending = omega (arith, p);
    })
  ]

  submit-Conserved :
      (s : System sem W) (unit : W) (n : ℕ) (rest : List ℕ) (r : TryAcquire Sem)
      → Tried sem s.intake.slots 1 r
      → sum s.held ≡ n + sum rest
      → Conserved s
      → Conserved (record {
        intake = (submit_from s.intake unit n r).1;
        held = rest;
        waiting = waiting_after (submit_from s.intake unit n r).0 n s.waiting;
      })
  unfolding submit_from
  submit-Conserved s unit n rest r (sem_shut c) e v = record {
    budget = omega (arith, v.budget, e, available-add s.intake.budget n);
    slots = v.slots;
    pending = omega (arith, v.pending);
  }
  submit-Conserved s unit n rest r (short o few) e v = record {
    budget = omega (arith, v.budget, e);
    slots = v.slots;
    pending = omega (arith, v.pending);
  }
  submit-Conserved s unit n rest r (enough left o total o') e v =
      send-Conserved (record s { held = rest }) false unit n
        (record (arm s.intake) { slots = left }) (omega (arith, v.budget, e))
        (omega (arith, v.slots, total)) (omega (arith, v.pending))

  give_up-Conserved :
      (s : System sem W) (n : ℕ) (rest : List ℕ) (f : Bool)
      → sum s.waiting ≡ n + sum rest
      → length s.waiting ≡ suc (length rest)
      → Conserved s
      → Conserved (record s { intake = give_up f n s.intake; waiting = rest })
  give_up-Conserved s n rest f e l v = record {
    budget = omega (arith, v.budget, e, available-add s.intake.budget n);
    slots = v.slots;
    pending = omega (arith, v.pending, l);
  }

  resume-Conserved :
      (s : System sem W) (unit : W) (n : ℕ) (left : Sem) (rest : List ℕ)
      → sum s.waiting ≡ n + sum rest
      → length s.waiting ≡ suc (length rest)
      → available left + 1 ≡ available s.intake.slots
      → Conserved s
      → Conserved (after_wait sem W s unit n (granted left) rest)
  unfolding resume
  resume-Conserved s unit n left rest e l total v =
      send-Conserved (record s { waiting = rest }) true unit n (record (s.intake) { slots = left })
        (omega (arith, v.budget, e)) (omega (arith, v.slots, total)) (omega (arith, v.pending, l))

  dequeue-Conserved :
      (s : System sem W) (q : List (Entry W)) (unit : W) (i : Intake sem W)
      → s.intake.queue ≡ q
      → dequeue s.intake ≡ some (unit, i)
      → Conserved s
      → Conserved (record s { intake = i })
  unfolding dequeue
  dequeue-Conserved s [] unit i e h v =
      let bad : ◌≡◌ {A = Option (W × Intake sem W)} none (some (unit, i)) = rw (e, dequeue) at h in
      absurd (cc)
  dequeue-Conserved s (x ∷ q) unit i e h v =
      let got : ◌≡◌ {A = Option (W × Intake sem W)} (some (x.unit, without_first s.intake x q))
          (some (unit, i)) =
        rw (e, dequeue) at h in
      let same : i ≡ without_first s.intake x q = ground arith in
      rw same (record {
        budget = omega (arith, v.budget, ap queued_bytes e, available-add s.intake.budget x.bytes);
        slots = omega (arith, v.slots, ap length e, available-add s.intake.slots 1);
        pending = omega (arith, v.pending, ap length e);
      })

  -- Every step of a task or of an interpreter thread, in any order, keeps the permits and the count:
  -- the budget's free units with those that tasks hold, that waiting submissions hold and that lie
  -- in the queue are 64 MiB; the free slots with the queued units are 1024; and `pending` is the
  -- number of queued and waiting units, modulo 2^64.
  pub Step-Conserved : {s t : System sem W} → Step sem W s t → Conserved s → Conserved t
  Step-Conserved {s} (reserves bytes) v =
      reserve-Conserved s _ _ (reserve_body-Reserved s.intake bytes) v
  Step-Conserved {s} (grows n bytes p) v =
      grow-Conserved s n _ _ _ (grow_body-Grown s.intake n bytes) (Pick-sum p).0 v
  Step-Conserved {s} (abandons n p) v = record {
    budget = omega (arith, v.budget, (Pick-sum p).0, available-add s.intake.budget n);
    slots = v.slots;
    pending = v.pending;
  }
  Step-Conserved {s} (submits n unit p) v =
      unfold submit in submit-Conserved s unit n _ _ (tried sem s.intake.slots 1) (Pick-sum p).0 v
  Step-Conserved {s} (gets_slot n unit left p e) v =
      let (total, count) = Pick-sum p in
      resume-Conserved s unit n left _ total count (acquired_total sem s.intake.slots left e) v
  Step-Conserved {s} (finds_closed n unit p) v =
      let (total, count) = Pick-sum p in unfold resume in give_up-Conserved s n _ true total count v
  Step-Conserved {s} (times_out n unit p) v =
      let (total, count) = Pick-sum p in
      unfold resume in
      (give_up-Conserved (record s { intake = count_shed s.intake }) n _ true total count
        (record { budget = v.budget; slots = v.slots; pending = v.pending }))
  Step-Conserved {s} (takes unit after e) v = dequeue-Conserved s s.intake.queue unit after refl e v
  Step-Conserved {s} closes v =
      unfold close in
      (record {
        budget = omega (arith, v.budget, sem.available-close s.intake.budget);
        slots = omega (arith, v.slots, sem.available-close s.intake.slots);
        pending = v.pending;
      })
  Step-Conserved {s} disconnects v = record {
    budget = v.budget;
    slots = v.slots;
    pending = v.pending;
  }

  pub data Reach (pool : Pool) : System sem W → Type 0 where
    start : Reach pool (record { intake = new_intake pool; held = []; waiting = [] })
    next : {s t : System sem W} → Reach pool s → Step sem W s t → Reach pool t

  new-Conserved :
      (pool : Pool)
      → pool.pending ≡ 0
      → Conserved (record { intake = new_intake pool; held = []; waiting = [] })
  unfolding new_intake
  new-Conserved pool e = record {
    budget = omega (arith, sem.available-new body_budget);
    slots = omega (arith, sem.available-new intake_slots);
    pending = omega (arith, e);
  }

  reach-Conserved : (pool : Pool) {s : System sem W} → pool.pending ≡ 0 → Reach pool s → Conserved s
  reach-Conserved pool e start = new-Conserved pool e
  reach-Conserved pool e (next r st) = Step-Conserved st (reach-Conserved pool e r)

  -- From a new pool on, whatever the tasks and the interpreter threads do and in whatever order, at
  -- most 1024 units are queued, the permits that bodies hold, of units that are queued, reserved or
  -- held by a waiting submission, are together of at most 64 MiB, and pending is the number of
  -- units that are queued or wait for a slot, modulo 2^64.
  pub Reach-bounds :
      (pool : Pool) {s : System sem W}
      → pool.pending ≡ 0
      → Reach pool s
      → (length s.intake.queue ≤ intake_slots)
        × (queued_bytes s.intake.queue + sum s.held + sum s.waiting ≤ body_budget)
        × (s.intake.pool.pending ≡ (length s.intake.queue + length s.waiting) % u64)
  Reach-bounds pool e r =
      let v = reach-Conserved pool e r in
      (omega (arith, v.slots), omega (arith, v.budget), v.pending)
