-- ===== src/Pool/Intake.antt =====
-- crates/sapi/src/work.rs: the intake of a pool, with the dequeue of `UnitRx::recv` in
-- crates/sapi/src/start.rs.
--
-- The semaphores are a `Semaphore`. The channel is the list of the entries that were sent and not
-- yet received, oldest first; `connected` says whether `send` finds a receiver. A permit is the
-- number of units that it holds, and a permit that the source drops goes back to its semaphore.
-- `submit` is two functions: up to the wait for a slot, and from its outcome on.
pub mod Laws
pub mod System
pub mod Conservation
mod Tests
use Prim.Native.Nat.{min}
use rapira_windows.Common.{
  ℕ, ◌+◌, ◌-◌, ◌*◌, Bool, true, false, List, [], ◌∷◌, ◌++◌, Option, none, some, ltb, if◌then◌else◌,
}
use rapira_windows.Pool.Scoreboard.{Pool, add_one, sub_one}
use rapira_windows.Pool.Semaphore.{Semaphore, TryAcquire, acquired, closed, no_permits}

abbrev pub intake_slots : ℕ
intake_slots = 1024

-- 64 MiB.
abbrev pub body_budget : ℕ
body_budget = 64 * 1048576

pub data Refused : Type 0 where
  saturated over_budget stopped : Refused

pub data Result {ℓ} (A : Type ℓ) : Type ℓ where
  ok : A → Result A
  err : Refused → Result A

-- A queued unit with its body permit; the slot permit is always one.
pub record Entry (W : Type 0) : Type 0 where
  pub unit : W
  pub bytes : ℕ

module _ (sem : Semaphore) where
  open sem use {Sem, new, try_acquire, add_permits}

  pub record Intake (W : Type 0) : Type 0 where
    pub queue : List (Entry W)
    pub connected : Bool
    pub pool : Pool
    pub budget : Sem
    pub slots : Sem

  -- What the wait for a slot comes to: a slot, with the semaphore after the grant; a closed
  -- semaphore; or 30 seconds.
  pub data Waited : Type 0 where
    granted : Sem → Waited
    shut elapsed : Waited

  -- `submit` up to its wait.
  pub data Submitted : Type 0 where
    done : Result (Unit {0}) → Submitted
    waits : Submitted

module _ {sem : Semaphore} {W : Type 0} where
  open sem use {new, try_acquire, add_permits}

  unfoldable pub new_intake : Pool → Intake sem W
  new_intake pool = record {
    queue = [];
    connected = true;
    pool = pool;
    budget = new body_budget;
    slots = new intake_slots;
  }

  unfoldable pub close : Intake sem W → Intake sem W
  close s = record s { budget = sem.close s.budget; slots = sem.close s.slots }

  abbrev pub count_shed : Intake sem W → Intake sem W
  count_shed s = record s { pool = record (s.pool) { shed = add_one s.pool.shed } }

  -- The result holds the number of units of the permit.
  unfoldable pub reserve_body : Intake sem W → ℕ → Result ℕ × Intake sem W
  reserve_body s bytes = elim (try_acquire s.budget (min bytes body_budget)) [
    | acquired left ↦ (ok (min bytes body_budget), record s { budget = left })
    | closed ↦ (err stopped, s)
    | no_permits ↦ (err over_budget, count_shed s)
  ]

  -- The permit after the call stands beside the result.
  unfoldable pub grow_body : Intake sem W → ℕ → ℕ → Result (Unit {0}) × ℕ × Intake sem W
  grow_body s held bytes =
      let extra = min bytes body_budget - held in
      let (r, s') = reserve_body s extra in
      if ltb 0 extra
      then (elim r [ ok more ↦ (ok tt, held + more, s') | err e ↦ (err e, held, s') ])
      else (ok tt, held, s)

  -- `PendingGuard::arm`.
  abbrev pub arm : Intake sem W → Intake sem W
  arm s = record s { pool = record (s.pool) { pending = add_one s.pool.pending } }

  -- The drop of an armed `PendingGuard`.
  abbrev pub disarm_failed : Bool → Intake sem W → Intake sem W
  disarm_failed found_full s = record s {
    pool = record (s.pool) {
      pending = sub_one s.pool.pending;
      failed_on_full_queue =
          if found_full then add_one s.pool.failed_on_full_queue else s.pool.failed_on_full_queue;
    };
  }

  -- An early return drops the body permit and the guard.
  abbrev pub give_up : Bool → ℕ → Intake sem W → Intake sem W
  give_up found_full bytes s =
      disarm_failed found_full (record s { budget = add_permits s.budget bytes })

  -- From the slot permit on: `send`, which drops the entry where no receiver is left.
  unfoldable pub send : Bool → W → ℕ → Intake sem W → Result (Unit {0}) × Intake sem W
  send found_full unit bytes s =
      if s.connected
      then (ok tt, record s { queue = s.queue ++ record { unit = unit; bytes = bytes } ∷ [] })
      else (err stopped, give_up found_full bytes (record s { slots = add_permits s.slots 1 }))

  -- The match on the slot permit.
  unfoldable pub submit_from :
      Intake sem W → W → ℕ → TryAcquire sem.Sem → Submitted sem × Intake sem W
  submit_from s unit bytes (acquired left) =
      let (r, s') = send false unit bytes (record (arm s) { slots = left }) in (done r, s')
  submit_from s unit bytes closed = (done (err stopped), give_up false bytes (arm s))
  submit_from s unit bytes no_permits = (waits, arm s)

  unfoldable pub submit : Intake sem W → W → ℕ → Submitted sem × Intake sem W
  submit s unit bytes = submit_from s unit bytes (try_acquire s.slots 1)

  unfoldable pub resume : Intake sem W → W → ℕ → Waited sem → Result (Unit {0}) × Intake sem W
  resume s unit bytes (granted left) = send true unit bytes (record s { slots = left })
  resume s unit bytes shut = (err stopped, give_up true bytes s)
  resume s unit bytes elapsed = (err saturated, give_up true bytes (count_shed s))

  -- What is left when the first entry is received: its permits drop with it.
  abbrev pub without_first : Intake sem W → Entry W → List (Entry W) → Intake sem W
  without_first s e rest = record s {
    queue = rest;
    pool = record (s.pool) { pending = sub_one s.pool.pending };
    budget = add_permits s.budget e.bytes;
    slots = add_permits s.slots 1;
  }

  -- `Ok(unit)` of `recv`.
  unfoldable pub dequeue : Intake sem W → Option (W × Intake sem W)
  dequeue s = elim s.queue [ [] ↦ none | e ∷ rest ↦ some (e.unit, without_first s e rest) ]
