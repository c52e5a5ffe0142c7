-- ===== src/Worker/Cycles.antt =====
-- crates/sapi/src/rapira_worker.rs: the loop over the cycles of a worker.
--
-- What PHP does in a cycle is an argument: the events that it reports, and the flags that it leaves.
use rapira_windows.Common.{
  ℕ, ◌+◌, Bool, ◌||◌, List, [], ◌∷◌, Option, none, some, ◌==◌, if◌then◌else◌,
}
use rapira_windows.Pool.Events.{
  Event, Thread, shed, recycled, boot_failed, sb_update, fire_unhealthy, run,
}
use rapira_windows.Worker.Pull.{
  Pulled, unit, timed_out, nothing, closed, Channels, pull_unit_to_shed,
}

abbrev pub unhealthy_after : ℕ
unhealthy_after = 5

abbrev pub boot_retry : ℕ
boot_retry = 5000

pub data Cycle : Type 0 where
  stop recycle failed restart : Cycle

pub data WorkerExit : Type 0 where
  exit_closed exit_restart : WorkerExit

pub record CycleRun (W : Type 0) : Type 0 where
  pub events : List Event
  -- `rapira_request_shutdown` bailed out.
  pub bailed : Bool
  -- `CLOSED_SEEN`, `RECYCLE` and `RECEIVED` at its end.
  pub closed_seen : Bool
  pub wants_recycle : Bool
  pub has_received : Bool
  -- The channels, for a unit to shed.
  pub job : Option (Channels W)

-- The loop has left with the thread as it is, or goes on after the last cycle.
pub data Left : Type 0 where
  leaves : WorkerExit → Thread → Left
  goes_on : ℕ → Thread → Left

-- `Cycle::Failed` up to the pull.
unfoldable pub count_failure : Thread → ℕ → Thread
count_failure t failures =
    sb_update (if failures == unhealthy_after then fire_unhealthy t else t) boot_failed

module _ {W : Type 0} where
  abbrev pub ending : CycleRun W → Cycle
  ending c =
      if c.bailed
      then restart
      else if c.closed_seen
      then stop
      else if c.wants_recycle || c.has_received
      then recycle
      else failed

  -- `run_cycle`.
  unfoldable pub run_cycle : Thread → CycleRun W → Thread
  unfolding run
  run_cycle t c = run (sb_update t boot_failed) c.events

  -- The match on what was pulled to be shed.
  abbrev pub after_shed : Thread → Pulled W → Option Thread
  after_shed t closed = none
  after_shed t (unit w) = some (sb_update t shed)
  after_shed t timed_out = some t
  after_shed t nothing = some t

  unfoldable pub rapira_worker : ℕ → Thread → List (CycleRun W) → Left
  unfolding run_cycle count_failure pull_unit_to_shed
  rapira_worker failures t [] = goes_on failures t
  rapira_worker failures t (c ∷ cs) =
      let t₁ = run_cycle t c in
      elim (ending c) [
        | stop ↦ leaves exit_closed t₁
        | restart ↦ leaves exit_restart t₁
        | recycle ↦ rapira_worker 0 (sb_update t₁ recycled) cs
        | failed ↦
            let t₂ = count_failure t₁ (failures + 1) in
            elim (after_shed t₂ (pull_unit_to_shed t₂ c.job boot_retry)) [
              | none ↦ leaves exit_closed t₂
              | some t₃ ↦ rapira_worker (failures + 1) t₃ cs
            ]
      ]
