-- ===== src/Worker/Pull.antt =====
-- crates/sapi/src/start.rs: how a thread pulls a unit, and the quota that it gets.
--
-- What the channels answer is an argument. Times are in milliseconds.
use Prim.Native.Nat.{min, max}
use rapira_windows.Common.{
  ℕ, ◌+◌, ◌-◌, ◌/◌, ◌%◌, Bool, true, false, ◌&&◌, Option, none, some, ◌==◌, if◌then◌else◌,
}
use rapira_windows.Pool.Scoreboard.{u64}
use rapira_windows.Pool.Events.{Thread, idle, active, draining, sb_update, is_draining}

pub data Pulled (W : Type 0) : Type 0 where
  unit : W → Pulled W
  timed_out nothing closed : Pulled W

-- What a wait on the channels answers.
pub data Got (W : Type 0) : Type 0 where
  received : W → Got W
  timeout disconnected : Got W

abbrev pub idle_purge_after : ℕ
idle_purge_after = 2000

abbrev pub pulled_of : {W : Type 0} → Got W → Pulled W
pulled_of (received w) = unit w
pulled_of timeout = timed_out
pulled_of disconnected = closed

-- The first wait of `recv`.
abbrev pub first_wait : Option ℕ → ℕ
first_wait none = idle_purge_after
first_wait (some t) = min t idle_purge_after

abbrev is_timeout : {W : Type 0} → Got W → Bool
is_timeout timeout = true
is_timeout (received w) = false
is_timeout disconnected = false

-- The channels: whether the pool stops, and what a wait for so long, or without end, answers.
pub record Channels (W : Type 0) : Type 0 where
  pub stopping : Bool
  pub wait : Option ℕ → Got W
  -- The wait behind the purge, which comes later.
  pub wait_again : Option ℕ → Got W

abbrev pub rest_of : Option ℕ → ℕ → Option ℕ
rest_of none first = none
rest_of (some t) first = some (t - first)

unfoldable pub recv : {W : Type 0} → Channels W → Option ℕ → Pulled W
recv job t =
    let first = first_wait t in
    let got = job.wait (some first) in
    if job.stopping
    then closed
    else if is_timeout got && first == idle_purge_after
    then pulled_of (job.wait_again (rest_of t first))
    else pulled_of got

abbrev report : {W : Type 0} → Thread → Pulled W → Thread
report t (unit w) = sb_update t active
report t timed_out = sb_update t active
report t nothing = sb_update t active
report t closed = sb_update t draining

-- `job` is none where no channel is attached.
unfoldable pub pull_unit_wait :
    {W : Type 0} → Thread → Option (Channels W) → Option ℕ → Pulled W × Thread
unfolding recv
pull_unit_wait t job wait = if is_draining t then (closed, sb_update t idle) else elim job [
  | none ↦ (closed, t)
  | some j ↦ let pulled = recv j wait in (pulled, report (sb_update t idle) pulled)
]

unfoldable pub pull_unit_to_shed : {W : Type 0} → Thread → Option (Channels W) → ℕ → Pulled W
unfolding recv
pull_unit_to_shed t job wait =
    if is_draining t then closed else elim job [ none ↦ closed | some j ↦ recv j (some wait) ]

-- `effective_quota`, of the hash of the thread's index; the sum saturates.
unfoldable pub effective_quota : ℕ → ℕ → ℕ
effective_quota max_requests hash =
    if max_requests == 0
    then 0
    else min (max_requests + (1 + hash % max (max_requests / 2) 1)) (u64 - 1)
