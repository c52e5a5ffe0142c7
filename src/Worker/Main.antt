-- ===== src/Worker/Main.antt =====
-- crates/sapi/src/start.rs: `worker_main`, which starts PHP again and again on one thread.
--
-- What PHP does on a round is an argument. Times are in milliseconds; the counter of the unhealthy
-- rounds is 32 bits wide and saturates.
use Prim.Native.Nat.{min}
use rapira_windows.Common.{
  ℕ, ◌+◌, ◌-◌, ◌*◌, ◌^◌, Bool, true, false, not, ◌&&◌, ◌||◌, Option, none, some, List, [], ◌∷◌, leb,
  ltb, if◌then◌else◌,
}
use rapira_windows.Pool.Scoreboard.{slot_free}
use rapira_windows.Pool.Events.{
  Event, Thread, boot_failed, draining, recycled, sb_set, sb_update, install, is_draining,
  is_unhealthy, fire_unhealthy, run,
}

-- How the call of the worker ends.
pub data Outcome : Type 0 where
  exits_closed exits_restart panics : Outcome

pub record Round : Type 0 where
  -- `PhpThread::new` succeeded.
  pub booted : Bool
  pub quota : ℕ
  pub events : List Event
  -- `rapira_worker` fired `quota::fire_unhealthy`.
  pub fired : Bool
  pub outcome : Outcome
  pub stopping : Bool
  -- `job.handled`.
  pub any_handled : Bool
  -- Some slot of the pool is serving.
  pub any_serving : Bool
  -- The time since the round began.
  pub elapsed : ℕ
  -- When the stop channel answers, from the end of the round on, if it does.
  pub stop_after : Option ℕ

pub record Main : Type 0 where
  pub thread : Thread
  pub streak : ℕ
  pub boot_failed : Bool

pub data Turn : Type 0 where
  breaks : Main → Turn
  again : Main → Turn

abbrev pub delay_of : ℕ → ℕ
delay_of streak = 100 * 2 ^ min streak 8

-- `saturating_add(1)` on a u32.
abbrev pub next_streak : ℕ → ℕ
next_streak streak = min (streak + 1) (2 ^ 32 - 1)

abbrev pub is_closed : Outcome → Bool
is_closed exits_closed = true
is_closed exits_restart = false
is_closed panics = false

abbrev pub has_panicked : Outcome → Bool
has_panicked panics = true
has_panicked exits_closed = false
has_panicked exits_restart = false

abbrev pub fire_if : Bool → Thread → Thread
fire_if true t = fire_unhealthy t
fire_if false t = t

-- The thread from `quota::install` to the end of the call.
unfoldable pub serve : Round → Thread → Thread
serve r t = fire_if (has_panicked r.outcome) (fire_if r.fired (run (install t r.quota) r.events))

-- The streak that an unhealthy round begins its delay with.
abbrev pub streak_before : Round → Main → ℕ
streak_before r s = if leb 10000 r.elapsed then 0 else s.streak

-- `recv_timeout` of the stop channel answers something else than a timeout.
abbrev pub answers_within : ℕ → Option ℕ → Bool
answers_within delay none = false
answers_within delay (some w) = ltb w delay

-- The branch for an unhealthy round.
unfoldable pub after_unhealthy : Round → Main → Turn
after_unhealthy r s =
    let raised = if not r.any_handled && not r.any_serving then true else s.boot_failed in
    let streak = streak_before r s in
    let delay = delay_of streak in
    let counted = record s { boot_failed = raised; streak = next_streak streak } in
    if answers_within delay r.stop_after then breaks counted else again counted

-- The end of a round that goes on.
abbrev pub recycle_turn : Turn → Turn
recycle_turn (breaks s) = breaks s
recycle_turn (again s) = again (record s { thread = sb_update s.thread recycled })

-- A round from the end of the call on, of the thread at that end.
unfoldable pub after_serve : Round → Main → Thread → Turn
unfolding after_unhealthy
after_serve r s t =
    let ended = record s { thread = sb_update t draining } in
    if r.stopping || (is_closed r.outcome && not (is_draining t))
    then breaks ended
    else recycle_turn
        (if is_unhealthy t then after_unhealthy r ended else again (record ended { streak = 0 }))

-- One round of the loop.
unfoldable pub round : Round → Main → Turn
unfolding serve after_serve
round r s =
    let t₀ = sb_update (sb_set s.thread s.thread.slot) boot_failed in
    if r.booted
    then after_serve r s (serve r t₀)
    else breaks (record s { thread = t₀; boot_failed = true })

-- What the thread leaves of its slot.
unfoldable pub release_slot : Main → Main
release_slot s = record s {
  thread = record (s.thread) {
    slot = record (s.thread.slot) { pid = 0; state = slot_free };
    attached = false;
  };
}

-- The loop over the rounds that there are.
unfoldable pub worker_main : List Round → Main → Turn
unfolding round release_slot
worker_main [] s = again s
worker_main (r ∷ rs) s = elim (round r s) [
  | breaks s' ↦ breaks (release_slot s')
  | again s' ↦ worker_main rs s'
]
