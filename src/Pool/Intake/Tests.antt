-- ===== src/Pool/Intake/Tests.antt =====
-- The intake of crates/sapi/src/work.rs over a semaphore that is a counter and a flag.
use Prim.Native.Nat.{min}
use rapira_windows.Common.{ℕ, ◌+◌, ◌≤◌, ◌%◌, ◌≡◌, refl, [], length}
use rapira_windows.Pool.Scoreboard.{Pool, new_pool, u64}
use rapira_windows.Pool.Intake.{
  body_budget, intake_slots, ok, Intake, reserve_body, submit, submit_from, send, new_intake,
}
use rapira_windows.Pool.Counting.{counter}
use rapira_windows.Pool.Intake.Laws.{Reserved, reserve_body-Reserved}
use rapira_windows.Pool.Intake.System.{
  System, here, sum, queued_bytes, reserves, submits, after_reserve, after_submit,
}
use rapira_windows.Pool.Intake.Conservation.{start, next, Reach-bounds}

abbrev pool : Pool
pool = new_pool "http" []

-- A unit is a number here.
abbrev idle_intake : Intake counter ℕ
idle_intake = new_intake pool

whole_budget : (reserve_body idle_intake 100_000_000).0 ≡ ok body_budget
unfolding reserve_body new_intake
whole_budget = refl

reserve_body-Reserved_example :
    Reserved idle_intake (min 500 body_budget) (reserve_body idle_intake 500)
reserve_body-Reserved_example = reserve_body-Reserved idle_intake 500

abbrev first : System counter ℕ
first = record { intake = idle_intake; held = []; waiting = [] }

abbrev reserved_one : System counter ℕ
reserved_one = after_reserve counter ℕ first 500

abbrev queued_one : System counter ℕ
queued_one = after_submit counter ℕ reserved_one 7 500 []

queued : length queued_one.intake.queue ≡ 1
unfolding reserve_body new_intake submit submit_from send
queued = refl

Reach-bounds_example :
    (length queued_one.intake.queue ≤ intake_slots)
    × (queued_bytes queued_one.intake.queue + sum queued_one.held + sum queued_one.waiting
        ≤ body_budget)
    × (queued_one.intake.pool.pending
        ≡ (length queued_one.intake.queue + length queued_one.waiting) % u64)
unfolding reserve_body new_intake
Reach-bounds_example =
    Reach-bounds pool refl (next (next start (reserves 500)) (submits 500 7 (here [])))
