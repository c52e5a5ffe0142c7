-- ===== src/StaticFiles/Cache/History.antt =====
-- The sections of crates/middleware/static_files/src/cache.rs that run under the lock, as steps:
-- any number of threads, in any order, with the clock that each section reads.
use Prim.Native.String.{String}
use rapira_windows.Common.{ℕ, ◌≤◌, List, arith}
use rapira_windows.Common.Assoc.{get}
use rapira_windows.StaticFiles.Cache.{
  CachedMeta, Store, max_total, weight, sweep, empty, take, make_room, revalidate, put,
}
use rapira_windows.StaticFiles.Cache.Accounting.{weight-le-total, total-sweep}
use rapira_windows.StaticFiles.Cache.Invariant.{
  IsSound, empty-IsSound, take-IsSound, make_room-IsSound, revalidate-IsSound, put-IsSound,
}

-- `make_room` and `put` read the clock behind the lock, so it does not run backwards over their
-- steps. A stat reads it before, and may come with any time.
pub data Step (clock : ℕ) (s : Store) : ℕ → Store → Type 0 where
  dropped : (path : String) → Step clock s clock (take s path)
  stated :
      (path : String) (meta : CachedMeta) (now : ℕ)
      → Step clock s clock (revalidate s path meta now)
  asked :
      (path : String) (body now : ℕ) → clock ≤ now → Step clock s now (make_room s path body now).0
  stored :
      (path : String) (body : List ℕ) (meta : CachedMeta) (now : ℕ)
      → clock ≤ now
      → Step clock s now (put s path body meta now)

pub data Reach : ℕ → Store → Type 0 where
  start : (clock : ℕ) → Reach clock empty
  next : {c d : ℕ} {s t : Store} → Reach c s → Step c s d t → Reach d t

Step-IsSound : {c d : ℕ} {s t : Store} → Step c s d t → IsSound c s → IsSound d t
Step-IsSound {c} {s} (dropped path) v = take-IsSound c s path v
Step-IsSound {c} {s} (stated path meta now) v = revalidate-IsSound c s path meta now v
Step-IsSound {s} (asked path body now h) v = make_room-IsSound s path body now h v
Step-IsSound {s} (stored path body meta now h) v = put-IsSound s path body meta now h v

-- Every store that any interleaving of the sections reaches from the empty cache is sound: each path
-- has one entry, the byte count is the sum of the footprints and at most 16 MiB, and no entry
-- expires before `next_expiry`.
pub Reach-IsSound : {clock : ℕ} {s : Store} → Reach clock s → IsSound clock s
Reach-IsSound (start clock) = empty-IsSound clock
Reach-IsSound (next r st) = Step-IsSound st (Reach-IsSound r)

-- In such a store no subtraction on the byte count goes below zero: not that of the entry which a
-- request replaces or removes, nor that of what a sweep frees; and the count stays within the limit.
pub Reach-no_underflow :
    {clock : ℕ} {s : Store} (path : String) (now : ℕ)
    → Reach clock s
    → (weight path (get path s.map) ≤ s.bytes)
      × ((sweep now s.map 0 now).freed ≤ s.bytes)
      × (s.bytes ≤ max_total)
Reach-no_underflow {s} path now r =
    let v = Reach-IsSound r in
    (
      omega (arith, v.accounted, weight-le-total path s.map),
      omega (arith, v.accounted, total-sweep now s.map 0 now),
      v.bounded,
    )
