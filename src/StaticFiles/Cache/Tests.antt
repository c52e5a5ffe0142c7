-- ===== src/StaticFiles/Cache/Tests.antt =====
-- Runs of the store of crates/middleware/static_files/src/cache.rs, and the theorems at them.
use rapira_windows.Common.{
  ℕ, ◌+◌, ◌≤◌, ◌≡◌, refl, false, ◌&&◌, none, some, List, [], ◌∷◌, arith, if◌then◌else◌,
}
use rapira_windows.Common.Assoc.{get, remove, insert}
use rapira_windows.StaticFiles.Io.{since}
use rapira_windows.StaticFiles.Cache.{
  CachedMeta, Store, max_total, ttl, weight, sweep, is_fresh, filter, empty, fresh, take, fits,
  drop_expired, make_room, revalidate, store_entry, put,
}
use rapira_windows.StaticFiles.Cache.Invariant.{IsSound, empty-IsSound, put-IsSound}
use rapira_windows.StaticFiles.Cache.Room.{make_room-eq-fits}
use rapira_windows.StaticFiles.Cache.Freshness.{fresh-put}
use rapira_windows.StaticFiles.Cache.History.{
  Reach, start, next, stored, stated, Reach-IsSound, Reach-no_underflow,
}

abbrev meta_of : ℕ → CachedMeta
meta_of n = record { is_dir = false; modified = some (since 7); len = n }

abbrev two_bytes : List ℕ
two_bytes = 104 ∷ 105 ∷ []

-- One file, stored at time 10.
abbrev one_file : Store
one_file = put empty "a.css" two_bytes (meta_of 2) 10

one_file_bytes : one_file.bytes ≡ 263
unfolding put make_room fits store_entry take get insert
one_file_bytes = refl

-- The entry is served for one second.
served_within_ttl :
    fresh one_file "a.css" (9 + ttl)
    ≡ some (record { body = two_bytes; meta = meta_of 2; checked = 10 })
unfolding put make_room fits store_entry take get insert fresh
served_within_ttl = refl

gone_after_ttl : fresh one_file "a.css" (10 + ttl) ≡ none
unfolding put make_room fits store_entry take get insert fresh
gone_after_ttl = refl

-- A changed file loses its entry.
changed_file_dropped : (revalidate one_file "a.css" (meta_of 3) 20).bytes ≡ 0
unfolding revalidate put make_room fits store_entry take get insert remove
changed_file_dropped = refl

-- A store with room for nothing refuses before `next_expiry`, and sweeps then.
abbrev full : Store
full = record {
  map = ("big", record { body = []; meta = meta_of 0; checked = 50 }) ∷ [];
  bytes = max_total;
  next_expiry = some (50 + ttl);
}

refused_early : (make_room full "b" 1 (49 + ttl)).1 ≡ false
unfolding make_room fits get
refused_early = refl

one_file-IsSound : IsSound 10 one_file
one_file-IsSound =
    put-IsSound {clock = 0} empty "a.css" two_bytes (meta_of 2) 10 (omega arith) (empty-IsSound 0)

make_room-eq-fits_example :
    (make_room one_file "b.css" 5 2_000_000_000).1
    ≡ fits (drop_expired one_file 2_000_000_000) "b.css" 5
make_room-eq-fits_example =
    make_room-eq-fits {clock = 10} one_file "b.css" 5 2_000_000_000 one_file-IsSound

fresh-put_example : fresh (put one_file "b.css" two_bytes (meta_of 2) 20) "a.css" 30 ≡ (
    if (make_room one_file "b.css" 2 20).1 && false
    then filter (is_fresh 30) (some (record { body = two_bytes; meta = meta_of 2; checked = 20 }))
    else fresh one_file "a.css" 30)
fresh-put_example =
    fresh-put one_file "b.css" "a.css" two_bytes (meta_of 2) 20 30 one_file-IsSound.distinct
      (omega arith)

-- Two requests for one path: the second put comes after a stat that confirmed the first.
abbrev history :
    Reach 40 (put (revalidate one_file "a.css" (meta_of 2) 5) "b.css" two_bytes (meta_of 2) 40)
history =
    next
      (next (next (start 0) (stored "a.css" two_bytes (meta_of 2) 10 (omega arith)))
        (stated "a.css" (meta_of 2) 5))
      (stored "b.css" two_bytes (meta_of 2) 40 (omega arith))

Reach-IsSound_example :
    IsSound 40 (put (revalidate one_file "a.css" (meta_of 2) 5) "b.css" two_bytes (meta_of 2) 40)
Reach-IsSound_example = Reach-IsSound history

Reach-no_underflow_example :
    let s = put (revalidate one_file "a.css" (meta_of 2) 5) "b.css" two_bytes (meta_of 2) 40 in
    (weight "a.css" (get "a.css" s.map) ≤ s.bytes)
    × ((sweep 60 s.map 0 60).freed ≤ s.bytes)
    × (s.bytes ≤ max_total)
Reach-no_underflow_example = Reach-no_underflow "a.css" 60 history
