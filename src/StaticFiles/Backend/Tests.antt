-- ===== src/StaticFiles/Backend/Tests.antt =====
-- The theorems on the backend of crates/middleware/static_files/src/cache.rs at one request.
use rapira_windows.Common.{ℕ, ◌≤◌, ◌≡◌, refl, false, [], ◌∷◌, arith}
use rapira_windows.Common.Assoc.{get}
use rapira_windows.StaticFiles.Io.{ok, since, OsMetadata}
use rapira_windows.StaticFiles.Cache.{new_meta, max_file, empty, make_room, fits, take}
use rapira_windows.StaticFiles.Cache.Invariant.{empty-IsSound}
use rapira_windows.StaticFiles.Backend.{
  memory, stat, Observed, read_file, finish, fill_from, fill_opened, fill, open_file,
}
use rapira_windows.StaticFiles.Backend.Whole.{IsGood, IsGood-mono}
use rapira_windows.StaticFiles.Backend.Laws.{Others, open_file-IsGood}
use rapira_windows.StaticFiles.Backend.Reads.{ReadAtOnce, Agrees, fill-ReadAtOnce, stat-Agrees}

abbrev os_meta : ℕ → OsMetadata
os_meta n = record { is_dir = false; modified = ok (since 7); len = n }

-- An open file is a number here, and no other thread runs.
abbrev quiet : Observed ℕ
quiet = record {
  opened = ok 3;
  stat_at_open = ok (os_meta 2);
  during_open = λ s. s;
  room_at = 10;
  joined = ok tt;
  contents = ok (104 ∷ 105 ∷ []);
  stat_after = ok (os_meta 2);
  during_read = λ s. s;
  rewound = ok tt;
  stored_at = 20;
}

quiet_answer : (fill empty "a.css" quiet).0 ≡ ok (memory (104 ∷ 105 ∷ []) 0 (new_meta (os_meta 2)))
unfolding fill fill_opened fill_from read_file finish make_room fits get
quiet_answer = refl

-- A write during the read: the answer comes from the disk and nothing is stored.
torn_answer : (fill empty "a.css" (record quiet { stat_after = ok (os_meta 3) })).1 ≡ empty
unfolding fill fill_opened fill_from read_file finish make_room fits get take
torn_answer = refl

quiet-Others : Others 0 quiet
quiet-Others = record {
  open_keeps = λ s g. IsGood-mono {c = 0} {d = 10} {s = s} (omega arith) g;
  read_keeps = λ s g. IsGood-mono {c = 10} {d = 20} {s = s} (omega arith) g;
  start = omega arith;
  order = omega arith;
}

empty-IsGood : IsGood 0 empty
unfolding get
empty-IsGood = record { sound = empty-IsSound 0; whole = λ k e h. cc }

open_file-IsGood_example : IsGood 20 (open_file empty "a.css" 1 quiet).1
open_file-IsGood_example = open_file-IsGood "a.css" quiet 0 empty 1 quiet-Others empty-IsGood

fill-ReadAtOnce_example :
    (first : OsMetadata) × (quiet.stat_at_open ≡ ok first)
    × (new_meta (os_meta 2) ≡ new_meta first)
    × (◌≡◌ {A = ℕ} 0 0)
    × ReadAtOnce "a.css" quiet (104 ∷ 105 ∷ []) (new_meta (os_meta 2))
    × (false ≡ false)
    × (2 ≤ max_file)
fill-ReadAtOnce_example =
    fill-ReadAtOnce "a.css" quiet empty (new_meta (os_meta 2)) (104 ∷ 105 ∷ []) 0 quiet_answer

stat-Agrees_example :
    Agrees
      (stat empty "a.css" 5 (ok (os_meta 2)) (λ s. s)).0
      (get "a.css" (stat empty "a.css" 5 (ok (os_meta 2)) (λ s. s)).1.map)
stat-Agrees_example = stat-Agrees empty "a.css" 5 (ok (os_meta 2)) (λ s. s) tt
