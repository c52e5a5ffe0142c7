-- ===== src/StaticFiles/Backend.antt =====
-- crates/middleware/static_files/src/cache.rs: `CachedFile` and `CachingBackend`.
--
-- The file system, the clock and the other holders of the lock are arguments: `Observed` holds what
-- they answer in one `fill`, in the order of the calls. `H` is the type of an open file. A section
-- that holds the lock is one function of `Cache`; between two sections another thread may run, and
-- `during_open`, `during_read` and `during_stat` are what it does to the store.
pub mod Laws
pub mod Reads
pub mod Whole
mod Tests
use Prim.Native.String.{String}
use rapira_windows.Common.{
  ℕ, ◌+◌, Bool, true, false, not, ◌&&◌, ◌||◌, Option, none, some, List, [], ◌∷◌, ltb, ◌==◌, length,
  if◌then◌else◌,
}
use rapira_windows.Common
use rapira_windows.StaticFiles.Io.{Result, ok, err, is_a_directory, ◌>>=◌, OsMetadata}
use rapira_windows.StaticFiles.Cache.{
  CachedMeta, new_meta, same_file, Entry, Store, max_file, fresh, take, make_room, revalidate, put,
}

pub data CachedFile (H : Type 0) : Type 0 where
  -- The cursor's bytes and position.
  memory : List ℕ → ℕ → CachedMeta → CachedFile H
  disk : H → CachedMeta → CachedFile H

-- `File::metadata`.
abbrev pub metadata : {H : Type 0} → CachedFile H → CachedMeta
metadata (memory body position meta) = meta
metadata (disk file meta) = meta

unfoldable pub stat :
    Store → String → ℕ → Result OsMetadata → (Store → Store) → Result CachedMeta × Store
stat s path now found during_stat = elim (fresh s path now) [
  | some e ↦ (ok e.meta, s)
  | none ↦ elim found [
    | err k ↦ (err k, take (during_stat s) path)
    | ok m ↦ (ok (new_meta m), revalidate (during_stat s) path (new_meta m) now)
  ]
]

pub record Observed (H : Type 0) : Type 0 where
  pub opened : Result H
  pub stat_at_open : Result OsMetadata
  pub during_open : Store → Store
  pub room_at : ℕ
  -- The blocking task: whether it was joined, all that the file would deliver, and the second stat.
  pub joined : Result (Unit {0})
  pub contents : Result (List ℕ)
  pub stat_after : Result OsMetadata
  pub during_read : Store → Store
  pub rewound : Result (Unit {0})
  pub stored_at : ℕ

module _ {H : Type 0} where
  unfoldable pub hit : Store → String → ℕ → Option (CachedFile H)
  hit s path now = elim (fresh s path now) [ none ↦ none | some e ↦ some (memory e.body 0 e.meta) ]

  -- The bounded read, and the stat behind it.
  unfoldable pub read_file : Observed H → CachedMeta → Result (List ℕ × CachedMeta)
  read_file p meta = do
    _ ← p.joined
    bytes ← p.contents
    m ← p.stat_after
    ok (Common.take (meta.len + 1) bytes, new_meta m)

  -- The tail of `fill`, from the comparison of the two stats on.
  unfoldable pub finish :
      Store
      → String
      → Observed H
      → H
      → CachedMeta
      → List ℕ
      → CachedMeta
      → Result (CachedFile H) × Store
  finish s path p file meta buf reread =
      if not (same_file reread meta) || not (length buf == meta.len)
      then ((do _ ← p.rewound; ok (disk file reread)), take s path)
      else (ok (memory buf 0 meta), put s path buf meta p.stored_at)

  unfoldable pub fill_from :
      Store → String → Observed H → H → CachedMeta → Result (CachedFile H) × Store
  fill_from s path p file meta = elim (read_file p meta) [
    | err k ↦ (err k, s)
    | ok (buf, reread) ↦ finish s path p file meta buf reread
  ]

  unfoldable pub fill_opened :
      Store → String → Observed H → H → CachedMeta → Result (CachedFile H) × Store
  fill_opened s path p file meta =
      if meta.is_dir
      then (err is_a_directory, s)
      else if ltb max_file meta.len
      then (ok (disk file meta), s)
      else let (s', room) = make_room s path meta.len p.room_at in
        if room then fill_from (p.during_read s') path p file meta else (ok (disk file meta), s')

  unfoldable pub fill : Store → String → Observed H → Result (CachedFile H) × Store
  fill s path p = elim p.opened [
    | err k ↦ (err k, take (p.during_open s) path)
    | ok file ↦ elim p.stat_at_open [
      | err k ↦ (err k, p.during_open s)
      | ok m ↦ fill_opened (p.during_open s) path p file (new_meta m)
    ]
  ]

  -- `Backend::open`.
  unfoldable pub open_file : Store → String → ℕ → Observed H → Result (CachedFile H) × Store
  open_file s path now p = elim (hit s path now) [ some file ↦ (ok file, s) | none ↦ fill s path p ]
