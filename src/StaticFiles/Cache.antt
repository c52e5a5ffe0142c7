-- ===== src/StaticFiles/Cache.antt =====
-- crates/middleware/static_files/src/cache.rs: the metadata and the store of the file cache.
--
-- `HashMap` is an association list with text keys. An `Instant` is a number of nanoseconds on the
-- monotonic clock; `duration_since` stops at zero, as `-` does. Sizes are unbounded numbers: the
-- store's sizes stay below `max_total` plus one footprint, far from the width of `usize`.
pub mod Accounting
pub mod History
mod Tests
pub mod Freshness
pub mod Room
pub mod Invariant
use Prim.Native.String.{String, len as text_len}
use rapira_windows.Common.{
  ℕ, ◌+◌, ◌-◌, ◌*◌, Bool, true, false, ◌&&◌, Option, none, some, List, [], ◌∷◌, min, ltb, leb, ◌==◌,
  length, if◌then◌else◌,
}
use rapira_windows.Common.Assoc.{get, remove, insert}
use rapira_windows.StaticFiles.Io.{
  Result, ok, err, other, to_option, SystemTime, since, before, modified_eq, OsMetadata,
}

abbrev pub max_file : ℕ
max_file = 256 * 1024

abbrev pub max_total : ℕ
max_total = 16 * 1024 * 1024

-- One second.
abbrev pub ttl : ℕ
ttl = 1_000_000_000

abbrev pub entry_overhead : ℕ
entry_overhead = 256

pub record CachedMeta : Type 0 where
  pub is_dir : Bool
  pub modified : Option SystemTime
  pub len : ℕ

-- `CachedMeta::new`.
abbrev pub new_meta : OsMetadata → CachedMeta
new_meta m = record { is_dir = m.is_dir; modified = to_option m.modified; len = m.len }

abbrev pub same_file : CachedMeta → CachedMeta → Bool
same_file a b = modified_eq a.modified b.modified && a.len == b.len

-- The first second of the year 10000.
abbrev year_10000 : ℕ
year_10000 = 253_402_300_800

-- `Metadata::modified`: a time that an HTTP date holds.
pub served_modified : CachedMeta → Result SystemTime
served_modified m = elim m.modified [
  | none ↦ err other
  | some t ↦ elim t [
    | since n ↦
        if ltb (Prim.Native.Nat.◌/◌ n 1_000_000_000) year_10000 then ok (since n) else err other
    | before n ↦ err other
  ]
]

pub record Entry : Type 0 where
  pub body : List ℕ
  pub meta : CachedMeta
  pub checked : ℕ

-- A path is its text, with one text for one path: `PathBuf` compares by components, so that `a//b` is `a/b`
-- there, and the model is of paths that are written in the normal form.
pub record Store : Type 0 where
  pub map : List (String × Entry)
  pub bytes : ℕ
  pub next_expiry : Option ℕ

-- `Store::default`.
abbrev pub empty : Store
empty = record { map = []; bytes = 0; next_expiry = none }

abbrev pub footprint : String → ℕ → ℕ
footprint path body = body + text_len path + entry_overhead

-- The size that one map slot accounts for.
abbrev pub weight : String → Option Entry → ℕ
weight path none = 0
weight path (some e) = footprint path (length e.body)

abbrev pub is_fresh : ℕ → Entry → Bool
is_fresh now e = ltb (now - e.checked) ttl

-- `Option::filter`.
abbrev pub filter {ℓ} : {A : Type ℓ} → (A → Bool) → Option A → Option A
filter p none = none
filter p (some a) = if p a then some a else none

unfoldable pub fresh : Store → String → ℕ → Option Entry
fresh s path now = filter (is_fresh now) (get path s.map)

unfoldable pub take : Store → String → Store
take s path = elim (get path s.map) [
  | none ↦ s
  | some e ↦ record s { map = remove path s.map; bytes = s.bytes - footprint path (length e.body) }
]

unfoldable pub fits : Store → String → ℕ → Bool
fits s path body = leb (s.bytes - weight path (get path s.map) + footprint path body) max_total

pub record Swept : Type 0 where
  pub kept : List (String × Entry)
  pub freed : ℕ
  pub oldest : ℕ

-- The closure of `retain`, with the two variables that it captures.
unfoldable pub sweep : ℕ → List (String × Entry) → ℕ → ℕ → Swept
sweep now [] freed oldest = record { kept = []; freed = freed; oldest = oldest }
sweep now ((path, e) ∷ m) freed oldest =
    let keep = is_fresh now e in
    let rest =
      sweep now m (if keep then freed else freed + footprint path (length e.body))
        (if keep then min oldest e.checked else oldest) in
    if keep then record rest { kept = (path, e) ∷ rest.kept } else rest

unfoldable pub drop_expired : Store → ℕ → Store
drop_expired s now =
    let swept = sweep now s.map 0 now in
    record {
      map = swept.kept;
      bytes = s.bytes - swept.freed;
      next_expiry = some (swept.oldest + ttl);
    }

-- `Option::is_some_and`.
abbrev pub before_expiry : ℕ → Option ℕ → Bool
before_expiry now none = false
before_expiry now (some expiry) = ltb now expiry

unfoldable pub make_room : Store → String → ℕ → ℕ → Store × Bool
make_room s path body now =
    if fits s path body
    then (s, true)
    else if before_expiry now s.next_expiry
    then (s, false)
    else (drop_expired s now, fits (drop_expired s now) path body)

-- `Option::map` with `min`.
abbrev pub lower_expiry : ℕ → Option ℕ → Option ℕ
lower_expiry now none = none
lower_expiry now (some expiry) = some (min expiry (now + ttl))

unfoldable pub revalidate : Store → String → CachedMeta → ℕ → Store
revalidate s path meta now = elim (get path s.map) [
  | none ↦ s
  | some e ↦
      if same_file e.meta meta
      then record s {
        map = insert path (record e { checked = now }) s.map;
        next_expiry = lower_expiry now s.next_expiry;
      }
      else take s path
]

-- The part of `put` behind the capacity check.
unfoldable pub store_entry : Store → String → List ℕ → CachedMeta → ℕ → Store
store_entry s path body meta now =
    let s' = take s path in
    record s' {
      map = insert path (record { body = body; meta = meta; checked = now }) s'.map;
      bytes = s'.bytes + footprint path (length body);
    }

unfoldable pub put : Store → String → List ℕ → CachedMeta → ℕ → Store
put s path body meta now =
    let (s', room) = make_room s path (length body) now in
    if room then store_entry s' path body meta now else s'
