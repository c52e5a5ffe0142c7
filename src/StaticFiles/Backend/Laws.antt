-- ===== src/StaticFiles/Backend/Laws.antt =====
-- The file cache of crates/middleware/static_files/src/cache.rs over whole calls of its backend.
use Prim.Native.String.{String}
use rapira_windows.Common.{
  ℕ, ◌≤◌, ◌≡◌, ◌⊎◌, refl, false, not, ◌||◌, List, arith, length, inl, inr, ltb, ◌==◌, Bool-cases,
  Option-cases,
}
use rapira_windows.StaticFiles.Io.{Result, ok, err, ErrorKind}
use rapira_windows.StaticFiles.Cache.{
  CachedMeta, new_meta, same_file, Store, max_file, fresh, make_room,
}
use rapira_windows.StaticFiles.Backend.{
  CachedFile, Observed, hit, read_file, finish, fill_from, fill_opened, fill, open_file,
}
use rapira_windows.StaticFiles.Backend.Whole.{
  IsWhole, IsGood, IsGood-mono, take-IsGood, make_room-IsGood, put-IsGood,
}

-- What the other threads may do while a `fill` holds no lock: anything that keeps the store good,
-- by sections that come before the next section of this call on the clock.
pub record Others {H : Type 0} (clock : ℕ) (p : Observed H) : Type 0 where
  pub open_keeps : (s : Store) → IsGood clock s → IsGood p.room_at (p.during_open s)
  pub read_keeps : (s : Store) → IsGood p.room_at s → IsGood p.stored_at (p.during_read s)
  pub start : clock ≤ p.room_at
  pub order : p.room_at ≤ p.stored_at

Result-cases :
    {A : Type 0} (r : Result A) → ((k : ErrorKind) × (r ≡ err k)) ⊎ ((a : A) × (r ≡ ok a))
Result-cases (ok a) = inr (a, refl)
Result-cases (err k) = inl (k, refl)

-- What `finish` stores is whole.
finish-IsWhole :
    (meta reread : CachedMeta) (buf : List ℕ) (at : ℕ)
    → (not (same_file reread meta) || not (length buf == meta.len)) ≡ false
    → meta.is_dir ≡ false
    → meta.len ≤ max_file
    → IsWhole (record { body = buf; meta = meta; checked = at })
finish-IsWhole meta reread buf at same file small = record {
  complete = ground arith;
  small = small;
  regular = file;
}

module _ {H : Type 0} (path : String) (p : Observed H) where
  -- `r` leaves the store good at the time of the last section.
  abbrev Keeps : Result (CachedFile H) × Store → Type 0
  Keeps r = IsGood p.stored_at r.1

  finish-Keeps :
      (s : Store) (file : H) (meta reread : CachedMeta) (buf : List ℕ)
      → IsGood p.stored_at s
      → meta.is_dir ≡ false
      → meta.len ≤ max_file
      → Keeps (finish s path p file meta buf reread)
  unfolding finish
  finish-Keeps s file meta reread buf g regular small =
      elim (Bool-cases (not (same_file reread meta) || not (length buf == meta.len))) [
        | inl torn ↦ rw torn (take-IsGood p.stored_at s path g)
        | inr same ↦ rw same (
            put-IsGood p.stored_at s path buf meta p.stored_at (omega arith)
              (finish-IsWhole meta reread buf p.stored_at same regular small) g)
      ]

  fill_from-Keeps :
      (s : Store) (file : H) (meta : CachedMeta)
      → IsGood p.stored_at s
      → meta.is_dir ≡ false
      → meta.len ≤ max_file
      → Keeps (fill_from s path p file meta)
  unfolding fill_from
  fill_from-Keeps s file meta g regular small = elim (Result-cases (read_file p meta)) [
    | inl (k, e) ↦ rw (e, fill_from) g
    | inr ((buf, reread), e) ↦
        rw (e, fill_from) (finish-Keeps s file meta reread buf g regular small)
  ]

  fill_opened-Keeps :
      {clock : ℕ} (s : Store) (file : H) (meta : CachedMeta)
      → Others clock p
      → IsGood p.room_at s
      → Keeps (fill_opened s path p file meta)
  unfolding fill_opened
  fill_opened-Keeps s file meta o g = elim (Bool-cases meta.is_dir) [
    | inl folder ↦ rw folder (IsGood-mono o.order g)
    | inr regular ↦ simp regular (elim (Bool-cases (ltb max_file meta.len)) [
      | inl large ↦ rw large (IsGood-mono o.order g)
      | inr small ↦ rw small (
          let room = make_room-IsGood p.room_at s path meta.len p.room_at (omega arith) g in
          elim (Bool-cases (make_room s path meta.len p.room_at).1) [
            | inl granted ↦
                rw granted
                  (fill_from-Keeps _ file meta (o.read_keeps _ room) regular (ground arith))
            | inr refused ↦ rw refused (IsGood-mono o.order room)
          ])
    ])
  ]

  fill-Keeps : (clock : ℕ) (s : Store) → Others clock p → IsGood clock s → Keeps (fill s path p)
  unfolding fill
  fill-Keeps clock s o g =
      let g' = o.open_keeps s g in
      elim (Result-cases p.opened) [
        | inl (k, e) ↦ rw (e, fill) (IsGood-mono o.order (take-IsGood p.room_at _ path g'))
        | inr (file, e) ↦
            rw (e, fill)
              (elim (Result-cases p.stat_at_open) [
                | inl (k, e') ↦ rw (e', fill) (IsGood-mono o.order g')
                | inr (m, e') ↦ rw (e', fill) (fill_opened-Keeps _ file (new_meta m) o g')
              ])
      ]

  -- A call of `open` leaves a sound store of whole files, whichever way it goes and whatever the
  -- file system answers, if the other threads keep the store so while it waits.
  pub open_file-IsGood :
      (clock : ℕ) (s : Store) (now : ℕ)
      → Others clock p
      → IsGood clock s
      → IsGood p.stored_at (open_file s path now p).1
  unfolding open_file hit
  open_file-IsGood clock s now o g = elim (Option-cases (fresh s path now)) [
    | inl miss ↦ rw (miss, open_file, hit) (fill-Keeps clock s o g)
    | inr (e, found) ↦ rw (found, open_file, hit) (IsGood-mono (omega (arith, o.start, o.order)) g)
  ]
