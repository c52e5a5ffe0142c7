-- ===== src/StaticFiles/Backend/Reads.antt =====
-- What a `fill` of crates/middleware/static_files/src/cache.rs answers from memory, and what a stat
-- promises about the entries.
use Prim.Native.String.{String}
use mathlib.Core.Path.{ap₂}
use text.Mathlib.TextPositions.{eq_refl}
use rapira_windows.StaticFiles.Cache.Invariant.{get-take}
use rapira_windows.Common.{
  ℕ, zero, suc, ◌+◌, ◌≤◌, ◌<◌, ◌≡◌, ◌⊎◌, refl, sym, ◌∙◌, ap, Bool, true, false, not, ◌&&◌, ◌||◌,
  Option, none, some, List, [], ◌∷◌, arith, length, inl, inr, ltb, ltb→lt, ◌==◌, ==_iff,
  if◌then◌else◌, Bool-cases, Option-cases,
}
use native.Mathlib.Numerals.{add-one}
use rapira_windows.Common
use rapira_windows.Common.Assoc.{get, Distinct}
use rapira_windows.StaticFiles.Io.{
  Result, ok, err, ErrorKind, ◌>>=◌, is_a_directory, OsMetadata, modified_eq_iff,
}
use rapira_windows.StaticFiles.Cache.{
  CachedMeta, new_meta, same_file, Entry, Store, max_file, is_fresh, filter, fresh, make_room,
}
use rapira_windows.StaticFiles.Cache.Freshness.{get-revalidate, confirmed}
use rapira_windows.StaticFiles.Backend.{
  memory, disk, stat, Observed, hit, read_file, finish, fill_from, fill_opened, fill,
}

take_all : (n : ℕ) (xs : List ℕ) → length (Common.take (n + 1) xs) ≡ n → Common.take (n + 1) xs ≡ xs
take_all n xs = rw add-one (take_suc n xs)
  where
    take_suc :
        (n : ℕ) (xs : List ℕ) → length (Common.take (suc n) xs) ≡ n → Common.take (suc n) xs ≡ xs
    take_suc n [] h = refl
    take_suc zero (x ∷ []) h = refl
    take_suc zero (x ∷ y ∷ xs) h = absurd (omega arith)
    take_suc (suc n) (x ∷ xs) h = rw (take_suc n xs (omega arith))

Result-cases :
    {A : Type 0} (r : Result A) → ((k : ErrorKind) × (r ≡ err k)) ⊎ ((a : A) × (r ≡ ok a))
Result-cases (ok a) = inr (a, refl)
Result-cases (err k) = inl (k, refl)

same_file_lem :
    (a b : CachedMeta) → same_file a b ≡ true → (a.modified ≡ b.modified) × (a.len ≡ b.len)
same_file_lem a b e =
    ((modified_eq_iff a.modified b.modified).0 (ground (arith, e)), ground (arith, e))

module _ {H : Type 0} (path : String) (p : Observed H) where
  -- The bytes that a fill answers from memory are all that the file delivered, between two stats
  -- that agree.
  pub record ReadAtOnce (b : List ℕ) (m : CachedMeta) : Type 0 where
    pub second : OsMetadata
    pub stat_behind : p.stat_after ≡ ok second
    pub same_time : (new_meta second).modified ≡ m.modified
    pub same_length : second.len ≡ m.len
    pub read : p.contents ≡ ok b
    pub complete : length b ≡ m.len

  read_file_parts :
      (meta : CachedMeta) (buf : List ℕ) (reread : CachedMeta)
      → read_file p meta ≡ ok (buf, reread)
      → (bytes : List ℕ) × (m : OsMetadata) × (p.contents ≡ ok bytes)
        × (p.stat_after ≡ ok m)
        × (buf ≡ Common.take (meta.len + 1) bytes)
        × (reread ≡ new_meta m)
  unfolding read_file
  read_file_parts meta buf reread h = elim (Result-cases p.contents) [
    | inl (k, e) ↦ absurd (ground arith)
    | inr (bytes, e) ↦ elim (Result-cases p.stat_after) [
      | inl (k, e') ↦ absurd (ground arith)
      | inr (m, e') ↦ (bytes, m, e, e', ground arith, ground arith)
    ]
  ]

  finish_memory :
      (s : Store) (file : H) (meta reread m : CachedMeta) (buf b : List ℕ) (pos : ℕ)
      → (finish s path p file meta buf reread).0 ≡ ok (memory b pos m)
      → (b ≡ buf)
        × (m ≡ meta)
        × (pos ≡ 0)
        × (same_file reread meta ≡ true)
        × (length buf ≡ meta.len)
  unfolding finish
  finish_memory s file meta reread m buf b pos h =
      elim (Bool-cases (not (same_file reread meta) || not (length buf == meta.len))) [
        | inl torn ↦
            let h' : (do _ ← p.rewound; ok (disk file reread)) ≡ ok (memory b pos m) =
              simp torn at h in
            absurd (elim (Result-cases p.rewound) [
              | inl (k, e) ↦ ground arith
              | inr (u, e) ↦ ground arith
            ])
        | inr same ↦
            let h' : ok (memory buf 0 meta) ≡ ok (memory b pos m) = simp same at h in
            (ground arith, ground arith, ground arith, ground arith, ground arith)
      ]

  fill_from_memory :
      (s : Store) (file : H) (meta m : CachedMeta) (b : List ℕ) (pos : ℕ)
      → (fill_from s path p file meta).0 ≡ ok (memory b pos m)
      → (m ≡ meta) × (pos ≡ 0) × ReadAtOnce b m
  unfolding fill_from
  fill_from_memory s file meta m b pos h = elim (Result-cases (read_file p meta)) [
    | inl (k, e) ↦ let h' : err k ≡ ok (memory b pos m) = rw (e, fill_from) at h in absurd (cc)
    | inr ((buf, reread), e) ↦
        let h' : (finish s path p file meta buf reread).0 ≡ ok (memory b pos m) =
          rw (e, fill_from) at h in
        let (same_b, same_m, start, unchanged, complete) =
          finish_memory s file meta reread m buf b pos h' in
        let (bytes, om, read, behind, cut, again) = read_file_parts meta buf reread e in
        let whole : Common.take (meta.len + 1) bytes ≡ bytes =
          take_all meta.len bytes (ap length (sym cut) ∙ complete) in
        let unchanged_lem =
          same_file_lem (new_meta om) m (ap₂ same_file (sym again) same_m ∙ unchanged) in
        (
          same_m,
          start,
          record {
            second = om;
            stat_behind = behind;
            same_time = unchanged_lem.0;
            same_length = unchanged_lem.1;
            read = read ∙ ap ok (sym (same_b ∙ cut ∙ whole));
            complete = ap length same_b ∙ complete ∙ ap (λ (c : CachedMeta). c.len) (sym same_m);
          },
        )
  ]

  fill_opened_memory :
      (s : Store) (file : H) (meta m : CachedMeta) (b : List ℕ) (pos : ℕ)
      → (fill_opened s path p file meta).0 ≡ ok (memory b pos m)
      → (m ≡ meta) × (pos ≡ 0) × ReadAtOnce b m × (meta.is_dir ≡ false) × (meta.len ≤ max_file)
  unfolding fill_opened
  fill_opened_memory s file meta m b pos h = elim (Bool-cases meta.is_dir) [
    | inl folder ↦
        let h' : err is_a_directory ≡ ok (memory b pos m) = simp folder at h in absurd (cc)
    | inr regular ↦ elim (Bool-cases (ltb max_file meta.len)) [
      | inl large ↦
          let h' : ok (disk file meta) ≡ ok (memory b pos m) = simp (regular, large) at h in
          absurd (cc)
      | inr small ↦ elim (Bool-cases (make_room s path meta.len p.room_at).1) [
        | inl granted ↦
            let h' : (fill_from (p.during_read (make_room s path meta.len p.room_at).0) path p file
                  meta).0
                ≡ ok (memory b pos m) =
              simp (regular, small, granted) at h in
            let (same, start, read) = fill_from_memory _ file meta m b pos h' in
            (same, start, read, regular, ground arith)
        | inr refused ↦
            let h' : ok (disk file meta) ≡ ok (memory b pos m) =
              simp (regular, small, refused) at h in
            absurd (cc)
      ]
    ]
  ]

  -- A fill that answers from memory answers, from position 0, all the bytes that the file
  -- delivered, with the metadata of the stat behind the open; the file is no directory and within
  -- the size limit, its length is the number of the bytes, and the stat behind the read saw the
  -- same modification time and length.
  pub fill-ReadAtOnce :
      (s : Store) (m : CachedMeta) (b : List ℕ) (pos : ℕ)
      → (fill s path p).0 ≡ ok (memory b pos m)
      → (first : OsMetadata) × (p.stat_at_open ≡ ok first)
        × (m ≡ new_meta first)
        × (pos ≡ 0)
        × ReadAtOnce b m
        × (m.is_dir ≡ false)
        × (m.len ≤ max_file)
  unfolding fill
  fill-ReadAtOnce s m b pos h = elim (Result-cases p.opened) [
    | inl (k, e) ↦ let h' : err k ≡ ok (memory b pos m) = rw (e, fill) at h in absurd (cc)
    | inr (file, e) ↦ elim (Result-cases p.stat_at_open) [
      | inl (k, e') ↦
          let h' : err k ≡ ok (memory b pos m) = rw (e', fill) at (rw (e, fill) at h) in absurd (cc)
      | inr (first, e') ↦
          let h' : (fill_opened (p.during_open s) path p file (new_meta first)).0
              ≡ ok (memory b pos m) =
            rw (e', fill) at (rw (e, fill) at h) in
          let (same, start, read, regular, small) =
            fill_opened_memory _ file (new_meta first) m b pos h' in
          (
            first,
            e',
            same,
            start,
            read,
            ap (λ (c : CachedMeta). c.is_dir) same ∙ regular,
            omega (arith, ap (λ (c : CachedMeta). c.len) same, small),
          )
    ]
  ]

-- How the answer of a stat and the entry of its path fit together.
abbrev pub Agrees : Result CachedMeta → Option Entry → Type 0
Agrees (err k) o = o ≡ none
Agrees (ok m) none = Unit
Agrees (ok m) (some e) = (e.meta.modified ≡ m.modified) × (e.meta.len ≡ m.len)

confirmed-Agrees : (o : Option Entry) (m : CachedMeta) (now : ℕ) → Agrees (ok m) (confirmed o m now)
confirmed-Agrees none m now = tt
confirmed-Agrees (some e) m now = elim (Bool-cases (same_file e.meta m)) [
  | inl same ↦ rw same (same_file_lem e.meta m same)
  | inr changed ↦ rw changed tt
]

fresh-Agrees :
    (o : Option Entry) (now : ℕ) (e : Entry)
    → filter (is_fresh now) o ≡ some e
    → Agrees (ok e.meta) o
fresh-Agrees none now e h = tt
fresh-Agrees (some x) now e h = let same : x ≡ e = ground arith in rw same (refl, refl)

-- After a stat the store agrees with its answer, whatever the other threads did before it took the
-- lock again: an entry that is left for the path has the modification time and the length of the
-- answer, so that a request served from memory carries the validators of the stat before it; and
-- after a failed stat no entry is left.
pub stat-Agrees :
    (s : Store) (path : String) (now : ℕ) (found : Result OsMetadata) (during : Store → Store)
    → Distinct (during s).map
    → Agrees (stat s path now found during).0 (get path (stat s path now found during).1.map)
unfolding stat fresh
stat-Agrees s path now found during d = elim (Option-cases (fresh s path now)) [
  | inr (e, hit) ↦ rw (hit, stat, fresh) (fresh-Agrees (get path s.map) now e hit)
  | inl miss ↦
      rw (miss, stat, fresh)
        (elim (Result-cases found) [
          | inl (k, e) ↦ rw (e, stat) (get-take (during s) path d)
          | inr (m, e) ↦
              rw (e, stat)
                (rw (get-revalidate (during s) path path (new_meta m) now d)
                  (rw (eq_refl path) (confirmed-Agrees (get path (during s).map) (new_meta m) now)))
        ])
]
