-- ===== src/StaticFiles/Backend/Whole.antt =====
-- The entries of the file cache hold whole files: crates/middleware/static_files/src/cache.rs.
use Prim.Native.String.{String}
use mathlib.Core.Path.{subst}
use text.Mathlib.Text.{◌==◌ as str_eq}
use text.Mathlib.TextEquality.{eq_iff}
use rapira_windows.Common.{
  ℕ, ◌≤◌, ◌≡◌, refl, sym, ◌∙◌, false, Option, none, some, List, arith, length, inl, inr, Bool-cases,
}
use rapira_windows.Common.Assoc.{get, get-insert, Distinct}
use rapira_windows.StaticFiles.Cache.{
  CachedMeta, same_file, Entry, Store, max_file, is_fresh, filter, take, fits, drop_expired,
  before_expiry, make_room, revalidate, store_entry, put,
}
use rapira_windows.StaticFiles.Cache.Invariant.{
  IsSound, IsSound-mono, take-IsSound, make_room-IsSound, revalidate-IsSound, put-IsSound, get-take,
}
use rapira_windows.StaticFiles.Cache.Accounting.{get-sweep}
use rapira_windows.StaticFiles.Cache.Freshness.{get-take_ne, get-revalidate, confirmed}

-- The entry holds a whole regular file that the cache may store.
pub record IsWhole (e : Entry) : Type 0 where
  pub complete : length e.body ≡ e.meta.len
  pub small : e.meta.len ≤ max_file
  pub regular : e.meta.is_dir ≡ false

abbrev pub AllWhole : Store → Type 0
AllWhole s = (k : String) (e : Entry) → get k s.map ≡ some e → IsWhole e

pub record IsGood (clock : ℕ) (s : Store) : Type 0 where
  pub sound : IsSound clock s
  pub whole : AllWhole s

pub IsGood-mono : {c d : ℕ} {s : Store} → c ≤ d → IsGood c s → IsGood d s
IsGood-mono h g = record { sound = IsSound-mono h g.sound; whole = g.whole }

-- `s'` has no entry that `s` lacks.
abbrev Shrinks : Store → Store → Type 0
Shrinks s s' = (k : String) (e : Entry) → get k s'.map ≡ some e → get k s.map ≡ some e

Shrinks-whole : (s s' : Store) → Shrinks s s' → AllWhole s → AllWhole s'
Shrinks-whole s s' sub w k e found = w k e (sub k e found)

take-Shrinks : (s : Store) (path : String) → Distinct s.map → Shrinks s (take s path)
take-Shrinks s path d k e found = elim (Bool-cases (str_eq path k)) [
  | inl same ↦
      let gone =
        subst (λ j. get j (take s path).map ≡ none) ((eq_iff path k).0 same) (get-take s path d) in
      cc
  | inr other ↦ sym (get-take_ne s path k other) ∙ found
]

filter-some :
    (now : ℕ) (o : Option Entry) (e : Entry) → filter (is_fresh now) o ≡ some e → o ≡ some e
filter-some now none e h = h
filter-some now (some x) e h = ground arith

make_room-Shrinks :
    (s : Store) (path : String) (body now : ℕ)
    → Distinct s.map
    → Shrinks s (make_room s path body now).0
unfolding make_room drop_expired
make_room-Shrinks s path body now d k e = elim (Bool-cases (fits s path body)) [
  | inl room ↦ rw room (λ h. h)
  | inr full ↦ rw full (elim (Bool-cases (before_expiry now s.next_expiry)) [
    | inl early ↦ rw early (λ h. h)
    | inr late ↦
        rw late (rw (get-sweep now s.map 0 now k d) (λ h. filter-some now (get k s.map) e h))
  ])
]

pub take-IsGood :
    (clock : ℕ) (s : Store) (path : String) → IsGood clock s → IsGood clock (take s path)
take-IsGood clock s path g = record {
  sound = take-IsSound clock s path g.sound;
  whole = Shrinks-whole s (take s path) (take-Shrinks s path g.sound.distinct) g.whole;
}

pub make_room-IsGood :
    (clock : ℕ) (s : Store) (path : String) (body now : ℕ)
    → clock ≤ now
    → IsGood clock s
    → IsGood now (make_room s path body now).0
make_room-IsGood clock s path body now h g = record {
  sound = make_room-IsSound s path body now h g.sound;
  whole =
      Shrinks-whole s (make_room s path body now).0
        (make_room-Shrinks s path body now g.sound.distinct) g.whole;
}

some_inj : {a b : Entry} → some a ≡ some b → a ≡ b
some_inj h = cc

store_entry-whole :
    (s : Store) (path : String) (body : List ℕ) (meta : CachedMeta) (now : ℕ)
    → Distinct s.map
    → IsWhole (record { body = body; meta = meta; checked = now })
    → AllWhole s
    → AllWhole (store_entry s path body meta now)
unfolding store_entry
store_entry-whole s path body meta now d fine w k e = elim (Bool-cases (str_eq path k)) [
  | inl same ↦ rw get-insert (rw same (λ h. subst IsWhole (some_inj h) fine))
  | inr other ↦ rw get-insert (rw other (λ h. w k e (take-Shrinks s path d k e h)))
]

pub put-IsGood :
    (clock : ℕ) (s : Store) (path : String) (body : List ℕ) (meta : CachedMeta) (now : ℕ)
    → clock ≤ now
    → IsWhole (record { body = body; meta = meta; checked = now })
    → IsGood clock s
    → IsGood now (put s path body meta now)
unfolding put
put-IsGood clock s path body meta now h fine g = record {
  sound = put-IsSound s path body meta now h g.sound;
  whole = whole_after;
}
  where
    whole_after : AllWhole (put s path body meta now)
    whole_after =
        let room = make_room-IsGood clock s path (length body) now h g in
        elim (Bool-cases (make_room s path (length body) now).1) [
          | inl granted ↦
              rw granted
                (store_entry-whole _ path body meta now room.sound.distinct fine room.whole)
          | inr refused ↦ rw refused room.whole
        ]

confirmed-IsWhole :
    (o : Option Entry) (meta : CachedMeta) (now : ℕ) (e : Entry)
    → confirmed o meta now ≡ some e
    → ((e' : Entry) → o ≡ some e' → IsWhole e')
    → IsWhole e
confirmed-IsWhole none meta now e h w = cc
confirmed-IsWhole (some x) meta now e h w = elim (Bool-cases (same_file x.meta meta)) [
  | inl same ↦
      let v = w x refl in
      subst IsWhole (some_inj (rw same at h))
        (record { complete = v.complete; small = v.small; regular = v.regular })
  | inr changed ↦ let bad : none ≡ some e = rw changed at h in cc
]

pub revalidate-IsGood :
    (clock : ℕ) (s : Store) (path : String) (meta : CachedMeta) (now : ℕ)
    → IsGood clock s
    → IsGood clock (revalidate s path meta now)
revalidate-IsGood clock s path meta now g = record {
  sound = revalidate-IsSound clock s path meta now g.sound;
  whole = λ k e.
      rw (get-revalidate s path k meta now g.sound.distinct) (elim (Bool-cases (str_eq path k)) [
        | inl same ↦ rw same (λ h. confirmed-IsWhole (get path s.map) meta now e h (g.whole path))
        | inr other ↦ rw other (g.whole k e)
      ]);
}
