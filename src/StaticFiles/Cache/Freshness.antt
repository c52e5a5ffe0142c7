-- ===== src/StaticFiles/Cache/Freshness.antt =====
-- Which entries a request sees after each operation of the store in
-- crates/middleware/static_files/src/cache.rs.
use Prim.Native.String.{String}
use mathlib.Core.Path.{subst}
use text.Mathlib.Text.{◌==◌ as str_eq}
use text.Mathlib.TextEquality.{eq_iff}
use rapira_windows.Common.{
  ℕ, ◌≤◌, ◌≡◌, refl, ◌∙◌, ap, false, ◌&&◌, Option, none, some, List, arith, length, inl, inr,
  if◌then◌else◌, Bool-cases, Option-cases,
}
use rapira_windows.Common.Assoc.{get, Distinct, get-insert, get-remove}
use rapira_windows.StaticFiles.Cache.{
  CachedMeta, Entry, Store, is_fresh, filter, fresh, take, fits, drop_expired, make_room,
  before_expiry, same_file, revalidate, store_entry, put,
}
use rapira_windows.StaticFiles.Cache.Accounting.{get-sweep, sweep-Distinct}
use rapira_windows.StaticFiles.Cache.Invariant.{get-take}

-- An entry that is fresh later is fresh now.
filter-filter :
    (now t : ℕ) (o : Option Entry)
    → now ≤ t
    → filter (is_fresh t) (filter (is_fresh now) o) ≡ filter (is_fresh t) o
filter-filter now t none h = refl
filter-filter now t (some e) h = ground arith

fresh-drop_expired :
    (s : Store) (now t : ℕ) (j : String)
    → Distinct s.map
    → now ≤ t
    → fresh (drop_expired s now) j t ≡ fresh s j t
unfolding fresh drop_expired
fresh-drop_expired s now t j d h =
    rw (get-sweep now s.map 0 now j d) (filter-filter now t (get j s.map) h)

pub get-take_ne :
    (s : Store) (path j : String) → str_eq path j ≡ false → get j (take s path).map ≡ get j s.map
unfolding take
get-take_ne s path j h = elim (Option-cases (get path s.map)) [
  | inl missing ↦ rw (missing, take) refl
  | inr (e, found) ↦ rw (found, take) (get-remove path j s.map h)
]

pub fresh-make_room :
    (s : Store) (path j : String) (body now t : ℕ)
    → Distinct s.map
    → now ≤ t
    → fresh (make_room s path body now).0 j t ≡ fresh s j t
unfolding make_room
fresh-make_room s path j body now t d h = elim (Bool-cases (fits s path body)) [
  | inl room ↦ rw room refl
  | inr full ↦ rw full (elim (Bool-cases (before_expiry now s.next_expiry)) [
    | inl early ↦ rw early refl
    | inr late ↦ rw late (fresh-drop_expired s now t j d h)
  ])
]

make_room-Distinct :
    (s : Store) (path : String) (body now : ℕ)
    → Distinct s.map
    → Distinct (make_room s path body now).0.map
unfolding make_room drop_expired
make_room-Distinct s path body now d = elim (Bool-cases (fits s path body)) [
  | inl room ↦ rw room d
  | inr full ↦ rw full (elim (Bool-cases (before_expiry now s.next_expiry)) [
    | inl early ↦ rw early d
    | inr late ↦ rw late (sweep-Distinct now s.map 0 now d)
  ])
]

fresh-store_entry :
    (s : Store) (path j : String) (body : List ℕ) (meta : CachedMeta) (now t : ℕ)
    → fresh (store_entry s path body meta now) j t ≡ (
        if str_eq path j
        then filter (is_fresh t) (some (record { body = body; meta = meta; checked = now }))
        else fresh s j t)
unfolding fresh store_entry
fresh-store_entry s path j body meta now t = elim (Bool-cases (str_eq path j)) [
  | inl same ↦ rw same (rw get-insert (rw same refl))
  | inr other ↦ rw other (rw get-insert (rw other (rw (get-take_ne s path j other) refl)))
]

-- What a request sees at any time `t` from a put on: the new entry under its path if there was
-- room for it, until it expires; and under every other path, and where there was no room, just
-- what it would have seen without the put.
pub fresh-put :
    (s : Store) (path j : String) (body : List ℕ) (meta : CachedMeta) (now t : ℕ)
    → Distinct s.map
    → now ≤ t
    → fresh (put s path body meta now) j t ≡ (
        if (make_room s path (length body) now).1 && str_eq path j
        then filter (is_fresh t) (some (record { body = body; meta = meta; checked = now }))
        else fresh s j t)
unfolding put
fresh-put s path j body meta now t d h =
    let room = make_room s path (length body) now in
    let old = fresh-make_room s path j (length body) now t d h in
    elim (Bool-cases room.1) [
      | inl granted ↦ rw granted (
          fresh-store_entry room.0 path j body meta now t
          ∙ ap
              (λ o.
                if str_eq path j
                then filter (is_fresh t) (some (record { body = body; meta = meta; checked = now }))
                else o)
              old)
      | inr refused ↦ rw refused old
    ]

-- What `revalidate` makes of the entry of its path.
abbrev pub confirmed : Option Entry → CachedMeta → ℕ → Option Entry
confirmed none meta now = none
confirmed (some e) meta now =
    if same_file e.meta meta then some (record e { checked = now }) else none

pub get-revalidate :
    (s : Store) (path j : String) (meta : CachedMeta) (now : ℕ)
    → Distinct s.map
    → get j (revalidate s path meta now).map
      ≡ (if str_eq path j then confirmed (get path s.map) meta now else get j s.map)
unfolding revalidate
get-revalidate s path j meta now d = elim (Option-cases (get path s.map)) [
  | inl missing ↦
      rw (missing, revalidate)
        (elim (Bool-cases (str_eq path j)) [
          | inl same ↦ rw same (rw ((eq_iff path j).0 same) at missing)
          | inr other ↦ rw other refl
        ])
  | inr (e, found) ↦
      rw (found, revalidate)
        (elim (Bool-cases (same_file e.meta meta)) [
          | inl keep ↦ rw keep (rw get-insert refl)
          | inr changed ↦ rw changed (elim (Bool-cases (str_eq path j)) [
            | inl same ↦ rw same (
                subst (λ k. get k (take s path).map ≡ none) ((eq_iff path j).0 same)
                  (get-take s path d))
            | inr other ↦ rw other (get-take_ne s path j other)
          ])
        ])
]
