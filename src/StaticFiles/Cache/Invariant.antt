-- ===== src/StaticFiles/Cache/Invariant.antt =====
-- The invariant of the store of crates/middleware/static_files/src/cache.rs, kept by every
-- operation on it.
use Prim.Native.String.{String}
use text.Mathlib.Text.{◌==◌ as str_eq}
use rapira_windows.Common.{
  ℕ, ◌+◌, ◌-◌, ◌≤◌, ◌≡◌, refl, true, false, Option, none, some, List, [], ◌∷◌, arith, length, All,
  inl, inr, leb→le, Bool-cases, Option-cases,
}
use rapira_windows.Common.Assoc.{
  get, remove, insert, Distinct, remove-Distinct, insert-Distinct, get-remove_self,
}
use rapira_windows.StaticFiles.Cache.{
  CachedMeta, Entry, Store, weight, footprint, max_total, ttl, empty, take, fits, drop_expired,
  make_room, before_expiry, lower_expiry, same_file, revalidate, store_entry, put,
}
use rapira_windows.StaticFiles.Cache.Accounting.{
  total, total-remove, total-insert, total-sweep, sweep-Distinct, sweep-oldest-le,
  sweep-CheckedSince,
}

-- No entry of the map can expire before `expiry`, where the store has one.
abbrev pub ExpiresNotBefore : Option ℕ → List (String × Entry) → Type 0
ExpiresNotBefore none m = Unit
ExpiresNotBefore (some expiry) m = All (λ p. expiry ≤ p.1.checked + ttl) m

-- `clock` is a time that no later `make_room` or `put` precedes. `next_expiry` stays within one
-- second of it, so that an entry which is checked at `clock` or later cannot expire earlier.
abbrev pub WithinTtl : Option ℕ → ℕ → Type 0
WithinTtl none clock = Unit
WithinTtl (some expiry) clock = expiry ≤ clock + ttl

pub record IsSound (clock : ℕ) (s : Store) : Type 0 where
  pub distinct : Distinct s.map
  pub accounted : s.bytes ≡ total s.map
  pub bounded : s.bytes ≤ max_total
  pub expiry : ExpiresNotBefore s.next_expiry s.map
  pub within : WithinTtl s.next_expiry clock

WithinTtl-mono : (o : Option ℕ) (c d : ℕ) → c ≤ d → WithinTtl o c → WithinTtl o d
WithinTtl-mono none c d h w = tt
WithinTtl-mono (some e) c d h w = omega arith

pub IsSound-mono : {c d : ℕ} {s : Store} → c ≤ d → IsSound c s → IsSound d s
IsSound-mono {c} {d} {s} h v = record {
  distinct = v.distinct;
  accounted = v.accounted;
  bounded = v.bounded;
  expiry = v.expiry;
  within = WithinTtl-mono s.next_expiry c d h v.within;
}

pub empty-IsSound : (clock : ℕ) → IsSound clock empty
empty-IsSound clock = record {
  distinct = tt;
  accounted = refl;
  bounded = omega arith;
  expiry = tt;
  within = tt;
}

-- Predicates at every entry survive a removal, and an insertion of an entry that meets them.
All-remove :
    (P : String × Entry → Type 0) (k : String) (m : List (String × Entry))
    → All P m
    → All P (remove k m)
unfolding remove
All-remove P k [] h = tt
All-remove P k ((j, e) ∷ m) h = elim (Bool-cases (str_eq j k)) [
  | inl hit ↦ rw hit h.1
  | inr miss ↦ rw miss (h.0, All-remove P k m h.1)
]

All-insert :
    (P : String × Entry → Type 0) (k : String) (v : Entry) (m : List (String × Entry))
    → P (k, v)
    → All P m
    → All P (insert k v m)
unfolding insert
All-insert P k v [] p h = (p, tt)
All-insert P k v ((j, e) ∷ m) p h = elim (Bool-cases (str_eq j k)) [
  | inl hit ↦ rw hit (p, h.1)
  | inr miss ↦ rw miss (h.0, All-insert P k v m p h.1)
]

expiry-remove :
    (o : Option ℕ) (k : String) (m : List (String × Entry))
    → ExpiresNotBefore o m
    → ExpiresNotBefore o (remove k m)
expiry-remove none k m h = tt
expiry-remove (some x) k m h = All-remove (λ p. x ≤ p.1.checked + ttl) k m h

expiry-insert :
    (o : Option ℕ) (k : String) (v : Entry) (m : List (String × Entry))
    → WithinTtl o v.checked
    → ExpiresNotBefore o m
    → ExpiresNotBefore o (insert k v m)
expiry-insert none k v m w h = tt
expiry-insert (some x) k v m w h = All-insert (λ p. x ≤ p.1.checked + ttl) k v m w h

pub take-IsSound :
    (clock : ℕ) (s : Store) (path : String) → IsSound clock s → IsSound clock (take s path)
unfolding take
take-IsSound clock s path v = elim (Option-cases (get path s.map)) [
  | inl missing ↦ rw (missing, take) v
  | inr (e, found) ↦
      let gone : total (remove path s.map) + footprint path (length e.body) ≡ total s.map =
        rw found at (total-remove path s.map) in
      rw (found, take)
        (record {
          distinct = remove-Distinct path s.map v.distinct;
          accounted = omega (arith, v.accounted, gone);
          bounded = omega (arith, v.bounded);
          expiry = expiry-remove s.next_expiry path s.map v.expiry;
          within = v.within;
        })
]

-- What `take` leaves.
pub get-take : (s : Store) (path : String) → Distinct s.map → get path (take s path).map ≡ none
unfolding take
get-take s path d = elim (Option-cases (get path s.map)) [
  | inl missing ↦ rw (missing, take) missing
  | inr (e, found) ↦ rw (found, take) (get-remove_self path s.map d)
]

pub take-bytes :
    (s : Store) (path : String) → (take s path).bytes ≡ s.bytes - weight path (get path s.map)
unfolding take
take-bytes s path = elim (Option-cases (get path s.map)) [
  | inl missing ↦ rw (missing, take) (omega arith)
  | inr (e, found) ↦ rw (found, take) refl
]

expiry-CheckedSince :
    (t : ℕ) (m : List (String × Entry))
    → All (λ p. t ≤ p.1.checked) m
    → All (λ p. t + ttl ≤ p.1.checked + ttl) m
expiry-CheckedSince t [] h = tt
expiry-CheckedSince t (p ∷ m) h = (omega arith, expiry-CheckedSince t m h.1)

pub drop_expired-IsSound :
    {clock : ℕ} (s : Store) (now : ℕ) → IsSound clock s → IsSound now (drop_expired s now)
unfolding drop_expired
drop_expired-IsSound s now v = record {
  distinct = sweep-Distinct now s.map 0 now v.distinct;
  accounted = omega (arith, v.accounted, total-sweep now s.map 0 now);
  bounded = omega (arith, v.bounded);
  expiry = expiry-CheckedSince _ _ (sweep-CheckedSince now s.map 0 now);
  within = omega (arith, sweep-oldest-le now s.map 0 now);
}

pub make_room-IsSound :
    {clock : ℕ} (s : Store) (path : String) (body now : ℕ)
    → clock ≤ now
    → IsSound clock s
    → IsSound now (make_room s path body now).0
unfolding make_room
make_room-IsSound s path body now h v = elim (Bool-cases (fits s path body)) [
  | inl room ↦ rw room (IsSound-mono h v)
  | inr full ↦ rw full (elim (Bool-cases (before_expiry now s.next_expiry)) [
    | inl early ↦ rw early (IsSound-mono h v)
    | inr late ↦ rw late (drop_expired-IsSound s now v)
  ])
]

expiry-lower :
    (o : Option ℕ) (now : ℕ) (m : List (String × Entry))
    → ExpiresNotBefore o m
    → ExpiresNotBefore (lower_expiry now o) m
expiry-lower none now m h = tt
expiry-lower (some x) now [] h = tt
expiry-lower (some x) now (p ∷ m) h = (omega arith, expiry-lower (some x) now m h.1)

within-lower :
    (o : Option ℕ) (now clock : ℕ)
    → WithinTtl o clock
    → WithinTtl (lower_expiry now o) clock × WithinTtl (lower_expiry now o) now
within-lower none now clock w = (tt, tt)
within-lower (some x) now clock w = (omega arith, omega arith)

-- `now` may precede the clock: a stat reads it before it takes the lock.
pub revalidate-IsSound :
    (clock : ℕ) (s : Store) (path : String) (meta : CachedMeta) (now : ℕ)
    → IsSound clock s
    → IsSound clock (revalidate s path meta now)
unfolding revalidate
revalidate-IsSound clock s path meta now v = elim (Option-cases (get path s.map)) [
  | inl missing ↦ rw (missing, revalidate) v
  | inr (e, found) ↦ elim (Bool-cases (same_file e.meta meta)) [
    | inl same ↦
        let kept = rw found at (total-insert path (record e { checked = now }) s.map) in
        let low = within-lower s.next_expiry now clock v.within in
        rw (found, revalidate)
          (rw same (record {
            distinct = insert-Distinct path _ s.map v.distinct;
            accounted = omega (arith, v.accounted, kept);
            bounded = v.bounded;
            expiry =
                expiry-insert (lower_expiry now s.next_expiry) path _ s.map low.1
                  (expiry-lower s.next_expiry now s.map v.expiry);
            within = low.0;
          }))
    | inr changed ↦ rw (found, revalidate) (rw changed (take-IsSound clock s path v))
  ]
]

pub store_entry-IsSound :
    {clock : ℕ} (s : Store) (path : String) (body : List ℕ) (meta : CachedMeta) (now : ℕ)
    → clock ≤ now
    → IsSound clock s
    → fits s path (length body) ≡ true
    → IsSound now (store_entry s path body meta now)
unfolding store_entry fits
store_entry-IsSound {clock} s path body meta now h v room =
    let w = IsSound-mono h (take-IsSound clock s path v) in
    let gone = get-take s path v.distinct in
    let fresh_entry : Entry = record { body = body; meta = meta; checked = now } in
    let kept = rw gone at (total-insert path fresh_entry (take s path).map) in
    record {
      distinct = insert-Distinct path _ (take s path).map w.distinct;
      accounted = omega (arith, w.accounted, kept);
      bounded = omega (arith, take-bytes s path, leb→le _ _ room);
      expiry = expiry-insert (take s path).next_expiry path _ (take s path).map w.within w.expiry;
      within = w.within;
    }

-- A granted request for room leaves a store that the body fits.
pub make_room-fits :
    (s : Store) (path : String) (body now : ℕ)
    → (make_room s path body now).1 ≡ true
    → fits (make_room s path body now).0 path body ≡ true
unfolding make_room
make_room-fits s path body now h = elim (Bool-cases (fits s path body)) [
  | inl room ↦ rw room room
  | inr full ↦ elim (Bool-cases (before_expiry now s.next_expiry)) [
    | inl early ↦ absurd (let bad : false ≡ true = rw (full) at (rw early at h) in cc)
    | inr late ↦ rw full (rw late (rw late at (rw full at h)))
  ]
]

pub put-IsSound :
    {clock : ℕ} (s : Store) (path : String) (body : List ℕ) (meta : CachedMeta) (now : ℕ)
    → clock ≤ now
    → IsSound clock s
    → IsSound now (put s path body meta now)
unfolding put
put-IsSound s path body meta now h v =
    let w = make_room-IsSound s path (length body) now h v in
    elim (Bool-cases (make_room s path (length body) now).1) [
      | inl room ↦ rw room (
          store_entry-IsSound _ path body meta now (omega arith) w
            (make_room-fits s path (length body) now room))
      | inr full ↦ rw full w
    ]
