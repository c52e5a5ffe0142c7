-- ===== src/StaticFiles/Cache/Room.antt =====
-- Admission to the store of crates/middleware/static_files/src/cache.rs: the early refusal of
-- `make_room` against a sweep that always runs.
use Prim.Native.String.{String}
use text.Mathlib.Text.{◌==◌ as str_eq}
use text.Mathlib.TextEquality.{eq_iff}
use rapira_windows.Common.{
  ℕ, ◌+◌, ◌≤◌, ◌<◌, ◌≡◌, refl, true, false, List, [], ◌∷◌, arith, min, sym, ◌∙◌, length, All, inl,
  inr, leb→le, le→leb, ltb→lt, lt→ltb, Bool-cases, Option-cases,
}
use rapira_windows.Common.Assoc.{get}
use rapira_windows.StaticFiles.Cache.{
  Entry, Store, weight, footprint, is_fresh, sweep, ttl, fits, drop_expired, make_room,
  before_expiry,
}
use rapira_windows.StaticFiles.Cache.Accounting.{total, total-sweep}
use rapira_windows.StaticFiles.Cache.Invariant.{IsSound}

total-sweep-le :
    (now : ℕ) (m : List (String × Entry)) (freed oldest : ℕ)
    → total (sweep now m freed oldest).kept ≤ total m
unfolding sweep
total-sweep-le now [] freed oldest = omega arith
total-sweep-le now ((p, e) ∷ m) freed oldest = elim (Bool-cases (is_fresh now e)) [
  | inl keep ↦ rw keep (omega (arith, total-sweep-le now m freed (min oldest e.checked)))
  | inr drop ↦
      rw drop (omega (arith, total-sweep-le now m (freed + footprint p (length e.body)) oldest))
]

-- What a sweep frees covers a stale entry of any path.
sweep-weight :
    (now : ℕ) (m : List (String × Entry)) (freed oldest : ℕ) (k : String)
    → total (sweep now m freed oldest).kept + weight k (get k m)
      ≤ total m + weight k (get k (sweep now m freed oldest).kept)
unfolding sweep get
sweep-weight now [] freed oldest k = omega arith
sweep-weight now ((p, e) ∷ m) freed oldest k = elim (Bool-cases (is_fresh now e)) [
  | inl keep ↦
      let ih = sweep-weight now m freed (min oldest e.checked) k in
      rw keep (elim (Bool-cases (str_eq p k)) [
        | inl hit ↦ rw hit (omega (arith, total-sweep-le now m freed (min oldest e.checked)))
        | inr miss ↦ rw miss (omega (arith, ih))
      ])
  | inr drop ↦
      let f : ℕ = freed + footprint p (length e.body) in
      rw drop (ground (arith, sweep-weight now m f oldest k, drop, eq_iff p k))
]

sweep_of_fresh :
    (now expiry : ℕ) (m : List (String × Entry)) (freed oldest : ℕ)
    → now < expiry
    → All (λ p. expiry ≤ p.1.checked + ttl) m
    → ((sweep now m freed oldest).kept ≡ m) × ((sweep now m freed oldest).freed ≡ freed)
unfolding sweep
sweep_of_fresh now expiry [] freed oldest h a = (refl, refl)
sweep_of_fresh now expiry ((p, e) ∷ m) freed oldest h a =
    let keep : is_fresh now e ≡ true = lt→ltb _ _ (omega (arith, a.0)) in
    let rest = sweep_of_fresh now expiry m freed (min oldest e.checked) h a.1 in
    rw keep (ground (arith, rest))

-- Before `next_expiry` a sweep changes no size.
drop_expired-fits_early :
    {clock : ℕ} (s : Store) (path : String) (body now : ℕ)
    → IsSound clock s
    → before_expiry now s.next_expiry ≡ true
    → fits (drop_expired s now) path body ≡ fits s path body
unfolding fits drop_expired
drop_expired-fits_early s path body now v early = elim (Option-cases s.next_expiry) [
  | inl never ↦ let bad : false ≡ true = rw never at early in cc
  | inr (x, e) ↦
      let same =
        sweep_of_fresh now x s.map 0 now (ltb→lt now x (rw e at early)) (rw e at v.expiry) in
      rw (same.0, same.1) (ground arith)
]

-- A body that fits before a sweep fits after it.
drop_expired-fits_mono :
    {clock : ℕ} (s : Store) (path : String) (body now : ℕ)
    → IsSound clock s
    → fits s path body ≡ true
    → fits (drop_expired s now) path body ≡ true
unfolding fits drop_expired
drop_expired-fits_mono s path body now v h = le→leb _ _ (
    omega (
      arith,
      leb→le _ _ h,
      v.accounted,
      sweep-weight now s.map 0 now path,
      total-sweep now s.map 0 now,
    ))

-- On a sound store `make_room` answers as a version would that sweeps out the expired entries on
-- every call: neither the first test nor the early refusal before `next_expiry` changes the answer.
pub make_room-eq-fits :
    {clock : ℕ} (s : Store) (path : String) (body now : ℕ)
    → IsSound clock s
    → (make_room s path body now).1 ≡ fits (drop_expired s now) path body
unfolding make_room
make_room-eq-fits s path body now v = elim (Bool-cases (fits s path body)) [
  | inl room ↦ rw room (sym (drop_expired-fits_mono s path body now v room))
  | inr full ↦ rw full (elim (Bool-cases (before_expiry now s.next_expiry)) [
    | inl early ↦ rw early (sym (drop_expired-fits_early s path body now v early ∙ full))
    | inr late ↦ rw late refl
  ])
]
