-- ===== src/StaticFiles/Cache/Accounting.antt =====
-- What the store of crates/middleware/static_files/src/cache.rs holds: the byte count against the
-- entries, and the entries that a sweep keeps.
use Prim.Native.String.{String}
use text.Mathlib.TextEquality.{eq_iff}
use rapira_windows.Common.{
  ℕ, ◌+◌, ◌≤◌, ◌≡◌, refl, none, List, [], ◌∷◌, arith, min, length, All, inl, inr, Bool-cases,
}
use rapira_windows.Common.Assoc.{get, remove, insert, Distinct}
use rapira_windows.StaticFiles.Cache.{Entry, weight, footprint, is_fresh, filter, sweep}

abbrev pub total : List (String × Entry) → ℕ
total [] = 0
total ((p, e) ∷ m) = footprint p (length e.body) + total m

pub total-remove :
    (k : String) (m : List (String × Entry)) → total (remove k m) + weight k (get k m) ≡ total m
unfolding remove get
total-remove k [] = omega arith
total-remove k ((j, e) ∷ m) = ground (arith, total-remove k m, eq_iff j k)

pub weight-le-total : (k : String) (m : List (String × Entry)) → weight k (get k m) ≤ total m
weight-le-total k m = omega (arith, total-remove k m)

pub total-insert :
    (k : String) (e : Entry) (m : List (String × Entry))
    → total (insert k e m) + weight k (get k m) ≡ total m + footprint k (length e.body)
unfolding insert get
total-insert k e [] = omega arith
total-insert k e ((j, w) ∷ m) = ground (arith, total-insert k e m, eq_iff j k)

-- A sweep splits the bytes into what it keeps and what it frees.
pub total-sweep :
    (now : ℕ) (m : List (String × Entry)) (freed oldest : ℕ)
    → let r = sweep now m freed oldest in total r.kept + r.freed ≡ total m + freed
unfolding sweep
total-sweep now [] freed oldest = refl
total-sweep now ((p, e) ∷ m) freed oldest = elim (Bool-cases (is_fresh now e)) [
  | inl keep ↦ rw keep (omega (arith, total-sweep now m freed (min oldest e.checked)))
  | inr drop ↦
      rw drop (omega (arith, total-sweep now m (freed + footprint p (length e.body)) oldest))
]

get-sweep-none :
    (now : ℕ) (m : List (String × Entry)) (freed oldest : ℕ) (k : String)
    → get k m ≡ none
    → get k (sweep now m freed oldest).kept ≡ none
unfolding sweep get
get-sweep-none now [] freed oldest k h = refl
get-sweep-none now ((p, e) ∷ m) freed oldest k h = elim (Bool-cases (is_fresh now e)) [
  | inl keep ↦ rw keep (ground (arith, get-sweep-none now m freed (min oldest e.checked) k))
  | inr drop ↦
      rw drop (ground (arith, get-sweep-none now m (freed + footprint p (length e.body)) oldest k))
]

-- It keeps exactly the fresh entries.
pub get-sweep :
    (now : ℕ) (m : List (String × Entry)) (freed oldest : ℕ) (k : String)
    → Distinct m
    → get k (sweep now m freed oldest).kept ≡ filter (is_fresh now) (get k m)
unfolding sweep get
get-sweep now [] freed oldest k d = refl
get-sweep now ((p, e) ∷ m) freed oldest k d = elim (Bool-cases (is_fresh now e)) [
  | inl keep ↦ rw keep (ground (arith, get-sweep now m freed (min oldest e.checked) k d.1, keep))
  | inr drop ↦ rw drop (
      ground (
        arith,
        drop,
        eq_iff p k,
        get-sweep now m (freed + footprint p (length e.body)) oldest k d.1,
        get-sweep-none now m (freed + footprint p (length e.body)) oldest p d.0,
      ))
]

pub sweep-Distinct :
    (now : ℕ) (m : List (String × Entry)) (freed oldest : ℕ)
    → Distinct m
    → Distinct (sweep now m freed oldest).kept
unfolding sweep
sweep-Distinct now [] freed oldest d = tt
sweep-Distinct now ((p, e) ∷ m) freed oldest d = elim (Bool-cases (is_fresh now e)) [
  | inl keep ↦ rw keep (
    get-sweep-none now m freed (min oldest e.checked) p d.0,
    sweep-Distinct now m freed (min oldest e.checked) d.1,
  )
  | inr drop ↦ rw drop (sweep-Distinct now m (freed + footprint p (length e.body)) oldest d.1)
]

-- No entry was checked before `t`.
abbrev pub CheckedSince : ℕ → List (String × Entry) → Type 0
CheckedSince t = All (λ p. t ≤ p.1.checked)

pub CheckedSince-mono :
    {t u : ℕ} (m : List (String × Entry)) → u ≤ t → CheckedSince t m → CheckedSince u m
CheckedSince-mono [] h c = tt
CheckedSince-mono {t} {u} (p ∷ m) h c = (omega arith, CheckedSince-mono {t = t} m h c.1)

pub sweep-oldest-le :
    (now : ℕ) (m : List (String × Entry)) (freed oldest : ℕ)
    → (sweep now m freed oldest).oldest ≤ oldest
unfolding sweep
sweep-oldest-le now [] freed oldest = omega arith
sweep-oldest-le now ((p, e) ∷ m) freed oldest = elim (Bool-cases (is_fresh now e)) [
  | inl keep ↦ rw keep (omega (arith, sweep-oldest-le now m freed (min oldest e.checked)))
  | inr drop ↦ rw drop (sweep-oldest-le now m (freed + footprint p (length e.body)) oldest)
]

pub sweep-CheckedSince :
    (now : ℕ) (m : List (String × Entry)) (freed oldest : ℕ)
    → CheckedSince (sweep now m freed oldest).oldest (sweep now m freed oldest).kept
unfolding sweep
sweep-CheckedSince now [] freed oldest = tt
sweep-CheckedSince now ((p, e) ∷ m) freed oldest = elim (Bool-cases (is_fresh now e)) [
  | inl keep ↦ rw keep (
    omega (arith, sweep-oldest-le now m freed (min oldest e.checked)),
    sweep-CheckedSince now m freed (min oldest e.checked),
  )
  | inr drop ↦ rw drop (sweep-CheckedSince now m (freed + footprint p (length e.body)) oldest)
]
