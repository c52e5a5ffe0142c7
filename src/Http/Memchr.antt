-- ===== src/Http/Memchr.antt =====
-- The memchr crate as crates/plugins/http/src/multipart.rs uses it: an interface with its documented
-- behaviour, the first place of a byte and the first place of a needle.
use rapira_windows.Common.{
  ℕ, zero, suc, ◌<◌, ◌≡◌, ◌≢◌, refl, true, false, Option, none, some, List, [], ◌∷◌, ◌++◌, arith,
  All, length, drop, get_elem?, ◌==◌, ==_iff, Bool-cases, inl, inr,
}
use rapira_windows.Common.Bytes.{starts_with}

pub record Memchr : Type 0 where
  pub memchr : ℕ → List ℕ → Option ℕ
  -- `memmem::Finder::find`, the needle first.
  pub memmem : List ℕ → List ℕ → Option ℕ
  pub memchr_first :
      (c : ℕ) (xs ys : List ℕ) → All (λ x. x ≢ c) xs → memchr c (xs ++ c ∷ ys) ≡ some (length xs)
  pub memchr_absent : (c : ℕ) (xs : List ℕ) → All (λ x. x ≢ c) xs → memchr c xs ≡ none
  pub memmem_first :
      (needle hay : List ℕ) (i : ℕ)
      → starts_with (drop i hay) needle ≡ true
      → ((j : ℕ) → j < i → starts_with (drop j hay) needle ≡ false)
      → memmem needle hay ≡ some i
  pub memmem_absent :
      (needle hay : List ℕ)
      → ((j : ℕ) → starts_with (drop j hay) needle ≡ false)
      → memmem needle hay ≡ none

-- What a search for a byte answers.
pub data FoundByte (c : ℕ) (xs : List ℕ) : Option ℕ → Type 0 where
  byte_at :
      (i : ℕ)
      → get_elem? xs i ≡ some c
      → ((j : ℕ) → j < i → get_elem? xs j ≢ some c)
      → FoundByte c xs (some i)
  no_byte : ((j : ℕ) → get_elem? xs j ≢ some c) → FoundByte c xs none

-- What a search for a needle answers.
pub data FoundNeedle (needle hay : List ℕ) : Option ℕ → Type 0 where
  needle_at :
      (i : ℕ)
      → starts_with (drop i hay) needle ≡ true
      → ((j : ℕ) → j < i → starts_with (drop j hay) needle ≡ false)
      → FoundNeedle needle hay (some i)
  no_needle : ((j : ℕ) → starts_with (drop j hay) needle ≡ false) → FoundNeedle needle hay none

-- The lists with and without a byte.
data Split (c : ℕ) : List ℕ → Type 0 where
  without : (xs : List ℕ) → All (λ x. x ≢ c) xs → Split c xs
  first : (xs ys : List ℕ) → All (λ x. x ≢ c) xs → Split c (xs ++ c ∷ ys)

split_cons : (c x : ℕ) (xs : List ℕ) → x ≢ c → Split c xs → Split c (x ∷ xs)
split_cons c x xs d (without _ h) = without (x ∷ xs) (d, h)
split_cons c x xs d (first front back h) = first (x ∷ front) back (d, h)

split : (c : ℕ) (xs : List ℕ) → Split c xs
split c [] = without [] tt
split c (x ∷ xs) = elim (Bool-cases (x == c)) [
  | inl here ↦ rw ((==_iff x c).0 here) (first [] xs tt)
  | inr other ↦ split_cons c x xs (λ e. ground (arith, other, e)) (split c xs)
]

get-All : (c : ℕ) (xs : List ℕ) (j : ℕ) → All (λ x. x ≢ c) xs → get_elem? xs j ≢ some c
get-All c [] j h e = cc
get-All c (x ∷ xs) zero h e = h.0 (ground (arith, e))
get-All c (x ∷ xs) (suc j) h e = get-All c xs j h.1 e

get-append_length : (c : ℕ) (xs ys : List ℕ) → get_elem? (xs ++ c ∷ ys) (length xs) ≡ some c
get-append_length c [] ys = refl
get-append_length c (x ∷ xs) ys = get-append_length c xs ys

get-append_left :
    (c : ℕ) (xs ys : List ℕ) (j : ℕ)
    → All (λ x. x ≢ c) xs
    → j < length xs
    → get_elem? (xs ++ c ∷ ys) j ≢ some c
get-append_left c [] ys j h lt e = omega (arith, lt)
get-append_left c (x ∷ xs) ys zero h lt e = h.0 (ground (arith, e))
get-append_left c (x ∷ xs) ys (suc j) h lt e = get-append_left c xs ys j h.1 (omega arith) e

module _ (m : Memchr) where
  pub memchr-FoundByte : (c : ℕ) (xs : List ℕ) → FoundByte c xs (m.memchr c xs)
  memchr-FoundByte c xs = go xs (split c xs)
    where
      go : (zs : List ℕ) → Split c zs → FoundByte c zs (m.memchr c zs)
      go zs (without _ h) = rw (m.memchr_absent c zs h) (no_byte (λ j. get-All c zs j h))
      go _ (first front back h) = rw (m.memchr_first c front back h) (
          byte_at (length front) (get-append_length c front back)
            (λ j lt. get-append_left c front back j h lt))

-- The search for a needle place by place.
data Place (needle hay : List ℕ) : Type 0 where
  found :
      (i : ℕ)
      → starts_with (drop i hay) needle ≡ true
      → ((j : ℕ) → j < i → starts_with (drop j hay) needle ≡ false)
      → Place needle hay
  nowhere : ((j : ℕ) → starts_with (drop j hay) needle ≡ false) → Place needle hay

Place-cons :
    (needle : List ℕ) (x : ℕ) (hay : List ℕ)
    → starts_with (x ∷ hay) needle ≡ false
    → Place needle hay
    → Place needle (x ∷ hay)
Place-cons needle x hay miss (found i at before) = found (suc i) at earlier
  where
    earlier : (j : ℕ) → j < suc i → starts_with (drop j (x ∷ hay)) needle ≡ false
    earlier zero lt = miss
    earlier (suc k) lt = before k (omega (arith, lt))
Place-cons needle x hay miss (nowhere all_miss) = nowhere each
  where
    each : (j : ℕ) → starts_with (drop j (x ∷ hay)) needle ≡ false
    each zero = miss
    each (suc k) = all_miss k

Place-here : (needle hay : List ℕ) → starts_with hay needle ≡ true → Place needle hay
Place-here needle hay here = found 0 here (λ j lt. absurd (omega (arith, lt)))

Place-nil : (needle : List ℕ) → starts_with [] needle ≡ false → Place needle []
Place-nil needle miss = nowhere each
  where
    each : (j : ℕ) → starts_with (drop j []) needle ≡ false
    each zero = miss
    each (suc k) = miss

place : (needle hay : List ℕ) → Place needle hay
place needle [] = elim (Bool-cases (starts_with [] needle)) [
  | inl here ↦ Place-here needle [] here
  | inr miss ↦ Place-nil needle miss
]
place needle (x ∷ rest) =
    let after = place needle rest in
    elim (Bool-cases (starts_with (x ∷ rest) needle)) [
      | inl here ↦ Place-here needle (x ∷ rest) here
      | inr miss ↦ Place-cons needle x rest miss after
    ]

module _ (m : Memchr) where
  pub memmem-FoundNeedle : (needle hay : List ℕ) → FoundNeedle needle hay (m.memmem needle hay)
  memmem-FoundNeedle needle hay = elim (place needle hay) [
    | found i at before ↦ rw (m.memmem_first needle hay i at before) (needle_at i at before)
    | nowhere miss ↦ rw (m.memmem_absent needle hay miss) (no_needle miss)
  ]
