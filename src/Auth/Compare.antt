-- ===== src/Auth/Compare.antt =====
-- The comparison of crates/interceptors/auth/src/lib.rs that reads every byte.
use Prim.Native.Nat.{bit_or, bit_xor}
use rapira_windows.Common.{
  ℕ, zero, suc, ◌<◌, ◌≡◌, ◌↔◌, refl, ap, Bool, true, false, ◌&&◌, List, [], ◌∷◌, arith, All, In,
  all, all-In, length, ltb, ◌==◌, ==_iff, Bool-cases, inl, inr,
}
use rapira_windows.Auth.{fold_diff, same}

abbrev pub IsByte : ℕ → Type 0
IsByte b = b < 256

-- The numbers from `n - 1` down to 0.
countdown : ℕ → List ℕ
countdown zero = []
countdown (suc k) = k ∷ countdown k

In-countdown : (x k : ℕ) → x < k → In x (countdown k)
unfolding countdown
In-countdown x zero lt = absurd (omega (lt, arith))
In-countdown x (suc k) lt = elim (Bool-cases (x == k)) [
  | inl here ↦ inl ((==_iff x k).0 here)
  | inr before ↦ inr (In-countdown x k (ground (arith, before)))
]

bool_eq : Bool → Bool → Bool
bool_eq true b = b
bool_eq false true = false
bool_eq false false = true

bool_eq_sound : (a b : Bool) → bool_eq a b ≡ true → a ≡ b
unfolding bool_eq
bool_eq_sound a b h = ground arith

pair_ok : ℕ → ℕ → Bool
unfolding bool_eq
pair_ok a b =
    bool_eq (bit_xor a b == 0) (a == b)
    && ltb (bit_xor a b) 256
    && bool_eq (bit_or a b == 0) (a == 0 && b == 0)
    && ltb (bit_or a b) 256

-- Each byte with each, by evaluation.
pair_table : all (λ a. all (pair_ok a) (countdown 256)) (countdown 256) ≡ true
unfolding countdown pair_ok
pair_table = refl

-- What one round of the fold does to bytes.
record Pair (a b : ℕ) : Type 0 where
  xor_zero : (bit_xor a b == 0) ≡ (a == b)
  xor_byte : IsByte (bit_xor a b)
  or_zero : (bit_or a b == 0) ≡ (a == 0 && b == 0)
  or_byte : IsByte (bit_or a b)

from_table : (a b : ℕ) → pair_ok a b ≡ true → Pair a b
unfolding pair_ok
from_table a b h = record {
  xor_zero = bool_eq_sound _ _ (ground arith);
  xor_byte = ground arith;
  or_zero = bool_eq_sound _ _ (ground arith);
  or_byte = ground arith;
}

pair : (a b : ℕ) → IsByte a → IsByte b → Pair a b
pair a b p q =
    let row = all-In (λ a. all (pair_ok a) (countdown 256)) a _ pair_table (In-countdown a 256 p) in
    from_table a b (all-In (pair_ok a) b _ row (In-countdown b 256 q))

fold_diff_iff :
    (d : ℕ) (xs ys : List ℕ)
    → IsByte d
    → All IsByte xs
    → All IsByte ys
    → length xs ≡ length ys
    → ((fold_diff d xs ys ≡ 0) ↔ ((d ≡ 0) × (xs ≡ ys)))
unfolding fold_diff
fold_diff_iff d [] [] p h k e = (λ z. (z, refl), λ z. z.0)
fold_diff_iff d [] (y ∷ ys) p h k e = absurd (omega arith)
fold_diff_iff d (x ∷ xs) [] p h k e = absurd (omega arith)
fold_diff_iff d (x ∷ xs) (y ∷ ys) p h k e =
    let one = pair x y h.0 k.0 in
    let two = pair d (bit_xor x y) p one.xor_byte in
    let rest = fold_diff_iff (bit_or d (bit_xor x y)) xs ys two.or_byte h.1 k.1 (omega arith) in
    (
      λ z. ground (arith, rest.0 z, one.xor_zero, two.or_zero),
      λ z. rest.1 (ground (arith, one.xor_zero, two.or_zero)),
    )

-- On bytes `same` is equality, although it looks at every byte of texts of one length.
pub same_iff : (a b : List ℕ) → All IsByte a → All IsByte b → ((same a b ≡ true) ↔ (a ≡ b))
unfolding same
same_iff a b h k = elim (Bool-cases (length a == length b)) [
  | inl e ↦
      let r = fold_diff_iff 0 a b (omega arith) h k ((==_iff _ _).0 e) in
      rw e (λ z. (r.0 ((==_iff _ _).0 z)).1, λ z. (==_iff _ _).1 (r.1 (refl, z)))
  | inr d ↦ rw d (
    λ z. absurd (cc),
    λ z. absurd (let l : length a ≡ length b = ap length z in ground (arith, d)),
  )
]
