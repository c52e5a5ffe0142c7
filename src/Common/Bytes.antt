-- ===== src/Common/Bytes.antt =====
-- Bytes and characters: the ASCII classes and the trims of the Rust standard library.
use Prim.Native.Nat.{ℕ, ◌+◌}
use mathlib.Core.Bool.{Bool, true, false, ◌&&◌, ◌||◌}
use mathlib.Core.List.{List, [], ◌∷◌}
use mathlib.Core.Path.{◌≡◌, refl}
use mathlib.Core.Logic.{◌↔◌, inl, inr}
use native.Mathlib.Omega.{arith}
use rapira_windows.Common.Tests.{leb, ◌==◌, ==_iff, Bool-cases, if◌then◌else◌}

abbrev pub is_ascii_digit : ℕ → Bool
is_ascii_digit c = leb b'0' c && leb c b'9'

abbrev pub is_ascii_uppercase : ℕ → Bool
is_ascii_uppercase c = leb b'A' c && leb c b'Z'

abbrev pub is_ascii_lowercase : ℕ → Bool
is_ascii_lowercase c = leb b'a' c && leb c b'z'

abbrev pub is_ascii_alphanumeric : ℕ → Bool
is_ascii_alphanumeric c = is_ascii_digit c || is_ascii_uppercase c || is_ascii_lowercase c

abbrev pub to_ascii_lowercase : ℕ → ℕ
to_ascii_lowercase c = if is_ascii_uppercase c then c + 32 else c

-- The bytes that `trim_ascii` takes off: space, tab, line feed, form feed, carriage return.
abbrev pub is_ascii_whitespace : ℕ → Bool
is_ascii_whitespace c = c == 32 || c == 9 || c == 10 || c == 12 || c == 13

-- `[u8] == [u8]`.
unfoldable pub bytes_eq : List ℕ → List ℕ → Bool
bytes_eq [] [] = true
bytes_eq (a ∷ as') (b ∷ bs) = a == b && bytes_eq as' bs
bytes_eq _ _ = false

-- `eq_ignore_ascii_case`.
unfoldable pub eq_ignore_ascii_case : List ℕ → List ℕ → Bool
eq_ignore_ascii_case [] [] = true
eq_ignore_ascii_case (a ∷ as') (b ∷ bs) =
    to_ascii_lowercase a == to_ascii_lowercase b && eq_ignore_ascii_case as' bs
eq_ignore_ascii_case _ _ = false

unfoldable pub starts_with : List ℕ → List ℕ → Bool
starts_with xs [] = true
starts_with [] (p ∷ ps) = false
starts_with (x ∷ xs) (p ∷ ps) = x == p && starts_with xs ps

unfoldable pub trim_start_by : (ℕ → Bool) → List ℕ → List ℕ
trim_start_by p [] = []
trim_start_by p (c ∷ cs) = if p c then trim_start_by p cs else c ∷ cs

-- The end is trimmed off where nothing but such characters follows.
unfoldable pub trim_end_by : (ℕ → Bool) → List ℕ → List ℕ
trim_end_by p [] = []
trim_end_by p (c ∷ cs) =
    let rest = trim_end_by p cs in
    elim rest [ [] ↦ if p c then [] else c ∷ [] | x ∷ xs ↦ c ∷ x ∷ xs ]

unfoldable pub trim_by : (ℕ → Bool) → List ℕ → List ℕ
unfolding trim_start_by trim_end_by
trim_by p cs = trim_start_by p (trim_end_by p cs)

-- `split` on one byte.
unfoldable pub split_on : ℕ → List ℕ → List (List ℕ)
split_on c [] = [] ∷ []
split_on c (x ∷ xs) =
    let rest = split_on c xs in
    if x == c then [] ∷ rest else elim rest [ [] ↦ (x ∷ []) ∷ [] | s ∷ ss ↦ (x ∷ s) ∷ ss ]

pub bytes_eq_iff : (a b : List ℕ) → ((bytes_eq a b ≡ true) ↔ (a ≡ b))
unfolding bytes_eq
bytes_eq_iff [] [] = (λ e. refl, λ e. refl)
bytes_eq_iff [] (b ∷ bs) = (λ e. absurd (cc), λ e. absurd (cc))
bytes_eq_iff (a ∷ as') [] = (λ e. absurd (cc), λ e. absurd (cc))
bytes_eq_iff (a ∷ as') (b ∷ bs) =
    let rest = bytes_eq_iff as' bs in
    elim (Bool-cases (a == b)) [
      | inl same ↦ rw same (
        λ e. let tails : as' ≡ bs = rest.0 e in let heads : a ≡ b = (==_iff a b).0 same in cc,
        λ e. rest.1 (cc),
      )
      | inr other ↦
          rw other
            (λ e. absurd (cc), λ e. absurd (let heads : a ≡ b = cc in ground (arith, other, heads)))
    ]
