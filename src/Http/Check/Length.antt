-- ===== src/Http/Check/Length.antt =====
-- What a value of Content-Length says, and which names are safe: the words of crates/plugins/http/src/check.rs
-- without its loops.
use mathlib.Core.Path.{subst}
use rapira_windows.Common.{
  ℕ, zero, suc, ◌+◌, ◌-◌, ◌*◌, ◌^◌, ◌≡◌, ◌≢◌, ◌<◌, ◌≤◌, ◌⊎◌, ◌↔◌, inl, inr, refl, sym, ap, ◌∙◌,
  true, false, ◌||◌, Option, none, some, List, [], ◌∷◌, All, length, ltb, ltb→lt, ◌==◌, ==_iff,
  Bool-cases, Option-cases, arith,
}
use rapira_windows.Common.Bytes.{is_ascii_digit, is_ascii_alphanumeric}
use rapira_windows.Http.HeaderMap.{HeaderMap}
use rapira_windows.Http.Check.{
  is_safe_field_name, parse_digits, non_empty_digits, parse_u64, declared_length,
}

-- A letter, a digit or `-`.
abbrev pub IsSafeByte : ℕ → Type 0
IsSafeByte b = ((97 ≤ b) × (b ≤ 122)) ⊎ ((65 ≤ b) × (b ≤ 90)) ⊎ ((48 ≤ b) × (b ≤ 57)) ⊎ (b ≡ 45)

safe_byte : (b : ℕ) → ((is_ascii_alphanumeric b || b == b'-') ≡ true) ↔ IsSafeByte b
safe_byte b = ground arith

pub is_safe_field_name_iff :
    (name : List ℕ) → (is_safe_field_name name ≡ true) ↔ All IsSafeByte name
unfolding is_safe_field_name
is_safe_field_name_iff [] = (λ e. tt, λ h. refl)
is_safe_field_name_iff (b ∷ bs) =
    let rest = is_safe_field_name_iff bs in
    let here = safe_byte b in
    (
      λ e. (here.0 (ground (arith, e)), rest.0 (ground (arith, e))),
      λ h. let up = here.1 h.0 in let ups = rest.1 h.1 in rw up ups,
    )

abbrev pub IsDigit : ℕ → Type 0
IsDigit c = (48 ≤ c) × (c ≤ 57)

-- The number that decimal digits write, the first of them being the highest.
abbrev pub decimal : List ℕ → ℕ
decimal [] = 0
decimal (c ∷ cs) = (c - 48) * 10 ^ length cs + decimal cs

pub record Writes (s : List ℕ) (n : ℕ) : Type 0 where
  pub some_digit : 0 < length s
  pub digits : All IsDigit s
  pub value : decimal s ≡ n

-- A text says a number of 64 bits, which may have a sign.
pub data Says : List ℕ → ℕ → Type 0 where
  plain : {s : List ℕ} {n : ℕ} → Writes s n → n < 2 ^ 64 → Says s n
  signed : {s : List ℕ} {n : ℕ} → Writes s n → n < 2 ^ 64 → Says (43 ∷ s) n

digit : (c : ℕ) → (is_ascii_digit c ≡ true) ↔ IsDigit c
digit c = ground arith

shift_lem : (n p d r : ℕ) → (n * 10 + d) * p + r ≡ n * (10 * p) + (d * p + r)
shift_lem n p d r = grind arith

grows : (n p : ℕ) → 0 < p → n ≤ n * p
grows n p h = grind arith

ten_pow : (k : ℕ) → 10 ^ suc k ≡ 10 * 10 ^ k
ten_pow k = omega arith

ten_pow_pos : (k : ℕ) → 0 < 10 ^ k
ten_pow_pos zero = omega arith
ten_pow_pos (suc k) = let h = ten_pow_pos k in let e = ten_pow k in omega arith

-- The first digit is the highest.
first_digit :
    (n c : ℕ) (cs : List ℕ)
    → (n * 10 + (c - 48)) * 10 ^ length cs + decimal cs
      ≡ n * 10 ^ length (c ∷ cs) + decimal (c ∷ cs)
first_digit n c cs =
    shift_lem n (10 ^ length cs) (c - 48) (decimal cs)
    ∙ ap (λ k. n * k + decimal (c ∷ cs)) (sym (ten_pow (length cs)))

too_large :
    (next : ℕ) (cs : List ℕ) (m : ℕ)
    → ltb next (2 ^ 64) ≡ false
    → next * 10 ^ length cs + decimal cs ≡ m
    → ¬ (m < 2 ^ 64)
too_large next cs m big value small =
    let h : 2 ^ 64 ≤ next = ground (arith, big) in
    let up = grows next (10 ^ length cs) (ten_pow_pos (length cs)) in omega arith

pub parse_digits_iff :
    (n : ℕ) (s : List ℕ) (m : ℕ)
    → n < 2 ^ 64
    → (parse_digits n s ≡ some m)
      ↔ (All IsDigit s × (n * 10 ^ length s + decimal s ≡ m) × (m < 2 ^ 64))
unfolding parse_digits
parse_digits_iff n [] m small = (
  λ e. let same : n ≡ m = ground arith in (tt, omega (arith, same), omega (arith, same, small)),
  λ h. ap some (let e = h.1 in omega arith),
)
parse_digits_iff n (c ∷ cs) m small = elim (Bool-cases (is_ascii_digit c)) [
  | inr other ↦
      rw other
        (λ e. absurd (cc), λ h. absurd (let up : is_ascii_digit c ≡ true = (digit c).1 h.0.0 in cc))
  | inl is_digit ↦
      let next = n * 10 + (c - 48) in
      let sum = first_digit n c cs in
      elim (Bool-cases (ltb next (2 ^ 64))) [
        | inr big ↦
            rw (is_digit, big)
              (λ e. absurd (cc), λ h. absurd (too_large next cs m big (sum ∙ h.1) h.2))
        | inl fits ↦
            let rest = parse_digits_iff next cs m (ltb→lt _ _ fits) in
            rw (is_digit, fits)
              (
                λ e.
                    let (ds, value, lt) = rest.0 e in
                    (((digit c).0 is_digit, ds), sym sum ∙ value, lt),
                λ h. rest.1 (h.0.1, sum ∙ h.1, h.2),
              )
      ]
]

non_empty_digits_iff :
    (s : List ℕ) (n : ℕ) → (non_empty_digits s ≡ some n) ↔ (Writes s n × (n < 2 ^ 64))
unfolding non_empty_digits
non_empty_digits_iff [] n =
    (λ e. absurd (cc), λ h. absurd (let none_here = h.0.some_digit in omega arith))
non_empty_digits_iff (c ∷ cs) n =
    let rest = parse_digits_iff 0 (c ∷ cs) n (omega arith) in
    (
      λ e.
          let (ds, v, lt) = rest.0 e in
          (record { some_digit = omega arith; digits = ds; value = omega (arith, v) }, lt),
      λ h. rest.1 (h.0.digits, (let v = h.0.value in omega arith), h.1),
    )

unsigned :
    (c : ℕ) (cs : List ℕ) (n : ℕ) → c ≢ 43 → Says (c ∷ cs) n → Writes (c ∷ cs) n × (n < 2 ^ 64)
unsigned c cs n d (plain w lt) = (w, lt)
unsigned _ cs n d (signed w lt) = absurd (d refl)

after_sign : (c : ℕ) (cs : List ℕ) (n : ℕ) → c ≡ 43 → Says (c ∷ cs) n → Writes cs n × (n < 2 ^ 64)
after_sign c cs n e (plain w lt) = absurd (let d = w.digits.0 in omega arith)
after_sign _ cs n e (signed w lt) = (w, lt)

pub parse_u64_iff : (s : List ℕ) (n : ℕ) → (parse_u64 s ≡ some n) ↔ Says s n
unfolding parse_u64 non_empty_digits
parse_u64_iff [] n = (λ e. absurd (cc), λ h. absurd (none_said n h))
  where
    none_said : (n : ℕ) → Says [] n → ⊥
    none_said n (plain w lt) = absurd (let h = w.some_digit in omega arith)
parse_u64_iff (c ∷ cs) n = elim (Bool-cases (c == b'+')) [
  | inl sign ↦
      let e : c ≡ 43 = (==_iff c 43).0 sign in
      let rest = non_empty_digits_iff cs n in
      rw sign (
        λ p. subst (λ x. Says (x ∷ cs) n) (sym e) (signed (rest.0 p).0 (rest.0 p).1),
        λ h. rest.1 (after_sign c cs n e h),
      )
  | inr digit_first ↦
      let d : c ≢ 43 = λ e. absurd (let up : (c == 43) ≡ true = (==_iff c 43).1 e in cc) in
      let rest = non_empty_digits_iff (c ∷ cs) n in
      rw digit_first (λ p. plain (rest.0 p).0 (rest.0 p).1, λ h. rest.1 (unsigned c cs n d h))
]

module _ (header : HeaderMap) (to_str : List ℕ → Option (List ℕ)) where
  -- The first value is a text that says `n`.
  abbrev pub Declares : List (List ℕ) → ℕ → Type 0
  Declares [] n = ⊥
  Declares (v ∷ more) n = (s : List ℕ) × (to_str v ≡ some s) × Says s n

  pub declared_length_iff :
      (vs : List (List ℕ)) (n : ℕ) → (declared_length header to_str vs ≡ some n) ↔ Declares vs n
  unfolding declared_length
  declared_length_iff [] n = (λ e. absurd (cc), λ h. absurd h)
  declared_length_iff (v ∷ more) n = elim (Option-cases (to_str v)) [
    | inl unreadable ↦
        rw (unreadable, declared_length)
          (λ e. absurd (cc), λ h. absurd (let bad : none ≡ some h.0 = h.1 in cc))
    | inr (s, e) ↦
        rw (e, declared_length)
          (
            λ p. (s, refl, (parse_u64_iff s n).0 p),
            λ h.
                (parse_u64_iff s n).1 (
                  subst (λ x. Says x n) (let same : s ≡ h.0 = ground (arith, h.1) in sym same) h.2),
          )
  ]
