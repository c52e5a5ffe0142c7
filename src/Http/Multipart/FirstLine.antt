-- ===== src/Http/Multipart/FirstLine.antt =====
-- The first delimiter line of crates/plugins/http/src/multipart.rs, by a scan that tests every place.
use mathlib.Core.Path.{subst}
use native.Mathlib.Nat.{zero-add}
use native.Mathlib.Numerals.{unary_clauses}
use rapira_windows.Common.{
  ℕ, zero, suc, ◌+◌, ◌-◌, ◌<◌, ◌≡◌, ◌≢◌, refl, sym, ◌∙◌, ap, true, false, Option, none, some, List,
  [], ◌∷◌, arith, length, drop, get_elem?, if◌then◌else◌, Bool-cases, inl, inr, ◌==◌, ==_iff, ltb,
  ltb→lt,
}
use rapira_windows.Common.Bytes.{starts_with}
use rapira_windows.Http.Multipart.Delimiter.{DelimHit, at_line_start, is_at, hit_at}

-- The delimiter line that begins at a place.
unfoldable pub line_at : List ℕ → List ℕ → ℕ → Option DelimHit
line_at body delim i =
    if starts_with (drop i body) delim then hit_at body (length delim) i else none

-- The first delimiter line among `n` places from `i` on, tested one by one.
unfoldable pub first_line : ℕ → List ℕ → ℕ → List ℕ → Option DelimHit
unfolding line_at
first_line zero body i delim = none
first_line (suc n) body i delim = elim (line_at body delim i) [
  | some hit ↦ some hit
  | none ↦ first_line n body (suc i) delim
]

suc-add : (i j : ℕ) → suc (i + j) ≡ suc i + j
suc-add i j = omega arith

pub drop-drop : (i j : ℕ) (xs : List ℕ) → drop j (drop i xs) ≡ drop (i + j) xs
drop-drop zero j xs = ap (λ k. drop k xs) (omega arith)
drop-drop (suc i) zero [] = simp unary_clauses refl
drop-drop (suc i) (suc j) [] = simp unary_clauses refl
drop-drop (suc i) j (x ∷ xs) = drop-drop i j xs ∙ ap (λ k. drop k (x ∷ xs)) (suc-add i j)

pub get-drop : (i j : ℕ) (xs : List ℕ) → get_elem? (drop i xs) j ≡ get_elem? xs (i + j)
get-drop zero j xs = ap (get_elem? xs) (omega arith)
get-drop (suc i) j [] = refl
get-drop (suc i) j (x ∷ xs) = get-drop i j xs ∙ ap (get_elem? (x ∷ xs)) (suc-add i j)

pub get-length : (xs : List ℕ) (i c : ℕ) → get_elem? xs i ≡ some c → i < length xs
get-length [] i c e = absurd (cc)
get-length (x ∷ xs) zero c e = omega arith
get-length (x ∷ xs) (suc i) c e = omega (arith, get-length xs i c e)

pub starts_with-drop-length :
    (o : ℕ) (xs delim : List ℕ)
    → 0 < length delim
    → starts_with (drop o xs) delim ≡ true
    → o < length xs
unfolding starts_with
starts_with-drop-length zero [] [] p e = absurd (omega (arith, p))
starts_with-drop-length zero [] (d ∷ ds) p e = absurd (cc)
starts_with-drop-length zero (x ∷ xs) delim p e = omega arith
starts_with-drop-length (suc o) [] [] p e = absurd (omega (arith, p))
starts_with-drop-length (suc o) [] (d ∷ ds) p e = absurd (cc)
starts_with-drop-length (suc o) (x ∷ xs) delim p e =
    omega (arith, starts_with-drop-length o xs delim p e)

at_line_start-suc : (body : List ℕ) (k : ℕ) → at_line_start body (suc k) ≡ is_at body k 10
at_line_start-suc body k =
    let test : (suc k == 0) ≡ false = ground arith in
    let index : suc k - 1 ≡ k = omega arith in rw (test, index) refl

module _ (body delim : List ℕ) where
  pub pass :
      (k n i : ℕ)
      → ((j : ℕ) → j < k → line_at body delim (i + j) ≡ none)
      → first_line (k + n) body i delim ≡ first_line n body (i + k) delim
  unfolding first_line
  pass zero n i h = rw (zero-add n) (ap (λ x. first_line n body x delim) (omega arith))
  pass (suc k) n i h =
      let here : line_at body delim i ≡ none =
        subst (λ x. line_at body delim x ≡ none) (omega arith) (h 0 (omega arith)) in
      let rest = pass k n (suc i) λ j lt.
        subst (λ x. line_at body delim x ≡ none) (omega arith) (h (suc j) (omega (arith, lt))) in
      let step : first_line (suc (k + n)) body i delim ≡ first_line n body (i + suc k) delim =
        rw (here, first_line) (rest ∙ ap (λ x. first_line n body x delim) (omega arith)) in
      subst (λ x. first_line x body i delim ≡ first_line n body (i + suc k) delim) (suc-add k n)
        step

  pub missed :
      (i j : ℕ)
      → starts_with (drop j (drop i body)) delim ≡ false
      → line_at body delim (i + j) ≡ none
  unfolding line_at
  missed i j e =
      let miss : starts_with (drop (i + j) body) delim ≡ false =
        ap (λ xs. starts_with xs delim) (sym (drop-drop i j body)) ∙ e in
      rw miss refl

  -- Behind a byte that ends no line.
  pub inside :
      (i j : ℕ) → get_elem? (drop i body) j ≢ some 10 → line_at body delim (suc (i + j)) ≡ none
  unfolding line_at hit_at
  inside i j d =
      let start : at_line_start body (suc (i + j)) ≡ false =
        at_line_start-suc body (i + j) ∙ not_newline (get_elem? body (i + j)) (get-drop i j body) in
      elim (Bool-cases (starts_with (drop (suc (i + j)) body) delim)) [
        | inl e ↦ rw e (rw start refl)
        | inr e ↦ rw e refl
      ]
    where
      not_newline :
          (o : Option ℕ)
          → get_elem? (drop i body) j ≡ o
          → elim o [ none ↦ false | some b ↦ b == 10 ] ≡ false
      not_newline none e = refl
      not_newline (some c) e = elim (Bool-cases (c == 10)) [
        | inl newline ↦ absurd (d (e ∙ ap some ((==_iff c 10).0 newline)))
        | inr other ↦ other
      ]

  pub refused : (i : ℕ) → hit_at body (length delim) i ≡ none → line_at body delim i ≡ none
  unfolding line_at
  refused i e = elim (Bool-cases (starts_with (drop i body) delim)) [
    | inl at ↦ rw at e
    | inr miss ↦ rw miss refl
  ]

  pub none_before :
      (k i : ℕ)
      → ((j : ℕ) → j < k → line_at body delim (i + j) ≡ none)
      → first_line k body i delim ≡ none
  unfolding first_line
  none_before k i h = subst (λ x. first_line x body i delim ≡ none) (omega arith) (pass k 0 i h)

  -- A line at a place is the first line, if none begins before.
  pub line_after :
      (k l i : ℕ) (hit : DelimHit)
      → k < l
      → ((j : ℕ) → j < k → line_at body delim (i + j) ≡ none)
      → line_at body delim (i + k) ≡ some hit
      → first_line l body i delim ≡ some hit
  unfolding first_line
  line_after k l i hit lt h e =
      let found : first_line (suc (l - suc k)) body (i + k) delim ≡ some hit =
        rw (e, first_line) refl in
      subst (λ x. first_line x body i delim ≡ some hit) (omega (arith, lt))
        (pass k (suc (l - suc k)) i h ∙ found)

  -- The places up to a match that was refused and on to the end of its line hold no delimiter line.
  pub none_on_line :
      (from o k : ℕ)
      → ((j : ℕ) → j < o → starts_with (drop j (drop from body)) delim ≡ false)
      → hit_at body (length delim) (o + from) ≡ none
      → ((j : ℕ) → j < k → get_elem? (drop (o + from) body) j ≢ some 10)
      → (j : ℕ) → j < o + suc k
      → line_at body delim (from + j) ≡ none
  none_on_line from o k before none_here line j lt = elim (Bool-cases (ltb j o)) [
    | inl early ↦ missed from j (before j (ltb→lt j o early))
    | inr late ↦ elim (Bool-cases (j == o)) [
      | inl same ↦
          subst (λ x. line_at body delim x ≡ none) (ground (arith, same))
            (refused (o + from) none_here)
      | inr after ↦
          let q = j - suc o in
          subst (λ x. line_at body delim x ≡ none) (ground (arith, late, after))
            (inside (o + from) q (line q (ground (arith, late, after, lt))))
    ]
  ]

  pub matched :
      (i o : ℕ) (hit : DelimHit)
      → starts_with (drop o (drop i body)) delim ≡ true
      → hit_at body (length delim) (o + i) ≡ some hit
      → line_at body delim (i + o) ≡ some hit
  unfolding line_at
  matched i o hit at accept =
      let here : starts_with (drop (i + o) body) delim ≡ true =
        ap (λ xs. starts_with xs delim) (sym (drop-drop i o body)) ∙ at in
      rw here (ap (hit_at body (length delim)) (omega arith) ∙ accept)
