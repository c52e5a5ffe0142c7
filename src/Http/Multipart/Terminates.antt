-- ===== src/Http/Multipart/Terminates.antt =====
-- The loop of `disposition_params` in crates/plugins/http/src/multipart.rs comes to an end: a round
-- takes at least a byte, so the length of the value is fuel enough.
use mathlib.Core.Path.{subst}
use rapira_windows.Common.{
  ℕ, zero, suc, ◌+◌, ◌≤◌, ◌<◌, ◌≡◌, refl, Option, none, some, List, [], ◌∷◌, arith, length,
  length-drop, take, drop, Bool-cases, Option-cases, inl, inr, ◌==◌,
}
use rapira_windows.Http.{Result, ok, err}
use rapira_windows.Http.Memchr.{Memchr, FoundByte, byte_at, memchr-FoundByte}
use rapira_windows.Http.Multipart.{trim_ascii}
use rapira_windows.Http.Multipart.Delimiter.{count_padding}
use rapira_windows.Http.Multipart.FirstLine.{get-length}
use rapira_windows.Http.Multipart.Disposition.{
  Disposition, Value, quoted, push, is_escaped, unquoted_to, unquoted, behind_padding, read_value,
  store_param, behind_semicolon, params_from, disposition_params,
}

-- The loops answered.
pub data Answered {A : Type 0} : Option A → Type 0 where
  answered : (a : A) → Answered (some a)

value_injective : {v w : Value} → some v ≡ some w → v ≡ w
value_injective e = cc

push-le :
    (b n : ℕ) (o : Option Value) (v : Value)
    → ((w : Value) → o ≡ some w → length w.next ≤ n)
    → push b o ≡ some v
    → length v.next ≤ n
push-le b n none v h e = absurd (cc)
push-le b n (some w) v h e = subst (λ (x : Value). length x.next ≤ n) (value_injective e) (h w refl)

-- What is left behind a quoted value is no longer than the text.
quoted-le : (v : List ℕ) (w : Value) → quoted v ≡ some w → length w.next ≤ length v
unfolding quoted
quoted-le [] w e = absurd (cc)
quoted-le (b ∷ []) w e = elim (Bool-cases (b == 34)) [
  | inl quote ↦
      subst (λ (x : Value). length x.next ≤ 1) (value_injective (rw (quote, quoted) at e))
        (omega arith)
  | inr other ↦ absurd (let bad : none ≡ some w = rw (other, quoted) at e in cc)
]
quoted-le (b ∷ c ∷ rest) w e =
    let skip = quoted-le rest in
    let keep = quoted-le (c ∷ rest) in
    elim (Bool-cases (b == 34)) [
      | inl quote ↦
          subst (λ (x : Value). length x.next ≤ suc (suc (length rest)))
            (value_injective (rw (quote, quoted) at e)) (omega arith)
      | inr other ↦ elim (Bool-cases (is_escaped b c)) [
        | inl escaped ↦
            push-le c (suc (suc (length rest))) (quoted rest) w (λ x s. omega (arith, skip x s))
              (rw (other, escaped, quoted) at e)
        | inr plain ↦
            push-le b (suc (suc (length rest))) (quoted (c ∷ rest)) w
              (λ x s. omega (arith, keep x s)) (rw (other, plain, quoted) at e)
      ]
    ]

unquoted_to-le : (v : List ℕ) (o : Option ℕ) → length (unquoted_to v o).next ≤ length v
unquoted_to-le v none = omega arith
unquoted_to-le v (some end) = omega (arith, length-drop end v)

module _ (m : Memchr) where
  unquoted-le : (v : List ℕ) → length (unquoted m v).next ≤ length v
  unquoted-le v = unquoted_to-le v (m.memchr 59 v)

  ok_injective : {v w : Value} → ok v ≡ ok w → v ≡ w
  ok_injective e = cc

  read_value-le : (v : List ℕ) (w : Value) → read_value m v ≡ ok w → length w.next ≤ length v
  unfolding read_value
  read_value-le [] w e = subst (λ (x : Value). length x.next ≤ 0) (ok_injective e) (unquoted-le [])
  read_value-le (b ∷ rest) w e = elim (Bool-cases (b == 34)) [
    | inl quote ↦ elim (Option-cases (quoted rest)) [
      | inl open_end ↦ absurd (let bad : _ ≡ ok w = rw (quote, open_end, read_value) at e in cc)
      | inr (x, found) ↦
          let same : ok x ≡ ok w = rw (quote, found, read_value) at e in
          let le : length x.next ≤ length rest = quoted-le rest x found in
          subst (λ (x : Value). length x.next ≤ suc (length rest)) (ok_injective same)
            (omega (arith, le))
    ]
    | inr other ↦
        subst (λ (x : Value). length x.next ≤ suc (length rest))
          (ok_injective (rw (other, read_value) at e)) (unquoted-le (b ∷ rest))
  ]

  behind_semicolon-le : (v : List ℕ) → length (behind_semicolon m v) ≤ length v
  unfolding behind_semicolon
  behind_semicolon-le v = go (m.memchr 59 v)
    where
      go : (o : Option ℕ) → length (elim o [ some k ↦ drop (k + 1) v | none ↦ [] ]) ≤ length v
      go none = omega arith
      go (some k) = omega (arith, length-drop (k + 1) v)

  behind_padding-le : (v : List ℕ) → length (behind_padding m v) ≤ length v
  behind_padding-le v = omega (arith, length-drop (count_padding v) v)

  params_from-Answered :
      (n : ℕ) (v : List ℕ) (d : Disposition) → length v < n → Answered (params_from m n v d)
  unfolding params_from
  params_from-Answered zero v d lt = absurd (omega (arith, lt))
  params_from-Answered (suc n) [] d lt = answered (ok d)
  params_from-Answered (suc n) (b ∷ rest) d lt =
      go (m.memchr 61 v) (memchr-FoundByte m 61 v) (params_from-Answered n)
    where
      v : List ℕ
      v = b ∷ rest

      Rounds : Type 0
      Rounds = (u : List ℕ) (d : Disposition) → length u < n → Answered (params_from m n u d)

      stored :
          (r : Result Disposition) (value : Value)
          → length value.next < length v
          → Rounds
          → Answered (elim r [
            | err e ↦ some (err e)
            | ok d' ↦ params_from m n (behind_semicolon m value.next) d'
          ])
      stored (err e) value le next = answered (err e)
      stored (ok d') value le next =
          next (behind_semicolon m value.next) d'
            (omega (arith, lt, le, behind_semicolon-le value.next))

      go :
          (o : Option ℕ)
          → FoundByte 61 v o
          → Rounds
          → Answered (elim o [
            | none ↦ some (ok d)
            | some eq ↦ elim (read_value m (behind_padding m (drop (eq + 1) v))) [
              | err e ↦ some (err e)
              | ok value ↦ elim (store_param (trim_ascii (take eq v)) value.val d) [
                | err e ↦ some (err e)
                | ok d' ↦ params_from m n (behind_semicolon m value.next) d'
              ]
            ]
          ])
      go none f next = answered (ok d)
      go (some eq) (byte_at _ at before) next = read (read_value m u) refl
        where
          u : List ℕ
          u = behind_padding m (drop (eq + 1) v)

          read :
              (r : Result Value)
              → read_value m u ≡ r
              → Answered (elim r [
                | err e ↦ some (err e)
                | ok value ↦ elim (store_param (trim_ascii (take eq v)) value.val d) [
                  | err e ↦ some (err e)
                  | ok d' ↦ params_from m n (behind_semicolon m value.next) d'
                ]
              ])
          read (err e) same = answered (err e)
          read (ok value) same =
              stored (store_param (trim_ascii (take eq v)) value.val d) value
                (omega (
                  arith,
                  read_value-le u value same,
                  behind_padding-le (drop (eq + 1) v),
                  length-drop (eq + 1) v,
                  get-length v eq 61 at,
                ))
                next

  pub disposition_params-Answered : (v : List ℕ) → Answered (disposition_params m v)
  unfolding disposition_params
  disposition_params-Answered v =
      params_from-Answered (suc (length v)) (behind_semicolon m v)
        (record { name = none; filename = none }) (omega (arith, behind_semicolon-le v))
