-- ===== src/Http/Multipart/Advance.antt =====
-- A delimiter line that crates/plugins/http/src/multipart.rs finds lies in the body, and the scan
-- goes on behind it.
use mathlib.Core.Path.{subst}
use rapira_windows.Common.{
  ◌∙◌, ℕ, zero, suc, ◌+◌, ◌≤◌, ◌<◌, ◌≡◌, refl, true, ◌&&◌, Option, none, some, List, [], ◌∷◌, arith,
  length, length-drop, drop, Bool-cases, inl, inr,
}
use rapira_windows.Common.Bytes.{starts_with}
use rapira_windows.Http.{bytes}
use rapira_windows.Http.Multipart.Delimiter.{
  DelimHit, is_at, at_line_start, ends_close, skip_padding, hit_behind, hit_at,
}
use rapira_windows.Http.Multipart.FirstLine.{line_at, first_line}

-- The hit for a delimiter that begins at `i` or later.
pub record Ahead (body delim : List ℕ) (i : ℕ) (hit : DelimHit) : Type 0 where
  pub not_before : i ≤ hit.line_start
  pub behind : hit.line_start + length delim ≤ hit.after
  pub in_body : hit.after ≤ length body

is_at-length : (body : List ℕ) (k c : ℕ) → is_at body k c ≡ true → k < length body
is_at-length [] k c e = absurd (cc)
is_at-length (x ∷ xs) zero c e = omega arith
is_at-length (x ∷ xs) (suc k) c e = omega (arith, is_at-length xs k c e)

starts_with-length : (xs p : List ℕ) → starts_with xs p ≡ true → length p ≤ length xs
unfolding starts_with
starts_with-length xs [] e = omega arith
starts_with-length [] (p ∷ ps) e = absurd (cc)
starts_with-length (x ∷ xs) (p ∷ ps) e = ground (arith, starts_with-length xs ps)

hit_injective : {a b : DelimHit} → some a ≡ some b → a ≡ b
hit_injective e = cc

-- What the tests behind the delimiter answer.
record Behind (body : List ℕ) (i j : ℕ) (hit : DelimHit) : Type 0 where
  same_line : hit.line_start ≡ i
  later : j ≤ hit.after
  in_body : hit.after ≤ length body

le-skip_padding : (body : List ℕ) (j : ℕ) → j ≤ skip_padding body j
unfolding skip_padding
le-skip_padding body j = omega arith

hit_behind-Behind :
    (body : List ℕ) (i j : ℕ) (hit : DelimHit)
    → hit_behind body i j ≡ some hit
    → Behind body i j hit
unfolding hit_behind
hit_behind-Behind body i j hit e =
    elim (Bool-cases
      (starts_with (drop j body) (bytes "--") && ends_close body (skip_padding body (j + 2)))) [
        | inl closes ↦
            let two = starts_with-length (drop j body) (bytes "--") (ground (arith, closes)) in
            subst (Behind body i j) (hit_injective (rw (closes, hit_behind) at e)) (record {
              same_line = refl;
              later = omega arith;
              in_body = omega (arith, two, length-drop j body);
            })
        | inr plain ↦ elim (Bool-cases (is_at body k 10)) [
          | inl lf ↦
              subst (Behind body i j) (hit_injective (rw (plain, lf, hit_behind) at e)) (record {
                same_line = refl;
                later = omega (arith, padded);
                in_body = omega (arith, is_at-length body k 10 lf);
              })
          | inr no_lf ↦ elim (Bool-cases (is_at body k 13 && is_at body (k + 1) 10)) [
            | inl crlf ↦
                subst (Behind body i j) (hit_injective (rw (plain, no_lf, crlf, hit_behind) at e))
                  (record {
                    same_line = refl;
                    later = omega (arith, padded);
                    in_body = omega (arith, is_at-length body (k + 1) 10 (ground (arith, crlf)));
                  })
            | inr none_left ↦
                absurd
                  (let bad : none ≡ some hit = rw (plain, no_lf, none_left, hit_behind) at e in cc)
          ]
        ]
      ]
  where
    k : ℕ
    k = skip_padding body j

    padded : j ≤ k
    padded = le-skip_padding body j

pub first_line-Ahead :
    (n : ℕ) (body delim : List ℕ) (i : ℕ) (hit : DelimHit)
    → first_line n body i delim ≡ some hit
    → Ahead body delim i hit
unfolding first_line line_at hit_at
first_line-Ahead zero body delim i hit e = absurd (cc)
first_line-Ahead (suc n) body delim i hit e =
    go (line_at body delim i) refl (first_line-Ahead n body delim (suc i) hit)
  where
    from_hit : line_at body delim i ≡ some hit → Ahead body delim i hit
    from_hit l = elim (Bool-cases (starts_with (drop i body) delim)) [
      | inr miss ↦ absurd (let bad : none ≡ some hit = rw (miss, line_at) at l in cc)
      | inl at ↦ elim (Bool-cases (at_line_start body i)) [
        | inr inside ↦
            absurd (let bad : none ≡ some hit = rw (at, inside, line_at, hit_at) at l in cc)
        | inl start ↦
            let b =
              hit_behind-Behind body i (i + length delim) hit
                (rw (at, start, line_at, hit_at) at l) in
            record {
              not_before = omega (arith, b.same_line);
              behind = omega (arith, b.same_line, b.later);
              in_body = b.in_body;
            }
      ]
    ]

    go :
        (o : Option DelimHit)
        → line_at body delim i ≡ o
        → (first_line n body (suc i) delim ≡ some hit → Ahead body delim (suc i) hit)
        → Ahead body delim i hit
    go none l rest =
        let a = rest (rw (l, first_line) at e) in
        record { not_before = omega (arith, a.not_before); behind = a.behind; in_body = a.in_body }
    go (some h) l rest =
        let same : some h ≡ some hit = rw (l, first_line) at e in from_hit (l ∙ same)
