-- ===== src/Auth/Tokens.antt =====
-- The tokens file of crates/interceptors/auth/src/lib.rs.
use rapira_windows.Common.{
  ℕ, suc, ◌+◌, ◌≡◌, refl, sym, ◌∙◌, ap, Bool, true, false, ◌||◌, List, [], ◌∷◌, ◌++◌, arith, All,
  if◌then◌else◌, Bool-cases, ◌⊎◌, inl, inr,
}
use mathlib.Core.Path.{subst}
use mathlib.Core.List.{append_assoc, append-nil}
use rapira_windows.Common.Bytes.{trim_by}
use rapira_windows.Auth.{
  is_whitespace, lines, is_b64token, bad_line, no_token, Parsed, tokens, fails, is_empty,
  is_comment, parse_lines, strip_bom, require_some, parse,
}

abbrev pub IsToken : List ℕ → Type 0
IsToken t = is_b64token t ≡ true

-- A line that holds no token: blank, or a comment.
abbrev pub is_skipped : List ℕ → Bool
is_skipped raw = is_empty (trim_by is_whitespace raw) || is_comment (trim_by is_whitespace raw)

-- The trimmed lines that are neither blank nor a comment, in order.
abbrev pub entries : List (List ℕ) → List (List ℕ)
entries [] = []
entries (raw ∷ rest) =
    if is_skipped raw then entries rest else trim_by is_whitespace raw ∷ entries rest

-- The first entry that is no token, with the number of its line from 0.
pub data FirstBad : List (List ℕ) → ℕ → Type 0 where
  here :
      {raw : List ℕ} {rest : List (List ℕ)}
      → is_skipped raw ≡ false
      → is_b64token (trim_by is_whitespace raw) ≡ false
      → FirstBad (raw ∷ rest) 0
  later :
      {raw : List ℕ} {rest : List (List ℕ)} {k : ℕ}
      → (is_skipped raw ≡ true) ⊎ IsToken (trim_by is_whitespace raw)
      → FirstBad rest k
      → FirstBad (raw ∷ rest) (suc k)

-- What `parse_lines` answers, by the lines alone.
pub data ReadsLines (i : ℕ) (ls found : List (List ℕ)) : Parsed → Type 0 where
  all_tokens : All IsToken (entries ls) → ReadsLines i ls found (tokens (found ++ entries ls))
  one_bad : (k n : ℕ) → FirstBad ls k → n ≡ i + k + 1 → ReadsLines i ls found (fails (bad_line n))

entries_skip :
    (raw : List ℕ) (rest : List (List ℕ))
    → is_skipped raw ≡ true
    → entries (raw ∷ rest) ≡ entries rest
entries_skip raw rest s = rw s refl

entries_keep :
    (raw : List ℕ) (rest : List (List ℕ))
    → is_skipped raw ≡ false
    → entries (raw ∷ rest) ≡ trim_by is_whitespace raw ∷ entries rest
entries_keep raw rest s = rw s refl

skip_line :
    (i : ℕ) (raw : List ℕ) (rest found : List (List ℕ)) (r : Parsed)
    → is_skipped raw ≡ true
    → ReadsLines (i + 1) rest found r
    → ReadsLines i (raw ∷ rest) found r
skip_line i raw rest found r s (all_tokens a) =
    let e = entries_skip raw rest s in
    subst (λ es. ReadsLines i (raw ∷ rest) found (tokens (found ++ es))) e
      (all_tokens (subst (All IsToken) (sym e) a))
skip_line i raw rest found r s (one_bad k n b e) = one_bad (suc k) n (later (inl s) b) (omega arith)

keep_line :
    (i : ℕ) (raw : List ℕ) (rest found : List (List ℕ)) (r : Parsed)
    → is_skipped raw ≡ false
    → IsToken (trim_by is_whitespace raw)
    → ReadsLines (i + 1) rest (found ++ trim_by is_whitespace raw ∷ []) r
    → ReadsLines i (raw ∷ rest) found r
keep_line i raw rest found r s g (all_tokens a) =
    let e = entries_keep raw rest s in
    subst (λ es. ReadsLines i (raw ∷ rest) found (tokens es))
      (ap (◌++◌ found) e ∙ sym (append_assoc found (trim_by is_whitespace raw ∷ []) (entries rest)))
      (all_tokens (subst (All IsToken) (sym e) (g, a)))
keep_line i raw rest found r s g (one_bad k n b e) =
    one_bad (suc k) n (later (inr g) b) (omega arith)

reads_lines : (i : ℕ) (ls found : List (List ℕ)) → ReadsLines i ls found (parse_lines i ls found)
unfolding parse_lines
reads_lines i [] found =
    subst (λ f. ReadsLines i [] found (tokens f)) (append-nil found) (all_tokens tt)
reads_lines i (raw ∷ rest) found = elim (Bool-cases (is_skipped raw)) [
  | inl skip ↦ rw skip (skip_line i raw rest found _ skip (reads_lines (i + 1) rest found))
  | inr keep ↦ elim (Bool-cases (is_b64token (trim_by is_whitespace raw))) [
    | inl good ↦ rw keep (
        rw good (
          keep_line i raw rest found _ keep good
            (reads_lines (i + 1) rest (found ++ trim_by is_whitespace raw ∷ []))))
    | inr bad ↦ rw keep (rw bad (one_bad 0 (i + 1) (here keep bad) (omega arith)))
  ]
]

-- What `parse` answers.
pub data Reads (ls : List (List ℕ)) : Parsed → Type 0 where
  loaded :
      (t : List ℕ) (ts : List (List ℕ))
      → entries ls ≡ t ∷ ts
      → All IsToken (t ∷ ts)
      → Reads ls (tokens (t ∷ ts))
  nothing : entries ls ≡ [] → Reads ls (fails no_token)
  rejects : (k : ℕ) → FirstBad ls k → Reads ls (fails (bad_line (k + 1)))

-- `parse` answers in one of three ways, by the lines of the text behind an optional byte order mark:
-- the trimmed lines that are neither blank nor comments, in order, where there is one and each is a
-- b64token; that the file has no token, where there is none; and otherwise the number, from 1, of
-- the first of these lines that is no b64token.
pub parse-Reads : (text : List ℕ) → Reads (lines (strip_bom text)) (parse text)
unfolding parse
parse-Reads text = go (lines (strip_bom text)) _ (reads_lines 0 (lines (strip_bom text)) [])
  where
    found :
        (ls es : List (List ℕ))
        → entries ls ≡ es
        → All IsToken es
        → Reads ls (require_some (tokens es))
    found ls [] e a = nothing e
    found ls (t ∷ ts) e a = loaded t ts e a

    go : (ls : List (List ℕ)) (r : Parsed) → ReadsLines 0 ls [] r → Reads ls (require_some r)
    go ls r (all_tokens a) = found ls (entries ls) refl a
    go ls r (one_bad k n b e) = let same : n ≡ k + 1 = omega arith in rw same (rejects k b)
