-- ===== src/Auth/RoundTrip.antt =====
-- The tokens that crates/interceptors/auth/src/lib.rs loads are tokens that it accepts.
use rapira_windows.Common.{
  ℕ, ◌<◌, ◌≡◌, ◌≢◌, refl, true, List, [], ◌∷◌, ◌++◌, arith, All, All-In, All-append, In, all, ◌==◌,
}
use rapira_windows.Common.Bytes.{trim_end_by, eq_ignore_ascii_case}
use mathlib.Core.Path.{subst}
use rapira_windows.Auth.{
  codes, is_b64_char, is_b64token, Parsed, tokens, parse, lines, strip_bom, accepts,
}
use rapira_windows.Auth.Tokens.{IsToken, Reads, loaded, nothing, rejects, parse-Reads}
use rapira_windows.Auth.Compare.{IsByte}
use rapira_windows.Auth.Access.{StartsBare, admits, accepts_complete}

-- A character that a token can hold.
abbrev TokenChar : ℕ → Type 0
TokenChar c = (c < 128) × (c ≢ 32)

b64-TokenChar : (c : ℕ) → is_b64_char c ≡ true → TokenChar c
b64-TokenChar c h = (ground arith, λ e. ground arith)

trimmed-TokenChar :
    (cs : List ℕ) → all is_b64_char (trim_end_by (λ c. c == b'=') cs) ≡ true → All TokenChar cs
unfolding trim_end_by
trimmed-TokenChar [] h = tt
trimmed-TokenChar (c ∷ cs) h = ground (arith, trimmed-TokenChar cs, b64-TokenChar c)

b64token-TokenChar : (t : List ℕ) → is_b64token t ≡ true → All TokenChar t
unfolding is_b64token
b64token-TokenChar t h = trimmed-TokenChar t (ground arith)

chars-IsByte : (t : List ℕ) → All TokenChar t → All IsByte t
chars-IsByte [] h = tt
chars-IsByte (c ∷ cs) h = (omega (arith, h.0.0), chars-IsByte cs h.1)

chars-StartsBare : (t : List ℕ) → All TokenChar t → StartsBare t
chars-StartsBare [] h = tt
chars-StartsBare (c ∷ cs) h = h.0.1

tokens-IsByte : (ts : List (List ℕ)) → All IsToken ts → All (All IsByte) ts
tokens-IsByte [] h = tt
tokens-IsByte (t ∷ ts) h = (chars-IsByte t (b64token-TokenChar t h.0), tokens-IsByte ts h.1)

In-IsToken : (t : List ℕ) (ts : List (List ℕ)) → All IsToken ts → In t ts → IsToken t
In-IsToken t ts h m = All-In IsToken t ts h m

parsed_tokens :
    (ls : List (List ℕ)) (r : Parsed) (ts : List (List ℕ))
    → Reads ls r
    → r ≡ tokens ts
    → All IsToken ts
parsed_tokens ls r ts (loaded t rest e a) same =
    let eq : (t ∷ rest) ≡ ts = cc in subst (All IsToken) eq a
parsed_tokens ls r ts (nothing e) same = absurd (cc)
parsed_tokens ls r ts (rejects k b) same = absurd (cc)

-- A call that sends one Authorization value, the word Bearer, a space and a token, is accepted for
-- every token that `parse` read from the tokens file.
pub accepts-parse :
    (text t : List ℕ) (ts : List (List ℕ))
    → parse text ≡ tokens ts
    → In t ts
    → accepts ts ((codes "Bearer " ++ t) ∷ []) ≡ true
unfolding eq_ignore_ascii_case
accepts-parse text t ts e m =
    let ok = parsed_tokens (lines (strip_bom text)) (parse text) ts (parse-Reads text) e in
    let chars = b64token-TokenChar t (In-IsToken t ts ok m) in
    let whole : All IsByte (codes "Bearer " ++ t) =
      All-append IsByte (codes "Bearer ") t (ground arith) (chars-IsByte t chars) in
    accepts_complete
      (admits (codes "Bearer " ++ t) t
        (record {
          scheme = codes "Bearer";
          spaces = 1;
          split = refl;
          six = refl;
          named = refl;
          spaced = ground arith;
          bare = chars-StartsBare t chars;
        })
        m)
      (tokens-IsByte ts ok) (whole, tt)
