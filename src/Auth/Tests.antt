-- ===== src/Auth/Tests.antt =====
-- The theorems on crates/interceptors/auth/src/lib.rs at concrete inputs.
use rapira_windows.Common.{
  ℕ, ◌≡◌, ◌↔◌, ◌⊎◌, refl, true, false, some, List, [], ◌∷◌, ◌++◌, arith, inl, inr,
}
use rapira_windows.Common.Bytes.{starts_with}
use rapira_windows.Auth.{
  codes, health, bearer_token, accepts, passed, intercept_head, parse, tokens, fails, bad_line,
  no_token, lines, strip_bom,
}
use rapira_windows.Auth.Tokens.{Reads, parse-Reads}
use rapira_windows.Auth.Access.{Bearer, bearer_token_iff, Admits, intercept_head_iff}
use rapira_windows.Auth.RoundTrip.{accepts-parse}

abbrev alpha : List ℕ
alpha = codes "alpha"

abbrev beta : List ℕ
beta = codes "beta=="

abbrev loaded_tokens : List (List ℕ)
loaded_tokens = alpha ∷ beta ∷ []

abbrev file_text : List ℕ
file_text = codes "# ci\n\nalpha\n  # rotated\nbeta==\r\n"

parse_file : parse file_text ≡ tokens loaded_tokens
unfolding parse
parse_file = refl

parse_bad : parse (codes "alpha\nnot a token\n") ≡ fails (bad_line 2)
unfolding parse
parse_bad = refl

parse_padding : parse (codes "==\n") ≡ fails (bad_line 1)
unfolding parse
parse_padding = refl

parse_nothing : parse (codes "# nothing yet\n\n") ≡ fails no_token
unfolding parse
parse_nothing = refl

accepts_spaces : accepts loaded_tokens (codes "bearer   alpha" ∷ []) ≡ true
unfolding accepts
accepts_spaces = refl

accepts_two : accepts loaded_tokens (codes "Bearer alpha" ∷ codes "Bearer alpha" ∷ []) ≡ false
unfolding accepts
accepts_two = refl

accepts_prefix : accepts loaded_tokens (codes "Bearer alph" ∷ []) ≡ false
unfolding accepts
accepts_prefix = refl

parse-Reads_example : Reads (lines (strip_bom file_text)) (parse file_text)
parse-Reads_example = parse-Reads file_text

bearer_token_iff_example :
    (bearer_token (codes "bearer  alpha") ≡ some alpha) ↔ Bearer (codes "bearer  alpha") alpha
bearer_token_iff_example = bearer_token_iff (codes "bearer  alpha") alpha

intercept_head_iff_example :
    (intercept_head loaded_tokens (codes "/echo.v1.Echo/Say") (codes "Bearer alpha" ∷ []) ≡ passed)
    ↔ ((starts_with (codes "/echo.v1.Echo/Say") health ≡ true)
        ⊎ Admits loaded_tokens (codes "Bearer alpha" ∷ []))
intercept_head_iff_example =
    intercept_head_iff loaded_tokens (codes "/echo.v1.Echo/Say") (codes "Bearer alpha" ∷ [])
      (ground arith) (ground arith)

accepts-parse_example : accepts loaded_tokens ((codes "Bearer " ++ beta) ∷ []) ≡ true
accepts-parse_example = accepts-parse file_text beta loaded_tokens parse_file (inr (inl refl))
