-- ===== src/Http/Multipart/Boundary.antt =====
-- crates/plugins/http/src/multipart.rs: `is_multipart` and `boundary`.
use rapira_windows.Common.{ℕ, ◌+◌, Bool, true, false, none, some, List, [], ◌∷◌, take, drop, ◌==◌}
use rapira_windows.Common.Bytes.{eq_ignore_ascii_case, trim_by, split_on}
use rapira_windows.Http.{bytes, Result, ok, err}
use rapira_windows.Http.Memchr.{Memchr}
use rapira_windows.Http.Multipart.{bad, trim_ascii}

abbrev first_segment : List (List ℕ) → List ℕ
first_segment [] = []
first_segment (s ∷ ss) = s

unfoldable pub is_multipart : List ℕ → Bool
unfolding split_on eq_ignore_ascii_case trim_by
is_multipart content_type =
    eq_ignore_ascii_case (trim_ascii (first_segment (split_on 59 content_type)))
      (bytes "multipart/form-data")

abbrev non_empty : List ℕ → Result (List ℕ)
non_empty [] = err (bad "empty boundary parameter")
non_empty (b ∷ bs) = ok (b ∷ bs)

module _ (m : Memchr) where
  -- The value of the parameter, trimmed.
  unfoldable pub boundary_value : List ℕ → Result (List ℕ)
  unfolding trim_by
  boundary_value [] = non_empty []
  boundary_value (b ∷ inner) = elim (b == 34) [
    | true ↦ elim (m.memchr 34 inner) [
      | some end ↦ non_empty (take end inner)
      | none ↦ err (bad "unterminated quoted boundary parameter")
    ]
    | false ↦ elim (m.memchr 44 (b ∷ inner)) [
      | some end ↦ non_empty (trim_ascii (take end (b ∷ inner)))
      | none ↦ non_empty (b ∷ inner)
    ]
  ]

  unfoldable pub boundary_in : List (List ℕ) → Result (List ℕ)
  unfolding boundary_value eq_ignore_ascii_case trim_by
  boundary_in [] = err (bad "multipart/form-data without a boundary parameter")
  boundary_in (seg ∷ segs) = elim (m.memchr 61 seg) [
    | none ↦ boundary_in segs
    | some eq ↦ elim (eq_ignore_ascii_case (trim_ascii (take eq seg)) (bytes "boundary")) [
      | true ↦ boundary_value (trim_ascii (drop (eq + 1) seg))
      | false ↦ boundary_in segs
    ]
  ]

  unfoldable pub boundary : List ℕ → Result (List ℕ)
  unfolding boundary_in split_on
  boundary content_type = boundary_in (drop 1 (split_on 59 content_type))
