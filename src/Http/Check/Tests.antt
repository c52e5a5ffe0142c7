-- ===== src/Http/Check/Tests.antt =====
-- The theorem on crates/plugins/http/src/check.rs at concrete requests.
use rapira_windows.Common.{ℕ, ◌≡◌, refl, true, none, some, List, [], ◌∷◌}
use rapira_windows.Http.{bytes, ok}
use rapira_windows.Http.FieldList.{Field, values, names, without, field_list}
use rapira_windows.Http.Check.{check_request, parse_u64}
use rapira_windows.Http.Check.Decides.{Checked, check_request-Checked}

abbrev field : List ℕ → List ℕ → Field
field n v = record { name = n; value = v }

abbrev posted : List Field
posted =
    field (bytes "host") (bytes "a.test")
    ∷ field (bytes "x_forwarded_for") (bytes "1.2.3.4")
    ∷ field (bytes "content-length") (bytes "12")
    ∷ []

admits_small : check_request field_list some posted true true 12 ≡ (
  ok (some (bytes "a.test")),
  field (bytes "host") (bytes "a.test") ∷ field (bytes "content-length") (bytes "12") ∷ [],
)
unfolding check_request values names without
admits_small = refl

parse_overflow : parse_u64 (bytes "18446744073709551616") ≡ none
unfolding parse_u64
parse_overflow = refl

parse_plus : parse_u64 (bytes "+18446744073709551615") ≡ some 18446744073709551615
unfolding parse_u64
parse_plus = refl

check_request-Checked_example :
    Checked field_list some posted true true 11 (check_request field_list some posted true true 11)
check_request-Checked_example = check_request-Checked field_list some posted true true 11
