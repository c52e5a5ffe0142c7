-- ===== src/StaticFiles/Paths/Tests.antt =====
-- The theorem on the paths of crates/middleware/static_files/src/lib.rs at a concrete path, and the
-- paths of its unit tests. The paths here have no escapes, so decoding leaves them.
use rapira_windows.Common.{◌≡◌, refl, false, true, some, List, [], ◌∷◌, ℕ, All, inl, arith}
use rapira_windows.Common.Bytes.{eq_ignore_ascii_case, trim_end_by}
use rapira_windows.Http.{bytes}
use rapira_windows.StaticFiles.Paths.{forbid_of, is_dot_or_space, has_short_form, eligible}
use rapira_windows.StaticFiles.Paths.Forbidden.{IsInSegment, eligible-forbidden}

abbrev php_only : List (List ℕ)
php_only = bytes ".php" ∷ []

short_form : eligible some (forbid_of php_only) (bytes "/secret~1.css") ≡ false
unfolding eligible has_short_form
short_form = refl

plain_tilde : eligible some (forbid_of php_only) (bytes "/secret~x.css") ≡ true
unfolding eligible has_short_form
plain_tilde = refl

data_stream : eligible some (forbid_of php_only) (bytes "/index.php:source.css") ≡ false
unfolding eligible
data_stream = refl

hidden : eligible some (forbid_of php_only) (bytes "/a/.env") ≡ false
unfolding eligible
hidden = refl

slashes_behind : eligible some (forbid_of php_only) (bytes "/index.php//") ≡ false
unfolding eligible
slashes_behind = refl

same_suffix : eq_ignore_ascii_case (bytes ".PHP") (bytes ".php") ≡ true
unfolding eq_ignore_ascii_case
same_suffix = refl

whole_suffix : trim_end_by is_dot_or_space (bytes ".PHP") ≡ bytes ".PHP"
unfolding trim_end_by
whole_suffix = refl

in_segment : All IsInSegment (bytes "Index.PHP. ")
in_segment = ground arith

eligible-forbidden_example : eligible some (forbid_of php_only) (bytes "/a/Index.PHP. /") ≡ false
eligible-forbidden_example =
    eligible-forbidden some php_only (bytes "/a/Index.PHP. /") (bytes "/a") (bytes "Index")
      (bytes ". ") (bytes "/") (bytes ".php") 46 (bytes "PHP") refl in_segment (refl, tt) (inl refl)
      same_suffix whole_suffix (refl, (refl, tt))
