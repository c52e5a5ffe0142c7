-- ===== src/StaticFiles/Paths.antt =====
-- crates/middleware/static_files/src/lib.rs: which request paths the static files answer.
--
-- A text is the list of its UTF-8 bytes. `decode` is percent_encoding's `percent_decode_str` with
-- `decode_utf8`: the decoded path, or none where it is not UTF-8.
pub mod Forbidden
mod Tests
use rapira_windows.Common.{
  ℕ, Bool, true, false, not, ◌&&◌, ◌||◌, Option, none, some, List, [], ◌∷◌, map, any, ◌==◌,
  if◌then◌else◌,
}
use rapira_windows.Common.Bytes.{
  is_ascii_digit, to_ascii_lowercase, trim_end_by, split_on, bytes_eq,
}

abbrev pub lowercase : List ℕ → List ℕ
lowercase [] = []
lowercase (c ∷ cs) = to_ascii_lowercase c ∷ lowercase cs

unfoldable pub ends_with : List ℕ → List ℕ → Bool
unfolding bytes_eq
ends_with [] suffix = bytes_eq [] suffix
ends_with (c ∷ cs) suffix = let later = ends_with cs suffix in bytes_eq (c ∷ cs) suffix || later

-- A tilde before a digit, as in the short form of a long name.
unfoldable pub has_short_form : List ℕ → Bool
has_short_form [] = false
has_short_form (a ∷ []) = false
has_short_form (a ∷ b ∷ cs) =
    let later = has_short_form (b ∷ cs) in (a == 126 && is_ascii_digit b) || later

abbrev begins_with_dot : List ℕ → Bool
begins_with_dot [] = false
begins_with_dot (c ∷ cs) = c == 46

abbrev pub is_refused_segment : List ℕ → Bool
unfolding has_short_form
is_refused_segment s = begins_with_dot s || has_short_form s

abbrev pub is_alias : ℕ → Bool
is_alias c = c == 92 || c == 58

abbrev pub is_dot_or_space : ℕ → Bool
is_dot_or_space c = c == 46 || c == 32

-- The last segment that is not empty, or the empty text.
unfoldable pub last_filled : List (List ℕ) → List ℕ
last_filled [] = []
last_filled (s ∷ ss) = let later = last_filled ss in elim later [ [] ↦ s | c ∷ cs ↦ c ∷ cs ]

-- The served file's name.
unfoldable pub file_of : List ℕ → List ℕ
unfolding last_filled split_on
file_of decoded = last_filled (split_on 47 decoded)

-- `StaticFiles::new` keeps the suffixes in lower case.
abbrev pub forbid_of : List (List ℕ) → List (List ℕ)
forbid_of [] = []
forbid_of (e ∷ es) = lowercase e ∷ forbid_of es

-- The checks of the decoded path.
unfoldable pub eligible_decoded : List (List ℕ) → List ℕ → Bool
unfolding is_refused_segment split_on file_of trim_end_by ends_with
eligible_decoded forbid decoded =
    if any is_alias decoded
    then false
    else if any is_refused_segment (split_on 47 decoded)
    then false
    else let file = lowercase (trim_end_by is_dot_or_space (file_of decoded)) in
      not (any (ends_with file) forbid)

module _ (decode : List ℕ → Option (List ℕ)) where
  unfoldable pub eligible : List (List ℕ) → List ℕ → Bool
  unfolding eligible_decoded
  eligible forbid path = elim (decode path) [ none ↦ false | some d ↦ eligible_decoded forbid d ]
