-- ===== src/Http/Check.antt =====
-- crates/plugins/http/src/check.rs: the checks before a request reaches PHP.
--
-- Of the request's parts a check reads and changes the header map; `http11` says whether the version is
-- HTTP/1.1, and `to_str` is `HeaderValue::to_str`.
pub mod Length
pub mod Decides
mod Tests
use Prim.Native.String.{String}
use rapira_windows.Common.{
  ℕ, ◌+◌, ◌-◌, ◌*◌, ◌^◌, Bool, true, false, not, ◌||◌, Option, none, some, List, [], ◌∷◌, all, ltb,
  leb, ◌==◌, if◌then◌else◌,
}
use rapira_windows.Common.Bytes.{is_ascii_alphanumeric, is_ascii_digit}
use rapira_windows.Http.{bytes, Rejection, Result, ok, err}
use rapira_windows.Http.HeaderMap.{HeaderMap, remove_all}

abbrev pub host : List ℕ
host = bytes "host"

abbrev pub content_length : List ℕ
content_length = bytes "content-length"

unfoldable pub is_safe_field_name : List ℕ → Bool
is_safe_field_name name = all (λ b. is_ascii_alphanumeric b || b == b'-') name

-- The answer of `authority`; an error is its text.
pub data Authority : Type 0 where
  names : Option (List ℕ) → Authority
  refuses : String → Authority

abbrev pub missing_host : Bool → Authority
missing_host http11 = if http11 then refuses "HTTP/1.1 request without a Host field" else names none

-- `authority`, of the values of Host.
unfoldable pub authority : List (List ℕ) → Bool → Authority
authority [] http11 = missing_host http11
authority ([] ∷ []) http11 = missing_host http11
authority ((b ∷ bs) ∷ []) http11 = names (some (b ∷ bs))
authority (a ∷ b ∷ more) http11 = refuses "request carries more than one Host field line"

-- `str::parse::<u64>`, the digits.
unfoldable pub parse_digits : ℕ → List ℕ → Option ℕ
parse_digits n [] = some n
parse_digits n (c ∷ cs) =
    let next = n * 10 + (c - b'0') in
    let rest = parse_digits next cs in
    if is_ascii_digit c then (if ltb next (2 ^ 64) then rest else none) else none

abbrev digits_of : List ℕ → List ℕ
digits_of [] = []
digits_of (c ∷ cs) = if c == b'+' then cs else c ∷ cs

unfoldable pub non_empty_digits : List ℕ → Option ℕ
unfolding parse_digits
non_empty_digits [] = none
non_empty_digits (c ∷ cs) = parse_digits 0 (c ∷ cs)

unfoldable pub parse_u64 : List ℕ → Option ℕ
unfolding non_empty_digits
parse_u64 s = non_empty_digits (digits_of s)

unfoldable pub unsafe_names : List (List ℕ) → List (List ℕ)
unfolding is_safe_field_name
unsafe_names [] = []
unsafe_names (n ∷ ns) =
    let rest = unsafe_names ns in if is_safe_field_name n then rest else n ∷ rest

module _ (header : HeaderMap) (to_str : List ℕ → Option (List ℕ)) where
  open header use {Map, get_all, keys}

  unfoldable pub drop_unsafe_field_names : Map → Map
  unfolding unsafe_names
  drop_unsafe_field_names h = remove_all header (unsafe_names (keys h)) h

  -- `headers.get(CONTENT_LENGTH)` and what follows, of the values of the name.
  unfoldable pub declared_length : List (List ℕ) → Option ℕ
  unfolding parse_u64
  declared_length [] = none
  declared_length (v ∷ more) = elim (to_str v) [ none ↦ none | some s ↦ parse_u64 s ]

  -- `declared.is_some_and(|len| len > max)`.
  abbrev pub is_too_long : Option ℕ → ℕ → Bool
  is_too_long none max = false
  is_too_long (some len) max = ltb max len

  abbrev pub visible : Bool → Map → Map
  visible superglobals h = if superglobals then drop_unsafe_field_names h else h

  -- The headers after the checks stand beside the answer.
  unfoldable pub check_request : Map → Bool → Bool → ℕ → Result (Option (List ℕ)) × Map
  unfolding authority drop_unsafe_field_names declared_length
  check_request h http11 superglobals max_body_size = elim (authority (get_all h host) http11) [
    | refuses reason ↦ (err (record { status = 400; reason = reason }), h)
    | names a ↦
        let h' = visible superglobals h in
        if is_too_long (declared_length (get_all h' content_length)) max_body_size
        then (
          err (record { status = 413; reason = "declared content-length exceeds max_body_size" }),
          h',
        )
        else (ok a, h')
  ]
