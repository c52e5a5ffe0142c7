-- ===== src/Http/Response.antt =====
-- crates/plugins/http/src/response.rs: the head of a response.
--
-- `header_name` is `HeaderName::from_bytes`, which answers the name in lower case or an error, and
-- `number` is `HeaderValue::from`.
pub mod HopByHop
mod Forwards
mod Tests
use rapira_windows.Common.{
  ℕ, Bool, true, false, ◌||◌, Option, none, some, List, [], ◌∷◌, ◌++◌, any, if◌then◌else◌,
}
use rapira_windows.Common.Bytes.{split_on, trim_by, is_ascii_whitespace}
use rapira_windows.Http.{bytes}
use rapira_windows.Http.HeaderMap.{HeaderMap, remove_all, contains}

abbrev pub connection : List ℕ
connection = bytes "connection"

abbrev pub length_name : List ℕ
length_name = bytes "content-length"

-- `HOP_BY_HOP`.
abbrev pub hop_by_hop : List (List ℕ)
hop_by_hop =
    length_name
    ∷ bytes "transfer-encoding"
    ∷ connection
    ∷ bytes "keep-alive"
    ∷ bytes "upgrade"
    ∷ bytes "trailer"
    ∷ bytes "te"
    ∷ bytes "proxy-connection"
    ∷ []

module _ (header : HeaderMap) (header_name : List ℕ → Option (List ℕ)) (number : ℕ → List ℕ) where
  open header use {Map, get_all, keys, insert}

  -- The loop over the tokens of a value.
  unfoldable pub names_of : List (List ℕ) → List (List ℕ)
  unfolding trim_by
  names_of [] = []
  names_of (token ∷ tokens) =
      let rest = names_of tokens in
      elim (header_name (trim_by is_ascii_whitespace token)) [ none ↦ rest | some n ↦ n ∷ rest ]

  -- The loop over the values of Connection.
  unfoldable pub named_in : List (List ℕ) → List (List ℕ)
  unfolding names_of split_on
  named_in [] = []
  named_in (value ∷ values) = names_of (split_on 44 value) ++ named_in values

  unfoldable pub strip : Map → Map
  unfolding named_in contains
  strip h =
      if any (contains hop_by_hop) (keys h)
      then remove_all header (named_in (get_all h connection) ++ hop_by_hop) h
      else h

  abbrev pub declare_length : Option ℕ → Map → Map
  declare_length none h = h
  declare_length (some n) h = insert h length_name (number n)

  unfoldable pub response_headers : Map → Option ℕ → Map
  unfolding strip
  response_headers h content_length = declare_length content_length (strip h)
