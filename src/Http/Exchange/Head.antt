-- ===== src/Http/Exchange/Head.antt =====
-- crates/plugins/http/src/php/headers.rs: the head that PHP gives, its declared length, and the fields that
-- may not travel in a trailer section.
--
-- A PHP array is the list of its entries in order. `header_name` and `header_value` are
-- `HeaderName::from_bytes` and `HeaderValue::from_bytes`, `empty` and `append` are
-- `HeaderMap::new` and `HeaderMap::append`.
use Prim.Native.String.{String}
use rapira_windows.Common.{ℕ, Bool, Option, none, some, List, [], ◌∷◌, any, all, if◌then◌else◌}
use rapira_windows.Common.Bytes.{eq_ignore_ascii_case, is_ascii_digit, trim_by}
use rapira_windows.Http.{bytes}
use rapira_windows.Http.HeaderMap.{HeaderMap}
use rapira_windows.Http.Check.{parse_u64, content_length}
use rapira_windows.Http.Exchange.Trim.{from_utf8, is_whitespace}

-- `TRAILER_FORBIDDEN`.
abbrev pub trailer_forbidden : List (List ℕ)
trailer_forbidden =
    bytes "age"
    ∷ bytes "authorization"
    ∷ bytes "cache-control"
    ∷ bytes "connection"
    ∷ bytes "content-encoding"
    ∷ bytes "content-language"
    ∷ bytes "content-length"
    ∷ bytes "content-location"
    ∷ bytes "content-range"
    ∷ bytes "content-type"
    ∷ bytes "cookie"
    ∷ bytes "date"
    ∷ bytes "expect"
    ∷ bytes "expires"
    ∷ bytes "forwarded"
    ∷ bytes "host"
    ∷ bytes "if-match"
    ∷ bytes "if-modified-since"
    ∷ bytes "if-none-match"
    ∷ bytes "if-range"
    ∷ bytes "if-unmodified-since"
    ∷ bytes "keep-alive"
    ∷ bytes "location"
    ∷ bytes "max-forwards"
    ∷ bytes "pragma"
    ∷ bytes "proxy-authenticate"
    ∷ bytes "proxy-authorization"
    ∷ bytes "proxy-connection"
    ∷ bytes "range"
    ∷ bytes "retry-after"
    ∷ bytes "set-cookie"
    ∷ bytes "te"
    ∷ bytes "trailer"
    ∷ bytes "transfer-encoding"
    ∷ bytes "upgrade"
    ∷ bytes "vary"
    ∷ bytes "via"
    ∷ bytes "warning"
    ∷ bytes "www-authenticate"
    ∷ []

unfoldable pub forbidden_trailer : List ℕ → Bool
unfolding eq_ignore_ascii_case
forbidden_trailer name = any (λ f. eq_ignore_ascii_case name f) trailer_forbidden

-- `Result<_, &CStr>`.
pub data Checked {ℓ} (A : Type ℓ) : Type ℓ where
  passed : A → Checked A
  failed : String → Checked A

abbrev of_digits : List ℕ → Option ℕ
of_digits s = if all is_ascii_digit s then parse_u64 s else none

-- A character of more than one byte is no digit, and neither is any of its bytes.
unfoldable pub parse_content_length : List ℕ → Option ℕ
unfolding from_utf8 is_whitespace trim_by parse_u64
parse_content_length v = elim (from_utf8 v) [
  | none ↦ none
  | some s ↦ of_digits (trim_by is_whitespace s)
]

pub record SplitHead (Map : Type 0) : Type 0 where
  pub headers : Map
  pub declared_cl : Option ℕ

-- The values of an entry: a string, or a value of another type.
pub data Item : Type 0 where
  text : List ℕ → Item
  other_item : Item

pub data Value : Type 0 where
  array : List Item → Value
  no_array : Value

pub data Key : Type 0 where
  str : List ℕ → Key
  index : ℕ → Key

pub record Entry : Type 0 where
  pub key : Key
  pub val : Value

module _ (header : HeaderMap) where
  open header use {Map, get_all, remove}

  abbrev pub split_lines : Map → List (List ℕ) → Checked (SplitHead Map)
  split_lines h [] = passed (record { headers = remove h content_length; declared_cl = none })
  split_lines h (v ∷ []) =
      passed (record { headers = remove h content_length; declared_cl = parse_content_length v })
  split_lines h (v ∷ w ∷ more) = failed "content-length may not repeat"

  unfoldable pub split_framing : Map → Checked (SplitHead Map)
  unfolding parse_content_length
  split_framing h = split_lines h (get_all h content_length)

module _ (header : HeaderMap) (empty : HeaderMap.Map header)
    (append : HeaderMap.Map header → List ℕ → List ℕ → HeaderMap.Map header)
    (header_name header_value : List ℕ → Option (List ℕ)) where
  open header use {Map}

  abbrev pub bad_name : String
  bad_name = "header name is not representable on the wire"

  abbrev pub bad_value : String
  bad_value = "header value is not representable on the wire"

  -- The loop over the values of a name.
  unfoldable pub walk_items : Map → List ℕ → List Item → Checked Map
  walk_items h name [] = passed h
  walk_items h name (other_item ∷ items) = failed bad_value
  walk_items h name (text v ∷ items) = elim (header_value v) [
    | none ↦ failed bad_value
    | some value ↦ walk_items (append h name value) name items
  ]

  unfoldable pub walk_value : Map → List ℕ → Value → Checked Map
  unfolding walk_items
  walk_value h name no_array = failed "each header entry must be a list of strings"
  walk_value h name (array items) = walk_items h name items

  abbrev named : Option (List ℕ) → (List ℕ → Checked Map) → Checked Map
  named none f = failed bad_name
  named (some name) f = f name

  unfoldable pub walk_entry : Map → Entry → Checked Map
  unfolding walk_value
  walk_entry h e = elim (e.key) [
    | index i ↦ failed bad_name
    | str k ↦ named (header_name k) (λ name. walk_value h name e.val)
  ]

  abbrev and_walk : (Map → Checked Map) → Checked Map → Checked Map
  and_walk f (passed h) = f h
  and_walk f (failed msg) = failed msg

  -- The loop over the entries of the array.
  unfoldable pub walk_entries : Map → List Entry → Checked Map
  unfolding walk_entry
  walk_entries h [] = passed h
  walk_entries h (e ∷ es) = and_walk (λ h'. walk_entries h' es) (walk_entry h e)

  -- A null array is `none`.
  unfoldable pub walk_head_table : Option (List Entry) → Checked Map
  unfolding walk_entries
  walk_head_table none = passed empty
  walk_head_table (some es) = walk_entries empty es
