-- ===== src/Auth.antt =====
-- crates/interceptors/auth/src/lib.rs: bearer tokens for gRPC.
--
-- A text is the list of its characters and a header value the list of its bytes. The values of the
-- Authorization field and the path of the call are arguments: the header map is not this crate's.
pub mod Tokens
pub mod RoundTrip
pub mod Compare
pub mod Access
mod Tests
use Prim.Native.Nat.{bit_or, bit_xor}
use Prim.Native.Char.{code}
use Prim.Native.String
use Prim.Native.String.{String}
use rapira_windows.Common.{
  ℕ, zero, suc, ◌+◌, Bool, true, false, not, ◌&&◌, ◌||◌, Option, none, some, List, [], ◌∷◌, ◌++◌,
  ltb, leb, ◌==◌, length, take, drop, all, any, if◌then◌else◌,
}
use rapira_windows.Common.Bytes.{
  is_ascii_alphanumeric, eq_ignore_ascii_case, starts_with, trim_by, trim_end_by,
}

-- The characters of a text literal.
abbrev pub codes : String → List ℕ
codes String.[] = []
codes (String.◌∷◌ c s) = code c ∷ codes s

abbrev pub health : List ℕ
health = codes "/grpc.health.v1.Health/"

-- White_Space of Unicode, which `str::trim` takes off.
abbrev pub is_whitespace : ℕ → Bool
is_whitespace c =
    (leb 9 c && leb c 13)
    || c == 32
    || c == 0x85
    || c == 0xa0
    || c == 0x1680
    || (leb 0x2000 c && leb c 0x200a)
    || c == 0x2028
    || c == 0x2029
    || c == 0x202f
    || c == 0x205f
    || c == 0x3000

-- `str::lines`: a line ends at a line feed, which takes a carriage return before it along.
abbrev strip_cr : List ℕ → List ℕ
strip_cr [] = []
strip_cr (c ∷ []) = if c == 13 then [] else c ∷ []
strip_cr (c ∷ d ∷ cs) = c ∷ strip_cr (d ∷ cs)

abbrev last_line : List ℕ → List (List ℕ)
last_line [] = []
last_line (c ∷ cs) = (c ∷ cs) ∷ []

unfoldable pub lines_from : List ℕ → List ℕ → List (List ℕ)
lines_from cur [] = last_line cur
lines_from cur (c ∷ cs) =
    let rest = lines_from (if c == 10 then [] else cur ++ c ∷ []) cs in
    if c == 10 then strip_cr cur ∷ rest else rest

unfoldable pub lines : List ℕ → List (List ℕ)
unfolding lines_from
lines text = lines_from [] text

abbrev pub is_b64_char : ℕ → Bool
is_b64_char c =
    is_ascii_alphanumeric c
    || c == b'-'
    || c == b'.'
    || c == b'_'
    || c == b'~'
    || c == b'+'
    || c == b'/'

abbrev is_empty : List ℕ → Bool
is_empty [] = true
is_empty (c ∷ cs) = false

unfoldable pub is_b64token : List ℕ → Bool
unfolding trim_end_by
is_b64token token =
    let body = trim_end_by (λ c. c == b'=') token in not (is_empty body) && all is_b64_char body

pub data ParseError : Type 0 where
  -- The number of the line, from 1.
  bad_line : ℕ → ParseError
  no_token : ParseError

pub data Parsed : Type 0 where
  tokens : List (List ℕ) → Parsed
  fails : ParseError → Parsed

-- `line.starts_with('#')`.
abbrev is_comment : List ℕ → Bool
is_comment [] = false
is_comment (c ∷ cs) = c == b'#'

-- The loop of `parse`; `i` counts the lines from 0.
unfoldable pub parse_lines : ℕ → List (List ℕ) → List (List ℕ) → Parsed
unfolding trim_by is_b64token
parse_lines i [] found = tokens found
parse_lines i (raw ∷ rest) found =
    let line = trim_by is_whitespace raw in
    let skipped = is_empty line || is_comment line in
    let later = parse_lines (i + 1) rest (if skipped then found else found ++ line ∷ []) in
    if skipped then later else if not (is_b64token line) then fails (bad_line (i + 1)) else later

-- `strip_prefix('\u{feff}')`.
abbrev strip_bom : List ℕ → List ℕ
strip_bom [] = []
strip_bom (c ∷ cs) = if c == 0xfeff then cs else c ∷ cs

abbrev require_some : Parsed → Parsed
require_some (tokens []) = fails no_token
require_some (tokens (t ∷ ts)) = tokens (t ∷ ts)
require_some (fails e) = fails e

unfoldable pub parse : List ℕ → Parsed
unfolding lines parse_lines
parse text = require_some (parse_lines 0 (lines (strip_bom text)) [])

-- `take_while` and `count` over the spaces, and the rest behind them.
unfoldable pub count_spaces : List ℕ → ℕ
count_spaces [] = 0
count_spaces (c ∷ cs) = let more = count_spaces cs in if c == 32 then suc more else 0

unfoldable pub bearer_token : List ℕ → Option (List ℕ)
unfolding eq_ignore_ascii_case count_spaces
bearer_token value =
    if ltb (length value) 6
    then none
    else if not (eq_ignore_ascii_case (take 6 value) (codes "Bearer"))
    then none
    else let rest = drop 6 value in
      let spaces = count_spaces rest in if ltb 0 spaces then some (drop spaces rest) else none

-- The fold of `same` over the zipped bytes.
unfoldable pub fold_diff : ℕ → List ℕ → List ℕ → ℕ
fold_diff diff [] ys = diff
fold_diff diff (x ∷ xs) [] = diff
fold_diff diff (x ∷ xs) (y ∷ ys) = fold_diff (bit_or diff (bit_xor x y)) xs ys

unfoldable pub same : List ℕ → List ℕ → Bool
unfolding fold_diff
same a b = length a == length b && fold_diff 0 a b == 0

-- `values` are the values of the Authorization field.
unfoldable pub accepts : List (List ℕ) → List (List ℕ) → Bool
unfolding bearer_token same
accepts ts [] = false
accepts ts (value ∷ []) = elim (bearer_token value) [
  | none ↦ false
  | some token ↦ any (λ t. same t token) ts
]
accepts ts (value ∷ another ∷ more) = false

pub data Intercepted : Type 0 where
  passed : Intercepted
  -- With the Bearer challenge.
  unauthenticated : Intercepted

unfoldable pub intercept_head : List (List ℕ) → List ℕ → List (List ℕ) → Intercepted
unfolding accepts starts_with
intercept_head ts path values =
    if starts_with path health || accepts ts values then passed else unauthenticated
