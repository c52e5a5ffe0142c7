-- ===== src/Http/Multipart/Delimiter.antt =====
-- crates/plugins/http/src/multipart.rs: `is_multipart`, and `next_delimiter`, which scans for the
-- next delimiter line.
use rapira_windows.Common.{
  ℕ, zero, suc, ◌+◌, ◌-◌, Bool, true, false, ◌&&◌, ◌||◌, Option, none, some, List, [], ◌∷◌, length,
  drop, get_elem?, ◌==◌, if◌then◌else◌,
}
use rapira_windows.Common.Bytes.{starts_with}
use rapira_windows.Http.{bytes}
use rapira_windows.Http.Memchr.{Memchr}

pub record DelimHit : Type 0 where
  pub line_start : ℕ
  pub after : ℕ
  pub is_close : Bool

-- `body.get(k) == Some(&c)`.
abbrev pub is_at : List ℕ → ℕ → ℕ → Bool
is_at body k c = elim (get_elem? body k) [ none ↦ false | some b ↦ b == c ]

-- `body.get(k) == None`.
abbrev pub is_end : List ℕ → ℕ → Bool
is_end body k = elim (get_elem? body k) [ none ↦ true | some b ↦ false ]

-- How far the loops over spaces and tabs go.
unfoldable pub count_padding : List ℕ → ℕ
count_padding [] = 0
count_padding (c ∷ cs) = let more = count_padding cs in if c == 32 || c == 9 then suc more else 0

unfoldable pub skip_padding : List ℕ → ℕ → ℕ
unfolding count_padding
skip_padding body k = k + count_padding (drop k body)

-- `i == 0 || body[i - 1] == b'\n'`.
abbrev pub at_line_start : List ℕ → ℕ → Bool
at_line_start body i = i == 0 || is_at body (i - 1) 10

abbrev pub ends_close : List ℕ → ℕ → Bool
ends_close body k = is_end body k || is_at body k 10 || (is_at body k 13 && is_at body (k + 1) 10)

-- The tests behind the delimiter, which ends at `j`.
unfoldable pub hit_behind : List ℕ → ℕ → ℕ → Option DelimHit
unfolding skip_padding starts_with
hit_behind body i j =
    if starts_with (drop j body) (bytes "--") && ends_close body (skip_padding body (j + 2))
    then some (record { line_start = i; after = j + 2; is_close = true })
    else let k = skip_padding body j in
      if is_at body k 10
      then some (record { line_start = i; after = k + 1; is_close = false })
      else if is_at body k 13 && is_at body (k + 1) 10
      then some (record { line_start = i; after = k + 2; is_close = false })
      else none

-- One round at a place where the delimiter was found.
unfoldable pub hit_at : List ℕ → ℕ → ℕ → Option DelimHit
unfolding hit_behind
hit_at body dlen i = if at_line_start body i then hit_behind body i (i + dlen) else none

module _ (m : Memchr) where
  -- The loop; `none` outside says that the fuel ran out.
  unfoldable pub next_delimiter : ℕ → List ℕ → ℕ → List ℕ → Option (Option DelimHit)
  unfolding hit_at
  next_delimiter zero body from delim = none
  next_delimiter (suc n) body from delim = elim (m.memmem delim (drop from body)) [
    | none ↦ some none
    | some o ↦
        let i = o + from in
        elim (hit_at body (length delim) i) [
          | some hit ↦ some (some hit)
          | none ↦ elim (m.memchr 10 (drop i body)) [
            | none ↦ some none
            | some p ↦ next_delimiter n body (i + p + 1) delim
          ]
        ]
  ]
