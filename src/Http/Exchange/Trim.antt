-- ===== src/Http/Exchange/Trim.antt =====
-- The text functions of the standard library that crates/plugins/http/src/php/headers.rs calls:
-- `str::from_utf8`, whose result is the list of its scalar values, and `char::is_whitespace`.
use rapira_windows.Common.{
  ℕ, ◌+◌, ◌-◌, ◌*◌, zero, suc, Bool, ◌&&◌, ◌||◌, Option, none, some, List, [], ◌∷◌, any, leb, ltb,
  ◌==◌, if◌then◌else◌,
}

-- What the bytes that are read leave to read of a character: how many bytes, the value so far, and the
-- bounds of the next byte.
pub data Wanted : Type 0 where
  fresh : Wanted
  more : ℕ → ℕ → ℕ → ℕ → Wanted

-- The first byte of a character above ASCII. Short forms, surrogates and values above 10FFFF are refused.
unfoldable pub lead : ℕ → Option Wanted
lead b =
    if ltb b 194
    then none
    else if ltb b 224
    then some (more 0 (b - 192) 128 191)
    else if b == 224
    then some (more 1 0 160 191)
    else if b == 237
    then some (more 1 13 128 159)
    else if ltb b 240
    then some (more 1 (b - 224) 128 191)
    else if b == 240
    then some (more 2 0 144 191)
    else if ltb b 244
    then some (more 2 (b - 240) 128 191)
    else if b == 244
    then some (more 2 4 128 143)
    else none

unfoldable pub cons_char : ℕ → Option (List ℕ) → Option (List ℕ)
cons_char c none = none
cons_char c (some cs) = some (c ∷ cs)

unfoldable pub led : (Wanted → Option (List ℕ)) → Option Wanted → Option (List ℕ)
led next none = none
led next (some w) = next w

unfoldable pub decode : Wanted → List ℕ → Option (List ℕ)
unfolding lead led cons_char
decode fresh [] = some []
decode (more k v lo hi) [] = none
decode fresh (b ∷ bs) =
    let plain = decode fresh bs in
    if ltb b 128 then cons_char b plain else led (λ w. decode w bs) (lead b)
decode (more zero v lo hi) (b ∷ bs) =
    let rest = decode fresh bs in
    if leb lo b && leb b hi then cons_char (v * 64 + (b - 128)) rest else none
decode (more (suc k) v lo hi) (b ∷ bs) =
    let rest = decode (more k (v * 64 + (b - 128)) 128 191) bs in
    if leb lo b && leb b hi then rest else none

unfoldable pub from_utf8 : List ℕ → Option (List ℕ)
unfolding decode
from_utf8 bs = decode fresh bs

unfoldable pub is_whitespace : ℕ → Bool
is_whitespace c =
    (leb 9 c && leb c 13)
    || (leb 8192 c && leb c 8202)
    || any (◌==◌ c) (32 ∷ 133 ∷ 160 ∷ 5760 ∷ 8232 ∷ 8233 ∷ 8239 ∷ 8287 ∷ 12288 ∷ [])
