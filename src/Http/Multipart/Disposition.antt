-- ===== src/Http/Multipart/Disposition.antt =====
-- crates/plugins/http/src/multipart.rs: `disposition_params`.
--
-- The index into the value is the rest of the value from there on.
use rapira_windows.Common.{
  ℕ, zero, suc, ◌+◌, Bool, true, false, ◌&&◌, ◌||◌, Option, none, some, List, [], ◌∷◌, length, take,
  drop, ◌==◌, if◌then◌else◌,
}
use rapira_windows.Common.Bytes.{eq_ignore_ascii_case}
use rapira_windows.Http.{bytes, Result, ok, err}
use rapira_windows.Http.Memchr.{Memchr}
use rapira_windows.Http.Multipart.{bad, trim_ascii}
use rapira_windows.Http.Multipart.Delimiter.{count_padding}

pub record Disposition : Type 0 where
  pub name : Option (List ℕ)
  pub filename : Option (List ℕ)

-- A value that was read and the rest behind it.
pub record Value : Type 0 where
  pub val : List ℕ
  pub next : List ℕ

abbrev pub is_escaped : ℕ → ℕ → Bool
is_escaped b c = b == 92 && (c == 92 || c == 34)

abbrev pub push : ℕ → Option Value → Option Value
push b none = none
push b (some v) = some (record v { val = b ∷ v.val })

-- The loop behind an opening quote.
unfoldable pub quoted : List ℕ → Option Value
quoted [] = none
quoted (b ∷ []) = if b == 34 then some (record { val = []; next = [] }) else none
quoted (b ∷ c ∷ rest) = elim (b == 34) [
  | true ↦ some (record { val = []; next = c ∷ rest })
  | false ↦ elim (is_escaped b c) [
    | true ↦ push c (quoted rest)
    | false ↦ push b (quoted (c ∷ rest))
  ]
]

-- The match on `key`.
unfoldable pub store_param : List ℕ → List ℕ → Disposition → Result Disposition
unfolding eq_ignore_ascii_case
store_param key val d =
    let twice = err (bad "duplicated name/filename parameter in content-disposition") in
    if eq_ignore_ascii_case key (bytes "name")
    then elim d.name [ none ↦ ok (record d { name = some val }) | some _ ↦ twice ]
    else if eq_ignore_ascii_case key (bytes "filename")
    then elim d.filename [ none ↦ ok (record d { filename = some val }) | some _ ↦ twice ]
    else ok d

-- The value up to a semicolon, by its place.
abbrev pub unquoted_to : List ℕ → Option ℕ → Value
unquoted_to v none = record { val = trim_ascii v; next = [] }
unquoted_to v (some end) = record { val = trim_ascii (take end v); next = drop end v }

module _ (m : Memchr) where
  abbrev pub unquoted : List ℕ → Value
  unquoted v = unquoted_to v (m.memchr 59 v)

  unfoldable pub read_value : List ℕ → Result Value
  unfolding quoted
  read_value [] = ok (unquoted [])
  read_value (b ∷ rest) = elim (b == 34) [
    | true ↦ elim (quoted rest) [
      | none ↦ err (bad "unterminated quoted-string in content-disposition")
      | some v ↦ ok v
    ]
    | false ↦ ok (unquoted (b ∷ rest))
  ]

  unfoldable pub behind_semicolon : List ℕ → List ℕ
  behind_semicolon v = elim (m.memchr 59 v) [ some o ↦ drop (o + 1) v | none ↦ [] ]

  abbrev pub behind_padding : List ℕ → List ℕ
  behind_padding v = drop (count_padding v) v

  -- The loop; `none` says that the fuel ran out.
  unfoldable pub params_from : ℕ → List ℕ → Disposition → Option (Result Disposition)
  unfolding read_value store_param behind_semicolon count_padding
  params_from zero v d = none
  params_from (suc n) [] d = some (ok d)
  params_from (suc n) (b ∷ rest) d =
      let v = b ∷ rest in
      elim (m.memchr 61 v) [
        | none ↦ some (ok d)
        | some eq ↦ elim (read_value (behind_padding (drop (eq + 1) v))) [
          | err e ↦ some (err e)
          | ok value ↦ elim (store_param (trim_ascii (take eq v)) value.val d) [
            | err e ↦ some (err e)
            | ok d' ↦ params_from n (behind_semicolon value.next) d'
          ]
        ]
      ]

  -- A round takes at least the byte `=`, so the length is fuel enough.
  unfoldable pub disposition_params : List ℕ → Option (Result Disposition)
  unfolding params_from behind_semicolon
  disposition_params v =
      params_from (suc (length v)) (behind_semicolon v) (record { name = none; filename = none })
