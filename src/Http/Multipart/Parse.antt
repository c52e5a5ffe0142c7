-- ===== src/Http/Multipart/Parse.antt =====
-- crates/plugins/http/src/multipart.rs: `parse`.
use rapira_windows.Common.{
  ℕ, zero, suc, ◌+◌, ◌-◌, true, false, ◌&&◌, Option, none, some, List, [], ◌++◌, length, take, drop,
  ltb, if◌then◌else◌,
}
use rapira_windows.Http.{bytes, Result, ok, err}
use rapira_windows.Http.Memchr.{Memchr}
use rapira_windows.Http.Multipart.{Limits, MultipartBody, bad, over}
use rapira_windows.Http.Multipart.Delimiter.{DelimHit, is_at, next_delimiter}
use rapira_windows.Http.Multipart.Part.{HeaderSection, parse_part}

-- `body[from..to]`.
abbrev pub slice : List ℕ → ℕ → ℕ → List ℕ
slice body from to = take (to - from) (drop from body)

-- The end of a part that a delimiter line follows: the line end before belongs to the delimiter.
unfoldable pub part_end : List ℕ → ℕ → ℕ → ℕ
part_end body start line_start =
    if ltb start line_start && is_at body (line_start - 1) 10
    then (if ltb start (line_start - 1) && is_at body (line_start - 1 - 1) 13
        then line_start - 1 - 1
        else line_start - 1)
    else line_start

abbrev pub no_parts : MultipartBody
no_parts = record { fields = []; files = [] }

module _ (m : Memchr) (parse_headers : List ℕ → ℕ → HeaderSection)
    (spool : ℕ → List ℕ → Option ℕ) where
  abbrev pub find_delimiter : List ℕ → ℕ → List ℕ → Option (Option DelimHit)
  find_delimiter body from delim = next_delimiter m (suc (length body)) body from delim

  -- The loop; `none` says that the fuel ran out.
  unfoldable pub parse_from :
      ℕ → List ℕ → List ℕ → Limits → ℕ → MultipartBody → Option (Result MultipartBody)
  unfolding next_delimiter part_end parse_part
  parse_from zero body delim limits part_start mb = none
  parse_from (suc n) body delim limits part_start mb =
      elim (ltb limits.max_parts (length mb.fields + length mb.files + 1)) [
        | true ↦ some (err (over "part count over max_parts"))
        | false ↦ elim (find_delimiter body part_start delim) [
          | none ↦ none
          | some none ↦ some (err (bad "no closing boundary line"))
          | some (some ending) ↦
              let part = slice body part_start (part_end body part_start ending.line_start) in
              elim (parse_part m parse_headers spool part limits mb) [
                | none ↦ none
                | some (err e) ↦ some (err e)
                | some (ok mb') ↦ elim ending.is_close [
                  | true ↦ some (ok mb')
                  | false ↦ parse_from n body delim limits ending.after mb'
                ]
              ]
        ]
      ]

  unfoldable pub parse : List ℕ → List ℕ → Limits → Option (Result MultipartBody)
  unfolding parse_from next_delimiter
  parse body boundary limits =
      let delim = bytes "--" ++ boundary in
      elim (find_delimiter body 0 delim) [
        | none ↦ none
        | some none ↦ some (err (bad "no opening boundary line"))
        | some (some opening) ↦ elim opening.is_close [
          | true ↦ some (ok no_parts)
          | false ↦ parse_from (suc (length body)) body delim limits opening.after no_parts
        ]
      ]
