-- ===== src/Http/Handler/Bodies.antt =====
-- crates/plugins/http/src/handler.rs: the multipart body of a request, before its unit is submitted.
--
-- The content type of a request is the first Content-Type, as `request::build` takes it. `task_failure` is the text of a
-- parse task that failed, if it did.
use Prim.Native.String.{String}
use rapira_windows.Common.{
  ℕ, ◌*◌, Bool, true, false, ◌&&◌, Option, none, some, List, [], ◌∷◌, length, any, leb,
  if◌then◌else◌,
}
use rapira_windows.Http.{bytes, Rejection, Result, ok, err}
use rapira_windows.Http.HeaderMap.{HeaderMap}
use rapira_windows.Http.Memchr.{Memchr}
use rapira_windows.Http.Multipart.{Limits, MultipartBody}
use rapira_windows.Http.Multipart.Boundary.{is_multipart, boundary}
use rapira_windows.Http.Multipart.Part.{HeaderSection}
use rapira_windows.Http.Multipart.Parse.{parse}

abbrev pub content_type_name : List ℕ
content_type_name = bytes "content-type"

pub data Body : Type 0 where
  raw : List ℕ → Body
  multipart : MultipartBody → Body

-- 256 KiB.
abbrev pub inline_parse_max : ℕ
inline_parse_max = 256 * 1024

abbrev pub first_line : List (List ℕ) → Option (List ℕ)
first_line [] = none
first_line (v ∷ more) = some v

abbrev pub is_repeated : List (List ℕ) → Bool
is_repeated [] = false
is_repeated (v ∷ []) = false
is_repeated (v ∷ w ∷ more) = true

abbrev pub repeated_lines : Rejection
repeated_lines = record {
  status = 400;
  reason = "repeated content-type field lines with a multipart body";
}

abbrev pub parsed_body : Option (Result MultipartBody) → Option (Result Body)
parsed_body none = none
parsed_body (some (err e)) = some (err e)
parsed_body (some (ok mb)) = some (ok (multipart mb))

-- A parse in a task of its own, which may fail.
abbrev pub in_task : Option String → Option (Result Body) → Option (Result Body)
in_task none r = r
in_task (some reason) r = some (err (record { status = 500; reason = reason }))

module _ (m : Memchr) (parse_headers : List ℕ → ℕ → HeaderSection) (spool : ℕ → List ℕ → Option ℕ)
    (task_failure : Option String) (limits : Limits) where
  -- From the boundary on; `none` would be a parse without an answer.
  unfoldable pub with_boundary : List ℕ → Result (List ℕ) → Option (Result Body)
  unfolding parse
  with_boundary bs (err e) = some (err e)
  with_boundary bs (ok b) =
      let parsed = parsed_body (parse m parse_headers spool bs b limits) in
      if leb (length bs) inline_parse_max then parsed else in_task task_failure parsed

  unfoldable pub with_type : List ℕ → Option (List ℕ) → Option (Result Body)
  unfolding with_boundary is_multipart boundary
  with_type bs none = some (ok (raw bs))
  with_type bs (some ct) =
      if is_multipart ct then with_boundary bs (boundary m ct) else some (ok (raw bs))

  unfoldable pub with_body : List (List ℕ) → Body → Option (Result Body)
  unfolding with_type
  with_body lines (multipart mb) = some (ok (multipart mb))
  with_body lines (raw []) = some (ok (raw []))
  with_body lines (raw (b ∷ bs)) = with_type (b ∷ bs) (first_line lines)

  -- With limits; of the Content-Type lines.
  unfoldable pub with_lines : List (List ℕ) → Body → Option (Result Body)
  unfolding with_body is_multipart
  with_lines lines body =
      if is_repeated lines && any is_multipart lines
      then some (err repeated_lines)
      else with_body lines body

module _ (m : Memchr) (parse_headers : List ℕ → ℕ → HeaderSection) (spool : ℕ → List ℕ → Option ℕ)
    (task_failure : Option String) (header : HeaderMap) where
  open header use {Map, get_all}

  unfoldable pub parse_multipart : Option Limits → Map → Body → Option (Result Body)
  unfolding with_lines
  parse_multipart none h body = some (ok body)
  parse_multipart (some limits) h body =
      with_lines m parse_headers spool task_failure limits (get_all h content_type_name) body
