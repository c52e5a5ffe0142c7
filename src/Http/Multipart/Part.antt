-- ===== src/Http/Multipart/Part.antt =====
-- crates/plugins/http/src/multipart.rs: `parse_part`.
use rapira_windows.Common.{
  ℕ, ◌+◌, true, false, Option, none, some, List, [], ◌∷◌, ◌++◌, length, drop, ltb, if◌then◌else◌,
}
use rapira_windows.Common.Bytes.{eq_ignore_ascii_case}
use rapira_windows.Http.{bytes, Result, ok, err}
use rapira_windows.Http.Memchr.{Memchr}
use rapira_windows.Http.Multipart.{
  Limits, Header, FormField, UploadedFile, MultipartBody, bad, over,
}
use rapira_windows.Http.Multipart.Disposition.{Disposition, disposition_params}

-- What `httparse::parse_headers` answers; `complete` has the length of the section.
pub data HeaderSection : Type 0 where
  complete : ℕ → List Header → HeaderSection
  partial too_many_headers malformed : HeaderSection

-- The state of the loop over the headers.
pub record Seen : Type 0 where
  pub headers : List Header
  pub disposition : Option (List ℕ)
  pub media_type : Option (List ℕ)

abbrev first_of : Option (List ℕ) → List ℕ → Option (List ℕ)
first_of none v = some v
first_of (some w) v = some w

abbrev keep_header : Header → Seen → Seen
keep_header h s = record s { headers = s.headers ++ h ∷ [] }

unfoldable pub collect : List Header → Seen → Result Seen
unfolding eq_ignore_ascii_case
collect [] s = ok s
collect (h ∷ hs) s = elim (eq_ignore_ascii_case h.name (bytes "content-disposition")) [
  | true ↦ elim s.disposition [
    | some _ ↦ err (bad "duplicated content-disposition in a part")
    | none ↦ collect hs (keep_header h (record s { disposition = some h.value }))
  ]
  | false ↦ elim (eq_ignore_ascii_case h.name (bytes "content-type")) [
    | true ↦ collect hs (keep_header h (record s { media_type = first_of s.media_type h.value }))
    | false ↦ collect hs (keep_header h s)
  ]
]

-- `filter(|v| !v.is_empty())`.
abbrev pub filled : Option (List ℕ) → Option (List ℕ)
filled none = none
filled (some []) = none
filled (some (b ∷ bs)) = some (b ∷ bs)

-- `spool` answers the name of the file, or `none` for an error; its first argument is the number of
-- files that were spooled before.
module _ (m : Memchr) (parse_headers : List ℕ → ℕ → HeaderSection)
    (spool : ℕ → List ℕ → Option ℕ) where
  unfoldable pub push_file :
      List ℕ → List ℕ → Seen → List ℕ → Limits → MultipartBody → Result MultipartBody
  push_file name client_filename s body limits mb =
      if ltb limits.max_files (length mb.files + 1)
      then err (over "file parts over max_files")
      else if ltb limits.max_file_size (length body)
      then err (over "file part over max_file_size")
      else elim (spool (length mb.files) body) [
        | none ↦ err (record { status = 500; reason = "upload spool failed" })
        | some file ↦
            let pushed : UploadedFile = record {
              name = name;
              client_filename = client_filename;
              client_media_type = filled s.media_type;
              headers = s.headers;
              file = file;
              size = length body;
            } in
            ok (record mb { files = mb.files ++ pushed ∷ [] })
      ]

  unfoldable pub push_field : List ℕ → Seen → List ℕ → Limits → MultipartBody → Result MultipartBody
  push_field name s body limits mb =
      if ltb limits.max_field_size (length body)
      then err (over "field part over max_field_size")
      else let pushed : FormField = record { name = name; value = body; headers = s.headers } in
        ok (record mb { fields = mb.fields ++ pushed ∷ [] })

  -- From the disposition's parameters on.
  unfoldable pub push_part :
      Disposition → Seen → List ℕ → Limits → MultipartBody → Result MultipartBody
  unfolding push_file push_field
  push_part d s body limits mb = elim (filled d.name) [
    | none ↦ err (bad "content-disposition without a non-empty name parameter")
    | some name ↦ elim d.filename [
      | some client_filename ↦ push_file name client_filename s body limits mb
      | none ↦ push_field name s body limits mb
    ]
  ]

  abbrev pub nothing_seen : Seen
  nothing_seen = record { headers = []; disposition = none; media_type = none }

  -- From the parameters on; `none` says that the fuel of `disposition_params` ran out.
  abbrev pub with_params :
      Option (Result Disposition)
      → Seen
      → List ℕ
      → Limits
      → MultipartBody
      → Option (Result MultipartBody)
  with_params none s body limits mb = none
  with_params (some (err e)) s body limits mb = some (err e)
  with_params (some (ok d)) s body limits mb = some (push_part d s body limits mb)

  abbrev pub with_disposition :
      Option (List ℕ) → Seen → List ℕ → Limits → MultipartBody → Option (Result MultipartBody)
  with_disposition none s body limits mb = some (err (bad "part without content-disposition"))
  with_disposition (some v) s body limits mb = with_params (disposition_params m v) s body limits mb

  -- From the loop over the headers on.
  abbrev pub with_headers :
      Result Seen → List ℕ → Limits → MultipartBody → Option (Result MultipartBody)
  with_headers (err e) body limits mb = some (err e)
  with_headers (ok s) body limits mb = with_disposition s.disposition s body limits mb

  unfoldable pub read_part :
      List Header → List ℕ → Limits → MultipartBody → Option (Result MultipartBody)
  unfolding collect disposition_params push_part
  read_part headers body limits mb = with_headers (collect headers nothing_seen) body limits mb

  abbrev pub with_section :
      HeaderSection → List ℕ → Limits → MultipartBody → Option (Result MultipartBody)
  with_section (complete len headers) part limits mb = read_part headers (drop len part) limits mb
  with_section partial part limits mb = some (err (bad "part without a header/body separator"))
  with_section too_many_headers part limits mb =
      some (err (over "part headers over max_part_headers"))
  with_section malformed part limits mb = some (err (bad "unparseable part header section"))

  unfoldable pub parse_part : List ℕ → Limits → MultipartBody → Option (Result MultipartBody)
  unfolding read_part
  parse_part part limits mb =
      with_section (parse_headers part limits.max_part_headers) part limits mb
