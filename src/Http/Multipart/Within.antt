-- ===== src/Http/Multipart/Within.antt =====
-- What `parse` of crates/plugins/http/src/multipart.rs accepts is within the limits.
use mathlib.Core.Path.{subst}
use rapira_windows.Common.{
  ℕ, ◌+◌, ◌≤◌, ◌<◌, ◌≡◌, ◌≢◌, false, Option, none, some, List, [], ◌∷◌, ◌++◌, arith, All,
  All-append, length, length-append, drop, ltb, Bool-cases, Option-cases, inl, inr,
}
use rapira_windows.Http.{Result, ok, err}
use rapira_windows.Http.Memchr.{Memchr}
use rapira_windows.Http.Multipart.{Limits, Header, FormField, UploadedFile, MultipartBody}
use rapira_windows.Http.Multipart.Disposition.{Disposition, disposition_params}
use rapira_windows.Http.Multipart.Part.{
  HeaderSection, complete, partial, too_many_headers, malformed, Seen, collect, nothing_seen,
  push_file, push_field, push_part, read_part, parse_part, with_params, with_disposition,
  with_headers, with_section,
}

abbrev FieldOk : Limits → FormField → Type 0
FieldOk limits f = (f.name ≢ []) × (length f.value ≤ limits.max_field_size)

abbrev FileOk : Limits → UploadedFile → Type 0
FileOk limits f = (f.name ≢ []) × (f.size ≤ limits.max_file_size)

pub record Within (limits : Limits) (mb : MultipartBody) : Type 0 where
  pub parts : length mb.fields + length mb.files ≤ limits.max_parts
  pub files : length mb.files ≤ limits.max_files
  pub fields_ok : All (FieldOk limits) mb.fields
  pub files_ok : All (FileOk limits) mb.files

-- One more part fits.
abbrev pub Room : Limits → MultipartBody → Type 0
Room limits mb = length mb.fields + length mb.files < limits.max_parts

pub not_ltb : (a b : ℕ) → ltb a b ≡ false → b ≤ a
not_ltb a b e = ground (arith, e)

ok_injective : {a b : MultipartBody} → ok a ≡ ok b → a ≡ b
ok_injective e = cc

add_file :
    (limits : Limits) (mb : MultipartBody) (f : UploadedFile)
    → Room limits mb
    → length mb.files + 1 ≤ limits.max_files
    → FileOk limits f
    → Within limits mb
    → Within limits (record mb { files = mb.files ++ f ∷ [] })
add_file limits mb f r few good w =
    let one = length-append mb.files (f ∷ []) in
    record {
      parts = omega (arith, r, one);
      files = omega (arith, few, one);
      fields_ok = w.fields_ok;
      files_ok = All-append (FileOk limits) mb.files (f ∷ []) w.files_ok (good, tt);
    }

add_field :
    (limits : Limits) (mb : MultipartBody) (f : FormField)
    → Room limits mb
    → FieldOk limits f
    → Within limits mb
    → Within limits (record mb { fields = mb.fields ++ f ∷ [] })
add_field limits mb f r good w =
    let one = length-append mb.fields (f ∷ []) in
    record {
      parts = omega (arith, r, one);
      files = w.files;
      fields_ok = All-append (FieldOk limits) mb.fields (f ∷ []) w.fields_ok (good, tt);
      files_ok = w.files_ok;
    }

module _ (m : Memchr) (parse_headers : List ℕ → ℕ → HeaderSection) (spool : ℕ → List ℕ → Option ℕ)
    (limits : Limits) where
  push_file-Within :
      (name client : List ℕ) (s : Seen) (body : List ℕ) (mb mb' : MultipartBody)
      → name ≢ []
      → Room limits mb
      → Within limits mb
      → push_file m parse_headers spool name client s body limits mb ≡ ok mb'
      → Within limits mb'
  unfolding push_file
  push_file-Within name client s body mb mb' d r w e =
      elim (Bool-cases (ltb limits.max_files (length mb.files + 1))) [
        | inl many ↦ absurd (let bad : _ ≡ ok mb' = rw (many, push_file) at e in cc)
        | inr few ↦ elim (Bool-cases (ltb limits.max_file_size (length body))) [
          | inl large ↦ absurd (let bad : _ ≡ ok mb' = rw (few, large, push_file) at e in cc)
          | inr small ↦ elim (Option-cases (spool (length mb.files) body)) [
            | inl failed ↦
                absurd (let bad : _ ≡ ok mb' = rw (few, small, failed, push_file) at e in cc)
            | inr (file, spooled) ↦
                subst (Within limits) (ok_injective (rw (few, small, spooled, push_file) at e))
                  (add_file limits mb _ r (not_ltb _ _ few) (d, not_ltb _ _ small) w)
          ]
        ]
      ]

  push_field-Within :
      (name : List ℕ) (s : Seen) (body : List ℕ) (mb mb' : MultipartBody)
      → name ≢ []
      → Room limits mb
      → Within limits mb
      → push_field m parse_headers spool name s body limits mb ≡ ok mb'
      → Within limits mb'
  unfolding push_field
  push_field-Within name s body mb mb' d r w e =
      elim (Bool-cases (ltb limits.max_field_size (length body))) [
        | inl large ↦ absurd (let bad : _ ≡ ok mb' = rw (large, push_field) at e in cc)
        | inr small ↦
            subst (Within limits) (ok_injective (rw (small, push_field) at e))
              (add_field limits mb _ r (d, not_ltb _ _ small) w)
      ]

  push_part-Within :
      (d : Disposition) (s : Seen) (body : List ℕ) (mb mb' : MultipartBody)
      → Room limits mb
      → Within limits mb
      → push_part m parse_headers spool d s body limits mb ≡ ok mb'
      → Within limits mb'
  unfolding push_part
  push_part-Within d s body mb mb' r w e = go d.name d.filename e
    where
      go :
          (n f : Option (List ℕ))
          → push_part m parse_headers spool (record { name = n; filename = f }) s body limits mb
            ≡ ok mb'
          → Within limits mb'
      go none f e = absurd (cc)
      go (some []) f e = absurd (cc)
      go (some (b ∷ bs)) none e = push_field-Within (b ∷ bs) s body mb mb' (λ z. cc) r w e
      go (some (b ∷ bs)) (some c) e = push_file-Within (b ∷ bs) c s body mb mb' (λ z. cc) r w e

  read_part-Within :
      (headers : List Header) (body : List ℕ) (mb mb' : MultipartBody)
      → Room limits mb
      → Within limits mb
      → read_part m parse_headers spool headers body limits mb ≡ some (ok mb')
      → Within limits mb'
  unfolding read_part
  read_part-Within headers body mb mb' r w e =
      from_seen (collect headers (nothing_seen m parse_headers spool)) e
    where
      from_params :
          (s : Seen) (p : Option (Result Disposition))
          → with_params m parse_headers spool p s body limits mb ≡ some (ok mb')
          → Within limits mb'
      from_params s none e = absurd (cc)
      from_params s (some (err bad)) e = absurd (cc)
      from_params s (some (ok d)) e = push_part-Within d s body mb mb' r w (cc)

      from_disposition :
          (s : Seen) (o : Option (List ℕ))
          → with_disposition m parse_headers spool o s body limits mb ≡ some (ok mb')
          → Within limits mb'
      from_disposition s none e = absurd (cc)
      from_disposition s (some v) e = from_params s (disposition_params m v) e

      from_seen :
          (c : Result Seen)
          → with_headers m parse_headers spool c body limits mb ≡ some (ok mb')
          → Within limits mb'
      from_seen (err bad) e = absurd (cc)
      from_seen (ok s) e = from_disposition s s.disposition e

  pub parse_part-Within :
      (part : List ℕ) (mb mb' : MultipartBody)
      → Room limits mb
      → Within limits mb
      → parse_part m parse_headers spool part limits mb ≡ some (ok mb')
      → Within limits mb'
  unfolding parse_part
  parse_part-Within part mb mb' r w e = go (parse_headers part limits.max_part_headers) e
    where
      go :
          (h : HeaderSection)
          → with_section m parse_headers spool h part limits mb ≡ some (ok mb')
          → Within limits mb'
      go (complete len headers) e = read_part-Within headers (drop len part) mb mb' r w e
      go partial e = absurd (cc)
      go too_many_headers e = absurd (cc)
      go malformed e = absurd (cc)
