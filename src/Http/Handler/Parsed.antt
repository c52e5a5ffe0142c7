-- ===== src/Http/Handler/Parsed.antt =====
-- crates/plugins/http/src/handler.rs: which bodies reach PHP as they are, and which are parsed.
use Prim.Native.String.{String}
use rapira_windows.Common.{
  ℕ, ◌≡◌, refl, ◌⊎◌, inl, inr, Bool, true, false, ◌&&◌, ◌||◌, Option, none, some, List, [], ◌∷◌,
  length, any, leb, if_split, arith,
}
use rapira_windows.Http.{Result, ok, err}
use rapira_windows.Http.HeaderMap.{HeaderMap}
use rapira_windows.Http.Memchr.{Memchr}
use rapira_windows.Http.Multipart.{Limits, MultipartBody}
use rapira_windows.Http.Multipart.Boundary.{is_multipart, boundary}
use rapira_windows.Http.Multipart.Part.{HeaderSection}
use rapira_windows.Http.Multipart.Within.{Within}
use rapira_windows.Http.Multipart.Accepts.{Outcome, refused, accepted, parse-Outcome}
use rapira_windows.Http.Handler.Bodies.{
  Body, raw, multipart, content_type_name, inline_parse_max, first_line, is_repeated,
  repeated_lines, parsed_body, in_task, with_boundary, with_type, with_body, with_lines,
  parse_multipart,
}

-- What becomes of a raw body: a refusal, the body as it is, or its parts.
pub data Decided (limits : Limits) (lines : List (List ℕ)) (bs : List ℕ)
    : Option (Result Body) → Type 0 where
  rejected : (e : _) → Decided limits lines bs (some (err e))
  -- Nothing to parse: no bytes, or no line that says multipart/form-data.
  kept : (bs ≡ []) ⊎ (any is_multipart lines ≡ false) → Decided limits lines bs (some (ok (raw bs)))
  -- The one line says so.
  parsed :
      (ct : List ℕ) (mb : MultipartBody)
      → lines ≡ ct ∷ []
      → is_multipart ct ≡ true
      → Within limits mb
      → Decided limits lines bs (some (ok (multipart mb)))

parsed-Decided :
    (limits : Limits) (ct bs : List ℕ) (r : Option (Result MultipartBody))
    → is_multipart ct ≡ true
    → Outcome limits r
    → Decided limits (ct ∷ []) bs (parsed_body r)
parsed-Decided limits ct bs r is_mp (refused e) = rejected e
parsed-Decided limits ct bs r is_mp (accepted mb w) = parsed ct mb refl is_mp w

in_task-Decided :
    (limits : Limits) (lines : List (List ℕ)) (bs : List ℕ) (failure : Option String)
    (r : Option (Result Body))
    → Decided limits lines bs r
    → Decided limits lines bs (in_task failure r)
in_task-Decided limits lines bs none r d = d
in_task-Decided limits lines bs (some reason) r d = rejected _

module _ (m : Memchr) (parse_headers : List ℕ → ℕ → HeaderSection) (spool : ℕ → List ℕ → Option ℕ)
    (task_failure : Option String) (limits : Limits) where
  boundary-Decided :
      (ct bs : List ℕ) (r : Result (List ℕ))
      → is_multipart ct ≡ true
      → Decided limits (ct ∷ []) bs (with_boundary m parse_headers spool task_failure limits bs r)
  unfolding with_boundary
  boundary-Decided ct bs (err e) is_mp = rejected e
  boundary-Decided ct bs (ok b) is_mp =
      let d =
        parsed-Decided limits ct bs _ is_mp (parse-Outcome m parse_headers spool bs b limits) in
      if_split (Decided limits (ct ∷ []) bs) (leb (length bs) inline_parse_max) (λ short. d)
        (λ long. in_task-Decided limits (ct ∷ []) bs task_failure _ d)

  plain_kept :
      (lines : List (List ℕ)) (ct bs : List ℕ)
      → any is_multipart lines ≡ false
      → is_multipart ct ≡ false
      → Decided limits lines bs (with_type m parse_headers spool task_failure limits bs (some ct))
  unfolding with_type
  plain_kept lines ct bs no_line e =
      if_split (Decided limits lines bs) (is_multipart ct) (λ is_mp. absurd (cc))
        (λ other. kept (inr no_line))

  lines-Decided :
      (lines : List (List ℕ)) (bs : List ℕ)
      → is_repeated lines && any is_multipart lines ≡ false
      → Decided limits lines bs
          (with_type m parse_headers spool task_failure limits bs (first_line lines))
  unfolding with_type
  lines-Decided [] bs single = kept (inr refl)
  lines-Decided (ct ∷ []) bs single =
      if_split (Decided limits (ct ∷ []) bs) (is_multipart ct)
        (λ is_mp. boundary-Decided ct bs (boundary m ct) is_mp) (λ other. kept (inr (ground arith)))
  lines-Decided (v ∷ w ∷ more) bs single =
      plain_kept (v ∷ w ∷ more) v bs single
        (none_first (is_multipart v) (any is_multipart (w ∷ more)) single)
    where
      none_first : (a b : Bool) → a || b ≡ false → a ≡ false
      none_first true b e = absurd (cc)
      none_first false b e = refl

  body-Decided :
      (lines : List (List ℕ)) (bs : List ℕ)
      → is_repeated lines && any is_multipart lines ≡ false
      → Decided limits lines bs (with_body m parse_headers spool task_failure limits lines (raw bs))
  unfolding with_body
  body-Decided lines [] single = kept (inl refl)
  body-Decided lines (b ∷ bs) single = lines-Decided lines (b ∷ bs) single

-- With limits, a raw body is refused, or it stays raw, and then it is empty or no Content-Type
-- line says multipart/form-data, or it is parsed, and then the one line says so and the parts are
-- within the limits.
pub parse_multipart-Decided :
    (m : Memchr) (parse_headers : List ℕ → ℕ → HeaderSection) (spool : ℕ → List ℕ → Option ℕ)
    (task_failure : Option String) (header : HeaderMap) (limits : Limits) (h : HeaderMap.Map header)
    (bs : List ℕ)
    → Decided limits
        (header.get_all h content_type_name)
        bs
        (parse_multipart m parse_headers spool task_failure header (some limits) h (raw bs))
unfolding parse_multipart with_lines
parse_multipart-Decided m parse_headers spool task_failure header limits h bs =
    let lines = header.get_all h content_type_name in
    if_split (Decided limits lines bs) (is_repeated lines && any is_multipart lines)
      (λ twice. rejected repeated_lines)
      (λ single. body-Decided m parse_headers spool task_failure limits lines bs single)
