-- ===== src/Http/Multipart/Tests.antt =====
-- The theorems on crates/plugins/http/src/multipart.rs at concrete inputs, with a search, a header
-- parser and a spool that are functions.
use rapira_windows.Common.{
  ℕ, zero, suc, ◌<◌, ◌≡◌, ◌≢◌, refl, ap, true, false, Option, none, some, List, [], ◌∷◌, ◌++◌,
  arith, All, length, drop, ◌==◌, if◌then◌else◌,
}
use rapira_windows.Common.Bytes.{starts_with, trim_by}
use rapira_windows.Http.{bytes, ok, err}
use rapira_windows.Http.Memchr.{Memchr}
use rapira_windows.Http.FieldList.{Field, values, field_list}
use rapira_windows.Http.Multipart.{Limits, bad}
use rapira_windows.Http.Multipart.Boundary.{boundary}
use rapira_windows.Http.Multipart.Delimiter.{next_delimiter}
use rapira_windows.Http.Multipart.FirstLine.{first_line}
use rapira_windows.Http.Multipart.Scan.{next_delimiter-eq-first_line}
use rapira_windows.Http.Multipart.Disposition.{disposition_params}
use rapira_windows.Http.Multipart.Quoted.{escape, disposition_params-escape}
use rapira_windows.Http.Multipart.Part.{HeaderSection, complete}
use rapira_windows.Http.Multipart.Parse.{parse}
use rapira_windows.Http.Multipart.Accepts.{Outcome, parse-Outcome}
use rapira_windows.Http.Handler.Bodies.{raw, content_type_name, parse_multipart}
use rapira_windows.Http.Handler.Parsed.{Decided, parse_multipart-Decided}

abbrev next : Option ℕ → Option ℕ
next none = none
next (some i) = some (suc i)

unfoldable find_byte : ℕ → List ℕ → Option ℕ
find_byte c [] = none
find_byte c (x ∷ xs) = let rest = next (find_byte c xs) in if x == c then some 0 else rest

unfoldable find_needle : List ℕ → List ℕ → Option ℕ
unfolding starts_with
find_needle needle [] = if starts_with [] needle then some 0 else none
find_needle needle (x ∷ xs) =
    let rest = next (find_needle needle xs) in if starts_with (x ∷ xs) needle then some 0 else rest

byte_first :
    (c : ℕ) (xs ys : List ℕ) → All (λ x. x ≢ c) xs → find_byte c (xs ++ c ∷ ys) ≡ some (length xs)
unfolding find_byte
byte_first c [] ys h = let same : (c == c) ≡ true = ground arith in rw same refl
byte_first c (x ∷ xs) ys h =
    let other : (x == c) ≡ false = ground (arith, h.0) in
    rw other (ap next (byte_first c xs ys h.1))

byte_absent : (c : ℕ) (xs : List ℕ) → All (λ x. x ≢ c) xs → find_byte c xs ≡ none
unfolding find_byte
byte_absent c [] h = refl
byte_absent c (x ∷ xs) h =
    let other : (x == c) ≡ false = ground (arith, h.0) in rw other (ap next (byte_absent c xs h.1))

needle_first :
    (needle hay : List ℕ) (i : ℕ)
    → starts_with (drop i hay) needle ≡ true
    → ((j : ℕ) → j < i → starts_with (drop j hay) needle ≡ false)
    → find_needle needle hay ≡ some i
unfolding find_needle
needle_first needle [] zero at before = rw at refl
needle_first needle [] (suc i) at before =
    absurd (let miss : starts_with [] needle ≡ false = before 0 (omega arith) in cc)
needle_first needle (x ∷ xs) zero at before = rw at refl
needle_first needle (x ∷ xs) (suc i) at before =
    rw (before 0 (omega arith))
      (ap next (needle_first needle xs i at (λ j lt. before (suc j) (omega (arith, lt)))))

needle_absent :
    (needle hay : List ℕ)
    → ((j : ℕ) → starts_with (drop j hay) needle ≡ false)
    → find_needle needle hay ≡ none
unfolding find_needle
needle_absent needle [] miss = rw (miss 0) refl
needle_absent needle (x ∷ xs) miss =
    rw (miss 0) (ap next (needle_absent needle xs (λ j. miss (suc j))))

unfoldable search_bytes : Memchr
unfolding find_byte find_needle
search_bytes = record {
  memchr = find_byte;
  memmem = find_needle;
  memchr_first = byte_first;
  memchr_absent = byte_absent;
  memmem_first = needle_first;
  memmem_absent = needle_absent;
}

-- One header line, `content-disposition: ` and a value of so many bytes, and an empty line.
abbrev one_header : ℕ → List ℕ → ℕ → HeaderSection
one_header len value room =
    complete len (record { name = bytes "content-disposition"; value = value } ∷ [])

abbrev numbered : ℕ → List ℕ → Option ℕ
numbered k contents = some k

abbrev limits : Limits
limits = record {
  max_file_size = 8;
  max_field_size = 4;
  max_files = 1;
  max_parts = 2;
  max_part_headers = 4;
}

abbrev field_section : List ℕ → ℕ → HeaderSection
field_section part = one_header 40 (bytes "form-data; name=x")

abbrev field_body : List ℕ
field_body = bytes "pre\n--B \t\r\ncontent-disposition: form-data; name=x\n\nv\r\n--B--\r\nend"

parse_field :
    parse search_bytes field_section numbered field_body (bytes "B") limits
    ≡ some (
        ok (record {
          fields =
              record {
                name = bytes "x";
                value = bytes "v";
                headers =
                    record { name = bytes "content-disposition"; value = bytes "form-data; name=x" }
                    ∷ [];
              }
              ∷ [];
          files = [];
        }))
unfolding parse search_bytes trim_by
parse_field = refl

boundary-quoted :
    boundary search_bytes (bytes "multipart/form-data; charset=x; Boundary=\"B;\"")
    ≡ err (bad "unterminated quoted boundary parameter")
unfolding boundary search_bytes
boundary-quoted = refl

boundary-bare :
    boundary search_bytes (bytes "multipart/form-data; boundary= B , x") ≡ ok (bytes "B")
unfolding boundary search_bytes
boundary-bare = refl

parse-Outcome_example :
    Outcome limits (parse search_bytes field_section numbered field_body (bytes "B") limits)
parse-Outcome_example =
    parse-Outcome search_bytes field_section numbered field_body (bytes "B") limits

abbrev junk_body : List ℕ
junk_body = bytes "a--B\nx\n--Bx\n--B\r\nrest"

next_delimiter-eq-first_line_example :
    next_delimiter search_bytes 24 junk_body 0 (bytes "--B")
    ≡ some (first_line 21 junk_body 0 (bytes "--B"))
next_delimiter-eq-first_line_example =
    next_delimiter-eq-first_line search_bytes junk_body (bytes "--B") 24 0 (omega arith)
      (omega arith) (omega arith)

abbrev odd_name : List ℕ
odd_name = bytes "a\\\"; name=b"

disposition_params-escape_example :
    (disposition_params search_bytes (bytes "form-data; name=\"" ++ (escape odd_name ++ bytes "\""))
      ≡ some (ok (record { name = some odd_name; filename = none })))
    × (disposition_params search_bytes (
          bytes "form-data; name=\""
          ++ (escape odd_name ++ (bytes "\"; filename=\"" ++ (escape [] ++ bytes "\""))))
        ≡ some (ok (record { name = some odd_name; filename = some [] })))
disposition_params-escape_example = disposition_params-escape search_bytes odd_name []

abbrev form_headers : List Field
form_headers =
    record { name = bytes "content-type"; value = bytes "multipart/form-data; boundary=B" } ∷ []

parse_multipart-Decided_example :
    Decided limits (values form_headers content_type_name) field_body (
      parse_multipart search_bytes field_section numbered none field_list
        (some limits)
        form_headers
        (raw field_body))
unfolding values
parse_multipart-Decided_example =
    parse_multipart-Decided search_bytes field_section numbered none field_list limits form_headers
      field_body
