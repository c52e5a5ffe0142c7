-- ===== src/Http/Multipart/Accepts.antt =====
-- What `parse` of crates/plugins/http/src/multipart.rs comes to: it always answers, and what it accepts
-- is within the limits.
use rapira_windows.Common.{
  ℕ, zero, suc, ◌+◌, ◌-◌, ◌≤◌, ◌<◌, ◌≡◌, refl, true, false, Option, none, some, List, ◌++◌, arith,
  length, drop, Bool-cases, inl, inr, ltb,
}
use rapira_windows.Http.{bytes, Result, ok, err}
use rapira_windows.Http.Memchr.{Memchr}
use rapira_windows.Http.Multipart.{Limits, Header, MultipartBody, bad}
use rapira_windows.Http.Multipart.Delimiter.{DelimHit}
use rapira_windows.Http.Multipart.FirstLine.{first_line}
use rapira_windows.Http.Multipart.Scan.{next_delimiter-eq-first_line}
use rapira_windows.Http.Multipart.Advance.{Ahead, first_line-Ahead}
use rapira_windows.Http.Multipart.Disposition.{Disposition}
use rapira_windows.Http.Multipart.Part.{
  HeaderSection, complete, partial, too_many_headers, malformed, Seen, collect, nothing_seen,
  push_part, read_part, parse_part, with_params, with_disposition, with_headers, with_section,
}
use rapira_windows.Http.Multipart.Parse.{
  slice, part_end, no_parts, find_delimiter, parse_from, parse,
}
use rapira_windows.Http.Multipart.Terminates.{Answered, answered, disposition_params-Answered}
use rapira_windows.Http.Multipart.Within.{Within, Room, not_ltb, parse_part-Within}

-- What a search for a delimiter line answers.
data Scanned (body delim : List ℕ) (from : ℕ) : Option (Option DelimHit) → Type 0 where
  no_line : Scanned body delim from (some none)
  line : (hit : DelimHit) → Ahead body delim from hit → Scanned body delim from (some (some hit))

-- What an accepted body must be within, or nothing for a refusal.
pub data Outcome (limits : Limits) : Option (Result MultipartBody) → Type 0 where
  refused : (e : _) → Outcome limits (some (err e))
  accepted : (mb : MultipartBody) → Within limits mb → Outcome limits (some (ok mb))

module _ (m : Memchr) (parse_headers : List ℕ → ℕ → HeaderSection)
    (spool : ℕ → List ℕ → Option ℕ) where
  find_delimiter-Scanned :
      (body delim : List ℕ) (from : ℕ)
      → 0 < length delim
      → from ≤ length body
      → Scanned body delim from (find_delimiter m parse_headers spool body from delim)
  find_delimiter-Scanned body delim from p le =
      rw (next_delimiter-eq-first_line m body delim (suc (length body)) from p le (omega arith))
        (go (first_line (length body - from) body from delim) refl)
    where
      go :
          (o : Option DelimHit)
          → first_line (length body - from) body from delim ≡ o
          → Scanned body delim from (some o)
      go none e = no_line
      go (some hit) e = line hit (first_line-Ahead (length body - from) body delim from hit e)

  read_part-Answered :
      (headers : List Header) (body : List ℕ) (limits : Limits) (mb : MultipartBody)
      → Answered (read_part m parse_headers spool headers body limits mb)
  unfolding read_part
  read_part-Answered headers body limits mb =
      from_seen (collect headers (nothing_seen m parse_headers spool))
    where
      from_params :
          (s : Seen) (p : Option (Result Disposition))
          → Answered p
          → Answered (with_params m parse_headers spool p s body limits mb)
      from_params s _ (answered (err e)) = answered (err e)
      from_params s _ (answered (ok d)) =
          answered (push_part m parse_headers spool d s body limits mb)

      from_disposition :
          (s : Seen) (o : Option (List ℕ))
          → Answered (with_disposition m parse_headers spool o s body limits mb)
      from_disposition s none = answered _
      from_disposition s (some v) = from_params s _ (disposition_params-Answered m v)

      from_seen : (c : Result Seen) → Answered (with_headers m parse_headers spool c body limits mb)
      from_seen (err e) = answered (err e)
      from_seen (ok s) = from_disposition s s.disposition

  parse_part-Answered :
      (part : List ℕ) (limits : Limits) (mb : MultipartBody)
      → Answered (parse_part m parse_headers spool part limits mb)
  unfolding parse_part
  parse_part-Answered part limits mb = go (parse_headers part limits.max_part_headers)
    where
      go : (h : HeaderSection) → Answered (with_section m parse_headers spool h part limits mb)
      go (complete len headers) = read_part-Answered headers (drop len part) limits mb
      go partial = answered _
      go too_many_headers = answered _
      go malformed = answered _

  part-Outcome :
      (limits : Limits) (part : List ℕ) (mb : MultipartBody)
      → Room limits mb
      → Within limits mb
      → Outcome limits (parse_part m parse_headers spool part limits mb)
  part-Outcome limits part mb r w =
      go (parse_part m parse_headers spool part limits mb) refl (parse_part-Answered part limits mb)
    where
      go :
          (o : Option (Result MultipartBody))
          → parse_part m parse_headers spool part limits mb ≡ o
          → Answered o
          → Outcome limits o
      go _ e (answered (err bad)) = refused bad
      go _ e (answered (ok mb')) =
          accepted mb' (parse_part-Within m parse_headers spool limits part mb mb' r w e)

  module _ (body delim : List ℕ) (limits : Limits) where
    Rounds : ℕ → Type 0
    Rounds n =
        (start : ℕ) (mb : MultipartBody)
        → start ≤ length body
        → length body - start < n
        → Within limits mb
        → Outcome limits (parse_from m parse_headers spool n body delim limits start mb)

    next_round :
        (n start : ℕ) (ending : DelimHit) (o : Option (Result MultipartBody))
        → 0 < length delim
        → length body - start < suc n
        → start ≤ length body
        → Ahead body delim start ending
        → Rounds n
        → Outcome limits o
        → Outcome limits (elim o [
          | none ↦ none
          | some (err e) ↦ some (err e)
          | some (ok mb') ↦ elim ending.is_close [
            | true ↦ some (ok mb')
            | false ↦ parse_from m parse_headers spool n body delim limits ending.after mb'
          ]
        ])
    unfolding Rounds
    next_round n start ending _ p lt le a later (refused e) = refused e
    next_round n start ending _ p lt le a later (accepted mb w) =
        elim (Bool-cases ending.is_close) [
          | inl closes ↦ simp closes (accepted mb w)
          | inr goes_on ↦ simp goes_on (
              later ending.after mb a.in_body
                (omega (arith, lt, le, p, a.not_before, a.behind, a.in_body)) w)
        ]

    parse_from-Outcome : (n : ℕ) → 0 < length delim → Rounds n
    unfolding parse_from Rounds
    parse_from-Outcome zero p start mb le lt w = absurd (omega (arith, lt))
    parse_from-Outcome (suc n) p start mb le lt w =
        let later = parse_from-Outcome n p in
        elim (Bool-cases (ltb limits.max_parts (length mb.fields + length mb.files + 1))) [
          | inl many ↦ rw (many, parse_from) (refused _)
          | inr few ↦
              rw (few, parse_from)
                (go _ (find_delimiter-Scanned body delim start p le) later
                  (omega (arith, not_ltb _ _ few)))
        ]
      where
        go :
            (o : Option (Option DelimHit))
            → Scanned body delim start o
            → Rounds n
            → Room limits mb
            → Outcome limits (elim o [
              | none ↦ none
              | some none ↦ some (err (bad "no closing boundary line"))
              | some (some ending) ↦
                  elim (parse_part m parse_headers spool
                    (slice body start (part_end body start ending.line_start))
                    limits
                    mb) [
                      | none ↦ none
                      | some (err e) ↦ some (err e)
                      | some (ok mb') ↦ elim ending.is_close [
                        | true ↦ some (ok mb')
                        | false ↦
                            parse_from m parse_headers spool n body delim limits ending.after mb'
                      ]
                    ]
            ])
        go _ no_line later room = refused _
        go _ (line ending a) later room = next_round n start ending _ p lt le a later (
            part-Outcome limits (slice body start (part_end body start ending.line_start)) mb room
              w)

  -- `parse` always answers: it refuses the body, or it accepts it and then the parts are at most
  -- `max_parts`, the files at most `max_files`, each field and file is within its size, and none has an
  -- empty name.
  pub parse-Outcome :
      (body boundary : List ℕ) (limits : Limits)
      → Outcome limits (parse m parse_headers spool body boundary limits)
  unfolding parse
  parse-Outcome body boundary limits =
      go _ (find_delimiter-Scanned body delim 0 positive (omega arith))
    where
      delim : List ℕ
      delim = bytes "--" ++ boundary

      positive : 0 < length delim
      positive = omega arith

      go :
          (o : Option (Option DelimHit))
          → Scanned body delim 0 o
          → Outcome limits (elim o [
            | none ↦ none
            | some none ↦ some (err (bad "no opening boundary line"))
            | some (some opening) ↦ elim opening.is_close [
              | true ↦ some (ok no_parts)
              | false ↦
                  parse_from m parse_headers spool
                    (suc (length body))
                    body
                    delim
                    limits
                    opening.after
                    no_parts
            ]
          ])
      go _ no_line = refused _
      go _ (line opening a) =
          let fresh : Within limits no_parts = record {
            parts = omega arith;
            files = omega arith;
            fields_ok = tt;
            files_ok = tt;
          } in
          elim (Bool-cases opening.is_close) [
            | inl closes ↦ simp closes (accepted no_parts fresh)
            | inr goes_on ↦ simp goes_on (
                unfold Rounds in
                parse_from-Outcome body delim limits (suc (length body)) positive opening.after
                  no_parts a.in_body (omega arith) fresh)
          ]
