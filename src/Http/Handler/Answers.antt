-- ===== src/Http/Handler/Answers.antt =====
-- crates/plugins/http/src/handler.rs: the length that hyper frames a response with.
--
-- `header_name` and `number` are those of the response head, and `to_str` is `HeaderValue::to_str`.
use mathlib.Core.Path.{subst}
use rapira_windows.Common.{
  ℕ, ◌≡◌, refl, sym, ◌∙◌, ap, ◌⊎◌, inl, inr, Bool, true, false, ◌&&◌, ◌||◌, Bool-cases, Option,
  none, some, List, [], ◌∷◌, leb, ltb, ◌==◌, if_split, arith,
}
use rapira_windows.Http.Check.{parse_u64}
use rapira_windows.Http.Check.Length.{Says, parse_u64_iff}
use rapira_windows.Http.HeaderMap.{HeaderMap}
use rapira_windows.Http.Reply.{ResponseHead, head}
use rapira_windows.Http.Response.{length_name, response_headers}
use rapira_windows.Http.Response.HopByHop.{
  carried-length_name, carried-length_name-none, response_headers-carried,
}
use rapira_windows.Http.Handler.{
  BodyKind, empty_body, reply_body, Response, has_length, body_kind, forwarded_status,
  header_length, framed_length, or_ended, answer, answer_of, with_head, reply_head,
}

-- `is_end_stream` and the exact size of a `RespBody`; a ReplyBody says neither.
abbrev pub is_ended : BodyKind → Bool
is_ended empty_body = true
is_ended (reply_body w) = false

abbrev pub exact_size : BodyKind → Option ℕ
exact_size empty_body = some 0
exact_size (reply_body w) = none

-- The method or the status leaves no body.
abbrev pub forbids_body : Bool → ℕ → Bool
forbids_body is_head status = is_head || status == 204 || status == 304

forwarded_final :
    (status : ℕ) → leb 100 (forwarded_status status) && ltb (forwarded_status status) 200 ≡ false
unfolding forwarded_status
forwarded_final status =
    if_split (λ s. leb 100 s && ltb s 200 ≡ false)
      (leb 100 status && leb status 999 && leb 200 status) (λ e. ground arith) (λ e. refl)

forwarded_same : (status : ℕ) → (status ≡ 204) ⊎ (status ≡ 304) → forwarded_status status ≡ status
unfolding forwarded_status
forwarded_same status (inl e) = rw e refl
forwarded_same status (inr e) = rw e refl

framed_none :
    (is_head : Bool) (status : ℕ) (parsed exact : Option ℕ) (ended : Bool)
    → forbids_body is_head status ≡ true
    → framed_length is_head status parsed ended exact ≡ some 0
unfolding framed_length
framed_none true status parsed exact ended e = refl
framed_none false status parsed exact ended e =
    if_split (λ x. x ≡ some 0)
      ((leb 100 status && ltb status 200) || status == 204 || status == 304) (λ h. refl)
      (λ h. absurd (let h' = e in ground arith))

framed_parsed :
    (is_head : Bool) (status : ℕ) (parsed exact : Option ℕ) (ended : Bool)
    → forbids_body is_head status ≡ false
    → leb 100 status && ltb status 200 ≡ false
    → framed_length is_head status parsed ended exact ≡ or_ended ended exact parsed
unfolding framed_length
framed_parsed true status parsed exact ended e final = absurd (cc)
framed_parsed false status parsed exact ended e final =
    if_split (λ x. x ≡ or_ended ended exact parsed)
      ((leb 100 status && ltb status 200) || status == 204 || status == 304)
      (λ h. absurd (let h' = e in let h'' = final in ground arith)) (λ h. refl)

header_length_same :
    (is_head : Bool) (status : ℕ) (cl : Option ℕ)
    → forbids_body is_head status ≡ false
    → header_length status cl ≡ cl
header_length_same is_head status cl e =
    if_split (λ x. x ≡ cl) (status == 204 || status == 304) (λ h. absurd (ground arith)) (λ h. refl)

module _ (header : HeaderMap) (header_name : List ℕ → Option (List ℕ)) (number : ℕ → List ℕ)
    (to_str : List ℕ → Option (List ℕ)) where
  open header use {Map, get_all}

  -- The Content-Length header, as a u64.
  unfoldable pub parsed_length : List (List ℕ) → Option ℕ
  unfolding parse_u64
  parsed_length [] = none
  parsed_length (v ∷ more) = elim (to_str v) [ none ↦ none | some s ↦ parse_u64 s ]

  -- The length that hyper frames this response with.
  unfoldable pub framed_of : Bool → Response Map → Option ℕ
  unfolding framed_length parsed_length
  framed_of is_head r =
      framed_length is_head r.status (parsed_length (get_all r.headers length_name))
        (is_ended r.kind) (exact_size r.kind)

  pub data Framed (is_head : Bool) (cl : Option ℕ) (r : Response Map) : Option ℕ → Type 0 where
    no_body : forbids_body is_head r.status ≡ true → Framed is_head cl r (some 0)
    of_reply : r.kind ≡ reply_body (has_length cl) → Framed is_head cl r cl

  -- What `number` writes for this length is a text that says it.
  abbrev pub IsPrinted : Option ℕ → Type 0
  IsPrinted none = Unit
  IsPrinted (some n) = (s : List ℕ) × (to_str (number n) ≡ some s) × Says s n

  length_read :
      (h : Map) (cl : Option ℕ)
      → IsPrinted cl
      → parsed_length (get_all (response_headers header header_name number h cl) length_name) ≡ cl
  unfolding parsed_length
  length_read h none printed = ap parsed_length (
      response_headers-carried header header_name number h none length_name
      ∙ carried-length_name-none header header_name number h)
  length_read h (some n) (s, e, says) =
      ap parsed_length (
        response_headers-carried header header_name number h (some n) length_name
        ∙ carried-length_name header header_name number h n)
      ∙ rw (e, parsed_length) ((parse_u64_iff s n).1 says)

  answered_kind :
      (is_head b : Bool) (status : ℕ) (cl : Option ℕ)
      → (b ≡ true → (is_head ≡ true) ⊎ (status ≡ 204) ⊎ (status ≡ 304))
      → forbids_body is_head (forwarded_status status) ≡ false
      → b ≡ false
  answered_kind is_head true status cl h e = elim (h refl) [
    | inl method ↦ absurd (ground arith)
    | inr s ↦ absurd (
        let same = forwarded_same status s in
        no_such is_head (forwarded_status status) status same s e)
  ]
    where
      no_such :
          (is_head : Bool) (f status : ℕ)
          → f ≡ status
          → (status ≡ 204) ⊎ (status ≡ 304)
          → forbids_body is_head f ≡ false
          → ⊥
      no_such true f status e s h = absurd (cc)
      no_such false f status e (inl s) h = ground arith
      no_such false f status e (inr s) h = ground arith
  answered_kind is_head false status cl h e = refl

  -- If a head without a body comes for HEAD, 204 or 304 alone, and a declared length is written as
  -- the decimal digits of a number of 64 bits, hyper frames the response of a head with zero bytes
  -- where the method or the status leaves no body, and otherwise with the length of the head over a
  -- ReplyBody, or as chunked where it has none.
  pub answer-Framed :
      (error_response : ℕ → Response Map) (h : ResponseHead Map) (cl : Option ℕ) (b is_head : Bool)
      → IsPrinted cl
      → (b ≡ true → (is_head ≡ true) ⊎ (h.status ≡ 204) ⊎ (h.status ≡ 304))
      → Framed is_head cl
          (answer (response_headers header header_name number) error_response (some (head h cl b)))
          (framed_of is_head (
            answer
              (response_headers header header_name number)
              error_response
              (some (head h cl b))))
  unfolding answer answer_of with_head reply_head framed_of
  answer-Framed error_response h cl b is_head printed bodiless =
      let s = forwarded_status h.status in
      let r =
        answer (response_headers header header_name number) error_response (some (head h cl b)) in
      elim (Bool-cases (forbids_body is_head s)) [
        | inl forbidden ↦
            subst (Framed is_head cl r)
              (sym (
                framed_none is_head s (parsed_length (get_all r.headers length_name))
                  (exact_size r.kind) (is_ended r.kind) forbidden))
              (no_body forbidden)
        | inr allowed ↦
            let plain : b ≡ false = answered_kind is_head b h.status cl bodiless allowed in
            let kind : r.kind ≡ reply_body (has_length cl) = ap (λ x. body_kind x cl) plain in
            let parsed : parsed_length (get_all r.headers length_name) ≡ cl =
              ap
                (λ x.
                  parsed_length
                    (get_all (response_headers header header_name number h.headers x) length_name))
                (header_length_same is_head s cl allowed)
              ∙ length_read h.headers cl printed in
            subst (Framed is_head cl r)
              (sym (
                framed_parsed is_head s _ (exact_size r.kind) (is_ended r.kind) allowed
                  (forwarded_final h.status)
                ∙ ap (or_ended (is_ended r.kind) (exact_size r.kind)) parsed
                ∙ ap (λ k. or_ended (is_ended k) (exact_size k) cl) kind
                ∙ reply_length cl))
              (of_reply kind)
      ]
    where
      reply_length : (o : Option ℕ) → or_ended false none o ≡ o
      reply_length none = refl
      reply_length (some n) = refl
