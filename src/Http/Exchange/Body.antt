-- ===== src/Http/Exchange/Body.antt =====
-- crates/plugins/http/src/php/respond.rs: a write past the declared length, and `send_body` as a whole.
use rapira_windows.Common.{
  ℕ, ◌+◌, ◌-◌, ◌%◌, ◌≤◌, ◌<◌, ◌≡◌, refl, sym, ◌∙◌, ap, inl, inr, Bool, true, false, ◌&&◌, not,
  if_split, Option, none, some, [], ltb, ◌==◌, le→leb, leb→le, ltb→lt, if◌then◌else◌, arith,
}
use rapira_windows.Pool.Scoreboard.{u64}
use rapira_windows.Http.HeaderMap.{HeaderMap}
use rapira_windows.Http.Reply.{Frame, Sender}
use rapira_windows.Http.Reply.Protocol.{streaming, after, phase, phase_snoc, within}
use rapira_windows.Http.Exchange.{Verb, Sent, ExchangeState, emit_head, length_of_head, or_else}
use rapira_windows.Http.Exchange.Sends.{Sends, took, missed, send_frame-Sends}
use rapira_windows.Http.Exchange.Valid.{
  reached, is_fair, IsGoing, IsLive, IsDone, IsValid, IsEndable, seal-IsDone,
}
use rapira_windows.Http.Exchange.Writes.{IsReady-IsEndable, Emitted, ready, dead, emit_head-Emitted}
use rapira_windows.Http.Exchange.Calls.{exceeds, send_fit, exceed, send_part, send_body}
use rapira_windows.Http.Exchange.Finish.{
  IsCarrying, unless_lost-IsValid, send_part-IsValid, sum_fits, within_of, length_covers,
  length_declared,
}

-- The length of a head is the declared one, if there is one and a body.
length_of-some :
    (o : Option ℕ) (bodiless : Bool) (cl : ℕ)
    → o ≡ some cl
    → (if bodiless then o else or_else o (some cl)) ≡ some cl
length_of-some o true cl e = e
length_of-some o false cl e = rw e refl

module _ (header : HeaderMap) (empty : HeaderMap.Map header)
    {tx : Sender (HeaderMap.Map header)} where
  open header use {Map}
  open tx use {Tx, is_closed, frames}

  -- What a seal needs.
  abbrev IsSealable : ExchangeState tx → Type 0
  IsSealable st = (st.sender ≡ true) × (st.reported ≡ []) × IsEndable st

  fit_sent :
      (st : ExchangeState tx) (f : Frame Map) (c : Option ℕ) (n t u : ℕ)
      (r : Sent × ExchangeState tx)
      → IsGoing n st
      → reached st ≡ streaming c st.bodiless t
      → after (streaming c st.bodiless t) f ≡ streaming c st.bodiless u
      → Sends st f r
      → IsSealable r.1
  fit_sent st f c n t u r g before grown (took c' was_open fs) = (
    g.has_sender,
    g.unreported,
    inl (
      c,
      st.bodiless,
      u,
      ap phase fs ∙ phase_snoc (frames st.channel) f ∙ ap (λ p. after p f) before ∙ grown,
    ),
  )
  fit_sent st f c n t u r g before grown (missed c' gone fs) =
      (g.has_sender, g.unreported, inr (gone, ap (λ l. is_fair (phase l)) fs ∙ ap is_fair before))

  send_fit-IsSealable :
      (n cl len : ℕ) (st : ExchangeState tx) (frame : ℕ → Frame Map) (r : Sent × ExchangeState tx)
      → IsCarrying frame len
      → st.declared_cl ≡ some cl
      → st.sent_body ≤ cl
      → cl < st.sent_body + len
      → Emitted n st (some cl) r
      → IsSealable (send_fit header empty r (cl - st.sent_body) frame)
  unfolding send_fit
  send_fit-IsSealable n cl len st frame r carrying declared small over (dead st' g gone fair) =
      (g.has_sender, g.unreported, inr (gone, fair))
  send_fit-IsSealable n cl len st frame r carrying declared small over
        (ready st' c rd of_length same) =
      if_split IsSealable (ltb 0 (cl - st.sent_body) && not st'.bodiless)
        (λ e.
          let some_bytes : 0 < cl - st.sent_body = ground arith in
          let has_body : st'.bodiless ≡ false = ground arith in
          let length_is : c ≡ some cl = elim of_length [
            | inl d ↦ d ∙ declared
            | inr (d, z) ↦ d ∙ length_of-some st.declared_cl st.bodiless cl declared
          ] in
          let whole : rd.streams.0 + (cl - st.sent_body) ≡ cl =
            let h = rd.streams.2 has_body in let h' = same.1 in omega arith in
          fit_sent st' (frame (cl - st.sent_body)) c n rd.streams.0
            (rd.streams.0 + (cl - st.sent_body)) _ rd.going rd.streams.1
            (carrying (cl - st.sent_body) some_bytes (omega arith) c st'.bodiless rd.streams.0
              ∙ simp (has_body, whole, length_is, le→leb cl cl (omega arith)))
            (send_frame-Sends st' (frame (cl - st.sent_body)) rd.going.has_sender))
        (λ e. (rd.going.has_sender, rd.going.unreported, IsReady-IsEndable n st' c rd))

  exceed-IsDone :
      (n len : ℕ) (st : ExchangeState tx) (o : Option ℕ) (frame : ℕ → Frame Map)
      → IsCarrying frame len
      → IsLive n st
      → st.declared_cl ≡ o
      → exceeds o (st.sent_body + len) ≡ true
      → IsDone (exceed header empty st o frame).1
  unfolding exceed
  exceed-IsDone n len st none frame carrying l declared over = absurd (cc)
  exceed-IsDone n len st (some cl) frame carrying l declared over =
      let small : st.sent_body ≤ cl =
        leb→le _ _ (ap (λ o. within o st.sent_body) (sym declared) ∙ l.going.fits) in
      let st' = send_fit header empty (emit_head empty st (some cl)) (cl - st.sent_body) frame in
      let s =
        send_fit-IsSealable n cl len st frame _ carrying declared small (ltb→lt _ _ over)
          (emit_head-Emitted empty n st (some cl) l) in
      seal-IsDone (record st' { sent_body = cl }) false s.0 s.1 s.2

  pub send_body-IsValid :
      (n len : ℕ) (eos : Bool) (frame : ℕ → Frame Map) (st : ExchangeState tx)
      → IsCarrying frame len
      → n + len < u64
      → IsLive n st
      → IsValid (n + len) (send_body header empty st len eos frame).1
  unfolding send_body
  send_body-IsValid n len eos frame st carrying lt l =
      let sum = sum_fits st.sent_body n len l.going.small lt in
      if_split (λ (x : Verb × ExchangeState tx). IsValid (n + len) x.1)
        (exceeds st.declared_cl ((st.sent_body + len) % u64))
        (λ over. inr (
          exceed-IsDone n len st st.declared_cl frame carrying l refl
            (ap (exceeds st.declared_cl) (sym sum) ∙ over)))
        (λ under.
          let fits =
            within_of st.declared_cl (st.sent_body + len)
              (ap (exceeds st.declared_cl) (sym sum) ∙ under) in
          unless_lost-IsValid header empty n (n + len) st _ _ (send_part header empty len eos frame)
            (emit_head-Emitted empty n st (if eos && st.sent_body == 0 then some len else none) l)
            (λ st' c rd of_length same.
              send_part-IsValid header empty n len eos frame st' c carrying lt rd
                (ap (λ s. within c (s + len)) same.1 ∙ elim of_length [
                  | inl d ↦ ap (λ o. within o (st.sent_body + len)) d ∙ fits
                  | inr (d, z) ↦
                      ap (λ o. within o (st.sent_body + len)) d
                      ∙ length_covers st.declared_cl st.bodiless eos st.sent_body len fits z
                ])
                (ap (λ o. within o (st'.sent_body + len)) same.0
                  ∙ ap (λ s. within st.declared_cl (s + len)) same.1
                  ∙ fits)
                (λ e.
                  elim of_length [
                    | inl d ↦ d
                    | inr (d, z) ↦
                        d
                        ∙ ap
                            (λ b.
                              length_of_head st (if b && st.sent_body == 0 then some len else none))
                            e
                        ∙ length_declared st.declared_cl st.bodiless st.sent_body len
                  ]
                  ∙ sym same.0)))
