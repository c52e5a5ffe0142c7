-- ===== src/Http/Exchange/CallsWritten.antt =====
-- crates/plugins/http/src/php: what each call of PHP puts on the channel, of the bytes that it writes.
use mathlib.Core.Path.{subst}
use mathlib.Core.List.{append-nil}
use rapira_windows.Common.{
  ℕ, zero, suc, ◌+◌, ◌-◌, ◌%◌, ◌≡◌, refl, sym, ◌∙◌, ap, Bool, true, false, not, ◌&&◌, if_split,
  Option, none, some, Bool-cases, inl, inr, List, [], ◌∷◌, ◌++◌, length, take, drop,
  take-append-drop, any, ltb, leb, ◌==◌, if◌then◌else◌, arith,
}
use rapira_windows.Pool.Scoreboard.{u64}
use rapira_windows.Http.HeaderMap.{HeaderMap}
use rapira_windows.Http.Reply.{File, Frame, chunk, file, Sender}
use rapira_windows.Http.Bridge.Stream.{bytes_in}
use rapira_windows.Http.Exchange.{
  Verb, content_length_exceeded, is_finalized, is_open, Sent, ExchangeState, emit_head,
  discard_unit, seal, cancelled,
}
use rapira_windows.Http.Exchange.Head.{
  Checked, SplitHead, passed, failed, forbidden_trailer, split_framing,
}
use rapira_windows.Http.Exchange.Files.{FileSlice}
use rapira_windows.Http.Exchange.Calls.{
  Exception, ℤ, pos, negsuc, unless_lost, send_fit, exceed, exceeds, seal_at_end, send_part,
  send_body, write_body, write_body_core, send_slice, send_file_core, write_head, write_head_core,
  head_of, write_trailers, write_trailers_core, flush, flush_verb, thrown, commits, is_interim,
  seals,
}
use rapira_windows.Http.Exchange.Written.{
  body_of, Written, Put, Tried, came, failed_to, send_frame-Tried, emit_head-Tried, seal-Put,
  seal-finalized, Put-trans, over, drops, writes_all, writes_none, discards-Written,
}

-- The frames of a call stand for its bytes.
record Framing {Map : Type 0} (content : File → List ℕ) (len : ℕ) (frame : ℕ → Frame Map)
    (p : List ℕ) : Type 0 where
  all_bytes : bytes_in content (frame len) ≡ p
  empty_call : len ≡ 0 → p ≡ []

module _ (header : HeaderMap) (empty : HeaderMap.Map header) {tx : Sender (HeaderMap.Map header)}
    (content : File → List ℕ) where
  open header use {Map, keys}
  open tx use {Tx, frames}

  pub stays : (st : ExchangeState tx) → Put content st [] st
  stays st = record { streamed = sym (append-nil (body_of content st)); bodiless = refl }

  -- A call that writes nothing.
  pub nothing : (st st' : ExchangeState tx) → Put content st [] st' → Written content st [] st'
  nothing st st' put = writes_all content st st' [] put (λ b. refl)

  -- After a send that failed, the unit is discarded.
  unless_lost-Written :
      (st : ExchangeState tx) (p q : List ℕ) (r : Sent × ExchangeState tx)
      (f : ExchangeState tx → Verb × ExchangeState tx)
      → Tried content st q r
      → ((st' : ExchangeState tx) → Put content st q st' → Written content st p (f st').1)
      → Written content st p (unless_lost header empty r f).1
  unless_lost-Written st p q r f (came st' put) later = later st' put
  unless_lost-Written st p q r f (failed_to st' put) later = discards-Written content st st' p put

  seal_at_end-Put :
      (st : ExchangeState tx) (eos : Bool) → Put content st [] (seal_at_end header empty eos st).1
  seal_at_end-Put st false = stays st
  seal_at_end-Put st true = seal-Put content st false

  behind :
      {st st' st'' : ExchangeState tx} {q : List ℕ}
      → Put content st q st'
      → Put content st' [] st''
      → Put content st q st''
  behind {st} {st'} {st''} {q} a b =
      subst (λ x. Put content st x st'') (append-nil q) (Put-trans content a b)

  Tried-after :
      {st u : ExchangeState tx} {q : List ℕ} {r : Sent × ExchangeState tx}
      → Put content st [] u
      → Tried content u q r
      → Tried content st q r
  Tried-after put (came v p) = came v (Put-trans content put p)
  Tried-after put (failed_to v p) = failed_to v (Put-trans content put p)

  send_part-Written :
      (st st' : ExchangeState tx) (len : ℕ) (eos : Bool) (frame : ℕ → Frame Map) (p : List ℕ)
      → Framing content len frame p
      → Put content st [] st'
      → Written content st p (send_part header empty len eos frame st').1
  unfolding send_part
  send_part-Written st st' len eos frame p fr put =
      if_split (λ (r : Verb × ExchangeState tx). Written content st p r.1)
        (ltb 0 len && not st'.bodiless)
        (λ e.
          unless_lost-Written st p (bytes_in content (frame len)) _ _
            (Tried-after start (send_frame-Tried content counted (frame len)))
            (λ u q.
              writes_all content st _ p
                (subst (λ x. Put content st x (seal_at_end header empty eos u).1) fr.all_bytes
                  (behind q (seal_at_end-Put u eos)))
                (λ b.
                  absurd
                    (let up : st'.bodiless ≡ true = put.bodiless ∙ b in ground (arith, e, up)))))
        (λ e. elim (Bool-cases st.bodiless) [
          | inl b ↦ writes_none content st _ p b (behind start (seal_at_end-Put counted eos))
          | inr b ↦
              let down : st'.bodiless ≡ false = put.bodiless ∙ b in
              let z : len ≡ 0 = ground (arith, e, down) in
              writes_all content st _ p
                (subst (λ x. Put content st x (seal_at_end header empty eos counted).1)
                  (sym (fr.empty_call z)) (behind start (seal_at_end-Put counted eos)))
                (λ b'. fr.empty_call z)
        ])
    where
      counted : ExchangeState tx
      counted = record st' { sent_body = (st'.sent_body + len) % u64 }

      start : Put content st [] counted
      start = record { streamed = put.streamed; bodiless = put.bodiless }

  -- The part of a write that fits.
  record Fits (st : ExchangeState tx) (frame : ℕ → Frame Map) (p : List ℕ) (st' : ExchangeState tx)
      : Type 0 where
    part : List ℕ
    rest : List ℕ
    put : Put content st part st'
    parts : p ≡ part ++ rest
    quiet : st.bodiless ≡ true → part ≡ []

  send_fit-Fits :
      (st : ExchangeState tx) (r : Sent × ExchangeState tx) (fit : ℕ) (frame : ℕ → Frame Map)
      (p : List ℕ)
      → ((n : ℕ) → (rest : List ℕ) × (p ≡ bytes_in content (frame n) ++ rest))
      → Tried content st [] r
      → Fits st frame p (send_fit header empty r fit frame)
  unfolding send_fit
  send_fit-Fits st r fit frame p cut (failed_to st' put) = record {
    part = [];
    rest = p;
    put = put;
    parts = refl;
    quiet = λ b. refl;
  }
  send_fit-Fits st r fit frame p cut (came st' put) =
      if_split (Fits st frame p) (ltb 0 fit && not st'.bodiless)
        (λ e.
          sends (Tried-after put (send_frame-Tried content st' (frame fit))) (λ b.
            absurd (let up : st'.bodiless ≡ true = put.bodiless ∙ b in ground (arith, e, up))))
        (λ e. record { part = []; rest = p; put = put; parts = refl; quiet = λ b. refl })
    where
      sends :
          {r : Sent × ExchangeState tx}
          → Tried content st (bytes_in content (frame fit)) r
          → (st.bodiless ≡ true → ⊥)
          → Fits st frame p r.1
      sends (came u q) has_body = record {
        part = bytes_in content (frame fit);
        rest = (cut fit).0;
        put = q;
        parts = (cut fit).1;
        quiet = λ b. absurd (has_body b);
      }
      sends (failed_to u q) has_body = record {
        part = [];
        rest = p;
        put = q;
        parts = refl;
        quiet = λ b. refl;
      }

  exceed-Written :
      (st : ExchangeState tx) (cl : Option ℕ) (n : ℕ) (frame : ℕ → Frame Map) (p : List ℕ)
      → exceeds cl n ≡ true
      → ((n : ℕ) → (rest : List ℕ) × (p ≡ bytes_in content (frame n) ++ rest))
      → Written content st p (exceed header empty st cl frame).1
  unfolding exceed
  exceed-Written st none n frame p e cut = absurd (cc)
  exceed-Written st (some cl) n frame p e cut =
      let u = send_fit header empty (emit_head empty st (some cl)) (cl - st.sent_body) frame in
      let f =
        send_fit-Fits st (emit_head empty st (some cl)) (cl - st.sent_body) frame p cut
          (emit_head-Tried content empty st (some cl)) in
      sealed (record u { sent_body = cl }) f.part f.rest
        (record { streamed = f.put.streamed; bodiless = f.put.bodiless }) f.parts f.quiet
    where
      sealed :
          (u : ExchangeState tx) (q rest : List ℕ)
          → Put content st q u
          → p ≡ q ++ rest
          → (st.bodiless ≡ true → q ≡ [])
          → Written content st p (seal u false)
      sealed u q rest put parts quiet =
          over content st (seal u false) p q rest (behind put (seal-Put content u false)) parts
            quiet (seal-finalized content u false)

  send_body-Written :
      (st : ExchangeState tx) (len : ℕ) (eos : Bool) (frame : ℕ → Frame Map) (p : List ℕ)
      → Framing content len frame p
      → (exceeds st.declared_cl ((st.sent_body + len) % u64) ≡ true
          → (n : ℕ) → (rest : List ℕ) × (p ≡ bytes_in content (frame n) ++ rest))
      → Written content st p (send_body header empty st len eos frame).1
  unfolding send_body
  send_body-Written st len eos frame p fr cut =
      if_split (λ (r : Verb × ExchangeState tx). Written content st p r.1)
        (exceeds st.declared_cl ((st.sent_body + len) % u64))
        (λ e. exceed-Written st st.declared_cl _ frame p e (cut e))
        (λ e.
          unless_lost-Written st p [] _ _ (emit_head-Tried content empty st _)
            (λ st' put. send_part-Written st st' len eos frame p fr put))

  guarded-Written :
      (st : ExchangeState tx) (v w : Verb) (r : Verb × ExchangeState tx) (p : List ℕ)
      → Written content st p r.1
      → Written content st p
          (if cancelled st
            then (v, discard_unit st)
            else if is_finalized st.stage
            then (w, st)
            else r).1
  guarded-Written st v w r p h =
      if_split (λ (x : Verb × ExchangeState tx). Written content st p x.1) (cancelled st)
        (λ e. discards-Written content st st p (stays st))
        (λ e.
          if_split (λ (x : Verb × ExchangeState tx). Written content st p x.1)
            (is_finalized st.stage) (λ e'. drops content st st p (stays st) e') (λ e'. h))

  pub write_body-Written :
      (st : ExchangeState tx) (p : List ℕ) (eos : Bool)
      → Written content st p (write_body header empty st p eos).1
  unfolding write_body thrown write_body_core
  write_body-Written st p eos = guarded-Written st _ _ _ p (
      if_split (λ (r : Verb × ExchangeState tx). Written content st p r.1)
        (length p == 0 && not eos)
        (λ e.
          writes_all content st st p
            (subst (λ x. Put content st x st) (sym (no_bytes p e)) (stays st)) (λ b. no_bytes p e))
        (λ e.
          send_body-Written st (length p) eos (λ n. chunk (take n p)) p
            (record { all_bytes = take_whole p; empty_call = empty_list p })
            (λ e' n. (drop n p, sym (take-append-drop n p)))))
    where
      empty_list : (p : List ℕ) → length p ≡ 0 → p ≡ []
      empty_list [] e = refl
      empty_list (x ∷ xs) e = absurd (omega (arith, e))

      no_bytes : (p : List ℕ) → length p == 0 && not eos ≡ true → p ≡ []
      no_bytes p e = empty_list p (ground (arith, e))

      take_whole : (p : List ℕ) → take (length p) p ≡ p
      take_whole [] = refl
      take_whole (x ∷ xs) = ap (◌∷◌ x) (take_whole xs)

  -- The bytes of a file that PHP sends; one past the declared length is refused as a whole.
  abbrev pub slice_of : ExchangeState tx → ℕ → Checked FileSlice → List ℕ
  slice_of st offset (failed msg) = []
  slice_of st offset (passed s) =
      if exceeds st.declared_cl ((st.sent_body + s.len) % u64)
      then []
      else take s.len (drop offset (content s.handle))

  send_slice-Written :
      (st : ExchangeState tx) (offset : ℕ) (eos : Bool) (opened : Checked FileSlice)
      → Written content st
          (slice_of st offset opened)
          (send_slice header empty st offset eos opened).1
  unfolding send_slice
  send_slice-Written st offset eos (failed msg) = nothing st st (stays st)
  send_slice-Written st offset eos (passed s) =
      by_length (exceeds st.declared_cl ((st.sent_body + s.len) % u64)) refl
    where
      none_taken : (n : ℕ) (xs : List ℕ) → n ≡ 0 → take n xs ≡ []
      none_taken zero xs e = refl
      none_taken (suc n) xs e = absurd (omega (arith, e))

      by_length :
          (long : Bool)
          → exceeds st.declared_cl ((st.sent_body + s.len) % u64) ≡ long
          → Written content st
              (if long then [] else take s.len (drop offset (content s.handle)))
              (if long
                then (content_length_exceeded, st)
                else send_body header empty st s.len eos (λ n. file s.handle offset n)).1
      by_length true e = nothing st st (stays st)
      by_length false e =
          send_body-Written st s.len eos (λ n. file s.handle offset n) _
            (record { all_bytes = refl; empty_call = λ z. none_taken s.len _ z })
            (λ e'. absurd (let bad : true ≡ false = sym e' ∙ e in cc))

  pub send_file-Written :
      (st : ExchangeState tx) (offset : ℕ) (eos : Bool) (opened : Checked FileSlice)
      → Written content st
          (slice_of st offset opened)
          (send_file_core header empty st offset eos opened).1
  unfolding send_file_core
  send_file-Written st offset eos opened =
      guarded-Written st _ _ _ _ (send_slice-Written st offset eos opened)

  lost_or :
      (st : ExchangeState tx) (fin : Option ℕ) (f : ExchangeState tx → Verb × ExchangeState tx)
      → ((u : ExchangeState tx) → Put content st [] u → Written content st [] (f u).1)
      → Written content st [] (unless_lost header empty (emit_head empty st fin) f).1
  lost_or st fin f later =
      unless_lost-Written st [] [] _ f (emit_head-Tried content empty st fin) later

  pub flush-Written : (st : ExchangeState tx) → Written content st [] (flush header empty st).1
  unfolding flush thrown flush_verb
  flush-Written st = guarded-Written st _ _ _ [] (lost_or st none _ (λ u put. nothing st u put))

  pub write_trailers-Written :
      (st : ExchangeState tx) (map : Checked Map)
      → Written content st [] (write_trailers header empty st map).1
  unfolding write_trailers thrown write_trailers_core
  write_trailers-Written st (failed msg) = nothing st st (stays st)
  write_trailers-Written st (passed map) =
      if_split (λ (r : Option Exception × ExchangeState tx). Written content st [] r.1)
        (any forbidden_trailer (keys map)) (λ e. nothing st st (stays st))
        (λ e. guarded-Written st _ _ _ [] (
          if_split (λ (r : Verb × ExchangeState tx). Written content st [] r.1) (is_open st.stage)
            (λ e'. nothing st st (stays st))
            (λ e'.
              lost_or st (some st.sent_body) (seals header empty)
                (λ u put. nothing st _ (behind put (seal-Put content u false))))))

  -- The head is kept, and may say that there is no body.
  commit-Written :
      (st : ExchangeState tx) (status : ℕ) (split : Checked (SplitHead Map))
      → Written content st [] (commits header empty st status split).1
  commit-Written st status (failed msg) = nothing st st (stays st)
  commit-Written st status (passed split) = record {
    part = [];
    rest = [];
    streamed = sym (append-nil (body_of content st));
    parts = refl;
    whole = λ live body. refl;
    no_body = λ b. (ground (arith, b), refl);
  }

  head_of-Written :
      (st : ExchangeState tx) (status : ℕ) (map : Checked Map)
      → Written content st [] (head_of header empty st status map).1
  unfolding head_of thrown write_head_core
  head_of-Written st status (failed msg) = nothing st st (stays st)
  head_of-Written st status (passed map) =
      if_split (λ (r : Verb × ExchangeState tx). Written content st [] r.1) (cancelled st)
        (λ e. discards-Written content st st [] (stays st))
        (λ e.
          if_split (λ (r : Verb × ExchangeState tx). Written content st [] r.1)
            (not (is_open st.stage)) (λ late. nothing st st (stays st))
            (λ early.
              if_split (λ (r : Verb × ExchangeState tx). Written content st [] r.1)
                (is_interim status) (λ interim. nothing st st (stays st))
                (λ final. commit-Written st status (split_framing header map))))

  pub write_head-Written :
      (st : ExchangeState tx) (status : ℤ) (map : Checked Map)
      → Written content st [] (write_head header empty st status map).1
  unfolding write_head
  write_head-Written st (negsuc n) map = nothing st st (stays st)
  write_head-Written st (pos status) map =
      if_split (λ (x : Option Exception × ExchangeState tx). Written content st [] x.1)
        (leb 100 status && leb status 599) (λ e. head_of-Written st status map)
        (λ e. nothing st st (stays st))
