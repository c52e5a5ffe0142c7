-- ===== src/Http/Exchange/Keeps.antt =====
-- crates/plugins/http/src/php/respond.rs and sendfile.rs: every call keeps an exchange valid.
use rapira_windows.Common.{
  ℕ, zero, suc, ◌+◌, ◌%◌, ◌<◌, ◌≡◌, refl, sym, ◌∙◌, ap, inl, inr, Bool, true, false, ◌&&◌, not,
  if_split, Option, none, some, List, [], length, take, any, ◌==◌, length-take, if◌then◌else◌,
  arith,
}
use rapira_windows.Pool.Scoreboard.{u64}
use rapira_windows.Http.HeaderMap.{HeaderMap}
use rapira_windows.Http.Reply.{chunk, file, Sender}
use rapira_windows.Http.Reply.Protocol.{phase, grow}
use rapira_windows.Http.Exchange.{
  Verb, BodyState, is_open, is_finalized, ExchangeState, cancelled, discard_unit, new,
}
use rapira_windows.Http.Exchange.Head.{Checked, passed, failed, forbidden_trailer}
use rapira_windows.Http.Exchange.Files.{FileSlice}
use rapira_windows.Http.Exchange.Valid.{
  reached, is_fair, IsSoFar, IsLive, IsValid, discard_unit-IsDone, seal-IsDone,
}
use rapira_windows.Http.Exchange.Writes.{
  IsReady-IsLive, IsReady-IsEndable, emit_head-Emitted, length_of-none,
}
use rapira_windows.Http.Exchange.Calls.{
  Exception, write_trailers, write_trailers_core, write_body, write_body_core, send_slice,
  send_file_core, exceeds, flush, flush_verb, thrown,
}
use rapira_windows.Http.Exchange.Finish.{IsCarrying, unless_lost-IsValid}
use rapira_windows.Http.Exchange.Body.{send_body-IsValid}

module _ {Map : Type 0} {tx : Sender Map} where
  open tx use {Tx, is_closed, frames}

  pub IsLive-fair : (n : ℕ) (st : ExchangeState tx) → IsLive n st → is_fair (reached st) ≡ true
  IsLive-fair n st l = by_head st.head_sent l.so_far
    where
      by_head : (b : Bool) → IsSoFar b st → is_fair (reached st) ≡ true
      by_head false s = ap is_fair s.0
      by_head true s = ap is_fair s.1.1

  pub IsValid-fair : (n : ℕ) (st : ExchangeState tx) → IsValid n st → is_fair (reached st) ≡ true
  IsValid-fair n st (inl l) = IsLive-fair n st l
  IsValid-fair n st (inr d) = d.fair

  pub wider : (n k : ℕ) (st : ExchangeState tx) → IsValid n st → IsValid (n + k) st
  wider n k st (inr d) = inr d
  wider n k st (inl l) = inl (record {
    going = record {
      has_sender = l.going.has_sender;
      not_over = l.going.not_over;
      unreported = l.going.unreported;
      small = (let h = l.going.small in omega arith);
      fits = l.going.fits;
    };
    so_far = l.so_far;
  })

  pub discard_unit-IsValid :
      (n : ℕ) (st : ExchangeState tx) → IsValid n st → IsValid n (discard_unit st)
  unfolding discard_unit
  discard_unit-IsValid n st (inl l) =
      inr (discard_unit-IsDone st l.going.not_over l.going.unreported (IsLive-fair n st l))
  discard_unit-IsValid n st (inr d) =
      if_split (IsValid n) (is_finalized st.stage) (λ e. inr d)
        (λ e. absurd (let h = d.is_over in cc))

  -- Only a live exchange passes the two guards of a call.
  IsValid-IsLive :
      (n : ℕ) (st : ExchangeState tx) → is_finalized st.stage ≡ false → IsValid n st → IsLive n st
  IsValid-IsLive n st e (inl l) = l
  IsValid-IsLive n st e (inr d) = absurd (let h = d.is_over in cc)

  pub new-IsValid :
      (body : BodyState) (is_head : Bool) (c : Tx)
      → frames c ≡ []
      → IsValid 0 (new {tx = tx} body is_head c)
  unfolding new
  new-IsValid body is_head c e = inl (record {
    going = record {
      has_sender = refl;
      not_over = refl;
      unreported = refl;
      small = omega arith;
      fits = refl;
    };
    so_far = (ap phase e, refl);
  })

chunk-IsCarrying :
    (Map : Type 0) (p : List ℕ) → IsCarrying {Map = Map} (λ n. chunk (take n p)) (length p)
chunk-IsCarrying Map p k some_bytes small c b t =
    ap (λ x. grow c b (t + x)) (length-take k p ∙ omega arith)

file-IsCarrying :
    (Map : Type 0) (h offset len : ℕ) → IsCarrying {Map = Map} (λ n. file h offset n) len
file-IsCarrying Map h offset len zero some_bytes small c b t = absurd (omega arith)
file-IsCarrying Map h offset len (suc k) some_bytes small c b t = refl

-- The bytes of a file that was opened.
abbrev pub size_of : Checked FileSlice → ℕ
size_of (failed msg) = 0
size_of (passed s) = s.len

module _ (header : HeaderMap) (empty : HeaderMap.Map header)
    {tx : Sender (HeaderMap.Map header)} where
  open header use {Map, keys}
  open tx use {Tx, is_closed, frames}

  guarded :
      (n m : ℕ) (st : ExchangeState tx) (v w : Verb) (r : Verb × ExchangeState tx)
      → IsValid n st
      → IsValid m st
      → (IsLive n st → IsValid m r.1)
      → IsValid m
          (if cancelled st
            then (v, discard_unit st)
            else if is_finalized st.stage
            then (w, st)
            else r).1
  guarded n m st v w r valid valid' live =
      if_split (λ (x : Verb × ExchangeState tx). IsValid m x.1) (cancelled st)
        (λ e. discard_unit-IsValid m st valid')
        (λ e.
          if_split (λ (x : Verb × ExchangeState tx). IsValid m x.1) (is_finalized st.stage)
            (λ over. valid') (λ on. live (IsValid-IsLive n st on valid)))

  pub write_body-IsValid :
      (n : ℕ) (st : ExchangeState tx) (p : List ℕ) (eos : Bool)
      → n + length p < u64
      → IsValid n st
      → IsValid (n + length p) (write_body header empty st p eos).1
  unfolding write_body thrown write_body_core
  write_body-IsValid n st p eos lt valid =
      guarded n (n + length p) st _ _ _ valid (wider n (length p) st valid) (λ l.
        if_split (λ (x : Verb × ExchangeState tx). IsValid (n + length p) x.1)
          (length p == 0 && not eos) (λ e. wider n (length p) st valid)
          (λ e. send_body-IsValid header empty n (length p) eos _ st (chunk-IsCarrying Map p) lt l))

  send_slice-IsValid :
      (n k : ℕ) (st : ExchangeState tx) (offset : ℕ) (eos : Bool) (opened : Checked FileSlice)
      → n + size_of opened < u64
      → IsLive n st
      → IsValid (n + size_of opened) (send_slice header empty st offset eos opened).1
  unfolding send_slice
  send_slice-IsValid n k st offset eos (failed msg) lt l = wider n 0 st (inl l)
  send_slice-IsValid n k st offset eos (passed s) lt l =
      if_split (λ (x : Verb × ExchangeState tx). IsValid (n + s.len) x.1)
        (exceeds st.declared_cl ((st.sent_body + s.len) % u64)) (λ e. wider n s.len st (inl l))
        (λ e.
          send_body-IsValid header empty n s.len eos _ st
            (file-IsCarrying Map s.handle offset s.len) lt l)

  pub send_file_core-IsValid :
      (n : ℕ) (st : ExchangeState tx) (offset : ℕ) (eos : Bool) (opened : Checked FileSlice)
      → n + size_of opened < u64
      → IsValid n st
      → IsValid (n + size_of opened) (send_file_core header empty st offset eos opened).1
  unfolding send_file_core
  send_file_core-IsValid n st offset eos opened lt valid =
      guarded n (n + size_of opened) st _ _ _ valid (wider n (size_of opened) st valid)
        (send_slice-IsValid n 0 st offset eos opened lt)

  pub flush-IsValid :
      (n : ℕ) (st : ExchangeState tx) → IsValid n st → IsValid n (flush header empty st).1
  unfolding flush thrown flush_verb
  flush-IsValid n st valid = guarded n n st _ _ _ valid valid (λ l.
      unless_lost-IsValid header empty n n st none _ _ (emit_head-Emitted empty n st none l)
        (λ st' c rd of_length same.
          inl (IsReady-IsLive n st' c rd (length_of-none st c of_length ∙ sym same.0))))

  pub write_trailers-IsValid :
      (n : ℕ) (st : ExchangeState tx) (map : Checked Map)
      → IsValid n st
      → IsValid n (write_trailers header empty st map).1
  unfolding write_trailers thrown write_trailers_core
  write_trailers-IsValid n st (failed msg) valid = valid
  write_trailers-IsValid n st (passed map) valid =
      if_split (λ (x : Option Exception × ExchangeState tx). IsValid n x.1)
        (any forbidden_trailer (keys map)) (λ e. valid)
        (λ e. guarded n n st _ _ _ valid valid (λ l.
          if_split (λ (x : Verb × ExchangeState tx). IsValid n x.1) (is_open st.stage)
            (λ early. inl l)
            (λ late.
              unless_lost-IsValid header empty n n st (some st.sent_body) _ _
                (emit_head-Emitted empty n st (some st.sent_body) l)
                (λ st' c rd of_length same. inr (
                  seal-IsDone st' false rd.going.has_sender rd.going.unreported
                    (IsReady-IsEndable n st' c rd))))))
