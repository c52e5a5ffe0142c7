-- ===== src/Http/Exchange/Written.antt =====
-- crates/plugins/http/src/php: the bytes that a call puts on the channel, of those that PHP writes.
use mathlib.Core.List.{append_assoc, append-nil}
use rapira_windows.Common.{
  ℕ, ◌≡◌, refl, sym, ◌∙◌, ap, Bool, true, false, if_split, Option, List, [], ◌∷◌, ◌++◌,
}
use rapira_windows.Http.Reply.{File, Frame, ending, Sender, TrySend, taken, full, closed}
use rapira_windows.Http.Bridge.Stream.{bytes_in, stream, stream-append}
use rapira_windows.Http.Exchange.{
  is_finalized, Sent, sent, lost, ExchangeState, send_frame, emit_head, discard_unit, seal,
  on_channel, finish, with_head, tried, blocked,
}
use rapira_windows.Http.Exchange.Sends.{Sends, took, missed, tried-Sends}

module _ {Map : Type 0} {tx : Sender Map} (content : File → List ℕ) where
  open tx use {Tx, frames}

  -- The bytes of the body on the channel.
  abbrev pub body_of : ExchangeState tx → List ℕ
  body_of st = stream content (frames st.channel)

  -- What a call that writes `p` leaves: a first part of `p` behind the body, all of it if the exchange goes
  -- on and has a body.
  pub record Written (st : ExchangeState tx) (p : List ℕ) (st' : ExchangeState tx) : Type 0 where
    pub part : List ℕ
    pub rest : List ℕ
    pub streamed : body_of st' ≡ body_of st ++ part
    pub parts : p ≡ part ++ rest
    pub whole : is_finalized st'.stage ≡ false → st'.bodiless ≡ false → rest ≡ []
    pub no_body : st.bodiless ≡ true → (st'.bodiless ≡ true) × (part ≡ [])

  -- What a send leaves.
  pub record Put (st : ExchangeState tx) (q : List ℕ) (st' : ExchangeState tx) : Type 0 where
    pub streamed : body_of st' ≡ body_of st ++ q
    pub bodiless : st'.bodiless ≡ st.bodiless

  pub data Tried (st : ExchangeState tx) (q : List ℕ) : Sent × ExchangeState tx → Type 0 where
    came : (st' : ExchangeState tx) → Put st q st' → Tried st q (sent, st')
    failed_to : (st' : ExchangeState tx) → Put st [] st' → Tried st q (lost, st')

  same_body :
      (st : ExchangeState tx) (c : Tx)
      → frames c ≡ frames st.channel
      → stream content (frames c) ≡ body_of st ++ []
  same_body st c e = ap (stream content) e ∙ sym (append-nil (body_of st))

  one_more :
      (st : ExchangeState tx) (c : Tx) (f : Frame Map)
      → frames c ≡ frames st.channel ++ (f ∷ [])
      → stream content (frames c) ≡ body_of st ++ bytes_in content f
  one_more st c f e =
      ap (stream content) e
      ∙ stream-append content (frames st.channel) (f ∷ [])
      ∙ ap (◌++◌ (body_of st)) (append-nil (bytes_in content f))

  Sends-Tried :
      (st : ExchangeState tx) (f : Frame Map) (r : Sent × ExchangeState tx)
      → Sends st f r
      → Tried st (bytes_in content f) r
  Sends-Tried st f r (took c open_before e) =
      came (on_channel st c) (record { streamed = one_more st c f e; bodiless = refl })
  Sends-Tried st f r (missed c gone e) =
      failed_to (on_channel st c) (record { streamed = same_body st c e; bodiless = refl })

  pub send_frame-Tried :
      (st : ExchangeState tx) (f : Frame Map) → Tried st (bytes_in content f) (send_frame st f)
  unfolding send_frame
  send_frame-Tried st f =
      if_split (Tried st (bytes_in content f)) st.sender
        (λ e. Sends-Tried st f _ (tried-Sends st f (tx.try_send st.channel f) refl))
        (λ e. failed_to st (record { streamed = same_body st st.channel refl; bodiless = refl }))

  Put-with_head : (st st' : ExchangeState tx) → Put (with_head st) [] st' → Put st [] st'
  Put-with_head st st' p = record { streamed = p.streamed; bodiless = p.bodiless }

  Tried-with_head :
      (st : ExchangeState tx) (r : Sent × ExchangeState tx)
      → Tried (with_head st) [] r
      → Tried st [] r
  Tried-with_head st r (came st' p) = came st' (Put-with_head st st' p)
  Tried-with_head st r (failed_to st' p) = failed_to st' (Put-with_head st st' p)

  pub emit_head-Tried :
      (m : Map) (st : ExchangeState tx) (fin : Option ℕ) → Tried st [] (emit_head m st fin)
  unfolding emit_head
  emit_head-Tried m st fin =
      if_split (Tried st []) st.head_sent
        (λ e. came st (record { streamed = same_body st st.channel refl; bodiless = refl }))
        (λ e. Tried-with_head st _ (send_frame-Tried (with_head st) _))

  send_frame-stage : (st : ExchangeState tx) (f : Frame Map) → (send_frame st f).1.stage ≡ st.stage
  unfolding send_frame
  send_frame-stage st f =
      if_split (λ (r : Sent × ExchangeState tx). r.1.stage ≡ st.stage) st.sender
        (λ e. by_answer (tx.try_send st.channel f)) (λ e. refl)
    where
      by_wait : (r : Bool × Tx) → (blocked st r).1.stage ≡ st.stage
      by_wait (true, c) = refl
      by_wait (false, c) = refl

      by_answer : (r : TrySend × Tx) → (tried st f r).1.stage ≡ st.stage
      by_answer (taken, c) = refl
      by_answer (closed, c) = refl
      by_answer (full, c) = by_wait (tx.blocking_send c f)

  Tried-Put : (st : ExchangeState tx) (r : Sent × ExchangeState tx) → Tried st [] r → Put st [] r.1
  Tried-Put st r (came st' p) = p
  Tried-Put st r (failed_to st' p) = p

  -- The end of a reply has no bytes.
  pub seal-Put : (st : ExchangeState tx) (t : Bool) → Put st [] (seal st t)
  unfolding seal
  seal-Put st t =
      let p = Tried-Put (finish st t) _ (send_frame-Tried (finish st t) (ending t)) in
      record { streamed = p.streamed; bodiless = p.bodiless }

  pub seal-finalized : (st : ExchangeState tx) (t : Bool) → is_finalized (seal st t).stage ≡ true
  unfolding seal
  seal-finalized st t = ap is_finalized (send_frame-stage (finish st t) (ending t))

  pub discard_unit-Put : (st : ExchangeState tx) → Put st [] (discard_unit st)
  unfolding discard_unit
  discard_unit-Put st =
      if_split (Put st []) (is_finalized st.stage)
        (λ e. record { streamed = same_body st st.channel refl; bodiless = refl })
        (λ e. record { streamed = same_body st st.channel refl; bodiless = refl })

  pub discard_unit-finalized : (st : ExchangeState tx) → is_finalized (discard_unit st).stage ≡ true
  unfolding discard_unit
  discard_unit-finalized st =
      if_split (λ (x : ExchangeState tx). is_finalized x.stage ≡ true) (is_finalized st.stage)
        (λ e. e) (λ e. refl)

  pub Put-trans :
      {st st' st'' : ExchangeState tx} {q r : List ℕ}
      → Put st q st'
      → Put st' r st''
      → Put st (q ++ r) st''
  Put-trans {st} {st'} {st''} {q} {r} a b = record {
    streamed = b.streamed ∙ ap (λ x. x ++ r) a.streamed ∙ append_assoc (body_of st) q r;
    bodiless = b.bodiless ∙ a.bodiless;
  }

  -- A call that ends the exchange, behind a first part of the bytes.
  pub over :
      (st st' : ExchangeState tx) (p q rest : List ℕ)
      → Put st q st'
      → p ≡ q ++ rest
      → (st.bodiless ≡ true → q ≡ [])
      → is_finalized st'.stage ≡ true
      → Written st p st'
  over st st' p q rest put parts quiet e = record {
    part = q;
    rest = rest;
    streamed = put.streamed;
    parts = parts;
    whole = λ live body. absurd (let bad : true ≡ false = sym e ∙ live in cc);
    no_body = λ b. (put.bodiless ∙ b, quiet b);
  }

  pub drops :
      (st st' : ExchangeState tx) (p : List ℕ)
      → Put st [] st'
      → is_finalized st'.stage ≡ true
      → Written st p st'
  drops st st' p put e = over st st' p [] p put refl (λ b. refl) e

  -- A call that writes all the bytes, in an exchange with a body.
  pub writes_all :
      (st st' : ExchangeState tx) (p : List ℕ)
      → Put st p st'
      → (st.bodiless ≡ true → p ≡ [])
      → Written st p st'
  writes_all st st' p put quiet = record {
    part = p;
    rest = [];
    streamed = put.streamed;
    parts = sym (append-nil p);
    whole = λ live body. refl;
    no_body = λ b. (put.bodiless ∙ b, quiet b);
  }

  -- A call in an exchange without a body.
  pub writes_none :
      (st st' : ExchangeState tx) (p : List ℕ)
      → st.bodiless ≡ true
      → Put st [] st'
      → Written st p st'
  writes_none st st' p none_here put = record {
    part = [];
    rest = p;
    streamed = put.streamed;
    parts = refl;
    whole = λ live body.
        absurd (let bad : true ≡ false = sym none_here ∙ sym put.bodiless ∙ body in cc);
    no_body = λ b. (put.bodiless ∙ b, refl);
  }

  pub discards-Written :
      (st st' : ExchangeState tx) (p : List ℕ) → Put st [] st' → Written st p (discard_unit st')
  discards-Written st st' p put =
      drops st (discard_unit st') p (Put-trans put (discard_unit-Put st'))
        (discard_unit-finalized st')
