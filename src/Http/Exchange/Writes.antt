-- ===== src/Http/Exchange/Writes.antt =====
-- crates/plugins/http/src/php/respond.rs: `emit_head`, the frames of a body and the end of a call keep
-- an exchange valid.
use mathlib.Core.Path.{subst}
use rapira_windows.Common.{
  ℕ, ◌≡◌, refl, sym, ◌∙◌, ap, ◌⊎◌, inl, inr, Bool, true, false, if_split, Option, none, some,
}
use rapira_windows.Http.Reply.{Sender}
use rapira_windows.Http.Reply.Protocol.{streaming, after, phase, phase_snoc}
use rapira_windows.Http.Exchange.{
  head_committed, commit, is_open, is_finalized, Stage, open_stage, finalized_stage, Sent, sent,
  lost, ExchangeState, emit_head, length_of_head, or_else, with_head, on_channel,
}
use rapira_windows.Http.Exchange.Sends.{
  Heads, already, headed, unheaded, head_frame, emit_head-Heads,
}
use rapira_windows.Http.Exchange.Valid.{
  reached, is_fair, IsStreaming, IsSoFar, IsGoing, IsLive, IsEndable,
}

commit_going : (s : Stage) → is_finalized s ≡ false → is_finalized (commit s) ≡ false
commit_going open_stage h = refl
commit_going head_committed h = refl
commit_going finalized_stage h = h

commit_open : (s : Stage) → is_open (commit s) ≡ false
commit_open open_stage = refl
commit_open head_committed = refl
commit_open finalized_stage = refl

module _ {Map : Type 0} {tx : Sender Map} where
  open tx use {Tx, is_closed, frames}

  -- Behind a head with this content length.
  pub record IsReady (n : ℕ) (st : ExchangeState tx) (c : Option ℕ) : Type 0 where
    pub going : IsGoing n st
    pub head_is_sent : st.head_sent ≡ true
    pub committed : is_open st.stage ≡ false
    pub streams : IsStreaming st c

  pub IsReady-IsLive :
      (n : ℕ) (st : ExchangeState tx) (c : Option ℕ)
      → IsReady n st c
      → c ≡ st.declared_cl
      → IsLive n st
  IsReady-IsLive n st c r e = record {
    going = r.going;
    so_far =
        subst (λ b. IsSoFar b st) (sym r.head_is_sent)
          (
            r.committed,
            (
              r.streams.0,
              r.streams.1 ∙ ap (λ x. streaming x st.bodiless r.streams.0) e,
              r.streams.2,
            ),
          );
  }

  pub IsReady-IsEndable :
      (n : ℕ) (st : ExchangeState tx) (c : Option ℕ) → IsReady n st c → IsEndable st
  IsReady-IsEndable n st c r = inl (c, st.bodiless, r.streams.0, r.streams.1)

  -- The length of the head, when `emit_head` gets this one.
  abbrev pub IsLengthOf : ExchangeState tx → Option ℕ → Option ℕ → Type 0
  IsLengthOf st fin c = (c ≡ st.declared_cl) ⊎ ((c ≡ length_of_head st fin) × (st.sent_body ≡ 0))

  pub data Emitted (n : ℕ) (st : ExchangeState tx) (fin : Option ℕ)
      : Sent × ExchangeState tx → Type 0 where
    ready :
        (st' : ExchangeState tx) (c : Option ℕ)
        → IsReady n st' c
        → IsLengthOf st fin c
        → (st'.declared_cl ≡ st.declared_cl)
          × (st'.sent_body ≡ st.sent_body)
          × (st'.bodiless ≡ st.bodiless)
        → Emitted n st fin (sent, st')
    dead :
        (st' : ExchangeState tx)
        → IsGoing n st'
        → is_closed st'.channel ≡ true
        → is_fair (reached st') ≡ true
        → Emitted n st fin (lost, st')

  on_channel-IsGoing :
      (n : ℕ) (st : ExchangeState tx) (c : Tx)
      → IsGoing n st
      → IsGoing n (on_channel (with_head st) c)
  on_channel-IsGoing n st c g = record {
    has_sender = g.has_sender;
    not_over = commit_going st.stage g.not_over;
    unreported = g.unreported;
    small = g.small;
    fits = g.fits;
  }

  unsent : (b : Bool) (st : ExchangeState tx) → b ≡ false → IsSoFar b st → IsSoFar false st
  unsent false st e s = s
  unsent true st e s = absurd (cc)

  was_sent : (b : Bool) (st : ExchangeState tx) → b ≡ true → IsSoFar b st → IsSoFar true st
  was_sent true st e s = s
  was_sent false st e s = absurd (cc)

  Heads-Emitted :
      (m : Map) (n : ℕ) (st : ExchangeState tx) (fin : Option ℕ) (r : Sent × ExchangeState tx)
      → IsLive n st
      → Heads m st fin r
      → Emitted n st fin r
  Heads-Emitted m n st fin r l (already e) =
      let s = was_sent st.head_sent st e l.so_far in
      ready st st.declared_cl
        (record { going = l.going; head_is_sent = e; committed = s.0; streams = s.1 }) (inl refl)
        (refl, refl, refl)
  Heads-Emitted m n st fin r l (headed c e is_open_before f) =
      let s = unsent st.head_sent st e l.so_far in
      let begun : phase (frames c) ≡ streaming (length_of_head st fin) st.bodiless 0 =
        ap phase f
        ∙ phase_snoc (frames st.channel) (head_frame m st fin)
        ∙ ap (λ p. after p (head_frame m st fin)) s.0 in
      ready (on_channel (with_head st) c) (length_of_head st fin)
        (record {
          going = on_channel-IsGoing n st c l.going;
          head_is_sent = refl;
          committed = commit_open st.stage;
          streams = (0, begun, λ b. sym s.1);
        })
        (inr (refl, s.1)) (refl, refl, refl)
  Heads-Emitted m n st fin r l (unheaded c e gone f) =
      let s = unsent st.head_sent st e l.so_far in
      dead (on_channel (with_head st) c) (on_channel-IsGoing n st c l.going) gone
        (ap (λ fs. is_fair (phase fs)) f ∙ ap is_fair s.0)

  pub emit_head-Emitted :
      (m : Map) (n : ℕ) (st : ExchangeState tx) (fin : Option ℕ)
      → IsLive n st
      → Emitted n st fin (emit_head m st fin)
  emit_head-Emitted m n st fin l =
      Heads-Emitted m n st fin _ l (emit_head-Heads m st fin l.going.has_sender)

  -- What `emit_head none` emits has the declared length.
  pub length_of-none :
      (st : ExchangeState tx) (c : Option ℕ) → IsLengthOf st none c → c ≡ st.declared_cl
  length_of-none st c (inl e) = e
  length_of-none st c (inr (e, z)) =
      e
      ∙ if_split (λ x. x ≡ st.declared_cl) st.bodiless (λ b. refl)
          (λ b. or_else_none st.declared_cl)
    where
      or_else_none : (o : Option ℕ) → or_else o none ≡ o
      or_else_none none = refl
      or_else_none (some k) = refl
