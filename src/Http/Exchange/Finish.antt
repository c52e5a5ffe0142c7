-- ===== src/Http/Exchange/Finish.antt =====
-- crates/plugins/http/src/php/respond.rs: `send_body` keeps an exchange valid.
use rapira_windows.Common.{
  ℕ, ◌+◌, ◌%◌, ◌≤◌, ◌<◌, ◌≡◌, refl, sym, ◌∙◌, ap, inl, inr, Bool, true, false, ◌&&◌, not, if_split,
  Option, none, some, ltb, ◌==◌, if◌then◌else◌, arith,
}
use rapira_windows.Pool.Scoreboard.{u64}
use rapira_windows.Http.HeaderMap.{HeaderMap}
use rapira_windows.Http.Reply.{Frame, Sender}
use rapira_windows.Http.Reply.Protocol.{streaming, after, grow, phase, phase_snoc, within}
use rapira_windows.Http.Exchange.{Verb, is_open, Sent, ExchangeState, or_else}
use rapira_windows.Http.Exchange.Sends.{Sends, took, missed, send_frame-Sends}
use rapira_windows.Http.Exchange.Valid.{
  reached, is_fair, IsGoing, IsValid, discard_unit-IsDone, seal-IsDone,
}
use rapira_windows.Http.Exchange.Writes.{
  IsReady, IsReady-IsLive, IsReady-IsEndable, IsLengthOf, Emitted, ready, dead,
}
use rapira_windows.Http.Exchange.Calls.{unless_lost, seal_at_end, exceeds, send_part}

pub sum_fits : (s n len : ℕ) → s ≤ n → n + len < u64 → (s + len) % u64 ≡ s + len
sum_fits s n len h lt = omega arith

pub within_of : (o : Option ℕ) (n : ℕ) → exceeds o n ≡ false → within o n ≡ true
within_of none n h = refl
within_of (some cl) n h = ground arith

-- The length of the head covers the first part, when that part is all.
pub length_covers :
    (o : Option ℕ) (bodiless at_end : Bool) (s len : ℕ)
    → within o (s + len) ≡ true
    → s ≡ 0
    → within
        (if bodiless then o else or_else o (if at_end && s == 0 then some len else none))
        (s + len)
      ≡ true
length_covers none true at_end s len w z = refl
length_covers none false false s len w z = refl
length_covers none false true s len w z = ground arith
length_covers (some cl) true at_end s len w z = w
length_covers (some cl) false at_end s len w z = w

-- A length of its own is for the whole body only.
pub length_declared :
    (o : Option ℕ) (bodiless : Bool) (s len : ℕ)
    → (if bodiless then o else or_else o (if false && s == 0 then some len else none)) ≡ o
length_declared none true s len = refl
length_declared none false s len = refl
length_declared (some cl) true s len = refl
length_declared (some cl) false s len = refl

-- The frame of the first bytes of a write has as many bytes.
abbrev pub IsCarrying : {Map : Type 0} → (ℕ → Frame Map) → ℕ → Type 0
IsCarrying frame len =
    (k : ℕ)
    → 0 < k
    → k ≤ len
    → (c : Option ℕ) (b : Bool) (t : ℕ) → after (streaming c b t) (frame k) ≡ grow c b (t + k)

module _ (header : HeaderMap) (empty : HeaderMap.Map header)
    {tx : Sender (HeaderMap.Map header)} where
  open header use {Map}
  open tx use {Tx, is_closed, frames}

  pub unless_lost-IsValid :
      (n m : ℕ) (st : ExchangeState tx) (fin : Option ℕ) (r : Sent × ExchangeState tx)
      (f : ExchangeState tx → Verb × ExchangeState tx)
      → Emitted n st fin r
      → ((st' : ExchangeState tx) (c : Option ℕ)
          → IsReady n st' c
          → IsLengthOf st fin c
          → (st'.declared_cl ≡ st.declared_cl)
            × (st'.sent_body ≡ st.sent_body)
            × (st'.bodiless ≡ st.bodiless)
          → IsValid m (f st').1)
      → IsValid m (unless_lost header empty r f).1
  unless_lost-IsValid n m st fin r f (ready st' c is_ready of_length same) next =
      next st' c is_ready of_length same
  unless_lost-IsValid n m st fin r f (dead st' g gone fair) next =
      inr (discard_unit-IsDone st' g.not_over g.unreported fair)

  seal_at_end-IsValid :
      (n : ℕ) (eos : Bool) (st : ExchangeState tx) (c : Option ℕ)
      → IsReady n st c
      → (eos ≡ false → c ≡ st.declared_cl)
      → IsValid n (seal_at_end header empty eos st).1
  seal_at_end-IsValid n false st c r same = inl (IsReady-IsLive n st c r (same refl))
  seal_at_end-IsValid n true st c r same =
      inr (seal-IsDone st false r.going.has_sender r.going.unreported (IsReady-IsEndable n st c r))

  after_send :
      (n len t : ℕ) (eos : Bool) (frame : ℕ → Frame Map) (st : ExchangeState tx) (c : Option ℕ)
      (r : Sent × ExchangeState tx)
      → IsGoing n st
      → (st.head_sent ≡ true) × (is_open st.stage ≡ false)
      → reached st ≡ streaming c st.bodiless t
      → after (streaming c st.bodiless t) (frame len) ≡ streaming c st.bodiless (t + len)
      → t + len ≡ st.sent_body
      → (eos ≡ false → c ≡ st.declared_cl)
      → Sends st (frame len) r
      → IsValid n (unless_lost header empty r (seal_at_end header empty eos)).1
  after_send n len t eos frame st c r going has_head before grown all_sent same
        (took c' was_open f) =
      seal_at_end-IsValid n eos (record st { channel = c' }) c
        (record {
          going = record {
            has_sender = going.has_sender;
            not_over = going.not_over;
            unreported = going.unreported;
            small = going.small;
            fits = going.fits;
          };
          head_is_sent = has_head.0;
          committed = has_head.1;
          streams = (
            t + len,
            ap phase f
                ∙ phase_snoc (frames st.channel) (frame len)
                ∙ ap (λ p. after p (frame len)) before
                ∙ grown,
            λ b. all_sent,
          );
        })
        same
  after_send n len t eos frame st c r going has_head before grown all_sent same (missed c' gone f) =
      inr (
        discard_unit-IsDone (record st { channel = c' }) going.not_over going.unreported
          (ap (λ fs. is_fair (phase fs)) f ∙ ap is_fair before))

  pub send_part-IsValid :
      (n len : ℕ) (eos : Bool) (frame : ℕ → Frame Map) (st : ExchangeState tx) (c : Option ℕ)
      → IsCarrying frame len
      → n + len < u64
      → IsReady n st c
      → within c (st.sent_body + len) ≡ true
      → within st.declared_cl (st.sent_body + len) ≡ true
      → (eos ≡ false → c ≡ st.declared_cl)
      → IsValid (n + len) (send_part header empty len eos frame st).1
  unfolding send_part
  send_part-IsValid n len eos frame st c carrying lt r covers fits same =
      let sum = sum_fits st.sent_body n len r.going.small lt in
      let small : (st.sent_body + len) % u64 ≤ n + len =
        rw sum (let h = r.going.small in omega arith) in
      let going : IsGoing (n + len) (record st { sent_body = (st.sent_body + len) % u64 }) =
        record {
          has_sender = r.going.has_sender;
          not_over = r.going.not_over;
          unreported = r.going.unreported;
          small = small;
          fits = ap (within st.declared_cl) sum ∙ fits;
        } in
      if_split (λ (x : Verb × ExchangeState tx). IsValid (n + len) x.1)
        (ltb 0 len && not st.bodiless)
        (λ e.
          let some_bytes : 0 < len = ground arith in
          let has_body : st.bodiless ≡ false = ground arith in
          let whole : r.streams.0 + len ≡ st.sent_body + len =
            ap (λ x. x + len) (r.streams.2 has_body) in
          after_send (n + len) len r.streams.0 eos frame _ c _ going (r.head_is_sent, r.committed)
            r.streams.1
            (carrying len some_bytes (omega arith) c st.bodiless r.streams.0
              ∙ simp (has_body, whole, covers))
            (whole ∙ sym sum) same (send_frame-Sends _ (frame len) r.going.has_sender))
        (λ e.
          seal_at_end-IsValid (n + len) eos _ c
            (record {
              going = going;
              head_is_sent = r.head_is_sent;
              committed = r.committed;
              streams = (
                r.streams.0,
                r.streams.1,
                λ b.
                    let none_sent : len ≡ 0 = ground arith in
                    r.streams.2 b ∙ (let h = sum in omega arith),
              );
            })
            same)
