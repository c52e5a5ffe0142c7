-- ===== src/Http/Exchange/Sends.antt =====
-- crates/plugins/http/src/php/respond.rs: what `send_frame` and `emit_head` come to.
use rapira_windows.Common.{
  ℕ, ◌≡◌, refl, sym, Bool, true, false, if_split, ap, Option, [], ◌∷◌, ◌++◌,
}
use rapira_windows.Http.Reply.{Frame, head, Sender, TrySend, taken, full, closed}
use rapira_windows.Http.Exchange.{
  Sent, sent, lost, ExchangeState, send_frame, emit_head, on_channel, tried, blocked, or_empty,
  length_of_head, with_head,
}

module _ {Map : Type 0} {tx : Sender Map} where
  open tx use {Tx, is_closed, frames, try_send, blocking_send}

  pub data Sends (st : ExchangeState tx) (f : Frame Map) : Sent × ExchangeState tx → Type 0 where
    took :
        (c : Tx)
        → is_closed st.channel ≡ false
        → frames c ≡ frames st.channel ++ (f ∷ [])
        → Sends st f (sent, on_channel st c)
    missed :
        (c : Tx)
        → is_closed c ≡ true
        → frames c ≡ frames st.channel
        → Sends st f (lost, on_channel st c)

  blocked-Sends :
      (st : ExchangeState tx) (f : Frame Map) (r : Bool × Tx)
      → blocking_send st.channel f ≡ r
      → Sends st f (blocked st r)
  blocked-Sends st f (true, c) e = let h = tx.blocking_taken st.channel c f e in took c h.0 h.1
  blocked-Sends st f (false, c) e = let h = tx.blocking_closed st.channel c f e in missed c h.0 h.1

  pub tried-Sends :
      (st : ExchangeState tx) (f : Frame Map) (r : TrySend × Tx)
      → try_send st.channel f ≡ r
      → Sends st f (tried st f r)
  tried-Sends st f (taken, c) e = let h = tx.try_taken st.channel c f e in took c h.0 h.1
  tried-Sends st f (closed, c) e = let h = tx.try_closed st.channel c f e in missed c h.0 h.1
  tried-Sends st f (full, c) e =
      blocked-Sends st f (blocking_send c f)
        (ap (λ t. blocking_send t f) (sym (tx.try_full st.channel c f e)))

  pub send_frame-Sends :
      (st : ExchangeState tx) (f : Frame Map) → st.sender ≡ true → Sends st f (send_frame st f)
  unfolding send_frame
  send_frame-Sends st f h =
      if_split (Sends st f) st.sender (λ e. tried-Sends st f (try_send st.channel f) refl)
        (λ e. absurd (cc))

  -- The head that `emit_head` sends.
  abbrev pub head_frame : Map → ExchangeState tx → Option ℕ → Frame Map
  head_frame m st fin = head (or_empty m st.pending) (length_of_head st fin) st.bodiless

  pub data Heads (m : Map) (st : ExchangeState tx) (fin : Option ℕ)
      : Sent × ExchangeState tx → Type 0 where
    already : st.head_sent ≡ true → Heads m st fin (sent, st)
    headed :
        (c : Tx)
        → st.head_sent ≡ false
        → is_closed st.channel ≡ false
        → frames c ≡ frames st.channel ++ (head_frame m st fin ∷ [])
        → Heads m st fin (sent, on_channel (with_head st) c)
    unheaded :
        (c : Tx)
        → st.head_sent ≡ false
        → is_closed c ≡ true
        → frames c ≡ frames st.channel
        → Heads m st fin (lost, on_channel (with_head st) c)

  Sends-Heads :
      (m : Map) (st : ExchangeState tx) (fin : Option ℕ) (r : Sent × ExchangeState tx)
      → st.head_sent ≡ false
      → Sends (with_head st) (head_frame m st fin) r
      → Heads m st fin r
  Sends-Heads m st fin r e (took c open_before f) = headed c e open_before f
  Sends-Heads m st fin r e (missed c gone f) = unheaded c e gone f

  pub emit_head-Heads :
      (m : Map) (st : ExchangeState tx) (fin : Option ℕ)
      → st.sender ≡ true
      → Heads m st fin (emit_head m st fin)
  unfolding emit_head
  emit_head-Heads m st fin h =
      if_split (Heads m st fin) st.head_sent already
        (λ e. Sends-Heads m st fin _ e (send_frame-Sends (with_head st) (head_frame m st fin) h))
