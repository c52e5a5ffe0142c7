-- ===== src/Http/Exchange/Reach.antt =====
-- crates/plugins/http/src/php: an exchange over any sequence of PHP's calls and moves of the channel's other end.
use rapira_windows.Common.{
  ℕ, ◌+◌, ◌<◌, ◌≡◌, ◌∙◌, ap, inl, inr, Bool, true, false, List, [], length, arith,
}
use rapira_windows.Pool.Scoreboard.{u64}
use rapira_windows.Http.HeaderMap.{HeaderMap}
use rapira_windows.Http.Reply.{Sender}
use rapira_windows.Http.Reply.Protocol.{phase}
use rapira_windows.Http.Exchange.{BodyState, ExchangeState, discard_unit, new, on_channel}
use rapira_windows.Http.Exchange.Head.{Checked}
use rapira_windows.Http.Exchange.Files.{FileSlice}
use rapira_windows.Http.Exchange.Valid.{is_fair, IsSoFar, IsValid}
use rapira_windows.Http.Exchange.Calls.{
  ℤ, write_trailers, write_head, write_body, send_file_core, flush,
}
use rapira_windows.Http.Exchange.HeadKeeps.{write_head-IsValid}
use rapira_windows.Http.Exchange.Keeps.{
  size_of, wider, discard_unit-IsValid, new-IsValid, write_body-IsValid, send_file_core-IsValid,
  flush-IsValid, write_trailers-IsValid,
}

module _ (header : HeaderMap) (empty : HeaderMap.Map header)
    {tx : Sender (HeaderMap.Map header)} where
  open header use {Map, keys}
  open tx use {Tx, is_closed, frames}

  -- One call of PHP, with the bytes it writes; what `open_send_file` answers is not restricted. In
  -- between the receiver may take frames or leave.
  pub data Step (st : ExchangeState tx) : ℕ → ExchangeState tx → Type 0 where
    receiver_moves : (c : Tx) → frames c ≡ frames st.channel → Step st 0 (on_channel st c)
    head_call :
        (status : ℤ) (map : Checked Map) → Step st 0 (write_head header empty st status map).1
    body_call : (p : List ℕ) (eos : Bool) → Step st (length p) (write_body header empty st p eos).1
    file_call :
        (offset : ℕ) (eos : Bool) (opened : Checked FileSlice)
        → Step st (size_of opened) (send_file_core header empty st offset eos opened).1
    trailers_call : (map : Checked Map) → Step st 0 (write_trailers header empty st map).1
    flush_call : Step st 0 (flush header empty st).1
    discard_call : Step st 0 (discard_unit st)

  -- Any number of steps, with the bytes of all writes.
  pub data Reach (s : ExchangeState tx) : ℕ → ExchangeState tx → Type 0 where
    here : Reach s 0 s
    next :
        {n k : ℕ} {st st' : ExchangeState tx} → Reach s n st → Step st k st' → Reach s (n + k) st'

  on_channel-IsSoFar :
      (b : Bool) (st : ExchangeState tx) (c : Tx)
      → frames c ≡ frames st.channel
      → IsSoFar b st
      → IsSoFar b (on_channel st c)
  on_channel-IsSoFar false st c e s = (ap phase e ∙ s.0, s.1)
  on_channel-IsSoFar true st c e s = (s.0, (s.1.0, ap phase e ∙ s.1.1, s.1.2))

  on_channel-IsValid :
      (n : ℕ) (st : ExchangeState tx) (c : Tx)
      → frames c ≡ frames st.channel
      → IsValid n st
      → IsValid n (on_channel st c)
  on_channel-IsValid n st c e (inl l) = inl (record {
    going = record {
      has_sender = l.going.has_sender;
      not_over = l.going.not_over;
      unreported = l.going.unreported;
      small = l.going.small;
      fits = l.going.fits;
    };
    so_far = on_channel-IsSoFar st.head_sent st c e l.so_far;
  })
  on_channel-IsValid n st c e (inr d) = inr (record {
    no_sender = d.no_sender;
    is_over = d.is_over;
    once = d.once;
    unlinked = d.unlinked;
    fair = ap (λ fs. is_fair (phase fs)) e ∙ d.fair;
  })

  Step-IsValid :
      {k : ℕ} {st st' : ExchangeState tx} (n : ℕ)
      → Step st k st'
      → n + k < u64
      → IsValid n st
      → IsValid (n + k) st'
  Step-IsValid {st} n (receiver_moves c e) lt valid =
      wider n 0 _ (on_channel-IsValid n st c e valid)
  Step-IsValid {st} n (head_call status map) lt valid =
      wider n 0 _ (write_head-IsValid header empty n st status map valid)
  Step-IsValid {st} n (body_call p eos) lt valid =
      write_body-IsValid header empty n st p eos lt valid
  Step-IsValid {st} n (file_call offset eos opened) lt valid =
      send_file_core-IsValid header empty n st offset eos opened lt valid
  Step-IsValid {st} n (trailers_call map) lt valid =
      wider n 0 _ (write_trailers-IsValid header empty n st map valid)
  Step-IsValid {st} n flush_call lt valid = wider n 0 _ (flush-IsValid header empty n st valid)
  Step-IsValid {st} n discard_call lt valid = wider n 0 _ (discard_unit-IsValid n st valid)

  -- Whatever PHP calls on an exchange whose channel is empty, as long as it writes fewer than
  -- 2^64 bytes, and whenever the receiver moves or leaves: the frames are one head, then the
  -- body within the head's length and without a body frame where the head forbids one, then at
  -- most one end; and the exchange either may still write, has sent as many bytes as it counts,
  -- if its reply has a body, and reported nothing, or is over, with its channel let go, its
  -- spool files removed and the unit reported once.
  pub Reach-IsValid :
      (body : BodyState) (is_head : Bool) (c : Tx) {n : ℕ} {st : ExchangeState tx}
      → frames c ≡ []
      → Reach (new body is_head c) n st
      → n < u64
      → IsValid n st
  Reach-IsValid body is_head c e here lt = new-IsValid body is_head c e
  Reach-IsValid body is_head c e (next {n} r s) lt =
      Step-IsValid n s lt (Reach-IsValid body is_head c e r (omega arith))
