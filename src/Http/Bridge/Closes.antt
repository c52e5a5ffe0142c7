-- ===== src/Http/Bridge/Closes.antt =====
-- crates/plugins/http/src/bridge.rs: the close of a connection ends.
use rapira_windows.Common.{
  ℕ, ◌+◌, ◌≤◌, ◌≡◌, refl, ap, Bool, true, false, Option, none, some, List, [], ◌∷◌, leb, le→leb,
  if_split, arith,
}
use rapira_windows.Http.Bridge.Timed.{
  Io, pending, done, failed, timed_out, TimedIo, stalled, after_stall, gate, poll_write, poll_flush,
  count_flush, poll_shutdown, closing, drain_until, after_drain,
}
use rapira_windows.Http.Bridge.Deadlines.{Call, write, flush, call}

-- Any poll of the connection: a write or a flush, or a shutdown with its time and what the socket answers.
pub data Poll : Type 0 where
  of_call : Call → Poll
  shutdown : ℕ → Io (Unit {0}) → Io (List ℕ) → Poll

module _ (second : ℕ) where
  unfoldable pub poll : TimedIo → Poll → TimedIo
  unfolding call poll_shutdown
  poll io (of_call c) = call io c
  poll io (shutdown now socket read) = (poll_shutdown second io now socket read).1

  unfoldable pub polls : TimedIo → List Poll → TimedIo
  unfolding poll
  polls io [] = io
  polls io (p ∷ ps) = polls (poll io p) ps

stall_close :
    (A : Type 0) (b : Bool) (io : TimedIo) (d : ℕ)
    → io.close_deadline ≡ some d
    → (after_stall {A = A} (b, io)).1.close_deadline ≡ some d
stall_close A true io d e = e
stall_close A false io d e = e

gate_close :
    {A : Type 0} (io : TimedIo) (now d : ℕ) (socket : Io A)
    → io.close_deadline ≡ some d
    → (gate io now socket).1.close_deadline ≡ some d
unfolding gate stalled
gate_close {A} io now d pending e = stall_close A _ (record io { deadline = _ }) d e
gate_close io now d (done a) e = e
gate_close io now d failed e = e
gate_close io now d timed_out e = e

flush_close :
    (x : Io (Unit {0}) × TimedIo) (d : ℕ)
    → x.1.close_deadline ≡ some d
    → (count_flush x).1.close_deadline ≡ some d
flush_close (done u, io) d e = e
flush_close (pending, io) d e = e
flush_close (failed, io) d e = e
flush_close (timed_out, io) d e = e

drain_close :
    (io : TimedIo) (d : ℕ) (read : Io (List ℕ))
    → io.close_deadline ≡ some d
    → (after_drain io read).1.close_deadline ≡ some d
drain_close io d pending e = e
drain_close io d failed e = e
drain_close io d timed_out e = e
drain_close io d (done []) e = e
drain_close io d (done (b ∷ bs)) e = e

until_close :
    (io : TimedIo) (now d' d : ℕ) (read : Io (List ℕ))
    → io.close_deadline ≡ some d
    → (drain_until io now d' read).1.close_deadline ≡ some d
until_close io now d' d read e =
    if_split (λ (x : Io (Unit {0}) × TimedIo). x.1.close_deadline ≡ some d) (leb d' now) (λ over. e)
      (λ not_over. drain_close io d read e)

closing_close :
    (second : ℕ) (io : TimedIo) (now d : ℕ) (o : Option ℕ) (socket : Io (Unit {0}))
    (read : Io (List ℕ))
    → o ≡ some d
    → io.close_deadline ≡ some d
    → (closing second io now o socket read).1.close_deadline ≡ some d
closing_close second io now d none socket read o e = absurd (cc)
closing_close second io now d (some d') socket read o e = until_close io now d' d read e

call_close :
    (io : TimedIo) (d : ℕ) (c : Call)
    → io.close_deadline ≡ some d
    → (call io c).close_deadline ≡ some d
unfolding call poll_write poll_flush
call_close io d (write now socket) e = gate_close io now d socket e
call_close io d (flush now socket) e =
    flush_close (gate io now socket) d (gate_close io now d socket e)

poll_close :
    (second : ℕ) (io : TimedIo) (d : ℕ) (p : Poll)
    → io.close_deadline ≡ some d
    → (poll second io p).close_deadline ≡ some d
unfolding poll poll_shutdown
poll_close second io d (of_call c) e = call_close io d c e
poll_close second io d (shutdown now socket read) e =
    closing_close second io now d io.close_deadline socket read e e

polls_close :
    (second : ℕ) (ps : List Poll) (io : TimedIo) (d : ℕ)
    → io.close_deadline ≡ some d
    → (polls second io ps).close_deadline ≡ some d
unfolding polls
polls_close second [] io d e = e
polls_close second (p ∷ ps) io d e =
    polls_close second ps (poll second io p) d (poll_close second io d p e)

begun_close :
    (second : ℕ) (io : TimedIo) (at : ℕ) (o : Option ℕ) (read : Io (List ℕ))
    → o ≡ none
    → (closing second io at o (done tt) read).1.close_deadline ≡ some (at + second)
begun_close second io at none read e = until_close _ at (at + second) (at + second) read refl
begun_close second io at (some d) read e = absurd (cc)

ends_at :
    (second : ℕ) (io : TimedIo) (now d : ℕ) (o : Option ℕ) (socket : Io (Unit {0}))
    (read : Io (List ℕ))
    → o ≡ some d
    → d ≤ now
    → (closing second io now o socket read).0 ≡ done tt
ends_at second io now d none socket read e le = absurd (cc)
ends_at second io now d (some d') socket read e le =
    let same : d' ≡ d = some_is d' d e in
    if_split (λ (x : Io (Unit {0}) × TimedIo). x.0 ≡ done tt) (leb d' now) (λ over. refl)
      (λ not_over. absurd (let h = le→leb d' now (omega arith) in cc))
  where
    or_zero : Option ℕ → ℕ
    or_zero none = 0
    or_zero (some n) = n

    some_is : (a b : ℕ) → some a ≡ some b → a ≡ b
    some_is a b e = ap or_zero e

-- Once the socket is shut down, the first poll of the close a second or more later ends it,
-- whatever writes, flushes and closes are polled between and whatever the socket answers.
pub poll_shutdown-ends :
    (second : ℕ) (io : TimedIo) (at now : ℕ) (read read' : Io (List ℕ)) (ps : List Poll)
    (socket : Io (Unit {0}))
    → io.close_deadline ≡ none
    → at + second ≤ now
    → (poll_shutdown second
        (polls second (poll_shutdown second io at (done tt) read).1 ps)
        now
        socket
        read').0
      ≡ done tt
unfolding poll_shutdown
poll_shutdown-ends second io at now read read' ps socket fresh late =
    let io' = (closing second io at io.close_deadline (done tt) read).1 in
    ends_at second (polls second io' ps) now (at + second) _ socket read'
      (polls_close second ps io' (at + second)
        (begun_close second io at io.close_deadline read fresh))
      late
