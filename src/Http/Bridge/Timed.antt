-- ===== src/Http/Bridge/Timed.antt =====
-- crates/plugins/http/src/bridge.rs: `TimedIo`, the writes of a connection with their time limit.
--
-- Times are ticks of one clock, `second` of them in a second. A `Sleep` is the tick at which it is done. What the socket answers to a
-- poll is an argument. Of `ConnectionState` the count of the flushes is kept.
use rapira_windows.Common.{
  ℕ, ◌+◌, ◌%◌, Bool, true, false, Option, none, some, List, [], ◌∷◌, leb, if◌then◌else◌,
}
use rapira_windows.Pool.Scoreboard.{u64}

-- `Poll<io::Result<_>>`.
pub data Io {ℓ} (A : Type ℓ) : Type ℓ where
  pending : Io A
  done : A → Io A
  failed timed_out : Io A

pub record TimedIo : Type 0 where
  pub timeout : ℕ
  pub deadline : Option ℕ
  pub close_deadline : Option ℕ
  pub flushes : ℕ

unfoldable pub new_io : ℕ → TimedIo
new_io timeout = record { timeout = timeout; deadline = none; close_deadline = none; flushes = 0 }

-- `get_or_insert_with`.
abbrev pub started : Option ℕ → ℕ → ℕ
started none at = at
started (some d) at = d

-- Whether the deadline is over; it starts here if there is none.
unfoldable pub stalled : TimedIo → ℕ → Bool × TimedIo
stalled io now =
    let d = started io.deadline (now + io.timeout) in (leb d now, record io { deadline = some d })

abbrev pub after_stall : {A : Type 0} → Bool × TimedIo → Io A × TimedIo
after_stall (true, io) = (timed_out, io)
after_stall (false, io) = (pending, io)

abbrev pub no_deadline : TimedIo → TimedIo
no_deadline io = record io { deadline = none }

-- What the socket itself answers is not a time limit of this module.
unfoldable pub gate : {A : Type 0} → TimedIo → ℕ → Io A → Io A × TimedIo
unfolding stalled
gate io now pending = after_stall (stalled io now)
gate io now (done a) = (done a, no_deadline io)
gate io now failed = (failed, no_deadline io)
gate io now timed_out = (timed_out, no_deadline io)

-- `poll_write`; `poll_write_vectored` is the same with another poll of the socket.
unfoldable pub poll_write : TimedIo → ℕ → Io ℕ → Io ℕ × TimedIo
unfolding gate
poll_write io now socket = gate io now socket

abbrev pub count_flush : Io (Unit {0}) × TimedIo → Io (Unit {0}) × TimedIo
count_flush (done u, io) = (done u, record io { flushes = (io.flushes + 1) % u64 })
count_flush (pending, io) = (pending, io)
count_flush (failed, io) = (failed, io)
count_flush (timed_out, io) = (timed_out, io)

unfoldable pub poll_flush : TimedIo → ℕ → Io (Unit {0}) → Io (Unit {0}) × TimedIo
unfolding gate
poll_flush io now socket = count_flush (gate io now socket)

-- The read behind a shutdown.
abbrev pub after_drain : TimedIo → Io (List ℕ) → Io (Unit {0}) × TimedIo
after_drain io pending = (pending, io)
after_drain io failed = (failed, io)
after_drain io timed_out = (timed_out, io)
after_drain io (done []) = (done tt, io)
after_drain io (done (b ∷ bs)) = (pending, io)

-- From the deadline on.
abbrev pub drain_until : TimedIo → ℕ → ℕ → Io (List ℕ) → Io (Unit {0}) × TimedIo
drain_until io now d read = if leb d now then (done tt, io) else after_drain io read

abbrev pub start_close : TimedIo → ℕ → TimedIo
start_close io d = record io { close_deadline = some d }

-- After the poll of the socket's shutdown.
abbrev pub after_shutdown : ℕ → TimedIo → ℕ → Io (Unit {0}) → Io (List ℕ) → Io (Unit {0}) × TimedIo
after_shutdown second io now pending read = (pending, io)
after_shutdown second io now failed read = (failed, io)
after_shutdown second io now timed_out read = (timed_out, io)
after_shutdown second io now (done u) read =
    drain_until (start_close io (now + second)) now (now + second) read

abbrev pub closing :
    ℕ → TimedIo → ℕ → Option ℕ → Io (Unit {0}) → Io (List ℕ) → Io (Unit {0}) × TimedIo
closing second io now (some d) shutdown read = drain_until io now d read
closing second io now none shutdown read = after_shutdown second io now shutdown read

unfoldable pub poll_shutdown :
    ℕ → TimedIo → ℕ → Io (Unit {0}) → Io (List ℕ) → Io (Unit {0}) × TimedIo
poll_shutdown second io now shutdown read = closing second io now io.close_deadline shutdown read
