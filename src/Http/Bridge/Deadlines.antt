-- ===== src/Http/Bridge/Deadlines.antt =====
-- crates/plugins/http/src/bridge.rs: when a write of a connection times out, and that a close ends.
use rapira_windows.Common.{
  ℕ, ◌+◌, ◌≡◌, refl, ◌∙◌, ap, Bool, true, false, Option, none, some, List, [], ◌∷◌, leb,
  if◌then◌else◌,
}
use rapira_windows.Http.Bridge.Timed.{
  Io, pending, done, failed, timed_out, TimedIo, new_io, started, stalled, after_stall, gate,
  poll_write, poll_flush, count_flush,
}

-- A poll of a write or a flush, with its time and what the socket answers.
pub data Call : Type 0 where
  write : ℕ → Io ℕ → Call
  flush : ℕ → Io (Unit {0}) → Call

abbrev pub is_pending : {A : Type 0} → Io A → Bool
is_pending pending = true
is_pending (done a) = false
is_pending failed = false
is_pending timed_out = false

abbrev pub is_timed_out : {A : Type 0} → Io A → Bool
is_timed_out pending = false
is_timed_out (done a) = false
is_timed_out failed = false
is_timed_out timed_out = true

unfoldable pub call : TimedIo → Call → TimedIo
unfolding poll_write poll_flush
call io (write now socket) = (poll_write io now socket).1
call io (flush now socket) = (poll_flush io now socket).1

abbrev pub plus : ℕ → Option ℕ → Option ℕ
plus timeout none = none
plus timeout (some t) = some (t + timeout)

-- Since when the socket has taken nothing, after these calls, the last first.
abbrev pub stuck_since : List Call → Option ℕ
stuck_since [] = none
stuck_since (write now socket ∷ calls) =
    if is_pending socket then some (started (stuck_since calls) now) else none
stuck_since (flush now socket ∷ calls) =
    if is_pending socket then some (started (stuck_since calls) now) else none

abbrev pub after_calls : ℕ → List Call → TimedIo
after_calls timeout [] = new_io timeout
after_calls timeout (c ∷ calls) = call (after_calls timeout calls) c

-- The answer to a poll of a socket that has taken nothing since then.
abbrev pub expected : {A : Type 0} → ℕ → Option ℕ → ℕ → Io A → Io A
expected timeout since now socket =
    if is_pending socket
    then if leb (started since now + timeout) now then timed_out else pending
    else socket

started-plus :
    (since : Option ℕ) (timeout now : ℕ)
    → started (plus timeout since) (now + timeout) ≡ started since now + timeout
started-plus none timeout now = refl
started-plus (some t) timeout now = refl

after_stall_deadline :
    (A : Type 0) (b : Bool) (io : TimedIo) → ◌≡◌ {A = TimedIo} (after_stall {A = A} (b, io)).1 io
after_stall_deadline A true io = refl
after_stall_deadline A false io = refl

after_stall_answer :
    {A : Type 0} (b : Bool) (io : TimedIo)
    → (after_stall {A = A} (b, io)).0 ≡ (if b then timed_out else pending)
after_stall_answer true io = refl
after_stall_answer false io = refl

-- What `gate` leaves: its limit, and the deadline of a socket that is stuck.
gate_state :
    {A : Type 0} (io : TimedIo) (now timeout : ℕ) (since : Option ℕ) (socket : Io A)
    → io.timeout ≡ timeout
    → io.deadline ≡ plus timeout since
    → ((gate io now socket).1.timeout ≡ timeout)
      × ((gate io now socket).1.deadline
          ≡ plus timeout (if is_pending socket then some (started since now) else none))
unfolding gate stalled
gate_state {A} io now timeout since pending e d =
    let same =
      after_stall_deadline A (leb (started io.deadline (now + io.timeout)) now)
        (record io { deadline = some (started io.deadline (now + io.timeout)) }) in
    (
      ap (λ (i : TimedIo). i.timeout) same ∙ e,
      ap (λ (i : TimedIo). i.deadline) same
          ∙ ap (λ x. some (started x (now + io.timeout))) d
          ∙ ap (λ t. some (started (plus timeout since) (now + t))) e
          ∙ ap some (started-plus since timeout now),
    )
gate_state io now timeout since (done a) e d = (e, refl)
gate_state io now timeout since failed e d = (e, refl)
gate_state io now timeout since timed_out e d = (e, refl)

late_or_pending : (A : Type 0) → ℕ → ℕ → Io A
late_or_pending A now d = if leb d now then timed_out else pending

gate_answer :
    {A : Type 0} (io : TimedIo) (now timeout : ℕ) (since : Option ℕ) (socket : Io A)
    → io.timeout ≡ timeout
    → io.deadline ≡ plus timeout since
    → (gate io now socket).0 ≡ expected timeout since now socket
unfolding gate stalled late_or_pending
gate_answer {A} io now timeout since pending e d =
    after_stall_answer {A = A} (leb (started io.deadline (now + io.timeout)) now) _
    ∙ ap (late_or_pending A now) (
        ap (λ o. started o (now + io.timeout)) d
        ∙ ap (λ t. started (plus timeout since) (now + t)) e
        ∙ started-plus since timeout now)
gate_answer io now timeout since (done a) e d = refl
gate_answer io now timeout since failed e d = refl
gate_answer io now timeout since timed_out e d = refl

flush_same :
    (x : Io (Unit {0}) × TimedIo)
    → ((count_flush x).1.timeout ≡ x.1.timeout) × ((count_flush x).1.deadline ≡ x.1.deadline)
flush_same (done u, io) = (refl, refl)
flush_same (pending, io) = (refl, refl)
flush_same (failed, io) = (refl, refl)
flush_same (timed_out, io) = (refl, refl)

calls_state :
    (timeout : ℕ) (calls : List Call)
    → ((after_calls timeout calls).timeout ≡ timeout)
      × ((after_calls timeout calls).deadline ≡ plus timeout (stuck_since calls))
unfolding new_io call poll_write poll_flush
calls_state timeout [] = (refl, refl)
calls_state timeout (write now socket ∷ calls) =
    let s = calls_state timeout calls in
    gate_state (after_calls timeout calls) now timeout (stuck_since calls) socket s.0 s.1
calls_state timeout (flush now socket ∷ calls) =
    let s = calls_state timeout calls in
    let g = gate_state (after_calls timeout calls) now timeout (stuck_since calls) socket s.0 s.1 in
    let f = flush_same (gate (after_calls timeout calls) now socket) in (f.0 ∙ g.0, f.1 ∙ g.1)

-- After any writes and flushes a write answers what the socket answers, but where the socket has
-- nothing to say it times out exactly if the socket has taken nothing since a poll that is the
-- timeout or longer ago.
pub poll_write-times_out :
    (timeout now : ℕ) (calls : List Call) (socket : Io ℕ)
    → (poll_write (after_calls timeout calls) now socket).0
      ≡ expected timeout (stuck_since calls) now socket
unfolding poll_write
poll_write-times_out timeout now calls socket =
    let s = calls_state timeout calls in
    gate_answer (after_calls timeout calls) now timeout (stuck_since calls) socket s.0 s.1
