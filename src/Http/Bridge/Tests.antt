-- ===== src/Http/Bridge/Tests.antt =====
-- The theorems on crates/plugins/http/src/bridge.rs at a concrete reply.
use rapira_windows.Common.{
  ℕ, ◌+◌, ◌≤◌, ◌≡◌, refl, sym, ◌∙◌, ap, true, false, Option, none, some, List, [], ◌∷◌, length,
  take, drop, length-take, take-append_length, take-append-drop, arith,
}
use rapira_windows.Http.FieldList.{Field, field_list}
use rapira_windows.Http.Reply.{File, Frame, head, chunk, file, ending, Sender}
use rapira_windows.Http.Reply.Buffer.{Buffer, buffer, try_push, push_waiting}
use rapira_windows.Http.Exchange.{ExchangeState, raw, new, cancelled, send_frame, emit_head, seal}
use rapira_windows.Http.Exchange.Calls.{
  write_body, write_body_core, send_body, send_part, send_fit, exceed, thrown,
}
use rapira_windows.Http.Exchange.Reach.{Reach, here, next, body_call}
use rapira_windows.Http.Bridge.{
  Receiver, ReplyBody, Polled, pending as pending_poll, SliceRead, slice, read_error, join_error,
  Reader, data_frame, body_end, new_body, poll_frame, poll_source, take_staged, poll_reply,
  poll_queue,
}
use rapira_windows.Http.Bridge.Stream.{stream}
use rapira_windows.Http.Bridge.Delivers.{IsReading}
use rapira_windows.Http.Bridge.Timed.{
  pending, done, failed, timed_out, new_io, poll_write, poll_shutdown,
}
use rapira_windows.Http.Bridge.Deadlines.{
  Call, write, flush, after_calls, stuck_since, expected, poll_write-times_out,
}
use rapira_windows.Http.Bridge.Delivery.{
  Seen, frame, closes, completed, cancelled as given_up, arm, note, drained_on_drop, drain,
  drain_task, spawn_drain,
}
use rapira_windows.Http.Bridge.Marks.{
  Marked, after_polls, polled_response, ClosedBy, spawn_drain-Delivered,
}
use rapira_windows.Http.Bridge.Closes.{of_call, polls as close_polls, poll_shutdown-ends}
use rapira_windows.Http.Bridge.Whole.{Run, begins, polls, Run-delivers}
use rapira_windows.Http.Bridge.Sources.{Reach-delivers}
use rapira_windows.Http.Exchange.History.{history, Recorded}

abbrev content : File → List ℕ
content f = 10 ∷ 20 ∷ 30 ∷ 40 ∷ []

abbrev reader : Reader
reader f at want = some (slice (take want (drop at (content f))))

bytes_read : Option SliceRead → List ℕ
bytes_read none = []
bytes_read (some (slice bs)) = bs
bytes_read (some read_error) = []
bytes_read (some join_error) = []

take_again : (n : ℕ) (xs : List ℕ) → take n xs ≡ take (length (take n xs)) xs
take_again n xs = sym (
    ap (take (length (take n xs))) (sym (take-append-drop n xs))
    ∙ take-append_length (take n xs) (drop n xs))

reader_reads : IsReading content reader
unfolding bytes_read
reader_reads = record {
  bounded = λ f at want bs e.
      let same : take want (drop at (content f)) ≡ bs = ap bytes_read e in
      let le : length (take want (drop at (content f))) ≤ want =
        let h = length-take want (drop at (content f)) in omega arith in
      let h = ap length same in omega arith;
  faithful = λ f at want bs e.
      let same : take want (drop at (content f)) ≡ bs = ap bytes_read e in
      sym same
      ∙ take_again want (drop at (content f))
      ∙ ap (λ x. take (length x) (drop at (content f))) same;
}

abbrev frames : List (Frame (List Field))
frames = chunk (1 ∷ 2 ∷ []) ∷ file 7 1 2 ∷ ending false ∷ []

abbrev fresh : ReplyBody (List Field)
fresh = new_body (record { queue = frames; has_sender = true }) (some 4) none

abbrev one : ReplyBody (List Field)
one = (poll_frame reader fresh).1

abbrev two : ReplyBody (List Field)
two = (poll_frame reader one).1

second_poll : (poll_frame reader one).0 ≡ data_frame (20 ∷ 30 ∷ [])
unfolding new_body poll_frame poll_source take_staged poll_reply poll_queue
second_poll = refl

third_poll : (poll_frame reader two).0 ≡ body_end
unfolding new_body poll_frame poll_source take_staged poll_reply poll_queue
third_poll = refl

two-Run : Run content 4 frames (1 ∷ 2 ∷ 20 ∷ 30 ∷ []) two
unfolding new_body poll_frame poll_source take_staged poll_reply poll_queue
two-Run =
    polls reader reader_reads
      (polls reader reader_reads (begins (record { queue = frames; has_sender = true }) none))

Run-delivers_example :
    ((1 ∷ 2 ∷ 20 ∷ 30 ∷ []) ≡ take 4 (stream content frames))
    × (4 ≤ 4)
    × ((poll_frame reader two).0 ≡ body_end → ◌≡◌ {A = ℕ} 4 4)
Run-delivers_example =
    Run-delivers content 4 (omega arith) reader reader_reads (refl, (tt, (omega arith, (tt, tt))))
      two-Run

abbrev tx : Sender (List Field)
tx = buffer (List Field)

abbrev channel : Buffer (List Field)
channel = record { frames = []; room = 8; gone = false }

abbrev start : ExchangeState tx
start = new {tx = tx} (raw []) false channel

-- A whole body in one call, whose length the head gets.
abbrev answered : ExchangeState tx
answered = (write_body field_list [] {tx = tx} start (1 ∷ 2 ∷ []) true).1

abbrev answer_frames : List (Frame (List Field))
answer_frames = chunk (1 ∷ 2 ∷ []) ∷ ending false ∷ []

answered_frames :
    answered.channel.frames
    ≡ head (record { status = 200; headers = [] }) (some 2) false ∷ answer_frames
unfolding new write_body thrown write_body_core cancelled send_body send_part send_fit exceed seal
    emit_head send_frame try_push push_waiting
answered_frames = refl

abbrev answer_body : ReplyBody (List Field)
answer_body =
    (poll_frame reader
      (new_body (record { queue = answer_frames; has_sender = false }) (some 2) none)).1

answer-Run : Run content 2 answer_frames (1 ∷ 2 ∷ []) answer_body
unfolding new_body poll_frame poll_source take_staged poll_reply poll_queue
answer-Run =
    polls reader reader_reads (begins (record { queue = answer_frames; has_sender = false }) none)

-- One call of two bytes.
abbrev answered_once : Reach field_list [] {tx = tx} start (0 + 2) answered
answered_once = next here (body_call (1 ∷ 2 ∷ []) true)

Reach-delivers_example :
    Recorded field_list [] {tx = tx} content answered
      (history field_list [] {tx = tx} content answered_once)
    × ((1 ∷ 2 ∷ []) ≡ take 2 (history field_list [] {tx = tx} content answered_once))
    × (2 ≤ 2)
    × ((poll_frame reader answer_body).0 ≡ body_end → ◌≡◌ {A = ℕ} 2 2)
Reach-delivers_example =
    Reach-delivers field_list [] {tx = tx} content 2 (raw []) false channel
      (record { status = 200; headers = [] }) reader refl answered_once (omega arith) (omega arith)
      answered_frames (tt, (tt, tt)) reader_reads answer-Run

abbrev writes : List Call
writes = write 12 pending ∷ flush 11 pending ∷ write 10 (done 3) ∷ []

-- Stuck since 11, and 16 is five ticks on.
poll_write-times_out_example :
    (poll_write (after_calls 5 writes) 16 pending).0 ≡ expected 5 (stuck_since writes) 16 pending
poll_write-times_out_example = poll_write-times_out 5 16 writes pending

timed_out_at_16 : expected {A = ℕ} 5 (stuck_since writes) 16 pending ≡ timed_out
timed_out_at_16 = refl

not_at_15 : expected {A = ℕ} 5 (stuck_since writes) 15 pending ≡ pending
not_at_15 = refl

poll_shutdown-ends_example :
    (poll_shutdown 10
      (close_polls 10
        (poll_shutdown 10 (new_io 5) 3 (done tt) pending).1
        (of_call (flush 4 pending) ∷ []))
      13
      failed
      pending).0
    ≡ done tt
unfolding new_io
poll_shutdown-ends_example =
    poll_shutdown-ends 10 (new_io 5) 3 13 pending pending (of_call (flush 4 pending) ∷ []) failed
      refl (omega arith)

-- Two bytes; the second goes out with the flushes at six.
abbrev given_polls : List (ℕ × Polled)
given_polls = (3, pending_poll) ∷ (4, data_frame (1 ∷ [])) ∷ (6, data_frame (2 ∷ [])) ∷ []

abbrev waiting_reply : Receiver (List Field)
waiting_reply = record { queue = []; has_sender = true }

abbrev given_body : ReplyBody (List Field)
given_body = record {
  reply = some waiting_reply;
  declared_cl = some 2;
  sent = 2;
  staged = none;
  pump = none;
  err_armed = false;
}

abbrev closed_at_six : List (Seen (List Field))
closed_at_six = frame (chunk []) ∷ closes 6 ∷ []

spawn_drain-Delivered_example :
    (f : ℕ) × Marked 2 0 given_polls (some f)
    × ((spawn_drain (some f) waiting_reply closed_at_six ≡ given_up) → ClosedBy f closed_at_six)
unfolding arm after_polls polled_response note drained_on_drop
spawn_drain-Delivered_example =
    spawn_drain-Delivered 2 1 given_polls given_body waiting_reply closed_at_six (omega arith) refl

closed_before_delivery : spawn_drain (some 6) waiting_reply closed_at_six ≡ given_up
unfolding spawn_drain drain_task
closed_before_delivery = refl

closed_behind_delivery :
    spawn_drain (some 6) waiting_reply (closes 7 ∷ frame (ending false) ∷ []) ≡ completed
unfolding spawn_drain drain_task drain
closed_behind_delivery = refl
