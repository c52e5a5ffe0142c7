-- ===== src/Http/Exchange/Calls.antt =====
-- crates/plugins/http/src/php/respond.rs and sendfile.rs: the calls of PHP on an exchange.
--
-- An entry answers the exception that it throws, `none` if it throws none. The walk of a PHP array is
-- done before the entry, which gets its outcome.
use Prim.Native.String.{String}
use rapira_windows.Common.{
  ℕ, ◌+◌, ◌-◌, ◌%◌, Bool, true, false, not, ◌&&◌, ◌||◌, Option, none, some, List, length, take, any,
  ltb, leb, ◌==◌, if◌then◌else◌,
}
use rapira_windows.Pool.Scoreboard.{u64}
use rapira_windows.Http.HeaderMap.{HeaderMap}
use rapira_windows.Http.Reply.{Frame, chunk, file, Sender}
use rapira_windows.Http.Exchange.{
  Verb, accepted, finalized, head_written, discarded, content_length_exceeded, head_not_written,
  bad_field, file_not_sendable, head_committed, is_open, is_finalized, Sent, sent, lost,
  ExchangeState, cancelled, emit_head, send_frame, discard_unit, seal,
}
use rapira_windows.Http.Exchange.Head.{
  Checked, passed, failed, SplitHead, split_framing, forbidden_trailer,
}
use rapira_windows.Http.Exchange.Files.{FileSlice}

pub data Exception : Type 0 where
  already_finalized head_already_written work_discarded length_exceeded no_head : Exception
  not_sendable value_error : String → Exception
  argument_error : ℕ → String → Exception

unfoldable pub throw_verb : Verb → Option Exception
throw_verb accepted = none
throw_verb finalized = some already_finalized
throw_verb head_written = some head_already_written
throw_verb discarded = some work_discarded
throw_verb content_length_exceeded = some length_exceeded
throw_verb head_not_written = some no_head
throw_verb (bad_field msg) = some (value_error msg)
throw_verb (file_not_sendable msg) = some (not_sendable msg)

-- An i64.
pub data ℤ : Type 0 where
  pos : ℕ → ℤ
  -- Minus one for zero.
  negsuc : ℕ → ℤ

-- Past the declared length, if there is one.
abbrev pub exceeds : Option ℕ → ℕ → Bool
exceeds none n = false
exceeds (some cl) n = ltb cl n

-- The statuses of a head that is dropped, and of one without a body.
abbrev pub is_interim : ℕ → Bool
is_interim status = not (status == 101) && leb 100 status && ltb status 200

abbrev pub has_no_body : ℕ → Bool
has_no_body status = status == 204 || status == 304 || status == 101

abbrev bad_status : Option Exception
bad_status = some (value_error "status must be between 100 and 599, %lld given")

module _ (header : HeaderMap) (empty : HeaderMap.Map header)
    {tx : Sender (HeaderMap.Map header)} where
  open header use {Map, keys}

  abbrev pub discards : ExchangeState tx → Verb × ExchangeState tx
  discards st = (discarded, discard_unit st)

  -- After a send or the head, whose failure discards the unit.
  abbrev pub unless_lost :
      Sent × ExchangeState tx
      → (ExchangeState tx → Verb × ExchangeState tx)
      → Verb × ExchangeState tx
  unless_lost (lost, st) f = (discarded, discard_unit st)
  unless_lost (sent, st) f = f st

  abbrev pub seals : ExchangeState tx → Verb × ExchangeState tx
  seals st = (accepted, seal st false)

  unfoldable pub write_trailers_core : ExchangeState tx → Verb × ExchangeState tx
  unfolding cancelled discard_unit emit_head seal
  write_trailers_core st =
      if cancelled st
      then discards st
      else if is_finalized st.stage
      then (finalized, st)
      else if is_open st.stage
      then (head_not_written, st)
      else unless_lost (emit_head empty st (some st.sent_body)) seals

  unfoldable pub thrown : Verb × ExchangeState tx → Option Exception × ExchangeState tx
  unfolding throw_verb
  thrown (v, st) = (throw_verb v, st)

  unfoldable pub write_trailers :
      ExchangeState tx → Checked Map → Option Exception × ExchangeState tx
  unfolding write_trailers_core forbidden_trailer throw_verb
  write_trailers st (failed msg) = (some (value_error msg), st)
  write_trailers st (passed map) =
      if any forbidden_trailer (keys map)
      then (
        some (
            value_error
              "the field may not travel in a trailer section: framing, routing, authentication, request modifiers, response controls and content format stay in the head"),
        st,
      )
      else thrown (write_trailers_core st)

  -- The head of the reply, which no frame carries yet.
  abbrev pub commit_head : ExchangeState tx → ℕ → SplitHead Map → ExchangeState tx
  commit_head st status split = record st {
    declared_cl = split.declared_cl;
    pending = some (record { status = status; headers = split.headers });
    bodiless = st.bodiless || has_no_body status;
    stage = head_committed;
  }

  abbrev pub commits : ExchangeState tx → ℕ → Checked (SplitHead Map) → Verb × ExchangeState tx
  commits st status (failed msg) = (bad_field msg, st)
  commits st status (passed split) = (accepted, commit_head st status split)

  unfoldable pub write_head_core : ExchangeState tx → ℕ → Map → Verb × ExchangeState tx
  unfolding cancelled discard_unit split_framing
  write_head_core st status headers =
      if cancelled st
      then discards st
      else if not (is_open st.stage)
      then (head_written, st)
      else if is_interim status
      then (accepted, st)
      else commits st status (split_framing header headers)

  unfoldable pub head_of : ExchangeState tx → ℕ → Checked Map → Option Exception × ExchangeState tx
  unfolding write_head_core throw_verb
  head_of st status (failed msg) = (some (value_error msg), st)
  head_of st status (passed map) = thrown (write_head_core st status map)

  unfoldable pub write_head :
      ExchangeState tx → ℤ → Checked Map → Option Exception × ExchangeState tx
  write_head st (negsuc n) map = (bad_status, st)
  write_head st (pos status) map =
      if leb 100 status && leb status 599 then head_of st status map else (bad_status, st)

  -- The part of a write that fits, if the head was sent.
  unfoldable pub send_fit : Sent × ExchangeState tx → ℕ → (ℕ → Frame Map) → ExchangeState tx
  unfolding send_frame
  send_fit (lost, st) fit frame = st
  send_fit (sent, st) fit frame =
      if ltb 0 fit && not st.bodiless then (send_frame st (frame fit)).1 else st

  -- A write past the declared length. `sent_body` is at most that length.
  unfoldable pub exceed : ExchangeState tx → Option ℕ → (ℕ → Frame Map) → Verb × ExchangeState tx
  unfolding emit_head seal
  exceed st none frame = (accepted, st)
  exceed st (some cl) frame =
      let st' = send_fit (emit_head empty st (some cl)) (cl - st.sent_body) frame in
      (content_length_exceeded, seal (record st' { sent_body = cl }) false)

  abbrev pub seal_at_end : Bool → ExchangeState tx → Verb × ExchangeState tx
  seal_at_end false st = (accepted, st)
  seal_at_end true st = (accepted, seal st false)

  -- From the head on.
  unfoldable pub send_part : ℕ → Bool → (ℕ → Frame Map) → ExchangeState tx → Verb × ExchangeState tx
  unfolding send_frame
  send_part len eos frame st =
      let st' = record st { sent_body = (st.sent_body + len) % u64 } in
      if ltb 0 len && not st.bodiless
      then unless_lost (send_frame st' (frame len)) (seal_at_end eos)
      else seal_at_end eos st'

  unfoldable pub send_body : ExchangeState tx → ℕ → Bool → (ℕ → Frame Map) → Verb × ExchangeState tx
  send_body st len eos frame =
      if exceeds st.declared_cl ((st.sent_body + len) % u64)
      then exceed st st.declared_cl frame
      else unless_lost (emit_head empty st (if eos && st.sent_body == 0 then some len else none))
          (send_part len eos frame)

  unfoldable pub write_body_core : ExchangeState tx → List ℕ → Bool → Verb × ExchangeState tx
  unfolding cancelled send_body
  write_body_core st p eos =
      if cancelled st
      then discards st
      else if is_finalized st.stage
      then (finalized, st)
      else if length p == 0 && not eos
      then (accepted, st)
      else send_body st (length p) eos (λ n. chunk (take n p))

  unfoldable pub write_body : ExchangeState tx → List ℕ → Bool → Option Exception × ExchangeState tx
  unfolding write_body_core
  write_body st p eos = thrown (write_body_core st p eos)

  unfoldable pub send_slice :
      ExchangeState tx → ℕ → Bool → Checked FileSlice → Verb × ExchangeState tx
  unfolding send_body
  send_slice st offset eos (failed msg) = (file_not_sendable msg, st)
  send_slice st offset eos (passed s) =
      if exceeds st.declared_cl ((st.sent_body + s.len) % u64)
      then (content_length_exceeded, st)
      else send_body st s.len eos (λ n. file s.handle offset n)

  -- `opened` is what `open_send_file` answers.
  unfoldable pub send_file_core :
      ExchangeState tx → ℕ → Bool → Checked FileSlice → Verb × ExchangeState tx
  unfolding cancelled discard_unit
  send_file_core st offset eos opened =
      if cancelled st
      then discards st
      else if is_finalized st.stage
      then (finalized, st)
      else send_slice st offset eos opened

  -- The match of `rapira_rs_exchange_flush`.
  unfoldable pub flush_verb : ExchangeState tx → Verb × ExchangeState tx
  unfolding cancelled discard_unit emit_head
  flush_verb st =
      if cancelled st
      then discards st
      else if is_finalized st.stage
      then (finalized, st)
      else unless_lost (emit_head empty st none) (λ st'. (accepted, st'))

  unfoldable pub flush : ExchangeState tx → Option Exception × ExchangeState tx
  unfolding flush_verb thrown
  flush st = thrown (flush_verb st)
