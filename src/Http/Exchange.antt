-- ===== src/Http/Exchange.antt =====
-- crates/plugins/http/src/php: the exchange that PHP holds, and how it writes its reply (respond.rs,
-- with the state of mod.rs).
--
-- `channel` is the channel behind `sender`, and `sender` says whether the exchange still has its end of
-- it. `reported` is what the exchange passed to `sb_update`, in order. The view of the request and the
-- log are left out.
pub mod Head
pub mod Trim
pub mod Files
pub mod Calls
pub mod Sends
pub mod Valid
pub mod Writes
pub mod Finish
pub mod Body
pub mod Keeps
pub mod HeadKeeps
pub mod Reach
pub mod Silent
pub mod Written
pub mod CallsWritten
pub mod History
pub mod Within
pub mod Release
pub mod Abandon
mod Tests
use Prim.Native.String.{String}
use rapira_windows.Common.{
  ℕ, ◌+◌, ◌-◌, ◌%◌, Bool, true, false, not, ◌&&◌, ◌||◌, Option, none, some, List, [], ◌∷◌, ◌++◌,
  length, take, map, ltb, leb, ◌==◌, if◌then◌else◌,
}
use rapira_windows.Pool.Scoreboard.{u64}
use rapira_windows.Pool.Events.{Event, handled}
use rapira_windows.Http.Reply.{
  ResponseHead, Frame, head, chunk, ending, Sender, TrySend, taken, full, closed,
}

pub data Verb : Type 0 where
  accepted finalized head_written discarded content_length_exceeded head_not_written : Verb
  bad_field file_not_sendable : String → Verb

pub data Stage : Type 0 where
  open_stage head_committed finalized_stage : Stage

abbrev pub is_open : Stage → Bool
is_open open_stage = true
is_open head_committed = false
is_open finalized_stage = false

abbrev pub is_finalized : Stage → Bool
is_finalized open_stage = false
is_finalized head_committed = false
is_finalized finalized_stage = true

-- A spool file's path, which is empty from its removal on.
abbrev pub Spool : Type 0
Spool = List ℕ

-- The fields of a multipart body and the rest of an upload are left out.
pub data BodyState : Type 0 where
  raw : List ℕ → BodyState
  multipart : List Spool → BodyState

abbrev pub unlink : Spool → Spool
unlink path = []

unfoldable pub unlink_spools : BodyState → BodyState
unlink_spools (raw b) = raw b
unlink_spools (multipart files) = multipart (map unlink files)

-- `Result<(), Closed>`.
pub data Sent : Type 0 where
  sent lost : Sent

abbrev pub or_empty : {Map : Type 0} → Map → Option (ResponseHead Map) → ResponseHead Map
or_empty m none = record { status = 200; headers = m }
or_empty m (some h) = h

abbrev pub or_else : Option ℕ → Option ℕ → Option ℕ
or_else none other = other
or_else (some n) other = some n

abbrev pub commit : Stage → Stage
commit open_stage = head_committed
commit head_committed = head_committed
commit finalized_stage = finalized_stage

module _ {Map : Type 0} (tx : Sender Map) where
  open tx use {Tx, is_closed, try_send, blocking_send}

  pub record ExchangeState : Type 0 where
    pub body : BodyState
    pub sender : Bool
    pub channel : Tx
    pub stage : Stage
    pub head_sent : Bool
    pub pending : Option (ResponseHead Map)
    pub declared_cl : Option ℕ
    pub sent_body : ℕ
    pub discarded : Bool
    pub bodiless : Bool
    pub reported : List Event

module _ {Map : Type 0} {tx : Sender Map} where
  open tx use {Tx, is_closed, try_send, blocking_send}

  unfoldable pub new : BodyState → Bool → Tx → ExchangeState tx
  new body is_head c = record {
    body = body;
    sender = true;
    channel = c;
    stage = open_stage;
    head_sent = false;
    pending = none;
    declared_cl = none;
    sent_body = 0;
    discarded = false;
    bodiless = is_head;
    reported = [];
  }

  unfoldable pub cancelled : ExchangeState tx → Bool
  cancelled st = st.discarded || (st.sender && is_closed st.channel)

  abbrev pub on_channel : ExchangeState tx → Tx → ExchangeState tx
  on_channel st c = record st { channel = c }

  abbrev pub blocked : ExchangeState tx → Bool × Tx → Sent × ExchangeState tx
  blocked st (true, c) = (sent, on_channel st c)
  blocked st (false, c) = (lost, on_channel st c)

  abbrev pub tried : ExchangeState tx → Frame Map → TrySend × Tx → Sent × ExchangeState tx
  tried st f (taken, c) = (sent, on_channel st c)
  tried st f (closed, c) = (lost, on_channel st c)
  tried st f (full, c) = blocked st (blocking_send c f)

  unfoldable pub send_frame : ExchangeState tx → Frame Map → Sent × ExchangeState tx
  send_frame st f = if st.sender then tried st f (try_send st.channel f) else (lost, st)

  -- The length that `emit_head` puts in the frame.
  abbrev pub length_of_head : ExchangeState tx → Option ℕ → Option ℕ
  length_of_head st finalizing =
      if st.bodiless then st.declared_cl else or_else st.declared_cl finalizing

  -- `emit_head` up to the send.
  abbrev pub with_head : ExchangeState tx → ExchangeState tx
  with_head st = record st { pending = none; stage = commit st.stage; head_sent = true }

  -- `no_headers` is `HeaderMap::new()`.
  unfoldable pub emit_head : Map → ExchangeState tx → Option ℕ → Sent × ExchangeState tx
  unfolding send_frame
  emit_head no_headers st finalizing =
      if st.head_sent
      then (sent, st)
      else send_frame (with_head st)
          (head (or_empty no_headers st.pending) (length_of_head st finalizing) st.bodiless)

  unfoldable pub discard_unit : ExchangeState tx → ExchangeState tx
  unfolding unlink_spools
  discard_unit st = if is_finalized st.stage then st else record st {
    discarded = true;
    stage = finalized_stage;
    body = unlink_spools st.body;
    reported = st.reported ++ (handled true ∷ []);
    sender = false;
  }

  -- `seal` up to the send.
  abbrev pub finish : ExchangeState tx → Bool → ExchangeState tx
  finish st truncated = record st {
    body = unlink_spools st.body;
    stage = finalized_stage;
    reported = st.reported ++ (handled truncated ∷ []);
  }

  abbrev pub hang_up : Sent × ExchangeState tx → ExchangeState tx
  hang_up (r, st) = record st { sender = false }

  unfoldable pub seal : ExchangeState tx → Bool → ExchangeState tx
  unfolding send_frame
  seal st truncated = hang_up (send_frame (finish st truncated) (ending truncated))
