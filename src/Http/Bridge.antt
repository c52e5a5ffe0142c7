-- ===== src/Http/Bridge.antt =====
-- crates/plugins/http/src/bridge.rs: the body of a response, which hyper polls, over the frames of a
-- reply and the slices of files.
--
-- The receiver is its queue, with whether a sender is left. `Reader` answers the poll of a read that
-- `read_slice` started: `none` while it is pending. The log, the wakers, and the connection state with
-- its watermark are left out, but for `flushed` in the drop.
pub mod Stream
pub mod Polls
pub mod Turns
pub mod Runs
pub mod Whole
mod Sources
pub mod Delivery
pub mod Marks
pub mod Timed
pub mod Deadlines
pub mod Closes
pub mod Delivers
mod Tests
use Prim.Native.Nat.{min}
use rapira_windows.Common.{
  ℕ, ◌+◌, ◌-◌, ◌*◌, ◌%◌, Bool, true, false, ◌&&◌, Option, none, some, List, [], ◌∷◌, length, ltb,
  ◌==◌, if◌then◌else◌,
}
use rapira_windows.Pool.Scoreboard.{u64}
use rapira_windows.Http.Reply.{File, Frame, head, chunk, file, ending}

-- 256 KiB.
abbrev pub slice_size : ℕ
slice_size = 256 * 1024

-- The read that is under way is of `want` bytes, from `offset` and `done` on.
pub record FilePump : Type 0 where
  pub handle : File
  pub offset : ℕ
  pub len : ℕ
  pub done : ℕ
  pub at : ℕ
  pub want : ℕ

-- What a read comes to: bytes, an error of the file, or a failure of its task.
pub data SliceRead : Type 0 where
  slice : List ℕ → SliceRead
  read_error join_error : SliceRead

-- The file, the offset and the wanted bytes of a read.
abbrev pub Reader : Type 0
Reader = File → ℕ → ℕ → Option SliceRead

pub record Receiver (Map : Type 0) : Type 0 where
  pub queue : List (Frame Map)
  pub has_sender : Bool

pub record ReplyBody (Map : Type 0) : Type 0 where
  pub reply : Option (Receiver Map)
  pub declared_cl : Option ℕ
  pub sent : ℕ
  pub staged : Option (Frame Map)
  pub pump : Option FilePump
  pub err_armed : Bool

-- `Poll<Option<Result<..>>>`.
pub data Polled : Type 0 where
  pending : Polled
  data_frame : List ℕ → Polled
  body_end : Polled
  truncated : Polled

-- The declared length is not reached.
abbrev pub is_short : Option ℕ → ℕ → Bool
is_short none n = false
is_short (some cl) n = ltb n cl

-- `read_slice` for the next part of a file.
abbrev pub start_read : File → ℕ → ℕ → ℕ → FilePump
start_read f offset len done = record {
  handle = f;
  offset = offset;
  len = len;
  done = done;
  at = (offset + done) % u64;
  want = min slice_size (len - done);
}

-- The read after a slice, or none behind the last.
abbrev pub next_pump : FilePump → ℕ → Option FilePump
next_pump p done = if ltb done p.len then some (start_read p.handle p.offset p.len done) else none

module _ {Map : Type 0} where
  unfoldable pub new_body : Receiver Map → Option ℕ → Option (Frame Map) → ReplyBody Map
  new_body reply declared_cl staged = record {
    reply = some reply;
    declared_cl = declared_cl;
    sent = 0;
    staged = staged;
    pump = none;
    err_armed = false;
  }

  abbrev pub terminal_error : ReplyBody Map → Polled × ReplyBody Map
  terminal_error b = (pending, record b { reply = none; pump = none; err_armed = true })

  abbrev pub after_slice : ReplyBody Map → FilePump → List ℕ → Polled × ReplyBody Map
  after_slice b p [] = terminal_error b
  after_slice b p (c ∷ cs) = (
    data_frame (c ∷ cs),
    record b {
      sent = (b.sent + length (c ∷ cs)) % u64;
      pump = next_pump p ((p.done + length (c ∷ cs)) % u64);
    },
  )

  abbrev pub after_read : ReplyBody Map → FilePump → Option SliceRead → Polled × ReplyBody Map
  after_read b p none = (pending, b)
  after_read b p (some join_error) = terminal_error b
  after_read b p (some read_error) = terminal_error b
  after_read b p (some (slice bs)) = after_slice b p bs

  -- A turn of the loop with a file.
  abbrev pub poll_pump : Reader → ReplyBody Map → FilePump → Polled × ReplyBody Map
  poll_pump reader b p = after_read b p (reader p.handle p.at p.want)

  abbrev pub on_end : ReplyBody Map → Bool → Polled × ReplyBody Map
  on_end b true = terminal_error b
  on_end b false =
      if is_short b.declared_cl b.sent
      then terminal_error b
      else (body_end, record b { reply = none })

  -- A turn of the loop with a frame; `again` is the loop.
  abbrev pub on_frame :
      Reader → ReplyBody Map → Frame Map → Polled × ReplyBody Map → Polled × ReplyBody Map
  on_frame reader b (chunk bs) again =
      (data_frame bs, record b { sent = (b.sent + length bs) % u64 })
  on_frame reader b (file f offset len) again =
      let p = start_read f offset len 0 in poll_pump reader (record b { pump = some p }) p
  on_frame reader b (head h cl bodiless) again = again
  on_frame reader b (ending t) again = on_end b t

  -- The loop over the receiver.
  unfoldable pub poll_queue :
      Reader → ReplyBody Map → List (Frame Map) → Bool → Polled × ReplyBody Map
  poll_queue reader b [] true =
      (pending, record b { reply = some (record { queue = []; has_sender = true }) })
  poll_queue reader b [] false = terminal_error b
  poll_queue reader b (f ∷ fs) has_sender =
      let again = poll_queue reader b fs has_sender in
      on_frame reader (record b { reply = some (record { queue = fs; has_sender = has_sender }) }) f
        again

  abbrev pub poll_receiver : Reader → ReplyBody Map → Option (Receiver Map) → Polled × ReplyBody Map
  poll_receiver reader b none = (body_end, b)
  poll_receiver reader b (some rx) = poll_queue reader b rx.queue rx.has_sender

  -- The loop from a turn with no file and no staged frame on.
  unfoldable pub poll_reply : Reader → ReplyBody Map → Polled × ReplyBody Map
  unfolding poll_queue
  poll_reply reader b = poll_receiver reader b b.reply

  abbrev pub without_staged : ReplyBody Map → ReplyBody Map
  without_staged b = record b { staged = none }

  unfoldable pub take_staged : Reader → ReplyBody Map → Option (Frame Map) → Polled × ReplyBody Map
  unfolding poll_reply
  take_staged reader b none = poll_reply reader b
  take_staged reader b (some f) =
      on_frame reader (without_staged b) f (poll_reply reader (without_staged b))

  unfoldable pub poll_source : Reader → ReplyBody Map → Option FilePump → Polled × ReplyBody Map
  unfolding take_staged
  poll_source reader b none = take_staged reader b b.staged
  poll_source reader b (some p) = poll_pump reader b p

  unfoldable pub poll_frame : Reader → ReplyBody Map → Polled × ReplyBody Map
  unfolding poll_source
  poll_frame reader b = if b.err_armed then (truncated, b) else poll_source reader b b.pump
