-- ===== src/Http/Bridge/Delivery.antt =====
-- crates/plugins/http/src: the mark of a delivered response (`RespBody` in handler.rs), and the drain of a
-- reply behind it (bridge.rs).
--
-- `flushes` is what `closed.borrow()` shows at that time. The drain is the list of what its task sees
-- next: a frame, the end of the channel, or the close of the connection. A connection whose task is dropped
-- without a close, which fails the wait for it, is not modelled.
use rapira_windows.Common.{
  ℕ, zero, suc, ◌-◌, Bool, true, false, ◌&&◌, Option, none, some, List, [], ◌∷◌, length, ltb, ◌==◌,
  if◌then◌else◌,
}
use rapira_windows.Http.Reply.{Frame, head, chunk, file, ending}
use rapira_windows.Http.Bridge.{
  Receiver, ReplyBody, Polled, pending, data_frame, body_end, truncated,
}

-- `RespBody::transport` and the mark on its guard.
pub record Delivery : Type 0 where
  pub remaining : Option ℕ
  pub end_flush : Option ℕ

abbrev pub get_or_init : Option ℕ → ℕ → Option ℕ
get_or_init none n = some n
get_or_init (some f) n = some f

-- `respond`, with the framed length.
unfoldable pub arm : Delivery → Option ℕ → ℕ → Delivery
arm d none flushes = d
arm d (some zero) flushes = record d { end_flush = get_or_init d.end_flush flushes }
arm d (some (suc n)) flushes = record d { remaining = some (suc n) }

abbrev pub note_left : Delivery → ℕ → ℕ → Delivery
note_left d left flushes = record {
  remaining = some left;
  end_flush = if left == 0 then get_or_init d.end_flush flushes else d.end_flush;
}

abbrev pub note_bytes : Delivery → Option ℕ → ℕ → ℕ → Delivery
note_bytes d none n flushes = d
note_bytes d (some left) n flushes = note_left d (left - n) flushes

-- `RespBody::poll_frame`, behind the poll of its body.
unfoldable pub note : Delivery → ℕ → Polled → Delivery
note d flushes (data_frame bs) = note_bytes d d.remaining (length bs) flushes
note d flushes pending = d
note d flushes body_end = d
note d flushes truncated = d

abbrev pub is_all_sent : Option ℕ → ℕ → Bool
is_all_sent none sent = false
is_all_sent (some cl) sent = cl == sent

abbrev pub has_mark : Option ℕ → Bool
has_mark none = false
has_mark (some f) = true

-- `closes` is with the count of the flushes.
pub data Seen (Map : Type 0) : Type 0 where
  frame : Frame Map → Seen Map
  sender_gone : Seen Map
  closes : ℕ → Seen Map

module _ {Map : Type 0} where
  -- The drop of a ReplyBody: the receiver that goes to the drain.
  unfoldable pub drained_on_drop : ReplyBody Map → Delivery → Option (Receiver Map)
  drained_on_drop b d =
      if is_all_sent b.declared_cl b.sent && has_mark d.end_flush then b.reply else none

pub data Drained : Type 0 where
  -- To the end, given up, or still under way.
  completed cancelled under_way : Drained

-- A flush past the mark.
abbrev pub is_flushed : Option ℕ → ℕ → Bool
is_flushed none n = false
is_flushed (some f) n = ltb f n

module _ {Map : Type 0} where
  unfoldable pub drain : List (Seen Map) → Drained
  drain [] = under_way
  drain (frame (ending t) ∷ rest) = completed
  drain (frame (head h cl b) ∷ rest) = drain rest
  drain (frame (chunk bs) ∷ rest) = drain rest
  drain (frame (file f offset len) ∷ rest) = drain rest
  drain (sender_gone ∷ rest) = completed
  drain (closes n ∷ rest) = drain rest

  -- The task: the close or the drain, whichever comes first.
  unfoldable pub drain_task : Option ℕ → List (Seen Map) → Drained
  unfolding drain
  drain_task mark [] = under_way
  drain_task mark (frame (ending t) ∷ rest) = completed
  drain_task mark (frame (head h cl b) ∷ rest) = drain_task mark rest
  drain_task mark (frame (chunk bs) ∷ rest) = drain_task mark rest
  drain_task mark (frame (file f offset len) ∷ rest) = drain_task mark rest
  drain_task mark (sender_gone ∷ rest) = completed
  drain_task mark (closes n ∷ rest) = if is_flushed mark n then drain rest else cancelled

  abbrev pub after_first_frame : Option ℕ → Frame Map → List (Seen Map) → Drained
  unfolding drain_task
  after_first_frame mark (ending t) seen = completed
  after_first_frame mark (head h cl b) seen = drain_task mark seen
  after_first_frame mark (chunk bs) seen = drain_task mark seen
  after_first_frame mark (file f offset len) seen = drain_task mark seen

  -- With what is queued when it starts; the frames behind the first are in `seen`.
  unfoldable pub spawn_drain : Option ℕ → Receiver Map → List (Seen Map) → Drained
  unfolding drain_task after_first_frame
  spawn_drain mark rx seen = elim (rx.queue) [
    | [] ↦ if rx.has_sender then drain_task mark seen else completed
    | f ∷ fs ↦ after_first_frame mark f seen
  ]
