-- ===== src/Http/Reply.antt =====
-- crates/sapi/src/types.rs: the frames of a reply, and the sending side of the bounded channel that
-- carries them from PHP to the plugin.
--
-- `Sender` is tokio's mpsc::Sender with its documented behaviour. A `Tx` is the channel at one moment;
-- its receiver may leave between any two calls, so that a send may fail on a channel that was not yet
-- closed.
pub mod Protocol
pub mod Buffer
use rapira_windows.Common.{ℕ, ◌≡◌, Bool, true, false, Option, List, [], ◌∷◌, ◌++◌, length}

pub record ResponseHead (Map : Type 0) : Type 0 where
  pub status : ℕ
  pub headers : Map

-- A handle of the operating system.
abbrev pub File : Type 0
File = ℕ

pub data Frame (Map : Type 0) : Type 0 where
  head : ResponseHead Map → Option ℕ → Bool → Frame Map
  chunk : List ℕ → Frame Map
  -- The file, the offset and the length.
  file : File → ℕ → ℕ → Frame Map
  -- Whether the reply was cut short.
  ending : Bool → Frame Map

-- `Result<(), TrySendError>`; the frame that comes back is the one that was given.
pub data TrySend : Type 0 where
  taken full closed : TrySend

pub record Sender (Map : Type 0) : Type 1 where
  pub Tx : Type 0
  -- The frames that the channel has taken so far, in order.
  pub frames : Tx → List (Frame Map)
  pub is_closed : Tx → Bool
  pub try_send : Tx → Frame Map → TrySend × Tx
  -- Whether the frame was taken, after a wait for room.
  pub blocking_send : Tx → Frame Map → Bool × Tx
  pub try_taken :
      (t u : Tx) (f : Frame Map)
      → try_send t f ≡ (taken, u)
      → (is_closed t ≡ false) × (frames u ≡ frames t ++ (f ∷ []))
  pub try_full : (t u : Tx) (f : Frame Map) → try_send t f ≡ (full, u) → u ≡ t
  pub try_closed :
      (t u : Tx) (f : Frame Map)
      → try_send t f ≡ (closed, u)
      → (is_closed u ≡ true) × (frames u ≡ frames t)
  pub blocking_taken :
      (t u : Tx) (f : Frame Map)
      → blocking_send t f ≡ (true, u)
      → (is_closed t ≡ false) × (frames u ≡ frames t ++ (f ∷ []))
  pub blocking_closed :
      (t u : Tx) (f : Frame Map)
      → blocking_send t f ≡ (false, u)
      → (is_closed u ≡ true) × (frames u ≡ frames t)
