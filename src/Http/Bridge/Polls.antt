-- ===== src/Http/Bridge/Polls.antt =====
-- crates/plugins/http/src/bridge.rs: the states of the body of a reply with a declared length.
use mathlib.Core.List.{append_assoc}
use rapira_windows.Common.{
  ℕ, ◌+◌, ◌-◌, ◌≤◌, ◌<◌, ◌≡◌, sym, ◌∙◌, ap, true, false, Option, none, some, List, [], ◌∷◌, ◌++◌,
  length, take, drop, arith,
}
use rapira_windows.Http.Reply.{File, Frame, file}
use rapira_windows.Http.Reply.Protocol.{streaming, run_from}
use rapira_windows.Http.Bridge.{FilePump, Receiver, ReplyBody, start_read}
use rapira_windows.Http.Bridge.Stream.{stream, stream-append, IsPart, take_sum}

module _ {Map : Type 0} where
  abbrev pub held : Option (Frame Map) → List (Frame Map)
  held none = []
  held (some f) = f ∷ []

  abbrev pub queued : Option (Receiver Map) → List (Frame Map)
  queued none = []
  queued (some rx) = rx.queue

  -- The frames that the body has not taken yet.
  abbrev pub waiting : ReplyBody Map → List (Frame Map)
  waiting b = held b.staged ++ queued b.reply

module _ {Map : Type 0} (content : File → List ℕ) (c : ℕ) where
  -- Frames that were taken, with the bytes that were delivered of them.
  pub record IsTaken (consumed : List (Frame Map)) (d : List ℕ) : Type 0 where
    pub delivered : d ≡ stream content consumed
    pub so_far :
        run_from (streaming (some c) false 0) consumed ≡ streaming (some c) false (length d)
    pub small : length d ≤ c

  -- A body that may go on.
  pub record IsOpen (b : ReplyBody Map) (d : List ℕ) : Type 0 where
    pub fine : b.err_armed ≡ false
    pub counted : b.sent ≡ length d
    pub declared : b.declared_cl ≡ some c
    pub live : (rx : Receiver Map) × (b.reply ≡ some rx)

  -- The part of a file that was delivered behind the frames before it.
  pub record IsInFile (consumed : List (Frame Map)) (p : FilePump) (before d : List ℕ)
      : Type 0 where
    pub taken_before : IsTaken consumed before
    pub reads_on : p ≡ start_read p.handle p.offset p.len p.done
    pub unread : p.done < p.len
    pub done_part : d ≡ before ++ take p.done (drop p.offset (content p.handle))
    pub done_length : length d ≡ length before + p.done
    pub fits : length before + p.len ≤ c

  pub data IsTracking (all : List (Frame Map)) (d : List ℕ) (b : ReplyBody Map) : Type 0 where
    between :
        (consumed : List (Frame Map))
        → all ≡ consumed ++ waiting b
        → b.pump ≡ none
        → IsOpen b d
        → IsTaken consumed d
        → IsTracking all d b
    in_file :
        (consumed : List (Frame Map)) (p : FilePump) (before : List ℕ)
        → all ≡ consumed ++ (file p.handle p.offset p.len ∷ waiting b)
        → b.pump ≡ some p
        → b.staged ≡ none
        → IsOpen b d
        → IsInFile consumed p before d
        → IsTracking all d b
    failed : b.err_armed ≡ true → IsPart content c all d → IsTracking all d b
    finished :
        b.err_armed ≡ false
        → b.pump ≡ none
        → b.staged ≡ none
        → b.reply ≡ none
        → IsPart content c all d
        → length d ≡ c
        → IsTracking all d b

  pub between-IsPart :
      (all consumed rest : List (Frame Map)) (d : List ℕ)
      → all ≡ consumed ++ rest
      → IsTaken consumed d
      → IsPart content c all d
  between-IsPart all consumed rest d e t = record {
    rest = stream content rest;
    parts =
        ap (stream content) e
        ∙ stream-append content consumed rest
        ∙ ap (λ x. x ++ stream content rest) (sym t.delivered);
    bounded = t.small;
  }

  pub in_file-IsPart :
      (all consumed rest : List (Frame Map)) (p : FilePump) (before d : List ℕ)
      → all ≡ consumed ++ (file p.handle p.offset p.len ∷ rest)
      → IsInFile consumed p before d
      → IsPart content c all d
  in_file-IsPart all consumed rest p before d e i =
      let from = drop p.offset (content p.handle) in
      let left = take (p.len - p.done) (drop p.done from) in
      let halves : take p.len from ≡ take p.done from ++ left =
        ap (λ n. take n from) (let h = i.unread in omega arith)
        ∙ take_sum p.done (p.len - p.done) from in
      record {
        rest = left ++ stream content rest;
        parts =
            ap (stream content) e
            ∙ stream-append content consumed (file p.handle p.offset p.len ∷ rest)
            ∙ ap (λ x. x ++ (take p.len from ++ stream content rest)) (sym i.taken_before.delivered)
            ∙ ap (λ x. before ++ (x ++ stream content rest)) halves
            ∙ ap (λ x. before ++ x) (append_assoc (take p.done from) left (stream content rest))
            ∙ sym (append_assoc before (take p.done from) (left ++ stream content rest))
            ∙ ap (λ x. x ++ (left ++ stream content rest)) (sym i.done_part);
        bounded = (let h = i.fits in let h' = i.done_length in let h'' = i.unread in omega arith);
      }

  pub IsTracking-IsPart :
      (all : List (Frame Map)) (d : List ℕ) (b : ReplyBody Map)
      → IsTracking all d b
      → IsPart content c all d
  IsTracking-IsPart all d b (between consumed e np o t) =
      between-IsPart all consumed (waiting b) d e t
  IsTracking-IsPart all d b (in_file consumed p before e pe st o i) =
      in_file-IsPart all consumed (waiting b) p before d e i
  IsTracking-IsPart all d b (failed e part) = part
  IsTracking-IsPart all d b (finished f np ns nr part full) = part
