-- ===== src/Http/Bridge/Runs.antt =====
-- crates/plugins/http/src/bridge.rs: `poll_frame`, and any run of polls, frames and a sender that leaves.
use mathlib.Core.Path.{subst}
use rapira_windows.Common.{
  ℕ, ◌<◌, ◌≡◌, refl, sym, ◌∙◌, ap, Bool, true, false, Option, none, some, List, [], ◌∷◌, ◌++◌,
  length, All, if_split,
}
use rapira_windows.Pool.Scoreboard.{u64}
use rapira_windows.Http.Reply.{File, Frame}
use rapira_windows.Http.Reply.Protocol.{streaming, run_from}
use rapira_windows.Http.Exchange.Valid.{is_fair}
use rapira_windows.Http.Bridge.{
  ReplyBody, Polled, Reader, poll_queue, poll_receiver, poll_reply, take_staged, poll_source,
  poll_frame, without_staged, on_frame,
}
use rapira_windows.Http.Bridge.Stream.{next_fair}
use rapira_windows.Http.Bridge.Polls.{
  waiting, held, queued, IsTaken, IsOpen, IsTracking, between, in_file, failed, finished,
  between-IsPart,
}
use rapira_windows.Http.Bridge.Delivers.{IsReading, IsInRange, Tracks, still, fails}
use rapira_windows.Http.Bridge.Turns.{frame_tracks, read_tracks, range_of}

pub All-append_left {ℓ κ} :
    {A : Type ℓ} (P : A → Type κ) (xs ys : List A) → All P (xs ++ ys) → All P xs
All-append_left P [] ys h = tt
All-append_left P (x ∷ xs) ys h = (h.0, All-append_left P xs ys h.1)

module _ {Map : Type 0} (content : File → List ℕ) (c : ℕ) (small_length : c < u64) where
  -- The frames keep the protocol behind a head with this length, and their slices are in range.
  abbrev pub IsReply : List (Frame Map) → Type 0
  IsReply all = (is_fair (run_from (streaming (some c) false 0) all) ≡ true) × All IsInRange all

  module _ (reader : Reader) (reading : IsReading content reader) where
    next_frame :
        (all consumed : List (Frame Map)) (d : List ℕ) (b : ReplyBody Map) (f : Frame Map)
        (again : Polled × ReplyBody Map)
        → all ≡ consumed ++ (f ∷ waiting b)
        → b.pump ≡ none
        → b.staged ≡ none
        → IsOpen content c b d
        → IsTaken content c consumed d
        → IsReply all
        → Tracks content c small_length all d (on_frame reader b f again)
    next_frame all consumed d b f again e np ns o t reply =
        frame_tracks content c small_length reader reading all consumed d b f again e np ns o t
          reply.1
          (next_fair (streaming (some c) false 0) (streaming (some c) false (length d)) consumed f
            (waiting b) all e reply.0 t.so_far)

    queue_tracks :
        (all consumed : List (Frame Map)) (d : List ℕ) (b : ReplyBody Map) (fs : List (Frame Map))
        (s : Bool)
        → all ≡ consumed ++ fs
        → b.pump ≡ none
        → b.staged ≡ none
        → IsOpen content c b d
        → IsTaken content c consumed d
        → IsReply all
        → Tracks content c small_length all d (poll_queue reader b fs s)
    unfolding poll_queue
    queue_tracks all consumed d b [] true e np ns o t reply = (
      still content c small_length all d _ (
          between consumed (e ∙ ap (λ w. consumed ++ w) (sym (ap (λ h. held h ++ []) ns))) np
            (record { fine = o.fine; counted = o.counted; declared = o.declared; live = (_, refl) })
            t),
      tt,
    )
    queue_tracks all consumed d b [] false e np ns o t reply =
        fails content c small_length all d b (between-IsPart content c all consumed [] d e t)
    queue_tracks all consumed d b (f ∷ fs) s e np ns o t reply =
        next_frame all consumed d
          (record b { reply = some (record { queue = fs; has_sender = s }) }) f _
          (e ∙ ap (λ w. consumed ++ (f ∷ w)) (sym (ap (λ h. held h ++ fs) ns))) np ns
          (record { fine = o.fine; counted = o.counted; declared = o.declared; live = (_, refl) }) t
          reply

    staged_tracks :
        (all consumed : List (Frame Map)) (d : List ℕ) (b : ReplyBody Map) (s : Option (Frame Map))
        → b.staged ≡ s
        → all ≡ consumed ++ (held s ++ queued b.reply)
        → b.pump ≡ none
        → IsOpen content c b d
        → IsTaken content c consumed d
        → IsReply all
        → Tracks content c small_length all d (take_staged reader b s)
    unfolding take_staged poll_reply
    staged_tracks all consumed d b none ns e np o t reply =
        let live = o.live in
        subst (λ r. Tracks content c small_length all d (poll_receiver reader b r)) (sym live.1)
          (queue_tracks all consumed d b live.0.queue live.0.has_sender
            (e ∙ ap (λ r. consumed ++ queued r) live.1) np ns o t reply)
    staged_tracks all consumed d b (some f) ns e np o t reply =
        next_frame all consumed d (without_staged b) f _ e np refl
          (record { fine = o.fine; counted = o.counted; declared = o.declared; live = o.live }) t
          reply

    pub poll_frame-Tracks :
        (all : List (Frame Map)) (d : List ℕ) (b : ReplyBody Map)
        → IsTracking content c all d b
        → IsReply all
        → Tracks content c small_length all d (poll_frame reader b)
    unfolding poll_frame poll_source take_staged poll_reply
    poll_frame-Tracks all d b (between consumed e np o t) reply =
        if_split (Tracks content c small_length all d) b.err_armed
          (λ err. absurd (let h = o.fine in cc))
          (λ ok.
            subst (λ p. Tracks content c small_length all d (poll_source reader b p)) (sym np)
              (staged_tracks all consumed d b b.staged refl e np o t reply))
    poll_frame-Tracks all d b (in_file consumed p before e pe ns o i) reply =
        if_split (Tracks content c small_length all d) b.err_armed
          (λ err. absurd (let h = o.fine in cc))
          (λ ok.
            subst (λ q. Tracks content c small_length all d (poll_source reader b q)) (sym pe)
              (read_tracks content c small_length reader reading all consumed p before d b _ refl e
                pe ns o i
                (range_of content c small_length reader reading all consumed (waiting b) p.handle
                  p.offset p.len e reply.1)))
    poll_frame-Tracks all d b (failed err part) reply =
        if_split (Tracks content c small_length all d) b.err_armed
          (λ e. (still content c small_length all d b (failed err part), tt)) (λ e. absurd (cc))
    poll_frame-Tracks all d b (finished fine np ns nr part full) reply =
        if_split (Tracks content c small_length all d) b.err_armed (λ err. absurd (cc))
          (λ ok.
            subst (λ p. Tracks content c small_length all d (poll_source reader b p)) (sym np)
              (subst (λ s. Tracks content c small_length all d (take_staged reader b s)) (sym ns)
                (subst (λ r. Tracks content c small_length all d (poll_receiver reader b r))
                  (sym nr)
                  (still content c small_length all d b (finished fine np ns nr part full), full))))
