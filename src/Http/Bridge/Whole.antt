-- ===== src/Http/Bridge/Whole.antt =====
-- crates/plugins/http: a reply with a declared length from the frames to the bytes that hyper gets
-- (bridge.rs), and from PHP's calls on (php/respond.rs).
use mathlib.Core.Path.{subst}
use mathlib.Core.List.{append_assoc, append-nil}
use rapira_windows.Common.{
  ℕ, ◌≤◌, ◌<◌, ◌≡◌, refl, sym, ◌∙◌, ap, false, Option, some, List, [], ◌∷◌, ◌++◌, length, take,
  take-append_length, arith,
}
use rapira_windows.Pool.Scoreboard.{u64}
use rapira_windows.Http.Reply.{File, Frame, file}
use rapira_windows.Http.Reply.Protocol.{streaming, run_from, run_from-append}
use rapira_windows.Http.Exchange.Valid.{is_fair}
use rapira_windows.Http.Bridge.{Receiver, ReplyBody, Polled, body_end, Reader, new_body, poll_frame}
use rapira_windows.Http.Bridge.Stream.{stream, stream-append, IsPart, after_broken}
use rapira_windows.Http.Bridge.Polls.{
  waiting, held, queued, IsTracking, between, in_file, failed, finished, IsTracking-IsPart,
}
use rapira_windows.Http.Bridge.Delivers.{IsReading, IsInRange, IsEndAt, payload}
use rapira_windows.Http.Bridge.Runs.{IsReply, poll_frame-Tracks, All-append_left}

end_at : (c : ℕ) (d : List ℕ) (r : Polled) → IsEndAt c d r → r ≡ body_end → length d ≡ c
end_at c d r h e = subst (IsEndAt c d) e h

module _ {Map : Type 0} (content : File → List ℕ) (c : ℕ) where
  -- The body after some polls, with all frames that were sent to it and the bytes it gave.
  pub data Run : List (Frame Map) → List ℕ → ReplyBody Map → Type 0 where
    begins :
        (rx : Receiver Map) (staged : Option (Frame Map))
        → Run (held staged ++ rx.queue) [] (new_body rx (some c) staged)
    arrives :
        {all : List (Frame Map)} {d : List ℕ} {b : ReplyBody Map} (rx : Receiver Map)
        (f : Frame Map)
        → Run all d b
        → b.reply ≡ some rx
        → Run
            (all ++ (f ∷ []))
            d
            (record b { reply = some (record rx { queue = rx.queue ++ (f ∷ []) }) })
    leaves :
        {all : List (Frame Map)} {d : List ℕ} {b : ReplyBody Map} (rx : Receiver Map)
        → Run all d b
        → b.reply ≡ some rx
        → Run all d (record b { reply = some (record rx { has_sender = false }) })
    polls :
        {all : List (Frame Map)} {d : List ℕ} {b : ReplyBody Map} (reader : Reader)
        → IsReading content reader
        → Run all d b
        → Run all (d ++ payload (poll_frame reader b).0) (poll_frame reader b).1

  append-IsPart :
      (all : List (Frame Map)) (f : Frame Map) (d : List ℕ)
      → IsPart content c all d
      → IsPart content c (all ++ (f ∷ [])) d
  append-IsPart all f d part = record {
    rest = part.rest ++ stream content (f ∷ []);
    parts =
        stream-append content all (f ∷ [])
        ∙ ap (λ x. x ++ stream content (f ∷ [])) part.parts
        ∙ append_assoc d part.rest (stream content (f ∷ []));
    bounded = part.bounded;
  }

  -- With the same frames waiting, or one more.
  refilled :
      (all all' : List (Frame Map)) (d : List ℕ) (b : ReplyBody Map) (rx rx' : Receiver Map)
      (more : List (Frame Map))
      → all' ≡ all ++ more
      → rx'.queue ≡ rx.queue ++ more
      → b.reply ≡ some rx
      → (IsPart content c all d → IsPart content c all' d)
      → IsTracking content c all d b
      → IsTracking content c all' d (record b { reply = some rx' })
  refilled all all' d b rx rx' more ea eq er part (between consumed e np o t) =
      between consumed
        (ea
          ∙ ap (λ x. x ++ more) e
          ∙ append_assoc consumed (waiting b) more
          ∙ ap (λ x. consumed ++ x) (waits b rx rx' more eq er))
        np
        (record { fine = o.fine; counted = o.counted; declared = o.declared; live = (rx', refl) }) t
    where
      waits :
          (b : ReplyBody Map) (rx rx' : Receiver Map) (more : List (Frame Map))
          → rx'.queue ≡ rx.queue ++ more
          → b.reply ≡ some rx
          → waiting b ++ more ≡ held b.staged ++ rx'.queue
      waits b rx rx' more eq er =
          ap (λ r. (held b.staged ++ queued r) ++ more) er
          ∙ append_assoc (held b.staged) rx.queue more
          ∙ ap (λ x. held b.staged ++ x) (sym eq)
  refilled all all' d b rx rx' more ea eq er part (in_file consumed p before e pe ns o i) =
      in_file consumed p before
        (ea
          ∙ ap (λ x. x ++ more) e
          ∙ append_assoc consumed (file p.handle p.offset p.len ∷ waiting b) more
          ∙ ap (λ x. consumed ++ (file p.handle p.offset p.len ∷ x))
              (ap (λ r. (held b.staged ++ queued r) ++ more) er
                ∙ append_assoc (held b.staged) rx.queue more
                ∙ ap (λ x. held b.staged ++ x) (sym eq)))
        pe ns
        (record { fine = o.fine; counted = o.counted; declared = o.declared; live = (rx', refl) }) i
  refilled all all' d b rx rx' more ea eq er part (failed err p) = failed err (part p)
  refilled all all' d b rx rx' more ea eq er part (finished fine np ns nr p full) =
      absurd (let h = er in let h' = nr in cc)

  module _ (small_length : c < u64) where
    earlier :
        (all : List (Frame Map)) (f : Frame Map)
        → IsReply content c small_length (all ++ (f ∷ []))
        → IsReply content c small_length all
    earlier all f reply = (
      after_broken (run_from (streaming (some c) false 0) all) (f ∷ [])
          (ap is_fair (sym (run_from-append (streaming (some c) false 0) all (f ∷ []))) ∙ reply.0),
      All-append_left IsInRange all (f ∷ []) reply.1,
    )

    Run-IsTracking :
        {all : List (Frame Map)} {d : List ℕ} {b : ReplyBody Map}
        → Run all d b
        → IsReply content c small_length all
        → IsTracking content c all d b
    unfolding new_body
    Run-IsTracking (begins rx staged) reply =
        between [] refl refl
          (record { fine = refl; counted = refl; declared = refl; live = (rx, refl) })
          (record { delivered = refl; so_far = refl; small = omega arith })
    Run-IsTracking (arrives {all} {d} {b} rx f r er) reply =
        refilled all _ d b rx _ (f ∷ []) refl refl er (append-IsPart all f d)
          (Run-IsTracking r (earlier all f reply))
    Run-IsTracking (leaves {all} {d} {b} rx r er) reply =
        refilled all all d b rx _ [] (sym (append-nil all)) (sym (append-nil rx.queue)) er (λ p. p)
          (Run-IsTracking r reply)
    Run-IsTracking (polls {all} {d} {b} reader reading r) reply =
        (poll_frame-Tracks content c small_length reader reading all d b (Run-IsTracking r reply)
          reply).0

    first_part :
        (all : List (Frame Map)) (d : List ℕ)
        → IsPart content c all d
        → d ≡ take (length d) (stream content all)
    first_part all d part = sym (ap (take (length d)) part.parts ∙ take-append_length d part.rest)

    -- Over any polls and arrivals of frames that keep the protocol behind a head with a 64-bit
    -- length, with file slices in range, and with reads that are never more than wanted and are
    -- of the file's bytes, the body gives a first part of the bytes that the frames stand for, in
    -- order and no more than the length; and a poll ends it only when it has given the whole
    -- length.
    pub Run-delivers :
        {all : List (Frame Map)} {d : List ℕ} {b : ReplyBody Map} (reader : Reader)
        → IsReading content reader
        → IsReply content c small_length all
        → Run all d b
        → (d ≡ take (length d) (stream content all))
          × (length d ≤ c)
          × ((poll_frame reader b).0 ≡ body_end → length d ≡ c)
    Run-delivers {all} {d} {b} reader reading reply r =
        let tracking = Run-IsTracking r reply in
        let part = IsTracking-IsPart content c all d b tracking in
        (
          first_part all d part,
          part.bounded,
          end_at c d _
              (poll_frame-Tracks content c small_length reader reading all d b tracking reply).1,
        )
