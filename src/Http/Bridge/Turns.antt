-- ===== src/Http/Bridge/Turns.antt =====
-- crates/plugins/http/src/bridge.rs: the turns of the loop of `poll_frame`.
use mathlib.Core.Path.{subst}
use mathlib.Core.List.{append_assoc, append-nil}
use rapira_windows.Common.{
  ℕ, zero, suc, ◌+◌, ◌≤◌, ◌<◌, ◌≡◌, refl, sym, ◌∙◌, ap, true, false, Option, none, some, List, [],
  ◌∷◌, ◌++◌, length, All, All-append_right, if_split, length-append, arith,
}
use rapira_windows.Pool.Scoreboard.{u64}
use rapira_windows.Http.Reply.{File, Frame, head, chunk, file, ending}
use rapira_windows.Http.Reply.Protocol.{streaming, after, after_file, run_from-append, grow}
use rapira_windows.Http.Exchange.Valid.{is_fair}
use rapira_windows.Http.Bridge.{
  FilePump, ReplyBody, Polled, SliceRead, slice, read_error, join_error, Reader, start_read,
  after_read, on_frame, is_short,
}
use rapira_windows.Http.Bridge.Stream.{stream, stream-append}
use rapira_windows.Http.Bridge.Polls.{
  waiting, held, queued, IsTaken, IsOpen, IsInFile, between, in_file, finished, between-IsPart,
  in_file-IsPart,
}
use rapira_windows.Http.Bridge.Delivers.{
  IsReading, IsInRange, Tracks, still, fails, slice_tracks, grow_streams,
}

pub waiting_of : {Map : Type 0} (b : ReplyBody Map) → b.staged ≡ none → waiting b ≡ queued b.reply
waiting_of b e = ap (λ s. held s ++ queued b.reply) e

not_empty_file :
    (c n len : ℕ) → is_fair (after_file (some c) false n len) ≡ true → (0 < len) × (n + len ≤ c)
not_empty_file c n zero h = absurd (cc)
not_empty_file c n (suc k) h = (omega arith, (grow_streams c (n + suc k) h).1)

module _ {Map : Type 0} (content : File → List ℕ) (c : ℕ) (small_length : c < u64) (reader : Reader)
    (reading : IsReading content reader) where
  pub read_tracks :
      (all consumed : List (Frame Map)) (p : FilePump) (before d : List ℕ) (b : ReplyBody Map)
      (r : Option SliceRead)
      → reader p.handle p.at p.want ≡ r
      → all ≡ consumed ++ (file p.handle p.offset p.len ∷ waiting b)
      → b.pump ≡ some p
      → b.staged ≡ none
      → IsOpen content c b d
      → IsInFile content c consumed p before d
      → p.offset + p.len < u64
      → Tracks content c small_length all d (after_read b p r)
  read_tracks all consumed p before d b none re e pe ns o i range =
      (still content c small_length all d b (in_file consumed p before e pe ns o i), tt)
  read_tracks all consumed p before d b (some join_error) re e pe ns o i range =
      fails content c small_length all d b
        (in_file-IsPart content c all consumed (waiting b) p before d e i)
  read_tracks all consumed p before d b (some read_error) re e pe ns o i range =
      fails content c small_length all d b
        (in_file-IsPart content c all consumed (waiting b) p before d e i)
  read_tracks all consumed p before d b (some (slice [])) re e pe ns o i range =
      fails content c small_length all d b
        (in_file-IsPart content c all consumed (waiting b) p before d e i)
  read_tracks all consumed p before d b (some (slice (x ∷ xs))) re e pe ns o i range =
      slice_tracks content c small_length all consumed p before d b x xs e ns o i range
        (reading.bounded p.handle p.at p.want (x ∷ xs) re)
        (reading.faithful p.handle p.at p.want (x ∷ xs) re)

  -- The slice of a file among these frames is in range.
  pub range_of :
      (all consumed rest : List (Frame Map)) (f offset len : ℕ)
      → all ≡ consumed ++ (file f offset len ∷ rest)
      → All IsInRange all
      → offset + len < u64
  range_of all consumed rest f offset len e ranges =
      (All-append_right IsInRange consumed (file f offset len ∷ rest)
        (subst (All IsInRange) e ranges)).0

  chunk-IsTaken :
      (consumed : List (Frame Map)) (bs d : List ℕ)
      → IsTaken content c consumed d
      → is_fair (grow (some c) false (length d + length bs)) ≡ true
      → IsTaken content c (consumed ++ (chunk bs ∷ [])) (d ++ bs)
  chunk-IsTaken consumed bs d t fair =
      let g = grow_streams c (length d + length bs) fair in
      record {
        delivered =
            ap (λ x. x ++ bs) t.delivered
            ∙ ap (λ x. stream content consumed ++ x) (sym (append-nil bs))
            ∙ sym (stream-append content consumed (chunk bs ∷ []));
        so_far =
            run_from-append (streaming (some c) false 0) consumed (chunk bs ∷ [])
            ∙ ap (λ q. after {Map = Map} q (chunk bs)) t.so_far
            ∙ g.0
            ∙ ap (streaming (some c) false) (sym (length-append d bs));
        small = (let h = length-append d bs in let h' = g.1 in omega arith);
      }

  -- A frame behind those that were taken.
  pub frame_tracks :
      (all consumed : List (Frame Map)) (d : List ℕ) (b : ReplyBody Map) (f : Frame Map)
      (again : Polled × ReplyBody Map)
      → all ≡ consumed ++ (f ∷ waiting b)
      → b.pump ≡ none
      → b.staged ≡ none
      → IsOpen content c b d
      → IsTaken content c consumed d
      → All IsInRange all
      → is_fair (after (streaming (some c) false (length d)) f) ≡ true
      → Tracks content c small_length all d (on_frame reader b f again)
  frame_tracks all consumed d b (head h cl bodiless) again e np ns o t ranges fair = absurd (cc)
  frame_tracks all consumed d b (chunk bs) again e np ns o t ranges fair =
      let g = grow_streams c (length d + length bs) fair in
      let counted = o.counted in
      let small = g.1 in
      let sum = length-append d bs in
      (
        between (consumed ++ (chunk bs ∷ []))
            (e ∙ sym (append_assoc consumed (chunk bs ∷ []) (waiting b))) np
            (record { fine = o.fine; counted = omega arith; declared = o.declared; live = o.live })
            (chunk-IsTaken consumed bs d t fair),
        tt,
      )
  frame_tracks all consumed d b (file f offset len) again e np ns o t ranges fair =
      let p = start_read f offset len 0 in
      let some_bytes = not_empty_file c (length d) len fair in
      read_tracks all consumed p d d (record b { pump = some p }) (reader p.handle p.at p.want) refl
        e refl ns
        (record { fine = o.fine; counted = o.counted; declared = o.declared; live = o.live })
        (record {
          taken_before = t;
          reads_on = refl;
          unread = some_bytes.0;
          done_part = sym (append-nil d);
          done_length = omega arith;
          fits = some_bytes.1;
        })
        (range_of all consumed (waiting b) f offset len e ranges)
  frame_tracks all consumed d b (ending true) again e np ns o t ranges fair =
      fails content c small_length all d b (between-IsPart content c all consumed _ d e t)
  frame_tracks all consumed d b (ending false) again e np ns o t ranges fair =
      let part = between-IsPart content c all consumed (ending false ∷ waiting b) d e t in
      if_split (Tracks content c small_length all d) (is_short b.declared_cl b.sent)
        (λ short. fails content c small_length all d b part)
        (λ enough.
          let full : length d ≡ c =
            full_of b.declared_cl b.sent (length d) o.declared o.counted t.small enough in
          (still content c small_length all d _ (finished o.fine np ns refl part full), full))
    where
      full_of :
          (cl : Option ℕ) (s n : ℕ) → cl ≡ some c → s ≡ n → n ≤ c → is_short cl s ≡ false → n ≡ c
      full_of cl s n d e le h = ground arith
