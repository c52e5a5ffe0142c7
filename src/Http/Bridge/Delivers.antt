-- ===== src/Http/Bridge/Delivers.antt =====
-- crates/plugins/http/src/bridge.rs: what one poll of the body delivers.
use mathlib.Core.Path.{subst}
use mathlib.Core.List.{append_assoc, append-nil}
use Prim.Native.Nat.{min}
use rapira_windows.Common.{
  ℕ, zero, suc, ◌+◌, ◌-◌, ◌%◌, ◌≤◌, ◌<◌, ◌≡◌, refl, sym, ◌∙◌, ap, true, false, Option, none, some,
  List, [], ◌∷◌, ◌++◌, length, take, drop, ltb, if_split, length-append, ltb→lt, arith,
}
use rapira_windows.Pool.Scoreboard.{u64}
use rapira_windows.Http.Reply.{File, Frame, head, chunk, file, ending}
use rapira_windows.Http.Reply.Protocol.{streaming, after, after_file, run_from-append, grow}
use rapira_windows.Http.Exchange.Valid.{is_fair}
use rapira_windows.Http.Bridge.{
  FilePump, ReplyBody, Polled, pending, data_frame, body_end, truncated, slice, Reader, slice_size,
  start_read, next_pump, terminal_error, after_slice,
}
use rapira_windows.Http.Bridge.Stream.{stream, stream-append, IsPart, take_sum, drop_sum}
use rapira_windows.Http.Bridge.Polls.{
  waiting, IsTaken, IsOpen, IsInFile, IsTracking, between, in_file, failed,
}

-- The bytes of a poll.
abbrev pub payload : Polled → List ℕ
payload pending = []
payload (data_frame bs) = bs
payload body_end = []
payload truncated = []

-- A read of a file with these contents.
pub record IsReading (content : File → List ℕ) (reader : Reader) : Type 0 where
  pub bounded :
      (f at want : ℕ) (bs : List ℕ) → reader f at want ≡ some (slice bs) → length bs ≤ want
  pub faithful :
      (f at want : ℕ) (bs : List ℕ)
      → reader f at want ≡ some (slice bs)
      → bs ≡ take (length bs) (drop at (content f))

-- The last byte of a slice has a 64-bit position.
abbrev pub IsInRange : {Map : Type 0} → Frame Map → Type 0
IsInRange (file f offset len) = offset + len < u64
IsInRange (head h cl b) = Unit
IsInRange (chunk bs) = Unit
IsInRange (ending t) = Unit

pub grow_streams :
    (c n : ℕ)
    → is_fair (grow (some c) false n) ≡ true
    → (grow (some c) false n ≡ streaming (some c) false n) × (n ≤ c)
grow_streams c n h = ground arith

after_file_streams :
    (c n k : ℕ)
    → 0 < k
    → n + k ≤ c
    → after_file (some c) false n k ≡ streaming (some c) false (n + k)
after_file_streams c n zero some_bytes le = absurd (omega arith)
after_file_streams c n (suc k) some_bytes le = ground arith

sum_small : (c s n k : ℕ) → s ≡ n → n + k ≤ c → c < u64 → (s + k) % u64 ≡ n + k
sum_small c s n k e le lt = omega arith

abbrev pub IsEndAt : ℕ → List ℕ → Polled → Type 0
IsEndAt c d pending = Unit
IsEndAt c d (data_frame bs) = Unit
IsEndAt c d body_end = length d ≡ c
IsEndAt c d truncated = Unit

module _ {Map : Type 0} (content : File → List ℕ) (c : ℕ) (small_length : c < u64) where
  -- After a poll the body tracks what it has delivered, and it ends only with all of it.
  abbrev pub Tracks : List (Frame Map) → List ℕ → Polled × ReplyBody Map → Type 0
  Tracks all d x = IsTracking content c all (d ++ payload x.0) x.1 × IsEndAt c d x.0

  pub still :
      (all : List (Frame Map)) (d : List ℕ) (b : ReplyBody Map)
      → IsTracking content c all d b
      → IsTracking content c all (d ++ []) b
  still all d b t = subst (λ x. IsTracking content c all x b) (sym (append-nil d)) t

  pub fails :
      (all : List (Frame Map)) (d : List ℕ) (b : ReplyBody Map)
      → IsPart content c all d
      → Tracks all d (terminal_error b)
  fails all d b part = (still all d _ (failed refl part), tt)

  whole_file :
      (consumed : List (Frame Map)) (p : FilePump) (before d : List ℕ)
      → IsInFile content c consumed p before d
      → (bs : List ℕ) → d ++ bs ≡ before ++ take p.len (drop p.offset (content p.handle))
      → length (d ++ bs) ≡ length before + p.len
      → IsTaken content c (consumed ++ (file p.handle p.offset p.len ∷ [])) (d ++ bs)
  whole_file consumed p before d i bs part len = record {
    delivered =
        part
        ∙ ap (λ x. x ++ take p.len (drop p.offset (content p.handle))) i.taken_before.delivered
        ∙ ap (λ x. stream content consumed ++ x)
            (sym (append-nil (take p.len (drop p.offset (content p.handle)))))
        ∙ sym (stream-append content consumed (file p.handle p.offset p.len ∷ []));
    so_far =
        run_from-append (streaming (some c) false 0) consumed (file p.handle p.offset p.len ∷ [])
        ∙ ap (λ q. after {Map = Map} q (file p.handle p.offset p.len)) i.taken_before.so_far
        ∙ after_file_streams c (length before) p.len (let h = i.unread in omega arith) i.fits
        ∙ ap (streaming (some c) false) (sym len);
    small = (let h = i.fits in omega arith);
  }

  -- Where a slice leaves the file: at its end, or with a read from there on.
  next_tracks :
      (all consumed : List (Frame Map)) (p : FilePump) (before d bs : List ℕ) (b : ReplyBody Map)
      (sent m : ℕ)
      → all ≡ consumed ++ (file p.handle p.offset p.len ∷ waiting b)
      → b.staged ≡ none
      → IsOpen content c b d
      → IsInFile content c consumed p before d
      → m ≤ p.len
      → d ++ bs ≡ before ++ take m (drop p.offset (content p.handle))
      → length (d ++ bs) ≡ length before + m
      → sent ≡ length (d ++ bs)
      → IsTracking content c all (d ++ bs) (record b { sent = sent; pump = next_pump p m })
  next_tracks all consumed p before d bs b sent m e ns o i le part len sent_is =
      let still_open : (q : Option FilePump)
          → IsOpen content c (record b { sent = sent; pump = q }) (d ++ bs) =
        λ q. record { fine = o.fine; counted = sent_is; declared = o.declared; live = o.live } in
      if_split (λ q. IsTracking content c all (d ++ bs) (record b { sent = sent; pump = q }))
        (ltb m p.len)
        (λ more.
          in_file consumed (start_read p.handle p.offset p.len m) before e refl ns (still_open _)
            (record {
              taken_before = i.taken_before;
              reads_on = refl;
              unread = ltb→lt _ _ more;
              done_part = part;
              done_length = len;
              fits = i.fits;
            }))
        (λ no_more.
          let all_of : m ≡ p.len = ground arith in
          between (consumed ++ (file p.handle p.offset p.len ∷ []))
            (e ∙ sym (append_assoc consumed (file p.handle p.offset p.len ∷ []) (waiting b))) refl
            (still_open none)
            (whole_file consumed p before d i bs
              (part ∙ ap (λ x. before ++ take x (drop p.offset (content p.handle))) all_of)
              (len ∙ ap (λ x. length before + x) all_of)))

  -- A slice of the file that is under way.
  pub slice_tracks :
      (all consumed : List (Frame Map)) (p : FilePump) (before d : List ℕ) (b : ReplyBody Map)
      (x : ℕ) (xs : List ℕ)
      → all ≡ consumed ++ (file p.handle p.offset p.len ∷ waiting b)
      → b.staged ≡ none
      → IsOpen content c b d
      → IsInFile content c consumed p before d
      → p.offset + p.len < u64
      → length (x ∷ xs) ≤ p.want
      → x ∷ xs ≡ take (length (x ∷ xs)) (drop p.at (content p.handle))
      → Tracks all d (after_slice b p (x ∷ xs))
  slice_tracks all consumed p before d b x xs e ns o i range bounded faithful =
      let bs = x ∷ xs in
      let k = length bs in
      let from = drop p.offset (content p.handle) in
      let unread = i.unread in
      let want_is : p.want ≡ min slice_size (p.len - p.done) =
        ap (λ (q : FilePump). q.want) i.reads_on in
      let k_small : k ≤ p.len - p.done = omega arith in
      let at_sum : p.at ≡ (p.offset + p.done) % u64 = ap (λ (q : FilePump). q.at) i.reads_on in
      let at_is : p.at ≡ p.offset + p.done = omega arith in
      let slice_is : bs ≡ take k (drop p.done from) =
        faithful
        ∙ ap (take k) (
            ap (λ n. drop n (content p.handle)) at_is
            ∙ drop_sum p.offset p.done (content p.handle)) in
      let part : d ++ bs ≡ before ++ take (p.done + k) from =
        ap (λ y. y ++ bs) i.done_part
        ∙ append_assoc before (take p.done from) bs
        ∙ ap (λ y. before ++ (take p.done from ++ y)) slice_is
        ∙ ap (λ y. before ++ y) (sym (take_sum p.done k from)) in
      let done_length = i.done_length in
      let fits = i.fits in
      let counted = o.counted in
      let len_sum : length (d ++ bs) ≡ length d + k = length-append d bs in
      let done_is : (p.done + k) % u64 ≡ p.done + k = omega arith in
      (
        next_tracks all consumed p before d bs b ((b.sent + k) % u64) ((p.done + k) % u64) e ns o i
            (omega arith) (part ∙ ap (λ n. before ++ take n from) (sym done_is)) (omega arith)
            (omega arith),
        tt,
      )
