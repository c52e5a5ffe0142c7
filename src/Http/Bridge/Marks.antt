-- ===== src/Http/Bridge/Marks.antt =====
-- crates/plugins/http/src: when a response is marked as delivered, and that a delivered one is not cancelled.
use mathlib.Core.Path.{subst}
use rapira_windows.Common.{
  ℕ, zero, suc, ◌+◌, ◌-◌, ◌≤◌, ◌<◌, ◌≡◌, refl, sym, ◌∙◌, ap, inl, inr, Bool, true, false,
  Bool-cases, Option, none, some, List, [], ◌∷◌, ◌++◌, ◌&&◌, length, ◌==◌, ==_iff, In, if_split,
  if◌then◌else◌, arith,
}
use rapira_windows.Http.Reply.{Frame, head, chunk, file, ending}
use rapira_windows.Http.Bridge.{
  Receiver, ReplyBody, Polled, pending, data_frame, body_end, truncated,
}
use rapira_windows.Http.Bridge.Delivers.{payload}
use rapira_windows.Http.Bridge.Delivery.{
  Delivery, get_or_init, arm, note_left, note_bytes, note, Seen, frame, sender_gone, closes,
  completed, cancelled, is_flushed, drained_on_drop, is_all_sent, has_mark, drain, drain_task,
  after_first_frame, spawn_drain,
}

-- The bytes of these polls; a poll stands behind the count of the flushes at its time.
abbrev pub given : List (ℕ × Polled) → ℕ
given [] = 0
given ((flushes, r) ∷ ps) = length (payload r) + given ps

unfoldable pub after_polls : Delivery → List (ℕ × Polled) → Delivery
unfolding note
after_polls d [] = d
after_polls d ((flushes, r) ∷ ps) = after_polls (note d flushes r) ps

-- The mark of a response of `n` bytes, after `k` bytes and these polls.
pub data Marked (n k : ℕ) (ps : List (ℕ × Polled)) : Option ℕ → Type 0 where
  unfinished : k + given ps < n → Marked n k ps none
  -- The poll that gave the last byte.
  delivered :
      (before after : List (ℕ × Polled)) (flushes : ℕ) (r : Polled)
      → ps ≡ before ++ ((flushes, r) ∷ after)
      → k + given before < n
      → n ≤ k + given before + length (payload r)
      → Marked n k ps (some flushes)

one_more :
    (n k : ℕ) (flushes : ℕ) (r : Polled) (ps : List (ℕ × Polled)) (mark : Option ℕ)
    → Marked n (k + length (payload r)) ps mark
    → Marked n k ((flushes, r) ∷ ps) mark
one_more n k flushes r ps mark (unfinished few) = unfinished (omega arith)
one_more n k flushes r ps mark (delivered before after f r' e few enough) =
    delivered ((flushes, r) ∷ before) after f r' (ap (◌∷◌ (flushes, r)) e) (omega arith)
      (omega arith)

-- A mark stays.
marked_stays :
    (ps : List (ℕ × Polled)) (d : Delivery) (f : ℕ)
    → d.end_flush ≡ some f
    → (after_polls d ps).end_flush ≡ some f
unfolding after_polls note
marked_stays [] d f e = e
marked_stays ((flushes, data_frame bs) ∷ ps) d f e = marked_stays ps _ f (noted d.remaining)
  where
    noted : (o : Option ℕ) → (note_bytes d o (length bs) flushes).end_flush ≡ some f
    noted none = e
    noted (some left) =
        if_split (λ m. m ≡ some f) (left - length bs == 0)
          (λ last. ap (λ m. get_or_init m flushes) e) (λ more. e)
marked_stays ((flushes, pending) ∷ ps) d f e = marked_stays ps d f e
marked_stays ((flushes, body_end) ∷ ps) d f e = marked_stays ps d f e
marked_stays ((flushes, truncated) ∷ ps) d f e = marked_stays ps d f e

-- A poll without bytes.
nothing_more :
    (n k : ℕ) (flushes : ℕ) (r : Polled) (ps : List (ℕ × Polled)) (mark : Option ℕ)
    → length (payload r) ≡ 0
    → Marked n k ps mark
    → Marked n k ((flushes, r) ∷ ps) mark
nothing_more n k flushes r ps mark none_here m =
    let same : k ≡ k + length (payload r) = omega arith in
    one_more n k flushes r ps mark (subst (λ x. Marked n x ps mark) same m)

-- A response with `left` bytes still to give.
after_polls-Marked :
    (ps : List (ℕ × Polled)) (n k left : ℕ)
    → k + left ≡ n
    → 0 < left
    → Marked n k ps (after_polls (record { remaining = some left; end_flush = none }) ps).end_flush
unfolding after_polls note
after_polls-Marked [] n k left total some_left = unfinished (omega arith)
after_polls-Marked ((flushes, data_frame bs) ∷ ps) n k left total some_left =
    elim (Bool-cases (left - length bs == 0)) [
      | inl last ↦
          let zero_left = (==_iff (left - length bs) 0).0 last in
          let marked =
            marked_stays ps
              (note_left (record { remaining = some left; end_flush = none }) (left - length bs)
                flushes)
              flushes (ap (λ t. if t then some flushes else none) last) in
          subst (Marked n k ((flushes, data_frame bs) ∷ ps)) (sym marked)
            (delivered [] ps flushes (data_frame bs) refl (omega arith) (omega arith))
      | inr more ↦
          let not_zero : 0 < left - length bs = ground (arith, more) in
          let rest =
            after_polls-Marked ps n (k + length bs) (left - length bs) (omega arith) not_zero in
          one_more n k flushes (data_frame bs) ps _ (
            subst
              (λ m.
                Marked n (k + length bs) ps
                  (after_polls (record { remaining = some (left - length bs); end_flush = m })
                    ps).end_flush)
              (ap (λ t. if t then some flushes else none) (sym more)) rest)
    ]
after_polls-Marked ((flushes, pending) ∷ ps) n k left total some_left =
    nothing_more n k flushes pending ps _ refl (after_polls-Marked ps n k left total some_left)
after_polls-Marked ((flushes, body_end) ∷ ps) n k left total some_left =
    nothing_more n k flushes body_end ps _ refl (after_polls-Marked ps n k left total some_left)
after_polls-Marked ((flushes, truncated) ∷ ps) n k left total some_left =
    nothing_more n k flushes truncated ps _ refl (after_polls-Marked ps n k left total some_left)

-- After the response of `n` bytes is armed, and these polls.
unfoldable pub polled_response : ℕ → ℕ → List (ℕ × Polled) → Delivery
unfolding arm after_polls
polled_response n flushes ps =
    after_polls (arm (record { remaining = none; end_flush = none }) (some n) flushes) ps

never :
    {A : Type 0} (o : Option A) (t : Bool) {x : A} → ¬ ((if t && false then o else none) ≡ some x)
never o true e = absurd (cc)
never o false e = absurd (cc)

module _ {Map : Type 0} where
  -- A close with no flush past the mark.
  abbrev pub ClosedBy : ℕ → List (Seen Map) → Type 0
  ClosedBy f seen = (m : ℕ) × In (closes m) seen × m ≤ f

  drain-stays : (seen : List (Seen Map)) → ¬ (drain seen ≡ cancelled)
  unfolding drain
  drain-stays [] e = absurd (cc)
  drain-stays (frame (ending t) ∷ rest) e = absurd (cc)
  drain-stays (frame (head h cl b) ∷ rest) e = drain-stays rest e
  drain-stays (frame (chunk bs) ∷ rest) e = drain-stays rest e
  drain-stays (frame (file x offset len) ∷ rest) e = drain-stays rest e
  drain-stays (sender_gone ∷ rest) e = absurd (cc)
  drain-stays (closes n ∷ rest) e = drain-stays rest e

  later_early :
      (f : ℕ) (x : Seen Map) (seen : List (Seen Map)) → ClosedBy f seen → ClosedBy f (x ∷ seen)
  later_early f x seen (m, there, early) = (m, inr there, early)

  drain_task-ClosedBy :
      (f : ℕ) (seen : List (Seen Map)) → drain_task (some f) seen ≡ cancelled → ClosedBy f seen
  unfolding drain_task
  drain_task-ClosedBy f [] e = absurd (cc)
  drain_task-ClosedBy f (frame (ending t) ∷ rest) e = absurd (cc)
  drain_task-ClosedBy f (frame (head h cl b) ∷ rest) e =
      later_early f _ rest (drain_task-ClosedBy f rest e)
  drain_task-ClosedBy f (frame (chunk bs) ∷ rest) e =
      later_early f _ rest (drain_task-ClosedBy f rest e)
  drain_task-ClosedBy f (frame (file x offset len) ∷ rest) e =
      later_early f _ rest (drain_task-ClosedBy f rest e)
  drain_task-ClosedBy f (sender_gone ∷ rest) e = absurd (cc)
  drain_task-ClosedBy f (closes n ∷ rest) e = elim (Bool-cases (is_flushed (some f) n)) [
    | inl flushed ↦
        absurd (drain-stays rest (sym (ap (λ t. if t then drain rest else cancelled) flushed) ∙ e))
    | inr early ↦ (n, inl refl, ground (arith, early))
  ]

  spawn_drain-ClosedBy :
      (f : ℕ) (rx : Receiver Map) (seen : List (Seen Map))
      → spawn_drain (some f) rx seen ≡ cancelled
      → ClosedBy f seen
  unfolding spawn_drain drain_task
  spawn_drain-ClosedBy f rx seen e = from_queue rx.queue rx.has_sender e
    where
      from_queue :
          (q : List (Frame Map)) (has_sender : Bool)
          → (elim q [
            | [] ↦ if has_sender then drain_task (some f) seen else completed
            | fr ∷ fs ↦ after_first_frame (some f) fr seen
          ])
            ≡ cancelled
          → ClosedBy f seen
      from_queue [] true e' = drain_task-ClosedBy f seen e'
      from_queue [] false e' = absurd (cc)
      from_queue (ending t ∷ fs) s e' = absurd (cc)
      from_queue (head h cl b ∷ fs) s e' = drain_task-ClosedBy f seen e'
      from_queue (chunk bs ∷ fs) s e' = drain_task-ClosedBy f seen e'
      from_queue (file x offset len ∷ fs) s e' = drain_task-ClosedBy f seen e'

  -- The body of a response of n bytes that is dropped to be drained has its mark from the poll that
  -- gave the n-th byte, the flushes counted then, and PHP sees its reply cancelled only if the
  -- connection closes with no flush counted behind that mark.
  pub spawn_drain-Delivered :
      (n flushes : ℕ) (ps : List (ℕ × Polled)) (b : ReplyBody Map) (rx : Receiver Map)
      (seen : List (Seen Map))
      → 0 < n
      → drained_on_drop b (polled_response n flushes ps) ≡ some rx
      → (f : ℕ) × Marked n 0 ps (some f)
        × ((spawn_drain (some f) rx seen ≡ cancelled) → ClosedBy f seen)
  unfolding arm drained_on_drop polled_response after_polls
  spawn_drain-Delivered zero flushes ps b rx seen some_bytes e = absurd (omega arith)
  spawn_drain-Delivered (suc n) flushes ps b rx seen some_bytes e =
      with_mark (polled_response (suc n) flushes ps).end_flush refl
    where
      with_mark :
          (mark : Option ℕ)
          → (polled_response (suc n) flushes ps).end_flush ≡ mark
          → (f : ℕ) × Marked (suc n) 0 ps (some f)
            × ((spawn_drain (some f) rx seen ≡ cancelled) → ClosedBy f seen)
      with_mark (some f) same = (
        f,
        subst (Marked (suc n) 0 ps) same
            (after_polls-Marked ps (suc n) 0 (suc n) (omega arith) some_bytes),
        spawn_drain-ClosedBy f rx seen,
      )
      with_mark none same =
          let no_mark =
            ap (λ m. if is_all_sent b.declared_cl b.sent && has_mark m then b.reply else none)
              same in
          absurd (never b.reply (is_all_sent b.declared_cl b.sent) (sym no_mark ∙ e))
