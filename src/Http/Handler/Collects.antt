-- ===== src/Http/Handler/Collects.antt =====
-- crates/plugins/http/src/handler.rs: how the body of a request is read.
use mathlib.Core.Path.{subst}
use mathlib.Core.List.{append_assoc, append-nil}
use Prim.Native.Nat.{min}
use rapira_windows.Common.{
  ℕ, ◌+◌, ◌≤◌, ◌<◌, ◌≡◌, refl, sym, ◌∙◌, ap, true, false, List, [], ◌∷◌, ◌++◌, length, ltb, ltb→lt,
  if_split, length-append, arith,
}
use rapira_windows.Pool.Semaphore.{Semaphore}
use rapira_windows.Pool.Intake.{Intake, Refused, over_budget, stopped, grow_body, body_budget}
use rapira_windows.Pool.Intake as Pool_intake
use rapira_windows.Pool.Intake.Laws.{
  Grown, large_enough, grown, grow_stopped, grow_refused, grow_body-Grown,
}
use rapira_windows.Http.Handler.{
  BodyEvent, data_frame, other_frame, failed, stalled, Collected, whole, refused, after_grow,
  collect,
}

-- A frame with what other tasks do until then.
abbrev pub Event : Type 0 → Type 0
Event S = BodyEvent × (S → S)

-- The permit covers as much of so many bytes as the budget can.
abbrev pub IsCovering : ℕ → ℕ → Type 0
IsCovering held n = (min n body_budget ≤ held) × (held ≤ body_budget)

none_before : (before : List ℕ) → length (before ++ []) ≡ length before
none_before before = ap length (append-nil before)

module _ {S : Type 0} where
  abbrev pub bytes_of : Event S → List ℕ
  bytes_of (data_frame bs, moves) = bs
  bytes_of (other_frame, moves) = []
  bytes_of (failed, moves) = []
  bytes_of (stalled, moves) = []

  abbrev pub data_of : List (Event S) → List ℕ
  data_of [] = []
  data_of (e ∷ es) = bytes_of e ++ data_of es

module _ {sem : Semaphore} {W : Type 0} where
  -- These frames are read after `n` bytes, from this permit and intake to those.
  pub data Reads (max : ℕ)
      : ℕ → ℕ → Intake sem W → List (Event (Intake sem W)) → ℕ → Intake sem W → Type 0 where
    at_end : {n held : ℕ} {s : Intake sem W} → Reads max n held s [] held s
    skips :
        {n held h : ℕ} {s t : Intake sem W} {es : List (Event (Intake sem W))}
        (moves : Intake sem W → Intake sem W)
        → Reads max n held (moves s) es h t
        → Reads max n held s ((other_frame, moves) ∷ es) h t
    takes :
        {n held more h : ℕ} {s u t : Intake sem W} {es : List (Event (Intake sem W))} (bs : List ℕ)
        (moves : Intake sem W → Intake sem W)
        → n + length bs ≤ max
        → Grown (moves s) held (min (n + length bs) body_budget) (Pool_intake.ok tt, more, u)
        → Reads max (n + length bs) more u es h t
        → Reads max n held s ((data_frame bs, moves) ∷ es) h t

  -- Why a frame of the body ends the reading, when `n` bytes were read before it and it finds this
  -- permit and this intake. An intake that is closed is a shutdown.
  pub data Cause (max n held : ℕ) (s : Intake sem W) : BodyEvent → ℕ → Type 0 where
    timed_out : Cause max n held s stalled 408
    read_failed : Cause max n held s failed 400
    too_long : (bs : List ℕ) → max < n + length bs → Cause max n held s (data_frame bs) 413
    shut_down :
        (bs : List ℕ)
        → n + length bs ≤ max
        → sem.is_closed s.budget ≡ true
        → held < min (n + length bs) body_budget
        → Cause max n held s (data_frame bs) 500
    no_budget :
        (bs : List ℕ)
        → n + length bs ≤ max
        → sem.is_closed s.budget ≡ false
        → sem.available s.budget + held < min (n + length bs) body_budget
        → Cause max n held s (data_frame bs) 503

  pub data Outcome (max : ℕ) (before : List ℕ) (held : ℕ) (s : Intake sem W)
      (events : List (Event (Intake sem W))) : Collected → Type 0 where
    accepted :
        (h : ℕ) (t : Intake sem W)
        → Reads max (length before) held s events h t
        → length (before ++ data_of events) ≤ max
        → IsCovering h (length (before ++ data_of events))
        → Outcome max before held s events (whole (before ++ data_of events) h)
    rejected :
        (done : List (Event (Intake sem W))) (e : Event (Intake sem W))
        (rest : List (Event (Intake sem W))) (status h : ℕ) (t : Intake sem W)
        → events ≡ done ++ (e ∷ rest)
        → Reads max (length before) held s done h t
        → length (before ++ data_of done) ≤ max
        → Cause max (length (before ++ data_of done)) h (e.1 t) e.0 status
        → Outcome max before held s events (refused status)

  -- The first frame ends the reading.
  at_first :
      (max : ℕ) (before : List ℕ) (held : ℕ) (s : Intake sem W) (e : Event (Intake sem W))
      (rest : List (Event (Intake sem W))) (status : ℕ)
      → length before ≤ max
      → Cause max (length before) held (e.1 s) e.0 status
      → Outcome max before held s (e ∷ rest) (refused status)
  at_first max before held s e rest status small cause =
      rejected [] e rest status held s refl at_end (let h = none_before before in omega arith)
        (subst (λ n. Cause max n held (e.1 s) e.0 status) (sym (none_before before)) cause)

  -- A frame that is read, in front of the others.
  after_first :
      (max : ℕ) (before bs : List ℕ) (held more : ℕ) (s u : Intake sem W) (e : Event (Intake sem W))
      (rest : List (Event (Intake sem W))) (r : Collected)
      → bytes_of e ≡ bs
      → ((es : List (Event (Intake sem W))) (h : ℕ) (t : Intake sem W)
          → Reads max (length (before ++ bs)) more u es h t
          → Reads max (length before) held s (e ∷ es) h t)
      → Outcome max (before ++ bs) more u rest r
      → Outcome max before held s (e ∷ rest) r
  after_first max before bs held more s u e rest r b reads (accepted h t ok small covers) =
      let same : (before ++ bs) ++ data_of rest ≡ before ++ (bytes_of e ++ data_of rest) =
        append_assoc before bs (data_of rest) ∙ ap (λ x. before ++ (x ++ data_of rest)) (sym b) in
      subst (λ x. Outcome max before held s (e ∷ rest) (whole x h)) (sym same)
        (accepted h t (reads _ _ _ ok) (subst (λ x. length x ≤ max) same small)
          (subst (λ x. IsCovering h (length x)) same covers))
  after_first max before bs held more s u e rest r b reads
        (rejected done e' rest' status h t split ok small cause) =
      let same : (before ++ bs) ++ data_of done ≡ before ++ (bytes_of e ++ data_of done) =
        append_assoc before bs (data_of done) ∙ ap (λ x. before ++ (x ++ data_of done)) (sym b) in
      rejected (e ∷ done) e' rest' status h t (ap (◌∷◌ e) split) (reads _ _ _ ok)
        (subst (λ x. length x ≤ max) same small)
        (subst (λ x. Cause max (length x) h (e'.1 t) e'.0 status) same cause)

  taken_first :
      (max : ℕ) (before bs : List ℕ) (moves : Intake sem W → Intake sem W) (held more : ℕ)
      (s u : Intake sem W) (rest : List (Event (Intake sem W))) (r : Collected)
      → length before + length bs ≤ max
      → Grown
          (moves s)
          held
          (min (length before + length bs) body_budget)
          (Pool_intake.ok tt, more, u)
      → Outcome max (before ++ bs) more u rest r
      → Outcome max before held s ((data_frame bs, moves) ∷ rest) r
  taken_first max before bs moves held more s u rest r fits g =
      after_first max before bs held more s u _ rest r refl (λ es h t rs.
        takes bs moves fits g (subst (λ n. Reads max n more u es h t) (length-append before bs) rs))

  grow_then :
      (max : ℕ) (before bs : List ℕ) (moves : Intake sem W → Intake sem W)
      (rest : List (Event (Intake sem W))) (held : ℕ) (s : Intake sem W)
      (r : Pool_intake.Result (Unit {0}) × ℕ × Intake sem W)
      (again : ℕ → Intake sem W → Collected × Intake sem W)
      → length before ≤ max
      → length before + length bs ≤ max
      → held ≤ body_budget
      → Grown (moves s) held (min (length before + length bs) body_budget) r
      → ((h : ℕ) (t : Intake sem W)
          → IsCovering h (length (before ++ bs))
          → Outcome max (before ++ bs) h t rest (again h t).0)
      → Outcome max before held s ((data_frame bs, moves) ∷ rest) (after_grow again r).0
  grow_then max before bs moves rest held s r again small fits le (large_enough enough) next =
      let sum = length-append before bs in
      taken_first max before bs moves held held s (moves s) rest _ fits (large_enough enough)
        (next held (moves s) (omega arith, le))
  grow_then max before bs moves rest held s r again small fits le
        (grown left more open_before sum_left) next =
      let sum = length-append before bs in
      taken_first max before bs moves held _ s _ rest _ fits (grown left more open_before sum_left)
        (next _ _ (omega arith, omega arith))
  grow_then max before bs moves rest held s r again small fits le (grow_stopped more shut) next =
      at_first max before held s _ rest _ small (shut_down bs fits shut more)
  grow_then max before bs moves rest held s r again small fits le
        (grow_refused more open_before few) next =
      at_first max before held s _ rest _ small (no_budget bs fits open_before (omega arith))

  collect_from :
      (max : ℕ) (events : List (Event (Intake sem W))) (before : List ℕ) (held : ℕ)
      (s : Intake sem W)
      → length before ≤ max
      → IsCovering held (length before)
      → Outcome max before held s events (collect max events before held s).0
  unfolding collect
  collect_from max [] before held s small covers =
      let fits : length (before ++ []) ≤ max = let h = none_before before in omega arith in
      subst (λ x. Outcome max before held s [] (whole x held)) (append-nil before)
        (accepted held s at_end fits (subst (IsCovering held) (sym (none_before before)) covers))
  collect_from max ((stalled, moves) ∷ rest) before held s small covers =
      at_first max before held s _ rest 408 small timed_out
  collect_from max ((failed, moves) ∷ rest) before held s small covers =
      at_first max before held s _ rest 400 small read_failed
  collect_from max ((other_frame, moves) ∷ rest) before held s small covers =
      after_first max before [] held held s (moves s) _ rest _ refl
        (λ es h t rs.
          skips moves (subst (λ n. Reads max n held (moves s) es h t) (none_before before) rs))
        (subst (λ x. Outcome max x held (moves s) rest (collect max rest before held (moves s)).0)
          (sym (append-nil before)) (collect_from max rest before held (moves s) small covers))
  collect_from max ((data_frame bs, moves) ∷ rest) before held s small covers =
      if_split
        (λ (x : Collected × Intake sem W).
          Outcome max before held s ((data_frame bs, moves) ∷ rest) x.0)
        (ltb max (length before + length bs))
        (λ over. at_first max before held s _ rest 413 small (too_long bs (ltb→lt _ _ over)))
        (λ under.
          let fits : length before + length bs ≤ max = ground arith in
          let sum = length-append before bs in
          grow_then max before bs moves rest held s _ _ small fits covers.1
            (grow_body-Grown (moves s) held (length before + length bs))
            (λ h t c. collect_from max rest (before ++ bs) h t (omega arith) c))

  -- What the reading of a request's body comes to, whatever the other tasks do to the intake: all
  -- its data in order, if every frame is readable and finds its units of the budget, no more than
  -- max_body_size, and with a permit that covers it as far as the budget reaches; or the refusal
  -- that the first bad frame causes, behind frames that were read, fit and found their units: 408
  -- for a stall, 400 for a failed read, 413 past the size, 500 where the intake is closed and the
  -- permit too small, and 503 where the free units of an open intake are fewer than the missing
  -- ones.
  pub collect-Outcome :
      (max : ℕ) (events : List (Event (Intake sem W))) (s : Intake sem W)
      → Outcome max [] 0 s events (collect max events [] 0 s).0
  collect-Outcome max events s =
      collect_from max events [] 0 s (omega arith) (omega arith, omega arith)
