-- ===== src/Http/Reply/Buffer.antt =====
-- A bounded buffer that has the behaviour of `Sender`: what a concrete run of an exchange writes to.
use rapira_windows.Common.{
  ℕ, ◌-◌, ◌≡◌, sym, ◌∙◌, ap, Bool, true, false, List, [], ◌∷◌, ◌++◌, if_split, ◌==◌, if◌then◌else◌,
}
use rapira_windows.Http.Reply.{Frame, Sender, TrySend, taken, full, closed}

-- The frames that were taken, the room that is left, and whether the receiver is gone.
pub record Buffer (Map : Type 0) : Type 0 where
  pub frames : List (Frame Map)
  pub room : ℕ
  pub gone : Bool

module _ {Map : Type 0} where
  abbrev push : Buffer Map → Frame Map → Buffer Map
  push t f = record t { frames = t.frames ++ (f ∷ []); room = t.room - 1 }

  unfoldable pub try_push : Buffer Map → Frame Map → TrySend × Buffer Map
  try_push t f =
      if t.gone then (closed, t) else if t.room == 0 then (full, t) else (taken, push t f)

  -- A receiver that is there makes room.
  unfoldable pub push_waiting : Buffer Map → Frame Map → Bool × Buffer Map
  push_waiting t f = if t.gone then (false, t) else (true, push t f)

  answer_is :
      {A : Type 0} {a b : A} {t u : Buffer Map} → ◌≡◌ {A = A × Buffer Map} (a, t) (b, u) → a ≡ b
  answer_is {A} e = ap (λ (x : A × Buffer Map). x.0) e

  pub try_push-taken :
      (t u : Buffer Map) (f : Frame Map)
      → try_push t f ≡ (taken, u)
      → (t.gone ≡ false) × (u.frames ≡ t.frames ++ (f ∷ []))
  unfolding try_push
  try_push-taken t u f =
      if_split
        (λ (x : TrySend × Buffer Map).
          x ≡ (taken, u) → (t.gone ≡ false) × (u.frames ≡ t.frames ++ (f ∷ [])))
        t.gone (λ g e. absurd (let h = answer_is e in cc))
        (λ g.
          if_split
            (λ (x : TrySend × Buffer Map).
              x ≡ (taken, u) → (t.gone ≡ false) × (u.frames ≡ t.frames ++ (f ∷ [])))
            (t.room == 0) (λ r e. absurd (let h = answer_is e in cc))
            (λ r e. (g, ap (λ (x : TrySend × Buffer Map). x.1.frames) (sym e))))

  pub try_push-full : (t u : Buffer Map) (f : Frame Map) → try_push t f ≡ (full, u) → u ≡ t
  unfolding try_push
  try_push-full t u f =
      if_split (λ (x : TrySend × Buffer Map). x ≡ (full, u) → u ≡ t) t.gone
        (λ g e. absurd (let h = answer_is e in cc))
        (λ g.
          if_split (λ (x : TrySend × Buffer Map). x ≡ (full, u) → u ≡ t) (t.room == 0)
            (λ r e. ap (λ (x : TrySend × Buffer Map). x.1) (sym e))
            (λ r e. absurd (let h = answer_is e in cc)))

  pub try_push-closed :
      (t u : Buffer Map) (f : Frame Map)
      → try_push t f ≡ (closed, u)
      → (u.gone ≡ true) × (u.frames ≡ t.frames)
  unfolding try_push
  try_push-closed t u f =
      if_split
        (λ (x : TrySend × Buffer Map). x ≡ (closed, u) → (u.gone ≡ true) × (u.frames ≡ t.frames))
        t.gone
        (λ g e. (
          ap (λ (x : TrySend × Buffer Map). x.1.gone) (sym e) ∙ g,
          ap (λ (x : TrySend × Buffer Map). x.1.frames) (sym e),
        ))
        (λ g.
          if_split
            (λ (x : TrySend × Buffer Map).
              x ≡ (closed, u) → (u.gone ≡ true) × (u.frames ≡ t.frames))
            (t.room == 0) (λ r e. absurd (let h = answer_is e in cc))
            (λ r e. absurd (let h = answer_is e in cc)))

  pub push_waiting-taken :
      (t u : Buffer Map) (f : Frame Map)
      → push_waiting t f ≡ (true, u)
      → (t.gone ≡ false) × (u.frames ≡ t.frames ++ (f ∷ []))
  unfolding push_waiting
  push_waiting-taken t u f =
      if_split
        (λ (x : Bool × Buffer Map).
          x ≡ (true, u) → (t.gone ≡ false) × (u.frames ≡ t.frames ++ (f ∷ [])))
        t.gone (λ g e. absurd (let h = answer_is e in cc))
        (λ g e. (g, ap (λ (x : Bool × Buffer Map). x.1.frames) (sym e)))

  pub push_waiting-closed :
      (t u : Buffer Map) (f : Frame Map)
      → push_waiting t f ≡ (false, u)
      → (u.gone ≡ true) × (u.frames ≡ t.frames)
  unfolding push_waiting
  push_waiting-closed t u f =
      if_split (λ (x : Bool × Buffer Map). x ≡ (false, u) → (u.gone ≡ true) × (u.frames ≡ t.frames))
        t.gone
        (λ g e. (
          ap (λ (x : Bool × Buffer Map). x.1.gone) (sym e) ∙ g,
          ap (λ (x : Bool × Buffer Map). x.1.frames) (sym e),
        ))
        (λ g e. absurd (let h = answer_is e in cc))

abbrev pub buffer : (Map : Type 0) → Sender Map
buffer Map = record {
  Tx = Buffer Map;
  frames = λ t. t.frames;
  is_closed = λ t. t.gone;
  try_send = try_push;
  blocking_send = push_waiting;
  try_taken = try_push-taken;
  try_full = try_push-full;
  try_closed = try_push-closed;
  blocking_taken = push_waiting-taken;
  blocking_closed = push_waiting-closed;
}
