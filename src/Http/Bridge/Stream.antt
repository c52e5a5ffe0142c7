-- ===== src/Http/Bridge/Stream.antt =====
-- crates/plugins/http/src/bridge.rs: the bytes that the frames of a reply stand for, and what the body
-- has delivered of them.
use mathlib.Core.List.{append_assoc}
use native.Mathlib.Nat.{zero-add}
use rapira_windows.Common.{
  ℕ, zero, suc, ◌+◌, ◌≤◌, ◌≡◌, refl, sym, ◌∙◌, ap, true, List, [], ◌∷◌, ◌++◌, length, take, drop,
  arith,
}
use rapira_windows.Http.Reply.{File, Frame, head, chunk, file, ending}
use rapira_windows.Http.Reply.Protocol.{
  Phase, streaming, awaiting, ended, broken, after, run_from, run_from-append,
}
use rapira_windows.Http.Exchange.Valid.{is_fair}

suc_plus : (n k : ℕ) → suc n + k ≡ suc (n + k)
suc_plus n k = omega arith

module _ {ℓ} {A : Type ℓ} where
  take_none : (k : ℕ) → ◌≡◌ {A = List A} (take k []) []
  take_none zero = refl
  take_none (suc k) = refl

  pub take_sum : (n k : ℕ) (xs : List A) → take (n + k) xs ≡ take n xs ++ take k (drop n xs)
  take_sum zero k xs = ap (λ m. take m xs) (zero-add k)
  take_sum (suc n) k [] = take_none (suc n + k) ∙ sym (take_none k)
  take_sum (suc n) k (x ∷ xs) =
      ap (λ m. take m (x ∷ xs)) (suc_plus n k) ∙ ap (◌∷◌ x) (take_sum n k xs)

  drop_none : (k : ℕ) → ◌≡◌ {A = List A} (drop k []) []
  drop_none zero = refl
  drop_none (suc k) = refl

  pub drop_sum : (n k : ℕ) (xs : List A) → drop (n + k) xs ≡ drop k (drop n xs)
  drop_sum zero k xs = ap (λ m. drop m xs) (zero-add k)
  drop_sum (suc n) k [] = drop_none (suc n + k) ∙ sym (drop_none k)
  drop_sum (suc n) k (x ∷ xs) = ap (λ m. drop m (x ∷ xs)) (suc_plus n k) ∙ drop_sum n k xs

module _ {Map : Type 0} (content : File → List ℕ) where
  abbrev pub bytes_in : Frame Map → List ℕ
  bytes_in (head h cl b) = []
  bytes_in (chunk bs) = bs
  bytes_in (file f offset len) = take len (drop offset (content f))
  bytes_in (ending t) = []

  -- The bytes of a reply.
  abbrev pub stream : List (Frame Map) → List ℕ
  stream [] = []
  stream (f ∷ fs) = bytes_in f ++ stream fs

  pub stream-append : (fs gs : List (Frame Map)) → stream (fs ++ gs) ≡ stream fs ++ stream gs
  stream-append [] gs = refl
  stream-append (f ∷ fs) gs =
      ap (λ s. bytes_in f ++ s) (stream-append fs gs)
      ∙ sym (append_assoc (bytes_in f) (stream fs) (stream gs))

module _ {Map : Type 0} where
  pub run_broken : (fs : List (Frame Map)) → run_from broken fs ≡ broken
  run_broken [] = refl
  run_broken (f ∷ fs) = run_broken fs

  pub after_broken :
      (p : Phase) (fs : List (Frame Map)) → is_fair (run_from p fs) ≡ true → is_fair p ≡ true
  after_broken awaiting fs h = refl
  after_broken (streaming cl b n) fs h = refl
  after_broken (ended t cl n) fs h = refl
  after_broken broken fs h = absurd (let e = ap is_fair (run_broken fs) in cc)

  -- In a reply that keeps the protocol so does each frame.
  pub next_fair :
      (p q : Phase) (fs : List (Frame Map)) (f : Frame Map) (rest all : List (Frame Map))
      → all ≡ fs ++ (f ∷ rest)
      → is_fair (run_from p all) ≡ true
      → run_from p fs ≡ q
      → is_fair (after q f) ≡ true
  next_fair p q fs f rest all e fair so_far = after_broken (after q f) rest (
      sym (
        ap is_fair (
          ap (run_from p) e
          ∙ run_from-append p fs (f ∷ rest)
          ∙ ap (λ x. run_from x (f ∷ rest)) so_far))
      ∙ fair)

-- What is delivered is the first part of the stream, within the length.
pub record IsPart {Map : Type 0} (content : File → List ℕ) (c : ℕ) (all : List (Frame Map))
    (d : List ℕ) : Type 0 where
  pub rest : List ℕ
  pub parts : stream content all ≡ d ++ rest
  pub bounded : length d ≤ c
