-- ===== src/Http/Reply/Protocol.antt =====
-- What a reply promises to the plugin, as the comments of `Frame` in crates/sapi/src/types.rs have it: one head, then the
-- body, then the end; no body frame behind a head that forbids a body, no empty file slice, and no byte
-- past the length of the head.
use rapira_windows.Common.{
  ℕ, zero, suc, ◌+◌, ◌≡◌, refl, Bool, true, false, Option, none, some, List, [], ◌∷◌, ◌++◌, leb,
  length, if◌then◌else◌,
}
use rapira_windows.Http.Reply.{Frame, head, chunk, file, ending}

pub data Phase : Type 0 where
  awaiting : Phase
  -- The content length, whether a body is forbidden, and the bytes so far.
  streaming : Option ℕ → Bool → ℕ → Phase
  -- Whether the reply was cut short, with the content length and the bytes.
  ended : Bool → Option ℕ → ℕ → Phase
  broken : Phase

abbrev pub within : Option ℕ → ℕ → Bool
within none n = true
within (some cl) n = leb n cl

abbrev pub grow : Option ℕ → Bool → ℕ → Phase
grow cl true n = broken
grow cl false n = if within cl n then streaming cl false n else broken

abbrev pub after_file : Option ℕ → Bool → ℕ → ℕ → Phase
after_file cl b n zero = broken
after_file cl b n (suc k) = grow cl b (n + suc k)

module _ {Map : Type 0} where
  abbrev pub after : Phase → Frame Map → Phase
  after awaiting (head h cl b) = streaming cl b 0
  after awaiting (chunk c) = broken
  after awaiting (file f o k) = broken
  after awaiting (ending t) = broken
  after (streaming cl b n) (head h cl' b') = broken
  after (streaming cl b n) (chunk c) = grow cl b (n + length c)
  after (streaming cl b n) (file f o k) = after_file cl b n k
  after (streaming cl b n) (ending t) = ended t cl n
  after (ended t cl n) f = broken
  after broken f = broken

  abbrev pub run_from : Phase → List (Frame Map) → Phase
  run_from p [] = p
  run_from p (f ∷ fs) = run_from (after p f) fs

  -- How far a receiver of these frames has come.
  abbrev pub phase : List (Frame Map) → Phase
  phase fs = run_from awaiting fs

  pub run_from-append :
      (p : Phase) (fs gs : List (Frame Map)) → run_from p (fs ++ gs) ≡ run_from (run_from p fs) gs
  run_from-append p [] gs = refl
  run_from-append p (f ∷ fs) gs = run_from-append (after p f) fs gs

  pub phase_snoc :
      (fs : List (Frame Map)) (f : Frame Map) → phase (fs ++ (f ∷ [])) ≡ after (phase fs) f
  phase_snoc fs f = run_from-append awaiting fs (f ∷ [])
