-- ===== src/Auth/Access.antt =====
-- Who gets past crates/interceptors/auth/src/lib.rs.
use mathlib.Core.Path.{subst}
use rapira_windows.Common.{
  ℕ, zero, suc, ◌≤◌, ◌<◌, ◌≡◌, ◌≢◌, ◌↔◌, ◌⊎◌, refl, sym, ◌∙◌, ap, true, false, some, List, [], ◌∷◌,
  ◌++◌, arith, All, In, length, length-append, length-take, take, drop, replicate, All-append_right,
  take-append-drop, take-append_length, drop-append_length, any, ltb, ltb→lt, lt→ltb, ◌==◌, ==_iff,
  Bool-cases, Option-cases, inl, inr,
}
use rapira_windows.Common.Bytes.{eq_ignore_ascii_case, starts_with}
use rapira_windows.Auth.{
  codes, health, count_spaces, bearer_token, same, accepts, passed, intercept_head,
}
use rapira_windows.Auth.Compare.{IsByte, same_iff}

-- The value does not begin with a space.
abbrev pub StartsBare : List ℕ → Type 0
StartsBare [] = Unit
StartsBare (c ∷ cs) = c ≢ 32

-- A field value with the scheme Bearer in any case, at least one space and the token behind them.
pub record Bearer (value token : List ℕ) : Type 0 where
  pub scheme : List ℕ
  pub spaces : ℕ
  pub split : value ≡ scheme ++ (replicate spaces 32 ++ token)
  pub six : length scheme ≡ 6
  pub named : eq_ignore_ascii_case scheme (codes "Bearer") ≡ true
  pub spaced : 0 < spaces
  pub bare : StartsBare token

count_spaces_split :
    (xs : List ℕ)
    → (xs ≡ replicate (count_spaces xs) 32 ++ drop (count_spaces xs) xs)
      × StartsBare (drop (count_spaces xs) xs)
unfolding count_spaces
count_spaces_split [] = (refl, tt)
count_spaces_split (c ∷ cs) = elim (Bool-cases (c == 32)) [
  | inl space ↦
      let r = count_spaces_split cs in rw space (rw ((==_iff c 32).0 space) (ap (◌∷◌ 32) r.0, r.1))
  | inr other ↦ rw other (refl, λ e. ground (arith, other))
]

count_spaces-replicate :
    (n : ℕ) (token : List ℕ) → StartsBare token → count_spaces (replicate n 32 ++ token) ≡ n
unfolding count_spaces
count_spaces-replicate zero [] b = refl
count_spaces-replicate zero (c ∷ cs) b = ground (arith, b)
count_spaces-replicate (suc n) token b = ap suc (count_spaces-replicate n token b)

drop-replicate : (n : ℕ) (token : List ℕ) → drop n (replicate n 32 ++ token) ≡ token
drop-replicate zero token = refl
drop-replicate (suc n) token = drop-replicate n token

not_ltb→le : (a b : ℕ) → ltb a b ≡ false → b ≤ a
not_ltb→le a b h = ground arith

bearer_token_sound : (value token : List ℕ) → bearer_token value ≡ some token → Bearer value token
unfolding bearer_token
bearer_token_sound value token h =
    let rest = drop 6 value in
    elim (Bool-cases (ltb (length value) 6)) [
      | inl small ↦ absurd (ground (arith, small))
      | inr long ↦ elim (Bool-cases (eq_ignore_ascii_case (take 6 value) (codes "Bearer"))) [
        | inr unknown ↦ absurd (ground (arith, long, unknown))
        | inl named ↦ elim (Bool-cases (ltb 0 (count_spaces rest))) [
          | inr tight ↦ absurd (ground (arith, long, named, tight))
          | inl spaced ↦
              let got : drop (count_spaces rest) rest ≡ token =
                ground (arith, long, named, spaced) in
              let parts = count_spaces_split rest in
              record {
                scheme = take 6 value;
                spaces = count_spaces rest;
                split =
                    sym (take-append-drop 6 value)
                    ∙ ap (◌++◌ (take 6 value))
                        (parts.0 ∙ ap (◌++◌ (replicate (count_spaces rest) 32)) got);
                six = omega (arith, length-take 6 value, not_ltb→le (length value) 6 long);
                named = named;
                spaced = ltb→lt _ _ spaced;
                bare = subst StartsBare got parts.1;
              }
        ]
      ]
    ]

bearer_token_complete :
    (value token : List ℕ) → Bearer value token → bearer_token value ≡ some token
unfolding bearer_token
bearer_token_complete value token b =
    let rest : List ℕ = replicate b.spaces 32 ++ token in
    let long : ltb (length (b.scheme ++ rest)) 6 ≡ false =
      ground (arith, length-append b.scheme rest, b.six) in
    let front : take 6 (b.scheme ++ rest) ≡ b.scheme =
      subst (λ k. take k (b.scheme ++ rest) ≡ b.scheme) b.six (take-append_length b.scheme rest) in
    let back : drop 6 (b.scheme ++ rest) ≡ rest =
      subst (λ k. drop k (b.scheme ++ rest) ≡ rest) b.six (drop-append_length b.scheme rest) in
    let count = count_spaces-replicate b.spaces token b.bare in
    rw b.split (
      rw long (
        rw (front, back)
          (rw b.named (
            rw count (rw (lt→ltb 0 b.spaces b.spaced) (ap some (drop-replicate b.spaces token)))))))

-- `bearer_token` reads exactly the values of the form: six characters that spell Bearer in any case,
-- one space or more, and the token, which begins with no space.
pub bearer_token_iff :
    (value token : List ℕ) → ((bearer_token value ≡ some token) ↔ Bearer value token)
bearer_token_iff value token = (bearer_token_sound value token, bearer_token_complete value token)

-- The field values let a call through.
pub data Admits (ts : List (List ℕ)) : List (List ℕ) → Type 0 where
  admits : (value token : List ℕ) → Bearer value token → In token ts → Admits ts (value ∷ [])

any-same_iff :
    (token : List ℕ) (ts : List (List ℕ))
    → All IsByte token
    → All (All IsByte) ts
    → ((any (λ t. same t token) ts ≡ true) ↔ In token ts)
any-same_iff token [] h k = (λ z. cc, λ z. absurd z)
any-same_iff token (t ∷ ts) h k =
    let one = same_iff t token k.0 h in
    let rest = any-same_iff token ts h k.1 in
    elim (Bool-cases (same t token)) [
      | inl hit ↦ rw hit (λ z. inl (sym (one.0 hit)), λ z. refl)
      | inr miss ↦ rw miss (
        λ z. inr (rest.0 z),
        λ z. elim z [
          | inl e ↦ absurd (let bad : same t token ≡ true = one.1 (sym e) in cc)
          | inr m ↦ rest.1 m
        ],
      )
    ]

Bearer-IsByte : (value token : List ℕ) → Bearer value token → All IsByte value → All IsByte token
Bearer-IsByte value token b h = All-append_right IsByte (replicate b.spaces 32) token (
    All-append_right IsByte b.scheme (replicate b.spaces 32 ++ token)
      (subst (All IsByte) b.split h))

accepts_sound :
    (ts values : List (List ℕ))
    → All (All IsByte) ts
    → All (All IsByte) values
    → accepts ts values ≡ true
    → Admits ts values
unfolding accepts
accepts_sound ts [] k h e = absurd (cc)
accepts_sound ts (value ∷ []) k h e = elim (Option-cases (bearer_token value)) [
  | inl missing ↦ absurd (let bad : false ≡ true = rw (missing, accepts) at e in cc)
  | inr (token, found) ↦
      let b = bearer_token_sound value token found in
      admits value token b
        ((any-same_iff token ts (Bearer-IsByte value token b h.0) k).0 (rw (found, accepts) at e))
]
accepts_sound ts (value ∷ another ∷ more) k h e = absurd (cc)

pub accepts_complete :
    {ts values : List (List ℕ)}
    → Admits ts values
    → All (All IsByte) ts
    → All (All IsByte) values
    → accepts ts values ≡ true
unfolding accepts
accepts_complete {ts} (admits value token b m) k h =
    rw (bearer_token_complete value token b, accepts)
      ((any-same_iff token ts (Bearer-IsByte value token b h.0) k).1 m)

-- A call passes exactly if its path begins with the health service's prefix, or if it has one
-- Authorization value, of the form Bearer with a token that is configured.
pub intercept_head_iff :
    (ts : List (List ℕ)) (path : List ℕ) (values : List (List ℕ))
    → All (All IsByte) ts
    → All (All IsByte) values
    → ((intercept_head ts path values ≡ passed)
        ↔ ((starts_with path health ≡ true) ⊎ Admits ts values))
unfolding intercept_head
intercept_head_iff ts path values k h = elim (Bool-cases (starts_with path health)) [
  | inl open_path ↦ rw open_path (λ z. inl refl, λ z. refl)
  | inr guarded ↦ elim (Bool-cases (accepts ts values)) [
    | inl good ↦ rw (guarded, good) (λ z. inr (accepts_sound ts values k h good), λ z. refl)
    | inr bad ↦
        rw (guarded, bad)
          (
            λ z. cc,
            λ z. elim z [
              | inl e ↦ cc
              | inr a ↦ let up : accepts ts values ≡ true = accepts_complete a k h in cc
            ],
          )
  ]
]
