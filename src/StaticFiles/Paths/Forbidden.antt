-- ===== src/StaticFiles/Paths/Forbidden.antt =====
-- A forbidden suffix keeps crates/middleware/static_files/src/lib.rs from a file, however it is spelled.
use mathlib.Core.Path.{subst}
use mathlib.Core.List.{append_assoc}
use rapira_windows.Common.{
  ℕ, ◌≡◌, ◌≢◌, refl, sym, ap, ◌∙◌, Bool, true, false, Option, some, List, [], ◌∷◌, ◌++◌, All, In,
  any, ◌==◌, ==_iff, Bool-cases, inl, inr, arith,
}
use rapira_windows.Common.Bytes.{
  to_ascii_lowercase, trim_end_by, bytes_eq, bytes_eq_iff, eq_ignore_ascii_case, split_on,
}
use rapira_windows.StaticFiles.Paths.{
  lowercase, ends_with, is_refused_segment, is_alias, is_dot_or_space, last_filled, file_of,
  forbid_of, eligible_decoded, eligible,
}

trim-tail : (p : ℕ → Bool) (tail : List ℕ) → All (λ c. p c ≡ true) tail → trim_end_by p tail ≡ []
unfolding trim_end_by
trim-tail p [] h = refl
trim-tail p (c ∷ cs) h = rw (trim-tail p cs h.1, trim_end_by) (rw h.0 refl)

trim_end_by-append :
    (p : ℕ → Bool) (xs tail : List ℕ)
    → All (λ c. p c ≡ true) tail
    → trim_end_by p (xs ++ tail) ≡ trim_end_by p xs
unfolding trim_end_by
trim_end_by-append p [] tail h = trim-tail p tail h
trim_end_by-append p (x ∷ xs) tail h = rw (trim_end_by-append p xs tail h, trim_end_by) refl

trim_end_by-kept :
    (p : ℕ → Bool) (xs : List ℕ) (c : ℕ) (cs : List ℕ)
    → trim_end_by p (c ∷ cs) ≡ c ∷ cs
    → trim_end_by p (xs ++ c ∷ cs) ≡ xs ++ c ∷ cs
unfolding trim_end_by
trim_end_by-kept p [] c cs h = h
trim_end_by-kept p (x ∷ []) c cs h = rw (h, trim_end_by) refl
trim_end_by-kept p (x ∷ y ∷ xs) c cs h = rw (trim_end_by-kept p (y ∷ xs) c cs h, trim_end_by) refl

lowercase-append : (xs ys : List ℕ) → lowercase (xs ++ ys) ≡ lowercase xs ++ lowercase ys
lowercase-append [] ys = refl
lowercase-append (x ∷ xs) ys = ap (◌∷◌ (to_ascii_lowercase x)) (lowercase-append xs ys)

lowercase_eq : (a b : List ℕ) → eq_ignore_ascii_case a b ≡ true → lowercase a ≡ lowercase b
unfolding eq_ignore_ascii_case
lowercase_eq [] [] e = refl
lowercase_eq [] (b ∷ bs) e = absurd (cc)
lowercase_eq (a ∷ as') [] e = absurd (cc)
lowercase_eq (a ∷ as') (b ∷ bs) e =
    elim (Bool-cases (to_ascii_lowercase a == to_ascii_lowercase b)) [
      | inl same ↦
          let heads = (==_iff (to_ascii_lowercase a) (to_ascii_lowercase b)).0 same in
          let tails = lowercase_eq as' bs (rw (same, eq_ignore_ascii_case) at e) in cc
      | inr other ↦ absurd (let bad : false ≡ true = rw (other, eq_ignore_ascii_case) at e in cc)
    ]

ends_with-append : (xs ys : List ℕ) → ends_with (xs ++ ys) ys ≡ true
unfolding ends_with
ends_with-append [] [] = (bytes_eq_iff [] []).1 refl
ends_with-append [] (y ∷ ys) = rw ((bytes_eq_iff (y ∷ ys) (y ∷ ys)).1 refl, ends_with) refl
ends_with-append (x ∷ xs) ys = elim (Bool-cases (bytes_eq (x ∷ (xs ++ ys)) ys)) [
  | inl whole ↦ rw (whole, ends_with) refl
  | inr part ↦ rw (part, ends_with) (ends_with-append xs ys)
]

forbidden_hit :
    (file : List ℕ) (forbid : List (List ℕ)) (ext : List ℕ)
    → In ext forbid
    → ends_with file (lowercase ext) ≡ true
    → any (ends_with file) (forbid_of forbid) ≡ true
forbidden_hit file [] ext m e = absurd m
forbidden_hit file (f ∷ fs) ext (inl same) e =
    let hit : ends_with file (lowercase f) ≡ true =
      ap (λ x. ends_with file (lowercase x)) (sym same) ∙ e in
    rw hit refl
forbidden_hit file (f ∷ fs) ext (inr more) e = elim (Bool-cases (ends_with file (lowercase f))) [
  | inl hit ↦ rw hit refl
  | inr miss ↦ rw miss (forbidden_hit file fs ext more e)
]

refuses_hit :
    (forbid : List (List ℕ)) (d : List ℕ)
    → any (ends_with (lowercase (trim_end_by is_dot_or_space (file_of d)))) forbid ≡ true
    → eligible_decoded forbid d ≡ false
unfolding eligible_decoded
refuses_hit forbid d e = elim (Bool-cases (any is_alias d)) [
  | inl alias ↦ rw alias refl
  | inr plain ↦ elim (Bool-cases (any is_refused_segment (split_on 47 d))) [
    | inl refused ↦ rw plain (rw refused refl)
    | inr fine ↦ rw plain (rw fine (rw e refl))
  ]
]

abbrev pub IsInSegment : ℕ → Type 0
IsInSegment b = b ≢ 47

abbrev pub IsSlash : ℕ → Type 0
IsSlash b = b ≡ 47

last_filled-cons :
    (s : List ℕ) (ss : List (List ℕ)) (c : ℕ) (cs : List ℕ)
    → last_filled ss ≡ c ∷ cs
    → last_filled (s ∷ ss) ≡ c ∷ cs
unfolding last_filled
last_filled-cons s ss c cs e = rw (e, last_filled) refl

last_filled-first :
    (s : List ℕ) (ss : List (List ℕ)) → last_filled ss ≡ [] → last_filled (s ∷ ss) ≡ s
unfolding last_filled
last_filled-first s ss e = rw (e, last_filled) refl

-- A segment and the slashes behind it.
split-segment :
    (name slashes : List ℕ)
    → All IsInSegment name
    → All IsSlash slashes
    → (ss : List (List ℕ)) × (split_on 47 (name ++ slashes) ≡ name ∷ ss) × (last_filled ss ≡ [])
unfolding split_on last_filled
split-segment [] [] h k = ([], refl, refl)
split-segment [] (c ∷ cs) h k =
    let slash : (c == 47) ≡ true = (==_iff c 47).1 k.0 in
    let (ss, e, empty) = split-segment [] cs tt k.1 in
    ([] ∷ ss, rw (slash, split_on) (ap (◌∷◌ []) e), last_filled-first [] ss empty)
split-segment (c ∷ cs) slashes h k =
    let other : (c == 47) ≡ false = ground (arith, h.0) in
    let (ss, e, empty) = split-segment cs slashes h.1 k in
    (ss, rw (other, split_on) (rw e refl), empty)

-- What stands behind a slash decides, if it has a filled segment.
split-front :
    (front back : List ℕ) (c : ℕ) (cs : List ℕ)
    → last_filled (split_on 47 back) ≡ c ∷ cs
    → (s : List ℕ) × (ss : List (List ℕ)) × (split_on 47 (front ++ 47 ∷ back) ≡ s ∷ ss)
      × (last_filled ss ≡ c ∷ cs)
unfolding split_on
split-front [] back c cs e = ([], split_on 47 back, refl, e)
split-front (x ∷ xs) back c cs e = elim (Bool-cases (x == 47)) [
  | inl slash ↦
      let (s, ss, parts, last) = split-front xs back c cs e in
      ([], s ∷ ss, rw (slash, split_on) (ap (◌∷◌ []) parts), last_filled-cons s ss c cs last)
  | inr other ↦
      let (s, ss, parts, last) = split-front xs back c cs e in
      (x ∷ s, ss, rw (other, split_on) (rw parts refl), last)
]

-- The file of a path is its last name, before any slashes at its end.
file_of-name :
    (front : List ℕ) (c : ℕ) (cs slashes : List ℕ)
    → All IsInSegment (c ∷ cs)
    → All IsSlash slashes
    → file_of (front ++ 47 ∷ ((c ∷ cs) ++ slashes)) ≡ c ∷ cs
unfolding file_of
file_of-name front c cs slashes h k =
    let (ss, parts, empty) = split-segment (c ∷ cs) slashes h k in
    let named : last_filled (split_on 47 ((c ∷ cs) ++ slashes)) ≡ c ∷ cs =
      ap last_filled parts ∙ last_filled-first (c ∷ cs) ss empty in
    let (s, later, all_parts, last) = split-front front ((c ∷ cs) ++ slashes) c cs named in
    ap last_filled all_parts ∙ last_filled-cons s later c cs last

-- With the file of the path.
file-forbidden :
    (decode : List ℕ → Option (List ℕ)) (forbid : List (List ℕ)) (path d ext base tail : List ℕ)
    (c : ℕ) (cs : List ℕ)
    → decode path ≡ some d
    → file_of d ≡ base ++ ((c ∷ cs) ++ tail)
    → In ext forbid
    → eq_ignore_ascii_case (c ∷ cs) ext ≡ true
    → trim_end_by is_dot_or_space (c ∷ cs) ≡ c ∷ cs
    → All (λ b. is_dot_or_space b ≡ true) tail
    → eligible decode (forbid_of forbid) path ≡ false
unfolding eligible
file-forbidden decode forbid path d ext base tail c cs known named listed spelled whole dots =
    let trimmed : trim_end_by is_dot_or_space (file_of d) ≡ base ++ c ∷ cs =
      ap (trim_end_by is_dot_or_space) (named ∙ sym (append_assoc base (c ∷ cs) tail))
      ∙ trim_end_by-append is_dot_or_space (base ++ c ∷ cs) tail dots
      ∙ trim_end_by-kept is_dot_or_space base c cs whole in
    let lower : lowercase (trim_end_by is_dot_or_space (file_of d))
        ≡ lowercase base ++ lowercase ext =
      ap lowercase trimmed
      ∙ lowercase-append base (c ∷ cs)
      ∙ ap (◌++◌ (lowercase base)) (lowercase_eq (c ∷ cs) ext spelled) in
    let hit =
      forbidden_hit (lowercase base ++ lowercase ext) forbid ext listed
        (ends_with-append (lowercase base) (lowercase ext)) in
    rw (known, eligible)
      (refuses_hit (forbid_of forbid) d
        (ap (λ f. any (ends_with f) (forbid_of forbid)) lower ∙ hit))

named_lem :
    (base tail : List ℕ) (c : ℕ) (cs : List ℕ)
    → (b : ℕ) × (bs : List ℕ) × (base ++ ((c ∷ cs) ++ tail) ≡ b ∷ bs)
named_lem [] tail c cs = (c, cs ++ tail, refl)
named_lem (b ∷ bs) tail c cs = (b, bs ++ ((c ∷ cs) ++ tail), refl)

-- A path whose last name, before any slashes at its end, ends in a forbidden suffix, in any case,
-- with any dots and spaces behind it, which Windows drops from a file name, is not eligible; the
-- suffix itself is not empty and ends in neither.
pub eligible-forbidden :
    (decode : List ℕ → Option (List ℕ)) (forbid : List (List ℕ))
    (path front base tail slashes ext : List ℕ) (c : ℕ) (cs : List ℕ)
    → decode path ≡ some (front ++ 47 ∷ ((base ++ ((c ∷ cs) ++ tail)) ++ slashes))
    → All IsInSegment (base ++ ((c ∷ cs) ++ tail))
    → All IsSlash slashes
    → In ext forbid
    → eq_ignore_ascii_case (c ∷ cs) ext ≡ true
    → trim_end_by is_dot_or_space (c ∷ cs) ≡ c ∷ cs
    → All (λ b. is_dot_or_space b ≡ true) tail
    → eligible decode (forbid_of forbid) path ≡ false
eligible-forbidden decode forbid path front base tail slashes ext c cs known segment ends listed
      spelled whole dots =
    let (b, bs, named) = named_lem base tail c cs in
    let last : file_of (front ++ 47 ∷ ((base ++ ((c ∷ cs) ++ tail)) ++ slashes))
        ≡ base ++ ((c ∷ cs) ++ tail) =
      ap (λ x. file_of (front ++ 47 ∷ (x ++ slashes))) named
      ∙ file_of-name front b bs slashes (subst (All IsInSegment) named segment) ends
      ∙ sym named in
    file-forbidden decode forbid path _ ext base tail c cs known last listed spelled whole dots
