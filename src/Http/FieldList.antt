-- ===== src/Http/FieldList.antt =====
-- A header map that is the list of its fields: the interface of HeaderMap can be met.
use rapira_windows.Common.{
  ℕ, ◌≡◌, ◌≢◌, ◌↔◌, inl, inr, refl, sym, ap, ◌∙◌, true, false, List, [], ◌∷◌, In, Bool-cases,
  if◌then◌else◌,
}
use rapira_windows.Common.Bytes.{bytes_eq, bytes_eq_iff}
use rapira_windows.Http.HeaderMap.{HeaderMap}

pub record Field : Type 0 where
  pub name : List ℕ
  pub value : List ℕ

unfoldable pub values : List Field → List ℕ → List (List ℕ)
unfolding bytes_eq
values [] n = []
values (f ∷ fs) n = let rest = values fs n in if bytes_eq f.name n then f.value ∷ rest else rest

unfoldable pub names : List Field → List (List ℕ)
names [] = []
names (f ∷ fs) = f.name ∷ names fs

unfoldable pub without : List Field → List ℕ → List Field
unfolding bytes_eq
without [] n = []
without (f ∷ fs) n = let rest = without fs n in if bytes_eq f.name n then rest else f ∷ rest

unfoldable pub replace : List Field → List ℕ → List ℕ → List Field
unfolding without
replace fs n v = record { name = n; value = v } ∷ without fs n

same_name : (n : List ℕ) → bytes_eq n n ≡ true
same_name n = (bytes_eq_iff n n).1 refl

other_name : (n k : List ℕ) → k ≢ n → bytes_eq n k ≡ false
other_name n k d = elim (Bool-cases (bytes_eq n k)) [
  | inl e ↦ absurd (d (sym ((bytes_eq_iff n k).0 e)))
  | inr e ↦ e
]

pub names_iff : (fs : List Field) (n : List ℕ) → (In n (names fs) ↔ (values fs n ≢ []))
unfolding names values
names_iff [] n = (λ m. absurd m, λ d. d refl)
names_iff (f ∷ fs) n =
    let rest = names_iff fs n in
    elim (Bool-cases (bytes_eq f.name n)) [
      | inl same ↦
          rw (same, values) (λ m e. absurd (cc), λ d. inl (sym ((bytes_eq_iff f.name n).0 same)))
      | inr other ↦
          rw (other, values)
            (
              λ m. elim m [
                | inl e ↦
                    absurd
                      (let up : bytes_eq f.name n ≡ true = (bytes_eq_iff f.name n).1 (sym e) in cc)
                | inr more ↦ rest.0 more
              ],
              λ d. inr (rest.1 d),
            )
    ]

pub values-without : (fs : List Field) (n : List ℕ) → values (without fs n) n ≡ []
unfolding values without
values-without [] n = refl
values-without (f ∷ fs) n = elim (Bool-cases (bytes_eq f.name n)) [
  | inl same ↦ rw (same, without) (values-without fs n)
  | inr other ↦ rw (other, without) (rw (other, values) (values-without fs n))
]

pub values-without_other :
    (fs : List Field) (n k : List ℕ) → k ≢ n → values (without fs n) k ≡ values fs k
unfolding values without
values-without_other [] n k d = refl
values-without_other (f ∷ fs) n k d =
    let rest = values-without_other fs n k d in
    elim (Bool-cases (bytes_eq f.name n)) [
      | inl same ↦
          let miss : bytes_eq f.name k ≡ false =
            ap (λ x. bytes_eq x k) ((bytes_eq_iff f.name n).0 same) ∙ other_name n k d in
          rw (same, without) (rw (miss, values) rest)
      | inr other ↦ elim (Bool-cases (bytes_eq f.name k)) [
        | inl hit ↦ rw (other, without) (rw (hit, values) (ap (◌∷◌ f.value) rest))
        | inr miss ↦ rw (other, without) (rw (miss, values) rest)
      ]
    ]

pub values-replace : (fs : List Field) (n v : List ℕ) → values (replace fs n v) n ≡ v ∷ []
unfolding values replace
values-replace fs n v = rw (same_name n, values) (ap (◌∷◌ v) (values-without fs n))

pub values-replace_other :
    (fs : List Field) (n v k : List ℕ) → k ≢ n → values (replace fs n v) k ≡ values fs k
unfolding values replace
values-replace_other fs n v k d = rw (other_name n k d, values) (values-without_other fs n k d)

abbrev pub field_list : HeaderMap
field_list = record {
  Map = List Field;
  get_all = values;
  keys = names;
  remove = without;
  insert = replace;
  keys_iff = names_iff;
  get_all-remove = values-without;
  get_all-remove_other = values-without_other;
  get_all-insert = values-replace;
  get_all-insert_other = values-replace_other;
}
