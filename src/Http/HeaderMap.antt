-- ===== src/Http/HeaderMap.antt =====
-- http::HeaderMap as crates/plugins/http uses it: an interface with its documented behaviour. A name is
-- in lower case, and a name or a value is the list of its bytes.
use mathlib.Core.Path.{subst}
use rapira_windows.Common.{
  ℕ, ◌≡◌, ◌≢◌, ◌↔◌, inl, inr, refl, Bool, true, false, List, [], ◌∷◌, In, Bool-cases, if◌then◌else◌,
  ap, sym, ◌∙◌,
}
use rapira_windows.Common.Bytes.{bytes_eq, bytes_eq_iff}

pub record HeaderMap : Type 1 where
  pub Map : Type 0
  -- The values of a name, in order.
  pub get_all : Map → List ℕ → List (List ℕ)
  -- Each name once.
  pub keys : Map → List (List ℕ)
  pub remove : Map → List ℕ → Map
  -- In place of the name's values.
  pub insert : Map → List ℕ → List ℕ → Map
  pub keys_iff : (h : Map) (n : List ℕ) → (In n (keys h) ↔ (get_all h n ≢ []))
  pub get_all-remove : (h : Map) (n : List ℕ) → get_all (remove h n) n ≡ []
  pub get_all-remove_other : (h : Map) (n k : List ℕ) → k ≢ n → get_all (remove h n) k ≡ get_all h k
  pub get_all-insert : (h : Map) (n v : List ℕ) → get_all (insert h n v) n ≡ v ∷ []
  pub get_all-insert_other :
      (h : Map) (n v k : List ℕ) → k ≢ n → get_all (insert h n v) k ≡ get_all h k

-- The name is one of these.
unfoldable pub contains : List (List ℕ) → List ℕ → Bool
unfolding bytes_eq
contains [] n = false
contains (k ∷ ks) n = let rest = contains ks n in elim (bytes_eq k n) [ true ↦ true | false ↦ rest ]

module _ (header : HeaderMap) where
  open header use {Map, get_all, remove}

  abbrev pub remove_all : List (List ℕ) → Map → Map
  remove_all [] h = h
  remove_all (n ∷ ns) h = remove_all ns (remove h n)

  -- The values after the removal of these names.
  pub get_all-remove_all :
      (ns : List (List ℕ)) (h : Map) (k : List ℕ)
      → get_all (remove_all ns h) k ≡ (if contains ns k then [] else get_all h k)
  unfolding contains
  get_all-remove_all [] h k = refl
  get_all-remove_all (n ∷ ns) h k =
      let rest = get_all-remove_all ns (remove h n) k in
      elim (Bool-cases (bytes_eq n k)) [
        | inl same ↦ elim (Bool-cases (contains ns k)) [
          | inl again ↦ rw (same, contains) (rest ∙ rw again refl)
          | inr no_more ↦
              rw (same, contains)
                (rest
                  ∙ rw no_more (
                      subst (λ x. get_all (remove h n) x ≡ []) ((bytes_eq_iff n k).0 same)
                        (header.get_all-remove h n)))
        ]
        | inr other ↦
            let d : k ≢ n =
              λ e. absurd (let up : bytes_eq n k ≡ true = (bytes_eq_iff n k).1 (sym e) in cc) in
            rw (other, contains)
              (rest
                ∙ ap (λ v. if contains ns k then [] else v) (header.get_all-remove_other h n k d))
      ]

pub contains_iff : (ns : List (List ℕ)) (k : List ℕ) → ((contains ns k ≡ true) ↔ In k ns)
unfolding contains
contains_iff [] k = (λ e. absurd (cc), λ m. absurd m)
contains_iff (n ∷ ns) k =
    let one = bytes_eq_iff n k in
    let rest = contains_iff ns k in
    elim (Bool-cases (bytes_eq n k)) [
      | inl same ↦ rw (same, contains) (λ e. inl (sym (one.0 same)), λ m. refl)
      | inr other ↦
          rw (other, contains)
            (
              λ e. inr (rest.0 e),
              λ m. elim m [
                | inl e ↦ absurd (let up : bytes_eq n k ≡ true = one.1 (sym e) in cc)
                | inr more ↦ rest.1 more
              ],
            )
    ]
