-- ===== src/Http/Response/Forwards.antt =====
-- What crates/plugins/http/src/response.rs forwards of the headers that PHP gave.
use mathlib.Core.Path.{subst}
use rapira_windows.Common.{
  ℕ, ◌≡◌, ◌≢◌, refl, sym, ap, ◌∙◌, true, ◌||◌, Option, none, some, List, [], ◌∷◌, ◌++◌, In, ◌↔◌,
  ◌⊎◌, Option-cases, Bool-cases, if_split, inl, inr, arith,
}
use rapira_windows.Common.Bytes.{bytes_eq, bytes_eq_iff, split_on, trim_by, is_ascii_whitespace}
use rapira_windows.Http.{bytes}
use rapira_windows.Http.HeaderMap.{HeaderMap, contains, contains_iff}
use rapira_windows.Http.Response.{
  connection, length_name, hop_by_hop, names_of, named_in, response_headers,
}
use rapira_windows.Http.Response.HopByHop.{
  stripped, carried, response_headers-carried, carried-length_name, carried-length_name-none,
}

-- The fields that belong to a connection.
abbrev pub IsConnectionField : List ℕ → Type 0
IsConnectionField k = In k (
    bytes "transfer-encoding"
    ∷ bytes "connection"
    ∷ bytes "keep-alive"
    ∷ bytes "upgrade"
    ∷ bytes "trailer"
    ∷ bytes "te"
    ∷ bytes "proxy-connection"
    ∷ [])

hop_by_hop_iff :
    (k : List ℕ) → k ≢ length_name → (contains hop_by_hop k ≡ true) ↔ IsConnectionField k
hop_by_hop_iff k other =
    let listed = contains_iff hop_by_hop k in
    (
      λ e. elim (listed.0 e) [ inl same ↦ absurd (other same) | inr more ↦ more ],
      λ m. listed.1 (inr m),
    )

In-append : (k : List ℕ) (xs ys : List (List ℕ)) → In k (xs ++ ys) ↔ (In k xs ⊎ In k ys)
In-append k [] ys = (λ m. inr m, λ h. elim h [ inl none_here ↦ absurd none_here | inr m ↦ m ])
In-append k (x ∷ xs) ys =
    let rest = In-append k xs ys in
    (
      λ m. elim m [
        | inl e ↦ inl (inl e)
        | inr more ↦ elim (rest.0 more) [ inl h ↦ inl (inr h) | inr h ↦ inr h ]
      ],
      λ h. elim h [
        | inl m ↦ elim m [ inl e ↦ inl e | inr more ↦ inr (rest.1 (inl more)) ]
        | inr m ↦ inr (rest.1 (inr m))
      ],
    )

module _ (header : HeaderMap) (header_name : List ℕ → Option (List ℕ)) (number : ℕ → List ℕ) where
  open header use {Map, get_all, keys}

  -- A value of Connection has an element that is this name.
  abbrev pub IsNamed : List (List ℕ) → List ℕ → Type 0
  IsNamed values k =
      (value : List ℕ) × (token : List ℕ) × In value values
      × In token (split_on 44 value)
      × (header_name (trim_by is_ascii_whitespace token) ≡ some k)

  names_of_iff :
      (tokens : List (List ℕ)) (k : List ℕ)
      → In k (names_of header header_name number tokens) ↔ (
          (token : List ℕ) × In token tokens
          × (header_name (trim_by is_ascii_whitespace token) ≡ some k))
  unfolding names_of
  names_of_iff [] k = (λ m. absurd m, λ h. absurd h.1)
  names_of_iff (t ∷ ts) k =
      let rest = names_of_iff ts k in
      elim (Option-cases (header_name (trim_by is_ascii_whitespace t))) [
        | inl bad ↦
            rw (bad, names_of)
              (
                λ m. let (token, there, e) = rest.0 m in (token, inr there, e),
                λ h. elim h.1 [
                  | inl same ↦ absurd (
                      let e : header_name (trim_by is_ascii_whitespace t) ≡ some k =
                        ap (λ x. header_name (trim_by is_ascii_whitespace x)) (sym same) ∙ h.2 in
                      cc)
                  | inr there ↦ rest.1 (h.0, there, h.2)
                ],
              )
        | inr (n, good) ↦
            rw (good, names_of)
              (
                λ m. elim m [
                  | inl e ↦ (t, inl refl, good ∙ ap some (sym e))
                  | inr more ↦ let (token, there, e) = rest.0 more in (token, inr there, e)
                ],
                λ h. elim h.1 [
                  | inl same ↦
                      let e : header_name (trim_by is_ascii_whitespace t) ≡ some k =
                        ap (λ x. header_name (trim_by is_ascii_whitespace x)) (sym same) ∙ h.2 in
                      inl (let both : some n ≡ some k = sym good ∙ e in cc)
                  | inr there ↦ inr (rest.1 (h.0, there, h.2))
                ],
              )
      ]

  named_in_iff :
      (values : List (List ℕ)) (k : List ℕ)
      → In k (named_in header header_name number values) ↔ IsNamed values k
  unfolding named_in
  named_in_iff [] k = (λ m. absurd m, λ h. absurd h.2)
  named_in_iff (v ∷ vs) k =
      let here = names_of_iff (split_on 44 v) k in
      let rest = named_in_iff vs k in
      let both =
        In-append k (names_of header header_name number (split_on 44 v))
          (named_in header header_name number vs) in
      (
        λ m. elim (both.0 m) [
          | inl first ↦ let (token, there, e) = here.0 first in (v, token, inl refl, there, e)
          | inr later ↦
              let (value, token, there, part, e) = rest.0 later in
              (value, token, inr there, part, e)
        ],
        λ h. elim h.2 [
          | inl same ↦
              both.1 (inl (here.1 (h.1, subst (λ x. In h.1 (split_on 44 x)) same h.3, h.4)))
          | inr there ↦ both.1 (inr (rest.1 (h.0, h.1, there, h.3, h.4)))
        ],
      )

  abbrev pub declared : Option ℕ → List (List ℕ)
  declared none = []
  declared (some n) = number n ∷ []

  -- Under this name stand these values.
  pub record Forwarded (h : Map) (content_length : Option ℕ) (k : List ℕ) (values : List (List ℕ))
      : Type 0 where
    pub length_alone : k ≡ length_name → values ≡ declared content_length
    pub taken :
        k ≢ length_name → IsConnectionField k ⊎ IsNamed (get_all h connection) k → values ≡ []
    pub kept :
        k ≢ length_name
        → ¬ IsConnectionField k
        → ¬ IsNamed (get_all h connection) k
        → values ≡ get_all h k

  carried_length :
      (h : Map) (content_length : Option ℕ) (k : List ℕ)
      → k ≡ length_name
      → carried header header_name number h content_length k ≡ declared content_length
  carried_length h none k e =
      ap (carried header header_name number h none) e
      ∙ carried-length_name-none header header_name number h
  carried_length h (some n) k e =
      ap (carried header header_name number h (some n)) e
      ∙ carried-length_name header header_name number h n

  carried_other :
      (h : Map) (content_length : Option ℕ) (k : List ℕ)
      → k ≢ length_name
      → carried header header_name number h content_length k
        ≡ stripped header header_name number h k
  unfolding carried
  carried_other h none k d = refl
  carried_other h (some n) k d = elim (Bool-cases (bytes_eq length_name k)) [
    | inl same ↦ absurd (d (sym ((bytes_eq_iff length_name k).0 same)))
    | inr other ↦ rw other refl
  ]

  stripped-taken :
      (h : Map) (k : List ℕ)
      → k ≢ length_name
      → IsConnectionField k ⊎ IsNamed (get_all h connection) k
      → stripped header header_name number h k ≡ []
  unfolding stripped
  stripped-taken h k d (inl field) =
      let hop : contains hop_by_hop k ≡ true = (hop_by_hop_iff k d).1 field in
      if_split (λ vs. vs ≡ [])
        (contains (named_in header header_name number (get_all h connection)) k
          || contains hop_by_hop k)
        (λ e. refl) (λ e. absurd (ground arith))
  stripped-taken h k d (inr named) =
      let hop : contains (named_in header header_name number (get_all h connection)) k ≡ true =
        (contains_iff (named_in header header_name number (get_all h connection)) k).1
          ((named_in_iff (get_all h connection) k).1 named) in
      if_split (λ vs. vs ≡ [])
        (contains (named_in header header_name number (get_all h connection)) k
          || contains hop_by_hop k)
        (λ e. refl) (λ e. absurd (ground arith))

  stripped-kept :
      (h : Map) (k : List ℕ)
      → k ≢ length_name
      → ¬ IsConnectionField k
      → ¬ IsNamed (get_all h connection) k
      → stripped header header_name number h k ≡ get_all h k
  unfolding stripped
  stripped-kept h k d no_field not_named = elim (Bool-cases (contains hop_by_hop k)) [
    | inl hop ↦ absurd (no_field ((hop_by_hop_iff k d).0 hop))
    | inr no_hop ↦
        elim (Bool-cases (contains (named_in header header_name number (get_all h connection)) k)) [
          | inl named ↦ absurd (
              not_named (
                (named_in_iff (get_all h connection) k).0 (
                  (contains_iff (named_in header header_name number (get_all h connection)) k).0
                    named)))
          | inr unnamed ↦ rw (no_hop, unnamed) refl
        ]
  ]

  -- The plugin's response has, under every name but Content-Length, the values that PHP gave it, or
  -- none if the name is one of the connection's own fields (Transfer-Encoding, Connection, Keep-
  -- Alive, Upgrade, Trailer, TE and Proxy-Connection) or an element of a comma-separated value of
  -- Connection; and under Content-Length the declared length alone, or nothing.
  pub get_all-response_headers :
      (h : Map) (content_length : Option ℕ) (k : List ℕ)
      → Forwarded h content_length k
          (get_all (response_headers header header_name number h content_length) k)
  get_all-response_headers h content_length k =
      let same = response_headers-carried header header_name number h content_length k in
      record {
        length_alone = λ e. same ∙ carried_length h content_length k e;
        taken = λ d gone. same ∙ carried_other h content_length k d ∙ stripped-taken h k d gone;
        kept = λ d field named.
            same ∙ carried_other h content_length k d ∙ stripped-kept h k d field named;
      }
