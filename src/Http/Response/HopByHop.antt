-- ===== src/Http/Response/HopByHop.antt =====
-- What crates/plugins/http/src/response.rs leaves of the headers, by its own lists of names.
use mathlib.Core.Path.{subst}
use rapira_windows.Common.{
  ℕ, ◌≡◌, ◌≢◌, refl, sym, ap, ◌∙◌, Bool, true, false, ◌||◌, Option, none, some, List, [], ◌∷◌, ◌++◌,
  In, any, Bool-cases, if_split, inl, inr, if◌then◌else◌, arith,
}
use rapira_windows.Common.Bytes.{bytes_eq, bytes_eq_iff}
use rapira_windows.Http.HeaderMap.{HeaderMap, contains, get_all-remove_all}
use rapira_windows.Http.Response.{
  connection, length_name, hop_by_hop, named_in, strip, declare_length, response_headers,
}

contains-append :
    (ns ms : List (List ℕ)) (k : List ℕ) → contains (ns ++ ms) k ≡ (contains ns k || contains ms k)
unfolding contains
contains-append [] ms k = refl
contains-append (n ∷ ns) ms k = elim (Bool-cases (bytes_eq n k)) [
  | inl same ↦ rw (same, contains) refl
  | inr other ↦ rw (other, contains) (contains-append ns ms k)
]

-- No key passes a test that fails on all.
any-In :
    (p : List ℕ → Bool) (ks : List (List ℕ)) (k : List ℕ) → any p ks ≡ false → In k ks → p k ≡ false
any-In p [] k e m = absurd m
any-In p (x ∷ xs) k e m = elim (Bool-cases (p x)) [
  | inl up ↦ absurd (let bad : true ≡ false = rw up at e in cc)
  | inr down ↦
      let rest : any p xs ≡ false = rw down at e in
      elim m [ inl same ↦ ap p same ∙ down | inr more ↦ any-In p xs k rest more ]
]

connection_hops : contains hop_by_hop connection ≡ true
unfolding contains bytes_eq
connection_hops = refl

module _ (header : HeaderMap) (header_name : List ℕ → Option (List ℕ)) (number : ℕ → List ℕ) where
  open header use {Map, get_all, keys}

  -- A name that is no key has no values.
  absent :
      (h : Map) (k : List ℕ)
      → any (contains hop_by_hop) (keys h) ≡ false
      → contains hop_by_hop k ≡ true
      → get_all h k ≡ []
  absent h k e hop = go (get_all h k) refl
    where
      go : (vs : List (List ℕ)) → get_all h k ≡ vs → vs ≡ []
      go [] same = refl
      go (v ∷ vs) same =
          let here : In k (keys h) = (header.keys_iff h k).1 (λ z. absurd (cc)) in
          let down : contains hop_by_hop k ≡ false =
            any-In (contains hop_by_hop) (keys h) k e here in
          absurd (cc)

  -- The values that the hop-by-hop fields do not take along.
  unfoldable pub stripped : Map → List ℕ → List (List ℕ)
  stripped h k =
      if contains (named_in header header_name number (get_all h connection)) k
        || contains hop_by_hop k
      then []
      else get_all h k

  strip_lem : (h : Map) (k : List ℕ) → get_all (strip header header_name number h) k ≡ stripped h k
  unfolding strip stripped
  strip_lem h k = elim (Bool-cases (any (contains hop_by_hop) (keys h))) [
    | inl some_hop ↦
        let named = named_in header header_name number (get_all h connection) in
        rw (some_hop, strip)
          (get_all-remove_all header (named ++ hop_by_hop) h k
            ∙ ap (λ b. if b then [] else get_all h k) (contains-append named hop_by_hop k))
    | inr no_hop ↦
        rw (no_hop, strip)
          (rw (absent h connection no_hop connection_hops)
            (elim (Bool-cases (contains hop_by_hop k)) [
              | inl hop ↦ rw (hop, named_in, contains) (absent h k no_hop hop)
              | inr other ↦ rw (other, named_in, contains) refl
            ]))
  ]

  -- What a response carries under a name: nothing for the hop-by-hop names and those that a value of
  -- Connection names, but the declared length, if there is one.
  unfoldable pub carried : Map → Option ℕ → List ℕ → List (List ℕ)
  carried h none k = stripped h k
  carried h (some n) k = if bytes_eq length_name k then number n ∷ [] else stripped h k

  -- That the code looks for a hop-by-hop key first makes no difference.
  pub response_headers-carried :
      (h : Map) (content_length : Option ℕ) (k : List ℕ)
      → get_all (response_headers header header_name number h content_length) k
        ≡ carried h content_length k
  unfolding response_headers carried
  response_headers-carried h none k = strip_lem h k
  response_headers-carried h (some n) k = elim (Bool-cases (bytes_eq length_name k)) [
    | inl same ↦ rw same (
        subst
          (λ x.
            get_all
              (declare_length header header_name number (some n)
                (strip header header_name number h))
              x
            ≡ number n ∷ [])
          ((bytes_eq_iff length_name k).0 same)
          (header.get_all-insert (strip header header_name number h) length_name (number n)))
    | inr other ↦
        let d : k ≢ length_name = λ e.
          absurd (
            let up : bytes_eq length_name k ≡ true = (bytes_eq_iff length_name k).1 (sym e) in
            cc) in
        rw other (
          header.get_all-insert_other (strip header header_name number h) length_name (number n) k d
          ∙ strip_lem h k)
  ]

  -- Under Content-Length stands the declared length alone.
  pub carried-length_name-none : (h : Map) → carried h none length_name ≡ []
  unfolding carried stripped contains bytes_eq
  carried-length_name-none h =
      if_split (λ vs. vs ≡ [])
        (contains (named_in header header_name number (get_all h connection)) length_name
          || contains hop_by_hop length_name)
        (λ hop. refl) (λ kept. absurd (ground arith))

  pub carried-length_name : (h : Map) (n : ℕ) → carried h (some n) length_name ≡ number n ∷ []
  unfolding carried bytes_eq
  carried-length_name h n = refl
