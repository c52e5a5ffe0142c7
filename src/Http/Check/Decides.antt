-- ===== src/Http/Check/Decides.antt =====
-- What the checks of crates/plugins/http/src/check.rs decide, on every branch.
use rapira_windows.Common.{
  ℕ, ◌≡◌, ◌<◌, ◌≤◌, ◌↔◌, ◌⊎◌, inl, inr, refl, ap, ◌∙◌, Bool, true, false, not, Option, none, some,
  List, [], ◌∷◌, All, length, In, Bool-cases, if◌then◌else◌, arith,
}
use rapira_windows.Http.{Result, ok, err}
use rapira_windows.Http.HeaderMap.{HeaderMap, contains, contains_iff, get_all-remove_all}
use rapira_windows.Http.Check.Length.{
  IsSafeByte, is_safe_field_name_iff, Declares, declared_length_iff,
}
use rapira_windows.Http.Check.{
  host, content_length, is_safe_field_name, Authority, names, refuses, authority, unsafe_names,
  drop_unsafe_field_names, declared_length, is_too_long, visible, check_request,
}

unsafe_names_iff :
    (ks : List (List ℕ)) (n : List ℕ)
    → (In n (unsafe_names ks) ↔ (In n ks × (is_safe_field_name n ≡ false)))
unfolding unsafe_names
unsafe_names_iff [] n = (λ m. absurd m, λ p. absurd p.0)
unsafe_names_iff (k ∷ ks) n =
    let rest = unsafe_names_iff ks n in
    elim (Bool-cases (is_safe_field_name k)) [
      | inl safe ↦ rw safe (
        λ m. (inr (rest.0 m).0, (rest.0 m).1),
        λ p. elim p.0 [
          | inl e ↦
              absurd (let up : is_safe_field_name n ≡ true = ap is_safe_field_name e ∙ safe in cc)
          | inr more ↦ rest.1 (more, p.1)
        ],
      )
      | inr unsafe ↦ rw unsafe (
        λ m. elim m [
          | inl e ↦ (inl e, ap is_safe_field_name e ∙ unsafe)
          | inr more ↦ (inr (rest.0 more).0, (rest.0 more).1)
        ],
        λ p. elim p.0 [ inl e ↦ inl e | inr more ↦ inr (rest.1 (more, p.1)) ],
      )
    ]

module _ (header : HeaderMap) (to_str : List ℕ → Option (List ℕ)) where
  open header use {Map, get_all, keys}

  -- What is left of a header map, by the values of every name.
  pub Visible : Bool → Map → Map → Type 0
  Visible superglobals h h' =
      (n : List ℕ)
      → ((superglobals ≡ false) ⊎ All IsSafeByte n → get_all h' n ≡ get_all h n)
        × (superglobals ≡ true → ¬ All IsSafeByte n → get_all h' n ≡ [])

  drop_unsafe_lem :
      (h : Map) (n : List ℕ)
      → get_all (drop_unsafe_field_names header to_str h) n
        ≡ (if not (is_safe_field_name n) then [] else get_all h n)
  unfolding drop_unsafe_field_names
  drop_unsafe_lem h n =
      let bad = unsafe_names (keys h) in
      let listed = contains_iff bad n in
      let rule = unsafe_names_iff (keys h) n in
      get_all-remove_all header bad h n ∙ elim (Bool-cases (contains bad n)) [
        | inl known ↦ rw known (rw (rule.0 (listed.0 known)).1 refl)
        | inr unlisted ↦ elim (Bool-cases (is_safe_field_name n)) [
          | inl safe ↦ rw unlisted (rw safe refl)
          | inr unsafe ↦ rw unlisted (rw unsafe (go (get_all h n) refl unlisted unsafe))
        ]
      ]
    where
      go :
          (vs : List (List ℕ))
          → get_all h n ≡ vs
          → contains (unsafe_names (keys h)) n ≡ false
          → is_safe_field_name n ≡ false
          → vs ≡ []
      go [] e unlisted unsafe = refl
      go (v ∷ vs) e unlisted unsafe =
          let here : In n (keys h) = (header.keys_iff h n).1 (λ z. absurd (cc)) in
          let up : contains (unsafe_names (keys h)) n ≡ true =
            (contains_iff (unsafe_names (keys h)) n).1
              ((unsafe_names_iff (keys h) n).1 (here, unsafe)) in
          absurd (cc)

abbrev pub IsBlank : List ℕ → Type 0
IsBlank line = length line ≡ 0

-- What the Host lines of a request decide: at most one is allowed, and it names the host unless it is
-- blank, which HTTP/1.1 forbids.
pub data HostOf (http11 : Bool) (vs : List (List ℕ)) : Authority → Type 0 where
  one_host :
      (line : List ℕ) → vs ≡ line ∷ [] → 0 < length line → HostOf http11 vs (names (some line))
  old_version : length vs ≤ 1 → All IsBlank vs → http11 ≡ false → HostOf http11 vs (names none)
  host_needed :
      length vs ≤ 1
      → All IsBlank vs
      → http11 ≡ true
      → HostOf http11 vs (refuses "HTTP/1.1 request without a Host field")
  two_hosts :
      1 < length vs → HostOf http11 vs (refuses "request carries more than one Host field line")

authority-HostOf : (vs : List (List ℕ)) (http11 : Bool) → HostOf http11 vs (authority vs http11)
unfolding authority
authority-HostOf [] true = host_needed (omega arith) tt refl
authority-HostOf [] false = old_version (omega arith) tt refl
authority-HostOf ([] ∷ []) true = host_needed (omega arith) (refl, tt) refl
authority-HostOf ([] ∷ []) false = old_version (omega arith) (refl, tt) refl
authority-HostOf ((b ∷ bs) ∷ []) http11 = one_host (b ∷ bs) refl (omega arith)
authority-HostOf (a ∷ b ∷ more) http11 = two_hosts (omega arith)

module _ (header : HeaderMap) (to_str : List ℕ → Option (List ℕ)) where
  open header use {Map, get_all, keys}

  -- What `check_request` does, by the values of Host and of Content-Length that the client sent.
  pub data Checked (h : Map) (http11 superglobals : Bool) (max : ℕ)
      : Result (Option (List ℕ)) × Map → Type 0 where
    bad_host :
        (reason : _)
        → HostOf http11 (get_all h host) (refuses reason)
        → Checked h http11 superglobals max (err (record { status = 400; reason = reason }), h)
    too_long :
        (a : Option (List ℕ)) (len : ℕ) (h' : Map)
        → HostOf http11 (get_all h host) (names a)
        → Declares header to_str (get_all h content_length) len
        → max < len
        → Visible header to_str superglobals h h'
        → Checked h http11 superglobals max (
          err (record { status = 413; reason = "declared content-length exceeds max_body_size" }),
          h',
        )
    admitted :
        (a : Option (List ℕ)) (h' : Map)
        → HostOf http11 (get_all h host) (names a)
        → ((len : ℕ) → Declares header to_str (get_all h content_length) len → len ≤ max)
        → Visible header to_str superglobals h h'
        → Checked h http11 superglobals max (ok a, h')

  visible-Visible :
      (superglobals : Bool) (h : Map)
      → Visible header to_str superglobals h (visible header to_str superglobals h)
  unfolding Visible
  visible-Visible false h n = (λ any_name. refl, λ e. absurd (cc))
  visible-Visible true h n =
      let safe = is_safe_field_name_iff n in
      let left = drop_unsafe_lem header to_str h n in
      elim (Bool-cases (is_safe_field_name n)) [
        | inl up ↦ (λ kept. left ∙ rw up refl, λ e unsafe. absurd (unsafe (safe.0 up)))
        | inr down ↦ (
          λ kept. elim kept [
            | inl e ↦ absurd (cc)
            | inr all_safe ↦ absurd (let up = safe.1 all_safe in cc)
          ],
          λ e unsafe. left ∙ rw down refl,
        )
      ]

  safe_length : All IsSafeByte content_length
  unfolding is_safe_field_name
  safe_length = (is_safe_field_name_iff content_length).0 refl

  content_length_kept :
      (superglobals : Bool) (h : Map)
      → get_all (visible header to_str superglobals h) content_length ≡ get_all h content_length
  unfolding Visible
  content_length_kept superglobals h =
      (visible-Visible superglobals h content_length).0 (inr safe_length)

  -- What check_request does on every branch: 400 for more than one Host line, or for a blank or
  -- missing one in HTTP/1.1; 413 if the first Content-Length is a decimal number of 64 bits, which
  -- may have a plus sign, above the limit; and otherwise the one Host value; the names with other
  -- characters than letters, digits and - are gone if the superglobals are built, and every other
  -- name has its values.
  pub check_request-Checked :
      (h : Map) (http11 superglobals : Bool) (max : ℕ)
      → Checked h http11 superglobals max (check_request header to_str h http11 superglobals max)
  unfolding check_request
  check_request-Checked h http11 superglobals max =
      go (authority (get_all h host) http11) (authority-HostOf (get_all h host) http11)
    where
      h' : Map
      h' = visible header to_str superglobals h

      declared : Option ℕ
      declared = declared_length header to_str (get_all h content_length)

      long :
          (o : Option ℕ)
          → is_too_long header to_str o max ≡ true
          → (len : ℕ) × (o ≡ some len) × (max < len)
      long none e = absurd (cc)
      long (some len) e = (len, refl, ground (arith, e))

      lengths :
          (len : ℕ) → (declared ≡ some len) ↔ Declares header to_str (get_all h content_length) len
      lengths = declared_length_iff header to_str (get_all h content_length)

      short :
          (o : Option ℕ)
          → is_too_long header to_str o max ≡ false
          → (len : ℕ) → o ≡ some len
          → len ≤ max
      short none e len same = absurd (cc)
      short (some k) e len same = let eq : k ≡ len = ground (arith, same) in ground (arith, e, eq)

      go :
          (r : Authority)
          → HostOf http11 (get_all h host) r
          → Checked h http11 superglobals max (elim r [
            | refuses reason ↦ (err (record { status = 400; reason = reason }), h)
            | names a ↦
                if is_too_long header to_str
                  (declared_length header to_str (get_all h' content_length))
                  max
                then (
                  err (record {
                    status = 413;
                    reason = "declared content-length exceeds max_body_size";
                  }),
                  h',
                )
                else (ok a, h')
          ])
      go (refuses reason) host_line = bad_host reason host_line
      go (names a) host_line =
          rw (content_length_kept superglobals h)
            (elim (Bool-cases (is_too_long header to_str declared max)) [
              | inl e ↦
                  let (len, same, lt) = long declared e in
                  rw e (
                    too_long a len h' host_line ((lengths len).0 same) lt
                      (visible-Visible superglobals h))
              | inr e ↦ rw e (
                  admitted a h' host_line (λ len d. short declared e len ((lengths len).1 d))
                    (visible-Visible superglobals h))
            ])
