-- ===== src/Http/Multipart/Quoted.antt =====
-- A quoted name and file name come back from `disposition_params` of
-- crates/plugins/http/src/multipart.rs as they were.
use rapira_windows.Common.{
  ℕ, suc, ◌+◌, ◌≡◌, ◌≢◌, refl, sym, ap, ◌∙◌, false, ◌||◌, none, some, List, [], ◌∷◌, ◌++◌, arith,
  All, length, take, drop, take-append_length, drop-append_length, ◌==◌, ==_iff, if◌then◌else◌,
  Bool-cases, inl, inr,
}
use rapira_windows.Common.Bytes.{eq_ignore_ascii_case, trim_by, trim_start_by, trim_end_by}
use rapira_windows.Http.{bytes, ok}
use rapira_windows.Http.Memchr.{Memchr}
use rapira_windows.Http.Multipart.{trim_ascii}
use rapira_windows.Http.Multipart.FirstLine.{drop-drop}
use rapira_windows.Http.Multipart.Delimiter.{count_padding}
use rapira_windows.Http.Multipart.Disposition.{
  Disposition, quoted, push, read_value, store_param, behind_semicolon, params_from,
  disposition_params,
}

-- What a client writes between quotes.
abbrev pub escape : List ℕ → List ℕ
escape [] = []
escape (c ∷ cs) = let rest = escape cs in if c == 92 || c == 34 then 92 ∷ c ∷ rest else c ∷ rest

quoted-cons :
    (c : ℕ) (v : List ℕ)
    → (c == 34) ≡ false
    → (c == 92) ≡ false
    → v ≢ []
    → quoted (c ∷ v) ≡ push c (quoted v)
unfolding quoted
quoted-cons c [] q b d = absurd (d refl)
quoted-cons c (x ∷ v) q b d = rw (q, b, quoted) refl

not_nil : (cs rest : List ℕ) → (escape cs ++ 34 ∷ rest) ≢ []
not_nil [] rest e = cc
not_nil (c ∷ cs) rest e = ground (arith, e)

quoted-escape :
    (xs rest : List ℕ) → quoted (escape xs ++ 34 ∷ rest) ≡ some (record { val = xs; next = rest })
unfolding quoted
quoted-escape [] [] = refl
quoted-escape [] (r ∷ rest) = refl
quoted-escape (c ∷ cs) rest =
    let r = quoted-escape cs rest in
    elim (Bool-cases (c == 92)) [
      | inl slash ↦ rw ((==_iff c 92).0 slash) (ap (push 92) r)
      | inr no_slash ↦ elim (Bool-cases (c == 34)) [
        | inl quote ↦ rw ((==_iff c 34).0 quote) (ap (push 34) r)
        | inr no_quote ↦
            rw (no_slash, no_quote)
              (quoted-cons c (escape cs ++ 34 ∷ rest) no_quote no_slash (not_nil cs rest)
                ∙ ap (push c) r)
      ]
    ]

module _ (m : Memchr) where
  read_value-escape :
      (xs rest : List ℕ)
      → read_value m (34 ∷ escape xs ++ 34 ∷ rest) ≡ ok (record { val = xs; next = rest })
  unfolding read_value
  read_value-escape xs rest = rw (quoted-escape xs rest, read_value) refl

  drop-append_one : (xs ys : List ℕ) (c : ℕ) → drop (length xs + 1) (xs ++ c ∷ ys) ≡ ys
  drop-append_one xs ys c =
      sym (drop-drop (length xs) 1 (xs ++ c ∷ ys)) ∙ ap (drop 1) (drop-append_length xs (c ∷ ys))

  behind_semicolon-append :
      (xs ys : List ℕ) → All (λ x. x ≢ 59) xs → behind_semicolon m (xs ++ 59 ∷ ys) ≡ ys
  unfolding behind_semicolon
  behind_semicolon-append xs ys h =
      rw (m.memchr_first 59 xs ys h, behind_semicolon) (drop-append_one xs ys 59)

  behind_semicolon-nil : behind_semicolon m [] ≡ []
  unfolding behind_semicolon
  behind_semicolon-nil = rw (m.memchr_absent 59 [] tt, behind_semicolon) refl

  -- A round over one parameter with a quoted value.
  params_from-quoted :
      (n b : ℕ) (key x rest : List ℕ) (d d' : Disposition)
      → All (λ c. c ≢ 61) (b ∷ key)
      → store_param (trim_ascii (b ∷ key)) x d ≡ ok d'
      → params_from m (suc n) ((b ∷ key) ++ 61 ∷ 34 ∷ (escape x ++ 34 ∷ rest)) d
        ≡ params_from m n (behind_semicolon m rest) d'
  unfolding params_from count_padding
  params_from-quoted n b key x rest d d' h stored =
      let value : List ℕ = 34 ∷ (escape x ++ 34 ∷ rest) in
      let front : take (length (b ∷ key)) ((b ∷ key) ++ 61 ∷ value) ≡ b ∷ key =
        take-append_length (b ∷ key) (61 ∷ value) in
      let back : drop (length (b ∷ key) + 1) ((b ∷ key) ++ 61 ∷ value) ≡ value =
        drop-append_one (b ∷ key) value 61 in
      rw (m.memchr_first 61 (b ∷ key) value h, params_from)
        (rw back (rw (read_value-escape x rest) (rw front (rw stored refl))))

  empty : Disposition
  empty = record { name = none; filename = none }

  named : List ℕ → Disposition
  named name = record { name = some name; filename = none }

  name_param :
      (n : ℕ) (name rest : List ℕ)
      → params_from m (suc n) (bytes " name=\"" ++ (escape name ++ 34 ∷ rest)) empty
        ≡ params_from m n (behind_semicolon m rest) (named name)
  unfolding store_param eq_ignore_ascii_case trim_by trim_start_by trim_end_by empty named
  name_param n name rest =
      params_from-quoted n 32 (bytes "name") name rest empty (named name) (ground arith) refl

  filename_param :
      (n : ℕ) (name file rest : List ℕ)
      → params_from m (suc n) (bytes " filename=\"" ++ (escape file ++ 34 ∷ rest)) (named name)
        ≡ params_from m n
            (behind_semicolon m rest)
            (record { name = some name; filename = some file })
  unfolding store_param eq_ignore_ascii_case trim_by trim_start_by trim_end_by named
  filename_param n name file rest =
      params_from-quoted n 32 (bytes "filename") file rest (named name)
        (record { name = some name; filename = some file }) (ground arith) refl

  params_end :
      (n : ℕ) (d : Disposition) → params_from m (suc n) (behind_semicolon m []) d ≡ some (ok d)
  unfolding params_from
  params_end n d = rw behind_semicolon-nil refl

  name_from :
      (n : ℕ) (name : List ℕ)
      → params_from m (suc (suc n)) (bytes " name=\"" ++ (escape name ++ bytes "\"")) empty
        ≡ some (ok (named name))
  name_from n name = name_param (suc n) name [] ∙ params_end n (named name)

  name_and_file_from :
      (n : ℕ) (name file : List ℕ)
      → params_from m
          (suc (suc (suc n)))
          (bytes " name=\""
            ++ (escape name ++ (bytes "\"; filename=\"" ++ (escape file ++ bytes "\""))))
          empty
        ≡ some (ok (record { name = some name; filename = some file }))
  name_and_file_from n name file =
      name_param (suc (suc n)) name (bytes "; filename=\"" ++ (escape file ++ bytes "\""))
      ∙ ap (λ v. params_from m (suc (suc n)) v (named name))
          (behind_semicolon-append [] (bytes " filename=\"" ++ (escape file ++ bytes "\"")) tt)
      ∙ filename_param (suc n) name file []
      ∙ params_end n (record { name = some name; filename = some file })

  -- Names of any bytes that stand between quotes, with `\` before each `\` and `"`, are read as they
  -- are: the name alone, and the name with a file name.
  pub disposition_params-escape :
      (name file : List ℕ)
      → (disposition_params m (bytes "form-data; name=\"" ++ (escape name ++ bytes "\""))
          ≡ some (ok (record { name = some name; filename = none })))
        × (disposition_params m (
              bytes "form-data; name=\""
              ++ (escape name ++ (bytes "\"; filename=\"" ++ (escape file ++ bytes "\""))))
            ≡ some (ok (record { name = some name; filename = some file })))
  unfolding disposition_params empty named
  disposition_params-escape name file =
      let start = behind_semicolon-append (bytes "form-data") in
      let alone = escape name ++ bytes "\"" in
      let with_file = escape name ++ (bytes "\"; filename=\"" ++ (escape file ++ bytes "\"")) in
      (
        rw (start (bytes " name=\"" ++ alone) (ground arith))
            (name_from (length (bytes "orm-data; name=\"" ++ alone)) name),
        rw (start (bytes " name=\"" ++ with_file) (ground arith))
            (name_and_file_from (length (bytes "rm-data; name=\"" ++ with_file)) name file),
      )
