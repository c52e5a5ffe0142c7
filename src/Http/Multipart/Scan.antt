-- ===== src/Http/Multipart/Scan.antt =====
-- The scan of `next_delimiter` in crates/plugins/http/src/multipart.rs skips from match to match and
-- from line to line; here it is compared with a scan that tests every place.
use mathlib.Core.Path.{subst}
use rapira_windows.Common.{
  ℕ, zero, suc, ◌+◌, ◌-◌, ◌≤◌, ◌<◌, ◌≡◌, refl, sym, ◌∙◌, ap, false, Option, none, some, List, arith,
  length, length-drop, drop, Option-cases, inl, inr,
}
use rapira_windows.Common.Bytes.{starts_with}
use rapira_windows.Http.Memchr.{
  Memchr, FoundByte, byte_at, no_byte, FoundNeedle, needle_at, no_needle, memchr-FoundByte,
  memmem-FoundNeedle,
}
use rapira_windows.Http.Multipart.FirstLine.{
  first_line, get-length, starts_with-drop-length, pass, missed, none_before, line_after,
  none_on_line, matched,
}
use rapira_windows.Http.Multipart.Delimiter.{DelimHit, hit_at, next_delimiter}

module _ (m : Memchr) (body delim : List ℕ) where
  -- With fuel for every byte that is left, a delimiter that is not empty and a start in the body,
  -- `next_delimiter` answers, and answers the first delimiter line from the start on, as the scan that
  -- tests every place finds it.
  pub next_delimiter-eq-first_line :
      (n from : ℕ)
      → 0 < length delim
      → from ≤ length body
      → length body - from < n
      → next_delimiter m n body from delim ≡ some (first_line (length body - from) body from delim)
  unfolding next_delimiter
  next_delimiter-eq-first_line zero from p le lt = absurd (omega (arith, lt))
  next_delimiter-eq-first_line (suc n) from p le lt =
      go (m.memmem delim (drop from body)) refl (memmem-FoundNeedle m delim (drop from body))
        (next_delimiter-eq-first_line n)
    where
      left : ℕ
      left = length body - from

      answer : Option (Option DelimHit)
      answer = some (first_line left body from delim)

      Later : Type 0
      Later =
          (start : ℕ)
          → 0 < length delim
          → start ≤ length body
          → length body - start < n
          → next_delimiter m n body start delim
            ≡ some (first_line (length body - start) body start delim)

      on_line :
          (o : ℕ) (r : Option ℕ)
          → FoundByte 10 (drop (o + from) body) r
          → o < left
          → ((j : ℕ) → j < o → starts_with (drop j (drop from body)) delim ≡ false)
          → hit_at body (length delim) (o + from) ≡ none
          → Later
          → elim r [ none ↦ some none | some q ↦ next_delimiter m n body (o + from + q + 1) delim ]
            ≡ answer
      on_line o none (no_byte none_left) lt₁ before refuse later = ap some (
          sym (
            none_before body delim left from λ j lt₂.
              none_on_line body delim from o j before refuse (λ k lt₃. none_left k) j
                (omega arith)))
      on_line o (some q) (byte_at _ at none_left) lt₁ before refuse later =
          let start = o + from + q + 1 in
          let inside_body : q < length (drop (o + from) body) = get-length _ q 10 at in
          let fits : start ≤ length body =
            omega (arith, inside_body, length-drop (o + from) body, lt₁, le) in
          let skipped =
            pass body delim (o + suc q) (length body - start) from
              (none_on_line body delim from o q before refuse none_left) in
          later start p fits (omega (arith, lt, fits))
          ∙ ap some (
              sym (
                subst
                  (λ x.
                    first_line left body from delim ≡ first_line (length body - start) body x delim)
                  (omega arith)
                  (subst
                    (λ x.
                      first_line x body from delim
                      ≡ first_line (length body - start) body (from + (o + suc q)) delim)
                    (omega (arith, fits)) skipped)))

      go :
          (r : Option ℕ)
          → m.memmem delim (drop from body) ≡ r
          → FoundNeedle delim (drop from body) r
          → Later
          → next_delimiter m (suc n) body from delim ≡ answer
      go none e (no_needle miss) later =
          rw (e, next_delimiter)
            (ap some
              (sym (none_before body delim left from λ j lt₂. missed body delim from j (miss j))))
      go (some o) e (needle_at _ at before) later =
          let inside_body : o < left =
            omega (
              arith,
              starts_with-drop-length o (drop from body) delim p at,
              length-drop from body,
            ) in
          elim (Option-cases (hit_at body (length delim) (o + from))) [
            | inl refuse ↦
                rw (e, refuse, next_delimiter)
                  (on_line o _ (memchr-FoundByte m 10 (drop (o + from) body)) inside_body before
                    refuse later)
            | inr (hit, accept) ↦
                rw (e, accept, next_delimiter)
                  (ap some (
                    sym (
                      line_after body delim o left from hit inside_body
                        (λ j lt₂. missed body delim from j (before j lt₂))
                        (matched body delim from o hit at accept))))
          ]
