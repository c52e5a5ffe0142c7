-- ===== src/Http/Exchange/History.antt =====
-- crates/plugins/http/src/php: what PHP writes to an exchange stands on its channel.
use mathlib.Core.List.{append_assoc, append-nil}
use rapira_windows.Common.{
  ℕ, ◌≡◌, refl, sym, ◌∙◌, ap, Bool, true, false, Bool-cases, inl, inr, List, [], ◌++◌,
}
use rapira_windows.Http.HeaderMap.{HeaderMap}
use rapira_windows.Http.Reply.{File, Sender}
use rapira_windows.Http.Bridge.Stream.{stream}
use rapira_windows.Http.Exchange.{BodyState, is_finalized, ExchangeState, new}
use rapira_windows.Http.Exchange.Reach.{
  Step, receiver_moves, head_call, body_call, file_call, trailers_call, flush_call, discard_call,
  Reach, here, next,
}
use rapira_windows.Http.Exchange.Silent.{Step-IsSilent}
use rapira_windows.Http.Exchange.Written.{body_of, Written, discards-Written}
use rapira_windows.Http.Exchange.CallsWritten.{
  stays, nothing, write_body-Written, slice_of, send_file-Written, flush-Written,
  write_trailers-Written, write_head-Written,
}

put_behind : (w body rest p : List ℕ) → w ≡ body ++ rest → w ++ p ≡ body ++ (rest ++ p)
put_behind w body rest p e = ap (λ x. x ++ p) e ∙ append_assoc body rest p

module _ (header : HeaderMap) (empty : HeaderMap.Map header) {tx : Sender (HeaderMap.Map header)}
    (content : File → List ℕ) where
  open header use {Map}
  open tx use {Tx, frames}

  -- The bytes that a step writes.
  abbrev pub bytes_of : {st st' : ExchangeState tx} {k : ℕ} → Step header empty st k st' → List ℕ
  bytes_of (receiver_moves c e) = []
  bytes_of (head_call status map) = []
  bytes_of (body_call p eos) = p
  bytes_of {st} (file_call offset eos opened) = slice_of header empty content st offset opened
  bytes_of (trailers_call map) = []
  bytes_of flush_call = []
  bytes_of discard_call = []

  pub Step-Written :
      {k : ℕ} {st st' : ExchangeState tx} (s : Step header empty st k st')
      → Written content st (bytes_of s) st'
  Step-Written {st} (receiver_moves c e) = nothing header empty content st _ (record {
    streamed = ap (stream content) e ∙ sym (append-nil (body_of content st));
    bodiless = refl;
  })
  Step-Written {st} (head_call status map) = write_head-Written header empty content st status map
  Step-Written {st} (body_call p eos) = write_body-Written header empty content st p eos
  Step-Written {st} (file_call offset eos opened) =
      send_file-Written header empty content st offset eos opened
  Step-Written {st} (trailers_call map) = write_trailers-Written header empty content st map
  Step-Written {st} flush_call = flush-Written header empty content st
  Step-Written {st} discard_call = discards-Written content st st [] (stays header empty content st)

  -- All the bytes that PHP writes, in order.
  abbrev pub history : {s st : ExchangeState tx} {n : ℕ} → Reach header empty s n st → List ℕ
  history here = []
  history (next r s) = history r ++ bytes_of s

  -- What stands on the channel of the bytes written: a first part, and all of them while the exchange goes
  -- on and has a body.
  pub record Recorded (st : ExchangeState tx) (written : List ℕ) : Type 0 where
    pub rest : List ℕ
    pub parts : written ≡ body_of content st ++ rest
    pub whole : is_finalized st.stage ≡ false → st.bodiless ≡ false → rest ≡ []

  Step-Recorded :
      {k : ℕ} {st st' : ExchangeState tx} (s : Step header empty st k st') (w : List ℕ)
      → Recorded st w
      → Recorded st' (w ++ bytes_of s)
  Step-Recorded {st} {st'} s w rec =
      let h = Step-Written s in
      elim (Bool-cases (is_finalized st.stage)) [
        | inl over ↦
            let quiet = Step-IsSilent header empty over s in
            record {
              rest = rec.rest ++ bytes_of s;
              parts =
                  put_behind w (body_of content st) rec.rest (bytes_of s) rec.parts
                  ∙ ap (λ x. x ++ (rec.rest ++ bytes_of s)) (sym (ap (stream content) quiet.1));
              whole = λ live body. absurd (let bad : true ≡ false = sym quiet.0 ∙ live in cc);
            }
        | inr live ↦ elim (Bool-cases st.bodiless) [
          | inl b ↦
              let none_put = h.no_body b in
              let same : body_of content st' ≡ body_of content st =
                h.streamed
                ∙ ap (◌++◌ (body_of content st)) none_put.1
                ∙ append-nil (body_of content st) in
              record {
                rest = rec.rest ++ bytes_of s;
                parts =
                    put_behind w (body_of content st) rec.rest (bytes_of s) rec.parts
                    ∙ ap (λ x. x ++ (rec.rest ++ bytes_of s)) (sym same);
                whole = λ live' body. absurd (let bad : true ≡ false = sym none_put.0 ∙ body in cc);
              }
          | inr b ↦ record {
            rest = h.rest;
            parts =
                put_behind w (body_of content st) rec.rest (bytes_of s) rec.parts
                ∙ ap (λ x. body_of content st ++ (x ++ bytes_of s)) (rec.whole live b)
                ∙ ap (◌++◌ (body_of content st)) h.parts
                ∙ sym (append_assoc (body_of content st) h.part h.rest)
                ∙ ap (λ x. x ++ h.rest) (sym h.streamed);
            whole = h.whole;
          }
        ]
      ]

  pub Reach-Recorded :
      (body : BodyState) (is_head : Bool) (c : Tx) {n : ℕ} {st : ExchangeState tx}
      → frames c ≡ []
      → (r : Reach header empty (new body is_head c) n st) → Recorded st (history r)
  unfolding new
  Reach-Recorded body is_head c e here = record {
    rest = [];
    parts = sym (ap (λ fs. stream content fs ++ []) e);
    whole = λ l b. refl;
  }
  Reach-Recorded body is_head c e (next r s) =
      Step-Recorded s (history r) (Reach-Recorded body is_head c e r)
