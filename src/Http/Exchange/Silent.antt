-- ===== src/Http/Exchange/Silent.antt =====
-- crates/plugins/http/src/php: an exchange whose reply has ended sends nothing and reports nothing.
use rapira_windows.Common.{ℕ, ◌≡◌, refl, true, not, if_split, Option, any, leb, ◌&&◌, if◌then◌else◌}
use rapira_windows.Http.HeaderMap.{HeaderMap}
use rapira_windows.Http.Reply.{Sender}
use rapira_windows.Http.Exchange.{
  Verb, Stage, open_stage, head_committed, finalized_stage, is_open, is_finalized, ExchangeState,
  cancelled, discard_unit,
}
use rapira_windows.Http.Exchange.Head.{Checked, passed, failed, forbidden_trailer}
use rapira_windows.Http.Exchange.Calls.{
  Exception, ℤ, pos, negsuc, thrown, write_trailers, write_trailers_core, write_head,
  write_head_core, head_of, write_body, write_body_core, send_file_core, flush, flush_verb,
}
use rapira_windows.Http.Exchange.Reach.{
  Step, receiver_moves, head_call, body_call, file_call, trailers_call, flush_call, discard_call,
}

over_not_open : (s : Stage) → is_finalized s ≡ true → not (is_open s) ≡ true
over_not_open open_stage e = absurd (cc)
over_not_open head_committed e = refl
over_not_open finalized_stage e = refl

module _ (header : HeaderMap) (empty : HeaderMap.Map header)
    {tx : Sender (HeaderMap.Map header)} where
  open header use {Map, keys}
  open tx use {frames}

  -- Over, with the same frames on the channel and the same reports.
  abbrev pub IsSilent : ExchangeState tx → ExchangeState tx → Type 0
  IsSilent st st' =
      (is_finalized st'.stage ≡ true)
      × (frames st'.channel ≡ frames st.channel)
      × (st'.reported ≡ st.reported)

  discard_unit-IsSilent :
      (st : ExchangeState tx) → is_finalized st.stage ≡ true → IsSilent st (discard_unit st)
  unfolding discard_unit
  discard_unit-IsSilent st over =
      if_split (IsSilent st) (is_finalized st.stage) (λ e. (over, refl, refl)) (λ e. absurd (cc))

  guarded-IsSilent :
      (st : ExchangeState tx) (v w : Verb) (r : Verb × ExchangeState tx)
      → is_finalized st.stage ≡ true
      → IsSilent st
          (if cancelled st
            then (v, discard_unit st)
            else if is_finalized st.stage
            then (w, st)
            else r).1
  guarded-IsSilent st v w r over =
      if_split (λ (x : Verb × ExchangeState tx). IsSilent st x.1) (cancelled st)
        (λ e. discard_unit-IsSilent st over)
        (λ e.
          if_split (λ (x : Verb × ExchangeState tx). IsSilent st x.1) (is_finalized st.stage)
            (λ e'. (over, refl, refl)) (λ e'. absurd (cc)))

  head_of-IsSilent :
      (st : ExchangeState tx) (status : ℕ) (map : Checked Map)
      → is_finalized st.stage ≡ true
      → IsSilent st (head_of header empty st status map).1
  unfolding head_of thrown write_head_core
  head_of-IsSilent st status (failed msg) over = (over, refl, refl)
  head_of-IsSilent st status (passed map) over =
      if_split (λ (x : Verb × ExchangeState tx). IsSilent st x.1) (cancelled st)
        (λ e. discard_unit-IsSilent st over)
        (λ e.
          if_split (λ (x : Verb × ExchangeState tx). IsSilent st x.1) (not (is_open st.stage))
            (λ late. (over, refl, refl))
            (λ early. absurd (let h = over_not_open st.stage over in cc)))

  write_head-IsSilent :
      (st : ExchangeState tx) (status : ℤ) (map : Checked Map)
      → is_finalized st.stage ≡ true
      → IsSilent st (write_head header empty st status map).1
  unfolding write_head
  write_head-IsSilent st (negsuc n) map over = (over, refl, refl)
  write_head-IsSilent st (pos status) map over =
      if_split (λ (x : Option Exception × ExchangeState tx). IsSilent st x.1)
        (leb 100 status && leb status 599) (λ e. head_of-IsSilent st status map over)
        (λ e. (over, refl, refl))

  write_trailers-IsSilent :
      (st : ExchangeState tx) (map : Checked Map)
      → is_finalized st.stage ≡ true
      → IsSilent st (write_trailers header empty st map).1
  unfolding write_trailers thrown write_trailers_core
  write_trailers-IsSilent st (failed msg) over = (over, refl, refl)
  write_trailers-IsSilent st (passed map) over =
      if_split (λ (x : Option Exception × ExchangeState tx). IsSilent st x.1)
        (any forbidden_trailer (keys map)) (λ e. (over, refl, refl))
        (λ e. guarded-IsSilent st _ _ _ over)

  -- An exchange that is over stays so, and no call puts a frame on its channel or reports its
  -- unit again.
  pub Step-IsSilent :
      {k : ℕ} {st st' : ExchangeState tx}
      → is_finalized st.stage ≡ true
      → Step header empty st k st'
      → IsSilent st st'
  unfolding write_body thrown write_body_core send_file_core flush flush_verb
  Step-IsSilent {st} over (receiver_moves c e) = (over, e, refl)
  Step-IsSilent {st} over (head_call status map) = write_head-IsSilent st status map over
  Step-IsSilent {st} over (body_call p eos) = guarded-IsSilent st _ _ _ over
  Step-IsSilent {st} over (file_call offset eos opened) = guarded-IsSilent st _ _ _ over
  Step-IsSilent {st} over (trailers_call map) = write_trailers-IsSilent st map over
  Step-IsSilent {st} over flush_call = guarded-IsSilent st _ _ _ over
  Step-IsSilent {st} over discard_call = discard_unit-IsSilent st over
