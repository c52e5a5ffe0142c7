-- ===== src/Http/Exchange/HeadKeeps.antt =====
-- crates/plugins/http/src/php/respond.rs: the call for a head keeps an exchange valid.
use mathlib.Core.Path.{subst}
use rapira_windows.Common.{
  ℕ, ◌≡◌, refl, sym, ◌∙◌, ap, inl, inr, Bool, true, false, ◌&&◌, not, if_split, not-false, Option,
  none, some, leb, le→leb, arith,
}
use rapira_windows.Http.HeaderMap.{HeaderMap}
use rapira_windows.Http.Reply.{Sender}
use rapira_windows.Http.Reply.Protocol.{within}
use rapira_windows.Http.Exchange.{
  Verb, Stage, open_stage, head_committed, finalized_stage, is_open, is_finalized, ExchangeState,
  cancelled,
}
use rapira_windows.Http.Exchange.Head.{Checked, passed, failed, SplitHead, split_framing}
use rapira_windows.Http.Exchange.Valid.{IsSoFar, IsGoing, IsLive, IsValid}
use rapira_windows.Http.Exchange.Calls.{
  Exception, ℤ, pos, negsuc, write_head, write_head_core, head_of, commits, commit_head, thrown,
  is_interim,
}
use rapira_windows.Http.Exchange.Keeps.{discard_unit-IsValid}

within_zero : (o : Option ℕ) → within o 0 ≡ true
within_zero none = refl
within_zero (some cl) = le→leb 0 cl (omega arith)

open_over : (s : Stage) → not (is_open s) ≡ false → is_finalized s ≡ true → ⊥
open_over open_stage e f = absurd (cc)
open_over head_committed e f = absurd (cc)
open_over finalized_stage e f = absurd (cc)

module _ (header : HeaderMap) (empty : HeaderMap.Map header)
    {tx : Sender (HeaderMap.Map header)} where
  open header use {Map, keys}
  open tx use {Tx, is_closed, frames}

  -- A head is committed only where none was, and nothing was written.
  commit_head-IsLive :
      (n status : ℕ) (st : ExchangeState tx) (split : SplitHead Map) (b : Bool)
      → st.head_sent ≡ b
      → is_open st.stage ≡ true
      → IsGoing n st
      → IsSoFar b st
      → IsLive n (commit_head header empty st status split)
  commit_head-IsLive n status st split true e early g s = absurd (let h = s.0 in cc)
  commit_head-IsLive n status st split false e early g s = record {
    going = record {
      has_sender = g.has_sender;
      not_over = refl;
      unreported = g.unreported;
      small = g.small;
      fits = ap (within split.declared_cl) s.1 ∙ within_zero split.declared_cl;
    };
    so_far = subst (λ b. IsSoFar b (commit_head header empty st status split)) (sym e) s;
  }

  commits-IsValid :
      (n status : ℕ) (st : ExchangeState tx) (split : Checked (SplitHead Map))
      → is_open st.stage ≡ true
      → IsLive n st
      → IsValid n (commits header empty st status split).1
  commits-IsValid n status st (failed msg) early l = inl l
  commits-IsValid n status st (passed split) early l =
      inl (commit_head-IsLive n status st split st.head_sent refl early l.going l.so_far)

  still_open :
      (n : ℕ) (st : ExchangeState tx) → not (is_open st.stage) ≡ false → IsValid n st → IsLive n st
  still_open n st e (inl l) = l
  still_open n st e (inr d) = absurd (open_over st.stage e d.is_over)

  write_head_core-IsValid :
      (n : ℕ) (st : ExchangeState tx) (status : ℕ) (map : Map)
      → IsValid n st
      → IsValid n (write_head_core header empty st status map).1
  unfolding write_head_core
  write_head_core-IsValid n st status map valid =
      if_split (λ (x : Verb × ExchangeState tx). IsValid n x.1) (cancelled st)
        (λ e. discard_unit-IsValid n st valid)
        (λ e.
          if_split (λ (x : Verb × ExchangeState tx). IsValid n x.1) (not (is_open st.stage))
            (λ late. valid)
            (λ early.
              if_split (λ (x : Verb × ExchangeState tx). IsValid n x.1) (is_interim status)
                (λ i. valid)
                (λ final.
                  commits-IsValid n status st (split_framing header map)
                    (not-false (is_open st.stage) early) (still_open n st early valid))))

  head_of-IsValid :
      (n : ℕ) (st : ExchangeState tx) (status : ℕ) (map : Checked Map)
      → IsValid n st
      → IsValid n (head_of header empty st status map).1
  unfolding head_of thrown
  head_of-IsValid n st status (failed msg) valid = valid
  head_of-IsValid n st status (passed map) valid = write_head_core-IsValid n st status map valid

  pub write_head-IsValid :
      (n : ℕ) (st : ExchangeState tx) (status : ℤ) (map : Checked Map)
      → IsValid n st
      → IsValid n (write_head header empty st status map).1
  unfolding write_head
  write_head-IsValid n st (negsuc k) map valid = valid
  write_head-IsValid n st (pos status) map valid =
      if_split (λ (x : Option Exception × ExchangeState tx). IsValid n x.1)
        (leb 100 status && leb status 599) (λ e. head_of-IsValid n st status map valid) (λ e. valid)
