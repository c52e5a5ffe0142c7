-- ===== src/Http/Exchange/Valid.antt =====
-- The states of an exchange (crates/plugins/http/src/php/respond.rs): live, while it may write, and done, from the end
-- of its reply on.
use rapira_windows.Common.{
  ℕ, ◌≤◌, ◌≡◌, refl, ◌∙◌, ap, ◌⊎◌, inl, inr, Bool, true, false, if_split, Option, List, [], ◌∷◌,
  ◌++◌, map, All,
}
use rapira_windows.Pool.Events.{handled}
use rapira_windows.Http.Reply.{ending, Sender}
use rapira_windows.Http.Reply.Protocol.{
  Phase, awaiting, streaming, ended, broken, after, phase, phase_snoc, within,
}
use rapira_windows.Http.Exchange.{
  BodyState, raw, multipart, unlink, unlink_spools, Spool, is_open, is_finalized, Sent,
  ExchangeState, discard_unit, seal, finish, hang_up,
}
use rapira_windows.Http.Exchange.Sends.{Sends, took, missed, send_frame-Sends}

abbrev pub is_fair : Phase → Bool
is_fair awaiting = true
is_fair (streaming cl b n) = true
is_fair (ended t cl n) = true
is_fair broken = false

abbrev pub spools : BodyState → List Spool
spools (raw b) = []
spools (multipart files) = files

abbrev pub IsUnlinked : BodyState → Type 0
IsUnlinked b = All (λ path. path ≡ []) (spools b)

unlinked_files : (fs : List Spool) → All (λ path. path ≡ []) (map unlink fs)
unlinked_files [] = tt
unlinked_files (f ∷ fs) = (refl, unlinked_files fs)

unlink_spools-IsUnlinked : (b : BodyState) → IsUnlinked (unlink_spools b)
unfolding unlink_spools
unlink_spools-IsUnlinked (raw b) = tt
unlink_spools-IsUnlinked (multipart files) = unlinked_files files

fair_end :
    (Map : Type 0) (p : Phase) (truncated : Bool) (c : Option ℕ) (b : Bool) (t : ℕ)
    → p ≡ streaming c b t
    → is_fair (after {Map = Map} p (ending truncated)) ≡ true
fair_end Map p truncated c b t e = rw e refl

module _ {Map : Type 0} {tx : Sender Map} where
  open tx use {Tx, is_closed, frames}

  -- How far the receiver has come.
  abbrev pub reached : ExchangeState tx → Phase
  reached st = phase (frames st.channel)

  -- The bytes on the channel are those that the exchange counts, but for a reply without a body.
  abbrev pub IsStreaming : ExchangeState tx → Option ℕ → Type 0
  IsStreaming st c =
      (t : ℕ) × (reached st ≡ streaming c st.bodiless t) × (st.bodiless ≡ false → t ≡ st.sent_body)

  abbrev pub IsSoFar : Bool → ExchangeState tx → Type 0
  IsSoFar false st = (reached st ≡ awaiting) × (st.sent_body ≡ 0)
  IsSoFar true st = (is_open st.stage ≡ false) × IsStreaming st st.declared_cl

  -- May write; `n` bounds the bytes that PHP has written.
  pub record IsGoing (n : ℕ) (st : ExchangeState tx) : Type 0 where
    pub has_sender : st.sender ≡ true
    pub not_over : is_finalized st.stage ≡ false
    pub unreported : st.reported ≡ []
    pub small : st.sent_body ≤ n
    pub fits : within st.declared_cl st.sent_body ≡ true

  pub record IsLive (n : ℕ) (st : ExchangeState tx) : Type 0 where
    pub going : IsGoing n st
    pub so_far : IsSoFar st.head_sent st

  pub record IsDone (st : ExchangeState tx) : Type 0 where
    pub no_sender : st.sender ≡ false
    pub is_over : is_finalized st.stage ≡ true
    pub once : (errored : Bool) × (st.reported ≡ handled errored ∷ [])
    pub unlinked : IsUnlinked st.body
    pub fair : is_fair (reached st) ≡ true

  abbrev pub IsValid : ℕ → ExchangeState tx → Type 0
  IsValid n st = IsLive n st ⊎ IsDone st

  pub discard_unit-IsDone :
      (st : ExchangeState tx)
      → is_finalized st.stage ≡ false
      → st.reported ≡ []
      → is_fair (reached st) ≡ true
      → IsDone (discard_unit st)
  unfolding discard_unit
  discard_unit-IsDone st going none_yet fair =
      if_split IsDone (is_finalized st.stage) (λ e. absurd (cc))
        (λ e. record {
          no_sender = refl;
          is_over = refl;
          once = (true, ap (λ l. l ++ (handled true ∷ [])) none_yet);
          unlinked = unlink_spools-IsUnlinked st.body;
          fair = fair;
        })

  -- Where an end frame is no breach: behind a head, or on a channel that takes no more.
  abbrev pub IsEndable : ExchangeState tx → Type 0
  IsEndable st =
      ((c : Option ℕ) × (b : Bool) × (t : ℕ) × (reached st ≡ streaming c b t))
      ⊎ ((is_closed st.channel ≡ true) × (is_fair (reached st) ≡ true))

  sent_end :
      (st : ExchangeState tx) (truncated : Bool) (r : Sent × ExchangeState tx)
      → st.reported ≡ []
      → IsEndable st
      → Sends (finish st truncated) (ending truncated) r
      → IsDone (hang_up r)
  sent_end st truncated r none_yet ok_end (took c is_open_before f) = record {
    no_sender = refl;
    is_over = refl;
    once = (truncated, ap (λ l. l ++ (handled truncated ∷ [])) none_yet);
    unlinked = unlink_spools-IsUnlinked st.body;
    fair = elim ok_end [
      | inl (cl, b, t, e) ↦
          ap (λ fs. is_fair (phase fs)) f
          ∙ ap is_fair (phase_snoc (frames st.channel) (ending truncated))
          ∙ fair_end Map (reached st) truncated cl b t e
      | inr (gone, fair) ↦ absurd (cc)
    ];
  }
  sent_end st truncated r none_yet ok_end (missed c gone f) = record {
    no_sender = refl;
    is_over = refl;
    once = (truncated, ap (λ l. l ++ (handled truncated ∷ [])) none_yet);
    unlinked = unlink_spools-IsUnlinked st.body;
    fair =
        ap (λ fs. is_fair (phase fs)) f
        ∙ elim ok_end [ inl (cl, b, t, e) ↦ ap is_fair e | inr (closed_too, fair) ↦ fair ];
  }

  pub seal-IsDone :
      (st : ExchangeState tx) (truncated : Bool)
      → st.sender ≡ true
      → st.reported ≡ []
      → IsEndable st
      → IsDone (seal st truncated)
  unfolding seal
  seal-IsDone st truncated has_sender none_yet ok_end =
      sent_end st truncated _ none_yet ok_end
        (send_frame-Sends (finish st truncated) (ending truncated) has_sender)
