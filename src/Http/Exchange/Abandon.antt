-- ===== src/Http/Exchange/Abandon.antt =====
-- crates/plugins/http/src/php/respond.rs: what the client gets of a reply that PHP lets go of (`exchange_drop`).
use rapira_windows.Common.{ℕ, ◌≡◌, ◌≢◌, Bool, true, false, Option, none, some, if◌then◌else◌}
use rapira_windows.Http.HeaderMap.{HeaderMap}
use rapira_windows.Http.Reply.{Frame, ending, Sender, taken}
use rapira_windows.Http.Reply.Protocol.{Phase, streaming, ended}
use rapira_windows.Http.Exchange.{ExchangeState}
use rapira_windows.Http.Exchange.Valid.{reached}

-- The length of the head of an error.
abbrev pub no_bytes : Bool → Option ℕ
no_bytes bodiless = if bodiless then none else some 0

module _ {Map : Type 0} (tx : Sender Map) where
  open tx use {Tx, frames, try_send}

  -- The channel had no room for this frame, or was closed.
  abbrev pub IsMissed : Tx → Frame Map → Type 0
  IsMissed c f = (try_send c f).0 ≢ taken

module _ (header : HeaderMap) (empty : HeaderMap.Map header)
    {tx : Sender (HeaderMap.Map header)} where
  open header use {Map}
  open tx use {Tx, frames, try_send}

  pub data Told (st : ExchangeState tx) : Phase → Type 0 where
    -- A reply that had begun is marked as cut short.
    cut :
        (t : ℕ)
        → st.head_sent ≡ true
        → (st.bodiless ≡ false → t ≡ st.sent_body)
        → Told st (ended true st.declared_cl t)
    -- A reply that had not is an error without a body.
    refused : st.head_sent ≡ false → Told st (ended false (no_bytes st.bodiless) 0)
    -- Its head alone, since there was no room for the end.
    half :
        (c : Tx)
        → st.head_sent ≡ false
        → IsMissed tx c (ending false)
        → Told st (streaming (no_bytes st.bodiless) st.bodiless 0)
    untold : (f : Frame Map) → IsMissed tx st.channel f → Told st (reached st)
