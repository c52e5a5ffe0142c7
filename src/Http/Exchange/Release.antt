-- ===== src/Http/Exchange/Release.antt =====
-- crates/plugins/http/src/php: the call of sendFile() with its arguments (sendfile.rs), and what happens to an exchange
-- that PHP lets go of (respond.rs).
use rapira_windows.Common.{
  ℕ, zero, suc, Bool, true, false, not, ◌&&◌, Option, none, some, List, [], ◌∷◌, ◌++◌,
  if◌then◌else◌,
}
use rapira_windows.Http.HeaderMap.{HeaderMap}
use rapira_windows.Http.Reply.{Frame, head, ending, Sender, TrySend, taken, full, closed}
use rapira_windows.Pool.Events.{Event, handled}
use rapira_windows.Http.Exchange.{ExchangeState, is_finalized, unlink_spools, on_channel}
use rapira_windows.Http.Exchange.Files.{FileSystem, open_send_file}
use rapira_windows.Http.Exchange.Calls.{
  Exception, argument_error, ℤ, pos, negsuc, thrown, send_file_core,
}

-- A length as sendFile() takes it: null is `none`.
pub data Length : Type 0 where
  to_end : Length
  bytes_of : ℕ → Length
  too_short : Length

abbrev pub checked_length : Option ℤ → Length
checked_length none = to_end
checked_length (some (negsuc n)) = too_short
checked_length (some (pos zero)) = too_short
checked_length (some (pos (suc n))) = bytes_of (suc n)

-- From the answer to the head of a reply that has none.
abbrev pub after_error_head :
    {Map : Type 0} (tx : Sender Map) → TrySend × Sender.Tx tx → Sender.Tx tx
after_error_head tx (taken, c) = (tx.try_send c (ending false)).1
after_error_head tx (full, c) = c
after_error_head tx (closed, c) = c

module _ (header : HeaderMap) (empty : HeaderMap.Map header)
    {tx : Sender (HeaderMap.Map header)} where
  open header use {Map}
  open tx use {Tx, try_send}

  -- Behind the check of the offset.
  unfoldable pub send_from :
      (fs : FileSystem)
      → FileSystem.PathBuf fs
      → ExchangeState tx
      → List ℕ
      → ℕ
      → Length
      → Bool
      → Option Exception × ExchangeState tx
  unfolding open_send_file send_file_core thrown
  send_from fs root st path offset too_short eos =
      (some (argument_error 3 "must be greater than or equal to 1"), st)
  send_from fs root st path offset to_end eos =
      thrown header empty
        (send_file_core header empty st offset eos (open_send_file fs root path offset none))
  send_from fs root st path offset (bytes_of n) eos =
      thrown header empty
        (send_file_core header empty st offset eos (open_send_file fs root path offset (some n)))

  unfoldable pub send_file :
      (fs : FileSystem)
      → FileSystem.PathBuf fs
      → ExchangeState tx
      → List ℕ
      → ℤ
      → Option ℤ
      → Bool
      → Option Exception × ExchangeState tx
  unfolding send_from
  send_file fs root st path (negsuc n) length eos =
      (some (argument_error 2 "must be greater than or equal to 0"), st)
  send_file fs root st path (pos offset) length eos =
      send_from fs root st path offset (checked_length length) eos

  -- The head of a reply that PHP never began.
  abbrev pub error_head : ExchangeState tx → Frame Map
  error_head st =
      head (record { status = 500; headers = empty }) (if st.bodiless then none else some 0)
        st.bodiless

  abbrev pub farewell : ExchangeState tx → ExchangeState tx
  farewell st =
      if st.sender
      then on_channel st (
          if st.head_sent
          then (try_send st.channel (ending true)).1
          else after_error_head tx (try_send st.channel (error_head st)))
      else st

  -- `release`.
  abbrev pub report_released : ExchangeState tx → List Event
  report_released st =
      if is_finalized st.stage then st.reported else st.reported ++ (handled true ∷ [])

  -- With the drop of its fields. `cycle_died` is the engine's `unclean_shutdown`.
  unfoldable pub exchange_drop : Bool → ExchangeState tx → ExchangeState tx
  unfolding unlink_spools
  exchange_drop cycle_died st =
      let st' = if not (is_finalized st.stage) && not cycle_died then farewell st else st in
      record st' { body = unlink_spools st.body; sender = false; reported = report_released st }
