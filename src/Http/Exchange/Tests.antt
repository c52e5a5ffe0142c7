-- ===== src/Http/Exchange/Tests.antt =====
-- The theorems on crates/plugins/http/src/php at concrete exchanges.
use rapira_windows.Common.{ℕ, ◌≡◌, refl, true, false, none, some, List, [], ◌∷◌, ◌++◌, arith}
use rapira_windows.Pool.Events.{handled}
use rapira_windows.Http.{bytes}
use rapira_windows.Http.FieldList.{Field, values, names, without, field_list}
use rapira_windows.Http.Reply.{head, chunk, ending, Sender}
use rapira_windows.Http.Reply.Buffer.{Buffer, buffer, try_push, push_waiting}
use rapira_windows.Http.Exchange.{
  multipart, ExchangeState, new, cancelled, send_frame, emit_head, seal,
}
use rapira_windows.Http.Exchange.Head.{
  passed, failed, split_framing, parse_content_length, forbidden_trailer,
}
use rapira_windows.Http.Exchange.Trim.{from_utf8, is_whitespace}
use rapira_windows.Http.Exchange.Files.{FileSystem, in_cwd, open_send_file}
use rapira_windows.Http.Exchange.Valid.{IsValid}
use rapira_windows.Http.Exchange.Calls.{
  pos, write_head, write_head_core, head_of, write_body, write_body_core, send_body, send_part,
  send_fit, exceed, thrown,
}
use rapira_windows.Http.Exchange.Reach.{Reach, here, next, head_call, body_call, Reach-IsValid}
use rapira_windows.Http.Exchange.Silent.{IsSilent, Step-IsSilent}
use rapira_windows.Http.Exchange.Within.{IsSendable, open_send_file-IsSendable}

abbrev tx : Sender (List Field)
tx = buffer (List Field)

abbrev channel : Buffer (List Field)
channel = record { frames = []; room = 1; gone = false }

abbrev start : ExchangeState tx
unfolding new
start = new {tx = tx} (multipart (bytes "spool" ∷ [])) false channel

abbrev five_bytes : List Field
five_bytes = record { name = bytes "content-length"; value = bytes "5" } ∷ []

abbrev committed : ExchangeState tx
committed = (write_head field_list [] {tx = tx} start (pos 200) (passed five_bytes)).1

abbrev half : ExchangeState tx
half = (write_body field_list [] {tx = tx} committed (1 ∷ 2 ∷ 3 ∷ []) false).1

abbrev whole : ExchangeState tx
whole = (write_body field_list [] {tx = tx} half (4 ∷ 5 ∷ 6 ∷ 7 ∷ []) true).1

-- The write past the length is cut, and refused.
whole-frames :
    whole.channel.frames
    ≡ head (record { status = 200; headers = [] }) (some 5) false
      ∷ chunk (1 ∷ 2 ∷ 3 ∷ [])
      ∷ chunk (4 ∷ 5 ∷ [])
      ∷ ending false
      ∷ []
unfolding start new write_head head_of thrown write_head_core cancelled split_framing
    parse_content_length from_utf8 is_whitespace write_body write_body_core send_body send_part
    send_fit exceed seal emit_head send_frame values names without try_push push_waiting
whole-frames = refl

whole-reported : whole.reported ≡ handled false ∷ []
unfolding start new write_head head_of thrown write_head_core cancelled split_framing
    parse_content_length from_utf8 is_whitespace write_body write_body_core send_body send_part
    send_fit exceed seal emit_head send_frame values names without try_push push_waiting
whole-reported = refl

whole_run : Reach field_list [] {tx = tx} start 7 whole
whole_run =
    next
      (next (next here (head_call (pos 200) (passed five_bytes)))
        (body_call (1 ∷ 2 ∷ 3 ∷ []) false))
      (body_call (4 ∷ 5 ∷ 6 ∷ 7 ∷ []) true)

Reach-IsValid_example : IsValid 7 whole
unfolding start
Reach-IsValid_example =
    Reach-IsValid field_list [] {tx = tx} (multipart (bytes "spool" ∷ [])) false channel refl
      whole_run (omega arith)

-- Nothing follows the end.
Step-IsSilent_example :
    IsSilent field_list [] {tx = tx} whole
      (write_body field_list [] {tx = tx} whole (8 ∷ []) true).1
unfolding start new write_head head_of thrown write_head_core cancelled split_framing
    parse_content_length from_utf8 is_whitespace write_body write_body_core send_body send_part
    send_fit exceed seal emit_head send_frame values names without try_push push_waiting
Step-IsSilent_example =
    Step-IsSilent field_list [] {tx = tx} {st = whole} refl (body_call (8 ∷ []) true)

-- A file system with one file of ten bytes under any path.
abbrev one_file : FileSystem
one_file = record {
  PathBuf = List ℕ;
  new = λ p. p;
  is_relative = λ p. false;
  getcwd = none;
  join = λ p q. p ++ q;
  canonicalize = some;
  starts_with = λ p root. true;
  open_path = λ p. some 3;
  metadata = λ f. some (record { is_file = true; len = 10 });
}

open_send_file-IsSendable_example :
    IsSendable one_file (bytes "C") 4 (record { handle = 3; len = 6 })
unfolding open_send_file from_utf8 in_cwd
open_send_file-IsSendable_example =
    open_send_file-IsSendable one_file (bytes "C") (bytes "C:a") 4 (some 6)
      (record { handle = 3; len = 6 }) (omega arith) refl

past_the_end :
    open_send_file one_file (bytes "C") (bytes "C:a") 4 (some 7)
    ≡ failed "the requested slice runs past the end of the file"
unfolding open_send_file from_utf8 in_cwd
past_the_end = refl

two_bytes_of_space : parse_content_length (194 ∷ 160 ∷ bytes "5 ") ≡ some 5
unfolding parse_content_length from_utf8 is_whitespace
two_bytes_of_space = refl

trailer_named : forbidden_trailer (bytes "Set-Cookie") ≡ true
unfolding forbidden_trailer
trailer_named = refl
