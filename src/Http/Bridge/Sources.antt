-- ===== src/Http/Bridge/Sources.antt =====
-- crates/plugins/http/src: from the calls of PHP to the bytes that the body of the response gives.
use mathlib.Core.List.{append_assoc}
use rapira_windows.Common.{
  ℕ, ◌≤◌, ◌<◌, ◌≡◌, sym, ◌∙◌, ap, Bool, false, some, List, [], ◌∷◌, ◌++◌, length, take, drop,
  take-append_length, take-append-drop, All,
}
use rapira_windows.Pool.Scoreboard.{u64}
use rapira_windows.Http.HeaderMap.{HeaderMap}
use rapira_windows.Http.Reply.{File, Frame, head, ResponseHead, Sender}
use rapira_windows.Http.Reply.Protocol.{phase}
use rapira_windows.Http.Exchange.{BodyState, ExchangeState, new}
use rapira_windows.Http.Exchange.Valid.{is_fair}
use rapira_windows.Http.Exchange.Keeps.{IsValid-fair}
use rapira_windows.Http.Exchange.Reach.{Reach, Reach-IsValid}
use rapira_windows.Http.Exchange.History.{history, Recorded, Reach-Recorded}
use rapira_windows.Http.Bridge.{Reader, ReplyBody, body_end, poll_frame}
use rapira_windows.Http.Bridge.Stream.{stream}
use rapira_windows.Http.Bridge.Delivers.{IsReading, IsInRange}
use rapira_windows.Http.Bridge.Whole.{Run, Run-delivers}

-- A first part of a first part.
first_of :
    (d body rest w : List ℕ) → d ≡ take (length d) body → w ≡ body ++ rest → d ≡ take (length d) w
first_of d body rest w part whole =
    let left = drop (length d) body in
    let parts : body ≡ d ++ left =
      sym (take-append-drop (length d) body) ∙ ap (λ x. x ++ left) (sym part) in
    let all_parts : w ≡ d ++ (left ++ rest) =
      whole ∙ ap (λ x. x ++ rest) parts ∙ append_assoc d left rest in
    sym (ap (take (length d)) all_parts ∙ take-append_length d (left ++ rest))

-- What PHP writes to an exchange, fewer than 2^64 bytes in whatever calls, comes out of the body:
-- the frames on the channel stand for a first part of the bytes that PHP writes, a file past the
-- declared length being refused as a whole, and for all of them while the exchange goes on and has
-- a body; and if the head on the channel gives a length and allows a body, the body gives, over any
-- polls with reads of the file's bytes, a first part of what PHP wrote, in order and no more than
-- that length, and it ends cleanly only with all of the length.
pub Reach-delivers :
    (header : HeaderMap) (empty : HeaderMap.Map header) {tx : Sender (HeaderMap.Map header)}
    (content : File → List ℕ) (c : ℕ) (body : BodyState) (is_head : Bool) (ch : Sender.Tx tx)
    {n : ℕ} {st : ExchangeState tx} {all : List (Frame (HeaderMap.Map header))} {d : List ℕ}
    {b : ReplyBody (HeaderMap.Map header)} (h : ResponseHead (HeaderMap.Map header))
    (reader : Reader)
    → Sender.frames tx ch ≡ []
    → (r : Reach header empty (new body is_head ch) n st) → n < u64
    → c < u64
    → Sender.frames tx st.channel ≡ head h (some c) false ∷ all
    → All IsInRange all
    → IsReading content reader
    → Run content c all d b
    → Recorded header empty content st (history header empty content r)
      × (d ≡ take (length d) (history header empty content r))
      × (length d ≤ c)
      × ((poll_frame reader b).0 ≡ body_end → length d ≡ c)
Reach-delivers header empty content c body is_head ch {n} {st} {all} {d} h reader e r lt
      small_length shape ranges reading run =
    let out =
      Run-delivers content c small_length reader reading
        (
          ap (λ fs. is_fair (phase fs)) (sym shape)
              ∙ IsValid-fair n st (Reach-IsValid header empty body is_head ch e r lt),
          ranges,
        )
        run in
    let recorded = Reach-Recorded header empty content body is_head ch e r in
    (
      recorded,
      first_of d (stream content all) recorded.rest (history header empty content r) out.0
          (recorded.parts ∙ ap (λ fs. stream content fs ++ recorded.rest) shape),
      out.1,
      out.2,
    )
