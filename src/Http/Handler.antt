-- ===== src/Http/Handler.antt =====
-- crates/plugins/http/src/handler.rs: a request from its body to the head of its response.
--
-- The body of a request is the list of what its frames come to, each with what the other tasks do to the
-- intake until then. The request is what `request::build` makes of it; `dispatched` is the unit.
pub mod Collects
pub mod Answers
pub mod Bodies
pub mod Parsed
mod Tests
use Prim.Native.String.{String}
use rapira_windows.Common.{
  ℕ, ◌+◌, ◌-◌, Bool, true, false, not, ◌&&◌, ◌||◌, Option, none, some, List, [], ◌∷◌, ◌++◌, length,
  any, ltb, leb, ◌==◌, if◌then◌else◌,
}
use rapira_windows.Pool.Semaphore.{Semaphore}
use rapira_windows.Pool.Intake.{Intake, Refused, saturated, over_budget, stopped, grow_body}
use rapira_windows.Pool.Intake as Pool_intake
use rapira_windows.Http.{bytes, Rejection, Result, ok, err, and_then}
use rapira_windows.Http.HeaderMap.{HeaderMap}
use rapira_windows.Http.Reply.{ResponseHead, Frame, head, chunk, file, ending}

-- `Rejection::from`, the status.
abbrev pub refused_status : Refused → ℕ
refused_status saturated = 503
refused_status over_budget = 503
refused_status stopped = 500

-- A frame of the request's body.
pub data BodyEvent : Type 0 where
  data_frame : List ℕ → BodyEvent
  other_frame failed stalled : BodyEvent

-- The body with its permit, or the status of a refusal, which drops the permit.
pub data Collected : Type 0 where
  whole : List ℕ → ℕ → Collected
  refused : ℕ → Collected

module _ {sem : Semaphore} {W : Type 0} where
  open sem use {add_permits}

  abbrev pub drop_permit : ℕ → Intake sem W → Intake sem W
  drop_permit held s = record s { budget = add_permits s.budget held }

  abbrev pub refuse : ℕ → ℕ → Intake sem W → Collected × Intake sem W
  refuse status held s = (refused status, drop_permit held s)

  -- After `grow_body`; `again` is the loop.
  abbrev pub after_grow :
      (ℕ → Intake sem W → Collected × Intake sem W)
      → Pool_intake.Result (Unit {0}) × ℕ × Intake sem W
      → Collected × Intake sem W
  after_grow again (Pool_intake.ok u, held, s) = again held s
  after_grow again (Pool_intake.err e, held, s) = refuse (refused_status e) held s

  -- The loop of `serve_php` over the body.
  unfoldable pub collect :
      ℕ
      → List (BodyEvent × (Intake sem W → Intake sem W))
      → List ℕ
      → ℕ
      → Intake sem W
      → Collected × Intake sem W
  unfolding grow_body
  collect max [] collected held s = (whole collected held, s)
  collect max ((stalled, moves) ∷ rest) collected held s = refuse 408 held (moves s)
  collect max ((failed, moves) ∷ rest) collected held s = refuse 400 held (moves s)
  collect max ((other_frame, moves) ∷ rest) collected held s =
      collect max rest collected held (moves s)
  collect max ((data_frame bs, moves) ∷ rest) collected held s =
      let again = collect max rest (collected ++ bs) in
      if ltb max (length collected + length bs)
      then refuse 413 held (moves s)
      else after_grow again (grow_body (moves s) held (length collected + length bs))

-- What the first frame of the reply comes to.
pub record ReplyHead (Map : Type 0) : Type 0 where
  pub head : ResponseHead Map
  pub content_length : Option ℕ
  pub bodiless : Bool

unfoldable pub reply_head : {Map : Type 0} → Option (Frame Map) → Option (ReplyHead Map)
reply_head none = none
reply_head (some (head h cl b)) = some (record { head = h; content_length = cl; bodiless = b })
reply_head (some (chunk bs)) = none
reply_head (some (file f offset len)) = none
reply_head (some (ending t)) = none

-- `StatusCode::from_u16` takes 100 to 999.
unfoldable pub forwarded_status : ℕ → ℕ
forwarded_status status = if leb 100 status && leb status 999 && leb 200 status then status else 502

pub data BodyKind : Type 0 where
  empty_body : BodyKind
  -- With the wait for a frame that is staged.
  reply_body : Bool → BodyKind

pub record Response (Map : Type 0) : Type 0 where
  pub status : ℕ
  pub headers : Map
  pub kind : BodyKind
  pub length : Option ℕ

abbrev pub has_length : Option ℕ → Bool
has_length none = false
has_length (some n) = true

abbrev pub body_kind : Bool → Option ℕ → BodyKind
body_kind true content_length = empty_body
body_kind false content_length = reply_body (has_length content_length)

-- `content_length.filter(..)`.
abbrev pub header_length : ℕ → Option ℕ → Option ℕ
header_length status content_length =
    if status == 204 || status == 304 then none else content_length

module _ {Map : Type 0} (response_headers : Map → Option ℕ → Map)
    (error_response : ℕ → Response Map) where
  abbrev pub with_head : ReplyHead Map → Response Map
  unfolding forwarded_status
  with_head r = record {
    status = forwarded_status r.head.status;
    headers =
        response_headers r.head.headers
          (header_length (forwarded_status r.head.status) r.content_length);
    kind = body_kind r.bodiless r.content_length;
    length = r.content_length;
  }

  abbrev pub answer_of : Option (ReplyHead Map) → Response Map
  unfolding with_head
  answer_of none = error_response 502
  answer_of (some r) = with_head r

  -- From the first frame of the reply on.
  unfoldable pub answer : Option (Frame Map) → Response Map
  unfolding reply_head answer_of
  answer first = answer_of (reply_head first)

abbrev pub or_ended : Bool → Option ℕ → Option ℕ → Option ℕ
or_ended ended exact (some n) = some n
or_ended true exact none = some 0
or_ended false exact none = exact

-- `framed_length`, of the parsed Content-Length, whether the stream has ended, and the exact size hint.
unfoldable pub framed_length : Bool → ℕ → Option ℕ → Bool → Option ℕ → Option ℕ
framed_length is_head status parsed ended exact =
    if is_head || (leb 100 status && ltb status 200) || status == 204 || status == 304
    then some 0
    else or_ended ended exact parsed
