-- ===== src/Http/Handler/Tests.antt =====
-- The theorems on crates/plugins/http/src/handler.rs at concrete requests.
use rapira_windows.Common.{
  ℕ, zero, suc, ◌+◌, ◌/◌, ◌%◌, ◌≡◌, refl, false, Option, none, some, List, [], ◌∷◌, ◌++◌, ltb,
  if◌then◌else◌, arith,
}
use rapira_windows.Http.{bytes}
use rapira_windows.Http.Check.Length.{Writes, plain}
use rapira_windows.Pool.Scoreboard.{new_pool}
use rapira_windows.Pool.Counting.{counter}
use rapira_windows.Pool.Intake.{Intake, new_intake, grow_body, reserve_body}
use rapira_windows.Http.FieldList.{Field, field_list}
use rapira_windows.Http.Reply.{ResponseHead, head}
use rapira_windows.Http.Response.{response_headers}
use rapira_windows.Http.Handler.{
  BodyEvent, data_frame, other_frame, whole, refused, collect, Response, empty_body, answer,
}
use rapira_windows.Http.Handler.Collects.{Event, Outcome, collect-Outcome}
use rapira_windows.Http.Handler.Answers.{framed_of, Framed, answer-Framed}

abbrev intake : Intake counter ℕ
intake = new_intake (new_pool "http" [])

abbrev event : BodyEvent → Event (Intake counter ℕ)
event e = (e, λ s. s)

abbrev small : List (Event (Intake counter ℕ))
small = event (data_frame (1 ∷ 2 ∷ [])) ∷ event other_frame ∷ event (data_frame (3 ∷ [])) ∷ []

small_whole : (collect 3 small [] 0 intake).0 ≡ whole (1 ∷ 2 ∷ 3 ∷ []) 3
unfolding collect new_intake grow_body reserve_body
small_whole = refl

small_refused : (collect 2 small [] 0 intake).0 ≡ refused 413
unfolding collect new_intake grow_body reserve_body
small_refused = refl

collect-Outcome_example : Outcome 2 [] 0 intake small (collect 2 small [] 0 intake).0
collect-Outcome_example = collect-Outcome 2 small intake

abbrev some_name : List ℕ → Option (List ℕ)
some_name [] = none
some_name (c ∷ cs) = some (c ∷ cs)

-- The decimal digits of a number of 64 bits.
abbrev digits : ℕ → ℕ → List ℕ
digits zero n = []
digits (suc fuel) n =
    let front = digits fuel (n / 10) in
    if ltb n 10 then (48 + n) ∷ [] else front ++ ((48 + n % 10) ∷ [])

abbrev number : ℕ → List ℕ
number n = digits 20 n

abbrev error_response : ℕ → Response (List Field)
error_response status = record { status = status; headers = []; kind = empty_body; length = some 0 }

abbrev php_head : ResponseHead (List Field)
php_head = record { status = 200; headers = [] }

abbrev response : Response (List Field)
response =
    answer (response_headers field_list some_name number) error_response
      (some (head php_head (some 1205) false))

answer-Framed_example :
    Framed field_list some_name number some false
      (some 1205)
      response
      (framed_of field_list some_name number some false response)
answer-Framed_example =
    answer-Framed field_list some_name number some error_response php_head (some 1205) false false
      (bytes "1205", refl, plain written (omega arith)) (λ e. absurd (cc))
  where
    written : Writes (bytes "1205") 1205
    written = record { some_digit = omega arith; digits = ground arith; value = refl }
