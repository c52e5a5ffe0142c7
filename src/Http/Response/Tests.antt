-- ===== src/Http/Response/Tests.antt =====
-- The theorem on crates/plugins/http/src/response.rs at a concrete response.
use rapira_windows.Common.{ℕ, ◌≡◌, refl, Option, none, some, List, [], ◌∷◌}
use rapira_windows.Http.{bytes}
use rapira_windows.Http.FieldList.{Field, values, without, names, replace, field_list}
use rapira_windows.Http.Response.{length_name, response_headers}
use rapira_windows.Http.Response.Forwards.{Forwarded, get_all-response_headers}

abbrev field : List ℕ → List ℕ → Field
field n v = record { name = n; value = v }

abbrev some_name : List ℕ → Option (List ℕ)
some_name [] = none
some_name (c ∷ cs) = some (c ∷ cs)

abbrev one_digit : ℕ → List ℕ
one_digit n = n ∷ []

abbrev sent : List Field
sent =
    field (bytes "connection") (bytes "close, x-hop")
    ∷ field (bytes "connection") (bytes "x-later")
    ∷ field (bytes "x-hop") (bytes "1")
    ∷ field (bytes "x-later") (bytes "3")
    ∷ field (bytes "te") (bytes "trailers")
    ∷ field (bytes "x-kept") (bytes "2")
    ∷ []

abbrev answer : List Field
unfolding response_headers
answer = response_headers field_list some_name one_digit sent (some 5)

hop_gone : values answer (bytes "x-hop") ≡ []
unfolding answer values without names replace
hop_gone = refl

later_gone : values answer (bytes "x-later") ≡ []
unfolding answer values without names replace
later_gone = refl

te_gone : values answer (bytes "te") ≡ []
unfolding answer values without names replace
te_gone = refl

length_set : values answer length_name ≡ (5 ∷ []) ∷ []
unfolding answer values without names replace
length_set = refl

get_all-response_headers_example :
    Forwarded field_list some_name one_digit sent (some 5) (bytes "x-kept") (
      field_list.get_all
        (response_headers field_list some_name one_digit sent (some 5))
        (bytes "x-kept"))
get_all-response_headers_example =
    get_all-response_headers field_list some_name one_digit sent (some 5) (bytes "x-kept")
