-- ===== src/Http.antt =====
-- crates/plugins/http: the checks before a request is dispatched, the response head, and the
-- multipart/form-data parser. A byte string is a list of numbers.
pub mod Memchr
pub mod HeaderMap
pub mod FieldList
pub mod Check
pub mod Response
pub mod Multipart
pub mod Reply
pub mod Exchange
pub mod Bridge
pub mod Handler
use Prim.Native.Char.{code}
use Prim.Native.String
use Prim.Native.String.{String}
use rapira_windows.Common.{ℕ, List, [], ◌∷◌}

-- The bytes of an ASCII literal.
abbrev pub bytes : String → List ℕ
bytes String.[] = []
bytes (String.◌∷◌ c s) = code c ∷ bytes s

-- check.rs: the status and the reason of a refusal.
pub record Rejection : Type 0 where
  pub status : ℕ
  pub reason : String

pub data Result {ℓ} (A : Type ℓ) : Type ℓ where
  ok : A → Result A
  err : Rejection → Result A

-- `?` on a result.
abbrev pub and_then {ℓ κ} : {A : Type ℓ} {B : Type κ} → Result A → (A → Result B) → Result B
and_then (ok a) f = f a
and_then (err e) f = err e
