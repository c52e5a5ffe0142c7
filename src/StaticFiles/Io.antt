-- ===== src/StaticFiles/Io.antt =====
-- What crates/middleware/static_files takes from std::io and std::fs: error kinds, results, the
-- metadata of a file and points in time.
use rapira_windows.Common.{ℕ, ◌≡◌, ◌↔◌, Bool, true, false, Option, none, some, arith, ◌==◌}

pub data ErrorKind : Type 0 where
  not_found permission_denied is_a_directory invalid_filename invalid_input : ErrorKind
  not_a_directory other : ErrorKind

pub data Result {ℓ} (A : Type ℓ) : Type ℓ where
  ok : A → Result A
  err : ErrorKind → Result A

-- `?` on a result.
infixl 5 ◌>>=◌
abbrev pub ◌>>=◌ {ℓ κ} : {A : Type ℓ} {B : Type κ} → Result A → (A → Result B) → Result B
ok a >>= f = f a
err e >>= f = err e

-- `Result::ok`.
abbrev pub to_option {ℓ} : {A : Type ℓ} → Result A → Option A
to_option (ok a) = some a
to_option (err e) = none

-- std::time::SystemTime in nanoseconds: `since n` is n after the Unix epoch, `before n` is n + 1
-- before it.
pub data SystemTime : Type 0 where
  since : ℕ → SystemTime
  before : ℕ → SystemTime

abbrev pub time_eq : SystemTime → SystemTime → Bool
time_eq (since a) (since b) = a == b
time_eq (before a) (before b) = a == b
time_eq _ _ = false

-- `==` on `Option<SystemTime>`.
abbrev pub modified_eq : Option SystemTime → Option SystemTime → Bool
modified_eq (some a) (some b) = time_eq a b
modified_eq none none = true
modified_eq _ _ = false

pub modified_eq_iff : (a b : Option SystemTime) → (modified_eq a b ≡ true) ↔ (a ≡ b)
modified_eq_iff a b = ground arith

-- std::fs::Metadata, as far as the middleware reads it.
pub record OsMetadata : Type 0 where
  pub is_dir : Bool
  pub modified : Result SystemTime
  pub len : ℕ
