-- ===== src/Pool/Counting.antt =====
-- A semaphore that is a counter and a flag, which has the behaviour that crates/sapi/src/work.rs relies on.
use rapira_windows.Common.{
  ℕ, ◌+◌, ◌-◌, ◌≤◌, ◌<◌, ◌≡◌, refl, Bool, true, false, leb, arith, if◌then◌else◌,
}
use rapira_windows.Pool.Semaphore.{Semaphore, TryAcquire, acquired, closed, no_permits}

pub record Counter : Type 0 where
  pub free : ℕ
  pub shut : Bool

abbrev pub try_counter : Counter → ℕ → TryAcquire Counter
try_counter c n =
    if c.shut
    then closed
    else if leb n c.free
    then acquired (record c { free = c.free - n })
    else no_permits

pub try_closed_counter : (c : Counter) (n : ℕ) → c.shut ≡ true → try_counter c n ≡ closed
try_closed_counter c n e = ground arith

pub try_short_counter :
    (c : Counter) (n : ℕ) → c.shut ≡ false → c.free < n → try_counter c n ≡ no_permits
try_short_counter c n o few = ground arith

pub try_enough_counter :
    (c : Counter) (n : ℕ)
    → c.shut ≡ false
    → n ≤ c.free
    → (t : Counter) × (try_counter c n ≡ acquired t) × (t.free + n ≡ c.free) × (t.shut ≡ false)
try_enough_counter c n o le = (record c { free = c.free - n }, ground arith, omega arith, o)

abbrev pub counter : Semaphore
counter = record {
  Sem = Counter;
  new = λ n. record { free = n; shut = false };
  available = λ c. c.free;
  is_closed = λ c. c.shut;
  try_acquire = try_counter;
  add_permits = λ c n. record c { free = c.free + n };
  close = λ c. record c { shut = true };
  available-new = λ n. refl;
  is_closed-new = λ n. refl;
  try_closed = try_closed_counter;
  try_short = try_short_counter;
  try_enough = try_enough_counter;
  available-add = λ c n. refl;
  is_closed-add = λ c n. refl;
  available-close = λ c. refl;
  is_closed-close = λ c. refl;
}
