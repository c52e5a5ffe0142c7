-- ===== src/Pool/Semaphore.antt =====
-- tokio::sync::Semaphore as crates/sapi/src/work.rs uses it: an interface with the documented
-- behaviour of `try_acquire_many_owned`, of a permit that is dropped, and of `close`.
use rapira_windows.Common.{ℕ, ◌+◌, ◌≤◌, ◌<◌, ◌≡◌, Bool, true, false}

pub data TryAcquire (S : Type 0) : Type 0 where
  acquired : S → TryAcquire S
  closed no_permits : TryAcquire S

pub record Semaphore : Type 1 where
  pub Sem : Type 0
  pub new : ℕ → Sem
  pub available : Sem → ℕ
  pub is_closed : Sem → Bool
  -- The semaphore after the acquisition, where it succeeds.
  pub try_acquire : Sem → ℕ → TryAcquire Sem
  -- A permit of so many units is dropped.
  pub add_permits : Sem → ℕ → Sem
  pub close : Sem → Sem
  pub available-new : (n : ℕ) → available (new n) ≡ n
  pub is_closed-new : (n : ℕ) → is_closed (new n) ≡ false
  pub try_closed : (s : Sem) (n : ℕ) → is_closed s ≡ true → try_acquire s n ≡ closed
  pub try_short :
      (s : Sem) (n : ℕ) → is_closed s ≡ false → available s < n → try_acquire s n ≡ no_permits
  pub try_enough :
      (s : Sem) (n : ℕ)
      → is_closed s ≡ false
      → n ≤ available s
      → (t : Sem) × (try_acquire s n ≡ acquired t)
        × (available t + n ≡ available s)
        × (is_closed t ≡ false)
  pub available-add : (s : Sem) (n : ℕ) → available (add_permits s n) ≡ available s + n
  pub is_closed-add : (s : Sem) (n : ℕ) → is_closed (add_permits s n) ≡ is_closed s
  pub available-close : (s : Sem) → available (close s) ≡ available s
  pub is_closed-close : (s : Sem) → is_closed (close s) ≡ true
