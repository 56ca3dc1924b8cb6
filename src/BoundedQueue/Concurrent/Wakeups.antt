-- ===== src/BoundedQueue/Concurrent/Wakeups.antt =====
-- No wake-up is lost: an operation sleeps in the kernel only while the word still holds the value
-- it sleeps on, or while another operation is about to wake the sleepers of the slot.
pub mod Words
pub mod Steps
use wizard.Prelude.{ℕ, ◌≡◌, ◌⊎◌}
use wizard.BoundedQueue.{Kind}
use wizard.BoundedQueue.Concurrent.{
  Pc, idle, begun, loaded, waiting, asleep, entered, called, waking, done, System, word,
}
use wizard.BoundedQueue.Concurrent.Order.{place}

module _ {ℓ} {T : Type ℓ} where
  -- Some operation on the slot stands before its FUTEX_WAKE.
  abbrev pub Waker : ℕ → System T → ℕ → Type 0
  Waker bits s slot = (k : Kind) × (i : ℕ) × (place bits i ≡ slot) × (s.pc k i ≡ waking)

  abbrev pub Awaited : ℕ → System T → ℕ → Pc → Type 0
  Awaited bits s slot (asleep w) = (word s.queue slot ≡ w) ⊎ Waker bits s slot
  Awaited bits s slot _ = Unit

  pub record NoneLost (bits : ℕ) (s : System T) : Type 0 where
    pub awaited : (k : Kind) (i : ℕ) → Awaited bits s (place bits i) (s.pc k i)
