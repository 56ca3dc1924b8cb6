-- ===== src/BoundedQueue/Concurrent/Delivery.antt =====
-- What the slots and the finished operations hold: a slot whose version is in the turn of a pop
-- holds the value of the push before it, and a pop that has called back has that value.
pub mod Writes
pub mod Callback
pub mod Finish
pub mod Steps
use wizard.Prelude.{ℕ, suc, ◌+◌, ◌≡◌, ◌≢◌, Option, none, get_elem?}
use wizard.BoundedQueue.{Kind, push, pop}
use wizard.BoundedQueue.Concurrent.{
  Pc, idle, begun, loaded, waiting, asleep, entered, called, waking, done, System,
}
use wizard.BoundedQueue.Concurrent.Order.{turn, place}

module _ {ℓ} {T : Type ℓ} where
  -- Of an operation: the cell of its slot, the value given to the push with its index, and the
  -- value taken by the pop with its index.
  abbrev pub Holds : (cell given taken : Option T) → Kind → Pc → Type ℓ
  Holds cell given taken push called = cell ≡ given
  Holds cell given taken pop called = taken ≡ given
  Holds cell given taken pop waking = taken ≡ given
  Holds cell given taken pop done = taken ≡ given
  Holds cell given taken _ _ = Unit

  abbrev pub cell : ℕ → System T → ℕ → Option T
  cell bits s i = get_elem? s.queue.values (place bits i)

  pub record Delivers (bits : ℕ) (s : System T) (version : ℕ → ℕ) : Type ℓ where
    pub full :
        (i : ℕ)
        → version (place bits i) ≡ suc (turn bits push i)
        → s.pc pop i ≢ called
        → cell bits s i ≡ s.pushed i
    pub holds : (k : Kind) (i : ℕ) → Holds (cell bits s i) (s.pushed i) (s.popped i) k (s.pc k i)
    pub given : (i : ℕ) → s.pc push i ≢ idle → s.pushed i ≢ none
