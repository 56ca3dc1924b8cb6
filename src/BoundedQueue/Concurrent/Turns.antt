-- ===== src/BoundedQueue/Concurrent/Turns.antt =====
-- The invariant behind the version words: the version of a slot counts the turns that are over, an
-- operation passes the test of `process` only in its turn, and it ends its turn by the exchange.
pub mod Moves
pub mod Wait
pub mod Finish
pub mod Steps
use wizard.Prelude.{
  ℕ, suc, ◌+◌, ◌-◌, ◌*◌, ◌/◌, ◌%◌, ◌^◌, ◌≤◌, ◌<◌, ◌≡◌, ◌≢◌, refl, Bool, true, false, arith, length,
  get_or-set_self, get_or-set_ne, ◌==◌, if◌then◌else◌, ℕ_discrete,
}
use wizard.BoundedQueue.{Kind, push, pop}
use wizard.BoundedQueue.Concurrent.{
  Pc, idle, begun, loaded, waiting, asleep, entered, called, waking, done, System, word, assign,
  move_to, write_word,
}
use wizard.BoundedQueue.Concurrent.Order.{turn, place, IsLaidOut, same_operation}

abbrev pub finished : Pc → Bool
finished waking = true
finished done = true
finished _ = false

-- What the place of an operation says of its turn `t` and the version `v` of its slot.
abbrev pub Fits : (v t : ℕ) → Pc → Type 0
Fits v t idle = v ≤ t
Fits v t begun = v ≤ t
Fits v t (loaded c) = (v ≤ t) × (c % 2 ^ 16 ≡ t % 2 ^ 16 → v ≡ t)
Fits v t (waiting w) = (v ≤ t) × (65535 < w) × (w % 2 ^ 16 ≢ t % 2 ^ 16)
Fits v t (asleep w) = (v ≤ t) × (65535 < w) × (w % 2 ^ 16 ≢ t % 2 ^ 16)
Fits v t entered = v ≡ t
Fits v t called = v ≡ t
Fits v t waking = t < v
Fits v t done = t < v

-- The turn of another operation ends.
pub Fits-suc : (v t : ℕ) (p : Pc) → t ≢ v → Fits v t p → Fits (suc v) t p
Fits-suc v t idle ne h = omega arith
Fits-suc v t begun ne h = omega arith
Fits-suc v t (loaded c) ne h = (omega arith, λ e. absurd (omega (arith, h.1 e)))
Fits-suc v t (waiting w) ne h = (omega arith, h.1, h.2)
Fits-suc v t (asleep w) ne h = (omega arith, h.1, h.2)
Fits-suc v t entered ne h = absurd (omega arith)
Fits-suc v t called ne h = absurd (omega arith)
Fits-suc v t waking ne h = omega arith
Fits-suc v t done ne h = omega arith

module _ {ℓ} {T : Type ℓ} where
  -- `version` gives each slot its number of turns that are over; its word holds 16 bits of it.
  pub record Turns (bits : ℕ) (s : System T) (version : ℕ → ℕ) : Type 0 where
    pub laid_out : IsLaidOut bits s.queue
    pub raw : (slot : ℕ) → slot < 2 ^ bits → word s.queue slot % 2 ^ 16 ≡ version slot % 2 ^ 16
    pub fits : (k : Kind) (i : ℕ) → Fits (version (place bits i)) (turn bits k i) (s.pc k i)
    pub pushes_new : (i : ℕ) → s.queue.next_push_index ≤ i → s.pc push i ≡ idle
    pub pops_new : (i : ℕ) → s.queue.next_pop_index ≤ i → s.pc pop i ≡ idle
