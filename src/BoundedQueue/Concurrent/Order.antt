-- ===== src/BoundedQueue/Concurrent/Order.antt =====
-- The slots take turns: the push with index i has turn 2 * (i / capacity) of slot i % capacity, and
-- the pop with index i the turn after it. The version of a slot counts the turns taken.
use native.Mathlib.Nat.{div-add-mod, pow-le-pow_right}
use wizard.Prelude.{ℕ, ◌+◌, ◌*◌, ◌/◌, ◌%◌, ◌^◌, ◌≤◌, ◌<◌, ◌≡◌, refl, ap, arith, length}
use wizard.Prelude.Bits.{and-mask, pow-pos}
use wizard.BoundedQueue.{
  Kind, push, pop, BoundedQueue, push_version_for_index, pop_version_for_index, expected_version,
  slot_id,
}

abbrev pub phase : Kind → ℕ
phase push = 0
phase pop = 1

unfoldable pub turn : ℕ → Kind → ℕ → ℕ
turn bits kind index = 2 * (index / 2 ^ bits) + phase kind

unfoldable pub place : ℕ → ℕ → ℕ
place bits index = index % 2 ^ bits

-- The arrays have the capacity, which is a power of two of at most 32 bits.
pub record IsLaidOut {ℓ} {T : Type ℓ} (bits : ℕ) (q : BoundedQueue T) : Type 0 where
  pub bits_eq : q.round_bits ≡ bits
  pub bits_le : bits ≤ 32
  pub capacity_eq : q.capacity ≡ 2 ^ bits
  pub futexes_len : length q.futexes ≡ 2 ^ bits
  pub values_len : length q.values ≡ 2 ^ bits

pub place-lt : (bits index : ℕ) → place bits index < 2 ^ bits
unfolding place
place-lt bits index = grind (arith, pow-pos bits)

same_index : (m i j : ℕ) → i % m ≡ j % m → i / m ≡ j / m → i ≡ j
same_index m i j r q = omega (arith, div-add-mod i m, div-add-mod j m, ap (λ (t : ℕ). m * t) q)

-- A slot and a turn determine the operation.
pub same_operation :
    (bits : ℕ) (k l : Kind) (i j : ℕ)
    → place bits i ≡ place bits j
    → turn bits k i ≡ turn bits l j
    → (k ≡ l) × (i ≡ j)
unfolding place turn
same_operation bits push push i j p t = (refl, same_index (2 ^ bits) i j p (omega arith))
same_operation bits pop pop i j p t = (refl, same_index (2 ^ bits) i j p (omega arith))
same_operation bits push pop i j p t = absurd (omega arith)
same_operation bits pop push i j p t = absurd (omega arith)

module _ {ℓ} {T : Type ℓ} {bits : ℕ} {q : BoundedQueue T} (l : IsLaidOut bits q) where
  pub slot_id-eq-place : (index : ℕ) → slot_id q index ≡ place bits index
  unfolding slot_id place
  slot_id-eq-place index =
      rw (l.capacity_eq, and-mask bits index)
        (omega (
          arith,
          place-lt bits index,
          pow-le-pow_right {n = 2} (omega arith) {i = bits} {j = 32} l.bits_le,
        ))

  pub expected-eq-turn :
      (kind : Kind) (index : ℕ) → expected_version q kind index ≡ turn bits kind index % 2 ^ 16
  unfolding expected_version turn push_version_for_index pop_version_for_index
  expected-eq-turn push index = rw l.bits_eq (omega arith)
  expected-eq-turn pop index = rw l.bits_eq (omega arith)
