-- ===== src/Prelude/Bits/Step.antt =====
-- The native `bit_and` and `bit_or` by their last binary digit.
use Prim.Native.Nat.{
  ℕ, zero, suc, ◌+◌, ◌*◌, ◌/◌, ◌%◌, ◌≤◌, min, max, bit_and, bit_or, digits, bit_and-bitwise,
  bit_or-bitwise,
}
use mathlib.Core.Path.{◌≡◌, refl, ap}
use native.Mathlib.Omega.{arith}

-- `digits` takes one round for each digit of its left operand `a`, so any two fuels from `a` on
-- give one result.
module _ (rest : ℕ → ℕ) (combine : ℕ → ℕ → ℕ) where
  abbrev by_digits : ℕ → ℕ → ℕ → ℕ
  by_digits = digits rest combine

  by_digits-zero : (fuel b : ℕ) → by_digits fuel 0 b ≡ rest b
  by_digits-zero zero b = refl
  by_digits-zero (suc fuel) b = refl

  same_digits :
      (fuel fuel' a b : ℕ) → a ≤ fuel → a ≤ fuel' → by_digits fuel a b ≡ by_digits fuel' a b
  same_digits fuel fuel' zero b h h' = rw (by_digits-zero fuel b, by_digits-zero fuel' b)
  same_digits (suc fuel) (suc fuel') (suc a) b h h' =
      ap (λ t. t * 2 + combine (suc a % 2) (b % 2))
        (same_digits fuel fuel' (suc a / 2) (b / 2) (omega arith) (omega arith))
  same_digits zero fuel' (suc a) b h h' = elim h [ ]
  same_digits (suc fuel) zero (suc a) b h h' = elim h' [ ]

  by_digits-suc :
      (a b : ℕ)
      → by_digits (suc a) (suc a) b
        ≡ by_digits (suc a / 2) (suc a / 2) (b / 2) * 2 + combine (suc a % 2) (b % 2)
  by_digits-suc a b =
      ap (λ t. t * 2 + combine (suc a % 2) (b % 2))
        (same_digits a (suc a / 2) (suc a / 2) (b / 2) (omega arith) (omega arith))

pub bit_and_step : (a b : ℕ) → bit_and a b ≡ bit_and (a / 2) (b / 2) * 2 + min (a % 2) (b % 2)
bit_and_step zero b = omega (arith, bit_and-bitwise 0 b, bit_and-bitwise 0 (b / 2))
bit_and_step (suc a) b = omega (
  arith,
  bit_and-bitwise (suc a) b,
  bit_and-bitwise (suc a / 2) (b / 2),
  by_digits-suc (λ _. 0) min a b,
)

pub bit_or_step : (a b : ℕ) → bit_or a b ≡ bit_or (a / 2) (b / 2) * 2 + max (a % 2) (b % 2)
bit_or_step zero b = omega (arith, bit_or-bitwise 0 b, bit_or-bitwise 0 (b / 2))
bit_or_step (suc a) b = omega (
  arith,
  bit_or-bitwise (suc a) b,
  bit_or-bitwise (suc a / 2) (b / 2),
  by_digits-suc (λ t. t) max a b,
)
