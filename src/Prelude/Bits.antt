-- ===== src/Prelude/Bits.antt =====
-- `&` with a mask of low ones, `|` of disjoint fields, and the shifts, as arithmetic at every
-- width.
mod Step
use Step.{bit_and_step, bit_or_step}
use Prim.Native.Nat.{bit_and, bit_or}
use mathlib.Core.WellFounded
use native.Mathlib.Nat.{pow-suc, one-le-pow}
use wizard.Prelude.{ℕ, zero, suc, ◌+◌, ◌-◌, ◌*◌, ◌/◌, ◌%◌, ◌^◌, ◌<◌, ◌≤◌, ◌≡◌, refl, ap, arith}
use wizard.Prelude.Order.{lt_wf}

pub pow-pos : (k : ℕ) → 0 < 2 ^ k
pow-pos k = omega (arith, one-le-pow k 2)

and-zero : (a : ℕ) → bit_and a 0 ≡ 0
and-zero a = WellFounded.induction lt_wf {C = λ n. bit_and n 0 ≡ 0} a halve
  where
    halve : (n : ℕ) → ((m : ℕ) → m < n → bit_and m 0 ≡ 0) → bit_and n 0 ≡ 0
    halve zero below = refl
    halve (suc n) below = omega (arith, bit_and_step (suc n) 0, below (suc n / 2) (omega arith))

or-zero : (a : ℕ) → bit_or a 0 ≡ a
or-zero a = WellFounded.induction lt_wf {C = λ n. bit_or n 0 ≡ n} a halve
  where
    halve : (n : ℕ) → ((m : ℕ) → m < n → bit_or m 0 ≡ m) → bit_or n 0 ≡ n
    halve zero below = refl
    halve (suc n) below = omega (arith, bit_or_step (suc n) 0, below (suc n / 2) (omega arith))

-- One more bit: the quotient by two and the last bit.
double-pow : (q k : ℕ) → q * 2 ^ suc k ≡ 2 * (q * 2 ^ k)
double-pow q k = omega (arith, ap (λ (t : ℕ). q * t) (pow-suc 2 k))

and-mask_split : (k q r : ℕ) → r < 2 ^ k → bit_and (q * 2 ^ k + r) (2 ^ k - 1) ≡ r
and-mask_split zero q r small = ground (arith, and-zero (q * 2 ^ 0 + r))
and-mask_split (suc k) q r small = ground (
  arith,
  bit_and_step (q * 2 ^ suc k + r) (2 ^ suc k - 1),
  double-pow q k,
  pow-suc 2 k,
  pow-pos k,
  and-mask_split k q (r / 2) (omega (arith, pow-suc 2 k)),
)

-- `a & (2 ^ k - 1)` is the remainder by `2 ^ k`.
pub and-mask : (k a : ℕ) → bit_and a (2 ^ k - 1) ≡ a % 2 ^ k
and-mask k a = ground (arith, pow-pos k, and-mask_split k (a / 2 ^ k) (a % 2 ^ k))

-- `(q << k) | r` is a sum when `r` has at most `k` bits.
pub or-fields : (k q r : ℕ) → r < 2 ^ k → bit_or (q * 2 ^ k) r ≡ q * 2 ^ k + r
or-fields zero q r small = ground (arith, or-zero (q * 2 ^ 0))
or-fields (suc k) q r small = ground (
  arith,
  bit_or_step (q * 2 ^ suc k) r,
  double-pow q k,
  pow-suc 2 k,
  or-fields k q (r / 2) (omega (arith, pow-suc 2 k)),
)
