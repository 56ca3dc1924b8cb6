-- ===== src/PowTwo/Laws.antt =====
-- `next_pow_two` is the least power of two that is not below its argument.
use Prim.Native.Nat.{bit_xor}
use native.Mathlib.Nat.{pow-suc, pow-le-pow_right}
use wizard.Prelude.{
  ℕ, zero, suc, ◌+◌, ◌-◌, ◌*◌, ◌/◌, ◌%◌, ◌^◌, ◌<◌, ◌≤◌, ◌≡◌, ◌≢◌, ◌&&◌, Bool, true, refl, ap, arith,
  ◌==◌, if◌then◌else◌, ==_iff, dec_lt, ℕ_discrete,
}
use wizard.Prelude.Bits.{pow-pos}
use wizard.PowTwo.{bit_length, clzl, ones, popcount, find_last_set, next_pow_two}

-- A word with `n` digits lies between the powers `n - 1` and `n` of two.
bit_length_lem :
    (fuel x : ℕ)
    → x < 2 ^ fuel
    → (bit_length fuel x ≤ fuel)
      × (x < 2 ^ bit_length fuel x)
      × (2 ^ bit_length fuel x ≤ 2 * x + (if x == 0 then 1 else 0))
unfolding bit_length
bit_length_lem zero x h = ground arith
bit_length_lem (suc fuel) x h = ground (
  arith,
  pow-suc 2 fuel,
  pow-suc 2 (bit_length fuel (x / 2)),
  bit_length_lem fuel (x / 2) (omega (arith, pow-suc 2 fuel)),
)

-- To check a property of all small numbers by evaluation.
all_below : ℕ → (ℕ → Bool) → Bool
all_below zero p = true
all_below (suc n) p = p n && all_below n p

all_below_lem : (n : ℕ) (p : ℕ → Bool) (x : ℕ) → all_below n p ≡ true → x < n → p x ≡ true
unfolding all_below
all_below_lem zero p x h lt = absurd (omega arith)
all_below_lem (suc n) p x h lt = ground (arith, all_below_lem n p x)

-- `63 ^ clzl(x)` is a difference, since `clzl` is below 64.
xor_table : all_below 64 (λ c. bit_xor 63 c == 63 - c) ≡ true
unfolding all_below
xor_table = refl

find_last_set_lem :
    (x : ℕ) → x < 2 ^ 64 → (x < 2 ^ find_last_set x) × (x ≢ 0 → 2 ^ find_last_set x ≤ 2 * x)
unfolding find_last_set clzl
find_last_set_lem x h = ground (
  arith,
  bit_length_lem 64 x h,
  (==_iff (bit_xor 63 (64 - bit_length 64 x)) (63 - (64 - bit_length 64 x))).0,
  all_below_lem 64 (λ (c : ℕ). bit_xor 63 c == 63 - c) (64 - bit_length 64 x) xor_table,
)

pub pow_lt_cancel : (m n : ℕ) → 2 ^ m < 2 ^ n → m < n
pow_lt_cancel m n h = elim (dec_lt m n) [
  | yes p ↦ p
  | no p ↦
      absurd (omega (arith, pow-le-pow_right {n = 2} (omega arith) {i = n} {j = m} (omega arith)))
]

find_last_set-zero : find_last_set 0 ≡ 0
unfolding find_last_set
find_last_set-zero = refl

pow-lt-pow : (m n : ℕ) → m < n → 2 ^ m < 2 ^ n
pow-lt-pow m n h =
    omega
      (arith, pow-suc 2 m, pow-pos m, pow-le-pow_right {n = 2} (omega arith) {i = suc m} {j = n} h)

exponent_small : (x : ℕ) → x < 2 ^ 63 → find_last_set x < 64
exponent_small x h = elim (ℕ_discrete x 0) [
  | yes zero_word ↦ rw (zero_word, find_last_set-zero) (omega arith)
  | no ne ↦
      let bounds = find_last_set_lem x (omega arith) in
      pow_lt_cancel (find_last_set x) 64 (omega (arith, bounds.1 ne))
]

-- The shift of `nextPowTwo` stays in the range where C++ defines it.
pub next_pow_two_exponent :
    (v : ℕ)
    → 0 < v
    → v ≤ 2 ^ 63
    → (find_last_set (v - 1) < 64) × (next_pow_two v ≡ 2 ^ find_last_set (v - 1))
unfolding next_pow_two
next_pow_two_exponent v pos small =
    let low = exponent_small (v - 1) (omega arith) in
    (low, ground (arith, pow-lt-pow (find_last_set (v - 1)) 64 low))

-- `nextPowTwo` returns a power of two below 2^64 that is at least its argument and less than twice
-- the argument, for each argument from 1 to 2^63.
pub next_pow_two_lem :
    (v : ℕ)
    → 0 < v
    → v ≤ 2 ^ 63
    → (k : ℕ) × (k < 64)
      × (next_pow_two v ≡ 2 ^ k)
      × (v ≤ next_pow_two v)
      × (next_pow_two v < 2 * v)
next_pow_two_lem v pos small =
    let e = next_pow_two_exponent v pos small in
    let bounds = find_last_set_lem (v - 1) (omega arith) in
    (
      find_last_set (v - 1),
      e.0,
      e.1,
      omega (arith, e.1, bounds.0),
      elim (ℕ_discrete v 1) [
        | yes one ↦ rw (e.1, one, find_last_set-zero) (omega arith)
        | no ne ↦ omega (arith, e.1, bounds.1 (omega arith))
      ],
    )

ones_mask : (fuel k : ℕ) → k ≤ fuel → ones fuel (2 ^ k - 1) ≡ k
unfolding ones
ones_mask zero zero h = refl
ones_mask zero (suc k) h = elim h [ ]
ones_mask (suc fuel) zero h = omega (arith, ones_mask fuel 0 (omega arith))
ones_mask (suc fuel) (suc k) h =
    let half : (2 ^ suc k - 1) / 2 ≡ 2 ^ k - 1 = omega (arith, pow-suc 2 k, pow-pos k) in
    omega (arith, pow-suc 2 k, pow-pos k, ones_mask fuel k (omega arith), ap (ones fuel) half)

-- `__builtin_popcount(2^k - 1)` is `k` up to the 32 bits of its argument.
pub popcount-mask : (k : ℕ) → k ≤ 32 → popcount (2 ^ k - 1) ≡ k
unfolding popcount
popcount-mask k h =
    let fits : (2 ^ k - 1) % 2 ^ 32 ≡ 2 ^ k - 1 =
      omega (arith, pow-pos k, pow-le-pow_right {n = 2} (omega arith) {i = k} {j = 32} h) in
    rw fits (ones_mask 32 k h)
