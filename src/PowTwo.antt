-- ===== src/PowTwo.antt =====
-- `findLastSet` and `nextPowTwo` of src/concurrent/concurrent_bounded_queue.h (copied unchanged in
-- src/concurrent/concurrent_hashmap_detail.h), with the compiler builtins that they call: `clzl` is
-- `__builtin_clzl` and `popcount` is `__builtin_popcount`. `size_t` has 64 bits.
-- Each loop of 64 or 32 rounds makes one round for each binary digit of the word.
pub mod Laws
mod Tests
use Prim.Native.Nat.{bit_xor}
use wizard.Prelude.{ℕ, zero, suc, ◌+◌, ◌-◌, ◌*◌, ◌/◌, ◌%◌, ◌^◌, ◌==◌, if◌then◌else◌}

-- How many binary digits a word has, in at most `fuel` rounds.
unfoldable pub bit_length : ℕ → ℕ → ℕ
bit_length zero x = 0
bit_length (suc fuel) x = if x == 0 then 0 else (bit_length fuel (x / 2) + 1)

-- `__builtin_clzl`, the number of leading zeros of a 64-bit word.
unfoldable pub clzl : ℕ → ℕ
clzl x = 64 - bit_length 64 x

-- The number of ones, in at most `fuel` rounds.
unfoldable pub ones : ℕ → ℕ → ℕ
ones zero x = 0
ones (suc fuel) x = x % 2 + ones fuel (x / 2)

-- `__builtin_popcount`, whose argument is a 32-bit `unsigned int`.
unfoldable pub popcount : ℕ → ℕ
popcount x = ones 32 (x % 2 ^ 32)

unfoldable pub find_last_set : ℕ → ℕ
find_last_set x = if x == 0 then 0 else (bit_xor (8 * 8 - 1) (clzl x) + 1)

-- `T(1) << n` keeps 64 bits. At `n = 64` the C++ expression is undefined; the laws keep `n` below.
unfoldable pub next_pow_two : ℕ → ℕ
next_pow_two v = if v == 0 then 1 else (2 ^ find_last_set (v - 1) % 2 ^ 64)
