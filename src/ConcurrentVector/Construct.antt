-- ===== src/ConcurrentVector/Construct.antt =====
-- The constructor of `ConcurrentVector`, src/concurrent/vector.hpp. `folly::nextPowTwo` is not
-- part of the repository's sources: it is the parameter `next_pow_two`.
use wizard.Prelude.{ℕ, ◌-◌, ◌^◌, ◌≤◌, ◌≡◌, ap, sym, ◌∙◌}
use wizard.PowTwo.{popcount}
use wizard.PowTwo.Laws.{popcount-mask}
use wizard.ConcurrentVector.{Meta}
use wizard.ConcurrentVector.Covers.{IsMeta}

unfoldable pub make_meta : (ℕ → ℕ) → ℕ → Meta
make_meta next_pow_two num_per_shard = record {
  num_per_shard = next_pow_two num_per_shard;
  shard_bit = popcount (next_pow_two num_per_shard - 1);
}

-- When `nextPowTwo` returns a power of two up to 2^32, the constructor sets up the shard
-- arithmetic.
pub make_meta-IsMeta :
    (next_pow_two : ℕ → ℕ) (num_per_shard : ℕ)
    → (k : ℕ) × (k ≤ 32) × (next_pow_two num_per_shard ≡ 2 ^ k)
    → IsMeta (make_meta next_pow_two num_per_shard)
unfolding make_meta
make_meta-IsMeta next_pow_two n (k, small, e) = record {
  power = e ∙ ap (λ b. 2 ^ b) (sym (ap (λ x. popcount (x - 1)) e ∙ popcount-mask k small));
}
