-- ===== src/ConcurrentVector/Overrun.antt =====
-- src/concurrent/vector.h: `for_each` on a range that does not leave its first shard.
use wizard.Prelude.{
  ℕ, zero, suc, ◌+◌, ◌<◌, ◌≡◌, ◌≢◌, refl, inl, inr, Bool-cases, none, arith, ==_ne, ltb,
}
use wizard.ConcurrentVector.{Meta, get_shard_id, middle, for_each}

middle_over :
    (m : Meta) (shard_num end_shard rounds shard : ℕ)
    → end_shard < shard
    → middle m shard_num end_shard rounds shard ≡ none
unfolding middle
middle_over m shard_num end_shard zero shard past = refl
middle_over m shard_num end_shard (suc rounds) shard past =
    let e : shard ≢ end_shard = omega arith in
    let rest = middle_over m shard_num end_shard rounds (shard + 1) (omega arith) in
    elim (Bool-cases (ltb shard shard_num)) [
      | inl t ↦ rw (==_ne e, t, rest) refl
      | inr f ↦ rw (==_ne e, f) refl
    ]

-- When the start and the end lie in one shard, `for_each` never meets the shard at which its loop
-- stops, and leaves the table, however many shards the table has.
pub for_each-none :
    (m : Meta) (shard_num start end : ℕ)
    → get_shard_id m start ≡ get_shard_id m end
    → for_each m shard_num start end ≡ none
unfolding for_each
for_each-none m shard_num start end same =
    let over =
      middle_over m shard_num (get_shard_id m end) (shard_num + 1) (get_shard_id m start + 1)
        (omega arith) in
    elim (Bool-cases (ltb (get_shard_id m start) shard_num)) [
      | inl t ↦ rw (t, over) refl
      | inr f ↦ rw f refl
    ]
