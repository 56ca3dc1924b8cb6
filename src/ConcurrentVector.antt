-- ===== src/ConcurrentVector.antt =====
-- `ConcurrentVector::Meta` and `Snapshot::for_each` of src/concurrent/vector.h.
--
-- `num_per_shard` is 2 to the power `shard_bit`, as the constructor sets them. A call of the
-- callback is its shard and the offsets of its two pointers. `none` is an access to the table
-- behind its last shard. Indices are below 2^64.
pub mod Covers
pub mod Overrun
pub mod Table
pub mod Elements
pub mod RetireList
pub mod Construct
mod Tests
use Prim.Native.Nat.{bit_and}
use wizard.Prelude.{
  ℕ, zero, suc, ◌+◌, ◌-◌, ◌/◌, ◌%◌, ◌^◌, Bool, ◌&&◌, Option, none, some, List, [], ◌∷◌, ◌++◌, ◌==◌,
  ltb, if◌then◌else◌, ◌>>=◌,
}

pub record Meta : Type 0 where
  pub num_per_shard : ℕ
  pub shard_bit : ℕ

-- `index >> shard_bit`
unfoldable pub get_shard_id : Meta → ℕ → ℕ
get_shard_id m index = index / 2 ^ m.shard_bit

-- `index & (num_per_shard - 1)`
unfoldable pub get_shard_offset : Meta → ℕ → ℕ
get_shard_offset m index = bit_and index (m.num_per_shard - 1)

-- One call of the callback.
pub record Range : Type 0 where
  pub shard : ℕ
  pub from : ℕ
  pub to : ℕ

-- The loop over the shards between the first and the last, in at most `rounds` rounds.
unfoldable pub middle : Meta → ℕ → ℕ → ℕ → ℕ → Option (List Range)
middle m shard_num end_shard_id zero shard_id = none
middle m shard_num end_shard_id (suc rounds) shard_id =
    let rest = middle m shard_num end_shard_id rounds (shard_id + 1) in
    if shard_id == end_shard_id
    then some []
    else if ltb shard_id shard_num
    then (rest
        >>= (λ ranges. some (record { shard = shard_id; from = 0; to = m.num_per_shard } ∷ ranges)))
    else none

-- The last call, for the part of the last shard.
unfoldable pub last_part : ℕ → ℕ → ℕ → ℕ → Option (List Range)
last_part shard_num start_shard_id end_shard_id end_offset =
    if ltb start_shard_id end_shard_id && ltb 0 end_offset
    then (if ltb end_shard_id shard_num
        then some (record { shard = end_shard_id; from = 0; to = end_offset } ∷ [])
        else none)
    else some []

unfoldable pub for_each : Meta → ℕ → ℕ → ℕ → Option (List Range)
unfolding get_shard_id get_shard_offset
for_each m shard_num start_index end_index =
    let start_shard_id = get_shard_id m start_index in
    let end_shard_id = get_shard_id m end_index in
    if ltb start_shard_id shard_num
    then (middle m shard_num end_shard_id (shard_num + 1) (start_shard_id + 1) >>= (λ between.
        last_part shard_num start_shard_id end_shard_id (get_shard_offset m end_index) >>= (λ last.
          some (
            record {
              shard = start_shard_id;
              from = get_shard_offset m start_index;
              to = m.num_per_shard;
            }
              ∷ between
            ++ last))))
    else none
