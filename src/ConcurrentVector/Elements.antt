-- ===== src/ConcurrentVector/Elements.antt =====
-- `operator[]`, `fill_n` and `copy_n` of `ConcurrentVector` and its `Snapshot`, `reserve` and
-- `ensure` of src/concurrent/vector.h, called while no other thread grows the vector.
--
-- A shard is a number, and the elements stand at a shard and an offset. `none` is an access
-- behind the table, or to more of the input than there is.
pub mod Overlay
pub mod Written
pub mod Whole
pub mod Fill
mod Tests
use wizard.Prelude.{
  ℕ, zero, suc, ◌+◌, ◌-◌, ◌%◌, ◌^◌, Bool, true, false, Option, none, some, List, [], ◌∷◌, ◌==◌,
  if◌then◌else◌, ◌>>=◌, length, get_elem?,
}
use wizard.Prelude.Functions.{assign_at}
use wizard.ConcurrentVector.{Meta, Range, get_shard_id, get_shard_offset, for_each}
use wizard.ConcurrentVector.Table.{Vector, Call, current, load_table, round_of}

-- `size - 1` is of type `size_t`.
unfoldable pub require_shard_num : Meta → ℕ → ℕ
require_shard_num m size = get_shard_id m ((size + (2 ^ 64 - 1)) % 2 ^ 64) + 1

-- `ensure_table`, with no other call under way.
unfoldable pub ensure_alone : Vector → ℕ → Vector
ensure_alone v shard_num = (round_of v (load_table v shard_num)).0

unfoldable pub reserve : Meta → Vector → ℕ → Vector
reserve m v size = ensure_alone v (require_shard_num m size)

module _ {ℓ} {T : Type ℓ} where
  -- `operator[]` of a snapshot, as a read.
  unfoldable pub at_index : Meta → List ℕ → (ℕ → ℕ → T) → ℕ → Option T
  at_index m table elements index =
      get_elem? table (get_shard_id m index)
      >>= (λ shard. some (elements shard (get_shard_offset m index)))

  -- `ensure`, and a write through the reference that it returns.
  unfoldable pub ensure : Meta → Vector → (ℕ → ℕ → T) → ℕ → T → Option (Vector × (ℕ → ℕ → T))
  ensure m v elements index value =
      let grown = ensure_alone v (get_shard_id m index + 1) in
      get_elem? (current grown) (get_shard_id m index) >>= (λ shard. some (
        grown,
        assign_at elements shard (assign_at (elements shard) (get_shard_offset m index) value),
      ))

  -- `std::copy_n(iter, k, begin)`, with what the input has left.
  unfoldable pub copy_range : (ℕ → ℕ → T) → ℕ → ℕ → ℕ → List T → Option ((ℕ → ℕ → T) × List T)
  copy_range elements shard offset zero iter = some (elements, iter)
  copy_range elements shard offset (suc k) [] = none
  copy_range elements shard offset (suc k) (x ∷ iter) =
      copy_range (assign_at elements shard (assign_at (elements shard) offset x)) shard (offset + 1)
        k iter

  unfoldable pub copy_ranges :
      List ℕ → List Range → (ℕ → ℕ → T) → List T → Option ((ℕ → ℕ → T) × List T)
  copy_ranges table [] elements iter = some (elements, iter)
  copy_ranges table (r ∷ ranges) elements iter = get_elem? table r.shard >>= (λ shard.
      copy_range elements shard r.from (r.to - r.from) iter
      >>= (λ done. copy_ranges table ranges (done.0) (done.1)))

  -- `copy_n` of a snapshot.
  unfoldable pub snapshot_copy_n : Meta → List ℕ → (ℕ → ℕ → T) → List T → ℕ → ℕ → Option (ℕ → ℕ → T)
  snapshot_copy_n m table elements iter count start_index =
      for_each m (length table) start_index (start_index + count)
      >>= (λ ranges. copy_ranges table ranges elements iter >>= (λ done. some (done.0)))

  -- `copy_n` of the vector.
  unfoldable pub copy_n :
      Meta → Vector → (ℕ → ℕ → T) → List T → ℕ → ℕ → Option (Vector × (ℕ → ℕ → T))
  copy_n m v elements iter count start_index =
      let grown = ensure_alone v (start_index + count) in
      snapshot_copy_n m (current grown) elements iter count start_index
      >>= (λ written. some (grown, written))

  -- `std::fill(iter, end, value)`
  unfoldable pub fill_range : (ℕ → ℕ → T) → ℕ → ℕ → ℕ → T → ℕ → ℕ → T
  fill_range elements shard offset zero value = elements
  fill_range elements shard offset (suc k) value =
      fill_range (assign_at elements shard (assign_at (elements shard) offset value)) shard
        (offset + 1) k value

  unfoldable pub fill_ranges : List ℕ → List Range → (ℕ → ℕ → T) → T → Option (ℕ → ℕ → T)
  fill_ranges table [] elements value = some elements
  fill_ranges table (r ∷ ranges) elements value = get_elem? table r.shard >>= (λ shard.
      fill_ranges table ranges (fill_range elements shard r.from (r.to - r.from) value) value)

  -- `fill_n` of a snapshot.
  unfoldable pub snapshot_fill_n : Meta → List ℕ → (ℕ → ℕ → T) → ℕ → ℕ → T → Option (ℕ → ℕ → T)
  snapshot_fill_n m table elements start_index count value =
      for_each m (length table) start_index (start_index + count)
      >>= (λ ranges. fill_ranges table ranges elements value)

  -- `fill_n` of the vector.
  unfoldable pub fill_n : Meta → Vector → (ℕ → ℕ → T) → ℕ → ℕ → T → Option (Vector × (ℕ → ℕ → T))
  fill_n m v elements start_index count value =
      let grown = ensure_alone v (start_index + count) in
      snapshot_fill_n m (current grown) elements start_index count value
      >>= (λ written. some (grown, written))
