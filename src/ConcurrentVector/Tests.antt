-- ===== src/ConcurrentVector/Tests.antt =====
-- Runs of `for_each` of src/concurrent/vector.h on shards of four elements.
use wizard.Prelude.{ℕ, ◌≤◌, length, get_elem?, some, ◌≡◌, refl, none, [], ◌∷◌, arith}
use wizard.ConcurrentVector.{Meta, get_shard_id, for_each}
use wizard.ConcurrentVector.Overrun.{for_each-none}
use wizard.ConcurrentVector.Table.{ensure_table, compare_exchange, current, returned, exec, initial}
use wizard.ConcurrentVector.Table.Growth.{ensure_table-enough}
use wizard.ConcurrentVector.Table.Lost.{two_calls, ensure_table-lost}

abbrev fours : Meta
fours = record { num_per_shard = 4; shard_bit = 2 }

for_each-none_example : for_each fours 3 1 3 ≡ none
unfolding get_shard_id
for_each-none_example = for_each-none fours 3 1 3 refl

ensure_table-enough_example :
    ((i n t : ℕ)
      → get_elem? (exec (initial 1) (ensure_table 0 2 ∷ compare_exchange 0 ∷ [])).calls i
        ≡ some (returned n t)
      → n
        ≤ length ((exec (initial 1) (ensure_table 0 2 ∷ compare_exchange 0 ∷ [])).vector.tables t))
    × (length (current (exec (initial 1) (ensure_table 0 2 ∷ compare_exchange 0 ∷ [])).vector)
        ≤ length (
            current
              (exec
                (exec (initial 1) (ensure_table 0 2 ∷ compare_exchange 0 ∷ []))
                (ensure_table 0 3 ∷ [])).vector))
ensure_table-enough_example =
    ensure_table-enough 1 (ensure_table 0 2 ∷ compare_exchange 0 ∷ []) (ensure_table 0 3 ∷ [])

ensure_table-lost_example :
    ((two_calls 1 2).calls ≡ returned 2 2 ∷ returned 1 1 ∷ [])
    × ((two_calls 1 2).vector.table ≡ 2)
    × (get_elem? ((two_calls 1 2).vector.tables 1) 0 ≡ some 0)
    × (get_elem? ((two_calls 1 2).vector.tables 2) 0 ≡ some 3)
ensure_table-lost_example = ensure_table-lost 1 2 (omega arith) (omega arith)
