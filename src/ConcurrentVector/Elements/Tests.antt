-- ===== src/ConcurrentVector/Elements/Tests.antt =====
-- src/concurrent/vector.h: a new vector with four elements in each shard.
use wizard.Prelude.{ℕ, ◌+◌, ◌≤◌, ◌<◌, ◌≡◌, ◌⊎◌, refl, some, List, [], ◌∷◌, arith, length, get_elem?}
use wizard.ConcurrentVector.{Meta, get_shard_id}
use wizard.ConcurrentVector.Covers.{IsMeta}
use wizard.ConcurrentVector.Table.{Vector, current}
use wizard.ConcurrentVector.Elements.{at_index, copy_n, fill_n}
use wizard.ConcurrentVector.Elements.Whole.{Sound, copy_n-at_index}
use wizard.ConcurrentVector.Elements.Fill.{fill_n-copy_n}

abbrev fours : Meta
fours = record { num_per_shard = 4; shard_bit = 2 }

fours-IsMeta : IsMeta fours
fours-IsMeta = record { power = refl }

abbrev fresh : Vector
fresh = record { tables = λ t. []; table = 0; next_table = 1; next_shard = 0; retired = [] }

fresh-Sound : Sound fresh
unfolding current
fresh-Sound = record { different = tt; old = tt }

abbrev zeros : ℕ → ℕ → ℕ
zeros shard offset = 0

abbrev input : List ℕ
input = 11 ∷ 12 ∷ 13 ∷ 14 ∷ 15 ∷ 16 ∷ []

copy_n-at_index_example :
    (grown : Vector) × (after : ℕ → ℕ → ℕ) × (copy_n fours fresh zeros input 6 3
      ≡ some (grown, after))
    × ((k : ℕ) → k < 6 → at_index fours (current grown) after (3 + k) ≡ get_elem? input k)
    × ((i : ℕ)
        → (i < 3) ⊎ (3 + 6 ≤ i)
        → get_shard_id fours i < length (current fresh)
        → at_index fours (current grown) after i ≡ at_index fours (current fresh) zeros i)
unfolding get_shard_id
copy_n-at_index_example =
    copy_n-at_index fours fours-IsMeta fresh fresh-Sound zeros input 3 (omega arith)

fill_n-copy_n_example :
    fill_n fours fresh zeros 3 6 7 ≡ copy_n fours fresh zeros (7 ∷ 7 ∷ 7 ∷ 7 ∷ 7 ∷ 7 ∷ []) 6 3
unfolding get_shard_id
fill_n-copy_n_example = fill_n-copy_n fours fresh zeros 3 6 7 fours-IsMeta fresh-Sound (omega arith)
