-- ===== src/ConcurrentVector/Table/Lost.antt =====
-- `ConcurrentVector::ensure_table` of src/concurrent/vector.h: a call whose compare-exchange
-- has failed replaces shards that another call has published.
use wizard.Prelude.{
  ℕ, zero, suc, ◌+◌, ◌-◌, ◌≤◌, ◌<◌, ◌≡◌, refl, ◌∙◌, ap, false, some, List, [], ◌∷◌, ◌++◌, arith,
  ltb, leb, length, get_elem?, take, ◌≢◌, ==_eq, ==_ne,
}
use wizard.Prelude.Functions.{assign_at, assign_at_self}
use wizard.ConcurrentVector.Table.{
  Vector, Call, growing, returned, ensure_table, compare_exchange, System, current, create_shards,
  fill_table, load_table, publish_table, round_of, step, exec, initial,
}
use wizard.ConcurrentVector.Table.Growth.{length-fill_table}

get_elem?-create_shards : (k next : ℕ) → 0 < k → get_elem? (create_shards k next) 0 ≡ some next
unfolding create_shards
get_elem?-create_shards zero next p = absurd (omega arith)
get_elem?-create_shards (suc k) next p = refl

take_all : (xs : List ℕ) → take (length xs) xs ≡ xs
take_all [] = refl
take_all (x ∷ xs) = ap (λ l. x ∷ l) (take_all xs)

load_long :
    (v : Vector) (n : ℕ)
    → length (current v) < n
    → load_table v n ≡ growing v.table (length (current v)) n
unfolding load_table
load_long v n p = let long : leb n (length (current v)) ≡ false = ground arith in rw long refl

round_wins :
    (v : Vector) (old a b : ℕ)
    → v.table ≡ old
    → round_of v (growing old a b) ≡ (publish_table v old a b, returned b v.next_table)
unfolding round_of
round_wins v old a b here = rw (==_eq here) refl

round_loses :
    (v : Vector) (old a b : ℕ)
    → v.table ≢ old
    → length (current v) ≤ b
    → round_of v (growing old a b)
      ≡ (record v { next_shard = v.next_shard + (b - a) }, growing v.table a b)
unfolding round_of
round_loses v old a b other p =
    let short : ltb b (length (current v)) ≡ false = ground arith in rw (==_ne other, short) refl

-- A call of `ensure_table` that asks for more shards than there are and that nobody disturbs
-- returns a new table, with the shards that are there, in their places, and new ones behind.
pub ensure_table-alone :
    (v : Vector) (shard_num : ℕ)
    → length (current v) < shard_num
    → ((round_of v (load_table v shard_num)).1 ≡ returned shard_num v.next_table)
      × (current ((round_of v (load_table v shard_num)).0)
          ≡ current v ++ create_shards (shard_num - length (current v)) v.next_shard)
unfolding current publish_table fill_table
ensure_table-alone v n p =
    let old = current v in
    let both = ap (round_of v) (load_long v n p) ∙ round_wins v v.table (length old) n refl in
    let made = create_shards (n - length old) v.next_shard in
    (
      ap (λ (r : Vector × Call). r.1) both,
      ap (λ (r : Vector × Call). current (r.0)) both
          ∙ assign_at_self v.tables v.next_table (take (length old) old ++ made)
          ∙ ap (λ l. l ++ made) (take_all old),
    )

abbrev pub two_calls : ℕ → ℕ → System
two_calls a b = exec (initial 2) (
    ensure_table 0 b
    ∷ ensure_table 1 a
    ∷ compare_exchange 1
    ∷ compare_exchange 0
    ∷ compare_exchange 0
    ∷ [])

module _ (a b : ℕ) (positive : 0 < a) (less : a ≤ b) where
  abbrev v0 : Vector
  v0 = record { tables = λ t. []; table = 0; next_table = 1; next_shard = 0; retired = [] }

  abbrev v1 : Vector
  v1 = publish_table v0 0 0 a

  abbrev v2 : Vector
  v2 = record v1 { next_shard = v1.next_shard + (b - 0) }

  abbrev v3 : Vector
  v3 = publish_table v2 1 0 b

  loaded :
      step (step (initial 2) (ensure_table 0 b)) (ensure_table 1 a)
      ≡ record { vector = v0; calls = growing 0 0 b ∷ growing 0 0 a ∷ [] }
  unfolding step initial current
  loaded = rw (load_long v0 b (omega arith), load_long v0 a positive) refl

  first_wins :
      step (record { vector = v0; calls = growing 0 0 b ∷ growing 0 0 a ∷ [] }) (compare_exchange 1)
      ≡ record { vector = v1; calls = growing 0 0 b ∷ returned a 1 ∷ [] }
  unfolding step
  first_wins = rw (round_wins v0 0 0 a refl) refl

  second_loses :
      step (record { vector = v1; calls = growing 0 0 b ∷ returned a 1 ∷ [] }) (compare_exchange 0)
      ≡ record { vector = v2; calls = growing 1 0 b ∷ returned a 1 ∷ [] }
  unfolding step publish_table current assign_at
  second_loses =
      let long = length-fill_table [] 0 a 0 (omega arith) (omega arith) in
      rw (round_loses v1 0 0 b (λ e. absurd (omega (arith, e))) (omega (arith, long, less))) refl

  second_wins :
      step (record { vector = v2; calls = growing 1 0 b ∷ returned a 1 ∷ [] }) (compare_exchange 0)
      ≡ record { vector = v3; calls = returned b 2 ∷ returned a 1 ∷ [] }
  unfolding step publish_table
  second_wins = rw (round_wins v2 1 0 b refl) refl

  -- Two calls on a new vector, for b shards and for a, at least one and at most b. When the
  -- second call publishes its table between the first one's load and its compare-exchange, both
  -- return, but the first one's table, which is then the current one, has another shard in the
  -- place of the second one's first shard, so an element stored there is lost.
  pub ensure_table-lost :
      ((two_calls a b).calls ≡ returned b 2 ∷ returned a 1 ∷ [])
      × ((two_calls a b).vector.table ≡ 2)
      × (get_elem? ((two_calls a b).vector.tables 1) 0 ≡ some 0)
      × (get_elem? ((two_calls a b).vector.tables 2) 0 ≡ some (a + b))
  unfolding exec publish_table fill_table assign_at
  ensure_table-lost =
      let last =
        ap
          (λ s. step (step (step s (compare_exchange 1)) (compare_exchange 0)) (compare_exchange 0))
          loaded
        ∙ ap (λ s. step (step s (compare_exchange 0)) (compare_exchange 0)) first_wins
        ∙ ap (λ s. step s (compare_exchange 0)) second_loses
        ∙ second_wins in
      let next : v2.next_shard ≡ a + b = omega arith in
      (
        ap (λ (s : System). s.calls) last,
        ap (λ (s : System). s.vector.table) last,
        ap (λ (s : System). get_elem? (s.vector.tables 1) 0) last
            ∙ get_elem?-create_shards (a - 0) 0 (omega arith),
        ap (λ (s : System). get_elem? (s.vector.tables 2) 0) last
            ∙ get_elem?-create_shards (b - 0) v2.next_shard (omega arith)
            ∙ ap some next,
      )
