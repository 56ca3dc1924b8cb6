-- ===== src/FeatureTable/Tests.antt =====
-- Runs of src/feature_table.cpp on a table with two columns and three rows.
use wizard.Prelude.{
  get_or, ap, ℕ, zero, suc, ◌≡◌, refl, none, some, List, [], ◌∷◌, arith, ◌==◌, ltb, if◌then◌else◌,
  get_elem?, inl,
}
use wizard.Prelude.Int.{pos, negsuc}
use wizard.FeatureTable.{
  IdxList, DataVector, Heap, FeatureTable, is_above, add_idx, put_items, get_vector, push_back,
  read_row, same_name, find_name, ensure_column_id, get_column_id, get_column, filter, remove_row,
}
use wizard.FeatureTable.Rounds.{matches}
use wizard.FeatureTable.Filter.{IsWithin, HasRows}
use wizard.FeatureTable.Filtered.{IsSpread, IsClear, IsColumn, filter-keep, filter-misses}
use wizard.FeatureTable.Rows.{read_row-remove_row, push_back-Awaits}
use wizard.FeatureTable.{remove_functor}
use wizard.FeatureTable.Removal.{remove_functor-every_other}
use wizard.FeatureTable.Names.{IsNamed, ensure_column_id-IsNamed}

-- Two columns of one type, with the names "a" and "b".
abbrev uids : DataVector ℕ
uids = record { values = 11 ∷ 22 ∷ 33 ∷ []; idx = 0 }

abbrev clicks : DataVector ℕ
clicks = record { values = 7 ∷ 8 ∷ 1 ∷ []; idx = 0 }

abbrev three_rows : IdxList
three_rows = record { list = 0 ∷ 1 ∷ 2 ∷ []; max_idx = pos 2 }

abbrev heap : Heap ℕ
heap = record {
  idx_lists = three_rows ∷ [];
  items = λ type. if type == 0 then some uids ∷ some clicks ∷ [] else [];
}

abbrev table : FeatureTable
table = record {
  columns = some 0 ∷ some 1 ∷ [];
  idx = 0;
  name_to_idx = (98 ∷ [], 1) ∷ (97 ∷ [], 0) ∷ [];
}

IsWithin-three : IsWithin 3 (0 ∷ 1 ∷ 2 ∷ [])
IsWithin-three zero p = omega arith
IsWithin-three (suc zero) p = omega arith
IsWithin-three (suc (suc zero)) p = omega arith
IsWithin-three (suc (suc (suc k))) p = absurd (omega arith)

IsSpread-22 : IsSpread (matches (λ v. v == 22) (11 ∷ 22 ∷ 33 ∷ [])) (0 ∷ 1 ∷ 2 ∷ [])
IsSpread-22 zero p e = absurd (cc (e))
IsSpread-22 (suc zero) p e = refl
IsSpread-22 (suc (suc k)) p e = absurd (omega arith)

IsClear-11 : IsClear (matches (λ v. ltb 20 v) (11 ∷ 22 ∷ 33 ∷ [])) (0 ∷ [])
IsClear-11 zero p = refl
IsClear-11 (suc k) p = absurd (omega arith)

uids-IsColumn : IsColumn heap 0 (97 ∷ []) table uids three_rows
unfolding find_name same_name get_column get_vector
uids-IsColumn = record {
  column_id = 0;
  named = refl;
  found = refl;
  shared = refl;
  listed = refl;
  within = IsWithin-three;
}

filter-keep_example :
    (after : List IdxList) × (filter heap 0 (97 ∷ []) (λ v. v == 22) table
      ≡ some (record heap { idx_lists = after }))
    × HasRows (three_rows ∷ []) after 0 (0 ∷ 2 ∷ [])
filter-keep_example =
    filter-keep heap 0 (97 ∷ []) table uids three_rows (λ v. v == 22) uids-IsColumn IsSpread-22

filter-misses_example :
    (after : List IdxList) × (kept : List ℕ) × (filter heap 0 (97 ∷ []) (λ v. ltb 20 v) table
      ≡ some (record heap { idx_lists = after }))
    × HasRows (three_rows ∷ []) after 0 (0 ∷ 2 ∷ kept)
filter-misses_example =
    filter-misses heap 0 (97 ∷ []) table uids three_rows (λ v. ltb 20 v) (0 ∷ []) [] 1 2
      uids-IsColumn refl IsClear-11 refl refl

read_row-remove_row_example :
    (after : Heap ℕ) × (remove_row heap 1 table ≡ some after)
    × (read_row after.idx_lists clicks 1 ≡ read_row heap.idx_lists clicks 2)
read_row-remove_row_example =
    read_row-remove_row heap 1 table three_rows clicks 1 refl (omega arith) refl

-- A table without rows, whose first column has no values.
abbrev fresh_rows : IdxList
fresh_rows = record { list = []; max_idx = negsuc 0 }

abbrev no_values : DataVector ℕ
no_values = record { values = []; idx = 0 }

abbrev fresh_heap : Heap ℕ
fresh_heap = record {
  idx_lists = fresh_rows ∷ [];
  items = λ type. if type == 0 then some no_values ∷ [] else [];
}

push_back-Awaits_example :
    (after : Heap ℕ) × (new : DataVector ℕ) × (push_back fresh_heap 0 0 9 ≡ some after)
    × (get_vector after 0 0 ≡ some new)
    × (get_elem? after.idx_lists new.idx ≡ some (record { list = 0 ∷ []; max_idx = pos 0 }))
    × (read_row after.idx_lists new 0 ≡ some 9)
unfolding get_vector
push_back-Awaits_example =
    push_back-Awaits fresh_heap 0 0 0 9 no_values fresh_rows [] 0 refl refl refl
      (λ k p. absurd (omega arith)) (record { state = inl (refl, inl refl) })

-- A row behind three others.
fourth_row :
    (after : Heap ℕ) × (push_back heap 0 1 9 ≡ some after)
    × (get_elem? after.idx_lists 0 ≡ some (record { list = 0 ∷ 1 ∷ 2 ∷ 3 ∷ []; max_idx = pos 3 }))
    × (read_row after.idx_lists clicks 2 ≡ some 1)
unfolding push_back put_items add_idx is_above read_row
fourth_row = (_, refl, refl, refl)

no_names : IsNamed []
unfolding find_name
no_names = record {
  below = λ name id_ e. absurd (cc (e));
  distinct = λ a b id_ ea eb. absurd (cc (ea));
}

abbrev empty_table : FeatureTable
empty_table = record { columns = none ∷ []; idx = 0; name_to_idx = [] }

ensure_column_id-IsNamed_example :
    IsNamed (ensure_column_id (97 ∷ []) empty_table).0.name_to_idx
    × (get_column_id (97 ∷ []) (ensure_column_id (97 ∷ []) empty_table).0
        ≡ pos (ensure_column_id (97 ∷ []) empty_table).1)
    × (get_column_id (98 ∷ []) (ensure_column_id (97 ∷ []) empty_table).0
        ≡ get_column_id (98 ∷ []) empty_table)
ensure_column_id-IsNamed_example =
    ensure_column_id-IsNamed empty_table (97 ∷ []) (98 ∷ []) no_names
      (λ e. omega (arith, ap (λ l. get_or l 0 0) e))

abbrev bare : Heap ℕ
bare = record { idx_lists = record { list = []; max_idx = negsuc 0 } ∷ []; items = λ type. [] }

-- A second table with its own list of rows.
abbrev five_rows : IdxList
five_rows = record { list = 0 ∷ 1 ∷ 2 ∷ 3 ∷ 4 ∷ []; max_idx = pos 4 }

remove_functor-every_other_example :
    (fewer : IdxList) × (remove_functor 1 3 five_rows ≡ some fewer)
    × (fewer.list ≡ 0 ∷ 2 ∷ 4 ∷ [])
    × (fewer.max_idx ≡ pos 4)
remove_functor-every_other_example =
    remove_functor-every_other 2 five_rows (0 ∷ []) (1 ∷ 2 ∷ 3 ∷ 4 ∷ []) refl (omega arith)
