-- ===== src/FeatureTable/Columns.antt =====
-- src/feature_table.cpp: the column that `create_column` returns. The storage of columns is a
-- static member, so a table finds there what another table has put under the same type and id.
use wizard.Prelude.{
  in_bounds, get_elem?-append_last, ℕ, ◌-◌, ◌≤◌, ◌<◌, ◌≡◌, refl, sym, ◌∙◌, ap, true, false, Option,
  none, some, List, [], ◌∷◌, ◌++◌, arith, ==_eq, ◌==◌, ltb, leb, lt→ltb, length, length-append,
  replicate, length-replicate, get_elem?, get_elem?-set_self, set,
}
use wizard.FeatureTable.{
  DataVector, Heap, FeatureTable, ensure_column_id, get_vector, put_items, get_or_create_vector,
  create_column, get_column,
}
use wizard.FeatureTable.Rows.{cell_of}

module _ {ℓ} {V : Type ℓ} where
  padded :
      (cells : List (Option (DataVector V))) (id_ : ℕ) (vec : DataVector V)
      → length cells ≤ id_
      → get_elem? (cells ++ replicate (id_ - length cells) none ++ (some vec ∷ [])) id_
        ≡ some (some vec)
  padded cells id_ vec short =
      let front = cells ++ replicate (id_ - length cells) none in
      let place : length front ≡ id_ = omega (
        arith,
        length-append cells (replicate (id_ - length cells) none),
        length-replicate {A = Option (DataVector V)} (id_ - length cells) none,
      ) in
      ap (get_elem? (front ++ (some vec ∷ []))) (sym place) ∙ get_elem?-append_last front (some vec)

  -- When a table has room for the id of a name and the storage of a type ends before this id,
  -- `create_column` returns the id, and the column under it is then empty and shares the table's
  -- rows.
  pub get_column-create_column :
      (h : Heap V) (type : ℕ) (name : List ℕ) (t : FeatureTable)
      → (ensure_column_id name t).1 < length t.columns
      → length (h.items type) ≤ (ensure_column_id name t).1
      → (after : Heap V) × (new : FeatureTable) × (create_column h type name t
          ≡ some (after, new, (ensure_column_id name t).1))
        × (get_column after type (ensure_column_id name t).1 new
            ≡ some (record { values = []; idx = t.idx }))
  unfolding create_column get_column get_or_create_vector get_vector put_items
  get_column-create_column h type name t room short =
      let id_ = (ensure_column_id name t).1 in
      let fits : ltb id_ (length t.columns) ≡ true = lt→ltb id_ (length t.columns) room in
      let past : leb (length (h.items type)) id_ ≡ true = ground arith in
      let empty : DataVector V = record { values = []; idx = t.idx } in
      let self : (type == type) ≡ true = ==_eq refl in
      rw (fits, past)
        (
          record h {
            items =
                put_items type
                  (h.items type
                    ++ replicate (id_ - length (h.items type)) none
                    ++ (some empty ∷ []))
                  h.items;
          },
          record ((ensure_column_id name t).0) { columns = set t.columns id_ (some id_) },
          refl,
          rw
              (
                get_elem?-set_self t.columns id_ (some id_) room,
                self,
                padded (h.items type) id_ empty short,
              )
              refl,
        )

  -- When a table has room for the id of a name and the storage of a type has a column under this
  -- id, `create_column` changes nothing in the storage, and the column under the id is then the
  -- one that was there, with its values and its own list of rows, whichever table has created it.
  pub create_column_shared :
      (h : Heap V) (type : ℕ) (name : List ℕ) (t : FeatureTable) (vec : DataVector V)
      → (ensure_column_id name t).1 < length t.columns
      → get_vector h type (ensure_column_id name t).1 ≡ some vec
      → (new : FeatureTable) × (create_column h type name t
          ≡ some (h, new, (ensure_column_id name t).1))
        × (get_column h type (ensure_column_id name t).1 new ≡ some vec)
  unfolding create_column get_column get_or_create_vector
  create_column_shared h type name t vec room found =
      let id_ = (ensure_column_id name t).1 in
      let fits : ltb id_ (length t.columns) ≡ true = lt→ltb id_ (length t.columns) room in
      let inside : leb (length (h.items type)) id_ ≡ false =
        ground (arith, in_bounds (h.items type) (cell_of h type id_ vec found)) in
      rw (fits, inside, found)
        (
          record ((ensure_column_id name t).0) { columns = set t.columns id_ (some id_) },
          refl,
          rw (get_elem?-set_self t.columns id_ (some id_) room) found,
        )
