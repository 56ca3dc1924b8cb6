-- ===== src/FeatureTable/Filtered.antt =====
-- src/feature_table.cpp, `FeatureTable::filter`: the rows of the table after the whole operation.
use wizard.Prelude.{
  ℕ, suc, ◌+◌, ◌<◌, ◌≡◌, refl, sym, ◌∙◌, ap, Bool, true, false, some, List, [], ◌∷◌, ◌++◌, arith,
  Bool-cases, inl, inr, if◌then◌else◌, length, get_or, get_elem?,
}
use wizard.FeatureTable.{
  IdxList, DataVector, Heap, FeatureTable, find_name, get_column, vector_size, filter,
}
use wizard.FeatureTable.Rounds.{matches}
use wizard.FeatureTable.Filter.{skip_filter, IsWithin, HasRows, filter_loop_lem}

-- The rows that do not match, in their order.
abbrev pub keep : (ℕ → Bool) → List ℕ → List ℕ
keep p [] = []
keep p (x ∷ xs) = if p x then keep p xs else x ∷ keep p xs

-- No two neighbouring rows match.
abbrev pub IsSpread : (ℕ → Bool) → List ℕ → Type 0
IsSpread p xs =
    (k : ℕ) → suc k < length xs → p (get_or xs k 0) ≡ true → p (get_or xs (suc k) 0) ≡ false

skip_filter-keep : (p : ℕ → Bool) (xs : List ℕ) → IsSpread p xs → skip_filter p xs ≡ keep p xs
unfolding skip_filter
skip_filter-keep p [] spread = refl
skip_filter-keep p (x ∷ []) spread = refl
skip_filter-keep p (x ∷ y ∷ rest) spread = elim (Bool-cases (p x)) [
  | inl t ↦
      rw (t, spread 0 (omega arith) t)
        (ap (λ l. y ∷ l) (skip_filter-keep p rest (λ k lt. spread (suc (suc k)) (omega arith))))
  | inr f ↦
      rw f (ap (λ l. x ∷ l) (skip_filter-keep p (y ∷ rest) (λ k lt. spread (suc k) (omega arith))))
]

-- No row matches.
abbrev pub IsClear : (ℕ → Bool) → List ℕ → Type 0
IsClear p xs = (k : ℕ) → k < length xs → p (get_or xs k 0) ≡ false

skip_filter-append :
    (p : ℕ → Bool) (before rest : List ℕ)
    → IsClear p before
    → skip_filter p (before ++ rest) ≡ before ++ skip_filter p rest
unfolding skip_filter
skip_filter-append p [] rest clear = refl
skip_filter-append p (x ∷ []) [] clear = rw (clear 0 (omega arith)) refl
skip_filter-append p (x ∷ []) (y ∷ rest) clear = rw (clear 0 (omega arith)) refl
skip_filter-append p (x ∷ y ∷ before) rest clear =
    rw (clear 0 (omega arith)) (
      ap (λ l. x ∷ l)
        (skip_filter-append p (y ∷ before) rest (λ k lt. clear (suc k) (omega arith))))

module _ {ℓ} {V : Type ℓ} where
  -- A column of a table: it has this name and this type, and shares the table's list of rows, which
  -- all lie in the column.
  pub record IsColumn (h : Heap V) (type : ℕ) (name : List ℕ) (t : FeatureTable)
      (vec : DataVector V) (l : IdxList) : Type ℓ where
    pub column_id : ℕ
    pub named : find_name name t.name_to_idx ≡ some column_id
    pub found : get_column h type column_id t ≡ some vec
    pub shared : vec.idx ≡ t.idx
    pub listed : get_elem? h.idx_lists t.idx ≡ some l
    pub within : IsWithin (length vec.values) l.list

  filter_lem :
      (h : Heap V) (type : ℕ) (name : List ℕ) (t : FeatureTable) (vec : DataVector V) (l : IdxList)
      (is_filter : V → Bool)
      → IsColumn h type name t vec l
      → (after : List IdxList) × (filter h type name is_filter t
          ≡ some (record h { idx_lists = after }))
        × HasRows h.idx_lists after t.idx (skip_filter (matches is_filter vec.values) l.list)
  unfolding filter vector_size
  filter_lem h type name t vec l is_filter c =
      let at : get_elem? h.idx_lists vec.idx ≡ some l =
        ap (get_elem? h.idx_lists) c.shared ∙ c.listed in
      let left =
        filter_loop_lem is_filter vec (length l.list + 1) h.idx_lists l [] l.list at refl c.within
          (omega arith) in
      rw (c.named, c.found, at, sym c.shared) (left.0, rw (left.1) refl, left.2)

  -- When no two neighbouring rows of a column of the table match the filter, `filter` returns, and
  -- the table then has the rows that do not match, in their order; the row lists of other tables
  -- are as before.
  pub filter-keep :
      (h : Heap V) (type : ℕ) (name : List ℕ) (t : FeatureTable) (vec : DataVector V) (l : IdxList)
      (is_filter : V → Bool)
      → IsColumn h type name t vec l
      → IsSpread (matches is_filter vec.values) l.list
      → (after : List IdxList) × (filter h type name is_filter t
          ≡ some (record h { idx_lists = after }))
        × HasRows h.idx_lists after t.idx (keep (matches is_filter vec.values) l.list)
  filter-keep h type name t vec l is_filter c spread =
      rw (sym (skip_filter-keep (matches is_filter vec.values) l.list spread))
        (filter_lem h type name t vec l is_filter c)

  -- When the first row of a column that matches the filter has a neighbour behind it that matches
  -- too, `filter` returns, and this neighbour is still a row of the table.
  pub filter-misses :
      (h : Heap V) (type : ℕ) (name : List ℕ) (t : FeatureTable) (vec : DataVector V) (l : IdxList)
      (is_filter : V → Bool) (before rest : List ℕ) (x y : ℕ)
      → IsColumn h type name t vec l
      → l.list ≡ before ++ (x ∷ y ∷ rest)
      → IsClear (matches is_filter vec.values) before
      → matches is_filter vec.values x ≡ true
      → matches is_filter vec.values y ≡ true
      → (after : List IdxList) × (kept : List ℕ) × (filter h type name is_filter t
          ≡ some (record h { idx_lists = after }))
        × HasRows h.idx_lists after t.idx (before ++ (y ∷ kept))
  unfolding skip_filter
  filter-misses h type name t vec l is_filter before rest x y c rows clear tx ty =
      let left = filter_lem h type name t vec l is_filter c in
      let p = matches is_filter vec.values in
      let skipped : skip_filter p l.list ≡ before ++ (y ∷ skip_filter p rest) =
        ap (skip_filter p) rows ∙ skip_filter-append p before (x ∷ y ∷ rest) clear ∙ rw tx refl in
      (left.0, skip_filter p rest, left.1, rw (sym skipped) (left.2))
