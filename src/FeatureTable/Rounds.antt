-- ===== src/FeatureTable/Rounds.antt =====
-- src/feature_table.cpp, `FeatureTable::filter`: one round of the loop.
use wizard.Prelude.{
  ℕ, zero, suc, ◌+◌, ◌≤◌, ◌<◌, ◌≡◌, refl, sym, ◌∙◌, ap, Bool, true, false, none, some, List, [],
  ◌∷◌, ◌++◌, arith, ltb, length, length-append, get_elem?, set,
}
use wizard.Prelude.Int.{negsuc}
use wizard.FeatureTable.{
  IdxList, DataVector, erase, max_of, remove_idx, read_row, vector_size, filter_loop,
}

pub erase_middle :
    (done : List ℕ) (x : ℕ) (rest : List ℕ)
    → erase (done ++ (x ∷ rest)) (length done) ≡ done ++ rest
unfolding erase
erase_middle [] x rest = refl
erase_middle (d ∷ done) x rest = ap (λ l. d ∷ l) (erase_middle done x rest)

get_elem?-middle :
    (done : List ℕ) (x : ℕ) (rest : List ℕ) → get_elem? (done ++ (x ∷ rest)) (length done) ≡ some x
get_elem?-middle [] x rest = refl
get_elem?-middle (d ∷ done) x rest = get_elem?-middle done x rest

module _ {ℓ} {V : Type ℓ} where
  -- Whether the value of a row is one to remove.
  abbrev pub matches : (V → Bool) → List V → ℕ → Bool
  matches is_filter values j = elim (get_elem? values j) [ none ↦ false | some v ↦ is_filter v ]

  value_of : (values : List V) (j : ℕ) → j < length values → (v : V) × (get_elem? values j ≡ some v)
  value_of [] j p = absurd (omega arith)
  value_of (v ∷ values) zero p = (v, refl)
  value_of (v ∷ values) (suc j) p = value_of values j (omega arith)

  matches_lem :
      (is_filter : V → Bool) (values : List V) (x : ℕ) {v : V}
      → get_elem? values x ≡ some v
      → matches is_filter values x ≡ is_filter v
  matches_lem is_filter values x e = rw (matches, e) refl

  -- Past the end the loop stops.
  pub loop_end :
      (is_filter : V → Bool) (vec : DataVector V) (own rounds i : ℕ) (lists : List IdxList)
      (l : IdxList)
      → get_elem? lists vec.idx ≡ some l
      → length l.list ≤ i
      → filter_loop is_filter vec own rounds i lists ≡ some lists
  unfolding filter_loop vector_size
  loop_end is_filter vec own zero i lists l at past = refl
  loop_end is_filter vec own (suc rounds) i lists l at past =
      let e : ltb i (length l.list) ≡ false = ground arith in rw (at, e) refl

  -- One round on a row that stays.
  pub loop_keep :
      (is_filter : V → Bool) (vec : DataVector V) (own rounds : ℕ) (lists : List IdxList)
      (l : IdxList) (done : List ℕ) (x : ℕ) (rest : List ℕ)
      → get_elem? lists vec.idx ≡ some l
      → l.list ≡ done ++ (x ∷ rest)
      → x < length vec.values
      → matches is_filter vec.values x ≡ false
      → filter_loop is_filter vec own (suc rounds) (length done) lists
        ≡ filter_loop is_filter vec own rounds (length done + 1) lists
  unfolding filter_loop vector_size read_row
  loop_keep is_filter vec own rounds lists l done x rest at rows below stays =
      let (v, e) = value_of vec.values x below in
      let more : ltb (length done) (length (done ++ (x ∷ rest))) ≡ true =
        ground (arith, length-append done (x ∷ rest)) in
      rw
        (
          at,
          rows,
          more,
          get_elem?-middle done x rest,
          e,
          sym (matches_lem is_filter vec.values x e) ∙ stays,
        )
        refl

  -- One round on a row that goes.
  pub loop_remove :
      (is_filter : V → Bool) (vec : DataVector V) (rounds : ℕ) (lists : List IdxList) (l : IdxList)
      (done : List ℕ) (x : ℕ) (rest : List ℕ)
      → get_elem? lists vec.idx ≡ some l
      → l.list ≡ done ++ (x ∷ rest)
      → x < length vec.values
      → matches is_filter vec.values x ≡ true
      → filter_loop is_filter vec vec.idx (suc rounds) (length done) lists
        ≡ filter_loop is_filter vec vec.idx rounds (length done + 1) (
            set lists vec.idx
              (record { list = done ++ rest; max_idx = max_of (negsuc 0) (done ++ rest) }))
  unfolding filter_loop vector_size read_row remove_idx
  loop_remove is_filter vec rounds lists l done x rest at rows below goes =
      let (v, e) = value_of vec.values x below in
      let more : ltb (length done) (length (done ++ (x ∷ rest))) ≡ true =
        ground (arith, length-append done (x ∷ rest)) in
      rw
        (
          at,
          rows,
          more,
          get_elem?-middle done x rest,
          e,
          sym (matches_lem is_filter vec.values x e) ∙ goes,
          erase_middle done x rest,
        )
        refl
