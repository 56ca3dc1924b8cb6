-- ===== src/FeatureTable/Removal.antt =====
-- src/feature_table.cpp: which rows `RemoveFunctor` removes from a column.
use wizard.Prelude.{
  ℕ, zero, suc, ◌+◌, ◌-◌, ◌*◌, ◌≤◌, ◌≡◌, refl, sym, ◌∙◌, true, some, List, [], ◌∷◌, ◌++◌,
  append_assoc, arith, ltb, length, length-append,
}
use wizard.FeatureTable.{IdxList, vector_remove, remove_range, remove_functor}
use wizard.FeatureTable.Rounds.{erase_middle}

-- Of each of the first `n` pairs the first goes and the second stays.
abbrev pub every_other : ℕ → List ℕ → List ℕ
every_other zero xs = xs
every_other (suc n) [] = []
every_other (suc n) (x ∷ []) = []
every_other (suc n) (x ∷ y ∷ rest) = y ∷ every_other n rest

remove_range_lem :
    (n : ℕ) (l : IdxList) (before xs : List ℕ)
    → l.list ≡ before ++ xs
    → 2 * n ≤ length xs + 1
    → (fewer : IdxList) × (remove_range n (length before) l ≡ some fewer)
      × (fewer.list ≡ before ++ every_other n xs)
      × (fewer.max_idx ≡ l.max_idx)
unfolding remove_range vector_remove
remove_range_lem zero l before xs rows fits = (l, refl, rows, refl)
remove_range_lem (suc n) l before [] rows fits = absurd (omega arith)
remove_range_lem (suc zero) l before (x ∷ []) rows fits =
    let inside : ltb (length before) (length (before ++ (x ∷ []))) ≡ true =
      ground (arith, length-append before (x ∷ [])) in
    rw (rows, inside, erase_middle before x [])
      (record { list = before ++ []; max_idx = l.max_idx }, refl, refl, refl)
remove_range_lem (suc (suc n)) l before (x ∷ []) rows fits = absurd (omega arith)
remove_range_lem (suc n) l before (x ∷ y ∷ rest) rows fits =
    let inside : ltb (length before) (length (before ++ (x ∷ y ∷ rest))) ≡ true =
      ground (arith, length-append before (x ∷ y ∷ rest)) in
    let longer : length (before ++ (y ∷ [])) ≡ length before + 1 =
      omega (arith, length-append before (y ∷ [])) in
    let left =
      remove_range_lem n (record { list = before ++ (y ∷ rest); max_idx = l.max_idx })
        (before ++ (y ∷ [])) rest (sym (append_assoc before (y ∷ []) rest)) (omega arith) in
    rw (rows, inside, erase_middle before x (y ∷ rest), sym longer)
      (left.0, left.1, left.2 ∙ append_assoc before (y ∷ []) (every_other n rest), left.3)

-- On a column with the rows `before ++ xs`, a `RemoveFunctor` for the range of `n` rows behind
-- `before`, where `xs` has at least `2 * n - 1` rows, removes the first, third, fifth row of `xs`
-- and so on, `n` rows in all, and keeps each row between them; the greatest index on record stays.
pub remove_functor-every_other :
    (n : ℕ) (l : IdxList) (before xs : List ℕ)
    → l.list ≡ before ++ xs
    → 2 * n ≤ length xs + 1
    → (fewer : IdxList) × (remove_functor (length before) (length before + n) l ≡ some fewer)
      × (fewer.list ≡ before ++ every_other n xs)
      × (fewer.max_idx ≡ l.max_idx)
unfolding remove_functor
remove_functor-every_other n l before xs rows fits =
    let rounds : length before + n - length before ≡ n = omega arith in
    rw rounds (remove_range_lem n l before xs rows fits)
