-- ===== src/FeatureTable/Filter.antt =====
-- src/feature_table.cpp, `FeatureTable::filter`: which rows the loop removes.
use wizard.Prelude.{
  in_bounds, ℕ, zero, suc, ◌+◌, ◌≤◌, ◌<◌, ◌≡◌, ◌≢◌, refl, sym, ◌∙◌, ap, Bool, true, false, some,
  List, [], ◌∷◌, ◌++◌, append_assoc, arith, Bool-cases, inl, inr, if◌then◌else◌, length,
  length-append, get_or, get_elem?, get_elem?-set_self, get_elem?-set_ne, set,
}
use wizard.Prelude.Int.{negsuc}
use wizard.FeatureTable.{IdxList, DataVector, max_of, filter_loop}
use wizard.FeatureTable.Rounds.{matches, loop_end, loop_keep, loop_remove}

-- The rows that stay: after a removed row the next one is not looked at.
unfoldable pub skip_filter : (ℕ → Bool) → List ℕ → List ℕ
skip_filter p [] = []
skip_filter p (x ∷ []) = if p x then [] else x ∷ []
skip_filter p (x ∷ y ∷ rest) =
    let after = skip_filter p rest in
    let next = skip_filter p (y ∷ rest) in if p x then y ∷ after else x ∷ next

-- Every entry is below `n`.
abbrev pub IsWithin : ℕ → List ℕ → Type 0
IsWithin n xs = (k : ℕ) → k < length xs → get_or xs k 0 < n

-- The list at address `a` now has the rows `xs`, and the other lists are as before.
pub record HasRows (before after : List IdxList) (a : ℕ) (xs : List ℕ) : Type 0 where
  pub own : IdxList
  pub at_own : get_elem? after a ≡ some own
  pub rows : own.list ≡ xs
  pub others : (b : ℕ) → b ≢ a → get_elem? after b ≡ get_elem? before b

module _ {ℓ} {V : Type ℓ} where
  -- What the loop returns from place `i` on, and the rows that it leaves.
  abbrev Leaves : (V → Bool) → DataVector V → ℕ → ℕ → List IdxList → List ℕ → Type 0
  Leaves is_filter vec rounds i lists xs =
      (after : List IdxList) × (filter_loop is_filter vec vec.idx rounds i lists ≡ some after)
      × HasRows lists after vec.idx xs

  Leaves-last :
      (is_filter : V → Bool) (vec : DataVector V) (rounds : ℕ) (lists : List IdxList)
      (done rest : List ℕ) (y : ℕ)
      → Leaves is_filter vec rounds (length (done ++ (y ∷ []))) lists ((done ++ (y ∷ [])) ++ rest)
      → Leaves is_filter vec rounds (length done + 1) lists (done ++ (y ∷ rest))
  Leaves-last is_filter vec rounds lists done rest y h =
      let longer : length (done ++ (y ∷ [])) ≡ length done + 1 =
        omega (arith, length-append done (y ∷ [])) in
      (
        h.0,
        ap (λ i. filter_loop is_filter vec vec.idx rounds i lists) (sym longer) ∙ h.1,
        record {
          own = h.2.own;
          at_own = h.2.at_own;
          rows = h.2.rows ∙ append_assoc done (y ∷ []) rest;
          others = h.2.others;
        },
      )

  -- A row that stays, and the rounds that follow.
  Leaves-keep :
      (is_filter : V → Bool) (vec : DataVector V) (rounds : ℕ) (lists : List IdxList) (l : IdxList)
      (done : List ℕ) (x : ℕ) (rest after : List ℕ)
      → get_elem? lists vec.idx ≡ some l
      → l.list ≡ done ++ (x ∷ rest)
      → x < length vec.values
      → matches is_filter vec.values x ≡ false
      → Leaves is_filter vec rounds (length (done ++ (x ∷ []))) lists ((done ++ (x ∷ [])) ++ after)
      → Leaves is_filter vec (suc rounds) (length done) lists (done ++ (x ∷ after))
  Leaves-keep is_filter vec rounds lists l done x rest after at rows below stays h =
      rw (loop_keep is_filter vec vec.idx rounds lists l done x rest at rows below stays)
        (Leaves-last is_filter vec rounds lists done after x h)

  -- A row that goes, and the rounds that follow on the shorter list.
  Leaves-remove :
      (is_filter : V → Bool) (vec : DataVector V) (rounds : ℕ) (lists : List IdxList) (l : IdxList)
      (done : List ℕ) (x : ℕ) (rest after : List ℕ)
      → get_elem? lists vec.idx ≡ some l
      → l.list ≡ done ++ (x ∷ rest)
      → x < length vec.values
      → matches is_filter vec.values x ≡ true
      → ((fewer : IdxList) (next : List IdxList)
          → fewer.list ≡ done ++ rest
          → get_elem? next vec.idx ≡ some fewer
          → Leaves is_filter vec rounds (length done + 1) next after)
      → Leaves is_filter vec (suc rounds) (length done) lists after
  Leaves-remove is_filter vec rounds lists l done x rest after at rows below goes h =
      let fewer : IdxList = record {
        list = done ++ rest;
        max_idx = max_of (negsuc 0) (done ++ rest);
      } in
      let later =
        h fewer (set lists vec.idx fewer) refl
          (get_elem?-set_self lists vec.idx fewer (in_bounds lists at)) in
      rw (loop_remove is_filter vec rounds lists l done x rest at rows below goes) (
        later.0,
        later.1,
        record {
          own = later.2.own;
          at_own = later.2.at_own;
          rows = later.2.rows;
          others = λ b ne. later.2.others b ne ∙ get_elem?-set_ne lists fewer (λ e. ne (sym e));
        },
      )

  -- Past the end nothing goes.
  Leaves-end :
      (is_filter : V → Bool) (vec : DataVector V) (rounds i : ℕ) (lists : List IdxList)
      (l : IdxList) (xs : List ℕ)
      → get_elem? lists vec.idx ≡ some l
      → l.list ≡ xs
      → length xs ≤ i
      → Leaves is_filter vec rounds i lists xs
  Leaves-end is_filter vec rounds i lists l xs at rows past = (
    lists,
    loop_end is_filter vec vec.idx rounds i lists l at (omega (arith, ap length rows)),
    record { own = l; at_own = at; rows = rows; others = λ b ne. refl },
  )

  pub filter_loop_lem :
      (is_filter : V → Bool) (vec : DataVector V) (rounds : ℕ) (lists : List IdxList) (l : IdxList)
      (done rest : List ℕ)
      → get_elem? lists vec.idx ≡ some l
      → l.list ≡ done ++ rest
      → IsWithin (length vec.values) rest
      → length rest < rounds
      → Leaves is_filter vec rounds
          (length done)
          lists
          (done ++ skip_filter (matches is_filter vec.values) rest)
  unfolding skip_filter
  filter_loop_lem is_filter vec zero lists l done rest at rows within fuel = absurd (omega arith)
  filter_loop_lem is_filter vec (suc rounds) lists l done [] at rows within fuel =
      Leaves-end is_filter vec (suc rounds) (length done) lists l (done ++ []) at rows
        (omega (arith, length-append done []))
  filter_loop_lem is_filter vec (suc rounds) lists l done (x ∷ []) at rows within fuel =
      elim (Bool-cases (matches is_filter vec.values x)) [
        | inl t ↦ rw t (
            Leaves-remove is_filter vec rounds lists l done x [] (done ++ []) at rows
              (within 0 (omega arith)) t
              (λ fewer next shorter there.
                Leaves-end is_filter vec rounds (length done + 1) next fewer (done ++ []) there
                  shorter (omega (arith, length-append done []))))
        | inr f ↦ rw f (
            Leaves-keep is_filter vec rounds lists l done x [] [] at rows (within 0 (omega arith)) f
              (filter_loop_lem is_filter vec rounds lists l (done ++ (x ∷ [])) [] at
                (rows ∙ sym (append_assoc done (x ∷ []) [])) (λ k p. absurd (omega arith))
                (omega arith)))
      ]
  filter_loop_lem is_filter vec (suc rounds) lists l done (x ∷ y ∷ rest) at rows within fuel =
      let left = skip_filter (matches is_filter vec.values) in
      elim (Bool-cases (matches is_filter vec.values x)) [
        | inl t ↦ rw t (
            Leaves-remove is_filter vec rounds lists l done x (y ∷ rest) (done ++ (y ∷ left rest))
              at rows (within 0 (omega arith)) t
              (λ fewer next shorter there.
                Leaves-last is_filter vec rounds next done (left rest) y (
                  filter_loop_lem is_filter vec rounds next fewer (done ++ (y ∷ [])) rest there
                    (shorter ∙ sym (append_assoc done (y ∷ []) rest))
                    (λ k p. within (suc (suc k)) (omega arith)) (omega arith))))
        | inr f ↦ rw f (
            Leaves-keep is_filter vec rounds lists l done x (y ∷ rest) (left (y ∷ rest)) at rows
              (within 0 (omega arith)) f
              (filter_loop_lem is_filter vec rounds lists l (done ++ (x ∷ [])) (y ∷ rest) at
                (rows ∙ sym (append_assoc done (x ∷ []) (y ∷ rest)))
                (λ k p. within (suc k) (omega arith)) (omega arith)))
      ]
