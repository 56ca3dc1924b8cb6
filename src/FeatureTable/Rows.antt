-- ===== src/FeatureTable/Rows.antt =====
-- src/feature_table.cpp: what `push_back` and `remove_row` do to the rows that the columns show.
use wizard.Prelude.{
  in_bounds, get_elem?-append_front, get_elem?-append_last, ℕ, zero, suc, ◌<◌, ◌≡◌, ◌⊎◌, refl, sym,
  ◌∙◌, ap, true, false, some, List, [], ◌∷◌, ◌++◌, arith, ==_eq, ltb, lt→ltb, Bool-cases, inl, inr,
  if◌then◌else◌, length, get_or, get_elem?, get_elem?-set_self, get_elem?-eq-get_or, >>=-eq-some,
  ◌==◌, set, ◌≢◌, ◌>>=◌, ==_ne, dec_lt, ℕ_discrete, subst, none, ◌≤◌,
}
use wizard.Prelude.Int.{ℤ, pos, negsuc}
use wizard.FeatureTable.{
  IdxList, DataVector, Heap, FeatureTable, is_above, add_idx, erase, max_of, remove_idx, get_vector,
  put_items, push_back, read_row, remove_row,
}
use wizard.FeatureTable.Filter.{IsWithin}

get_elem?-erase :
    (xs : List ℕ) (i j : ℕ)
    → get_elem? (erase xs i) j ≡ (if ltb j i then get_elem? xs j else get_elem? xs (suc j))
unfolding erase
get_elem?-erase [] i j = ground arith
get_elem?-erase (x ∷ xs) zero j = ground arith
get_elem?-erase (x ∷ xs) (suc i) zero = ground arith
get_elem?-erase (x ∷ xs) (suc i) (suc j) =
    let same : ltb j i ≡ ltb (suc j) (suc i) = ground arith in
    get_elem?-erase xs i j ∙ ap (λ b. if b then get_elem? xs j else get_elem? xs (suc j)) same

-- The greatest row on record is below `n`: none is on record, which is -1, or a smaller one.
abbrev pub IsBelow : ℤ → ℕ → Type 0
IsBelow m n = (m ≡ negsuc 0) ⊎ ((k : ℕ) × (m ≡ pos k) × (k < n))

-- The rows of a table at a push of row `n`: either no column has it yet, or another one has added
-- it.
pub record Awaits (l : IdxList) (rows : List ℕ) (n : ℕ) : Type 0 where
  pub state :
      ((l.list ≡ rows) × IsBelow l.max_idx n) ⊎ ((l.list ≡ rows ++ (n ∷ [])) × (l.max_idx ≡ pos n))

IsBelow-above : (m : ℤ) (n : ℕ) → IsBelow m n → is_above n m ≡ true
unfolding is_above
IsBelow-above m n (inl e) = rw e refl
IsBelow-above m n (inr (k, e, p)) = rw e (lt→ltb k n p)

add_idx_lem :
    (l : IdxList) (rows : List ℕ) (n : ℕ)
    → Awaits l rows n
    → add_idx n l ≡ record { list = rows ++ (n ∷ []); max_idx = pos n }
unfolding add_idx is_above
add_idx_lem l rows n w = elim w.state [
  | inl e ↦ rw (IsBelow-above l.max_idx n (e.1), e.0) refl
  | inr e ↦ let past : ltb n n ≡ false = ground arith in rw (e.1, past) (rw (sym e.0, sym e.1) refl)
]

get_elem?-past : (xs : List ℕ) (i : ℕ) → length xs ≤ i → get_elem? xs i ≡ none
get_elem?-past [] i p = refl
get_elem?-past (x ∷ xs) zero p = absurd (omega arith)
get_elem?-past (x ∷ xs) (suc i) p = get_elem?-past xs i (omega arith)

-- Behind one more element nothing else changes.
get_elem?-append_other :
    (xs : List ℕ) (n i : ℕ) → i ≢ length xs → get_elem? (xs ++ (n ∷ [])) i ≡ get_elem? xs i
get_elem?-append_other [] n zero ne = absurd (ne refl)
get_elem?-append_other [] n (suc i) ne = refl
get_elem?-append_other (x ∷ xs) n zero ne = refl
get_elem?-append_other (x ∷ xs) n (suc i) ne = get_elem?-append_other xs n i (λ e. ne (ap suc e))

Awaits-get :
    (l : IdxList) (rows : List ℕ) (n i : ℕ)
    → Awaits l rows n
    → i ≢ length rows
    → get_elem? l.list i ≡ get_elem? rows i
Awaits-get l rows n i w ne = elim w.state [
  | inl e ↦ ap (λ xs. get_elem? xs i) (e.0)
  | inr e ↦ ap (λ xs. get_elem? xs i) (e.0) ∙ get_elem?-append_other rows n i ne
]

module _ {ℓ} {V : Type ℓ} where
  pub cell_of :
      (h : Heap V) (type id_ : ℕ) (vec : DataVector V)
      → get_vector h type id_ ≡ some vec
      → get_elem? (h.items type) id_ ≡ some (some vec)
  unfolding get_vector
  cell_of h type id_ vec e =
      let (c, at, inside) = >>=-eq-some (get_elem? (h.items type) id_) (λ p. p) e in
      at ∙ ap some inside

  -- Removing row `row` of a table with more rows shows each column that shares the table's rows
  -- without that row: the rows before it stay, the rows behind it move up by one.
  pub read_row-remove_row :
      (h : Heap V) (row : ℕ) (t : FeatureTable) (l : IdxList) (vec : DataVector V) (j : ℕ)
      → get_elem? h.idx_lists t.idx ≡ some l
      → row < length l.list
      → vec.idx ≡ t.idx
      → (after : Heap V) × (remove_row h row t ≡ some after)
        × (read_row after.idx_lists vec j
            ≡ (if ltb j row then read_row h.idx_lists vec j else read_row h.idx_lists vec (suc j)))
  unfolding remove_row remove_idx read_row
  read_row-remove_row h row t l vec j at below shared =
      let fewer : IdxList = record {
        list = erase l.list row;
        max_idx = max_of (negsuc 0) (erase l.list row);
      } in
      rw (at, lt→ltb row (length l.list) below)
        (
          record h { idx_lists = set h.idx_lists t.idx fewer },
          refl,
          rw
              (
                shared,
                at,
                get_elem?-set_self h.idx_lists t.idx fewer (in_bounds h.idx_lists at),
                get_elem?-erase l.list row j,
              )
              (elim (Bool-cases (ltb j row)) [ inl e ↦ rw e refl | inr e ↦ rw e refl ]),
        )

  -- What the column shows at a row of the list is not changed by one more value.
  read_more :
      (values : List V) (value : V) (rows : List ℕ) (i : ℕ)
      → IsWithin (length values) rows
      → (get_elem? rows i >>= (λ j. get_elem? (values ++ (value ∷ [])) j))
        ≡ (get_elem? rows i >>= (λ j. get_elem? values j))
  read_more values value rows i within = elim (dec_lt i (length rows)) [
    | yes p ↦
        rw (get_elem?-eq-get_or rows i 0 p)
          (get_elem?-append_front values (value ∷ []) (get_or rows i 0) (within i p))
    | no p ↦ rw (get_elem?-past rows i (omega (arith, p))) refl
  ]

  -- A push to a column that has `n` values, while the table's rows are `rows`, or none at first,
  -- and row `n` may or may not have been added by another column, returns. Row `n` is then the last
  -- row, added once; the column shows the pushed value there, and at every other place what it
  -- showed before, which behind the last row is nothing.
  pub push_back-Awaits :
      (h : Heap V) (type id_ n : ℕ) (value : V) (vec : DataVector V) (l : IdxList) (rows : List ℕ)
      (i : ℕ)
      → get_vector h type id_ ≡ some vec
      → get_elem? h.idx_lists vec.idx ≡ some l
      → length vec.values ≡ n
      → IsWithin n rows
      → Awaits l rows n
      → (after : Heap V) × (new : DataVector V) × (push_back h type id_ value ≡ some after)
        × (get_vector after type id_ ≡ some new)
        × (get_elem? after.idx_lists new.idx
            ≡ some (record { list = rows ++ (n ∷ []); max_idx = pos n }))
        × (read_row after.idx_lists new i
            ≡ (if i == length rows then some value else read_row h.idx_lists vec i))
  unfolding push_back get_vector read_row put_items
  push_back-Awaits h type id_ n value vec l rows i found at full within w =
      let cell = cell_of h type id_ vec found in
      let new : DataVector V = record { values = vec.values ++ (value ∷ []); idx = vec.idx } in
      let added : IdxList = record { list = rows ++ (n ∷ []); max_idx = pos n } in
      let self : (type == type) ≡ true = ==_eq refl in
      let stored = get_elem?-set_self h.idx_lists vec.idx added (in_bounds h.idx_lists at) in
      (
        record {
          idx_lists = set h.idx_lists vec.idx added;
          items = put_items type (set (h.items type) id_ (some new)) h.items;
        },
        new,
        rw (cell, at, full, add_idx_lem l rows n w) refl,
        rw (self, get_elem?-set_self (h.items type) id_ (some new) (in_bounds (h.items type) cell))
            refl,
        stored,
        elim (ℕ_discrete i (length rows)) [
          | yes e ↦
              rw (stored, ==_eq e, e, get_elem?-append_last rows n)
                (rw (sym full) (get_elem?-append_last vec.values value))
          | no ne ↦
              rw
                (
                  stored,
                  at,
                  ==_ne ne,
                  get_elem?-append_other rows n i ne,
                  Awaits-get l rows n i w ne,
                )
                (read_more vec.values value rows i (subst (λ m. IsWithin m rows) (sym full) within))
        ],
      )
