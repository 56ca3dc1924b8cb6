-- ===== src/FeatureTable.antt =====
-- src/feature_table.cpp: `IdxList`, `DataVector`, `HeterogeneousVector` and `FeatureTable`.
--
-- A shared pointer to an `IdxList` is an address in `Heap.idx_lists`. The static member template
-- `items<T>` is `Heap.items` at the number that stands for the type T; values of all types are in
-- V. A column name is the list of its characters' codes. `none` is an exception
-- (`std::vector::at`), a null pointer followed, or an index out of bounds. Sizes are below 2^31,
-- so that they fit an `int`.
pub mod Rows
pub mod Names
pub mod Columns
pub mod Removal
pub mod Rounds
pub mod Filter
pub mod Filtered
mod Tests
use wizard.Prelude.{
  ℕ, zero, suc, ◌+◌, ◌-◌, Bool, true, false, ◌&&◌, Option, none, some, List, [], ◌∷◌, ◌++◌, ◌==◌,
  ltb, leb, if◌then◌else◌, ◌>>=◌, get_elem?, set, length, replicate,
}
use wizard.Prelude.Int.{ℤ, pos, negsuc}

pub record IdxList : Type 0 where
  pub list : List ℕ
  pub max_idx : ℤ

-- `new_idx > max_idx`
unfoldable pub is_above : ℕ → ℤ → Bool
is_above new_idx (pos n) = ltb n new_idx
is_above new_idx (negsuc n) = true

unfoldable pub add_idx : ℕ → IdxList → IdxList
unfolding is_above
add_idx new_idx l =
    if is_above new_idx l.max_idx
    then record { list = l.list ++ (new_idx ∷ []); max_idx = pos new_idx }
    else l

-- `list.erase(list.begin() + i)` for an `i` in bounds.
unfoldable pub erase : List ℕ → ℕ → List ℕ
erase [] i = []
erase (x ∷ xs) zero = xs
erase (x ∷ xs) (suc i) = x ∷ erase xs i

-- `std::max(max_idx, idx)` over the list.
unfoldable pub max_of : ℤ → List ℕ → ℤ
unfolding is_above
max_of m [] = m
max_of m (idx ∷ list) = max_of (if is_above idx m then pos idx else m) list

-- `IdxList::remove_row`
unfoldable pub remove_idx : ℕ → IdxList → Option IdxList
remove_idx i l =
    if ltb i (length l.list)
    then some (record { list = erase l.list i; max_idx = max_of (negsuc 0) (erase l.list i) })
    else none

-- `DataVector::remove`, on the list that the column shares.
unfoldable pub vector_remove : ℕ → IdxList → Option IdxList
vector_remove i l =
    if ltb i (length l.list)
    then some (record { list = erase l.list i; max_idx = l.max_idx })
    else none

-- The loop of `RemoveFunctor`, with `rounds` rounds left, at index `i`.
unfoldable pub remove_range : ℕ → ℕ → IdxList → Option IdxList
remove_range zero i l = some l
remove_range (suc rounds) i l =
    let rest = remove_range rounds (i + 1) in vector_remove i l >>= (λ fewer. rest fewer)

-- `RemoveFunctor::operator()` on one column.
unfoldable pub remove_functor : ℕ → ℕ → IdxList → Option IdxList
remove_functor begin end l = remove_range (end - begin) begin l

pub record DataVector {ℓ} (V : Type ℓ) : Type ℓ where
  pub values : List V
  pub idx : ℕ

pub record Heap {ℓ} (V : Type ℓ) : Type ℓ where
  pub idx_lists : List IdxList
  pub items : ℕ → List (Option (DataVector V))

pub record FeatureTable : Type 0 where
  pub columns : List (Option ℕ)
  pub idx : ℕ
  pub name_to_idx : List (List ℕ × ℕ)

module _ {ℓ} {V : Type ℓ} where
  -- `HeterogeneousVector::get_vector<T>` for the type number `type` and the id `id_`.
  unfoldable pub get_vector : Heap V → ℕ → ℕ → Option (DataVector V)
  get_vector h type id_ = get_elem? (h.items type) id_ >>= (λ p. p)

  unfoldable pub put_items :
      ℕ
      → List (Option (DataVector V))
      → (ℕ → List (Option (DataVector V)))
      → ℕ
      → List (Option (DataVector V))
  put_items type cells items other = if other == type then cells else items other

  -- `DataVector::push_back`
  unfoldable pub push_back : Heap V → ℕ → ℕ → V → Option (Heap V)
  unfolding get_vector
  push_back h type id_ value = get_vector h type id_ >>= (λ vec.
      get_elem? h.idx_lists vec.idx >>= (λ l. some (record {
        idx_lists = set h.idx_lists vec.idx (add_idx (length vec.values) l);
        items =
            put_items type
              (set (h.items type) id_
                (some (record { values = vec.values ++ (value ∷ []); idx = vec.idx })))
              h.items;
      })))

  -- `DataVector::operator[]` and `at`
  unfoldable pub read_row : List IdxList → DataVector V → ℕ → Option V
  read_row lists vec i =
      get_elem? lists vec.idx >>= (λ l. get_elem? l.list i >>= (λ idx. get_elem? vec.values idx))

  -- `DataVector::size`
  unfoldable pub vector_size : List IdxList → DataVector V → Option ℕ
  vector_size lists vec = get_elem? lists vec.idx >>= (λ l. some (length l.list))

  -- `HeterogeneousVector::get_or_create_vector<T>`: the heap after it.
  unfoldable pub get_or_create_vector : Heap V → ℕ → ℕ → ℕ → Option (Heap V)
  unfolding get_vector
  get_or_create_vector h type id_ idx =
      if leb (length (h.items type)) id_
      then some (record h {
        items =
            put_items type
              (h.items type
                ++ replicate (id_ - length (h.items type)) none
                ++ (some (record { values = []; idx = idx }) ∷ []))
              h.items;
      })
      else (get_vector h type id_ >>= (λ vec. some h))

  -- The loop of `filter` over a column, in at most `rounds` rounds; `own` is the table's own list.
  unfoldable pub filter_loop :
      (V → Bool) → DataVector V → ℕ → ℕ → ℕ → List IdxList → Option (List IdxList)
  filter_loop is_filter vec own zero i lists = some lists
  filter_loop is_filter vec own (suc rounds) i lists =
      let rest = filter_loop is_filter vec own rounds (i + 1) in
      vector_size lists vec >>= (λ size.
        if ltb i size
        then (read_row lists vec i >>= (λ value.
            if is_filter value
            then (get_elem? lists own
                >>= (λ l. remove_idx i l >>= (λ fewer. rest (set lists own fewer))))
            else rest lists))
        else some lists)

-- Equality of names.
unfoldable pub same_name : List ℕ → List ℕ → Bool
same_name [] [] = true
same_name [] (b ∷ bs) = false
same_name (a ∷ rest) [] = false
same_name (a ∷ rest) (b ∷ bs) = (a == b) && same_name rest bs

-- `name_to_idx_.find`
unfoldable pub find_name : List ℕ → List (List ℕ × ℕ) → Option ℕ
find_name name [] = none
find_name name (entry ∷ entries) =
    let rest = find_name name entries in if same_name name entry.0 then some entry.1 else rest

unfoldable pub ensure_column_id : List ℕ → FeatureTable → FeatureTable × ℕ
ensure_column_id name t = elim (find_name name t.name_to_idx) [
  | none ↦ (
    record t { name_to_idx = (name, length t.name_to_idx) ∷ t.name_to_idx },
    length t.name_to_idx,
  )
  | some id_ ↦ (t, id_)
]

unfoldable pub get_column_id : List ℕ → FeatureTable → ℤ
get_column_id name t = elim (find_name name t.name_to_idx) [ none ↦ negsuc 0 | some id_ ↦ pos id_ ]

module _ {ℓ} {V : Type ℓ} where
  -- `create_column<T>`: the heap, the table and the column's id after it.
  unfoldable pub create_column :
      Heap V → ℕ → List ℕ → FeatureTable → Option (Heap V × FeatureTable × ℕ)
  create_column h type name t =
      let named = ensure_column_id name t in
      if ltb named.1 (length t.columns)
      then (get_or_create_vector h type named.1 t.idx >>= (λ after.
          some
            (after, record (named.0) { columns = set t.columns named.1 (some named.1) }, named.1)))
      else none

  -- `get_column<T>` by a column's id.
  unfoldable pub get_column : Heap V → ℕ → ℕ → FeatureTable → Option (DataVector V)
  get_column h type column_id t =
      get_elem? t.columns column_id >>= (λ c. c >>= (λ id_. get_vector h type id_))

  -- `filter<T>` on the column with a name.
  unfoldable pub filter : Heap V → ℕ → List ℕ → (V → Bool) → FeatureTable → Option (Heap V)
  filter h type name is_filter t = find_name name t.name_to_idx >>= (λ column_id.
      get_column h type column_id t >>= (λ vec. vector_size h.idx_lists vec >>= (λ size.
        filter_loop is_filter vec t.idx (size + 1) 0 h.idx_lists
        >>= (λ lists. some (record h { idx_lists = lists })))))

  -- `FeatureTable::remove_row`
  unfoldable pub remove_row : Heap V → ℕ → FeatureTable → Option (Heap V)
  remove_row h row t = get_elem? h.idx_lists t.idx >>= (λ l.
      remove_idx row l >>= (λ fewer. some (record h { idx_lists = set h.idx_lists t.idx fewer })))

  -- `FeatureTable::row_size`
  unfoldable pub row_size : Heap V → FeatureTable → Option ℕ
  row_size h t = get_elem? h.idx_lists t.idx >>= (λ l. some (length l.list))
