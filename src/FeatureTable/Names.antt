-- ===== src/FeatureTable/Names.antt =====
-- src/feature_table.cpp: the ids of column names.
use wizard.Prelude.{
  ℕ, ◌<◌, ◌≡◌, ◌≢◌, ◌⊎◌, inl, inr, refl, sym, ◌∙◌, Bool, true, false, Option, none, some, List, [],
  ◌∷◌, arith, ◌==◌, ==_iff, Bool-cases, Option-cases, if◌then◌else◌, length,
}
use wizard.Prelude.Int.{pos}
use wizard.FeatureTable.{FeatureTable, same_name, find_name, ensure_column_id, get_column_id}

same_name_self : (a : List ℕ) → same_name a a ≡ true
unfolding same_name
same_name_self [] = refl
same_name_self (x ∷ a) = rw ((==_iff x x).1 refl) (same_name_self a)

pub same_name-≡ : (a b : List ℕ) → same_name a b ≡ true → a ≡ b
unfolding same_name
same_name-≡ [] [] e = refl
same_name-≡ [] (y ∷ b) e = absurd (cc (e))
same_name-≡ (x ∷ a) [] e = absurd (cc (e))
same_name-≡ (x ∷ a) (y ∷ b) e = elim (Bool-cases (x == y)) [
  | inl t ↦ rw ((==_iff x y).0 t, same_name-≡ a b (rw t at e)) refl
  | inr f ↦ absurd (cc (rw f at e))
]

-- Every id is below the number of names, and no two names have the same id.
pub record IsNamed (entries : List (List ℕ × ℕ)) : Type 0 where
  pub below : (name : List ℕ) (id_ : ℕ) → find_name name entries ≡ some id_ → id_ < length entries
  pub distinct :
      (a b : List ℕ) (id_ : ℕ)
      → find_name a entries ≡ some id_
      → find_name b entries ≡ some id_
      → a ≡ b

-- What is found once a new name stands in front.
found_in :
    {n id_ : ℕ} {o : Option ℕ} (b : Bool)
    → (if b then some n else o) ≡ some id_
    → ((b ≡ true) × (n ≡ id_)) ⊎ (o ≡ some id_)
found_in true e = inl (refl, cc (e))
found_in false e = inr e

IsNamed-add :
    (entries : List (List ℕ × ℕ)) (name : List ℕ)
    → IsNamed entries
    → IsNamed ((name, length entries) ∷ entries)
unfolding find_name
IsNamed-add entries name w = record {
  below = λ q id_ e. elim (found_in (same_name q name) e) [
    | inl h ↦ omega (arith, h.1)
    | inr h ↦ omega (arith, w.below q id_ h)
  ];
  distinct = λ a b id_ ea eb. elim (found_in (same_name a name) ea) [
    | inl h ↦ elim (found_in (same_name b name) eb) [
      | inl k ↦ same_name-≡ a name h.0 ∙ sym (same_name-≡ b name k.0)
      | inr k ↦ absurd (omega (arith, h.1, w.below b id_ k))
    ]
    | inr h ↦ elim (found_in (same_name b name) eb) [
      | inl k ↦ absurd (omega (arith, k.1, w.below a id_ h))
      | inr k ↦ w.distinct a b id_ h k
    ]
  ];
}

ensure-new :
    (t : FeatureTable) (name : List ℕ)
    → find_name name t.name_to_idx ≡ none
    → ensure_column_id name t ≡ (
      record t { name_to_idx = (name, length t.name_to_idx) ∷ t.name_to_idx },
      length t.name_to_idx,
    )
unfolding ensure_column_id
ensure-new t name e = rw (ensure_column_id, e) refl

ensure-old :
    (t : FeatureTable) (name : List ℕ) (id_ : ℕ)
    → find_name name t.name_to_idx ≡ some id_
    → ensure_column_id name t ≡ (t, id_)
unfolding ensure_column_id
ensure-old t name id_ e = rw (ensure_column_id, e) refl

-- Asking for the id of a name keeps every id below the number of names, and ids of different names
-- different; afterwards the name has the id that was returned, and each other name the id, or
-- none, that it had.
pub ensure_column_id-IsNamed :
    (t : FeatureTable) (name other : List ℕ)
    → IsNamed t.name_to_idx
    → other ≢ name
    → IsNamed (ensure_column_id name t).0.name_to_idx
      × (get_column_id name (ensure_column_id name t).0 ≡ pos (ensure_column_id name t).1)
      × (get_column_id other (ensure_column_id name t).0 ≡ get_column_id other t)
unfolding get_column_id find_name
ensure_column_id-IsNamed t name other w ne = elim (Option-cases (find_name name t.name_to_idx)) [
  | inl e ↦ rw (ensure-new t name e) (
    IsNamed-add t.name_to_idx name w,
    rw (get_column_id, same_name_self name) refl,
    elim (Bool-cases (same_name other name)) [
      | inl same ↦ absurd (ne (same_name-≡ other name same))
      | inr differ ↦ rw (get_column_id, differ) refl
    ],
  )
  | inr (id_, e) ↦ rw (ensure-old t name id_ e) (w, rw (get_column_id, e) refl, refl)
]
