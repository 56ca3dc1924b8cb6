-- ===== src/ConcurrentVector/Elements/Overlay.antt =====
-- src/concurrent/vector.h: what writes through a table change, index by index.
use wizard.Prelude.{
  ℕ, zero, suc, ◌+◌, ◌*◌, ◌≤◌, ◌<◌, ◌≡◌, ◌≢◌, inl, inr, refl, sym, ◌∙◌, ap, subst, Option-cases,
  Option, some, List, [], ◌∷◌, ◌++◌, arith, ◌==◌, ==_eq, ==_ne, if◌then◌else◌, length, get_elem?,
  ℕ_discrete, dec_lt,
}
use wizard.Prelude.Functions.{assign_at, assign_at_self, assign_at_ne}
use wizard.Prelude.Pigeonhole.{Absent, Different}
use wizard.ConcurrentVector.{Meta, Range, get_shard_id, get_shard_offset}
use wizard.ConcurrentVector.Covers.{IsMeta, seq, split, shards_apart}
use wizard.ConcurrentVector.Elements.{at_index, copy_range}

Absent-get : (table : List ℕ) (i a b : ℕ) → Absent a table → get_elem? table i ≡ some b → b ≢ a
Absent-get [] i a b out e = absurd (cc (e))
Absent-get (x ∷ table) zero a b out e = let same : x ≡ b = cc (e) in subst (λ y. y ≢ a) same (out.0)
Absent-get (x ∷ table) (suc i) a b out e = Absent-get table i a b (out.1) e

-- Each shard stands in one place of a table.
get-Different :
    (table : List ℕ) (i j a : ℕ)
    → Different table
    → get_elem? table i ≡ some a
    → get_elem? table j ≡ some a
    → i ≡ j
get-Different [] i j a d e f = absurd (cc (e))
get-Different (x ∷ table) zero zero a d e f = refl
get-Different (x ∷ table) zero (suc j) a d e f =
    let same : x ≡ a = cc (e) in absurd (Absent-get table j x a (d.0) f (sym same))
get-Different (x ∷ table) (suc i) zero a d e f =
    let same : x ≡ a = cc (f) in absurd (Absent-get table i x a (d.0) e (sym same))
get-Different (x ∷ table) (suc i) (suc j) a d e f = ap suc (get-Different table i j a (d.1) e f)

-- The values of the input at the indices, and what was there elsewhere.
abbrev pub overlay {ℓ} : {T : Type ℓ} → List ℕ → List T → (ℕ → Option T) → ℕ → Option T
overlay [] vs f i = f i
overlay (x ∷ xs) [] f i = f i
overlay (x ∷ xs) (v ∷ vs) f i = overlay xs vs (λ j. if x == j then some v else f j) i

pub overlay-same {ℓ} :
    {T : Type ℓ} (xs : List ℕ) (vs : List T) (f g : ℕ → Option T)
    → ((j : ℕ) → f j ≡ g j)
    → (i : ℕ) → overlay xs vs f i ≡ overlay xs vs g i
overlay-same [] vs f g e i = e i
overlay-same (x ∷ xs) [] f g e i = e i
overlay-same (x ∷ xs) (v ∷ vs) f g e i =
    overlay-same xs vs _ _ (λ j. ap (λ o. if x == j then some v else o) (e j)) i

pub overlay-append {ℓ} :
    {T : Type ℓ} (xs ys : List ℕ) (vs ws : List T) (f : ℕ → Option T) (i : ℕ)
    → length vs ≡ length xs
    → overlay (xs ++ ys) (vs ++ ws) f i ≡ overlay ys ws (overlay xs vs f) i
overlay-append [] ys [] ws f i e = refl
overlay-append [] ys (v ∷ vs) ws f i e = absurd (omega (arith, e))
overlay-append (x ∷ xs) ys [] ws f i e = absurd (omega (arith, e))
overlay-append (x ∷ xs) ys (v ∷ vs) ws f i e =
    overlay-append xs ys vs ws (λ j. if x == j then some v else f j) i (omega (arith, e))

-- All ranges lie in the table and in their shard.
abbrev pub Inside : Meta → ℕ → List Range → Type 0
Inside m shard_num [] = Unit {0}
Inside m shard_num (r ∷ rs) =
    ((r.shard < shard_num) × (r.from ≤ m.num_per_shard) × (r.to ≤ m.num_per_shard))
    × Inside m shard_num rs

-- The quotient and the remainder are determined.
division_unique : (a b n o p : ℕ) → a * n + o ≡ b * n + p → o < n → p < n → (a ≡ b) × (o ≡ p)
division_unique a b n o p e q r = elim (ℕ_discrete a b) [
  | yes same ↦
      let multiple : a * n ≡ b * n = ap (λ k. k * n) same in (same, omega (arith, multiple, e))
  | no ne ↦ elim (dec_lt a b) [
    | yes less ↦
        let next : (a + 1) * n ≡ a * n + n = omega arith in
        absurd (omega (arith, shards_apart a b n less, next, e, q))
    | no more ↦
        let next : (b + 1) * n ≡ b * n + n = omega arith in
        absurd (omega (arith, shards_apart b a n (omega (arith, ne, more)), next, e, r))
  ]
]

shard_offset_lem :
    (m : Meta) (w : IsMeta m) (k o : ℕ)
    → o < m.num_per_shard
    → (get_shard_id m (k * m.num_per_shard + o) ≡ k)
      × (get_shard_offset m (k * m.num_per_shard + o) ≡ o)
shard_offset_lem m w k o p =
    let i = k * m.num_per_shard + o in
    let s = split m i w in
    division_unique (get_shard_id m i) k m.num_per_shard (get_shard_offset m i) o (s.0) (s.1) p

module _ {ℓ} {T : Type ℓ} (m : Meta) (w : IsMeta m) (table : List ℕ) (d : Different table) where
  -- A write at a place of the table changes the element with that index.
  pub at_index-write :
      (elements : ℕ → ℕ → T) (k o shard : ℕ) (v : T) (i : ℕ)
      → get_elem? table k ≡ some shard
      → o < m.num_per_shard
      → at_index m table (assign_at elements shard (assign_at (elements shard) o v)) i
        ≡ (if (k * m.num_per_shard + o) == i then some v else at_index m table elements i)
  unfolding at_index
  at_index-write elements k o shard v i at p = elim (ℕ_discrete (k * m.num_per_shard + o) i) [
    | yes e ↦
        let place = shard_offset_lem m w k o p in
        let id : get_shard_id m i ≡ k = ap (get_shard_id m) (sym e) ∙ place.0 in
        let off : get_shard_offset m i ≡ o = ap (get_shard_offset m) (sym e) ∙ place.1 in
        rw
          (
            ==_eq e,
            id,
            off,
            at,
            assign_at_self elements shard (assign_at (elements shard) o v),
            assign_at_self (elements shard) o v,
          )
          refl
    | no ne ↦ elim (Option-cases (get_elem? table (get_shard_id m i))) [
      | inl f ↦ rw (==_ne ne, f) refl
      | inr (b, f) ↦ elim (ℕ_discrete shard b) [
        | no other ↦
            rw (==_ne ne, f, assign_at_ne elements shard b (assign_at (elements shard) o v) other)
              refl
        | yes same ↦
            let id : k ≡ get_shard_id m i =
              get-Different table k (get_shard_id m i) b d (at ∙ ap some same) f in
            let s = split m i w in
            let apart : o ≢ get_shard_offset m i = λ g. ne (
              ap (λ x. x * m.num_per_shard + o) id
              ∙ ap (λ y. get_shard_id m i * m.num_per_shard + y) g
              ∙ s.0) in
            rw
              (
                ==_ne ne,
                f,
                sym same,
                assign_at_self elements shard (assign_at (elements shard) o v),
                assign_at_ne (elements shard) o (get_shard_offset m i) v apart,
              )
              refl
      ]
    ]
  ]

  -- `std::copy_n` into a part of a shard, as long as the input has enough.
  pub record Copied (elements : ℕ → ℕ → T) (shard k o n : ℕ) (iter : List T) : Type ℓ where
    pub after : ℕ → ℕ → T
    pub front : List T
    pub back : List T
    pub whole : iter ≡ front ++ back
    pub many : length front ≡ n
    pub result : copy_range elements shard o n iter ≡ some (after, back)
    pub reads :
        (i : ℕ)
        → at_index m table after i
          ≡ overlay (seq (k * m.num_per_shard + o) n) front (at_index m table elements) i

  pub copy_range_lem :
      (n : ℕ) (elements : ℕ → ℕ → T) (shard k o : ℕ) (iter : List T)
      → get_elem? table k ≡ some shard
      → o + n ≤ m.num_per_shard
      → n ≤ length iter
      → Copied elements shard k o n iter
  unfolding copy_range
  copy_range_lem zero elements shard k o iter at p q = record {
    after = elements;
    front = [];
    back = iter;
    whole = refl;
    many = refl;
    result = refl;
    reads = λ i. refl;
  }
  copy_range_lem (suc n) elements shard k o [] at p q = absurd (omega arith)
  copy_range_lem (suc n) elements shard k o (x ∷ iter) at p q =
      let written = assign_at elements shard (assign_at (elements shard) o x) in
      let ih = copy_range_lem n written shard k (o + 1) iter at (omega arith) (omega arith) in
      let start = k * m.num_per_shard + o in
      let next : k * m.num_per_shard + (o + 1) ≡ suc start = omega arith in
      record {
        after = ih.after;
        front = x ∷ ih.front;
        back = ih.back;
        whole = ap (λ l. x ∷ l) ih.whole;
        many = ap suc ih.many;
        result = ih.result;
        reads = λ i.
            ih.reads i
            ∙ ap (λ s. overlay (seq s n) ih.front (at_index m table written) i) next
            ∙ overlay-same (seq (suc start) n) ih.front _ _
                (λ j. at_index-write elements k o shard x j at (omega arith)) i;
      }
