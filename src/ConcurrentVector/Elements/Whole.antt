-- ===== src/ConcurrentVector/Elements/Whole.antt =====
-- src/concurrent/vector.h: `reserve`, `ensure`, `copy_n` and `fill_n` of a vector that no other
-- thread grows.
use wizard.Prelude.{
  ℕ, zero, suc, ◌+◌, ◌-◌, ◌*◌, ◌%◌, ◌^◌, ◌≤◌, ◌<◌, ◌≡◌, ◌≢◌, ◌⊎◌, refl, sym, ◌∙◌, ap, subst, true,
  some, List, [], ◌∷◌, ◌++◌, arith, leb, ◌==◌, ==_eq, ==_ne, dec_lt, if◌then◌else◌, ◌>>=◌, length,
  length-append, get_elem?, get_elem?-append_front, get_elem?-lt,
}
use wizard.Prelude.Functions.{assign_at}
use wizard.Prelude.Pigeonhole.{Absent, Different, AllBelow, Absent-append}
use wizard.Prelude.Bits.{pow-pos}
use wizard.ConcurrentVector.{Meta, get_shard_id, get_shard_offset}
use wizard.ConcurrentVector.Covers.{IsMeta, split, shards_apart}
use wizard.ConcurrentVector.Table.{Vector, returned, current, create_shards, load_table, round_of}
use wizard.ConcurrentVector.Table.Growth.{length-create_shards}
use wizard.ConcurrentVector.Table.Lost.{ensure_table-alone}
use wizard.ConcurrentVector.Elements.{
  require_shard_num, ensure_alone, reserve, at_index, ensure, copy_n,
}
use wizard.ConcurrentVector.Elements.Overlay.{at_index-write}
use wizard.ConcurrentVector.Elements.Written.{snapshot_copy_n_lem}

-- The shards of the table are different, and no new one is among them.
pub record Sound (v : Vector) : Type 0 where
  pub different : Different (current v)
  pub old : AllBelow v.next_shard (current v)

Absent-create_shards : (a k next : ℕ) → a < next → Absent a (create_shards k next)
unfolding create_shards
Absent-create_shards a zero next p = tt
Absent-create_shards a (suc k) next p =
    (omega (arith), Absent-create_shards a k (next + 1) (omega arith))

Different-create_shards : (k next : ℕ) → Different (create_shards k next)
unfolding create_shards
Different-create_shards zero next = tt
Different-create_shards (suc k) next =
    (Absent-create_shards next k (next + 1) (omega arith), Different-create_shards k (next + 1))

Different-more :
    (xs : List ℕ) (k next : ℕ)
    → Different xs
    → AllBelow next xs
    → Different (xs ++ create_shards k next)
Different-more [] k next d b = Different-create_shards k next
Different-more (x ∷ xs) k next d b = (
  Absent-append x xs (create_shards k next) (d.0) (Absent-create_shards x k next (b.0)),
  Different-more xs k next (d.1) (b.1),
)

-- `ensure_table` without another call: long enough, and all shards that were there in their places.
pub record Ensured (v : Vector) (n : ℕ) : Type 0 where
  pub enough : n ≤ length (current (ensure_alone v n))
  pub different : Different (current (ensure_alone v n))
  pub kept :
      (i : ℕ)
      → i < length (current v)
      → get_elem? (current (ensure_alone v n)) i ≡ get_elem? (current v) i

load_short : (v : Vector) (n : ℕ) → n ≤ length (current v) → load_table v n ≡ returned n v.table
unfolding load_table
load_short v n p = let short : leb n (length (current v)) ≡ true = ground arith in rw short refl

pub ensure_alone_lem : (v : Vector) (n : ℕ) → Sound v → Ensured v n
unfolding ensure_alone round_of
ensure_alone_lem v n s = elim (dec_lt (length (current v)) n) [
  | no short ↦
      let same = ap (λ c. (round_of v c).0) (load_short v n (omega (arith, short))) in
      record {
        enough = omega (arith, ap (λ u. length (current u)) same, short);
        different = subst (λ u. Different (current u)) (sym same) s.different;
        kept = λ i p. ap (λ u. get_elem? (current u) i) same;
      }
  | yes long ↦
      let k = n - length (current v) in
      let made = create_shards k v.next_shard in
      let grown = (ensure_table-alone v n long).1 in
      record {
        enough = omega (
          arith,
          ap length grown,
          length-append (current v) made,
          length-create_shards k v.next_shard,
        );
        different =
            subst Different (sym grown)
              (Different-more (current v) k v.next_shard s.different s.old);
        kept = λ i p. ap (λ l. get_elem? l i) grown ∙ get_elem?-append_front (current v) made i p;
      }
]

le_times : (a n : ℕ) → 0 < n → a ≤ a * n
le_times zero n p = omega arith
le_times (suc a) n p =
    let more : suc a * n ≡ a * n + n = omega arith in omega (arith, more, le_times a n p)

-- The shard of an index is at most the index, and less when the index is not a shard's first.
pub get_shard_id_bound :
    (m : Meta) (i : ℕ)
    → IsMeta m
    → (get_shard_id m i ≤ i) × (0 < get_shard_offset m i → get_shard_id m i < i)
get_shard_id_bound m i w =
    let s = split m i w in
    let le =
      le_times (get_shard_id m i) m.num_per_shard (omega (arith, w.power, pow-pos m.shard_bit)) in
    (omega (arith, s.0, le), λ p. omega (arith, s.0, le))

module _ {ℓ} {T : Type ℓ} (m : Meta) (w : IsMeta m) (v : Vector) (s : Sound v) where
  -- `copy_n` of the vector, for a range that ends in a later shard than it starts in: it returns;
  -- reading the range gives the input, and every element that was there outside the range is
  -- unchanged.
  pub copy_n-at_index :
      (elements : ℕ → ℕ → T) (iter : List T) (start : ℕ)
      → get_shard_id m start < get_shard_id m (start + length iter)
      → (grown : Vector) × (after : ℕ → ℕ → T) × (copy_n m v elements iter (length iter) start
          ≡ some (grown, after))
        × ((k : ℕ)
            → k < length iter
            → at_index m (current grown) after (start + k) ≡ get_elem? iter k)
        × ((i : ℕ)
            → (i < start) ⊎ (start + length iter ≤ i)
            → get_shard_id m i < length (current v)
            → at_index m (current grown) after i ≡ at_index m (current v) elements i)
  unfolding copy_n at_index
  copy_n-at_index elements iter start order =
      let end = start + length iter in
      let e = ensure_alone_lem v end s in
      let table = current (ensure_alone v end) in
      let b = get_shard_id_bound m end w in
      let c =
        snapshot_copy_n_lem m w table e.different elements iter start order
          (omega (arith, b.0, e.enough)) (λ p. omega (arith, b.1 p, e.enough)) in
      (
        ensure_alone v end,
        c.after,
        rw c.result refl,
        c.inside,
        λ i p q.
            c.outside i p
            ∙ ap (λ o. o >>= (λ shard. some (elements shard (get_shard_offset m i))))
                (e.kept (get_shard_id m i) q),
      )

  -- A write through the reference that `ensure` returns: `ensure` returns, reading the index
  -- gives the value, and every other element that was there is unchanged.
  pub ensure-at_index :
      (elements : ℕ → ℕ → T) (index : ℕ) (value : T)
      → (grown : Vector) × (after : ℕ → ℕ → T) × (ensure m v elements index value
          ≡ some (grown, after))
        × (at_index m (current grown) after index ≡ some value)
        × ((i : ℕ)
            → index ≢ i
            → get_shard_id m i < length (current v)
            → at_index m (current grown) after i ≡ at_index m (current v) elements i)
  unfolding ensure at_index
  ensure-at_index elements index value =
      let k = get_shard_id m index in
      let o = get_shard_offset m index in
      let e = ensure_alone_lem v (k + 1) s in
      let grown = ensure_alone v (k + 1) in
      let place = get_elem?-lt (current grown) k (omega (arith, e.enough)) in
      let there = split m index w in
      let after = assign_at elements (place.0) (assign_at (elements (place.0)) o value) in
      let reads : (i : ℕ)
          → at_index m (current grown) after i
            ≡ (if index == i then some value else at_index m (current grown) elements i) =
        λ i.
          at_index-write m w (current grown) e.different elements k o (place.0) value i (place.1)
            (there.1)
          ∙ ap (λ j. if j == i then some value else at_index m (current grown) elements i)
              (there.0) in
      (
        grown,
        after,
        rw (place.1) refl,
        reads index ∙ rw (==_eq {a = index} refl) refl,
        λ i ne q.
            reads i
            ∙ rw (==_ne ne) refl
            ∙ ap (λ p. p >>= (λ shard. some (elements shard (get_shard_offset m i))))
                (e.kept (get_shard_id m i) q),
      )

get_shard_id_mono : (m : Meta) (i j : ℕ) → IsMeta m → i ≤ j → get_shard_id m i ≤ get_shard_id m j
get_shard_id_mono m i j w p =
    let a = split m i w in
    let b = split m j w in
    elim (dec_lt (get_shard_id m j) (get_shard_id m i)) [
      | no q ↦ omega (arith, q)
      | yes q ↦
          let far = shards_apart (get_shard_id m j) (get_shard_id m i) m.num_per_shard q in
          let next : (get_shard_id m j + 1) * m.num_per_shard
              ≡ get_shard_id m j * m.num_per_shard + m.num_per_shard =
            omega arith in
          absurd (omega (arith, a.0, b.0, b.1, far, next, p))
    ]

-- After `reserve` for a size of 1 to 2^64 - 1 elements the table has the shard of each index
-- below the size, and the elements that were there stay where they are.
pub reserve-at_index {ℓ} :
    {T : Type ℓ} (m : Meta) (v : Vector) (elements : ℕ → ℕ → T) (size : ℕ)
    → IsMeta m
    → Sound v
    → 0 < size
    → size < 2 ^ 64
    → ((i : ℕ) → i < size → get_shard_id m i < length (current (reserve m v size)))
      × ((i : ℕ)
          → get_shard_id m i < length (current v)
          → at_index m (current (reserve m v size)) elements i ≡ at_index m (current v) elements i)
unfolding reserve require_shard_num at_index
reserve-at_index m v elements size w s positive fits =
    let last : (size + (2 ^ 64 - 1)) % 2 ^ 64 ≡ size - 1 = omega arith in
    let e = ensure_alone_lem v (get_shard_id m ((size + (2 ^ 64 - 1)) % 2 ^ 64) + 1) s in
    (
      λ i p. omega (
        arith,
        e.enough,
        get_shard_id_mono m i ((size + (2 ^ 64 - 1)) % 2 ^ 64) w (omega (arith, last)),
      ),
      λ i p.
          ap (λ o. o >>= (λ shard. some (elements shard (get_shard_offset m i))))
            (e.kept (get_shard_id m i) p),
    )
