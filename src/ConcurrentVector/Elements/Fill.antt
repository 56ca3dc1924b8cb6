-- ===== src/ConcurrentVector/Elements/Fill.antt =====
-- src/concurrent/vector.h: `fill_n` is `copy_n` of as many copies of the value.
use wizard.Prelude.{
  ℕ, zero, suc, ◌+◌, ◌-◌, ◌*◌, ◌<◌, ◌≡◌, refl, sym, ◌∙◌, ap, Option-cases, inl, inr, some, List, [],
  ◌∷◌, ◌++◌, arith, ◌>>=◌, length, length-append, get_elem?, replicate,
}
use wizard.ConcurrentVector.{Meta, Range, get_shard_id, for_each}
use wizard.ConcurrentVector.Covers.{IsMeta, seq, covers, covers-for_each}
use wizard.ConcurrentVector.Table.{Vector, current}
use wizard.ConcurrentVector.Elements.{
  ensure_alone, copy_range, copy_ranges, snapshot_copy_n, copy_n, fill_range, fill_ranges,
  snapshot_fill_n, fill_n,
}
use wizard.ConcurrentVector.Elements.Written.{length-seq}
use wizard.ConcurrentVector.Elements.Whole.{Sound, ensure_alone_lem, get_shard_id_bound}

module _ {ℓ} {T : Type ℓ} where
  replicate-add : (j k : ℕ) (x : T) → replicate (j + k) x ≡ replicate j x ++ replicate k x
  replicate-add zero k x = let e : 0 + k ≡ k = omega arith in ap (λ n. replicate n x) e
  replicate-add (suc j) k x =
      let e : suc j + k ≡ suc (j + k) = omega arith in
      ap (λ n. replicate n x) e ∙ ap (λ l. x ∷ l) (replicate-add j k x)

  copy_range-replicate :
      (n : ℕ) (elements : ℕ → ℕ → T) (shard o : ℕ) (value : T) (rest : List T)
      → copy_range elements shard o n (replicate n value ++ rest)
        ≡ some (fill_range elements shard o n value, rest)
  unfolding copy_range fill_range
  copy_range-replicate zero elements shard o value rest = refl
  copy_range-replicate (suc n) elements shard o value rest =
      copy_range-replicate n _ shard (o + 1) value rest

  module _ (m : Meta) (table : List ℕ) (value : T) where
    copy_ranges-replicate :
        (rs : List Range) (elements : ℕ → ℕ → T)
        → copy_ranges table rs elements (replicate (length (covers m rs)) value)
          ≡ (fill_ranges table rs elements value >>= (λ e. some (e, [])))
    unfolding copy_ranges fill_ranges
    copy_ranges-replicate [] elements = refl
    copy_ranges-replicate (r ∷ rs) elements =
        let n = r.to - r.from in
        let s = seq (r.shard * m.num_per_shard + r.from) n in
        let size : length (s ++ covers m rs) ≡ n + length (covers m rs) = omega (
          arith,
          length-append s (covers m rs),
          length-seq (r.shard * m.num_per_shard + r.from) n,
        ) in
        let parts : replicate (length (s ++ covers m rs)) value
            ≡ replicate n value ++ replicate (length (covers m rs)) value =
          ap (λ k. replicate k value) size ∙ replicate-add n (length (covers m rs)) value in
        elim (Option-cases (get_elem? table r.shard)) [
          | inl e ↦ rw e refl
          | inr (shard, e) ↦
              rw
                (
                  e,
                  parts,
                  copy_range-replicate n elements shard r.from value
                      (replicate (length (covers m rs)) value),
                )
                (copy_ranges-replicate rs (fill_range elements shard r.from n value))
        ]

    snapshot_fill_n_lem :
        (elements : ℕ → ℕ → T) (start count : ℕ) (rs : List Range)
        → for_each m (length table) start (start + count) ≡ some rs
        → covers m rs ≡ seq start count
        → snapshot_fill_n m table elements start count value
          ≡ snapshot_copy_n m table elements (replicate count value) count start
    unfolding snapshot_fill_n snapshot_copy_n
    snapshot_fill_n_lem elements start count rs e all =
        let many : length (covers m rs) ≡ count = ap length all ∙ length-seq start count in
        let copied : copy_ranges table rs elements (replicate count value)
            ≡ (fill_ranges table rs elements value >>= (λ f. some (f, []))) =
          ap (λ k. copy_ranges table rs elements (replicate k value)) (sym many)
          ∙ copy_ranges-replicate rs elements in
        elim (Option-cases (fill_ranges table rs elements value)) [
          | inl f ↦ rw (e, copied, f) refl
          | inr (after, f) ↦ rw (e, copied, f) refl
        ]

-- `fill_n` of the vector, for a range that ends in a later shard than it starts in, does what
-- `copy_n` does with as many copies of the value.
pub fill_n-copy_n {ℓ} :
    {T : Type ℓ} (m : Meta) (v : Vector) (elements : ℕ → ℕ → T) (start count : ℕ) (value : T)
    → IsMeta m
    → Sound v
    → get_shard_id m start < get_shard_id m (start + count)
    → fill_n m v elements start count value
      ≡ copy_n m v elements (replicate count value) count start
unfolding fill_n copy_n
fill_n-copy_n m v elements start count value w s order =
    let end = start + count in
    let e = ensure_alone_lem v end s in
    let table = current (ensure_alone v end) in
    let b = get_shard_id_bound m end w in
    let f =
      covers-for_each m (length table) start end w order (omega (arith, b.0, e.enough))
        (λ p. omega (arith, b.1 p, e.enough)) in
    let exact : end - start ≡ count = omega arith in
    rw
      (snapshot_fill_n_lem m table value elements start count (f.0) (f.1)
        (f.2 ∙ ap (seq start) exact))
      refl
