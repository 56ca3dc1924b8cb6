-- ===== src/ConcurrentVector/Elements/Written.antt =====
-- src/concurrent/vector.h: what `copy_n` of a snapshot writes.
use wizard.Prelude.{
  ℕ, zero, suc, ◌+◌, ◌-◌, ◌*◌, ◌≤◌, ◌<◌, ◌≡◌, ◌≢◌, ◌⊎◌, inl, inr, refl, sym, ◌∙◌, ap, subst, ◌&&◌,
  Bool-cases, Option, some, List, [], ◌∷◌, ◌++◌, arith, ◌==◌, ==_eq, ==_ne, ltb, ltb→lt,
  >>=-eq-some, length, length-append, get_elem?, get_elem?-lt,
}
use wizard.Prelude.Pigeonhole.{Different}
use wizard.ConcurrentVector.{
  Meta, Range, get_shard_id, get_shard_offset, middle, last_part, for_each,
}
use wizard.ConcurrentVector.Covers.{IsMeta, seq, covers, split, covers-for_each}
use wizard.ConcurrentVector.Elements.{at_index, copy_ranges, snapshot_copy_n}
use wizard.ConcurrentVector.Elements.Overlay.{
  overlay, overlay-same, overlay-append, Inside, copy_range_lem,
}

pub length-seq : (x k : ℕ) → length (seq x k) ≡ k
length-seq x zero = refl
length-seq x (suc k) = ap suc (length-seq (suc x) k)

-- Elements outside the indices are left alone.
overlay_outside {ℓ} :
    {T : Type ℓ} (s n : ℕ) (vs : List T) (f : ℕ → Option T) (i : ℕ)
    → (i < s) ⊎ (s + n ≤ i)
    → overlay (seq s n) vs f i ≡ f i
overlay_outside s zero vs f i p = refl
overlay_outside s (suc n) [] f i p = refl
overlay_outside s (suc n) (v ∷ vs) f i p =
    let ne : s ≢ i = ground arith in
    let q : (i < suc s) ⊎ (suc s + n ≤ i) = omega (arith, p) in
    overlay_outside (suc s) n vs _ i q ∙ rw (==_ne ne) refl

overlay_inside {ℓ} :
    {T : Type ℓ} (s n : ℕ) (vs : List T) (f : ℕ → Option T) (k : ℕ)
    → k < n
    → length vs ≡ n
    → overlay (seq s n) vs f (s + k) ≡ get_elem? vs k
overlay_inside s zero vs f k p e = absurd (omega arith)
overlay_inside s (suc n) [] f k p e = absurd (omega (arith, e))
overlay_inside s (suc n) (v ∷ vs) f zero p e =
    let same : s ≡ s + 0 = omega arith in
    overlay_outside (suc s) n vs _ (s + 0) (inl (omega arith)) ∙ rw (==_eq same) refl
overlay_inside s (suc n) (v ∷ vs) f (suc k) p e =
    let next : s + suc k ≡ suc s + k = omega arith in
    rw next (overlay_inside (suc s) n vs _ k (omega arith) (omega (arith, e)))

middle-Inside :
    (m : Meta) (shard_num end_shard rounds shard : ℕ) (rs : List Range)
    → middle m shard_num end_shard rounds shard ≡ some rs
    → Inside m shard_num rs
unfolding middle
middle-Inside m shard_num e zero shard rs h = absurd (cc (h))
middle-Inside m shard_num e (suc rounds) shard rs h = elim (Bool-cases (shard == e)) [
  | inl here ↦ let stop : [] ≡ rs = cc (rw here at h) in subst (Inside m shard_num) stop tt
  | inr far ↦ elim (Bool-cases (ltb shard shard_num)) [
    | inr behind ↦ absurd (cc (rw (far, behind) at h))
    | inl room ↦
        let more = >>=-eq-some (middle m shard_num e rounds (shard + 1)) _ (rw (far, room) at h) in
        let all : record { shard = shard; from = 0; to = m.num_per_shard } ∷ more.0 ≡ rs =
          cc (more.2) in
        subst (Inside m shard_num) all (
          (ltb→lt shard shard_num room, omega arith, omega arith),
          middle-Inside m shard_num e rounds (shard + 1) (more.0) (more.1),
        )
  ]
]

last_part-Inside :
    (m : Meta) (shard_num a e p : ℕ) (rs : List Range)
    → p ≤ m.num_per_shard
    → last_part shard_num a e p ≡ some rs
    → Inside m shard_num rs
unfolding last_part
last_part-Inside m shard_num a e p rs q h = elim (Bool-cases (ltb a e && ltb 0 p)) [
  | inr over ↦ let stop : [] ≡ rs = cc (rw over at h) in subst (Inside m shard_num) stop tt
  | inl more ↦ elim (Bool-cases (ltb e shard_num)) [
    | inr behind ↦ absurd (cc (rw (more, behind) at h))
    | inl room ↦
        let all : record { shard = e; from = 0; to = p } ∷ [] ≡ rs = cc (rw (more, room) at h) in
        subst (Inside m shard_num) all ((ltb→lt e shard_num room, omega arith, q), tt)
  ]
]

Inside-append :
    (m : Meta) (shard_num : ℕ) (rs ss : List Range)
    → Inside m shard_num rs
    → Inside m shard_num ss
    → Inside m shard_num (rs ++ ss)
Inside-append m shard_num [] ss p q = q
Inside-append m shard_num (r ∷ rs) ss p q = (p.0, Inside-append m shard_num rs ss (p.1) q)

-- What `for_each` calls the callback with lies in the table.
for_each-Inside :
    (m : Meta) (shard_num start end : ℕ) (rs : List Range)
    → IsMeta m
    → for_each m shard_num start end ≡ some rs
    → Inside m shard_num rs
unfolding for_each
for_each-Inside m shard_num start end rs w h =
    elim (Bool-cases (ltb (get_shard_id m start) shard_num)) [
      | inr behind ↦ absurd (cc (rw behind at h))
      | inl room ↦
          let a = get_shard_id m start in
          let e = get_shard_id m end in
          let o = get_shard_offset m start in
          let p = get_shard_offset m end in
          let between =
            >>=-eq-some (middle m shard_num e (shard_num + 1) (a + 1)) _ (rw room at h) in
          let last = >>=-eq-some (last_part shard_num a e p) _ (between.2) in
          let all : record { shard = a; from = o; to = m.num_per_shard } ∷ (between.0 ++ last.0)
              ≡ rs =
            cc (last.2) in
          let in_start : o ≤ m.num_per_shard = omega (arith, (split m start w).1) in
          let in_end : p ≤ m.num_per_shard = omega (arith, (split m end w).1) in
          subst (Inside m shard_num) all (
            (ltb→lt a shard_num room, in_start, omega arith),
            Inside-append m shard_num (between.0) (last.0)
                (middle-Inside m shard_num e (shard_num + 1) (a + 1) (between.0) (between.1))
                (last_part-Inside m shard_num a e p (last.0) in_end (last.1)),
          )
    ]

module _ {ℓ} {T : Type ℓ} (m : Meta) (w : IsMeta m) (table : List ℕ) (d : Different table) where
  record CopiedAll (elements : ℕ → ℕ → T) (rs : List Range) (iter : List T) : Type ℓ where
    after : ℕ → ℕ → T
    result : copy_ranges table rs elements iter ≡ some (after, [])
    reads :
        (i : ℕ)
        → at_index m table after i ≡ overlay (covers m rs) iter (at_index m table elements) i

  copy_ranges_lem :
      (rs : List Range) (elements : ℕ → ℕ → T) (iter : List T)
      → Inside m (length table) rs
      → length iter ≡ length (covers m rs)
      → CopiedAll elements rs iter
  unfolding copy_ranges
  copy_ranges_lem [] elements [] fits many = record {
    after = elements;
    result = refl;
    reads = λ i. refl;
  }
  copy_ranges_lem [] elements (x ∷ iter) fits many = absurd (omega (arith, many))
  copy_ranges_lem (r ∷ rs) elements iter fits many =
      let n = r.to - r.from in
      let s = seq (r.shard * m.num_per_shard + r.from) n in
      let size : length (s ++ covers m rs) ≡ n + length (covers m rs) =
        omega (
          arith,
          length-append s (covers m rs),
          length-seq (r.shard * m.num_per_shard + r.from) n,
        ) in
      let shard = get_elem?-lt table r.shard ((fits.0).0) in
      let c =
        copy_range_lem m w table d n elements (shard.0) r.shard r.from iter (shard.1)
          (omega (arith, (fits.0).1, (fits.0).2)) (omega (arith, many, size)) in
      let rest =
        copy_ranges_lem rs c.after c.back (fits.1)
          (omega (arith, many, size, ap length c.whole, length-append c.front c.back, c.many)) in
      record {
        after = rest.after;
        result = rw (shard.1, c.result) rest.result;
        reads = λ i.
            rest.reads i
            ∙ overlay-same (covers m rs) c.back _ _ c.reads i
            ∙ sym (
                overlay-append s (covers m rs) c.front c.back (at_index m table elements) i
                  (omega (arith, c.many, length-seq (r.shard * m.num_per_shard + r.from) n)))
            ∙ ap (λ l. overlay (s ++ covers m rs) l (at_index m table elements) i) (sym c.whole);
      }

  -- What a snapshot's `copy_n` has written.
  pub record Written (elements : ℕ → ℕ → T) (iter : List T) (start : ℕ) : Type ℓ where
    pub after : ℕ → ℕ → T
    pub result : snapshot_copy_n m table elements iter (length iter) start ≡ some after
    pub inside : (k : ℕ) → k < length iter → at_index m table after (start + k) ≡ get_elem? iter k
    pub outside :
        (i : ℕ)
        → (i < start) ⊎ (start + length iter ≤ i)
        → at_index m table after i ≡ at_index m table elements i

  pub snapshot_copy_n_lem :
      (elements : ℕ → ℕ → T) (iter : List T) (start : ℕ)
      → get_shard_id m start < get_shard_id m (start + length iter)
      → get_shard_id m (start + length iter) ≤ length table
      → (0 < get_shard_offset m (start + length iter)
          → get_shard_id m (start + length iter) < length table)
      → Written elements iter start
  unfolding snapshot_copy_n
  snapshot_copy_n_lem elements iter start order fits last_fits =
      let n = length iter in
      let f = covers-for_each m (length table) start (start + n) w order fits last_fits in
      let count : start + n - start ≡ n = omega arith in
      let all : covers m (f.0) ≡ seq start n = f.2 ∙ ap (seq start) count in
      let c =
        copy_ranges_lem (f.0) elements iter
          (for_each-Inside m (length table) start (start + n) (f.0) w (f.1))
          (sym (ap length all ∙ length-seq start n)) in
      let reads : (i : ℕ)
          → at_index m table c.after i ≡ overlay (seq start n) iter (at_index m table elements) i =
        λ i. c.reads i ∙ ap (λ l. overlay l iter (at_index m table elements) i) all in
      record {
        after = c.after;
        result = rw (f.1, c.result) refl;
        inside = λ k p.
            reads (start + k) ∙ overlay_inside start n iter (at_index m table elements) k p refl;
        outside = λ i p. reads i ∙ overlay_outside start n iter (at_index m table elements) i p;
      }
