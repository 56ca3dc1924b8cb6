-- ===== src/SkipList/Search.antt =====
-- src/container/skiplist.h: `_search_equal_or_greater`.
use wizard.Prelude.{
  ℕ, zero, suc, ◌+◌, ◌≤◌, ◌<◌, ◌≡◌, inl, inr, refl, sym, ◌∙◌, ap, subst, Bool, true, false,
  Bool-cases, Option-cases, Option, some, List, [], ◌∷◌, ◌++◌, arith, ltb, lt→ltb, length,
  length-append, ℕ_discrete,
}
use wizard.Prelude.Functions.{assign_at, assign_at_self, assign_at_ne}
use wizard.SkipList.{SkipListNode, Store, Element, skip, walk, search, search_only}
use wizard.SkipList.Layers.{
  next_tall, final_tall, next_split, next_tall-append, final_tall-hides, final_tall-none,
}
use wizard.SkipList.Models.{height_of, value_of, Linked, Links, Compare}

module _ {ℓ} {T : Type ℓ} (E : Element T) (s : Store T) (value : T) where
  -- A node with the smaller ones behind it, and behind these the others.
  pub record Stands (back : List ℕ) (cur : ℕ) (mid : List ℕ) : Type ℓ where
    pub linked : Linked s cur (mid ++ back)
    pub links : Links s mid back
    pub small : Compare E value true s mid

  pub value-read :
      (a : ℕ) (v : T)
      → value_of s a ≡ some v
      → (n : SkipListNode T) × (s.nodes a ≡ some n) × (n.value ≡ v)
  value-read a v e = elim (Option-cases (s.nodes a)) [
    | inl e' ↦ absurd (cc (rw e' at e))
    | inr (n, e') ↦ (n, e', cc (rw e' at e))
  ]

  Compare-next :
      (b : Bool) (xs : List ℕ) (i c : ℕ)
      → Compare E value b s xs
      → next_tall (height_of s) i xs ≡ some c
      → (v : T) × (value_of s c ≡ some v) × (E.less v value ≡ b)
  Compare-next b [] i c k e = absurd (cc (e))
  Compare-next b (x ∷ xs) i c k e = elim (Bool-cases (ltb i (height_of s x))) [
    | inl high ↦
        let same : x ≡ c = cc (rw high at e) in
        subst (λ y. (v : T) × (value_of s y ≡ some v) × (E.less v value ≡ b)) same (k.0)
    | inr low ↦ Compare-next b xs i c (k.1) (rw low at e)
  ]

  Stands-later :
      (back : List ℕ) (low ys : List ℕ) (b : ℕ)
      → Links s (low ++ (b ∷ ys)) back
      → Compare E value true s (low ++ (b ∷ ys))
      → Stands back b ys
  Stands-later back [] ys b l k = record { linked = l.0; links = l.1; small = k.1 }
  Stands-later back (x ∷ low) ys b l k = Stands-later back low ys b (l.1) (k.1)

  walk-stop :
      (fuel i cur : ℕ) (back : List ℕ)
      → Compare E value false s back
      → walk E (suc fuel) s i value cur (next_tall (height_of s) i back)
        ≡ some (cur, next_tall (height_of s) i back)
  unfolding walk
  walk-stop fuel i cur back large = elim (Option-cases (next_tall (height_of s) i back)) [
    | inl e ↦ rw e refl
    | inr (c, e) ↦
        let at = Compare-next false back i c large e in
        let n = value-read c (at.0) (at.1) in rw (e, n.1, n.2, at.2) refl
  ]

  -- Where the walk along layer `i` ends.
  record Walked (back : List ℕ) (i fuel cur : ℕ) (mid : List ℕ) (next : Option ℕ) : Type ℓ where
    place : ℕ
    rest : List ℕ
    result : walk E fuel s i value cur next ≡ some (place, next_tall (height_of s) i back)
    stands : Stands back place rest
    high : i < height_of s place
    finals :
        (j : ℕ)
        → j ≤ i
        → final_tall (height_of s) j (place ∷ rest) ≡ final_tall (height_of s) j (cur ∷ mid)
    final : final_tall (height_of s) i (cur ∷ mid) ≡ some place
    shorter : length rest ≤ length mid

  walk-step :
      (fuel i cur b : ℕ) (p : Option ℕ) (v : T)
      → value_of s b ≡ some v
      → E.less v value ≡ true
      → skip s b i ≡ some p
      → walk E (suc fuel) s i value cur (some b) ≡ walk E fuel s i value b p
  unfolding walk
  walk-step fuel i cur b p v at small e = let n = value-read b v at in rw (n.1, n.2, small, e) refl

  walk_lem :
      (back : List ℕ)
      → Compare E value false s back
      → (i fuel cur : ℕ) (mid : List ℕ) → length mid < fuel
      → i < height_of s cur
      → Stands back cur mid
      → Walked back i fuel cur mid (next_tall (height_of s) i (mid ++ back))
  walk_lem back large i zero cur mid enough high st = absurd (omega arith)
  walk_lem back large i (suc fuel) cur mid enough high st =
      elim (Option-cases (next_tall (height_of s) i mid)) [
        | inl e ↦ record {
          place = cur;
          rest = mid;
          result =
              rw (next_tall-append (height_of s) i mid back, e) (walk-stop fuel i cur back large);
          stands = st;
          high = high;
          finals = λ j p. refl;
          final = rw (final_tall-none (height_of s) i mid e, lt→ltb i (height_of s cur) high) refl;
          shorter = omega arith;
        }
        | inr (b, e) ↦
            let at = next_split (height_of s) i mid b e in
            let low = at.0 in
            let ys = at.1 in
            let here : mid ≡ low ++ (b ∷ ys) = at.2 in
            let st' =
              Stands-later back low ys b (subst (λ l. Links s l back) here st.links)
                (subst (Compare E value true s) here st.small) in
            let found = Compare-next true mid i b st.small e in
            let long : length mid ≡ length low + suc (length ys) =
              ap length here ∙ length-append low (b ∷ ys) in
            let ih = walk_lem back large i fuel b ys (omega (arith, long)) (at.3) st' in
            record {
              place = ih.place;
              rest = ih.rest;
              result =
                  rw (next_tall-append (height_of s) i mid back, e)
                    (walk-step fuel i cur b _ (found.0) (found.1) (found.2)
                        (st'.linked.skips i (at.3))
                      ∙ ih.result);
              stands = ih.stands;
              high = ih.high;
              finals = λ j p.
                  ih.finals j p
                  ∙ sym (
                      ap (λ l. final_tall (height_of s) j (cur ∷ l)) here
                      ∙ final_tall-hides (height_of s) j (cur ∷ low) ys b (omega (arith, at.3)));
              final =
                  ap (λ l. final_tall (height_of s) i (cur ∷ l)) here
                  ∙ final_tall-hides (height_of s) i (cur ∷ low) ys b (at.3)
                  ∙ ih.final;
              shorter = omega (arith, ih.shorter, long);
            }
      ]

  -- The pointer that the loop over the layers ends with.
  abbrev pub bottom : ℕ → Option ℕ → List ℕ → Option ℕ
  bottom zero next back = next
  bottom (suc i) next back = next_tall (height_of s) 0 back

  bottom_lem :
      (i : ℕ) (back : List ℕ)
      → bottom i (next_tall (height_of s) i back) back ≡ next_tall (height_of s) 0 back
  bottom_lem zero back = refl
  bottom_lem (suc i) back = refl

  pub bottom_high :
      (i : ℕ) (next : Option ℕ) (back : List ℕ)
      → 0 < i
      → bottom i next back ≡ next_tall (height_of s) 0 back
  bottom_high zero next back p = absurd (omega arith)
  bottom_high (suc i) next back p = refl

  -- What a search from layer `i - 1` down finds: the first of the larger ones, and for each layer
  -- the last of the smaller ones.
  pub record Found (back : List ℕ) (fuel : ℕ) (prevs : ℕ → Option ℕ) (cur : ℕ) (mid : List ℕ)
      (next : Option ℕ) (i : ℕ) : Type ℓ where
    pub after : ℕ → Option ℕ
    pub result : search E fuel s value prevs cur next i ≡ some (bottom i next back, after)
    pub alone : search_only E fuel s value cur next i ≡ some (bottom i next back)
    pub set : (j : ℕ) → j < i → after j ≡ final_tall (height_of s) j (cur ∷ mid)
    kept : (j : ℕ) → i ≤ j → after j ≡ prevs j

  pub search_lem :
      (back : List ℕ)
      → Compare E value false s back
      → (fuel : ℕ) (prevs : ℕ → Option ℕ) (cur : ℕ) (mid : List ℕ) (next : Option ℕ) (i : ℕ)
      → length mid < fuel
      → i ≤ height_of s cur
      → Stands back cur mid
      → Found back fuel prevs cur mid next i
  unfolding search search_only
  search_lem back large fuel prevs cur mid next zero enough high st = record {
    after = prevs;
    result = refl;
    alone = refl;
    set = λ j p. absurd (omega arith);
    kept = λ j p. refl;
  }
  search_lem back large fuel prevs cur mid next (suc i) enough high st =
      let w = walk_lem back large i fuel cur mid enough (omega arith) st in
      let now = assign_at prevs i (some w.place) in
      let first = next_tall (height_of s) i back in
      let ih =
        search_lem back large fuel now w.place w.rest first i (omega (arith, w.shorter))
          (omega (arith, w.high)) w.stands in
      let reads = st.linked.skips i (omega arith) in
      record {
        after = ih.after;
        result =
            rw (reads, w.result) (ih.result ∙ ap (λ n. some (n, ih.after)) (bottom_lem i back));
        alone = rw (reads, w.result) (ih.alone ∙ ap some (bottom_lem i back));
        set = λ j p. elim (ℕ_discrete i j) [
          | yes e ↦
              ih.kept j (omega arith)
              ∙ ap now (sym e)
              ∙ assign_at_self prevs i (some w.place)
              ∙ sym w.final
              ∙ ap (λ k. final_tall (height_of s) k (cur ∷ mid)) e
          | no ne ↦ ih.set j (omega (arith, ne)) ∙ w.finals j (omega arith)
        ];
        kept = λ j p. ih.kept j (omega arith) ∙ assign_at_ne prevs i j (some w.place) (omega arith);
      }
