-- ===== src/SkipList/Loops.antt =====
-- src/container/skiplist-inl.h, src/container/skiplist.h: what the loops that set pointers change.
use wizard.Prelude.{
  ℕ, zero, suc, ◌≤◌, ◌<◌, ◌≡◌, ◌≢◌, ◌⊎◌, inl, inr, refl, sym, ◌∙◌, subst, Option-cases, Option,
  some, arith, lt→ltb, ℕ_discrete,
}
use wizard.SkipList.{Store, skip, copy_skip_pointer, link_layers, unlink_layers}
use wizard.SkipList.Models.{height_of}
use wizard.SkipList.Write.{Wrote, Wrote-refl, Wrote-trans, set_skip_lem}

other_place : {P : Type 0} {l j : ℕ} → j ≤ l → (suc l ≤ j) ⊎ P → P
other_place le (inl p) = absurd (omega arith)
other_place le (inr p) = p

lower : {P : Type 0} {l j : ℕ} → (suc l ≤ j) ⊎ P → (l ≤ j) ⊎ P
lower (inl p) = inl (omega arith)
lower (inr p) = inr p

module _ {ℓ} {T : Type ℓ} where
  -- The loop that sets the pointers to a new node, for so many layers.
  pub record Threaded (s : Store T) (node : ℕ) (prevs : ℕ → Option ℕ) (place : ℕ → ℕ) (layers : ℕ)
      : Type ℓ where
    pub after : Store T
    pub result : link_layers s node prevs layers ≡ some after
    pub wrote : Wrote s after
    pub from : (j : ℕ) → j < layers → skip after (place j) j ≡ some (some node)
    pub to : (j : ℕ) → j < layers → skip after node j ≡ skip s (place j) j
    pub others : (b j : ℕ) → node ≢ b → (layers ≤ j) ⊎ (place j ≢ b) → skip after b j ≡ skip s b j
    pub above : (j : ℕ) → layers ≤ j → skip after node j ≡ skip s node j

  skip-some : (s : Store T) (a i : ℕ) → i < height_of s a → (p : Option ℕ) × (skip s a i ≡ some p)
  unfolding skip
  skip-some s a i high = elim (Option-cases (s.nodes a)) [
    | inl e ↦ absurd (omega (arith, rw e at high))
    | inr (n, e) ↦
        let tall : i < n.height = rw e at high in (n.skip i, rw (e, lt→ltb i n.height tall) refl)
  ]

  pub link_layers_lem :
      (node : ℕ) (prevs : ℕ → Option ℕ) (place : ℕ → ℕ) (layers : ℕ) (s : Store T)
      → ((j : ℕ) → j < layers → prevs j ≡ some (place j))
      → ((j : ℕ) → j < layers → node ≢ place j)
      → ((j : ℕ) → j < layers → j < height_of s (place j))
      → layers ≤ height_of s node
      → Threaded s node prevs place layers
  unfolding link_layers
  link_layers_lem node prevs place zero s known apart high tall = record {
    after = s;
    result = refl;
    wrote = Wrote-refl s;
    from = λ j p. absurd (omega arith);
    to = λ j p. absurd (omega arith);
    others = λ b j ne p. refl;
    above = λ j p. refl;
  }
  link_layers_lem node prevs place (suc l) s known apart high tall =
      let old = skip-some s (place l) l (high l (omega arith)) in
      let w1 = set_skip_lem s node l (old.0) (omega arith) in
      let t = w1.after in
      let w2 =
        set_skip_lem t (place l) l (some node)
          (omega (arith, w1.wrote.heights (place l), high l (omega arith))) in
      let u = w2.after in
      let w = Wrote-trans s t u w1.wrote w2.wrote in
      let ih =
        link_layers_lem node prevs place l u (λ j p. known j (omega arith))
          (λ j p. apart j (omega arith))
          (λ j p. omega (arith, w.heights (place j), high j (omega arith)))
          (omega (arith, w.heights node)) in
      let same : (b j : ℕ) → l ≢ j → skip u b j ≡ skip s b j =
        λ b j ne. w2.elsewhere b j (inr ne) ∙ w1.elsewhere b j (inr ne) in
      let other : (b j : ℕ) → node ≢ b → place l ≢ b → skip u b j ≡ skip s b j =
        λ b j ne ne'. w2.elsewhere b j (inl ne') ∙ w1.elsewhere b j (inl ne) in
      let at_node : skip u node l ≡ skip s (place l) l =
        w2.elsewhere node l (inl (λ e. apart l (omega arith) (sym e))) ∙ w1.here ∙ sym (old.1) in
      record {
        after = ih.after;
        result = rw (known l (omega arith), old.1, w1.result, w2.result) ih.result;
        wrote = Wrote-trans s u ih.after w ih.wrote;
        from = λ j p. elim (ℕ_discrete l j) [
          | yes e ↦
              subst (λ k. skip ih.after (place k) k ≡ some (some node)) e
                (ih.others (place l) l (apart l (omega arith)) (inl (omega arith)) ∙ w2.here)
          | no ne ↦ ih.from j (omega (arith, ne))
        ];
        to = λ j p. elim (ℕ_discrete l j) [
          | yes e ↦
              subst (λ k. skip ih.after node k ≡ skip s (place k) k) e
                (ih.above l (omega arith) ∙ at_node)
          | no ne ↦ ih.to j (omega (arith, ne)) ∙ same (place j) j ne
        ];
        others = λ b j ne p. elim (ℕ_discrete l j) [
          | yes e ↦
              ih.others b j ne (inl (omega arith))
              ∙ other b j ne (subst (λ k. place k ≢ b) (sym e) (other_place (omega arith) p))
          | no ne' ↦ ih.others b j ne (lower p) ∙ same b j ne'
        ];
        above = λ j p. ih.above j (omega arith) ∙ same node j (omega arith);
      }

  -- The loop that takes a node out of its layers.
  pub record Unthreaded (s : Store T) (node : ℕ) (prevs : ℕ → Option ℕ) (place : ℕ → ℕ) (layers : ℕ)
      : Type ℓ where
    pub after : Store T
    pub result : unlink_layers s node prevs layers ≡ some after
    pub wrote : Wrote s after
    pub from : (j : ℕ) → j < layers → skip after (place j) j ≡ skip s node j
    pub others : (b j : ℕ) → (layers ≤ j) ⊎ (place j ≢ b) → skip after b j ≡ skip s b j

  pub unlink_layers_lem :
      (node : ℕ) (prevs : ℕ → Option ℕ) (place : ℕ → ℕ) (layers : ℕ) (s : Store T)
      → ((j : ℕ) → j < layers → prevs j ≡ some (place j))
      → ((j : ℕ) → j < layers → place j ≢ node)
      → ((j : ℕ) → j < layers → j < height_of s (place j))
      → layers ≤ height_of s node
      → Unthreaded s node prevs place layers
  unfolding unlink_layers
  unlink_layers_lem node prevs place zero s known apart high tall = record {
    after = s;
    result = refl;
    wrote = Wrote-refl s;
    from = λ j p. absurd (omega arith);
    others = λ b j p. refl;
  }
  unlink_layers_lem node prevs place (suc l) s known apart high tall =
      let old = skip-some s node l (omega arith) in
      let w = set_skip_lem s (place l) l (old.0) (high l (omega arith)) in
      let u = w.after in
      let ih =
        unlink_layers_lem node prevs place l u (λ j p. known j (omega arith))
          (λ j p. apart j (omega arith))
          (λ j p. omega (arith, w.wrote.heights (place j), high j (omega arith)))
          (omega (arith, w.wrote.heights node)) in
      record {
        after = ih.after;
        result = rw (known l (omega arith), old.1, w.result) ih.result;
        wrote = Wrote-trans s u ih.after w.wrote ih.wrote;
        from = λ j p. elim (ℕ_discrete l j) [
          | yes e ↦
              subst (λ k. skip ih.after (place k) k ≡ skip s node k) e
                (ih.others (place l) l (inl (omega arith)) ∙ w.here ∙ sym (old.1))
          | no ne ↦ ih.from j (omega (arith, ne)) ∙ w.elsewhere node j (inr ne)
        ];
        others = λ b j p. elim (ℕ_discrete l j) [
          | yes e ↦
              ih.others b j (inl (omega arith))
              ∙ w.elsewhere b j
                  (inl (subst (λ k. place k ≢ b) (sym e) (other_place (omega arith) p)))
          | no ne' ↦ ih.others b j (lower p) ∙ w.elsewhere b j (inr ne')
        ];
      }

  -- `copy_skip_pointer`
  pub record Copied (s : Store T) (node head layers : ℕ) : Type ℓ where
    pub after : Store T
    pub result : copy_skip_pointer s node head layers ≡ some after
    pub wrote : Wrote s after
    pub copied : (j : ℕ) → j < layers → skip after node j ≡ skip s head j
    pub above : (j : ℕ) → layers ≤ j → skip after node j ≡ skip s node j
    pub others : (b j : ℕ) → node ≢ b → skip after b j ≡ skip s b j

  pub copy_skip_pointer_lem :
      (s : Store T) (node head layers : ℕ)
      → node ≢ head
      → layers ≤ height_of s node
      → layers ≤ height_of s head
      → Copied s node head layers
  unfolding copy_skip_pointer
  copy_skip_pointer_lem s node head zero apart tall high = record {
    after = s;
    result = refl;
    wrote = Wrote-refl s;
    copied = λ j p. absurd (omega arith);
    above = λ j p. refl;
    others = λ b j ne. refl;
  }
  copy_skip_pointer_lem s node head (suc l) apart tall high =
      let ih = copy_skip_pointer_lem s node head l apart (omega arith) (omega arith) in
      let t = ih.after in
      let old = skip-some t head l (omega (arith, ih.wrote.heights head)) in
      let w = set_skip_lem t node l (old.0) (omega (arith, ih.wrote.heights node)) in
      record {
        after = w.after;
        result = rw (ih.result, old.1) w.result;
        wrote = Wrote-trans s t w.after ih.wrote w.wrote;
        copied = λ j p. elim (ℕ_discrete l j) [
          | yes e ↦
              subst (λ k. skip w.after node k ≡ skip s head k) e
                (w.here ∙ sym (old.1) ∙ ih.others head l apart)
          | no ne ↦ w.elsewhere node j (inr ne) ∙ ih.copied j (omega (arith, ne))
        ];
        above = λ j p. w.elsewhere node j (inr (omega arith)) ∙ ih.above j (omega arith);
        others = λ b j ne. w.elsewhere b j (inl ne) ∙ ih.others b j ne;
      }
