-- ===== src/HashMap/Update.antt =====
-- src/concurrent/concurrent_hashmap_detail.h: what a changed pointer makes of the map.
use wizard.Prelude.{
  ℕ, ◌≡◌, ◌≢◌, ◌⊎◌, inl, inr, refl, sym, ◌∙◌, ap, Bool-cases, Option, none, some, List, [], ◌∷◌,
  ◌++◌, arith, subst, ==_eq, ==_ne, if◌then◌else◌, length, ℕ_discrete,
}
use wizard.HashMap.Store.{HashKey, Store}
use wizard.HashMap.Segment.{Segment, bucket_id}
use wizard.HashMap.Chains.{Entry, Avoids, Keeps, Chain-Keeps}
use wizard.HashMap.Search.{
  KeyAvoids, KeysDistinct, AllAvoid, KeysDistinct-split, KeysDistinct-append, AllAvoid-key, before,
  from,
}
use wizard.HashMap.Splice.{Spliced}
use wizard.HashMap.Table.{put_at, lookup, Table, Placed, same_ne, ne_of_same, none-lookup}
use wizard.HashMap.Overlay.{Placed-KeyAvoids}

module _ {ℓ} {K V : Type ℓ} ⦃key_type : HashKey K⦄ where
  pub from_cases :
      (k : K) (es : List (Entry K V))
      → ((from k es ≡ []) × (before k es ≡ es) × KeyAvoids k es)
        ⊎ ((o : Entry K V) × (ys : List (Entry K V)) × (from k es ≡ o ∷ ys)
            × (o.key ≡ k)
            × KeyAvoids k (before k es))
  unfolding before from
  from_cases k [] = inl (refl, refl, tt)
  from_cases k (e ∷ es) = elim (Bool-cases (key_type.same k e.key)) [
    | inl t ↦ rw t (inr (e, es, refl, sym ((key_type.same_iff k e.key).0 t), tt))
    | inr f ↦
        let ne = ne_of_same k e.key f in
        rw f (elim (from_cases k es) [
          | inl (a, c, d) ↦ inl (a, ap (λ l. e ∷ l) c, (λ s. ne (sym s), d))
          | inr (o, ys, a, c, d) ↦ inr (o, ys, a, c, (λ s. ne (sym s), d))
        ])
  ]

  AllAvoid-same :
      (bs : List (Entry K V)) (o e : Entry K V) (ys : List (Entry K V))
      → o.key ≡ e.key
      → AllAvoid bs (o ∷ ys)
      → AllAvoid bs (e ∷ ys)
  AllAvoid-same [] o e ys same a = tt
  AllAvoid-same (b ∷ bs) o e ys same a =
      ((λ s. a.0.0 (same ∙ s), a.0.1), AllAvoid-same bs o e ys same (a.1))

  -- A node with the same key in the place of another.
  pub KeysDistinct-replace :
      (bs : List (Entry K V)) (o e : Entry K V) (ys : List (Entry K V))
      → o.key ≡ e.key
      → KeysDistinct (bs ++ (o ∷ ys))
      → KeysDistinct (bs ++ (e ∷ ys)) × AllAvoid bs (e ∷ ys)
  KeysDistinct-replace bs o e ys same d =
      let parts = KeysDistinct-split bs (o ∷ ys) d in
      let apart = AllAvoid-same bs o e ys same (parts.2) in
      (
        KeysDistinct-append bs (e ∷ ys) (parts.0)
            (subst (λ k. KeyAvoids k ys) same (parts.1.0), parts.1.1) apart,
        apart,
      )

  -- One node less.
  pub KeysDistinct-drop :
      (bs : List (Entry K V)) (o : Entry K V) (ys : List (Entry K V))
      → KeysDistinct (bs ++ (o ∷ ys))
      → KeysDistinct (bs ++ ys) × AllAvoid bs ys × KeyAvoids o.key bs × KeyAvoids o.key ys
  KeysDistinct-drop bs o ys d =
      let parts = KeysDistinct-split bs (o ∷ ys) d in
      let out = AllAvoid-key bs o ys (parts.2) in
      (KeysDistinct-append bs ys (parts.0) (parts.1.1) (out.1), out.1, out.0, parts.1.0)

  pub lookup-replace :
      (k : K) (bs : List (Entry K V)) (o e : Entry K V) (ys : List (Entry K V))
      → o.key ≡ e.key
      → KeyAvoids e.key bs
      → lookup k (bs ++ (e ∷ ys))
        ≡ (if key_type.same k e.key then some e.value else lookup k (bs ++ (o ∷ ys)))
  unfolding lookup
  lookup-replace k [] o e ys same out = elim (Bool-cases (key_type.same k e.key)) [
    | inl t ↦ rw t refl
    | inr f ↦ rw (same, f) refl
  ]
  lookup-replace k (b ∷ bs) o e ys same out = elim (Bool-cases (key_type.same k b.key)) [
    | inl t ↦ rw (t, same_ne k e.key (λ s. out.0 (sym ((key_type.same_iff k b.key).0 t) ∙ s))) refl
    | inr f ↦ rw f (lookup-replace k bs o e ys same (out.1))
  ]

  pub lookup-drop :
      (k : K) (bs : List (Entry K V)) (o : Entry K V) (ys : List (Entry K V))
      → KeyAvoids o.key bs
      → KeyAvoids o.key ys
      → lookup k (bs ++ ys) ≡ (if key_type.same k o.key then none else lookup k (bs ++ (o ∷ ys)))
  unfolding lookup
  lookup-drop k [] o ys out after = elim (Bool-cases (key_type.same k o.key)) [
    | inl t ↦ rw t (
        none-lookup k ys
          (subst (λ q. KeyAvoids q ys) (sym ((key_type.same_iff k o.key).0 t)) after))
    | inr f ↦ rw f refl
  ]
  lookup-drop k (b ∷ bs) o ys out after = elim (Bool-cases (key_type.same k b.key)) [
    | inl t ↦ rw (t, same_ne k o.key (λ s. out.0 (sym ((key_type.same_iff k b.key).0 t) ∙ s))) refl
    | inr f ↦ rw f (lookup-drop k bs o ys (out.1) after)
  ]

  pub Placed-AllAvoid :
      (b count i j : ℕ) (bs es : List (Entry K V))
      → i ≢ j
      → Placed b count i bs
      → Placed b count j es
      → AllAvoid bs es
  Placed-AllAvoid b count i j [] es ne p q = tt
  Placed-AllAvoid b count i j (x ∷ bs) es ne p q = (
    Placed-KeyAvoids b count j es x.key q (λ e. ne (sym (p.0) ∙ e)),
    Placed-AllAvoid b count i j bs es ne (p.1) q,
  )

  pub Placed-split :
      (b count i : ℕ) (bs ys : List (Entry K V))
      → Placed b count i (bs ++ ys)
      → Placed b count i bs × Placed b count i ys
  Placed-split b count i [] ys p = (tt, p)
  Placed-split b count i (x ∷ bs) ys p =
      let rest = Placed-split b count i bs ys (p.1) in ((p.0, rest.0), rest.1)

  pub Placed-append :
      (b count i : ℕ) (bs ys : List (Entry K V))
      → Placed b count i bs
      → Placed b count i ys
      → Placed b count i (bs ++ ys)
  Placed-append b count i [] ys p q = q
  Placed-append b count i (x ∷ bs) ys p q = (p.0, Placed-append b count i bs ys (p.1) q)

  -- One node is written, and no bucket has it.
  pub Table-Keeps :
      (b : ℕ) (s t : Store K V) (a : ℕ) (heads : List (Option ℕ)) (chains : ℕ → List (Entry K V))
      (f : K → Option V)
      → Keeps s t a
      → ((j : ℕ) → Avoids a (chains j))
      → Table b s heads chains f
      → Table b t heads chains f
  Table-Keeps b s t a heads chains f k out w = record {
    bits = w.bits;
    power = w.power;
    chained = λ i p. Chain-Keeps s t a _ (chains i) k (out i) (w.chained i p);
    placed = w.placed;
    distinct = w.distinct;
    views = w.views;
  }

  -- A bucket goes on differently behind `bs`, and stands for `g` on its keys.
  pub Table-Spliced :
      (b : ℕ) (m n : Segment K V) (i : ℕ) (chains : ℕ → List (Entry K V)) (f g : K → Option V)
      (bs zs : List (Entry K V))
      → Table b m.store m.buckets chains f
      → Spliced m n i bs zs
      → Placed b (length m.buckets) i (bs ++ zs)
      → KeysDistinct (bs ++ zs)
      → ((k : K) → bucket_id b (key_type.hash k) (length m.buckets) ≡ i → lookup k (bs ++ zs) ≡ g k)
      → ((k : K) → bucket_id b (key_type.hash k) (length m.buckets) ≢ i → f k ≡ g k)
      → Table b n.store n.buckets (put_at chains i (bs ++ zs)) g
  Table-Spliced b m n i chains f g bs zs w s p d here there = record {
    bits = w.bits;
    power = s.same_count ∙ w.power;
    chained = λ j q. elim (ℕ_discrete i j) [
      | yes same ↦ rw (==_eq same, sym same) s.chained
      | no ne ↦
          rw (==_ne ne, s.other_heads j (λ e. ne (sym e)))
            (s.other_chains _ (chains j)
              (Placed-AllAvoid b (length m.buckets) i j bs (chains j) ne
                (Placed-split b (length m.buckets) i bs zs p).0 (w.placed j))
              (w.chained j (omega (arith, s.same_count))))
    ];
    placed = λ j. elim (ℕ_discrete i j) [
      | yes same ↦
          rw (s.same_count, ==_eq same)
            (subst (λ k. Placed b (length m.buckets) k (bs ++ zs)) same p)
      | no ne ↦ rw (s.same_count, ==_ne ne) (w.placed j)
    ];
    distinct = λ j. elim (ℕ_discrete i j) [
      | yes same ↦ rw (==_eq same) d
      | no ne ↦ rw (==_ne ne) (w.distinct j)
    ];
    views = λ k. elim (ℕ_discrete i (bucket_id b (key_type.hash k) (length m.buckets))) [
      | yes same ↦ rw (s.same_count, ==_eq same) (here k (sym same))
      | no ne ↦ rw (s.same_count, ==_ne ne) (w.views k ∙ there k (λ e. ne (sym e)))
    ];
  }
