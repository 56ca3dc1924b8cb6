-- ===== src/HashMap/Overlay.antt =====
-- src/concurrent/concurrent_hashmap_detail.h: the map after a part of the buckets has been copied.
use wizard.Prelude.{
  ℕ, suc, ◌≡◌, ◌≢◌, inl, inr, refl, sym, ◌∙◌, ap, true, false, Bool-cases, Option, none, some, List,
  [], ◌∷◌, arith, ltb, if◌then◌else◌, ℕ_discrete,
}
use wizard.HashMap.Store.{HashKey}
use wizard.HashMap.Segment.{bucket_id}
use wizard.HashMap.Chains.{Entry}
use wizard.HashMap.Search.{KeyAvoids}
use wizard.HashMap.Table.{update, lookup, Placed, same_ne}

module _ {ℓ} {K V : Type ℓ} ⦃key_type : HashKey K⦄ where
  -- The entries where they have the key, and the map `f` elsewhere.
  abbrev pub overlay : List (Entry K V) → (K → Option V) → K → Option V
  overlay [] f k = f k
  overlay (e ∷ es) f k = if key_type.same k e.key then some e.value else overlay es f k

  -- None of the keys is in the map.
  abbrev pub AllNew : (K → Option V) → List (Entry K V) → Type ℓ
  AllNew f [] = Unit {ℓ}
  AllNew f (e ∷ es) = (f e.key ≡ none) × AllNew f es

  pub AllNew-update :
      (f : K → Option V) (e : Entry K V) (es : List (Entry K V))
      → KeyAvoids e.key es
      → AllNew f es
      → AllNew (update f e.key (some e.value)) es
  AllNew-update f e [] out new = tt
  AllNew-update f e (x ∷ es) out new =
      (rw (same_ne x.key e.key (out.0)) (new.0), AllNew-update f e es (out.1) (new.1))

  pub overlay-update :
      (f : K → Option V) (e : Entry K V) (es : List (Entry K V)) (k : K)
      → KeyAvoids e.key es
      → overlay es (update f e.key (some e.value)) k ≡ overlay (e ∷ es) f k
  overlay-update f e [] k out = refl
  overlay-update f e (x ∷ es) k out = elim (Bool-cases (key_type.same k x.key)) [
    | inl t ↦ rw (t, same_ne k e.key (λ s. out.0 (sym ((key_type.same_iff k x.key).0 t) ∙ s))) refl
    | inr g ↦ rw g (overlay-update f e es k (out.1))
  ]

  pub overlay_avoid :
      (es : List (Entry K V)) (f : K → Option V) (k : K) → KeyAvoids k es → overlay es f k ≡ f k
  overlay_avoid [] f k out = refl
  overlay_avoid (e ∷ es) f k out =
      rw (same_ne k e.key (λ s. out.0 (sym s))) (overlay_avoid es f k (out.1))

  pub overlay-lookup :
      (es : List (Entry K V)) (f : K → Option V) (k : K) → f k ≡ none → overlay es f k ≡ lookup k es
  unfolding lookup
  overlay-lookup [] f k e = e
  overlay-lookup (x ∷ es) f k e = elim (Bool-cases (key_type.same k x.key)) [
    | inl t ↦ rw t refl
    | inr g ↦ rw g (overlay-lookup es f k e)
  ]

  pub Placed-KeyAvoids :
      (b count i : ℕ) (es : List (Entry K V)) (k : K)
      → Placed b count i es
      → bucket_id b (key_type.hash k) count ≢ i
      → KeyAvoids k es
  Placed-KeyAvoids b count i [] k p ne = tt
  Placed-KeyAvoids b count i (e ∷ es) k p ne = (
    λ same. ne (ap (λ q. bucket_id b (key_type.hash q) count) (sym same) ∙ p.0),
    Placed-KeyAvoids b count i es k (p.1) ne,
  )

  -- The part of a map whose keys belong in the first `j` of `count` buckets.
  abbrev pub part : ℕ → ℕ → (K → Option V) → ℕ → K → Option V
  part b count f j k = if ltb (bucket_id b (key_type.hash k) count) j then f k else none

  pub AllNew-part :
      (b count j : ℕ) (f : K → Option V) (es : List (Entry K V))
      → Placed b count j es
      → AllNew (part b count f j) es
  AllNew-part b count j f [] p = tt
  AllNew-part b count j f (e ∷ es) p =
      let past : ltb (bucket_id b (key_type.hash e.key) count) j ≡ false = ground (arith, p.0) in
      (rw past refl, AllNew-part b count j f es (p.1))

  pub overlay-part :
      (b count j : ℕ) (f : K → Option V) (chains : ℕ → List (Entry K V)) (k : K)
      → Placed b count j (chains j)
      → lookup k (chains (bucket_id b (key_type.hash k) count)) ≡ f k
      → overlay (chains j) (part b count f j) k ≡ part b count f (suc j) k
  overlay-part b count j f chains k p view =
      let h = bucket_id b (key_type.hash k) count in
      elim (ℕ_discrete h j) [
        | yes e ↦
            let past : ltb h j ≡ false = ground arith in
            let now : ltb h (suc j) ≡ true = ground arith in
            overlay-lookup (chains j) (part b count f j) k (rw past refl)
            ∙ ap (λ i. lookup k (chains i)) (sym e)
            ∙ view
            ∙ rw now refl
        | no ne ↦
            let same : ltb h j ≡ ltb h (suc j) = ground arith in
            overlay_avoid (chains j) (part b count f j) k
              (Placed-KeyAvoids b count j (chains j) k p ne)
            ∙ rw same refl
      ]
