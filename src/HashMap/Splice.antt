-- ===== src/HashMap/Splice.antt =====
-- src/concurrent/concurrent_hashmap_detail.h: `prev->store`, which changes one pointer of a chain.
use wizard.Prelude.{
  ℕ, ◌<◌, ◌≡◌, ◌≢◌, ◌⊎◌, inl, inr, refl, sym, ap, Option, none, some, List, [], ◌∷◌, ◌++◌,
  append_assoc, length, length-set, get_or, set, get_or-set_self, get_or-set_ne,
}
use wizard.HashMap.Store.{Store}
use wizard.HashMap.Segment.{Place, head_of, next_of, Segment, write_place}
use wizard.HashMap.Chains.{Entry, Link, Chain, Avoids, Keeps, Chain-Keeps}
use wizard.HashMap.Keeps.{set_next_lem}
use wizard.HashMap.Search.{
  KeyAvoids, KeysDistinct, AllAvoid, Linked, Chain-Linked, Linked-front, KeyAvoids-Avoids,
  KeysDistinct-split, AllAvoid-key, last_place,
}

module _ {ℓ} {K V : Type ℓ} where
  -- Empty, or with a last element.
  snoc_cases :
      (bs : List (Entry K V))
      → (bs ≡ []) ⊎ ((cs : List (Entry K V)) × (e : Entry K V) × (bs ≡ cs ++ (e ∷ [])))
  snoc_cases [] = inl refl
  snoc_cases (b ∷ bs) = elim (snoc_cases bs) [
    | inl e ↦ inr ([], b, ap (λ l. b ∷ l) e)
    | inr (cs, e, h) ↦ inr (b ∷ cs, e, ap (λ l. b ∷ l) h)
  ]

  last_place_snoc :
      (prev : Place) (cs : List (Entry K V)) (e : Entry K V)
      → last_place prev (cs ++ (e ∷ [])) ≡ next_of e.address
  unfolding last_place
  last_place_snoc prev [] e = refl
  last_place_snoc prev (c ∷ cs) e = last_place_snoc (next_of c.address) cs e

  -- A node in a chain points to the rest of it.
  pub Link-of :
      (s : Store K V) (p : Option ℕ) (cs : List (Entry K V)) (e : Entry K V) (ys : List (Entry K V))
      → Chain s p (cs ++ (e ∷ ys))
      → (q : Option ℕ) × Link s e q × Chain s q ys
  Link-of s p [] e ys c = (c.1, c.2, c.3)
  Link-of s p (x ∷ cs) e ys c = Link-of s (c.1) cs e ys (c.3)

  relink :
      (s t : Store K V) (p r : Option ℕ) (cs : List (Entry K V)) (e : Entry K V)
      (ys zs : List (Entry K V))
      → Keeps s t e.address
      → Avoids e.address cs
      → Link t e r
      → Chain s p (cs ++ (e ∷ ys))
      → Chain t r zs
      → Chain t p (cs ++ (e ∷ zs))
  relink s t p r [] e ys zs k out l c d = (c.0, r, l, d)
  relink s t p r (x ∷ cs) e ys zs k out l c d =
      (c.0, c.1, k.kept x (c.1) (out.0) (c.2), relink s t (c.1) r cs e ys zs k (out.1) l (c.3) d)

  AllAvoid-last :
      (cs : List (Entry K V)) (e : Entry K V) (es : List (Entry K V))
      → AllAvoid (cs ++ (e ∷ [])) es
      → KeyAvoids e.key es
  AllAvoid-last [] e es a = a.0
  AllAvoid-last (c ∷ cs) e es a = AllAvoid-last cs e es (a.1)

  -- One pointer has changed: the chain of bucket `i` goes on differently behind `bs`.
  pub record Spliced (m n : Segment K V) (i : ℕ) (bs zs : List (Entry K V)) : Type ℓ where
    pub chained : Chain n.store (get_or n.buckets i none) (bs ++ zs)
    pub other_heads : (j : ℕ) → j ≢ i → get_or n.buckets j none ≡ get_or m.buckets j none
    pub other_chains :
        (p : Option ℕ) (es : List (Entry K V))
        → AllAvoid bs es
        → Chain m.store p es
        → Chain n.store p es
    pub same_count : length n.buckets ≡ length m.buckets
    pub same_room : length n.store.cells ≡ length m.store.cells
    pub same_size : n.size ≡ m.size

  -- The pointer that changes is the head of the bucket.
  splice_head :
      (m : Segment K V) (i : ℕ) (zs : List (Entry K V)) (r : Option ℕ)
      → i < length m.buckets
      → Chain m.store r zs
      → (n : Segment K V) × (write_place m (last_place {K = K} {V = V} (head_of i) []) r ≡ some n)
        × Spliced m n i [] zs
  unfolding last_place write_place
  splice_head m i zs r inside after = (
    record m { buckets = set m.buckets i r },
    refl,
    record {
      chained = rw (get_or-set_self m.buckets i r none inside) after;
      other_heads = λ j ne. get_or-set_ne m.buckets i j r none (λ e. ne (sym e));
      other_chains = λ p es out d. d;
      same_count = length-set m.buckets i r;
      same_room = refl;
      same_size = refl;
    },
  )

  -- It is the `next_` of a node.
  splice_next :
      (m : Segment K V) (i : ℕ) (cs : List (Entry K V)) (e : Entry K V) (ys zs : List (Entry K V))
      (r : Option ℕ)
      → Chain m.store (get_or m.buckets i none) (cs ++ (e ∷ ys))
      → KeysDistinct (cs ++ (e ∷ ys))
      → Chain m.store r zs
      → AllAvoid (cs ++ (e ∷ [])) zs
      → (n : Segment K V) × (write_place m (next_of e.address) r ≡ some n)
        × Spliced m n i (cs ++ (e ∷ [])) zs
  unfolding write_place
  splice_next m i cs e ys zs r c d after apart =
      let here = Link-of m.store (get_or m.buckets i none) cs e ys c in
      let changed = set_next_lem m.store e (here.0) r (here.1) in
      let parts = KeysDistinct-split cs (e ∷ ys) d in
      let before_linked =
        Linked-front m.store cs (e ∷ ys) (Chain-Linked m.store _ (cs ++ (e ∷ ys)) c) in
      let before_out =
        KeyAvoids-Avoids m.store e (here.0) cs (here.1) before_linked
          (AllAvoid-key cs e ys (parts.2)).0 in
      let avoid =
        λ (es : List (Entry K V)) (l : Linked m.store es) (out : AllAvoid (cs ++ (e ∷ [])) es).
          KeyAvoids-Avoids m.store e (here.0) es (here.1) l (AllAvoid-last cs e es out) in
      (
        record m { store = changed.0 },
        rw (changed.1) refl,
        record {
          chained = rw (append_assoc cs (e ∷ []) zs) (
              relink m.store (changed.0) _ r cs e ys zs (changed.2) before_out (changed.3) c (
                Chain-Keeps m.store (changed.0) e.address r zs (changed.2)
                  (avoid zs (Chain-Linked m.store r zs after) apart) after));
          other_heads = λ j ne. refl;
          other_chains = λ p es out q.
              Chain-Keeps m.store (changed.0) e.address p es (changed.2)
                (avoid es (Chain-Linked m.store p es q) out) q;
          same_count = refl;
          same_room = changed.4;
          same_size = refl;
        },
      )

  pub write_place_lem :
      (m : Segment K V) (i : ℕ) (bs ys zs : List (Entry K V)) (r : Option ℕ)
      → i < length m.buckets
      → Chain m.store (get_or m.buckets i none) (bs ++ ys)
      → KeysDistinct (bs ++ ys)
      → Chain m.store r zs
      → AllAvoid bs zs
      → (n : Segment K V) × (write_place m (last_place (head_of i) bs) r ≡ some n)
        × Spliced m n i bs zs
  write_place_lem m i bs ys zs r inside c d after apart = elim (snoc_cases bs) [
    | inl e ↦ rw e (splice_head m i zs r inside after)
    | inr (cs, e, h) ↦
        let whole = append_assoc cs (e ∷ []) ys in
        rw (h, last_place_snoc (head_of i) cs e)
          (splice_next m i cs e ys zs r (rw (h, whole) at c) (rw (h, whole) at d) after
            (rw h at apart))
  ]
