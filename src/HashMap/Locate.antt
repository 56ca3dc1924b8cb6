-- ===== src/HashMap/Locate.antt =====
-- src/concurrent/concurrent_hashmap_detail.h: where a key is in its chain, and `find`.
use wizard.Prelude.{
  ℕ, ◌+◌, ◌≡◌, ◌⊎◌, inl, inr, refl, sym, ◌∙◌, ap, Option, none, some, List, [], ◌∷◌, ◌++◌, ◌>>=◌,
  length, get_or, get_elem?-eq-get_or,
}
use wizard.HashMap.Store.{HashKey, Store, node_at}
use wizard.HashMap.Segment.{Segment, bucket_id, find}
use wizard.HashMap.Chains.{Entry}
use wizard.HashMap.Search.{
  KeyAvoids, before, from, head_address, before-append-from, find_node_lem, Chain-short,
}
use wizard.HashMap.Splice.{Link-of}
use wizard.HashMap.Table.{lookup, Table, same_self, same_ne, home, none-lookup}
use wizard.HashMap.Update.{from_cases}
use wizard.HashMap.Methods.{Models}

module _ {ℓ} {K V : Type ℓ} ⦃key_type : HashKey K⦄ where
  lookup_behind :
      (k : K) (bs : List (Entry K V)) (o : Entry K V) (ys : List (Entry K V))
      → o.key ≡ k
      → KeyAvoids k bs
      → lookup k (bs ++ (o ∷ ys)) ≡ some o.value
  unfolding lookup
  lookup_behind k [] o ys same out = rw (same, same_self k) refl
  lookup_behind k (x ∷ bs) o ys same out =
      rw (same_ne k x.key (λ s. out.0 (sym s))) (lookup_behind k bs o ys same (out.1))

  -- A key of the map is the key of one node of its bucket, and no other key is.
  pub locate :
      (b : ℕ) (s : Store K V) (heads : List (Option ℕ)) (chains : ℕ → List (Entry K V))
      (f : K → Option V) (k : K) (i : ℕ)
      → Table b s heads chains f
      → bucket_id b (key_type.hash k) (length heads) ≡ i
      → ((from k (chains i) ≡ []) × (f k ≡ none))
        ⊎ ((o : Entry K V) × (ys : List (Entry K V)) × (from k (chains i) ≡ o ∷ ys)
            × (o.key ≡ k)
            × KeyAvoids k (before k (chains i))
            × (before k (chains i) ++ (o ∷ ys) ≡ chains i)
            × (f k ≡ some o.value))
  locate b s heads chains f k i w at =
      let view : lookup k (chains i) ≡ f k = ap (λ j. lookup k (chains j)) (sym at) ∙ w.views k in
      elim (from_cases k (chains i)) [
        | inl (e, _, out) ↦ inl (e, sym view ∙ none-lookup k (chains i) out)
        | inr (o, ys, e, same, out) ↦
            let whole =
              ap (λ l. before k (chains i) ++ l) (sym e) ∙ before-append-from k (chains i) in
            inr (
              o,
              ys,
              e,
              same,
              out,
              whole,
              sym view
                  ∙ ap (lookup k) (sym whole)
                  ∙ lookup_behind k (before k (chains i)) o ys same out,
            )
      ]

  -- What an iterator at this node is read for.
  abbrev pub value_at : Store K V → Option ℕ → Option V
  value_at s none = none
  value_at s (some p) = node_at s p >>= (λ n. some n.value)

  -- `find` returns, and the node it found holds the value of the key; without one there is no node.
  pub find-Models :
      (b : ℕ) (m : Segment K V) (f : K → Option V) (k : K)
      → Models b m f
      → (r : Option ℕ) × (find b (key_type.hash k) k m ≡ some r) × (value_at m.store r ≡ f k)
  unfolding find head_address
  find-Models b m f k w =
      let i = bucket_id b (key_type.hash k) (length m.buckets) in
      let es = w.chains i in
      let c = w.table.chained i (home w.table (key_type.hash k)) in
      let read = get_elem?-eq-get_or m.buckets i none (home w.table (key_type.hash k)) in
      (
        head_address (from k es),
        rw read (
            find_node_lem m.store k (length m.store.cells + 1) (get_or m.buckets i none) es c
              (Chain-short m.store (get_or m.buckets i none) es c (w.table.distinct i))),
        elim (locate b m.store m.buckets w.chains f k i w.table refl) [
          | inl (e, absent) ↦ rw e (sym absent)
          | inr (o, ys, e, same, out, whole, value) ↦
              let at =
                Link-of m.store (get_or m.buckets i none) (before k es) o ys
                  (rw (sym whole) at c) in
              rw (e, at.1.alive) (sym value)
        ],
      )
