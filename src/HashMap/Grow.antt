-- ===== src/HashMap/Grow.antt =====
-- Tables in a store that gets new nodes.
use wizard.Prelude.{
  ℕ, ◌≤◌, ◌<◌, ◌^◌, ◌≡◌, ◌∙◌, Option, none, some, List, [], ◌∷◌, arith, length, set, dec_lt,
}
use wizard.HashMap.Store.{HashKey, Store, new_node}
use wizard.HashMap.Segment.{bucket_id, push_head}
use wizard.HashMap.Chains.{Entry, Link, Avoids, KeepsAll, Chain-KeepsAll}
use wizard.HashMap.Keeps.{node_at-bound, node_at-new_node, new_node-KeepsAll, length-new_node}
use wizard.HashMap.Search.{Linked, Chain-Linked}
use wizard.HashMap.Table.{put_at, update, Table, Placed, bucket_id-lt, push_head_lem}

module _ {ℓ} {K V : Type ℓ} where
  -- No node is lost, and there may be more.
  pub record Grows (s t : Store K V) : Type ℓ where
    pub keeps : KeepsAll s t
    pub room : length s.cells ≤ length t.cells

  pub Grows-trans : (s t u : Store K V) → Grows s t → Grows t u → Grows s u
  Grows-trans s t u g h = record {
    keeps = record { kept = λ e q l. h.keeps.kept e q (g.keeps.kept e q l) };
    room = omega (arith, g.room, h.room);
  }

  -- Every entry is at an address from `n` on.
  abbrev pub Above : ℕ → List (Entry K V) → Type 0
  Above n [] = Unit {0}
  Above n (e ∷ es) = (n ≤ e.address) × Above n es

  pub Above-Avoids : (n a : ℕ) (es : List (Entry K V)) → a < n → Above n es → Avoids a es
  Above-Avoids n a [] p h = tt
  Above-Avoids n a (e ∷ es) p h =
      let above : n ≤ e.address = h.0 in (λ same. omega arith, Above-Avoids n a es p (h.1))

  -- The nodes of a chain are not at an address that has not been given out.
  Linked-Avoids : (s : Store K V) (es : List (Entry K V)) → Linked s es → Avoids (length s.cells) es
  Linked-Avoids s [] l = tt
  Linked-Avoids s (e ∷ es) l =
      let bound = node_at-bound s e.address (l.1.alive) in
      (λ same. omega (arith, bound), Linked-Avoids s es (l.2))

module _ {ℓ} {K V : Type ℓ} ⦃key_type : HashKey K⦄ where
  pub Table-KeepsAll :
      (b : ℕ) (s t : Store K V) (heads : List (Option ℕ)) (chains : ℕ → List (Entry K V))
      (f : K → Option V)
      → KeepsAll s t
      → Table b s heads chains f
      → Table b t heads chains f
  Table-KeepsAll b s t heads chains f k w = record {
    bits = w.bits;
    power = w.power;
    chained = λ i p. Chain-KeepsAll s t _ (chains i) k (w.chained i p);
    placed = w.placed;
    distinct = w.distinct;
    views = w.views;
  }

  pub Table-ext :
      (b : ℕ) (s : Store K V) (heads : List (Option ℕ)) (chains : ℕ → List (Entry K V))
      (f g : K → Option V)
      → ((k : K) → f k ≡ g k)
      → Table b s heads chains f
      → Table b s heads chains g
  Table-ext b s heads chains f g same w = record {
    bits = w.bits;
    power = w.power;
    chained = w.chained;
    placed = w.placed;
    distinct = w.distinct;
    views = λ k. w.views k ∙ same k;
  }

  Placed-beyond :
      (b bits i : ℕ) (s : Store K V) (es : List (Entry K V))
      → 2 ^ bits ≤ i
      → Placed b (2 ^ bits) i es
      → Linked s es
  Placed-beyond b bits i s [] far p = tt
  Placed-beyond b bits i s (e ∷ es) far p =
      absurd (omega (arith, p.0, bucket_id-lt b bits (key_type.hash e.key)))

  -- No bucket has a node at an address that has not been given out.
  pub Table-Avoids :
      (b : ℕ) (s : Store K V) (heads : List (Option ℕ)) (chains : ℕ → List (Entry K V))
      (f : K → Option V)
      → Table b s heads chains f
      → (j : ℕ) → Avoids (length s.cells) (chains j)
  Table-Avoids b s heads chains f w j = elim (dec_lt j (length heads)) [
    | yes p ↦ Linked-Avoids s (chains j) (Chain-Linked s _ (chains j) (w.chained j p))
    | no p ↦ Linked-Avoids s (chains j) (
        Placed-beyond b w.bits j s (chains j) (omega (arith, w.power))
          (rw (w.power) at (w.placed j)))
  ]

  -- A new node put in front of its bucket.
  pub push_new_lem :
      (b : ℕ) (s : Store K V) (heads : List (Option ℕ)) (chains : ℕ → List (Entry K V))
      (f : K → Option V) (key : K) (value : V) (i : ℕ)
      → Table b s heads chains f
      → f key ≡ none
      → bucket_id b (key_type.hash key) (length heads) ≡ i
      → (t : Store K V) × (push_head (new_node s key value) heads i (length s.cells)
          ≡ some (t, set heads i (some (length s.cells))))
        × Table b t
            (set heads i (some (length s.cells)))
            (put_at chains i
              (record { address = length s.cells; key = key; value = value } ∷ chains i))
            (update f key (some value))
        × Grows s t
  push_new_lem b s heads chains f key value i w fresh at =
      let e : Entry K V = record { address = length s.cells; key = key; value = value } in
      let made = new_node-KeepsAll s key value in
      let link : Link (new_node s key value) e none = record {
        refcount = 1;
        alive = node_at-new_node s key value;
      } in
      let pushed =
        push_head_lem b (new_node s key value) heads chains f e none i
          (Table-KeepsAll b s (new_node s key value) heads chains f made w) link
          (Table-Avoids b s heads chains f w) fresh at in
      (
        pushed.0,
        pushed.1,
        pushed.2,
        record {
          keeps = record {
            kept = λ x q l.
                let bound = node_at-bound s x.address l.alive in
                pushed.3.kept x q (λ same. omega (arith, bound)) (made.kept x q l);
          };
          room = omega (arith, pushed.4, length-new_node s key value);
        },
      )
