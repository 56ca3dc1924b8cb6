-- ===== src/HashMap/Keeps.antt =====
-- What each operation on the store does to the links between nodes.
use wizard.Prelude.{
  in_bounds, get_elem?-append_front, get_elem?-append_last, ℕ, ◌+◌, ◌-◌, ◌%◌, ◌^◌, ◌<◌, ◌≡◌, ◌≢◌,
  inl, inr, refl, sym, ◌∙◌, ap, Bool-cases, Option, none, some, List, [], ◌∷◌, arith, ◌==◌, ◌>>=◌,
  >>=-eq-some, get_elem?, length, length-append, length-set, get_elem?-set_self, get_elem?-set_ne,
  ℕ_discrete,
}
use wizard.HashMap.Store.{
  Node, Store, node_at, write_node, new_node, acquire, acquire_next, release, set_next,
}
use wizard.HashMap.Chains.{Entry, Link, Chain, Keeps, KeepsAll}

module _ {ℓ} {K V : Type ℓ} where
  pub node_at-bound :
      (s : Store K V) (a : ℕ) {n : Node K V} → node_at s a ≡ some n → a < length s.cells
  unfolding node_at
  node_at-bound s a e = in_bounds s.cells (>>=-eq-some (get_elem? s.cells a) (λ c. c) e).1

  pub node_at-write_self :
      (s : Store K V) (a : ℕ) (n : Node K V)
      → a < length s.cells
      → node_at (write_node s a n) a ≡ some n
  unfolding node_at write_node
  node_at-write_self s a n p = rw (get_elem?-set_self s.cells a (some n) p) refl

  pub node_at-write_ne :
      (s : Store K V) (a b : ℕ) (n : Node K V) → a ≢ b → node_at (write_node s a n) b ≡ node_at s b
  unfolding node_at write_node
  node_at-write_ne s a b n ne = rw (get_elem?-set_ne s.cells {i = a} {j = b} (some n) ne) refl

  length-write :
      (s : Store K V) (a : ℕ) (n : Node K V) → length (write_node s a n).cells ≡ length s.cells
  unfolding write_node
  length-write s a n = length-set s.cells a (some n)

  -- A write at `a` keeps the links of the other nodes.
  write-Keeps : (s : Store K V) (a : ℕ) (n : Node K V) → Keeps s (write_node s a n) a
  write-Keeps s a n = record {
    kept = λ e q ne l. record {
      refcount = l.refcount;
      alive = node_at-write_ne s a e.address n (λ x. ne (sym x)) ∙ l.alive;
    };
  }

  same_node : (n : Node K V) {m : Node K V} → some n ≡ some m → n ≡ m
  same_node n e = cc (e)

  -- A new count at `a` keeps every link.
  count-KeepsAll :
      (s : Store K V) (a c : ℕ) (n : Node K V)
      → node_at s a ≡ some n
      → KeepsAll s (write_node s a (record n { refcount = c }))
  count-KeepsAll s a c n at = record {
    kept = λ e q l. elim (ℕ_discrete e.address a) [
      | yes same ↦ record {
        refcount = c;
        alive =
            ap (node_at (write_node s a (record n { refcount = c }))) same
            ∙ node_at-write_self s a (record n { refcount = c }) (node_at-bound s a at)
            ∙ ap (λ (m : Node K V). some (record m { refcount = c }))
                (same_node n (sym at ∙ ap (node_at s) (sym same) ∙ l.alive));
      }
      | no ne ↦ (write-Keeps s a (record n { refcount = c })).kept e q ne l
    ];
  }

  -- The nodes that are there stay when a node is made.
  pub new_node-KeepsAll : (s : Store K V) (key : K) (value : V) → KeepsAll s (new_node s key value)
  unfolding new_node node_at
  new_node-KeepsAll s key value = record {
    kept = λ e q l. record {
      refcount = l.refcount;
      alive =
          ap (λ (x : Option (Option (Node K V))). x >>= (λ c. c))
            (get_elem?-append_front s.cells _ e.address (node_at-bound s e.address l.alive))
          ∙ l.alive;
    };
  }

  pub node_at-new_node :
      (s : Store K V) (key : K) (value : V)
      → node_at (new_node s key value) (length s.cells)
        ≡ some (record { key = key; value = value; next = none; refcount = 1 })
  unfolding new_node node_at
  node_at-new_node s key value = rw (get_elem?-append_last s.cells) refl

  pub length-new_node :
      (s : Store K V) (key : K) (value : V)
      → length (new_node s key value).cells ≡ length s.cells + 1
  unfolding new_node
  length-new_node s key value = omega (
    arith,
    length-append {ℓ} s.cells
        (some (record { key = key; value = value; next = none; refcount = 1 }) ∷ []),
  )

  -- What a counting operation returns on a node that is alive.
  pub record Counts (s t : Store K V) : Type ℓ where
    pub keeps : KeepsAll s t
    pub same_room : length t.cells ≡ length s.cells

  retire-Counts :
      (s t : Store K V) (addresses : List ℕ)
      → Counts s t
      → Counts s (record t { retired = addresses })
  unfolding node_at
  retire-Counts s t addresses c = record {
    keeps = record {
      kept =
          λ e q l. let m = c.keeps.kept e q l in record { refcount = m.refcount; alive = m.alive };
    };
    same_room = c.same_room;
  }

  pub acquire_lem :
      (s : Store K V) (a : ℕ) {n : Node K V}
      → node_at s a ≡ some n
      → (t : Store K V) × (acquire s a ≡ some t) × Counts s t
  unfolding acquire
  acquire_lem s a {n} at = (
    write_node s a (record n { refcount = (n.refcount + 1) % 2 ^ 16 }),
    rw at refl,
    record { keeps = count-KeepsAll s a _ n at; same_room = length-write s a _ },
  )

  pub release_lem :
      (s : Store K V) (a : ℕ) {n : Node K V}
      → node_at s a ≡ some n
      → (t : Store K V) × (release s a ≡ some t) × Counts s t
  unfolding release
  release_lem s a {n} at =
      let counted = write_node s a (record n { refcount = (n.refcount + (2 ^ 16 - 1)) % 2 ^ 16 }) in
      let same : Counts s counted = record {
        keeps = count-KeepsAll s a _ n at;
        same_room = length-write s a _;
      } in
      elim (Bool-cases (n.refcount == 1)) [
        | inl e ↦ (
          record counted { retired = a ∷ counted.retired },
          rw (at, e) refl,
          retire-Counts s counted (a ∷ counted.retired) same,
        )
        | inr e ↦ (counted, rw (at, e) refl, same)
      ]

  -- `next_.store` at a node that is alive.
  pub set_next_lem :
      (s : Store K V) (e : Entry K V) (p q : Option ℕ)
      → Link s e p
      → (t : Store K V) × (set_next s e.address q ≡ some t)
        × Keeps s t e.address
        × Link t e q
        × (length t.cells ≡ length s.cells)
  unfolding set_next
  set_next_lem s e p q l =
      let n : Node K V = record { key = e.key; value = e.value; next = q; refcount = l.refcount } in
      (
        write_node s e.address n,
        rw (l.alive) refl,
        write-Keeps s e.address n,
        record {
          refcount = l.refcount;
          alive = node_at-write_self s e.address n (node_at-bound s e.address l.alive);
        },
        length-write s e.address n,
      )

  -- `acquire` and `release` behind the test for null, on what a link points to.
  pub acquire_next_lem :
      (s : Store K V) (p : Option ℕ) (es : List (Entry K V))
      → Chain s p es
      → (t : Store K V) × (acquire_next s p ≡ some t) × Counts s t
  unfolding acquire_next
  acquire_next_lem s p [] c =
      rw (c.0) (s, refl, record { keeps = record { kept = λ e q l. l }; same_room = refl })
  acquire_next_lem s p (e ∷ es) c = rw (c.0) (acquire_lem s e.address (c.2.alive))
