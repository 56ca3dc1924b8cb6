-- ===== src/HashMap/Fresh.antt =====
-- src/concurrent/concurrent_hashmap_detail.h: the new node of `insert` before it is in a bucket.
use wizard.Prelude.{ℕ, suc, ◌*◌, ◌^◌, ◌≡◌, Option, none, some, arith, length}
use native.Mathlib.Nat.{pow-suc}
use wizard.HashMap.Store.{HashKey, new_node}
use wizard.HashMap.Segment.{Segment, rehash}
use wizard.HashMap.Chains.{Entry, Link, Avoids}
use wizard.HashMap.Keeps.{node_at-bound, node_at-new_node, new_node-KeepsAll}
use wizard.HashMap.Grow.{Above-Avoids, Table-KeepsAll, Table-Avoids}
use wizard.HashMap.Methods.{Models, rehash_lem}

module _ {ℓ} {K V : Type ℓ} ⦃key_type : HashKey K⦄ where
  -- The segment is the map `f`, and the node of `e` is made but in no bucket yet.
  pub record Fresh (b : ℕ) (e : Entry K V) (m : Segment K V) (f : K → Option V) : Type ℓ where
    pub models : Models b m f
    pub link : Link m.store e none
    pub out : (j : ℕ) → Avoids e.address (models.chains j)

  -- The new node after `new Node(key, value)`.
  pub made-Fresh :
      (b : ℕ) (m : Segment K V) (f : K → Option V) (k : K) (v : V)
      → Models b m f
      → Fresh b
          (record { address = length m.store.cells; key = k; value = v })
          (record m { store = new_node m.store k v })
          f
  made-Fresh b m f k v w = record {
    models = record {
      chains = w.chains;
      table =
          Table-KeepsAll b m.store (new_node m.store k v) m.buckets w.chains f
            (new_node-KeepsAll m.store k v) w.table;
      sized = w.sized;
    };
    link = record { refcount = 1; alive = node_at-new_node m.store k v };
    out = Table-Avoids b m.store m.buckets w.chains f w.table;
  }

  -- A rehash does not touch the new node, and no bucket has it after.
  pub rehash-Fresh :
      (b : ℕ) (e : Entry K V) (m : Segment K V) (f : K → Option V)
      → Fresh b e m f
      → (n : Segment K V) × (rehash b (2 * length m.buckets) m ≡ some n)
        × Fresh b e n f
        × (n.size ≡ m.size)
  rehash-Fresh b e m f h =
      let bits = h.models.table.bits in
      let twice : 2 * length m.buckets ≡ 2 ^ suc bits =
        omega (arith, h.models.table.power, pow-suc 2 bits) in
      let r = rehash_lem b (suc bits) m f h.models in
      rw twice (
        r.0,
        r.1,
        record {
          models = r.2.models;
          link = r.2.grows.keeps.kept e none h.link;
          out = λ j.
              Above-Avoids (length m.store.cells) e.address (r.2.models.chains j)
                (node_at-bound m.store e.address h.link.alive) (r.2.above j);
        },
        r.2.same_size,
      )
