-- ===== src/HashMap/Insert.antt =====
-- src/concurrent/concurrent_hashmap_detail.h: `insert_internal` and `insert` as changes to a map.
use wizard.Prelude.{
  ℕ, ◌+◌, ◌<◌, ◌≡◌, inl, inr, refl, sym, ◌∙◌, ap, true, Bool-cases, Option, none, some, List, [],
  ◌∷◌, ◌++◌, arith, leb, if◌then◌else◌, ◌>>=◌, length, length-append, length-set, get_or,
  get_elem?-eq-get_or, get_elem?, set,
}
use wizard.HashMap.Store.{HashKey, new_node}
use wizard.HashMap.Segment.{
  Place, head_of, Segment, bucket_id, search, any, insert_found, insert_internal, insert,
}
use wizard.HashMap.Chains.{Entry, Avoids, Chain-KeepsAll, Chain-Keeps}
use wizard.HashMap.Keeps.{acquire_next_lem, set_next_lem}
use wizard.HashMap.Search.{KeyAvoids, before, last_place, head_address, search_lem, Chain-short}
use wizard.HashMap.Splice.{Link-of}
use wizard.HashMap.Table.{held, put_at, update, lookup, same_ne, total-put, home, push_head_lem}
use wizard.HashMap.Grow.{Table-KeepsAll}
use wizard.HashMap.Update.{
  KeysDistinct-replace, lookup-replace, Placed-split, Placed-append, Table-Keeps,
}
use wizard.HashMap.Methods.{Models}
use wizard.HashMap.Locate.{locate}
use wizard.HashMap.Unlink.{unlink_lem}
use wizard.HashMap.Fresh.{Fresh, made-Fresh, rehash-Fresh}

module _ {ℓ} {K V : Type ℓ} ⦃key_type : HashKey K⦄ where
  push-Fresh :
      (b : ℕ) (e : Entry K V) (m : Segment K V) (f : K → Option V) (i : ℕ) (prev : Place)
      → Fresh b e m f
      → bucket_id b (key_type.hash e.key) (length m.buckets) ≡ i
      → f e.key ≡ none
      → (n : Segment K V) × (insert_found any e.address i (prev, none) m ≡ some (true, n))
        × Models b n (update f e.key (some e.value))
        × (n.size ≡ m.size + 1)
  unfolding insert_found
  push-Fresh b e m f i prev h at absent =
      let w = h.models in
      let inside : i < length m.buckets = rw at at (home w.table (key_type.hash e.key)) in
      let heads = set m.buckets i (some e.address) in
      let pushed =
        push_head_lem b m.store m.buckets w.chains f e none i w.table h.link h.out absent at in
      (
        record m { store = pushed.0; buckets = heads; size = m.size + 1 },
        rw (pushed.1) refl,
        record {
          chains = put_at w.chains i (e ∷ w.chains i);
          table = pushed.2;
          sized = rw (length-set m.buckets i (some e.address)) (
              omega
                (arith, w.sized, total-put (length m.buckets) i w.chains (e ∷ w.chains i) inside));
        },
        refl,
      )

  Avoids-split : (a : ℕ) (bs ys : List (Entry K V)) → Avoids a (bs ++ ys) → Avoids a ys
  Avoids-split a [] ys h = h
  Avoids-split a (x ∷ bs) ys h = Avoids-split a bs ys (h.1)

  replace-Fresh :
      (b : ℕ) (e : Entry K V) (m : Segment K V) (f : K → Option V) (i : ℕ) (o : Entry K V)
      (ys : List (Entry K V))
      → (h : Fresh b e m f) → bucket_id b (key_type.hash e.key) (length m.buckets) ≡ i
      → o.key ≡ e.key
      → KeyAvoids e.key (before e.key (h.models.chains i))
      → before e.key (h.models.chains i) ++ (o ∷ ys) ≡ h.models.chains i
      → (n : Segment K V) × (insert_found any e.address i
            (last_place (head_of i) (before e.key (h.models.chains i)), some o.address)
            m
          ≡ some (true, n))
        × Models b n (update f e.key (some e.value))
        × (n.size ≡ m.size)
  unfolding insert_found
  replace-Fresh b e m f i o ys h at same away whole =
      let w = h.models in
      let bs = before e.key (w.chains i) in
      let inside : i < length m.buckets = rw at at (home w.table (key_type.hash e.key)) in
      let old =
        Link-of m.store (get_or m.buckets i none) bs o ys
          (rw (sym whole) at (w.table.chained i inside)) in
      let q = old.0 in
      let counted = acquire_next_lem m.store q ys (old.2) in
      let s = counted.0 in
      let linked = set_next_lem s e none q (counted.2.keeps.kept e none h.link) in
      let t = linked.0 in
      let out = Avoids-split e.address bs (o ∷ ys) (rw (sym whole) at (h.out i)) in
      let behind =
        Chain-Keeps s t e.address q ys (linked.2) (out.1)
          (Chain-KeepsAll m.store s q ys counted.2.keeps (old.2)) in
      let keys = KeysDistinct-replace bs o e ys same (rw (sym whole) at (w.table.distinct i)) in
      let places =
        Placed-split b (length m.buckets) i bs (o ∷ ys) (rw (sym whole) at (w.table.placed i)) in
      let table =
        Table-Keeps b s t e.address m.buckets w.chains f (linked.2) h.out
          (Table-KeepsAll b m.store s m.buckets w.chains f counted.2.keeps w.table) in
      let done =
        unlink_lem b (record m { store = t }) w.chains f (update f e.key (some e.value)) i
          (some e.address) bs o ys (e ∷ ys) table inside whole (refl, q, linked.3, behind) (keys.1)
          (keys.0) (Placed-append b (length m.buckets) i bs (e ∷ ys) (places.0) (at, places.1.1))
          (λ x d.
            lookup-replace x bs o e ys same away
            ∙ rw whole (
                ap (λ v. if key_type.same x e.key then some e.value else v)
                  (ap (λ j. lookup x (w.chains j)) (sym d) ∙ w.table.views x)))
          (λ x ne.
            rw
              (same_ne x e.key
                (λ s. ne (ap (λ q. bucket_id b (key_type.hash q) (length m.buckets)) s ∙ at)))
              refl) in
      (
        record (done.0) { store = done.1 },
        rw (old.1.alive, counted.1, linked.1, done.2, done.3) refl,
        record {
          chains = put_at w.chains i (bs ++ (e ∷ ys));
          table = done.4.table;
          sized = rw (done.4.same_count) (
              omega (
                arith,
                done.4.same_size,
                w.sized,
                total-put (length m.buckets) i w.chains (bs ++ (e ∷ ys)) inside,
                ap length whole,
                length-append bs (o ∷ ys),
                length-append bs (e ∷ ys),
              ));
        },
        done.4.same_size,
      )

  -- `insert_internal` from the choice of the bucket on.
  place-Fresh :
      (b : ℕ) (e : Entry K V) (m : Segment K V) (f : K → Option V) (i : ℕ)
      → Fresh b e m f
      → bucket_id b (key_type.hash e.key) (length m.buckets) ≡ i
      → (n : Segment K V) × (get_elem? m.buckets i >>= (λ head.
            search (length m.store.cells + 1) m.store e.key (head_of i) head
            >>= (λ found. insert_found any e.address i found m))
          ≡ some (true, n))
        × Models b n (update f e.key (some e.value))
        × (n.size + held (f e.key) ≡ m.size + 1)
  unfolding head_address held
  place-Fresh b e m f i h at =
      let w = h.models in
      let es = w.chains i in
      let inside : i < length m.buckets = rw at at (home w.table (key_type.hash e.key)) in
      let read = get_elem?-eq-get_or m.buckets i none inside in
      let c = w.table.chained i inside in
      let found =
        search_lem m.store e.key (length m.store.cells + 1) (head_of i) (get_or m.buckets i none) es
          c (Chain-short m.store (get_or m.buckets i none) es c (w.table.distinct i)) in
      elim (locate b m.store m.buckets w.chains f e.key i w.table at) [
        | inl (empty, absent) ↦
            rw (read, found, empty, absent)
              (let done =
                  push-Fresh b e m f i (last_place (head_of i) (before e.key es)) h at absent in
                (done.0, done.1, done.2, omega (arith, done.3)))
        | inr (o, ys, first, same, away, whole, value) ↦
            rw (read, found, first, value)
              (let done = replace-Fresh b e m f i o ys h at same away whole in
                (done.0, done.1, done.2, omega (arith, done.3)))
      ]

  -- `insert` returns true, whether it rehashes or not: the key has the value, every other key
  -- is as before, and the size is one more if the key is new.
  pub insert-Models :
      (b : ℕ) (m : Segment K V) (f : K → Option V) (k : K) (v : V)
      → Models b m f
      → (n : Segment K V) × (insert b (key_type.hash k) k v m ≡ some (true, n))
        × Models b n (update f k (some v))
        × (n.size + held (f k) ≡ m.size + 1)
  unfolding insert insert_internal
  insert-Models b m f k v w =
      let e : Entry K V = record { address = length m.store.cells; key = k; value = v } in
      let m1 : Segment K V = record m { store = new_node m.store k v } in
      let made = made-Fresh b m f k v w in
      elim (Bool-cases (leb m.load_factor_cnt_threshold m.size)) [
        | inl full ↦
            let r = rehash-Fresh b e m1 f made in
            let done =
              place-Fresh b e (r.0) f (bucket_id b (key_type.hash k) (length r.0.buckets)) (r.2)
                refl in
            (done.0, rw (full, r.1, done.1) refl, done.2, omega (arith, done.3, r.3))
        | inr room ↦
            let done =
              place-Fresh b e m1 f (bucket_id b (key_type.hash k) (length m.buckets)) made refl in
            (done.0, rw (room, done.1) refl, done.2, done.3)
      ]
