-- ===== src/HashMap/Erase.antt =====
-- src/concurrent/concurrent_hashmap_detail.h: `erase` as a change to a map.
use wizard.Prelude.{
  ℕ, ◌+◌, ◌<◌, ◌≡◌, inl, inr, refl, sym, ◌∙◌, ap, Bool-cases, Option, none, some, List, ◌∷◌, ◌++◌,
  arith, if◌then◌else◌, length, length-append, get_or, get_elem?-eq-get_or,
}
use wizard.HashMap.Store.{HashKey}
use wizard.HashMap.Segment.{one_less, head_of, Segment, bucket_id, erase_found, erase}
use wizard.HashMap.Chains.{Entry, Chain-KeepsAll}
use wizard.HashMap.Keeps.{acquire_next_lem}
use wizard.HashMap.Search.{before, last_place, head_address, search_lem, Chain-short}
use wizard.HashMap.Splice.{Link-of}
use wizard.HashMap.Table.{held, put_at, update, lookup, same_ne, total-put, home}
use wizard.HashMap.Grow.{Table-KeepsAll, Table-ext}
use wizard.HashMap.Update.{KeysDistinct-drop, lookup-drop, Placed-split, Placed-append}
use wizard.HashMap.Methods.{Models}
use wizard.HashMap.Locate.{locate}
use wizard.HashMap.Unlink.{unlink_lem}

one_less_lem : (n : ℕ) → 0 < n → one_less n + 1 ≡ n
unfolding one_less
one_less_lem n p = ground arith

module _ {ℓ} {K V : Type ℓ} ⦃key_type : HashKey K⦄ where
  erase_found_lem :
      (b : ℕ) (m : Segment K V) (f : K → Option V) (k : K) (i : ℕ) (o : Entry K V)
      (ys : List (Entry K V))
      → (w : Models b m f) → bucket_id b (key_type.hash k) (length m.buckets) ≡ i
      → o.key ≡ k
      → before k (w.chains i) ++ (o ∷ ys) ≡ w.chains i
      → (n : Segment K V) × (erase_found
            (last_place (head_of i) (before k (w.chains i)), some o.address)
            m
          ≡ some n)
        × Models b n (update f k none)
        × (n.size + 1 ≡ m.size)
  unfolding erase_found
  erase_found_lem b m f k i o ys w at same whole =
      let bs = before k (w.chains i) in
      let inside : i < length m.buckets = rw at at (home w.table (key_type.hash k)) in
      let old =
        Link-of m.store (get_or m.buckets i none) bs o ys
          (rw (sym whole) at (w.table.chained i inside)) in
      let q = old.0 in
      let counted = acquire_next_lem m.store q ys (old.2) in
      let s = counted.0 in
      let m1 : Segment K V = record m { store = s; size = one_less m.size } in
      let some_left : 0 < m.size = omega (
        arith,
        w.sized,
        total-put (length m.buckets) i w.chains ys inside,
        ap length whole,
        length-append bs (o ∷ ys),
      ) in
      let keys = KeysDistinct-drop bs o ys (rw (sym whole) at (w.table.distinct i)) in
      let places =
        Placed-split b (length m.buckets) i bs (o ∷ ys) (rw (sym whole) at (w.table.placed i)) in
      let done =
        unlink_lem b m1 w.chains f (update f k none) i q bs o ys ys
          (Table-KeepsAll b m.store s m.buckets w.chains f counted.2.keeps w.table) inside whole
          (Chain-KeepsAll m.store s q ys counted.2.keeps (old.2)) (keys.1) (keys.0)
          (Placed-append b (length m.buckets) i bs ys (places.0) (places.1.1))
          (λ x e.
            lookup-drop x bs o ys (keys.2) (keys.3)
            ∙ rw (whole, same)
                (ap (λ v. if key_type.same x k then none else v)
                  (ap (λ j. lookup x (w.chains j)) (sym e) ∙ w.table.views x)))
          (λ x ne.
            rw
              (same_ne x k
                (λ s. ne (ap (λ q. bucket_id b (key_type.hash q) (length m.buckets)) s ∙ at)))
              refl) in
      (
        record (done.0) { store = done.1 },
        rw (old.1.alive, counted.1, done.2, done.3) refl,
        record {
          chains = put_at w.chains i (bs ++ ys);
          table = done.4.table;
          sized = rw (done.4.same_count) (
              omega (
                arith,
                done.4.same_size,
                one_less_lem m.size some_left,
                w.sized,
                total-put (length m.buckets) i w.chains (bs ++ ys) inside,
                ap length whole,
                length-append bs (o ∷ ys),
                length-append bs ys,
              ));
        },
        omega (
          arith,
          done.4.same_size,
          one_less_lem m.size some_left,
          w.sized,
          total-put (length m.buckets) i w.chains (bs ++ ys) inside,
          ap length whole,
          length-append bs (o ∷ ys),
          length-append bs ys,
        ),
      )

  pub erase_absent : (f : K → Option V) (k : K) → f k ≡ none → (x : K) → f x ≡ update f k none x
  erase_absent f k absent x = elim (Bool-cases (key_type.same x k)) [
    | inl t ↦ rw t (ap f ((key_type.same_iff x k).0 t) ∙ absent)
    | inr n ↦ rw n refl
  ]

  -- `erase` returns: the key is gone, every other key is as before, and the size is one less if
  -- the key was there.
  pub erase-Models :
      (b : ℕ) (m : Segment K V) (f : K → Option V) (k : K)
      → Models b m f
      → (n : Segment K V) × (erase b (key_type.hash k) k m ≡ some n)
        × Models b n (update f k none)
        × (n.size + held (f k) ≡ m.size)
  unfolding erase head_address held erase_found
  erase-Models b m f k w =
      let i = bucket_id b (key_type.hash k) (length m.buckets) in
      let es = w.chains i in
      let c = w.table.chained i (home w.table (key_type.hash k)) in
      let read = get_elem?-eq-get_or m.buckets i none (home w.table (key_type.hash k)) in
      let found =
        search_lem m.store k (length m.store.cells + 1) (head_of i) (get_or m.buckets i none) es c
          (Chain-short m.store (get_or m.buckets i none) es c (w.table.distinct i)) in
      elim (locate b m.store m.buckets w.chains f k i w.table refl) [
        | inl (e, absent) ↦
            rw (read, found, e, absent)
              (
                m,
                refl,
                record {
                  chains = w.chains;
                  table =
                      Table-ext b m.store m.buckets w.chains f (update f k none)
                        (erase_absent f k absent) w.table;
                  sized = w.sized;
                },
                omega arith,
              )
        | inr (o, ys, e, same, out, whole, value) ↦
            rw (read, found, e, value) (erase_found_lem b m f k i o ys w refl same whole)
      ]
