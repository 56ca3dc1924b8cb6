-- ===== src/HashMap/Rehash.antt =====
-- src/concurrent/concurrent_hashmap_detail.h: `rehash` copies every node into a longer bucket list.
use wizard.Prelude.{
  ℕ, zero, suc, ◌+◌, ◌≤◌, ◌<◌, ◌≡◌, refl, ◌∙◌, ap, Option, none, some, List, [], ◌∷◌, arith, subst,
  ==_eq, ==_ne, length, length-set, get_or, set, ℕ_discrete,
}
use wizard.HashMap.Store.{HashKey, Store}
use wizard.HashMap.Segment.{bucket_id, rehash_chain, rehash_buckets}
use wizard.HashMap.Chains.{Entry, Chain, Chain-KeepsAll}
use wizard.HashMap.Search.{KeysDistinct}
use wizard.HashMap.Table.{put_at, update, lookup, Table, Placed, total, total-put, home}
use wizard.HashMap.Search.{Chain-short}
use wizard.HashMap.Grow.{Grows, Grows-trans, Above, Table-ext, push_new_lem}
use wizard.HashMap.Overlay.{
  overlay, AllNew, AllNew-update, overlay-update, part, AllNew-part, overlay-part,
}

module _ {ℓ} {K V : Type ℓ} ⦃key_type : HashKey K⦄ where
  -- The new table after a part of the copying: no old node is lost, and the copies are at new
  -- addresses.
  pub record Copied (b base : ℕ) (s : Store K V) (heads : List (Option ℕ))
      (chains : ℕ → List (Entry K V)) (copies : ℕ) (t : Store K V) (after : List (Option ℕ))
      (f : K → Option V) : Type ℓ where
    pub new_chains : ℕ → List (Entry K V)
    pub table : Table b t after new_chains f
    pub grows : Grows s t
    pub same_count : length after ≡ length heads
    pub counted : total (length heads) new_chains ≡ total (length heads) chains + copies
    pub above : (i : ℕ) → Above base (new_chains i)

  rehash_chain_lem :
      (b base fuel count : ℕ) (p : Option ℕ) (s : Store K V) (heads : List (Option ℕ))
      (es : List (Entry K V)) (chains : ℕ → List (Entry K V)) (f : K → Option V)
      → Table b s heads chains f
      → length heads ≡ count
      → base ≤ length s.cells
      → ((i : ℕ) → Above base (chains i))
      → Chain s p es
      → length es < fuel
      → KeysDistinct es
      → AllNew f es
      → (t : Store K V) × (after : List (Option ℕ)) × (rehash_chain b fuel count p s heads
          ≡ some (t, after))
        × Copied b base s heads chains (length es) t after (overlay es f)
  unfolding rehash_chain
  rehash_chain_lem b base zero count p s heads es chains f w n low above c room d new =
      absurd (omega arith)
  rehash_chain_lem b base (suc fuel) count p s heads [] chains f w n low above c room d new =
      rw (c.0) (
        s,
        heads,
        refl,
        record {
          new_chains = chains;
          table = w;
          grows = record { keeps = record { kept = λ e q l. l }; room = omega arith };
          same_count = refl;
          counted = omega arith;
          above = above;
        },
      )
  rehash_chain_lem b base (suc fuel) count p s heads (e ∷ es) chains f w n low above c room d new =
      let i = bucket_id b (key_type.hash e.key) count in
      let at : bucket_id b (key_type.hash e.key) (length heads) ≡ i =
        ap (bucket_id b (key_type.hash e.key)) n in
      let inside : i < length heads =
        subst (λ k. k < length heads) at (home w (key_type.hash e.key)) in
      let a = length s.cells in
      let heads' = set heads i (some a) in
      let chains' =
        put_at chains i (record { address = a; key = e.key; value = e.value } ∷ chains i) in
      let pushed = push_new_lem b s heads chains f e.key e.value i w (new.0) at in
      let rest =
        rehash_chain_lem b base fuel count (c.1) (pushed.0) heads' es chains'
          (update f e.key (some e.value)) (pushed.2) (length-set heads i (some a) ∙ n)
          (omega (arith, pushed.3.room))
          (λ j. elim (ℕ_discrete i j) [
            | yes same ↦ rw (==_eq same) (low, above i)
            | no ne ↦ rw (==_ne ne) (above j)
          ])
          (Chain-KeepsAll s (pushed.0) (c.1) es (pushed.3.keeps) (c.3)) (omega arith) (d.1)
          (AllNew-update f e es (d.0) (new.1)) in
      rw (c.0, c.2.alive, pushed.1)
        (
          rest.0,
          rest.1,
          rest.2,
          record {
            new_chains = rest.3.new_chains;
            table =
                Table-ext b (rest.0) (rest.1) rest.3.new_chains _ (overlay (e ∷ es) f)
                  (λ k. overlay-update f e es k (d.0)) rest.3.table;
            grows = Grows-trans s (pushed.0) (rest.0) (pushed.3) rest.3.grows;
            same_count = rest.3.same_count ∙ length-set heads i (some a);
            counted = omega (
              arith,
              rw (length-set heads i (some a)) at rest.3.counted,
              total-put (length heads) i chains
                  (record { address = a; key = e.key; value = e.value } ∷ chains i) inside,
            );
            above = rest.3.above;
          },
        )

  pub rehash_buckets_lem :
      (b base j count new_count : ℕ) (old : List (Option ℕ)) (s : Store K V)
      (heads : List (Option ℕ)) (olds chains : ℕ → List (Entry K V)) (f : K → Option V)
      → Table b s heads chains (part b count f j)
      → length heads ≡ new_count
      → base ≤ length s.cells
      → ((i : ℕ) → Above base (chains i))
      → ((i : ℕ) → i < length old → Chain s (get_or old i none) (olds (j + i)))
      → ((i : ℕ) → KeysDistinct (olds i))
      → ((i : ℕ) → Placed b count i (olds i))
      → ((k : K) → lookup k (olds (bucket_id b (key_type.hash k) count)) ≡ f k)
      → (t : Store K V) × (after : List (Option ℕ)) × (copies : ℕ) × (rehash_buckets b new_count old
            s heads
          ≡ some (t, after))
        × Copied b base s heads chains copies t after (part b count f (j + length old))
        × (total j olds + copies ≡ total (j + length old) olds)
  unfolding rehash_buckets
  rehash_buckets_lem b base j count new_count [] s heads olds chains f w n low above c d p views =
      let z : j + 0 ≡ j = omega arith in
      rw z (
        s,
        heads,
        0,
        refl,
        record {
          new_chains = chains;
          table = w;
          grows = record { keeps = record { kept = λ e q l. l }; room = omega arith };
          same_count = refl;
          counted = omega arith;
          above = above;
        },
        omega arith,
      )
  rehash_buckets_lem b base j count new_count (head ∷ old) s heads olds chains f w n low above c d p
        views =
      let z : j + 0 ≡ j = omega arith in
      let next : j + suc (length old) ≡ suc j + length old = omega arith in
      let es = olds j in
      let first : Chain s head es = subst (λ i. Chain s head (olds i)) z (c 0 (omega arith)) in
      let moved =
        rehash_chain_lem b base (length s.cells + 1) new_count head s heads es chains
          (part b count f j) w n low above first (Chain-short s head es first (d j)) (d j)
          (AllNew-part b count j f es (p j)) in
      let rest =
        rehash_buckets_lem b base (suc j) count new_count old (moved.0) (moved.1) olds
          moved.3.new_chains f
          (Table-ext b (moved.0) (moved.1) moved.3.new_chains _ (part b count f (suc j))
            (λ k. overlay-part b count j f olds k (p j) (views k)) moved.3.table)
          (moved.3.same_count ∙ n) (omega (arith, low, moved.3.grows.room)) moved.3.above
          (λ i q.
            let shift : j + suc i ≡ suc j + i = omega arith in
            Chain-KeepsAll s (moved.0) (get_or old i none) (olds (suc j + i)) moved.3.grows.keeps
              (subst (λ h. Chain s (get_or old i none) (olds h)) shift (c (suc i) (omega arith))))
          d p views in
      rw (moved.2, next)
        (
          rest.0,
          rest.1,
          length es + rest.2,
          rest.3,
          record {
            new_chains = rest.4.new_chains;
            table = rest.4.table;
            grows = Grows-trans s (moved.0) (rest.0) moved.3.grows rest.4.grows;
            same_count = rest.4.same_count ∙ moved.3.same_count;
            counted = omega (arith, moved.3.counted, rw (moved.3.same_count) at rest.4.counted);
            above = rest.4.above;
          },
          omega (arith, rest.5),
        )
