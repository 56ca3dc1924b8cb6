-- ===== src/HashMap/Unlink.antt =====
-- src/concurrent/concurrent_hashmap_detail.h: a node taken out of its chain, in
-- `insert_internal` and in `erase`.
use wizard.Prelude.{
  ℕ, ◌<◌, ◌≡◌, ◌≢◌, refl, sym, Option, none, some, List, ◌∷◌, ◌++◌, length, get_or,
}
use wizard.HashMap.Store.{HashKey, Store, release}
use wizard.HashMap.Segment.{head_of, Segment, bucket_id, write_place}
use wizard.HashMap.Chains.{Entry, Chain}
use wizard.HashMap.Keeps.{release_lem}
use wizard.HashMap.Search.{KeysDistinct, AllAvoid, last_place, KeysDistinct-split}
use wizard.HashMap.Splice.{Link-of, write_place_lem}
use wizard.HashMap.Table.{put_at, lookup, Table, Placed}
use wizard.HashMap.Grow.{Table-KeepsAll}
use wizard.HashMap.Update.{Table-Spliced}

module _ {ℓ} {K V : Type ℓ} ⦃key_type : HashKey K⦄ where
  -- What is left of the segment after one node was taken out.
  pub record Unlinked (b i : ℕ) (m n : Segment K V) (u : Store K V) (chains : ℕ → List (Entry K V))
      (es : List (Entry K V)) (g : K → Option V) : Type ℓ where
    pub table : Table b u n.buckets (put_at chains i es) g
    pub same_size : n.size ≡ m.size
    pub same_count : length n.buckets ≡ length m.buckets

  -- `prev->store`, then `release` of the node that is no longer in the chain.
  pub unlink_lem :
      (b : ℕ) (m : Segment K V) (chains : ℕ → List (Entry K V)) (f g : K → Option V) (i : ℕ)
      (r : Option ℕ) (bs : List (Entry K V)) (o : Entry K V) (ys zs : List (Entry K V))
      → Table b m.store m.buckets chains f
      → i < length m.buckets
      → bs ++ (o ∷ ys) ≡ chains i
      → Chain m.store r zs
      → AllAvoid bs zs
      → KeysDistinct (bs ++ zs)
      → Placed b (length m.buckets) i (bs ++ zs)
      → ((k : K) → bucket_id b (key_type.hash k) (length m.buckets) ≡ i → lookup k (bs ++ zs) ≡ g k)
      → ((k : K) → bucket_id b (key_type.hash k) (length m.buckets) ≢ i → f k ≡ g k)
      → (n : Segment K V) × (u : Store K V) × (write_place m (last_place (head_of i) bs) r ≡ some n)
        × (release n.store o.address ≡ some u)
        × Unlinked b i m n u chains (bs ++ zs) g
  unlink_lem b m chains f g i r bs o ys zs w inside whole after apart d p here there =
      let c = rw (sym whole) at (w.chained i inside) in
      let keys = rw (sym whole) at (w.distinct i) in
      let old = Link-of m.store (get_or m.buckets i none) bs o ys c in
      let written = write_place_lem m i bs (o ∷ ys) zs r inside c keys after apart in
      let n = written.0 in
      let linked = written.2 in
      let still =
        linked.other_chains (some o.address) (o ∷ ys) (KeysDistinct-split bs (o ∷ ys) keys).2
          (refl, old.0, old.1, old.2) in
      let released = release_lem n.store o.address still.2.alive in
      (
        n,
        released.0,
        written.1,
        released.1,
        record {
          table =
              Table-KeepsAll b n.store (released.0) n.buckets (put_at chains i (bs ++ zs)) g
                released.2.keeps (Table-Spliced b m n i chains f g bs zs w linked p d here there);
          same_size = linked.same_size;
          same_count = linked.same_count;
        },
      )
