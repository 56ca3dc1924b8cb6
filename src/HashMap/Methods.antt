-- ===== src/HashMap/Methods.antt =====
-- src/concurrent/concurrent_hashmap_detail.h: the operations of the segment as changes to a map.
use wizard.Prelude.{
  ℕ, zero, suc, ◌+◌, ◌≤◌, ◌<◌, ◌^◌, ◌≡◌, refl, sym, ◌∙◌, ap, false, Option, none, some, List, [],
  ◌∷◌, arith, ltb, lt→ltb, subst, length, length-replicate, get_or, get_or-replicate, replicate,
}
use wizard.PowTwo.{next_pow_two}
use wizard.PowTwo.Laws.{next_pow_two_lem}
use wizard.HashMap.Store.{HashKey, Store}
use wizard.HashMap.Segment.{Segment, bucket_id, create, clear, rehash}
use wizard.HashMap.Chains.{Entry, Chain}
use wizard.HashMap.Table.{lookup, Table, total, bucket_id-lt}
use wizard.HashMap.Grow.{Grows, Above, Table-ext}
use wizard.HashMap.Overlay.{part}
use wizard.HashMap.Rehash.{rehash_buckets_lem}

next_pow_two_power : (n : ℕ) → n ≤ 2 ^ 63 → (bits : ℕ) × (next_pow_two n ≡ 2 ^ bits)
unfolding next_pow_two
next_pow_two_power zero small = (0, refl)
next_pow_two_power (suc n) small =
    let e = next_pow_two_lem (suc n) (omega arith) small in (e.0, e.2)

module _ {ℓ} {K V : Type ℓ} ⦃key_type : HashKey K⦄ where
  -- The segment is the map `f`, and its size the number of its entries.
  pub record Models (b : ℕ) (m : Segment K V) (f : K → Option V) : Type ℓ where
    pub chains : ℕ → List (Entry K V)
    pub table : Table b m.store m.buckets chains f
    pub sized : m.size ≡ total (length m.buckets) chains

  total_empty :
      (n : ℕ) (chains : ℕ → List (Entry K V)) → ((i : ℕ) → chains i ≡ []) → total n chains ≡ 0
  total_empty zero chains e = refl
  total_empty (suc n) chains e = rw (e n) (omega (arith, total_empty n chains e))

  empty-Table :
      (b bits n : ℕ) (s : Store K V) (f : K → Option V)
      → n ≡ 2 ^ bits
      → ((k : K) → none ≡ f k)
      → Table b s (replicate n none) (λ i. []) f
  unfolding lookup
  empty-Table b bits n s f power nothing = record {
    bits = bits;
    power = length-replicate n none ∙ power;
    chained = λ i p. (get_or-replicate n i none, tt);
    placed = λ i. tt;
    distinct = λ i. tt;
    views = nothing;
  }

  -- A constructed segment, for up to 2^63 buckets, is the empty map.
  pub create-Models :
      (b buckets_count : ℕ) (load_factor : ℕ → ℕ)
      → buckets_count ≤ 2 ^ 63
      → Models b (create {K = K} {V = V} buckets_count load_factor) (λ k. none)
  unfolding create
  create-Models b buckets_count load_factor small =
      let e = next_pow_two_power buckets_count small in
      record {
        chains = λ i. [];
        table = empty-Table b (e.0) (next_pow_two buckets_count) _ (λ k. none) (e.1) (λ k. refl);
        sized = sym (total_empty _ (λ i. []) (λ i. refl));
      }

  -- `clear` leaves the empty map, and as many buckets as before.
  pub clear-Models :
      (b : ℕ) (m : Segment K V) (f : K → Option V) → Models b m f → Models b (clear m) (λ k. none)
  unfolding clear
  clear-Models b m f w = record {
    chains = λ i. [];
    table =
        empty-Table b w.table.bits (length m.buckets) m.store (λ k. none) w.table.power (λ k. refl);
    sized = sym (total_empty _ (λ i. []) (λ i. refl));
  }

  nothing_below : (b count : ℕ) (f : K → Option V) (k : K) → none ≡ part b count f 0 k
  nothing_below b count f k =
      let past : ltb (bucket_id b (key_type.hash k) count) 0 ≡ false = ground arith in rw past refl

  part_all :
      (b bits count : ℕ) (f : K → Option V)
      → count ≡ 2 ^ bits
      → (k : K) → part b count f (0 + count) k ≡ f k
  part_all b bits count f power k =
      let below : bucket_id b (key_type.hash k) count < count =
        rw power (bucket_id-lt b bits (key_type.hash k)) in
      let z : 0 + count ≡ count = omega arith in
      rw (z, lt→ltb (bucket_id b (key_type.hash k) count) count below) refl

  -- After a rehash: the same map in a longer bucket list, made of new nodes.
  pub record Rehashed (b count : ℕ) (m n : Segment K V) (f : K → Option V) : Type ℓ where
    pub models : Models b n f
    pub above : (i : ℕ) → Above (length m.store.cells) (models.chains i)
    pub grows : Grows m.store n.store
    pub same_size : n.size ≡ m.size
    pub new_count : length n.buckets ≡ count

  pub rehash_lem :
      (b bits : ℕ) (m : Segment K V) (f : K → Option V)
      → Models b m f
      → (n : Segment K V) × (rehash b (2 ^ bits) m ≡ some n) × Rehashed b (2 ^ bits) m n f
  unfolding rehash
  rehash_lem b bits m f w =
      let count = length m.buckets in
      let fresh = replicate (2 ^ bits) none in
      let same : length fresh ≡ 2 ^ bits = length-replicate (2 ^ bits) none in
      let moved =
        rehash_buckets_lem b (length m.store.cells) 0 count (2 ^ bits) m.buckets m.store fresh
          w.chains (λ i. []) f
          (empty-Table b bits (2 ^ bits) m.store (part b count f 0) refl
            (λ k. nothing_below b count f k))
          same (omega arith) (λ i. tt)
          (λ i p.
            let z : i ≡ 0 + i = omega arith in
            subst (λ j. Chain m.store (get_or m.buckets i none) (w.chains j)) z
              (w.table.chained i p))
          w.table.distinct w.table.placed w.table.views in
      let copied = moved.4 in
      let z : 0 + count ≡ count = omega arith in
      let none_yet = total_empty (length fresh) (λ i. []) (λ i. refl) in
      let counts : total (length (moved.1)) copied.new_chains
          ≡ total (length fresh) copied.new_chains =
        ap (λ n. total n copied.new_chains) copied.same_count in
      let all_copied : total 0 w.chains + moved.2 ≡ total count w.chains =
        moved.5 ∙ ap (λ n. total n w.chains) z in
      rw (moved.3) (
        record m {
          store = moved.0;
          buckets = moved.1;
          retired_lists = m.buckets ∷ m.retired_lists;
          load_factor_cnt_threshold = m.load_factor (2 ^ bits);
        },
        refl,
        record {
          models = record {
            chains = copied.new_chains;
            table =
                Table-ext b (moved.0) (moved.1) copied.new_chains _ f
                  (part_all b w.table.bits count f w.table.power) copied.table;
            sized = omega (arith, w.sized, counts, copied.counted, none_yet, all_copied);
          };
          above = copied.above;
          grows = copied.grows;
          same_size = refl;
          new_count = copied.same_count ∙ same;
        },
      )

  -- A rehash to a power of two of buckets keeps the map, the size and every old node.
  pub rehash-Models :
      (b bits : ℕ) (m : Segment K V) (f : K → Option V)
      → Models b m f
      → (n : Segment K V) × (rehash b (2 ^ bits) m ≡ some n)
        × Models b n f
        × Grows m.store n.store
        × (n.size ≡ m.size)
        × (length n.buckets ≡ 2 ^ bits)
  rehash-Models b bits m f w =
      let r = rehash_lem b bits m f w in
      (r.0, r.1, r.2.models, r.2.grows, r.2.same_size, r.2.new_count)
