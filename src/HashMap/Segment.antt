-- ===== src/HashMap/Segment.antt =====
-- src/concurrent/concurrent_hashmap_detail.h: `ConcurrentHashMapSegment`, its bucket list and
-- its iterator, used by one thread at a time, as the mutex makes its writers.
--
-- A bucket list is the list of its heads; `none` as a result is also a bucket number out of its
-- range. Bucket numbers are taken to fit the `int` of `get_head`, and sizes to fit a `size_t`.
-- The load factor is a `float`: `load_factor n` stands for the product of n and the load
-- factor, cut to a `size_t`. Loops along a chain take fuel, as many rounds as there are cells,
-- and one more.
use Prim.Native.Nat.{bit_and}
use wizard.Prelude.{
  ℕ, zero, suc, ◌+◌, ◌-◌, ◌*◌, ◌/◌, ◌^◌, Bool, true, false, Option, none, some, List, [], ◌∷◌, ◌==◌,
  leb, if◌then◌else◌, ◌>>=◌, get_elem?, set, length, replicate,
}
use wizard.PowTwo.{next_pow_two}
use wizard.HashMap.Store.{
  HashKey, Node, Store, node_at, new_node, acquire_next, release, release_next, destroy, set_next,
}

pub data InsertType : Type 0 where
  discard_if_exist : InsertType
  replace_if_exist : InsertType
  any : InsertType

-- `std::atomic<Node*>* prev`: the head of a bucket, or the `next_` of a node.
pub data Place : Type 0 where
  head_of : ℕ → Place
  next_of : ℕ → Place

pub record Segment {ℓ} (K V : Type ℓ) : Type ℓ where
  pub store : Store K V
  pub buckets : List (Option ℕ)
  pub retired_lists : List (List (Option ℕ))
  pub size : ℕ
  pub load_factor : ℕ → ℕ
  pub load_factor_cnt_threshold : ℕ

-- `size_--`
unfoldable pub one_less : ℕ → ℕ
one_less size = if size == 0 then 2 ^ 64 - 1 else size - 1

-- `(hash >> ShardBits) & (bucket_count - 1)`, where 0 - 1 is the greatest `size_t`.
unfoldable pub bucket_id : ℕ → ℕ → ℕ → ℕ
bucket_id shard_bits hash bucket_count =
    bit_and (hash / 2 ^ shard_bits) (if bucket_count == 0 then 2 ^ 64 - 1 else bucket_count - 1)

module _ {ℓ} {K V : Type ℓ} where
  -- The constructor: `BucketList(nextPowTwo(buckets_count))`, then `set_load_factor`.
  unfoldable pub create : ℕ → (ℕ → ℕ) → Segment K V
  create buckets_count load_factor = record {
    store = record { cells = []; retired = [] };
    buckets = replicate (next_pow_two buckets_count) none;
    retired_lists = [];
    size = 0;
    load_factor = load_factor;
    load_factor_cnt_threshold = load_factor (next_pow_two buckets_count);
  }

  unfoldable pub set_load_factor : (ℕ → ℕ) → Segment K V → Segment K V
  set_load_factor load_factor m = record m {
    load_factor = load_factor;
    load_factor_cnt_threshold = load_factor (length m.buckets);
  }

  -- `prev->store`
  unfoldable pub write_place : Segment K V → Place → Option ℕ → Option (Segment K V)
  write_place m (head_of i) p = some (record m { buckets = set m.buckets i p })
  write_place m (next_of a) p = set_next m.store a p >>= (λ s. some (record m { store = s }))

  -- `new_node->next_.store(head); set_head(bucket_id, new_node)` in `insert_internal` and in
  -- `rehash`.
  unfoldable pub push_head :
      Store K V → List (Option ℕ) → ℕ → ℕ → Option (Store K V × List (Option ℕ))
  push_head s heads id_ p =
      get_elem? heads id_
      >>= (λ head. set_next s p head >>= (λ t. some (t, set heads id_ (some p))))

  -- `clear`
  unfoldable pub clear : Segment K V → Segment K V
  clear m = record m {
    buckets = replicate (length m.buckets) none;
    size = 0;
    retired_lists = m.buckets ∷ m.retired_lists;
  }

  -- The destructor `~BucketList`, when a retired list is deleted.
  unfoldable pub delete_list : Store K V → List (Option ℕ) → Option (Store K V)
  delete_list s [] = some s
  delete_list s (head ∷ heads) = release_next s head >>= (λ t. delete_list t heads)

module _ {ℓ} {K V : Type ℓ} ⦃key_type : HashKey K⦄ where
  -- The loop of `insert_internal` and of `erase`: where the pointer to the node stands, and the
  -- node.
  unfoldable pub search : ℕ → Store K V → K → Place → Option ℕ → Option (Place × Option ℕ)
  search zero s key prev p = none
  search (suc fuel) s key prev none = some (prev, none)
  search (suc fuel) s key prev (some p) =
      let rest = λ (n : Node K V). search fuel s key (next_of p) n.next in
      node_at s p >>= (λ n. if key_type.same key n.key then some (prev, some p) else rest n)

  -- The loop of `rehash` over one old bucket.
  unfoldable pub rehash_chain :
      ℕ → ℕ → ℕ → Option ℕ → Store K V → List (Option ℕ) → Option (Store K V × List (Option ℕ))
  rehash_chain shard_bits zero new_bucket_cnt p s heads = none
  rehash_chain shard_bits (suc fuel) new_bucket_cnt none s heads = some (s, heads)
  rehash_chain shard_bits (suc fuel) new_bucket_cnt (some p) s heads =
      let rest = λ (n : Node K V) (t : Store K V) (after : List (Option ℕ)).
        rehash_chain shard_bits fuel new_bucket_cnt n.next t after in
      node_at s p >>= (λ n.
        push_head (new_node s n.key n.value) heads
          (bucket_id shard_bits (key_type.hash n.key) new_bucket_cnt) (length s.cells)
        >>= (λ moved. rest n (moved.0) (moved.1)))

  -- Its loop over the old buckets.
  unfoldable pub rehash_buckets :
      ℕ → ℕ → List (Option ℕ) → Store K V → List (Option ℕ) → Option (Store K V × List (Option ℕ))
  rehash_buckets shard_bits new_bucket_cnt [] s heads = some (s, heads)
  rehash_buckets shard_bits new_bucket_cnt (head ∷ old) s heads =
      rehash_chain shard_bits (length s.cells + 1) new_bucket_cnt head s heads
      >>= (λ moved. rehash_buckets shard_bits new_bucket_cnt old (moved.0) (moved.1))

  unfoldable pub rehash : ℕ → ℕ → Segment K V → Option (Segment K V)
  rehash shard_bits new_bucket_cnt m =
      rehash_buckets shard_bits new_bucket_cnt m.buckets m.store (replicate new_bucket_cnt none)
      >>= (λ moved. some (record m {
        store = moved.0;
        buckets = moved.1;
        retired_lists = m.buckets ∷ m.retired_lists;
        load_factor_cnt_threshold = m.load_factor new_bucket_cnt;
      }))

  -- `insert_internal` from the search on; `insert_type` is fixed to `ANY` in the code.
  unfoldable pub insert_found :
      InsertType → ℕ → ℕ → Place × Option ℕ → Segment K V → Option (Bool × Segment K V)
  insert_found insert_type p id_ (prev, none) m = push_head m.store m.buckets id_ p >>= (λ pushed.
      some (true, record m { store = pushed.0; buckets = pushed.1; size = m.size + 1 }))
  insert_found discard_if_exist p id_ (prev, some old) m = some (false, m)
  insert_found _ p id_ (prev, some old) m = node_at m.store old >>= (λ n.
      acquire_next m.store n.next >>= (λ s. set_next s p n.next >>= (λ t.
        write_place (record m { store = t }) prev (some p) >>= (λ linked.
          release linked.store old >>= (λ u. some (true, record linked { store = u }))))))

  unfoldable pub insert_internal : ℕ → ℕ → K → ℕ → Segment K V → Option (Bool × Segment K V)
  insert_internal shard_bits hash key p m =
      (if leb m.load_factor_cnt_threshold m.size
        then rehash shard_bits (2 * length m.buckets) m
        else some m)
      >>= (λ r.
          let id_ = bucket_id shard_bits hash (length r.buckets) in
          get_elem? r.buckets id_ >>= (λ head.
            search (length r.store.cells + 1) r.store key (head_of id_) head
            >>= (λ found. insert_found any p id_ found r)))

  unfoldable pub insert : ℕ → ℕ → K → V → Segment K V → Option (Bool × Segment K V)
  insert shard_bits hash key value m =
      let p = length m.store.cells in
      insert_internal shard_bits hash key p (record m { store = new_node m.store key value })
      >>= (λ done.
          if done.0
          then some done
          else (destroy done.1.store p >>= (λ s. some (false, record (done.1) { store = s }))))

  -- `erase` from the search on.
  unfoldable pub erase_found : Place × Option ℕ → Segment K V → Option (Segment K V)
  erase_found (prev, none) m = some m
  erase_found (prev, some old) m = node_at m.store old >>= (λ n.
      acquire_next m.store n.next >>= (λ s.
        write_place (record m { store = s; size = one_less m.size }) prev n.next
        >>= (λ linked. release linked.store old >>= (λ u. some (record linked { store = u })))))

  unfoldable pub erase : ℕ → ℕ → K → Segment K V → Option (Segment K V)
  erase shard_bits hash key m =
      let id_ = bucket_id shard_bits hash (length m.buckets) in
      get_elem? m.buckets id_ >>= (λ head.
        search (length m.store.cells + 1) m.store key (head_of id_) head
        >>= (λ found. erase_found found m))

  -- The loop of `find`.
  unfoldable pub find_node : ℕ → Store K V → K → Option ℕ → Option (Option ℕ)
  find_node zero s key p = none
  find_node (suc fuel) s key none = some none
  find_node (suc fuel) s key (some p) =
      let rest = λ (n : Node K V). find_node fuel s key n.next in
      node_at s p >>= (λ n. if key_type.same key n.key then some (some p) else rest n)

  -- `find`: the node of the iterator, if there is one.
  unfoldable pub find : ℕ → ℕ → K → Segment K V → Option (Option ℕ)
  find shard_bits hash key m =
      let id_ = bucket_id shard_bits hash (length m.buckets) in
      get_elem? m.buckets id_ >>= (λ head. find_node (length m.store.cells + 1) m.store key head)
