-- ===== src/HashMap/Sharded.antt =====
-- src/concurrent/concurrent_hashmap.h: `ConcurrentHashMap`, segments chosen by the low bits of
-- the hash.
--
-- `none` as a result is a stop of the segment's operation. `load_factor` is the segment's
-- parameter.
use Prim.Native.Nat.{bit_and}
use wizard.Prelude.{
  ℕ, ◌+◌, ◌-◌, ◌/◌, ◌^◌, Bool, Option, none, some, List, [], ◌∷◌, ◌>>=◌, get_elem?, set, replicate,
}
use wizard.PowTwo.{next_pow_two}
use wizard.HashMap.Store.{HashKey}
use wizard.HashMap.Segment.{
  Segment, create, insert as segment_insert, find as segment_find, erase as segment_erase,
  clear as segment_clear, rehash,
}

pub record ConcurrentHashMap {ℓ} (K V : Type ℓ) : Type ℓ where
  pub segments : List (Option (Segment K V))
  pub init_capacity : ℕ
  pub load_factor : ℕ → ℕ

module _ {ℓ} {K V : Type ℓ} where
  -- The constructor without arguments.
  unfoldable pub construct : ℕ → (ℕ → ℕ) → ConcurrentHashMap K V
  construct shard_bits load_factor = record {
    segments = replicate (2 ^ shard_bits) none;
    init_capacity = 8;
    load_factor = load_factor;
  }

  -- The constructor with a capacity.
  unfoldable pub construct_with : ℕ → (ℕ → ℕ) → ℕ → ConcurrentHashMap K V
  construct_with shard_bits load_factor init_capacity = record (construct shard_bits load_factor) {
    init_capacity = next_pow_two init_capacity;
  }

  -- `ensureSegment` behind its read of the slot; no other thread has stored a segment between.
  unfoldable pub ensured :
      ℕ → ℕ → ConcurrentHashMap K V → Option (Segment K V) → Segment K V × ConcurrentHashMap K V
  ensured shard_bits i m (some seg) = (seg, m)
  ensured shard_bits i m none =
      let newseg = create (m.init_capacity / 2 ^ shard_bits) m.load_factor in
      (newseg, record m { segments = set m.segments i (some newseg) })

  unfoldable pub ensure_segment :
      ℕ → ℕ → ConcurrentHashMap K V → Option (Segment K V × ConcurrentHashMap K V)
  ensure_segment shard_bits i m =
      get_elem? m.segments i >>= (λ seg. some (ensured shard_bits i m seg))

  -- The loop of `clear`.
  unfoldable pub clear_segments : List (Option (Segment K V)) → List (Option (Segment K V))
  clear_segments [] = []
  clear_segments (none ∷ segs) = none ∷ clear_segments segs
  clear_segments (some seg ∷ segs) = some (segment_clear seg) ∷ clear_segments segs

  unfoldable pub clear : ConcurrentHashMap K V → ConcurrentHashMap K V
  clear m = record m { segments = clear_segments m.segments }

  -- The loop of `size`.
  unfoldable pub sum_sizes : List (Option (Segment K V)) → ℕ
  sum_sizes [] = 0
  sum_sizes (none ∷ segs) = sum_sizes segs
  sum_sizes (some seg ∷ segs) = seg.size + sum_sizes segs

  unfoldable pub size : ConcurrentHashMap K V → ℕ
  size m = sum_sizes m.segments

-- `segment_` and the node of `it_` of the iterator that `find` returns.
unfoldable pub found_at : ℕ → ℕ → Option ℕ → ℕ × Option ℕ
found_at shard_bits segment none = (2 ^ shard_bits, none)
found_at shard_bits segment (some p) = (segment, some p)

module _ {ℓ} {K : Type ℓ} ⦃key_type : HashKey K⦄ where
  -- `pickSegment`
  unfoldable pub pick_segment : ℕ → K → ℕ
  pick_segment shard_bits k = bit_and (key_type.hash k) (2 ^ shard_bits - 1)

module _ {ℓ} {K V : Type ℓ} ⦃key_type : HashKey K⦄ where
  -- `insert`: the segment of the iterator, whose `it_` is empty, and whether the value was put in.
  unfoldable pub insert :
      ℕ → K → V → ConcurrentHashMap K V → Option (ℕ × Bool × ConcurrentHashMap K V)
  insert shard_bits k v m =
      let segment_id = pick_segment shard_bits k in
      ensure_segment shard_bits segment_id m >>= (λ r.
        segment_insert shard_bits (key_type.hash k) k v (r.0) >>= (λ done. some (
          segment_id,
          done.0,
          record (r.1) { segments = set r.1.segments segment_id (some (done.1)) },
        )))

  -- `find` behind its read of the slot.
  unfoldable pub find_in : ℕ → ℕ → K → Option (Segment K V) → Option (ℕ × Option ℕ)
  find_in shard_bits segment k none = some (2 ^ shard_bits, none)
  find_in shard_bits segment k (some seg) =
      segment_find shard_bits (key_type.hash k) k seg
      >>= (λ p. some (found_at shard_bits segment p))

  unfoldable pub find : ℕ → K → ConcurrentHashMap K V → Option (ℕ × Option ℕ)
  find shard_bits k m =
      let segment = pick_segment shard_bits k in
      get_elem? m.segments segment >>= (λ seg. find_in shard_bits segment k seg)

  -- `erase` behind its read of the slot.
  unfoldable pub erase_in :
      ℕ → ℕ → K → ConcurrentHashMap K V → Option (Segment K V) → Option (ConcurrentHashMap K V)
  erase_in shard_bits segment k m none = some m
  erase_in shard_bits segment k m (some seg) =
      segment_erase shard_bits (key_type.hash k) k seg
      >>= (λ after. some (record m { segments = set m.segments segment (some after) }))

  unfoldable pub erase : ℕ → K → ConcurrentHashMap K V → Option (ConcurrentHashMap K V)
  erase shard_bits k m =
      let segment = pick_segment shard_bits k in
      get_elem? m.segments segment >>= (λ seg. erase_in shard_bits segment k m seg)

  -- The loop of `reserve`.
  unfoldable pub rehash_segments :
      ℕ → ℕ → List (Option (Segment K V)) → Option (List (Option (Segment K V)))
  rehash_segments shard_bits bucket_count [] = some []
  rehash_segments shard_bits bucket_count (none ∷ segs) =
      rehash_segments shard_bits bucket_count segs >>= (λ rest. some (none ∷ rest))
  rehash_segments shard_bits bucket_count (some seg ∷ segs) =
      rehash shard_bits bucket_count seg >>= (λ after.
        rehash_segments shard_bits bucket_count segs >>= (λ rest. some (some after ∷ rest)))

  unfoldable pub reserve : ℕ → ℕ → ConcurrentHashMap K V → Option (ConcurrentHashMap K V)
  reserve shard_bits capacity m =
      rehash_segments shard_bits (capacity / 2 ^ shard_bits) m.segments
      >>= (λ segs. some (record m { segments = segs }))
