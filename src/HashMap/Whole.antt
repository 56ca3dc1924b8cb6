-- ===== src/HashMap/Whole.antt =====
-- src/concurrent/concurrent_hashmap.h: the operations of `ConcurrentHashMap` as operations on a
-- map.
use wizard.Prelude.{
  ℕ, zero, suc, ◌+◌, ◌/◌, ◌<◌, ◌^◌, ◌≡◌, inl, inr, refl, sym, ◌∙◌, ap, true, Bool-cases,
  Option-cases, Option, none, some, List, [], ◌∷◌, arith, ◌==◌, if◌then◌else◌, ◌>>=◌, length,
  length-replicate, get_or, get_or-replicate, get_or-set_self, get_elem?-eq-get_or, set,
}
use native.Mathlib.Nat.{div-le_self}
use wizard.HashMap.Store.{HashKey}
use wizard.HashMap.Segment.{Segment, create, clear as segment_clear}
use wizard.HashMap.Table.{held, update}
use wizard.HashMap.Methods.{Models, create-Models, clear-Models}
use wizard.HashMap.Locate.{value_at, find-Models}
use wizard.HashMap.Insert.{insert-Models}
use wizard.HashMap.Erase.{erase_absent, erase-Models}
use wizard.HashMap.Sharded.{
  ConcurrentHashMap, construct, ensured, ensure_segment, clear_segments, clear, sum_sizes, size,
  found_at, pick_segment, insert, find_in, find, erase_in, erase,
}
use wizard.HashMap.Shards.{
  shard, Shard, Maps, Shard-ext, pick-lt, shard_here, put_shard, Maps-ext, same_shard, slot_size,
  size-set,
}

module _ {ℓ} {K V : Type ℓ} ⦃key_type : HashKey K⦄ where
  nothing : (b i : ℕ) (k : K) → none ≡ shard {V = V} b i (λ k. none) k
  nothing b i k = elim (Bool-cases (pick_segment b k == i)) [
    | inl t ↦ rw t refl
    | inr f ↦ rw f refl
  ]

  -- A map that was just constructed has no key.
  pub construct-Maps :
      (b : ℕ) (load_factor : ℕ → ℕ) → Maps b (construct {K = K} {V = V} b load_factor) (λ k. none)
  unfolding construct
  construct-Maps b load_factor = record {
    count = length-replicate (2 ^ b) none;
    small = omega (arith, div-le_self 8 (2 ^ b));
    shards =
        λ i p. rw (get_or-replicate {A = Option (Segment K V)} (2 ^ b) i none) (λ k. nothing b i k);
  }

  size-create :
      (b : ℕ) (m : ConcurrentHashMap K V)
      → (create {K = K} {V = V} (m.init_capacity / 2 ^ b) m.load_factor).size ≡ 0
  unfolding create
  size-create b m = refl

  -- After `ensureSegment` the segment is there, and the map is the same.
  ensure_lem :
      (b : ℕ) (m : ConcurrentHashMap K V) (f : K → Option V) (k : K)
      → Maps b m f
      → (seg : Segment K V) × (n : ConcurrentHashMap K V) × (ensure_segment b (pick_segment b k) m
          ≡ some (seg, n))
        × Maps b n f
        × Models b seg (shard b (pick_segment b k) f)
        × (get_or n.segments (pick_segment b k) none ≡ some seg)
        × (size n ≡ size m)
  unfolding ensure_segment ensured
  ensure_lem b m f k h =
      let i = pick_segment b k in
      let inside : i < length m.segments = rw h.count (pick-lt b k) in
      let read = get_elem?-eq-get_or m.segments i none inside in
      let here = h.shards i (pick-lt b k) in
      elim (Option-cases (get_or m.segments i none)) [
        | inl e ↦
            let newseg = create (m.init_capacity / 2 ^ b) m.load_factor in
            let fresh = create-Models b (m.init_capacity / 2 ^ b) m.load_factor h.small in
            let models = Shard-ext b (some newseg) (λ k. none) (shard b i f) (rw e at here) fresh in
            (
              newseg,
              record m { segments = set m.segments i (some newseg) },
              rw (read, e) refl,
              same_shard b m f k (some newseg) h models,
              models,
              get_or-set_self m.segments i (some newseg) none inside,
              omega (arith, size-set m i (some newseg) inside, ap slot_size e, size-create b m),
            )
        | inr (seg, e) ↦ (seg, m, rw (read, e) refl, h, rw e at here, e, refl)
      ]

  -- `insert` puts the value into the segment of the key: the key has the value, every other key
  -- is as before, and the size is one more if the key is new.
  pub insert-Maps :
      (b : ℕ) (m : ConcurrentHashMap K V) (f : K → Option V) (k : K) (v : V)
      → Maps b m f
      → (n : ConcurrentHashMap K V) × (insert b k v m ≡ some (pick_segment b k, true, n))
        × Maps b n (update f k (some v))
        × (size n + held (f k) ≡ size m + 1)
  unfolding insert
  insert-Maps b m f k v h =
      let i = pick_segment b k in
      let there = ensure_lem b m f k h in
      let seg = there.0 in
      let m1 = there.1 in
      let inside : i < length m1.segments = rw (there.3.count) (pick-lt b k) in
      let done = insert-Models b seg (shard b i f) k v (there.4) in
      let here = shard_here b f k in
      (
        record m1 { segments = set m1.segments i (some (done.0)) },
        rw (there.2, done.1) refl,
        put_shard b m1 f k (some v) (some (done.0)) (there.3) (done.2),
        omega (
          arith,
          rw here at done.3,
          size-set m1 i (some (done.0)) inside,
          ap slot_size (there.5),
          there.6,
        ),
      )

  -- What the iterator is read for that `find` returns.
  abbrev pub read : ConcurrentHashMap K V → ℕ × Option ℕ → Option V
  read m (segment, p) = get_or m.segments segment none >>= (λ seg. value_at seg.store p)

  read-none : (m : ConcurrentHashMap K V) (j : ℕ) → none ≡ read m (j, none)
  read-none m j = elim (Option-cases (get_or m.segments j none)) [
    | inl e ↦ rw e refl
    | inr (seg, e) ↦ rw e refl
  ]

  -- `find` returns an iterator to the value of the key, or one without a node if the key is not
  -- there.
  pub find-Maps :
      (b : ℕ) (m : ConcurrentHashMap K V) (f : K → Option V) (k : K)
      → Maps b m f
      → (r : ℕ × Option ℕ) × (find b k m ≡ some r) × (read m r ≡ f k)
  unfolding find find_in found_at
  find-Maps b m f k h =
      let i = pick_segment b k in
      let inside : i < length m.segments = rw h.count (pick-lt b k) in
      let stored = get_elem?-eq-get_or m.segments i none inside in
      let here = h.shards i (pick-lt b k) in
      let view = shard_here b f k in
      elim (Option-cases (get_or m.segments i none)) [
        | inl e ↦
            ((2 ^ b, none), rw (stored, e) refl, sym (read-none m (2 ^ b)) ∙ rw e at here k ∙ view)
        | inr (seg, e) ↦
            let found = find-Models b seg (shard b i f) k (rw e at here) in
            elim (Option-cases (found.0)) [
              | inl x ↦ (
                (2 ^ b, none),
                rw (stored, e, found.1, x) refl,
                sym (read-none m (2 ^ b)) ∙ rw x at found.2 ∙ view,
              )
              | inr (p, x) ↦
                  ((i, some p), rw (stored, e, found.1, x) refl, rw e (rw x at found.2 ∙ view))
            ]
      ]

  -- `erase` takes the key out of its segment, if it is there: the key is gone, every other key
  -- is as before, and the size is one less if the key was there.
  pub erase-Maps :
      (b : ℕ) (m : ConcurrentHashMap K V) (f : K → Option V) (k : K)
      → Maps b m f
      → (n : ConcurrentHashMap K V) × (erase b k m ≡ some n)
        × Maps b n (update f k none)
        × (size n + held (f k) ≡ size m)
  unfolding erase erase_in held
  erase-Maps b m f k h =
      let i = pick_segment b k in
      let inside : i < length m.segments = rw h.count (pick-lt b k) in
      let stored = get_elem?-eq-get_or m.segments i none inside in
      let here = h.shards i (pick-lt b k) in
      let view = shard_here b f k in
      elim (Option-cases (get_or m.segments i none)) [
        | inl e ↦
            let absent : f k ≡ none = sym (rw e at here k ∙ view) in
            (
              m,
              rw (stored, e) refl,
              Maps-ext b m f (update f k none) (erase_absent f k absent) h,
              rw absent (omega arith),
            )
        | inr (seg, e) ↦
            let done = erase-Models b seg (shard b i f) k (rw e at here) in
            (
              record m { segments = set m.segments i (some (done.0)) },
              rw (stored, e, done.1) refl,
              put_shard b m f k none (some (done.0)) h (done.2),
              omega (arith, rw view at done.3, size-set m i (some (done.0)) inside, ap slot_size e),
            )
      ]

  length-clear_segments :
      (segs : List (Option (Segment K V))) → length (clear_segments segs) ≡ length segs
  unfolding clear_segments
  length-clear_segments [] = refl
  length-clear_segments (none ∷ segs) = ap suc (length-clear_segments segs)
  length-clear_segments (some seg ∷ segs) = ap suc (length-clear_segments segs)

  clear_segments-Shard :
      (b : ℕ) (segs : List (Option (Segment K V))) (i : ℕ) (f : K → Option V)
      → Shard b (get_or segs i none) f
      → Shard b (get_or (clear_segments segs) i none) (λ k. none)
  unfolding clear_segments
  clear_segments-Shard b [] i f s = λ k. refl
  clear_segments-Shard b (none ∷ segs) zero f s = λ k. refl
  clear_segments-Shard b (some seg ∷ segs) zero f s = clear-Models b seg f s
  clear_segments-Shard b (none ∷ segs) (suc i) f s = clear_segments-Shard b segs i f s
  clear_segments-Shard b (some seg ∷ segs) (suc i) f s = clear_segments-Shard b segs i f s

  sum_sizes-clear_segments :
      (segs : List (Option (Segment K V))) → sum_sizes (clear_segments segs) ≡ 0
  unfolding sum_sizes clear_segments segment_clear
  sum_sizes-clear_segments [] = refl
  sum_sizes-clear_segments (none ∷ segs) = sum_sizes-clear_segments segs
  sum_sizes-clear_segments (some seg ∷ segs) = omega (arith, sum_sizes-clear_segments segs)

  -- `clear` leaves no key, and the size 0.
  pub clear-Maps :
      (b : ℕ) (m : ConcurrentHashMap K V) (f : K → Option V)
      → Maps b m f
      → Maps b (clear m) (λ k. none) × (size (clear m) ≡ 0)
  unfolding clear size
  clear-Maps b m f h = (
    record {
      count = length-clear_segments m.segments ∙ h.count;
      small = h.small;
      shards = λ i p.
          Shard-ext b (get_or (clear_segments m.segments) i none) (λ k. none)
            (shard b i (λ k. none)) (nothing b i)
            (clear_segments-Shard b m.segments i (shard b i f) (h.shards i p));
    },
    sum_sizes-clear_segments m.segments,
  )

  -- After `insert` of a key, `find` of this key leads to the new value, and `find` of any other
  -- key to what it led to before.
  pub find-insert :
      (b : ℕ) (m : ConcurrentHashMap K V) (f : K → Option V) (k q : K) (v : V)
      → Maps b m f
      → (insert b k v m >>= (λ r. find b q (r.2) >>= (λ it. read (r.2) it)))
        ≡ (if key_type.same q k then some v else (find b q m >>= (λ it. read m it)))
  find-insert b m f k q v h =
      let put = insert-Maps b m f k v h in
      let after = find-Maps b (put.0) (update f k (some v)) q (put.2) in
      let before = find-Maps b m f q h in rw (put.1, after.1, before.1, after.2, before.2) refl
