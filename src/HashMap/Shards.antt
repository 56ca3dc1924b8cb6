-- ===== src/HashMap/Shards.antt =====
-- src/concurrent/concurrent_hashmap.h: the segments together as one map from keys to values.
use wizard.Prelude.{
  ℕ, zero, suc, ◌+◌, ◌/◌, ◌≤◌, ◌<◌, ◌^◌, ◌≡◌, inl, inr, refl, sym, ◌∙◌, ap, true, false, Bool-cases,
  Option, none, some, List, [], ◌∷◌, arith, ◌==◌, ==_eq, ==_ne, if◌then◌else◌, length, length-set,
  get_or, get_or-set_self, get_or-set_ne, set, ℕ_discrete,
}
use wizard.Prelude.Bits.{and-mask, pow-pos}
use native.Mathlib.Nat.{mod-lt}
use wizard.HashMap.Store.{HashKey}
use wizard.HashMap.Segment.{Segment}
use wizard.HashMap.Table.{update}
use wizard.HashMap.Grow.{Table-ext}
use wizard.HashMap.Methods.{Models}
use wizard.HashMap.Sharded.{ConcurrentHashMap, sum_sizes, size, pick_segment}

module _ {ℓ} {K : Type ℓ} ⦃key_type : HashKey K⦄ where
  pub pick-lt : (b : ℕ) (k : K) → pick_segment b k < 2 ^ b
  unfolding pick_segment
  pick-lt b k = rw (and-mask b (key_type.hash k)) (mod-lt (key_type.hash k) {m = 2 ^ b} (pow-pos b))

module _ {ℓ} {K V : Type ℓ} ⦃key_type : HashKey K⦄ where
  -- The part of a map whose keys belong in segment `i`.
  abbrev pub shard : ℕ → ℕ → (K → Option V) → K → Option V
  shard b i f k = if pick_segment b k == i then f k else none

  -- A slot without a segment is the empty map.
  abbrev pub Shard : ℕ → Option (Segment K V) → (K → Option V) → Type ℓ
  Shard b none f = (k : K) → none ≡ f k
  Shard b (some seg) f = Models b seg f

  -- The segments are the map `f`, each one the part whose keys it gets.
  pub record Maps (b : ℕ) (m : ConcurrentHashMap K V) (f : K → Option V) : Type ℓ where
    pub count : length m.segments ≡ 2 ^ b
    pub small : m.init_capacity / 2 ^ b ≤ 2 ^ 63
    pub shards : (i : ℕ) → i < 2 ^ b → Shard b (get_or m.segments i none) (shard b i f)

  pub Shard-ext :
      (b : ℕ) (slot : Option (Segment K V)) (f g : K → Option V)
      → ((k : K) → f k ≡ g k)
      → Shard b slot f
      → Shard b slot g
  Shard-ext b none f g same s = λ k. s k ∙ same k
  Shard-ext b (some seg) f g same s = record {
    chains = s.chains;
    table = Table-ext b seg.store seg.buckets s.chains f g same s.table;
    sized = s.sized;
  }

  pub shard_here : (b : ℕ) (f : K → Option V) (k : K) → shard b (pick_segment b k) f k ≡ f k
  shard_here b f k =
      let same : (pick_segment b k == pick_segment b k) ≡ true = ==_eq refl in rw same refl

  -- One segment changed at one of its keys changes the map at this key.
  pub put_shard :
      (b : ℕ) (m : ConcurrentHashMap K V) (f : K → Option V) (k : K) (w : Option V)
      (slot : Option (Segment K V))
      → Maps b m f
      → Shard b slot (update (shard b (pick_segment b k) f) k w)
      → Maps b (record m { segments = set m.segments (pick_segment b k) slot }) (update f k w)
  put_shard b m f k w slot h s =
      let i = pick_segment b k in
      let inside : i < length m.segments = rw h.count (pick-lt b k) in
      record {
        count = length-set m.segments i slot ∙ h.count;
        small = h.small;
        shards = λ j p. elim (ℕ_discrete i j) [
          | yes e ↦
              rw (sym e, get_or-set_self m.segments i slot none inside)
                (Shard-ext b slot _ (shard b i (update f k w))
                  (λ x. elim (Bool-cases (key_type.same x k)) [
                    | inl t ↦
                        let here : (pick_segment b x == i) ≡ true =
                          ==_eq (ap (pick_segment b) ((key_type.same_iff x k).0 t)) in
                        rw (t, here) refl
                    | inr n ↦ rw n refl
                  ])
                  s)
          | no ne ↦ rw (get_or-set_ne m.segments i j slot none ne) (
              Shard-ext b (get_or m.segments j none) (shard b j f) (shard b j (update f k w))
                (λ x. elim (Bool-cases (key_type.same x k)) [
                  | inl t ↦
                      let away : (pick_segment b x == j) ≡ false =
                        ==_ne
                          (λ e. ne (ap (pick_segment b) (sym ((key_type.same_iff x k).0 t)) ∙ e)) in
                      rw away refl
                  | inr n ↦ rw n refl
                ])
                (h.shards j p))
        ];
      }

  pub Maps-ext :
      (b : ℕ) (m : ConcurrentHashMap K V) (f g : K → Option V)
      → ((k : K) → f k ≡ g k)
      → Maps b m f
      → Maps b m g
  Maps-ext b m f g same h = record {
    count = h.count;
    small = h.small;
    shards = λ i p.
        Shard-ext b (get_or m.segments i none) (shard b i f) (shard b i g)
          (λ x. ap (λ v. if pick_segment b x == i then v else none) (same x)) (h.shards i p);
  }

  update_same : (f : K → Option V) (k x : K) → update f k (f k) x ≡ f x
  update_same f k x = elim (Bool-cases (key_type.same x k)) [
    | inl t ↦ rw t (ap f (sym ((key_type.same_iff x k).0 t)))
    | inr n ↦ rw n refl
  ]

  -- A segment exchanged for one with the same keys and values.
  pub same_shard :
      (b : ℕ) (m : ConcurrentHashMap K V) (f : K → Option V) (k : K) (slot : Option (Segment K V))
      → Maps b m f
      → Shard b slot (shard b (pick_segment b k) f)
      → Maps b (record m { segments = set m.segments (pick_segment b k) slot }) f
  same_shard b m f k slot h s =
      let g = shard b (pick_segment b k) f in
      Maps-ext b (record m { segments = set m.segments (pick_segment b k) slot }) (update f k (f k))
        f (update_same f k)
        (put_shard b m f k (f k) slot h (
          Shard-ext b slot g (update g k (f k))
            (λ x. sym (ap (λ v. update g k v x) (sym (shard_here b f k)) ∙ update_same g k x)) s))

module _ {ℓ} {K V : Type ℓ} where
  -- The entries that a slot counts.
  abbrev pub slot_size : Option (Segment K V) → ℕ
  slot_size none = 0
  slot_size (some seg) = seg.size

  sum_sizes-set :
      (segs : List (Option (Segment K V))) (i : ℕ) (slot : Option (Segment K V))
      → i < length segs
      → sum_sizes (set segs i slot) + slot_size (get_or segs i none)
        ≡ sum_sizes segs + slot_size slot
  unfolding sum_sizes
  sum_sizes-set [] i slot p = absurd (omega arith)
  sum_sizes-set (none ∷ segs) zero none p = refl
  sum_sizes-set (none ∷ segs) zero (some new) p = omega arith
  sum_sizes-set (some seg ∷ segs) zero none p = omega arith
  sum_sizes-set (some seg ∷ segs) zero (some new) p = omega arith
  sum_sizes-set (none ∷ segs) (suc i) slot p = sum_sizes-set segs i slot (omega arith)
  sum_sizes-set (some seg ∷ segs) (suc i) slot p =
      omega (arith, sum_sizes-set segs i slot (omega arith))

  -- What a change of one slot does to the size.
  pub size-set :
      (m : ConcurrentHashMap K V) (i : ℕ) (slot : Option (Segment K V))
      → i < length m.segments
      → size (record m { segments = set m.segments i slot }) + slot_size (get_or m.segments i none)
        ≡ size m + slot_size slot
  unfolding size
  size-set m i slot p = sum_sizes-set m.segments i slot p
