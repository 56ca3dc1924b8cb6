-- ===== src/HashMap/Iterator/Visits.antt =====
-- src/concurrent/concurrent_hashmap_detail.h: a loop over the segment meets each key once.
use wizard.Prelude.{
  ℕ, zero, suc, ◌+◌, ◌-◌, ◌≤◌, ◌<◌, ◌≡◌, ◌⊎◌, inl, inr, refl, sym, ◌∙◌, ap, false, Bool-cases,
  Option, none, some, List, [], ◌∷◌, ◌++◌, arith, ltb, lt→ltb, get_elem?-eq-get_or, get_or, length,
  length-append, ℕ_discrete,
}
use wizard.Prelude.Bits.{pow-pos}
use wizard.HashMap.Store.{HashKey}
use wizard.HashMap.Segment.{Segment, bucket_id}
use wizard.HashMap.Chains.{Entry, Chain}
use wizard.HashMap.Search.{KeyAvoids, KeysDistinct, AllAvoid, KeyAvoids-append, KeysDistinct-append}
use wizard.HashMap.Table.{lookup, Placed, total, home, same_ne, none-lookup}
use wizard.HashMap.Overlay.{Placed-KeyAvoids}
use wizard.HashMap.Update.{Placed-AllAvoid}
use wizard.HashMap.Methods.{Models}
use wizard.HashMap.Iterator.{Iterator, advance_bucket, cbegin, increment, visit}

module _ {ℓ} {K V : Type ℓ} where
  -- The entries of `n` buckets from bucket `i` on.
  abbrev pub in_buckets : (ℕ → List (Entry K V)) → ℕ → ℕ → List (Entry K V)
  in_buckets chains zero i = []
  in_buckets chains (suc n) i = chains i ++ in_buckets chains n (suc i)

  -- These entries are left at this node and this bucket.
  Left : Segment K V → (ℕ → List (Entry K V)) → Option ℕ → ℕ → List (Entry K V) → Type ℓ
  Left m chains here i l =
      ((here ≡ none) × (l ≡ []))
      ⊎ ((e : Entry K V) × (es : List (Entry K V)) × (n : ℕ) × Chain m.store here (e ∷ es)
          × (i + suc n ≡ length m.buckets)
          × (l ≡ e ∷ (es ++ in_buckets chains n (suc i))))

  advance_bucket_lem :
      (m : Segment K V) (chains : ℕ → List (Entry K V)) (fuel n i : ℕ) (here : Option ℕ)
      (es : List (Entry K V))
      → ((j : ℕ) → j < length m.buckets → Chain m.store (get_or m.buckets j none) (chains j))
      → Chain m.store here es
      → i + suc n ≡ length m.buckets
      → n < fuel
      → (it : Iterator) × (advance_bucket fuel m.buckets here i ≡ some it)
        × Left m chains it.node it.bucket_id (es ++ in_buckets chains n (suc i))
  unfolding advance_bucket Left
  advance_bucket_lem m chains zero n i here es all c at room = absurd (omega arith)
  advance_bucket_lem m chains (suc fuel) n i here (e ∷ es) all c at room = rw (c.0) (
    record { node = some e.address; bucket_id = i },
    refl,
    inr (e, es, n, (refl, c.1, c.2, c.3), at, refl),
  )
  advance_bucket_lem m chains (suc fuel) zero i here [] all c at room =
      let past : ltb (suc i) (length m.buckets) ≡ false = ground arith in
      rw (c.0, past) (record { node = none; bucket_id = suc i }, refl, inl (refl, refl))
  advance_bucket_lem m chains (suc fuel) (suc n) i here [] all c at room =
      let inside : suc i < length m.buckets = omega arith in
      let next =
        advance_bucket_lem m chains fuel n (suc i) (get_or m.buckets (suc i) none) (chains (suc i))
          all (all (suc i) inside) (omega arith) (omega arith) in
      rw
        (
          c.0,
          lt→ltb (suc i) (length m.buckets) inside,
          get_elem?-eq-get_or m.buckets (suc i) none inside,
        )
        next

  visit_lem :
      (m : Segment K V) (chains : ℕ → List (Entry K V)) (fuel i : ℕ) (here : Option ℕ)
      (l : List (Entry K V))
      → ((j : ℕ) → j < length m.buckets → Chain m.store (get_or m.buckets j none) (chains j))
      → Left m chains here i l
      → length l < fuel
      → visit fuel m here i ≡ some l
  unfolding visit increment Left
  visit_lem m chains zero i here l all left room = absurd (omega arith)
  visit_lem m chains (suc fuel) i here l all (inl (e, h)) room = rw (e, h) refl
  visit_lem m chains (suc fuel) i here l all (inr (e, es, n, c, at, h)) room =
      let rest = es ++ in_buckets chains n (suc i) in
      let next =
        advance_bucket_lem m chains (length m.buckets + 1) n i (c.1) es all (c.3) at
          (omega arith) in
      let shorter : length rest < fuel = omega (arith, ap length h) in
      rw
        (
          c.0,
          c.2.alive,
          next.1,
          h,
          visit_lem m chains fuel next.0.bucket_id next.0.node rest all (next.2) shorter,
        )
        refl

module _ {ℓ} {K V : Type ℓ} ⦃key_type : HashKey K⦄ where
  AllAvoid-append :
      (bs es fs : List (Entry K V)) → AllAvoid bs es → AllAvoid bs fs → AllAvoid bs (es ++ fs)
  AllAvoid-append [] es fs a c = tt
  AllAvoid-append (x ∷ bs) es fs a c =
      (KeyAvoids-append x.key es fs (a.0) (c.0), AllAvoid-append bs es fs (a.1) (c.1))

  AllAvoid-nil : (bs : List (Entry K V)) → AllAvoid bs []
  AllAvoid-nil [] = tt
  AllAvoid-nil (x ∷ bs) = (tt, AllAvoid-nil bs)

  lookup-front :
      (k : K) (xs ys : List (Entry K V)) → KeyAvoids k ys → lookup k (xs ++ ys) ≡ lookup k xs
  unfolding lookup
  lookup-front k [] ys out = none-lookup k ys out
  lookup-front k (x ∷ xs) ys out = elim (Bool-cases (key_type.same k x.key)) [
    | inl t ↦ rw t refl
    | inr f ↦ rw f (lookup-front k xs ys out)
  ]

  lookup-behind :
      (k : K) (xs ys : List (Entry K V)) → KeyAvoids k xs → lookup k (xs ++ ys) ≡ lookup k ys
  unfolding lookup
  lookup-behind k [] ys out = refl
  lookup-behind k (x ∷ xs) ys out =
      rw (same_ne k x.key (λ e. out.0 (sym e))) (lookup-behind k xs ys (out.1))

  -- Buckets behind `i` have none of the keys of bucket `i`.
  AllAvoid-in_buckets :
      (b count i n j : ℕ) (chains : ℕ → List (Entry K V))
      → i < j
      → ((h : ℕ) → Placed b count h (chains h))
      → AllAvoid (chains i) (in_buckets chains n j)
  AllAvoid-in_buckets b count i zero j chains p w = AllAvoid-nil (chains i)
  AllAvoid-in_buckets b count i (suc n) j chains p w =
      AllAvoid-append (chains i) (chains j) (in_buckets chains n (suc j))
        (Placed-AllAvoid b count i j (chains i) (chains j) (λ e. omega arith) (w i) (w j))
        (AllAvoid-in_buckets b count i n (suc j) chains (omega arith) w)

  in_buckets-KeysDistinct :
      (b count n i : ℕ) (chains : ℕ → List (Entry K V))
      → ((h : ℕ) → Placed b count h (chains h))
      → ((h : ℕ) → KeysDistinct (chains h))
      → KeysDistinct (in_buckets chains n i)
  in_buckets-KeysDistinct b count zero i chains w d = tt
  in_buckets-KeysDistinct b count (suc n) i chains w d =
      KeysDistinct-append (chains i) (in_buckets chains n (suc i)) (d i)
        (in_buckets-KeysDistinct b count n (suc i) chains w d)
        (AllAvoid-in_buckets b count i n (suc i) chains (omega arith) w)

  in_buckets-KeyAvoids :
      (b count n i : ℕ) (chains : ℕ → List (Entry K V)) (k : K)
      → ((h : ℕ) → Placed b count h (chains h))
      → bucket_id b (key_type.hash k) count < i
      → KeyAvoids k (in_buckets chains n i)
  in_buckets-KeyAvoids b count zero i chains k w p = tt
  in_buckets-KeyAvoids b count (suc n) i chains k w p =
      KeyAvoids-append k (chains i) (in_buckets chains n (suc i))
        (Placed-KeyAvoids b count i (chains i) k (w i) (λ e. omega arith))
        (in_buckets-KeyAvoids b count n (suc i) chains k w (omega arith))

  lookup-in_buckets :
      (b count n i : ℕ) (chains : ℕ → List (Entry K V)) (k : K)
      → ((h : ℕ) → Placed b count h (chains h))
      → i ≤ bucket_id b (key_type.hash k) count
      → bucket_id b (key_type.hash k) count < i + n
      → lookup k (in_buckets chains n i) ≡ lookup k (chains (bucket_id b (key_type.hash k) count))
  lookup-in_buckets b count zero i chains k w p q = absurd (omega arith)
  lookup-in_buckets b count (suc n) i chains k w p q =
      elim (ℕ_discrete (bucket_id b (key_type.hash k) count) i) [
        | yes e ↦
            lookup-front k (chains i) (in_buckets chains n (suc i))
              (in_buckets-KeyAvoids b count n (suc i) chains k w (omega arith))
            ∙ ap (λ h. lookup k (chains h)) (sym e)
        | no ne ↦
            lookup-behind k (chains i) (in_buckets chains n (suc i))
              (Placed-KeyAvoids b count i (chains i) k (w i) ne)
            ∙ lookup-in_buckets b count n (suc i) chains k w (omega arith) (omega arith)
      ]

  length-in_buckets :
      (n i : ℕ) (chains : ℕ → List (Entry K V))
      → length (in_buckets chains n i) + total i chains ≡ total (i + n) chains
  length-in_buckets zero i chains = let z : i + 0 ≡ i = omega arith in rw z (omega arith)
  length-in_buckets (suc n) i chains =
      let shift : i + suc n ≡ suc i + n = omega arith in
      rw shift (
        omega (
          arith,
          length-append (chains i) (in_buckets chains n (suc i)),
          length-in_buckets n (suc i) chains,
        ))

  -- A loop from `cbegin` on ends after as many rounds as the segment's size; it meets nodes with different
  -- keys, as many as the size says, and these keys and values are the map.
  pub visit-cbegin :
      (b : ℕ) (m : Segment K V) (f : K → Option V)
      → Models b m f
      → (it : Iterator) × (es : List (Entry K V)) × (cbegin m ≡ some it)
        × (visit (m.size + 1) m it.node it.bucket_id ≡ some es)
        × KeysDistinct es
        × ((k : K) → lookup k es ≡ f k)
        × (length es ≡ m.size)
  unfolding cbegin
  visit-cbegin b m f w =
      let count = length m.buckets in
      let some_bucket : 0 < count = omega (arith, w.table.power, pow-pos w.table.bits) in
      let n = count - 1 in
      let more : 0 + suc n ≡ count = omega arith in
      let first =
        advance_bucket_lem m w.chains (count + 1) n 0 (get_or m.buckets 0 none) (w.chains 0)
          w.table.chained (w.table.chained 0 some_bucket) more (omega arith) in
      let it = first.0 in
      let es = in_buckets w.chains (suc n) 0 in
      let all_met : length es ≡ m.size =
        omega
          (arith, length-in_buckets (suc n) 0 w.chains, ap (λ c. total c w.chains) more, w.sized) in
      (
        it,
        es,
        rw (get_elem?-eq-get_or m.buckets 0 none some_bucket) (first.1),
        visit_lem m w.chains (m.size + 1) it.bucket_id it.node es w.table.chained (first.2)
            (omega (arith, all_met)),
        in_buckets-KeysDistinct b count (suc n) 0 w.chains w.table.placed w.table.distinct,
        λ k.
            lookup-in_buckets b count (suc n) 0 w.chains k w.table.placed (omega arith)
              (omega (arith, home w.table (key_type.hash k)))
            ∙ w.table.views k,
        all_met,
      )
