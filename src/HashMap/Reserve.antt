-- ===== src/HashMap/Reserve.antt =====
-- src/concurrent/concurrent_hashmap.h: `reserve` with a capacity below the number of segments.
use wizard.Prelude.{
  ℕ, zero, suc, ◌+◌, ◌/◌, ◌<◌, ◌^◌, ◌≡◌, inl, inr, refl, sym, ◌∙◌, ap, Option-cases, Option, none,
  some, List, [], ◌∷◌, ◌>>=◌, subst, >>=-eq-some, length, get_elem?,
}
use native.Mathlib.Nat.{div-eq_of_lt}
use wizard.HashMap.Store.{HashKey, Store, node_at}
use wizard.HashMap.Segment.{
  Segment, push_head, rehash_chain, rehash_buckets, rehash, find as segment_find,
}
use wizard.HashMap.Sharded.{
  ConcurrentHashMap, pick_segment, find_in, find, rehash_segments, reserve,
}

module _ {ℓ} {A : Type ℓ} where
  second_of : A × List (Option ℕ) → Option (A × List (Option ℕ)) → List (Option ℕ)
  second_of d none = d.1
  second_of d (some m) = m.1

  same_second : (a m : A × List (Option ℕ)) → some a ≡ some m → m.1 ≡ a.1
  unfolding second_of
  same_second a m e = ap (second_of a) (sym e)

module _ {ℓ} {A : Type ℓ} where
  at_of : {xs ys : List A} → some xs ≡ some ys → (i : ℕ) → get_elem? ys i ≡ get_elem? xs i
  at_of e i = ap (λ o. o >>= (λ l. get_elem? l i)) (sym e)

module _ {ℓ} {K V : Type ℓ} ⦃key_type : HashKey K⦄ where
  -- No node can be put into a list of 0 buckets.
  rehash_chain-none :
      (b fuel : ℕ) (p : Option ℕ) (s : Store K V) (moved : Store K V × List (Option ℕ))
      → rehash_chain b fuel 0 p s [] ≡ some moved
      → moved.1 ≡ []
  unfolding rehash_chain push_head
  rehash_chain-none b zero p s moved e = absurd (cc (e))
  rehash_chain-none b (suc fuel) none s moved e = same_second (s, []) moved e
  rehash_chain-none b (suc fuel) (some p) s moved e =
      let h = >>=-eq-some (node_at s p) _ e in absurd (cc (h.2))

  rehash_buckets-none :
      (b : ℕ) (old : List (Option ℕ)) (s : Store K V) (moved : Store K V × List (Option ℕ))
      → rehash_buckets b 0 old s [] ≡ some moved
      → moved.1 ≡ []
  unfolding rehash_buckets
  rehash_buckets-none b [] s moved e = same_second (s, []) moved e
  rehash_buckets-none b (head ∷ old) s moved e =
      let h = >>=-eq-some (rehash_chain b (length s.cells + 1) 0 head s []) _ e in
      rehash_buckets-none b old (h.0.0) moved (
        subst (λ l. rehash_buckets b 0 old (h.0.0) l ≡ some moved)
          (rehash_chain-none b (length s.cells + 1) head s (h.0) (h.1)) (h.2))

  buckets_of : Segment K V → Option (Segment K V) → List (Option ℕ)
  buckets_of d none = d.buckets
  buckets_of d (some m) = m.buckets

  rehash-none :
      (b : ℕ) (m n : Segment K V) (hash : ℕ) (k : K)
      → rehash b 0 m ≡ some n
      → segment_find b hash k n ≡ none
  unfolding rehash segment_find buckets_of
  rehash-none b m n hash k e =
      let h = >>=-eq-some (rehash_buckets b 0 m.buckets m.store []) _ e in
      let empty = rehash_buckets-none b m.buckets m.store (h.0) (h.1) in
      let same : n.buckets ≡ h.0.1 = ap (buckets_of n) (sym (h.2)) in rw (same, empty) refl

  rehash_segments_at :
      (b count i : ℕ) (segs rest : List (Option (Segment K V))) (seg : Segment K V)
      → get_elem? segs i ≡ some (some seg)
      → rehash_segments b count segs ≡ some rest
      → (after : Segment K V) × (rehash b count seg ≡ some after)
        × (get_elem? rest i ≡ some (some after))
  unfolding rehash_segments
  rehash_segments_at b count i [] rest seg at e = absurd (cc (at))
  rehash_segments_at b count zero (none ∷ segs) rest seg at e = absurd (cc (at))
  rehash_segments_at b count (suc i) (none ∷ segs) rest seg at e =
      let h = >>=-eq-some (rehash_segments b count segs) _ e in
      let there = rehash_segments_at b count i segs (h.0) seg at (h.1) in
      (there.0, there.1, at_of (h.2) (suc i) ∙ there.2)
  rehash_segments_at b count zero (some x ∷ segs) rest seg at e =
      let first = >>=-eq-some (rehash b count x) _ e in
      let h = >>=-eq-some (rehash_segments b count segs) _ (first.2) in
      let same : x ≡ seg = cc (at) in
      (first.0, subst (λ y. rehash b count y ≡ some (first.0)) same (first.1), at_of (h.2) zero)
  rehash_segments_at b count (suc i) (some x ∷ segs) rest seg at e =
      let first = >>=-eq-some (rehash b count x) _ e in
      let h = >>=-eq-some (rehash_segments b count segs) _ (first.2) in
      let there = rehash_segments_at b count i segs (h.0) seg at (h.1) in
      (there.0, there.1, at_of (h.2) (suc i) ∙ there.2)

  -- After `reserve` for less than one bucket in each segment, `find` of a key whose segment is
  -- there reads outside of the buckets.
  pub find-reserve :
      (b capacity : ℕ) (m : ConcurrentHashMap K V) (k : K) (seg : Segment K V)
      → capacity < 2 ^ b
      → get_elem? m.segments (pick_segment b k) ≡ some (some seg)
      → (reserve b capacity m >>= (λ n. find b k n)) ≡ none
  unfolding reserve find find_in
  find-reserve b capacity m k seg small at =
      let z : capacity / 2 ^ b ≡ 0 = div-eq_of_lt small in
      elim (Option-cases (rehash_segments b 0 m.segments)) [
        | inl e ↦ rw (z, e) refl
        | inr (rest, e) ↦
            let after = rehash_segments_at b 0 (pick_segment b k) m.segments rest seg at e in
            rw (z, e, after.2, rehash-none b seg (after.0) (key_type.hash k) k (after.1)) refl
      ]
