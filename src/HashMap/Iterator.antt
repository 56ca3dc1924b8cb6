-- ===== src/HashMap/Iterator.antt =====
-- src/concurrent/concurrent_hashmap_detail.h: the segment's `Iterator`, and a loop from
-- `cbegin` to `cend`.
--
-- The bucket list that an iterator points to is an argument. `none` as a result is a null
-- pointer or a deleted node followed. The loop over the buckets takes one round for each bucket
-- and one more.
pub mod Visits
use wizard.Prelude.{
  ℕ, zero, suc, ◌+◌, Bool, true, false, Option, none, some, List, [], ◌∷◌, ltb, if◌then◌else◌,
  ◌>>=◌, get_elem?, length,
}
use wizard.HashMap.Store.{Node, Store, node_at}
use wizard.HashMap.Segment.{Segment}
use wizard.HashMap.Chains.{Entry}

pub record Iterator : Type 0 where
  pub node : Option ℕ
  pub bucket_id : ℕ

-- `advanceBucketIfAtEnd` at this node and this bucket.
unfoldable pub advance_bucket : ℕ → List (Option ℕ) → Option ℕ → ℕ → Option Iterator
advance_bucket zero heads here i = none
advance_bucket (suc fuel) heads (some p) i = some (record { node = some p; bucket_id = i })
advance_bucket (suc fuel) heads none i =
    let rest = λ (here : Option ℕ). advance_bucket fuel heads here (suc i) in
    if ltb (suc i) (length heads)
    then (get_elem? heads (suc i) >>= (λ here. rest here))
    else some (record { node = none; bucket_id = suc i })

module _ {ℓ} {K V : Type ℓ} where
  -- `cbegin`, with `init`.
  unfoldable pub cbegin : Segment K V → Option Iterator
  cbegin m =
      get_elem? m.buckets 0 >>= (λ here. advance_bucket (length m.buckets + 1) m.buckets here 0)

  -- `operator*`
  unfoldable pub dereference : Segment K V → Iterator → Option V
  dereference m it = it.node >>= (λ p. node_at m.store p >>= (λ n. some n.value))

  -- `operator++`
  unfoldable pub increment : Segment K V → Iterator → Option Iterator
  increment m it = it.node >>= (λ p.
      node_at m.store p
      >>= (λ n. advance_bucket (length m.buckets + 1) m.buckets n.next it.bucket_id))

  -- What a loop meets from an iterator on, until its node is null as that of `cend`, in at most
  -- `fuel` rounds.
  unfoldable pub visit : ℕ → Segment K V → Option ℕ → ℕ → Option (List (Entry K V))
  visit zero m here i = none
  visit (suc fuel) m none i = some []
  visit (suc fuel) m (some p) i =
      let rest = λ (it : Iterator). visit fuel m it.node it.bucket_id in
      node_at m.store p >>= (λ n. increment m (record { node = some p; bucket_id = i }) >>= (λ it.
        rest it >>= (λ es. some (record { address = p; key = n.key; value = n.value } ∷ es))))
