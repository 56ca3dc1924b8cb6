-- ===== src/ObjectPool/Frees.antt =====
-- src/pool.h: `try_pop` and `release` as operations on three lists of free nodes.
use wizard.Prelude.{
  ℕ, ◌^◌, ◌<◌, ◌≡◌, refl, Bool, true, false, Option, none, some, List, [], ◌∷◌, ◌++◌, get_elem?,
  length,
}
use wizard.Prelude.Pigeonhole.{Different}
use wizard.ObjectPool.{PoolNode, ObjectPool, popped_market, popped_cache, try_pop}
use wizard.ObjectPool.Stacks.{Stack, pop_one_node_lem, pop_one_node-empty}

-- Every node of the list is of this kind.
abbrev pub Kind : Bool → List PoolNode → List ℕ → Type 0
Kind b nodes [] = Unit {0}
Kind b nodes (x ∷ xs) =
    ((n : PoolNode) × (get_elem? nodes x ≡ some n) × (n.is_collective ≡ b)) × Kind b nodes xs

-- The free nodes: in the thread's cache, on the market list and on the collective list. The last
-- list has the collective nodes, no node is free twice, and each node knows its index.
pub record Frees (p : ObjectPool) (cache market collective : List ℕ) : Type 0 where
  pub cached : p.cache ≡ cache
  pub on_market : Stack p.nodes p.market_head market
  pub on_collective : Stack p.nodes p.collective_head collective
  pub different : Different (cache ++ (market ++ collective))
  pub cache_kind : Kind false p.nodes cache
  pub market_kind : Kind false p.nodes market
  pub collective_kind : Kind true p.nodes collective
  pub indexed : (x : ℕ) (n : PoolNode) → get_elem? p.nodes x ≡ some n → n.index ≡ x
  pub small : length p.nodes < 2 ^ 32

-- The first of three lists that is not empty loses its first node.
abbrev pub first : List ℕ → List ℕ → List ℕ → Option ℕ
first (x ∷ cache) market collective = some x
first [] (x ∷ market) collective = some x
first [] [] (x ∷ collective) = some x
first [] [] [] = none

abbrev pub Popped : ObjectPool → List ℕ → List ℕ → List ℕ → Type 0
Popped p (x ∷ cache) market collective = Frees p cache market collective
Popped p [] (x ∷ market) collective = Frees p [] market collective
Popped p [] [] (x ∷ collective) = Frees p [] [] collective
Popped p [] [] [] = Frees p [] [] []

-- `try_pop` returns a free node, from the thread's cache if it can, else from the market list,
-- else from the collective list, and this node is then no longer free; it returns none if no
-- node is free.
pub try_pop-Frees :
    (p : ObjectPool) (cache market collective : List ℕ)
    → Frees p cache market collective
    → (q : ObjectPool) × (try_pop p ≡ some (first cache market collective, q))
      × Popped q cache market collective
unfolding try_pop popped_cache popped_market
try_pop-Frees p (x ∷ cache) market collective h = (
  record p { cache = cache },
  rw (h.cached) refl,
  record {
    cached = refl;
    on_market = h.on_market;
    on_collective = h.on_collective;
    different = h.different.1;
    cache_kind = h.cache_kind.1;
    market_kind = h.market_kind;
    collective_kind = h.collective_kind;
    indexed = h.indexed;
    small = h.small;
  },
)
try_pop-Frees p [] (x ∷ market) collective h =
    let popped = pop_one_node_lem p.nodes p.market_head x market h.on_market in
    (
      record p { market_head = popped.0 },
      rw (h.cached, popped.1) refl,
      record {
        cached = h.cached;
        on_market = popped.2;
        on_collective = h.on_collective;
        different = h.different.1;
        cache_kind = h.cache_kind;
        market_kind = h.market_kind.1;
        collective_kind = h.collective_kind;
        indexed = h.indexed;
        small = h.small;
      },
    )
try_pop-Frees p [] [] (x ∷ collective) h =
    let popped = pop_one_node_lem p.nodes p.collective_head x collective h.on_collective in
    (
      record p { collective_head = popped.0 },
      rw (h.cached, pop_one_node-empty p.nodes p.market_head h.on_market, popped.1) refl,
      record {
        cached = h.cached;
        on_market = h.on_market;
        on_collective = popped.2;
        different = h.different.1;
        cache_kind = h.cache_kind;
        market_kind = h.market_kind;
        collective_kind = h.collective_kind.1;
        indexed = h.indexed;
        small = h.small;
      },
    )
try_pop-Frees p [] [] [] h = (
  p,
  rw
      (
        h.cached,
        pop_one_node-empty p.nodes p.market_head h.on_market,
        pop_one_node-empty p.nodes p.collective_head h.on_collective,
      )
      refl,
  h,
)
