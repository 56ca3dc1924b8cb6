-- ===== src/ObjectPool/Tests.antt =====
-- Runs of `ObjectPool` of src/pool.h with five nodes, two of them collective.
use wizard.Prelude.{
  ℕ, zero, suc, ◌≡◌, ◌+◌, refl, sym, ap, Bool, true, false, none, ◌⊎◌, some, List, [], ◌∷◌, arith,
  get_elem?, ltb, if◌then◌else◌,
}
use wizard.ObjectPool.{
  null_index, get_index, make_tagged_index, PoolNode, ObjectPool, init, init_nodes, push_back,
  push_behind, push_into, advance_tag, set_next, get_capacity, release, is_alive, destroy_object,
  put_back, popped_cache, popped_market, pop_one_node, try_pop,
}
use wizard.ObjectPool.Frees.{Frees}
use wizard.Prelude.Sums.{count}
use wizard.ObjectPool.Handles.{
  Handles, HandleCall, node_handle, call, call_all, get, release_found, move_found, move_assign,
  move_new_found, release_handle, release_parts, release_object,
}
use wizard.ObjectPool.Reuse.{release-get}
use wizard.ObjectPool.Handles.HandleCall.{get_new, move_new, move_to, release_at}
use wizard.ObjectPool.Sharing.{HandlesOk, Returned, Faulty, call_all-HandlesOk}
use wizard.ObjectPool.Release.{Released, release-Released}

abbrev node : ℕ → ℕ → Bool → PoolNode
node index next is_collective = record {
  next = next;
  index = index;
  tag = 1;
  is_collective = is_collective;
}

abbrev five : ObjectPool
five = record {
  nodes =
      node 0 1 true
      ∷ node 1 null_index true
      ∷ node 2 3 false
      ∷ node 3 4 false
      ∷ node 4 null_index false
      ∷ [];
  objects = true ∷ true ∷ true ∷ true ∷ true ∷ [];
  market_head = 2;
  collective_head = 0;
  cache = [];
}

five_lem : init 5 2 ≡ some five
unfolding init init_nodes push_back push_behind push_into advance_tag set_next make_tagged_index
five_lem = refl

named : (m n : PoolNode) → some m ≡ some n → n.index ≡ m.index
named m n e = let same : m ≡ n = cc (e) in ap (λ (z : PoolNode). z.index) (sym same)

five_indexed : (x : ℕ) (n : PoolNode) → get_elem? five.nodes x ≡ some n → n.index ≡ x
five_indexed zero n e = named (node 0 1 true) n e
five_indexed (suc zero) n e = named (node 1 null_index true) n e
five_indexed (suc (suc zero)) n e = named (node 2 3 false) n e
five_indexed (suc (suc (suc zero))) n e = named (node 3 4 false) n e
five_indexed (suc (suc (suc (suc zero)))) n e = named (node 4 null_index false) n e
five_indexed (suc (suc (suc (suc (suc x))))) n e = absurd (cc (e))

five-Frees : Frees five [] (2 ∷ 3 ∷ 4 ∷ []) (0 ∷ 1 ∷ [])
unfolding get_index
five-Frees = record {
  cached = refl;
  on_market = (
    omega arith,
    refl,
    node 2 3 false,
    refl,
    (
      omega arith,
      refl,
      node 3 4 false,
      refl,
      (omega arith, refl, node 4 null_index false, refl, refl),
    ),
  );
  on_collective = (
    omega arith,
    refl,
    node 0 1 true,
    refl,
    (omega arith, refl, node 1 null_index true, refl, refl),
  );
  different = (
    (λ e. omega arith, (λ e. omega arith, (λ e. omega arith, (λ e. omega arith, tt)))),
    (
      (λ e. omega arith, (λ e. omega arith, (λ e. omega arith, tt))),
      ((λ e. omega arith, (λ e. omega arith, tt)), ((λ e. omega arith, tt), (tt, tt))),
    ),
  );
  cache_kind = tt;
  market_kind = (
    (node 2 3 false, refl, refl),
    ((node 3 4 false, refl, refl), ((node 4 null_index false, refl, refl), tt)),
  );
  collective_kind = ((node 0 1 true, refl, refl), ((node 1 null_index true, refl, refl), tt));
  indexed = five_indexed;
  small = omega arith;
}

-- The pool after a `try_pop`: node 2 is not free.
abbrev four : ObjectPool
four = record five { market_head = 3 }

four-Frees : Frees four [] (3 ∷ 4 ∷ []) (0 ∷ 1 ∷ [])
unfolding get_index
four-Frees = record {
  cached = refl;
  on_market = (
    omega arith,
    refl,
    node 3 4 false,
    refl,
    (omega arith, refl, node 4 null_index false, refl, refl),
  );
  on_collective = five-Frees.on_collective;
  different = five-Frees.different.1;
  cache_kind = tt;
  market_kind = five-Frees.market_kind.1;
  collective_kind = five-Frees.collective_kind;
  indexed = five_indexed;
  small = five-Frees.small;
}

release-Released_example :
    (q : ObjectPool) × (release false 10 four 2 ≡ some q)
    × (q.objects ≡ true ∷ true ∷ false ∷ true ∷ true ∷ [])
    × Released false true q 2 [] (3 ∷ 4 ∷ []) (0 ∷ 1 ∷ [])
unfolding get_capacity is_alive
release-Released_example =
    release-Released false 10 four 2 (node 2 3 false) [] (3 ∷ 4 ∷ []) (0 ∷ 1 ∷ []) four-Frees refl
      (λ e. omega arith, (λ e. omega arith, (λ e. omega arith, (λ e. omega arith, tt))))

-- Five nodes, all of them free.
abbrev stock : ℕ → ℕ
stock x = if ltb x 5 then 1 else 0

abbrev no_handles : Handles
no_handles = record {
  owner = record { pool = five; heap = λ a. false; next_address = 0 };
  handles = [];
}

stock-nodes : (x : ℕ) → count x (2 ∷ 3 ∷ 4 ∷ 0 ∷ 1 ∷ []) + 0 ≡ stock x
stock-nodes x = ground arith

no_handles-HandlesOk : HandlesOk stock no_handles
no_handles-HandlesOk = record {
  ok = record {
    cache = [];
    market = 2 ∷ 3 ∷ 4 ∷ [];
    collective = 0 ∷ 1 ∷ [];
    frees = five-Frees;
    nodes = stock-nodes;
    heaps = λ a. refl;
    fresh = λ a p. refl;
    once = λ x. ground arith;
    real = λ x p. ground arith;
  };
  shapes = tt;
}

-- Two handles, the first one moved into a third, the second one into the third, and released twice.
abbrev busy : List HandleCall
busy = get_new ∷ get_new ∷ move_new 0 ∷ move_to 2 1 ∷ move_to 2 2 ∷ release_at 2 ∷ release_at 2 ∷ []

call_all-HandlesOk_example :
    Returned stock false no_handles (call_all false 10 no_handles busy)
    ⊎ ((call_all false 10 no_handles busy ≡ none) × Faulty stock false 10 no_handles busy)
call_all-HandlesOk_example = call_all-HandlesOk stock false 10 no_handles busy no_handles-HandlesOk

-- Every call of `busy` returns.
busy_returns : (t : Handles) × (call_all false 10 no_handles busy ≡ some t)
unfolding call_all call get try_pop popped_cache popped_market pop_one_node get_index release_found
    move_found move_assign move_new_found release_handle release_parts release_object release
    destroy_object is_alive put_back get_capacity
busy_returns = (_, refl)

-- The handle of node 2.
abbrev one_handle : Handles
one_handle = record {
  owner = record { pool = four; heap = λ a. false; next_address = 0 };
  handles = node_handle 2 ∷ [];
}

release-get_example :
    (t : Handles) × (call_all false 10 one_handle (release_at 0 ∷ get_new ∷ []) ≡ some t)
    × (get_elem? t.handles 1 ≡ some (node_handle 2))
    × (is_alive t.owner.pool.objects 2 ≡ false)
    × (call false 10 t (release_at 1) ≡ none)
unfolding get_capacity is_alive
release-get_example = release-get 10 one_handle 0 2 (node 2 3 false) refl refl refl refl refl
