-- ===== src/ObjectPool.antt =====
-- src/pool.h: the free nodes of `ObjectPool`, used by one thread.
--
-- A node is named by its place in `_nodes`, and so is its object. `cache` is the thread's cache,
-- the last node first; it serves this pool only, and both ways to reach it (`USE_ACC`) act alike
-- then. `none` as a result is a null pointer followed, a place outside of `_nodes`, or a destructor
-- that runs twice on an object. A compare-exchange succeeds at once, as no other thread changes a
-- head. The counters of `INC_STATS` are compiled out.
pub mod Stacks
pub mod Frees
pub mod Release
pub mod Empty
pub mod Handles
pub mod Ownership
pub mod Sharing
pub mod Reuse
mod Tests
use Prim.Native.Nat.{bit_and, bit_or}
use wizard.Prelude.{
  ℕ, zero, suc, ◌+◌, ◌-◌, ◌*◌, ◌/◌, ◌%◌, ◌^◌, Bool, true, false, Option, none, some, List, [], ◌∷◌,
  ◌==◌, ltb, if◌then◌else◌, ◌>>=◌, get_elem?, set, length, replicate, get_or,
}

-- `NULL_INDEX`
abbrev pub null_index : ℕ
null_index = 2 ^ 64 - 1

unfoldable pub get_index : ℕ → ℕ
get_index tagged_index = bit_and tagged_index (2 ^ 32 - 1)

unfoldable pub get_tag : ℕ → ℕ
get_tag tagged_index = tagged_index / 2 ^ 32

-- `index | tag << 32`, with the shifted word first.
unfoldable pub make_tagged_index : ℕ → ℕ → ℕ
make_tagged_index index tag = bit_or (tag * 2 ^ 32 % 2 ^ 64) index

pub record PoolNode : Type 0 where
  pub next : ℕ
  pub index : ℕ
  pub tag : ℕ
  pub is_collective : Bool

-- `LinkedList`, whose pointers are null at first.
pub record LinkedList : Type 0 where
  pub head : Option ℕ
  pub tail : Option ℕ

pub record ObjectPool : Type 0 where
  pub nodes : List PoolNode
  -- Whether the destructor of an object has not run.
  pub objects : List Bool
  pub market_head : ℕ
  pub collective_head : ℕ
  pub cache : List ℕ

-- `node->index` and `node->advance_tag()`: the index, the old tag, and the nodes after.
unfoldable pub advance_tag : List PoolNode → ℕ → Option (ℕ × ℕ × List PoolNode)
advance_tag nodes x =
    get_elem? nodes x
    >>= (λ n. some (n.index, n.tag, set nodes x (record n { tag = (n.tag + 1) % 2 ^ 64 })))

-- `node->next = next`
unfoldable pub set_next : List PoolNode → ℕ → ℕ → Option (List PoolNode)
set_next nodes x next = get_elem? nodes x >>= (λ n. some (set nodes x (record n { next = next })))

-- `push_back` behind its read of the tail.
unfoldable pub push_behind :
    List PoolNode → LinkedList → ℕ → Option ℕ → Option (List PoolNode × LinkedList)
push_behind nodes list x (some tail) = advance_tag nodes x >>= (λ a.
    set_next (a.2) tail (make_tagged_index (a.0) (a.1))
    >>= (λ after. some (after, record list { tail = some x })))
push_behind nodes list x none = some (nodes, record { head = some x; tail = some x })

-- `LinkedList::push_back`
unfoldable pub push_back : List PoolNode → LinkedList → ℕ → Option (List PoolNode × LinkedList)
push_back nodes list x = push_behind nodes list x list.tail

-- `push_into`: the nodes and the new head.
unfoldable pub push_into : List PoolNode → ℕ → LinkedList → Option (List PoolNode × ℕ)
push_into nodes old_head list = list.head >>= (λ first. advance_tag nodes first >>= (λ a.
    list.tail >>= (λ last.
      set_next (a.2) last old_head >>= (λ after. some (after, make_tagged_index (a.0) (a.1))))))

unfoldable pub push_one_node : List PoolNode → ℕ → ℕ → Option (List PoolNode × ℕ)
push_one_node nodes head x = push_into nodes head (record { head = some x; tail = some x })

-- `pop_one_node`: the node and the new head.
unfoldable pub pop_one_node : List PoolNode → ℕ → Option (Option ℕ × ℕ)
pop_one_node nodes head =
    if head == null_index
    then some (none, head)
    else (get_elem? nodes (get_index head) >>= (λ n. some (some (get_index head), n.next)))

-- `get_capacity`: 7 pointers stay of a cache line behind the size.
unfoldable pub get_capacity : ℕ → ℕ
get_capacity tc_size = if ltb ((64 - 8) / 8) tc_size then (64 - 8) / 8 else tc_size

-- The loop of `init` from node `i` on, with the lists of market and collective nodes.
unfoldable pub init_nodes :
    ℕ
    → ℕ
    → ℕ
    → List PoolNode
    → LinkedList
    → LinkedList
    → Option (List PoolNode × LinkedList × LinkedList)
init_nodes zero i collective_num nodes market collective = some (nodes, market, collective)
init_nodes (suc left) i collective_num nodes market collective =
    let rest = init_nodes left (suc i) collective_num in
    get_elem? nodes i >>= (λ n.
      let numbered = set nodes i (record n { index = i; is_collective = ltb i collective_num }) in
      if ltb i collective_num
      then (push_back numbered collective i >>= (λ r. rest (r.0) market (r.1)))
      else (push_back numbered market i >>= (λ r. rest (r.0) (r.1) collective)))

-- The constructor, `init`.
unfoldable pub init : ℕ → ℕ → Option ObjectPool
init num collective_num =
    let fresh : PoolNode = record {
      next = null_index;
      index = 0;
      tag = 0;
      is_collective = false;
    } in
    let empty : LinkedList = record { head = none; tail = none } in
    init_nodes num 0 collective_num (replicate num fresh) empty empty >>= (λ listed.
      push_into (listed.0) null_index (listed.1) >>= (λ market.
        push_into (market.0) null_index (listed.2) >>= (λ collective. some (record {
          nodes = collective.0;
          objects = replicate num true;
          market_head = market.1;
          collective_head = collective.1;
          cache = [];
        }))))

-- `try_pop` behind its pop of the market list.
unfoldable pub popped_market : ObjectPool → Option ℕ × ℕ → Option (Option ℕ × ObjectPool)
popped_market p (some x, head) = some (some x, record p { market_head = head })
popped_market p (none, head) =
    pop_one_node p.nodes p.collective_head >>= (λ c. some (c.0, record p { collective_head = c.1 }))

-- `try_pop` behind `get_from_tc`.
unfoldable pub popped_cache : ObjectPool → List ℕ → Option (Option ℕ × ObjectPool)
popped_cache p (x ∷ cache) = some (some x, record p { cache = cache })
popped_cache p [] = pop_one_node p.nodes p.market_head >>= (λ m. popped_market p m)

unfoldable pub try_pop : ObjectPool → Option (Option ℕ × ObjectPool)
try_pop p = popped_cache p p.cache

-- Whether the destructor of a node's object has not run.
unfoldable pub is_alive : List Bool → ℕ → Bool
is_alive objects x = get_or objects x false

-- `node->object->~T()`. `trivial` stands for `std::is_trivially_destructible<T>`: such a destructor
-- does nothing, and no object is ever destroyed. Another one must not run twice on an object:
-- `none`.
unfoldable pub destroy_object : Bool → List Bool → ℕ → Option (List Bool)
destroy_object true objects x = some objects
destroy_object false objects x = if is_alive objects x then some (set objects x false) else none

-- `release` behind the destructor.
unfoldable pub put_back : ℕ → ObjectPool → ℕ → Bool → Option ObjectPool
put_back tc_size p x is_collective =
    if is_collective
    then (push_one_node p.nodes p.collective_head x
        >>= (λ r. some (record p { nodes = r.0; collective_head = r.1 })))
    else if ltb (length p.cache) (get_capacity tc_size)
    then some (record p { cache = x ∷ p.cache })
    else (push_one_node p.nodes p.market_head x
        >>= (λ r. some (record p { nodes = r.0; market_head = r.1 })))

unfoldable pub release : Bool → ℕ → ObjectPool → ℕ → Option ObjectPool
release trivial tc_size p x = get_elem? p.nodes x >>= (λ n.
    destroy_object trivial p.objects x
    >>= (λ objects. put_back tc_size (record p { objects = objects }) x n.is_collective))
