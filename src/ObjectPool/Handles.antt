-- ===== src/ObjectPool/Handles.antt =====
-- src/pool.h: `PooledObject`, and handles of one pool that one thread gets, moves and releases.
use wizard.Prelude.{
  ℕ, ◌+◌, Bool, true, false, Option, none, some, List, [], ◌∷◌, ◌++◌, if◌then◌else◌, ◌>>=◌,
  get_elem?, set,
}
use wizard.Prelude.Functions.{assign_at}
use wizard.ObjectPool.{ObjectPool, try_pop, release}

-- A pointer to an object: of a node, or to one that `new` has made.
pub data ObjectPointer : Type 0 where
  of_node : ℕ → ObjectPointer
  of_heap : ℕ → ObjectPointer

-- `pool` is whether `_pool` is not null.
pub record PooledObject : Type 0 where
  pub object : Option ObjectPointer
  pub node : Option ℕ
  pub pool : Bool

-- A handle of nothing.
abbrev pub empty : PooledObject
empty = record { object = none; node = none; pool = false }

abbrev pub node_handle : ℕ → PooledObject
node_handle x = record { object = some (of_node x); node = some x; pool = true }

abbrev pub heap_handle : ℕ → PooledObject
heap_handle a = record { object = some (of_heap a); node = none; pool = false }

-- The pool, the objects that `new` has made and nobody has deleted, and the next address.
pub record Owner : Type 0 where
  pub pool : ObjectPool
  pub heap : ℕ → Bool
  pub next_address : ℕ

pub record Handles : Type 0 where
  pub owner : Owner
  pub handles : List PooledObject

-- `delete _object`. An object of a node, or one that is deleted already, must not be deleted.
unfoldable pub delete_object : Owner → ObjectPointer → Option Owner
delete_object s (of_node x) = none
delete_object s (of_heap a) =
    if s.heap a then some (record s { heap = assign_at s.heap a false }) else none

unfoldable pub release_object : Owner → Option ObjectPointer → Option Owner
release_object s none = some s
release_object s (some p) = delete_object s p

unfoldable pub release_parts :
    Bool → ℕ → Owner → Bool → Option ℕ → Option ObjectPointer → Option Owner
release_parts trivial tc_size s true (some x) object =
    release trivial tc_size s.pool x >>= (λ q. some (record s { pool = q }))
release_parts trivial tc_size s pool _ object = release_object s object

-- `PooledObject::release`: what it does to the pool and the heap. The handle is empty then.
unfoldable pub release_handle : Bool → ℕ → Owner → PooledObject → Option Owner
release_handle trivial tc_size s o = release_parts trivial tc_size s o.pool o.node o.object

-- `get`
abbrev pub get_node : Owner → Option ℕ × ObjectPool → Owner × PooledObject
get_node s (some x, q) = (record s { pool = q }, node_handle x)
get_node s (none, q) = (
  record {
    pool = q;
    heap = assign_at s.heap s.next_address true;
    next_address = s.next_address + 1;
  },
  heap_handle s.next_address,
)

unfoldable pub get : Owner → Option (Owner × PooledObject)
get s = try_pop s.pool >>= (λ r. some (get_node s r))

pub data HandleCall : Type 0 where
  get_new : HandleCall  -- a new handle from `get`
  move_new : ℕ → HandleCall  -- a new handle, moved from another one
  move_to : ℕ → ℕ → HandleCall  -- the second handle is moved to the first one
  release_at : ℕ → HandleCall  -- also the destructor

abbrev pub append_handle : List PooledObject → Owner × PooledObject → Handles
append_handle handles r = record { owner = r.0; handles = handles ++ (r.1 ∷ []) }

-- `operator=(PooledObject&&)`: `swap`, and `release` of the other handle, which is then empty.
unfoldable pub move_assign :
    Bool → ℕ → Handles → ℕ → ℕ → PooledObject → PooledObject → Option Handles
move_assign trivial tc_size s i j to from =
    let swapped = set (set s.handles i from) j to in
    release_handle trivial tc_size s.owner to
    >>= (λ owner. some (record { owner = owner; handles = set swapped j empty }))

-- A call on a handle that is not there does nothing.
unfoldable pub move_found :
    Bool → ℕ → Handles → ℕ → ℕ → Option PooledObject → Option PooledObject → Option Handles
move_found trivial tc_size s i j (some to) (some from) = move_assign trivial tc_size s i j to from
move_found trivial tc_size s i j to from = some s

unfoldable pub move_new_found : Handles → ℕ → Option PooledObject → Option Handles
move_new_found s j (some from) = some (append_handle (set s.handles j empty) (s.owner, from))
move_new_found s j none = some s

unfoldable pub release_found : Bool → ℕ → Handles → ℕ → Option PooledObject → Option Handles
release_found trivial tc_size s i (some o) =
    release_handle trivial tc_size s.owner o
    >>= (λ owner. some (record { owner = owner; handles = set s.handles i empty }))
release_found trivial tc_size s i none = some s

unfoldable pub call : Bool → ℕ → Handles → HandleCall → Option Handles
call trivial tc_size s get_new = get s.owner >>= (λ r. some (append_handle s.handles r))
call trivial tc_size s (move_new j) = move_new_found s j (get_elem? s.handles j)
call trivial tc_size s (move_to i j) =
    move_found trivial tc_size s i j (get_elem? s.handles i) (get_elem? s.handles j)
call trivial tc_size s (release_at i) = release_found trivial tc_size s i (get_elem? s.handles i)

unfoldable pub call_all : Bool → ℕ → Handles → List HandleCall → Option Handles
call_all trivial tc_size s [] = some s
call_all trivial tc_size s (c ∷ cs) =
    call trivial tc_size s c >>= (λ t. call_all trivial tc_size t cs)
