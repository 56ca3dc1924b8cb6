-- ===== src/ObjectPool/Reuse.antt =====
-- src/pool.h: `get` hands out a node whose object has been destroyed.
use wizard.Prelude.{
  ℕ, ◌≡◌, refl, subst, true, false, none, some, [], ◌∷◌, ◌++◌, ltb, length, length-set, get_elem?,
  get_elem?-append_last, set,
}
use wizard.ObjectPool.{
  PoolNode, is_alive, destroy_object, put_back, get_capacity, popped_cache, try_pop, release,
}
use wizard.ObjectPool.Handles.{
  Handles, empty, node_handle, release_parts, release_handle, release_found, get, call, call_all,
}
use wizard.ObjectPool.Handles.HandleCall.{get_new, release_at}
use wizard.ObjectPool.Ownership.{get_or-set_dead}

-- A handle has a node that is not collective, with an object that is alive and whose destructor is
-- not trivial, and the thread's cache has room. After `release` of the handle, `get` returns a new
-- handle of the same node, whose object is destroyed, and `release` of the new handle goes wrong:
-- it would run the destructor once more.
pub release-get :
    (tc_size : ℕ) (s : Handles) (i x : ℕ) (n : PoolNode)
    → get_elem? s.handles i ≡ some (node_handle x)
    → get_elem? s.owner.pool.nodes x ≡ some n
    → n.is_collective ≡ false
    → is_alive s.owner.pool.objects x ≡ true
    → ltb (length s.owner.pool.cache) (get_capacity tc_size) ≡ true
    → (t : Handles) × (call_all false tc_size s (release_at i ∷ get_new ∷ []) ≡ some t)
      × (get_elem? t.handles (length s.handles) ≡ some (node_handle x))
      × (is_alive t.owner.pool.objects x ≡ false)
      × (call false tc_size t (release_at (length s.handles)) ≡ none)
unfolding call_all call release_found release_handle release_parts release destroy_object put_back
    get try_pop popped_cache is_alive
release-get tc_size s i x n at there kind alive room =
    let cleared = set s.handles i empty in
    let last : get_elem? (cleared ++ (node_handle x ∷ [])) (length s.handles)
        ≡ some (node_handle x) =
      subst (λ k. get_elem? (cleared ++ (node_handle x ∷ [])) k ≡ some (node_handle x))
        (length-set s.handles i empty) (get_elem?-append_last cleared (node_handle x)) in
    (
      record {
        owner = record (s.owner) {
          pool = record (s.owner.pool) { objects = set s.owner.pool.objects x false };
        };
        handles = cleared ++ (node_handle x ∷ []);
      },
      rw (at, there, alive, kind, room) refl,
      last,
      get_or-set_dead s.owner.pool.objects x,
      rw (last, there, get_or-set_dead s.owner.pool.objects x) refl,
    )
