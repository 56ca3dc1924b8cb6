-- ===== src/HashMap/Store.antt =====
-- src/concurrent/concurrent_hashmap_detail.h: `NodeT` with its reference count, in an explicit
-- store.
--
-- A node's address is its place in `cells`; a cell is `none` once the node is deleted. `none`
-- as a result is a pointer to a deleted node, followed. `retire` hands a node to the hazard
-- pointers, which delete it later. `HashKey` is what the code asks of the key type:
-- `operator==` and the hash function.
use wizard.Prelude.{
  ℕ, ◌+◌, ◌-◌, ◌%◌, ◌^◌, ◌≡◌, ◌↔◌, Bool, true, Option, none, some, List, [], ◌∷◌, ◌++◌, ◌==◌,
  if◌then◌else◌, ◌>>=◌, get_elem?, set,
}

pub record HashKey {ℓ} (K : Type ℓ) : Type ℓ where
  pub same : K → K → Bool
  pub same_iff : (a b : K) → (same a b ≡ true) ↔ (a ≡ b)
  pub hash : K → ℕ

pub record Node {ℓ} (K V : Type ℓ) : Type ℓ where
  pub key : K
  pub value : V
  pub next : Option ℕ
  pub refcount : ℕ

pub record Store {ℓ} (K V : Type ℓ) : Type ℓ where
  pub cells : List (Option (Node K V))
  pub retired : List ℕ

module _ {ℓ} {K V : Type ℓ} where
  -- The node at an address.
  unfoldable pub node_at : Store K V → ℕ → Option (Node K V)
  node_at s p = get_elem? s.cells p >>= (λ c. c)

  unfoldable pub write_node : Store K V → ℕ → Node K V → Store K V
  write_node s p n = record s { cells = set s.cells p (some n) }

  -- `new Node(key, value)`; the address of the new node is the number of cells before.
  unfoldable pub new_node : Store K V → K → V → Store K V
  new_node s key value = record s {
    cells = s.cells ++ (some (record { key = key; value = value; next = none; refcount = 1 }) ∷ []);
  }

  -- `acquire`, on a 16-bit counter.
  unfoldable pub acquire : Store K V → ℕ → Option (Store K V)
  acquire s p =
      node_at s p
      >>= (λ n. some (write_node s p (record n { refcount = (n.refcount + 1) % 2 ^ 16 })))

  -- `release`: the last reference retires the node.
  unfoldable pub release : Store K V → ℕ → Option (Store K V)
  release s p = node_at s p >>= (λ n.
      let counted = write_node s p (record n { refcount = (n.refcount + (2 ^ 16 - 1)) % 2 ^ 16 }) in
      some (if n.refcount == 1 then record counted { retired = p ∷ counted.retired } else counted))

  -- `if (next) next->acquire()`
  unfoldable pub acquire_next : Store K V → Option ℕ → Option (Store K V)
  acquire_next s none = some s
  acquire_next s (some p) = acquire s p

  -- `if (next) next->release()`
  unfoldable pub release_next : Store K V → Option ℕ → Option (Store K V)
  release_next s none = some s
  release_next s (some p) = release s p

  -- The destructor `~NodeT`, when the node is deleted.
  unfoldable pub destroy : Store K V → ℕ → Option (Store K V)
  destroy s p = node_at s p >>= (λ n. release_next (record s { cells = set s.cells p none }) n.next)

  -- `next_.store`
  unfoldable pub set_next : Store K V → ℕ → Option ℕ → Option (Store K V)
  set_next s p next = node_at s p >>= (λ n. some (write_node s p (record n { next = next })))
