-- ===== src/SkipList.antt =====
-- src/container/skiplist.h, src/container/skiplist-inl.h: `SkipList` and `SkipListNode`.
--
-- A node's address is a number; `create` takes an address that no node had before. A pointer to
-- a node that is destroyed, a null pointer followed, and a layer that a node does not have,
-- which `skip` and `set_skip` assert against, make the result `none`. `prevs` is a function; an
-- entry that the search has not set is `none`. `getHeight` gets the comparisons of its random
-- number with the table, and the table of size limits is a parameter. The loop along a layer
-- takes fuel: the list's size and one more, since each round goes to another element.
pub mod Layers
pub mod Order
pub mod Models
pub mod Search
pub mod Write
pub mod Loops
pub mod Relink
pub mod Kept
pub mod Locate
pub mod Splice
pub mod Insert
pub mod Regrow
pub mod Grow
pub mod Remove
pub mod Destructor
mod Tests
use wizard.Prelude.{
  ℕ, zero, suc, ◌+◌, ◌-◌, ◌%◌, ◌^◌, ◌≡◌, ◌↔◌, Bool, true, false, ◌&&◌, ◌||◌, not, Option, none,
  some, ltb, leb, if◌then◌else◌, ◌>>=◌,
}
use wizard.Prelude.Functions.{assign_at}

-- What the code asks of the element type: `Comp`, `operator==` and `ValueType()`.
pub record Element {ℓ} (T : Type ℓ) : Type ℓ where
  pub less : T → T → Bool
  pub same : T → T → Bool
  pub initial_value : T
  pub irreflexive : (a : T) → less a a ≡ false
  pub transitive : (a b c : T) → less a b ≡ true → less b c ≡ true → less a c ≡ true
  pub connected : (a b : T) → less a b ≡ false → less b a ≡ false → a ≡ b
  pub same_iff : (a b : T) → (same a b ≡ true) ↔ (a ≡ b)

pub record SkipListNode {ℓ} (T : Type ℓ) : Type ℓ where
  pub height : ℕ
  pub value : T
  pub skip : ℕ → Option ℕ

pub record Store {ℓ} (T : Type ℓ) : Type ℓ where
  pub nodes : ℕ → Option (SkipListNode T)
  pub next_address : ℕ

pub record SkipList {ℓ} (T : Type ℓ) : Type ℓ where
  pub store : Store T
  pub head : ℕ
  pub size : ℕ

-- `getHeight`: `below i` is whether the random number is below entry i of the table.
unfoldable pub height_from : (ℕ → Bool) → ℕ → ℕ → ℕ
height_from below i zero = i
height_from below i (suc left) = if below i then i + 1 else height_from below (i + 1) left

unfoldable pub get_height : (ℕ → Bool) → ℕ → ℕ
get_height below max_height = height_from below 0 max_height

module _ {ℓ} {T : Type ℓ} where
  -- `create`; `height` is an `uint8_t`.
  unfoldable pub create : Store T → ℕ → T → Store T
  create s height value = record {
    nodes =
        assign_at s.nodes s.next_address
          (some (record { height = height % 2 ^ 8; value = value; skip = λ i. none }));
    next_address = s.next_address + 1;
  }

  unfoldable pub destroy : Store T → ℕ → Option (Store T)
  destroy s a = s.nodes a >>= (λ n. some (record s { nodes = assign_at s.nodes a none }))

  abbrev pub skip_at : ℕ → SkipListNode T → Option (Option ℕ)
  skip_at i n = if ltb i n.height then some (n.skip i) else none

  unfoldable pub skip : Store T → ℕ → ℕ → Option (Option ℕ)
  skip s a i = s.nodes a >>= skip_at i

  abbrev pub set_skip_at : Store T → ℕ → ℕ → Option ℕ → SkipListNode T → Option (Store T)
  set_skip_at s a i p n =
      if ltb i n.height
      then some (record s {
        nodes = assign_at s.nodes a (some (record n { skip = assign_at n.skip i p }));
      })
      else none

  unfoldable pub set_skip : Store T → ℕ → ℕ → Option ℕ → Option (Store T)
  set_skip s a i p = s.nodes a >>= set_skip_at s a i p

  -- `copy_skip_pointer`, of so many layers from layer 0 on.
  unfoldable pub copy_skip_pointer : Store T → ℕ → ℕ → ℕ → Option (Store T)
  copy_skip_pointer s node old_head zero = some s
  copy_skip_pointer s node old_head (suc i) =
      copy_skip_pointer s node old_head i
      >>= (λ t. skip t old_head i >>= (λ p. set_skip t node i p))

  unfoldable pub head_node : SkipList T → Option (SkipListNode T)
  head_node m = m.store.nodes m.head

  -- `new_node->set_skip(layer, prevs[layer]->skip(layer)); prevs[layer]->set_skip(layer,
  -- new_node)`, from the top layer of the new node down.
  unfoldable pub link_layers : Store T → ℕ → (ℕ → Option ℕ) → ℕ → Option (Store T)
  link_layers s node prevs zero = some s
  link_layers s node prevs (suc layer) = prevs layer >>= (λ prev. skip s prev layer >>= (λ p.
      set_skip s node layer p
      >>= (λ t. set_skip t prev layer (some node) >>= (λ u. link_layers u node prevs layer))))

  -- `prevs[l]->set_skip(l, to_delete_node->skip(l))`
  unfoldable pub unlink_layers : Store T → ℕ → (ℕ → Option ℕ) → ℕ → Option (Store T)
  unlink_layers s node prevs zero = some s
  unlink_layers s node prevs (suc layer) = prevs layer >>= (λ prev.
      skip s node layer
      >>= (λ p. set_skip s prev layer p >>= (λ t. unlink_layers t node prevs layer)))

  module _ (E : Element T) where
    -- `SkipList(init_height)`
    unfoldable pub construct : ℕ → SkipList T
    construct init_height = record {
      store = create (record { nodes = λ a. none; next_address = 0 }) init_height E.initial_value;
      head = 0;
      size = 0;
    }

    unfoldable pub grow_height : SkipList T → ℕ → Option (SkipList T)
    grow_height m new_height = head_node m >>= (λ old.
        if leb new_height old.height
        then some m
        else (let made = create m.store new_height E.initial_value in
            copy_skip_pointer made m.store.next_address m.head old.height >>= (λ s.
              destroy s m.head
              >>= (λ t. some (record m { store = t; head = m.store.next_address })))))

    -- The loop along one layer.
    unfoldable pub walk : ℕ → Store T → ℕ → T → ℕ → Option ℕ → Option (ℕ × Option ℕ)
    walk zero s i value cur next = none
    walk (suc fuel) s i value cur none = some (cur, none)
    walk (suc fuel) s i value cur (some next) =
        let rest = λ (p : Option ℕ). walk fuel s i value next p in
        s.nodes next
        >>= (λ n. if E.less n.value value then skip s next i >>= rest else some (cur, some next))

    -- `_search_equal_or_greater` with `prevs`, from so many layers down.
    unfoldable pub search :
        ℕ → Store T → T → (ℕ → Option ℕ) → ℕ → Option ℕ → ℕ → Option (Option ℕ × (ℕ → Option ℕ))
    search fuel s value prevs cur next zero = some (next, prevs)
    search fuel s value prevs cur next (suc i) = skip s cur i >>= (λ first.
        walk fuel s i value cur first
        >>= (λ r. search fuel s value (assign_at prevs i (some (r.0))) (r.0) (r.1) i))

    -- The other `_search_equal_or_greater`.
    unfoldable pub search_only : ℕ → Store T → T → ℕ → Option ℕ → ℕ → Option (Option ℕ)
    search_only fuel s value cur next zero = some next
    search_only fuel s value cur next (suc i) = skip s cur i >>= (λ first.
        walk fuel s i value cur first >>= (λ r. search_only fuel s value (r.0) (r.1) i))

    -- `node && node->data() == data`
    unfoldable pub has_value : Store T → T → Option ℕ → Option Bool
    has_value s value none = some false
    has_value s value (some a) = s.nodes a >>= (λ n. some (E.same n.value value))

    unfoldable pub find : SkipList T → T → Option Bool
    find m value = head_node m >>= (λ h.
        search_only (m.size + 1) m.store value m.head none h.height >>= has_value m.store value)

    unfoldable pub insert_node : SkipList T → T → ℕ → (ℕ → Option ℕ) → Option (SkipList T)
    insert_node m value node_height prevs =
        link_layers (create m.store node_height value) m.store.next_address prevs node_height
        >>= (λ s. some (record m { store = s; size = (m.size + 1) % 2 ^ 64 }))

    unfoldable pub insert_at : SkipList T → T → Bool → ℕ → Option (SkipList T × Bool)
    insert_at m value is_force_insert node_height = head_node m >>= (λ h.
        search (m.size + 1) m.store value (λ i. none) m.head none h.height >>= (λ found.
          has_value m.store value (found.0) >>= (λ is_exist.
            if (is_exist && is_force_insert) || not is_exist
            then insert_node m value node_height (found.1) >>= (λ done. some (done, is_exist))
            else some (m, is_exist))))

    -- `insert`, with the table of size limits and the comparisons of the random number.
    unfoldable pub insert :
        ℕ → (ℕ → ℕ) → (ℕ → Bool) → SkipList T → T → Bool → Option (SkipList T × Bool)
    insert max_height size_limit below m value is_force_insert = head_node m >>= (λ h.
        (if ltb h.height max_height && ltb (size_limit h.height) ((m.size + 1) % 2 ^ 64)
          then grow_height m (h.height + 1)
          else some m)
        >>= (λ grown.
            head_node grown
            >>= (λ top. insert_at grown value is_force_insert (get_height below top.height))))

    unfoldable pub remove_node : SkipList T → ℕ → (ℕ → Option ℕ) → Option (SkipList T)
    remove_node m node prevs = m.store.nodes node >>= (λ n.
        unlink_layers m.store node prevs n.height
        >>= (λ s. destroy s node >>= (λ t. some (record m { store = t; size = m.size - 1 }))))

    unfoldable pub remove_found :
        SkipList T → T → Option ℕ → (ℕ → Option ℕ) → Option (SkipList T × Bool)
    remove_found m value none prevs = some (m, false)
    remove_found m value (some node) prevs = m.store.nodes node >>= (λ n.
        if E.same n.value value
        then remove_node m node prevs >>= (λ done. some (done, true))
        else some (m, false))

    unfoldable pub remove : SkipList T → T → Option (SkipList T × Bool)
    remove m value = head_node m >>= (λ h.
        search (m.size + 1) m.store value (λ i. none) m.head none h.height
        >>= (λ found. remove_found m value (found.0) (found.1)))

  -- The destructor's loop: the store without the nodes from this one on.
  unfoldable pub destroy_from : ℕ → Store T → Option ℕ → Option (Store T)
  destroy_from zero s p = none
  destroy_from (suc fuel) s none = some s
  destroy_from (suc fuel) s (some a) =
      let rest = λ (next : Option ℕ) (t : Store T). destroy_from fuel t next in
      skip s a 0 >>= (λ next. destroy s a >>= rest next)
