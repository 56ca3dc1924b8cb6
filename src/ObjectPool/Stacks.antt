-- ===== src/ObjectPool/Stacks.antt =====
-- src/pool.h: tagged indices, and the lists of nodes that the heads lead through.
use wizard.Prelude.{
  ℕ, ◌+◌, ◌-◌, ◌*◌, ◌%◌, ◌^◌, ◌<◌, ◌≡◌, ◌≢◌, refl, sym, ◌∙◌, ap, none, some, List, [], ◌∷◌, arith,
  ==_ne, get_elem?, set, length, length-set, get_elem?-set_self, get_elem?-set_ne, in_bounds,
}
use wizard.Prelude.Bits.{and-mask, or-fields}
use wizard.Prelude.Pigeonhole.{Absent}
use wizard.ObjectPool.{
  null_index, get_index, get_tag, make_tagged_index, PoolNode, advance_tag, set_next, push_into,
  push_one_node, pop_one_node,
}

tag_field : (tag : ℕ) → tag * 2 ^ 32 % 2 ^ 64 ≡ tag % 2 ^ 32 * 2 ^ 32
tag_field tag = omega arith

make_lem :
    (index tag : ℕ) → index < 2 ^ 32 → make_tagged_index index tag ≡ tag % 2 ^ 32 * 2 ^ 32 + index
unfolding make_tagged_index
make_lem index tag small = rw (tag_field tag) (or-fields 32 (tag % 2 ^ 32) index small)

-- The index and the tag are read back from a tagged index, the tag without its upper half.
pub get_index-make_tagged_index :
    (index tag : ℕ)
    → index < 2 ^ 32
    → (get_index (make_tagged_index index tag) ≡ index)
      × (get_tag (make_tagged_index index tag) ≡ tag % 2 ^ 32)
unfolding get_index get_tag
get_index-make_tagged_index index tag small =
    let e = make_lem index tag small in
    let mask = and-mask 32 (make_tagged_index index tag) in
    (omega (arith, e, mask), omega (arith, e))

get_index-null : get_index null_index ≡ 2 ^ 32 - 1
unfolding get_index
get_index-null = refl

-- The tagged index of a node is not the null index.
pub make_tagged_index-ne :
    (index tag : ℕ) → index < 2 ^ 32 - 1 → make_tagged_index index tag ≢ null_index
make_tagged_index-ne index tag small e =
    let back = get_index-make_tagged_index index tag (omega arith) in
    omega (arith, back.0, ap get_index e, get_index-null)

-- A head leads through these nodes, and then to the null index.
abbrev pub Stack : List PoolNode → ℕ → List ℕ → Type 0
Stack nodes head [] = head ≡ null_index
Stack nodes head (x ∷ xs) =
    (head ≢ null_index)
    × (get_index head ≡ x)
    × (n : PoolNode) × (get_elem? nodes x ≡ some n)
    × Stack nodes n.next xs

-- Only one node is written, and it is none of these.
pub Stack-set :
    (nodes : List PoolNode) (head y : ℕ) (m : PoolNode) (xs : List ℕ)
    → Absent y xs
    → Stack nodes head xs
    → Stack (set nodes y m) head xs
Stack-set nodes head y m [] out s = s
Stack-set nodes head y m (x ∷ xs) out s = (
  s.0,
  s.1,
  s.2,
  get_elem?-set_ne nodes {i = y} {j = x} m (λ e. out.0 (sym e)) ∙ s.3,
  Stack-set nodes s.2.next y m xs (out.1) (s.4),
)

pub pop_one_node_lem :
    (nodes : List PoolNode) (head x : ℕ) (xs : List ℕ)
    → Stack nodes head (x ∷ xs)
    → (next : ℕ) × (pop_one_node nodes head ≡ some (some x, next)) × Stack nodes next xs
unfolding pop_one_node
pop_one_node_lem nodes head x xs s = (s.2.next, rw (==_ne (s.0), s.1, s.3) refl, s.4)

pub pop_one_node-empty :
    (nodes : List PoolNode) (head : ℕ)
    → Stack nodes head []
    → pop_one_node nodes head ≡ some (none, head)
unfolding pop_one_node
pop_one_node-empty nodes head s = rw s refl

-- What `push_one_node` returns for a node that is in no list: the node in front of its list, the
-- other lists as before, and no node but this one changed, and this one only in its link and tag.
pub record Pushed (nodes after : List PoolNode) (x : ℕ) (old : PoolNode) : Type 0 where
  pub new : PoolNode
  pub written : get_elem? after x ≡ some new
  pub same_index : new.index ≡ old.index
  pub same_kind : new.is_collective ≡ old.is_collective
  pub others : (y : ℕ) → x ≢ y → get_elem? after y ≡ get_elem? nodes y
  pub same_length : length after ≡ length nodes
  pub other_stacks :
      (head : ℕ) (ys : List ℕ) → Absent x ys → Stack nodes head ys → Stack after head ys

pub push_one_node_lem :
    (nodes : List PoolNode) (head x : ℕ) (n : PoolNode) (xs : List ℕ)
    → get_elem? nodes x ≡ some n
    → n.index ≡ x
    → x < 2 ^ 32 - 1
    → Absent x xs
    → Stack nodes head xs
    → (after : List PoolNode) × (new_head : ℕ) × (push_one_node nodes head x
        ≡ some (after, new_head))
      × Stack after new_head (x ∷ xs)
      × Pushed nodes after x n
unfolding push_one_node push_into advance_tag set_next
push_one_node_lem nodes head x n xs at named small out s =
    let tagged : PoolNode = record n { tag = (n.tag + 1) % 2 ^ 64 } in
    let linked : PoolNode = record tagged { next = head } in
    let inside = in_bounds nodes at in
    let middle = set nodes x tagged in
    let after = set middle x linked in
    let first = get_elem?-set_self nodes x tagged inside in
    let last =
      get_elem?-set_self middle x linked (omega (arith, length-set nodes x tagged, inside)) in
    let keep = λ (h : ℕ) (ys : List ℕ) (o : Absent x ys) (t : Stack nodes h ys).
      Stack-set middle h x linked ys o (Stack-set nodes h x tagged ys o t) in
    (
      after,
      make_tagged_index n.index n.tag,
      rw (at, first) refl,
      (
        make_tagged_index-ne n.index n.tag (omega (arith, named)),
        (get_index-make_tagged_index n.index n.tag (omega (arith, named))).0 ∙ named,
        linked,
        last,
        keep head xs out s,
      ),
      record {
        new = linked;
        written = last;
        same_index = refl;
        same_kind = refl;
        others = λ y ne.
            get_elem?-set_ne middle {i = x} {j = y} linked ne
            ∙ get_elem?-set_ne nodes {i = x} {j = y} tagged ne;
        same_length = length-set middle x linked ∙ length-set nodes x tagged;
        other_stacks = keep;
      },
    )
