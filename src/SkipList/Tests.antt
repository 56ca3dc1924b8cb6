-- ===== src/SkipList/Tests.antt =====
-- src/container/skiplist.h: skip lists of numbers.
use wizard.Prelude.{
  ℕ, ◌+◌, ◌<◌, ◌^◌, ◌≡◌, refl, Bool, true, false, none, some, [], ◌∷◌, arith, ltb, ◌==◌, ==_iff,
  if◌then◌else◌, ◌>>=◌,
}
use wizard.SkipList.{
  Store, destroy_from, Element, SkipList, construct, create, destroy, skip, set_skip,
  copy_skip_pointer, head_node, get_height, height_from, grow_height, walk, search, search_only,
  has_value, link_layers, unlink_layers, insert_node, insert_at, insert, find, remove_node,
  remove_found, remove,
}
use wizard.Prelude.Functions.{assign_at}
use wizard.SkipList.Models.{Models}
use wizard.SkipList.Locate.{find-Models}
use wizard.SkipList.Grow.{construct-Models, insert-Models}
use wizard.SkipList.Destructor.{destroy-Models}
use wizard.SkipList.Remove.{remove-Models}

ltb_irreflexive : (a : ℕ) → ltb a a ≡ false
ltb_irreflexive a = ground arith

ltb_trans : (a b c : ℕ) → ltb a b ≡ true → ltb b c ≡ true → ltb a c ≡ true
ltb_trans a b c p q = ground arith

ltb_connected : (a b : ℕ) → ltb a b ≡ false → ltb b a ≡ false → a ≡ b
ltb_connected a b p q = ground arith

abbrev numbers : Element ℕ
numbers = record {
  less = ltb;
  same = λ a b. a == b;
  initial_value = 0;
  irreflexive = ltb_irreflexive;
  transitive = ltb_trans;
  connected = ltb_connected;
  same_iff = ==_iff;
}

-- The first entry of the table is 1, every other one 2.
abbrev size_limit : ℕ → ℕ
size_limit i = if i == 0 then 1 else 2

-- The random number leads to height 2.
abbrev below : ℕ → Bool
below i = i == 1

abbrev empty : SkipList ℕ
empty = construct numbers 2

empty_room : empty.size + 1 < 2 ^ 64
unfolding construct
empty_room = omega arith

abbrev one :
    (after : SkipList ℕ) × (insert numbers 24 size_limit below empty 5 false ≡ some (after, false))
    × Models numbers after (5 ∷ [])
one =
    insert-Models numbers 24 size_limit below empty [] 5 false
      (construct-Models numbers 2 (omega arith) (omega arith)) (omega arith) empty_room

insert-Models_example :
    (after : SkipList ℕ) × (insert numbers 24 size_limit below (one.0) 3 false
      ≡ some (after, false))
    × Models numbers after (3 ∷ 5 ∷ [])
insert-Models_example =
    insert-Models numbers 24 size_limit below (one.0) (5 ∷ []) 3 false (one.2) (omega arith)
      (omega (arith, (one.2).counted))

find-Models_example : find numbers (one.0) 5 ≡ some true
find-Models_example = find-Models numbers (one.0) (5 ∷ []) 5 (one.2)

remove-Models_example :
    (after : SkipList ℕ) × (remove numbers (one.0) 5 ≡ some (after, true)) × Models numbers after []
remove-Models_example = remove-Models numbers (one.0) (5 ∷ []) 5 (one.2)

destroy-Models_example :
    (after : Store ℕ) × (destroy_from ((one.0).size + 2) (one.0).store (some (one.0).head)
      ≡ some after)
    × ((a : ℕ) → after.nodes a ≡ none)
destroy-Models_example = destroy-Models numbers (one.0) (5 ∷ []) (one.2)

-- Two values, the second one in front, and the head grows.
run_two :
    (insert numbers 24 size_limit below empty 5 false >>= (λ a.
      insert numbers 24 size_limit below (a.0) 3 false >>= (λ b.
        insert numbers 24 size_limit below (b.0) 4 false
        >>= (λ c. remove numbers (c.0) 3 >>= (λ d. find numbers (d.0) 4)))))
    ≡ some true
unfolding insert head_node construct create insert_at search skip walk has_value insert_node
    link_layers get_height height_from set_skip grow_height copy_skip_pointer destroy remove
    remove_found remove_node unlink_layers find search_only assign_at
run_two = refl
