-- ===== src/SkipList/Grow.antt =====
-- src/container/skiplist.h: the constructor and the whole of `insert`.
use wizard.Prelude.{
  ℕ, zero, suc, ◌+◌, ◌≤◌, ◌<◌, ◌%◌, ◌^◌, ◌≡◌, inl, inr, refl, Bool, true, false, ◌&&◌, Bool-cases,
  none, some, List, [], arith, ltb, ltb→lt, if◌then◌else◌,
}
use wizard.SkipList.{
  Store, SkipList, Element, height_from, get_height, create, head_node, construct, grow_height,
  insert,
}
use wizard.SkipList.Models.{Models}
use wizard.SkipList.Order.{member, insert_list}
use wizard.SkipList.Write.{create_lem}
use wizard.SkipList.Locate.{node-present}
use wizard.SkipList.Insert.{insert_at_lem}
use wizard.SkipList.Regrow.{grow_height_lem}

-- The random height is 1 to the height of the list.
height_from_bounds :
    (below : ℕ → Bool) (i left : ℕ)
    → 0 < i + left
    → (0 < height_from below i left) × (height_from below i left ≤ i + left)
unfolding height_from
height_from_bounds below i zero p = (omega arith, omega arith)
height_from_bounds below i (suc left) p =
    let ih = height_from_bounds below (i + 1) left (omega arith) in
    elim (Bool-cases (below i)) [
      | inl e ↦ rw e (omega arith, omega arith)
      | inr e ↦ rw e (ih.0, omega (arith, ih.1))
    ]

and_left : (a b : Bool) → (a && b) ≡ true → a ≡ true
and_left true b e = refl
and_left false b e = absurd (cc (e))

module _ {ℓ} {T : Type ℓ} where
  module _ (E : Element T) where
    -- A new skip list, whose head has 1 to 255 layers, stands for the empty list.
    pub construct-Models :
        (height : ℕ) → 0 < height → height < 2 ^ 8 → Models E (construct E height) []
    unfolding construct create
    construct-Models height positive narrow =
        let s : Store T = record { nodes = λ a. none; next_address = 0 } in
        let c = create_lem s height E.initial_value narrow in
        record {
          places = [];
          links = (
            record {
              present = omega (arith, c.high, positive);
              skips = λ j p. c.empty j (omega (arith, c.high, p));
            },
            tt,
          );
          different = (tt, tt);
          values = tt;
          sorted = tt;
          fits = tt;
          narrow = omega (arith, c.high, narrow);
          counted = refl;
          owned = λ a none_here. c.others a (none_here.0);
          free = λ a p. c.others a (omega arith);
        }

    grow_if :
        (m : SkipList T) (vs : List T) (new_height : ℕ) (cond : Bool)
        → Models E m vs
        → (cond ≡ true → new_height < 2 ^ 8)
        → (g : SkipList T) × ((if cond then grow_height E m new_height else some m) ≡ some g)
          × Models E g vs
          × (g.size ≡ m.size)
    grow_if m vs new_height true k narrow =
        let g = grow_height_lem E m vs new_height k (narrow refl) in
        (g.after, g.result, g.models, g.same_size)
    grow_if m vs new_height false k narrow = (m, refl, k, refl)

    -- `insert` into a skip list that stands for a sorted list, whatever the random number and
    -- the table of size limits, with at most 255 layers and fewer than 2^64 - 1 elements: it
    -- returns whether the value was a member, and leaves a skip list for the sorted list with
    -- the value, in which a member is put once more only when the insertion is forced.
    pub insert-Models :
        (max_height : ℕ) (size_limit : ℕ → ℕ) (below : ℕ → Bool) (m : SkipList T) (vs : List T)
        (value : T) (force : Bool)
        → Models E m vs
        → max_height < 2 ^ 8
        → m.size + 1 < 2 ^ 64
        → (after : SkipList T) × (insert E max_height size_limit below m value force
            ≡ some (after, member E value vs))
          × Models E after (insert_list E value force vs)
    unfolding insert head_node get_height
    insert-Models max_height size_limit below m vs value force k narrow room =
        let top = node-present m.store m.head (k.links.0).present in
        let h = (top.0).height in
        let grows = ltb (size_limit h) ((m.size + 1) % 2 ^ 64) in
        let g =
          grow_if m vs (h + 1) (ltb h max_height && grows) k
            (λ e. omega (arith, ltb→lt h max_height (and_left (ltb h max_height) grows e))) in
        let grown = g.0 in
        let top' = node-present grown.store grown.head ((g.2).links.0).present in
        let bounds =
          height_from_bounds below 0 ((top'.0).height)
            (omega (arith, (g.2).links.0.present, top'.2)) in
        let done =
          insert_at_lem E grown vs value (height_from below 0 ((top'.0).height)) (g.2) (bounds.0)
            (omega (arith, bounds.1, top'.2)) (omega (arith, g.3)) force in
        (done.after, rw (top.1, g.1, top'.1) done.result, done.models)
