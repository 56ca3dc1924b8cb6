-- ===== src/SkipList/Insert.antt =====
-- src/container/skiplist.h: `insert` of a node between the smaller values and the others.
use wizard.Prelude.{
  ℕ, ◌+◌, ◌≤◌, ◌<◌, ◌%◌, ◌^◌, ◌≡◌, ◌≢◌, ◌⊎◌, inl, inr, refl, sym, ◌∙◌, ap, subst, Bool, false, ◌&&◌,
  ◌||◌, not, Bool-cases, none, some, List, [], ◌∷◌, ◌++◌, arith, ltb, lt→ltb, ◌>>=◌, append-nil,
}
use wizard.Prelude.Pigeonhole.{Absent, Different, Absent-append, Absent-front, Absent-back}
use wizard.SkipList.{
  Store, SkipList, Element, skip_at, skip, create, head_node, insert_node, insert_at,
}
use wizard.SkipList.Layers.{next_tall}
use wizard.SkipList.Order.{
  drop_less, member, insert_sorted, insert_list, insert_sorted_lem, insert_sorted-Sorted,
  length-insert_sorted,
}
use wizard.SkipList.Models.{height_in, height_of, value_of, Linked, Models, Links-back}
use wizard.SkipList.Write.{create_lem}
use wizard.SkipList.Loops.{link_layers_lem}
use wizard.SkipList.Relink.{next_tall-same}
use wizard.SkipList.Splice.{Spliced, Spliced-Models, behind-Links}
use wizard.SkipList.Kept.{Links-Absent, Values-same, Fits-same, Fits-back}
use wizard.SkipList.Locate.{
  Located, locate, place-high, place-Absent, place-behind, skip-place, exists-member,
}

Different-insert :
    (node : ℕ) (xs ys : List ℕ)
    → Different (xs ++ ys)
    → Absent node (xs ++ ys)
    → Different (xs ++ (node ∷ ys))
Different-insert node [] ys d out = (out, d)
Different-insert node (x ∷ xs) ys d out = (
  Absent-append x xs (node ∷ ys) (Absent-front x xs ys (d.0))
      (λ e. out.0 (sym e), Absent-back x xs ys (d.0)),
  Different-insert node xs ys (d.1) (out.1),
)

module _ {ℓ} {T : Type ℓ} where
  module _ (E : Element T) (m : SkipList T) (vs : List T) (value : T) (height : ℕ)
      (k : Models E m vs) (positive : 0 < height) (low : height ≤ height_of m.store m.head)
      (room : m.size + 1 < 2 ^ 64) where
    -- The store after `insert_node`.
    record Added (l : Located E m vs value) : Type ℓ where
      after : Store T
      result :
          insert_node E m value height l.prevs
          ≡ some (record m { store = after; size = (m.size + 1) % 2 ^ 64 })
      heights : (x : ℕ) → m.store.next_address ≢ x → height_of after x ≡ height_of m.store x
      values : (x : ℕ) → m.store.next_address ≢ x → value_of after x ≡ value_of m.store x
      others :
          (x j : ℕ)
          → m.store.next_address ≢ x
          → (height ≤ j) ⊎ (l.place j ≢ x)
          → skip after x j ≡ skip m.store x j
      from : (j : ℕ) → j < height → skip after (l.place j) j ≡ some (some m.store.next_address)
      to : (j : ℕ) → j < height → skip after m.store.next_address j ≡ skip m.store (l.place j) j
      high : height_of after m.store.next_address ≡ height
      valued : value_of after m.store.next_address ≡ some value
      dead : (x : ℕ) → m.store.next_address ≢ x → m.store.nodes x ≡ none → after.nodes x ≡ none
      address : after.next_address ≡ m.store.next_address + 1

    module _ (l : Located E m vs value) where
      -- The new node's address is none of the list's.
      out : Absent m.store.next_address ((m.head ∷ l.front) ++ l.back)
      out =
          Links-Absent m.store m.store.next_address ((m.head ∷ l.front) ++ l.back) []
            (k.free m.store.next_address (omega arith)) l.links

      out_front : Absent m.store.next_address (m.head ∷ l.front)
      out_front = Absent-front m.store.next_address (m.head ∷ l.front) l.back out

      out_back : Absent m.store.next_address l.back
      out_back = Absent-back m.store.next_address (m.head ∷ l.front) l.back out

      added : Added l
      unfolding insert_node create skip
      added =
          let s = m.store in
          let node = s.next_address in
          let c = create_lem s height value (omega (arith, low, k.narrow)) in
          let apart : (j : ℕ) → j < height → node ≢ l.place j =
            λ j p. place-Absent E l j node (omega (arith, low)) out_front in
          let th =
            link_layers_lem node l.prevs l.place height (create s height value)
              (λ j p. l.known j (omega (arith, low))) apart
              (λ j p. omega (
                arith,
                place-high E l j (omega (arith, low)),
                ap height_in (c.others (l.place j) (apart j p)),
              ))
              (omega (arith, c.high)) in
          record {
            after = th.after;
            result = rw th.result refl;
            heights = λ x ne. th.wrote.heights x ∙ ap height_in (c.others x ne);
            values =
                λ x ne. th.wrote.values x ∙ ap (λ o. o >>= (λ n. some n.value)) (c.others x ne);
            others = λ x j ne q. th.others x j ne q ∙ ap (λ o. o >>= skip_at j) (c.others x ne);
            from = th.from;
            to = λ j p. th.to j p ∙ ap (λ o. o >>= skip_at j) (c.others (l.place j) (apart j p));
            high = th.wrote.heights node ∙ c.high;
            valued = th.wrote.values node ∙ c.valued;
            dead = λ x ne e. th.wrote.dead x (c.others x ne ∙ e);
            address = th.wrote.address;
          }

      module _ (a : Added l) where
        same_tall :
            (j : ℕ)
            → next_tall (height_of a.after) j l.back ≡ next_tall (height_of m.store) j l.back
        same_tall j =
            next_tall-same (height_of a.after) (height_of m.store) j m.store.next_address l.back
              a.heights out_back

        Added-Spliced :
            Spliced E m vs value k l a.after m.store.next_address height l.back
              (m.store.next_address ∷ l.back)
        Added-Spliced = record {
          here = refl;
          low = low;
          rewired = record {
            heights = a.heights;
            from = λ j p. a.from j p ∙ rw (a.high, lt→ltb j height p) refl;
            others = a.others;
            above = λ j q.
                let below : ltb j height ≡ false = ground arith in rw (a.high, below) (same_tall j);
          };
          values = a.values;
          out = out_front;
        }

        node-Linked : Linked a.after m.store.next_address l.back
        node-Linked = record {
          present = omega (arith, a.high, positive);
          skips = λ j p.
              a.to j (omega (arith, a.high, p))
              ∙ skip-place E l j (omega (arith, low, a.high, p))
              ∙ ap some (sym (same_tall j));
        }

        Added-owned :
            (x : ℕ)
            → Absent x ((m.head ∷ l.front) ++ (m.store.next_address ∷ l.back))
            → a.after.nodes x ≡ none
        Added-owned x none_here =
            let behind =
              Absent-back x (m.head ∷ l.front) (m.store.next_address ∷ l.back) none_here in
            let before =
              Absent-front x (m.head ∷ l.front) (m.store.next_address ∷ l.back) none_here in
            a.dead x (behind.0)
              (l.owned x (Absent-append x (m.head ∷ l.front) l.back before (behind.1)))

        -- The list with the new node stands for the sorted list with the value.
        insert_node_lem :
            Models E
              (record m { store = a.after; size = (m.size + 1) % 2 ^ 64 })
              (insert_sorted E value vs)
        insert_node_lem =
            let s = m.store in
            let node = s.next_address in
            let top = height_of s m.head in
            let p = Added-Spliced in
            Spliced-Models E m vs value k l a.after node height l.back (node ∷ l.back) p
              ((m.size + 1) % 2 ^ 64) (value ∷ drop_less E value vs) (insert_sorted E value vs)
              (
                subst (Linked a.after node) (sym (append-nil l.back)) node-Linked,
                behind-Links E m vs value k l a.after node height l.back (node ∷ l.back) p l.back
                    out_back (λ j q. place-behind E l j (omega (arith, low)))
                    (Links-back s (m.head ∷ l.front) l.back l.links),
              )
              (Different-insert node (m.head ∷ l.front) l.back l.different out)
              (
                a.valued,
                Values-same s a.after node l.back (drop_less E value vs) a.values out_back
                    l.back_values,
              )
              (
                omega (arith, a.high, low),
                Fits-same s a.after node top l.back a.heights out_back
                    (Fits-back s top l.front l.back l.fits),
              )
              (insert_sorted_lem E value vs) (insert_sorted-Sorted E value vs k.sorted)
              (omega (arith, k.counted, length-insert_sorted E value vs, room)) Added-owned
              (λ x q.
                a.dead x (omega (arith, q, a.address)) (k.free x (omega (arith, q, a.address))))

    -- `insert` behind the growth of the head.
    pub record InsertedAt (force : Bool) : Type ℓ where
      pub after : SkipList T
      pub result : insert_at E m value force height ≡ some (after, member E value vs)
      pub models : Models E after (insert_list E value force vs)

    pub insert_at_lem : (force : Bool) → InsertedAt force
    unfolding insert_at head_node
    insert_at_lem force =
        let l = locate E m vs value k in
        let is_exist = exists-member E m vs value k l in
        let a = added l in
        elim (Bool-cases ((member E value vs && force) || not (member E value vs))) [
          | inl e ↦ record {
            after = record m { store = a.after; size = (m.size + 1) % 2 ^ 64 };
            result = rw (l.top_node, l.result, is_exist, e, a.result) refl;
            models = rw e (insert_node_lem l a);
          }
          | inr e ↦ record {
            after = m;
            result = rw (l.top_node, l.result, is_exist, e) refl;
            models = rw e k;
          }
        ]
