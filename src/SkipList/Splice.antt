-- ===== src/SkipList/Splice.antt =====
-- src/container/skiplist.h: a list whose back part is exchanged behind the smaller values, as
-- `insert` and `remove` do.
use wizard.Prelude.{
  ℕ, ◌≤◌, ◌<◌, ◌≡◌, ◌≢◌, inl, sym, subst, none, List, [], ◌∷◌, ◌++◌, arith, length,
}
use wizard.Prelude.Pigeonhole.{Absent, Different, Different-front}
use wizard.SkipList.{Store, SkipList, Element}
use wizard.SkipList.Order.{Sorted, take_less}
use wizard.SkipList.Models.{
  height_of, value_of, Links, Values, Fits, Models, Links-append, Links-front,
}
use wizard.SkipList.Relink.{Rewired, relink}
use wizard.SkipList.Locate.{Located}
use wizard.SkipList.Kept.{
  Values-same, Values-append, Fits-same, Fits-append, Fits-front, Links-kept,
}

module _ {ℓ} {T : Type ℓ} (E : Element T) (m : SkipList T) (vs : List T) (value : T)
    (k : Models E m vs) (l : Located E m vs value) where
  -- In the store `t` the nodes at the places found lead to `next` instead of `back`.
  pub record Spliced (t : Store T) (node layers : ℕ) (back next : List ℕ) : Type ℓ where
    pub here : l.back ≡ back
    pub low : layers ≤ height_of m.store m.head
    pub rewired : Rewired m.store t node l.place layers back next
    pub values : (x : ℕ) → node ≢ x → value_of t x ≡ value_of m.store x
    pub out : Absent node (m.head ∷ l.front)

  module _ (t : Store T) (node layers : ℕ) (back next : List ℕ)
      (p : Spliced t node layers back next) where
    pub Links-here : Links m.store ((m.head ∷ l.front) ++ back) []
    Links-here = subst (λ b. Links m.store ((m.head ∷ l.front) ++ b) []) p.here l.links

    pub Fits-here : Fits m.store (height_of m.store m.head) (l.front ++ back)
    Fits-here = subst (λ b. Fits m.store (height_of m.store m.head) (l.front ++ b)) p.here l.fits

    pub head_same : height_of t m.head ≡ height_of m.store m.head
    head_same = p.rewired.heights m.head (λ e. p.out.0 (sym e))

    -- Nodes that are neither `node` nor at a place found.
    pub behind-Links :
        (xs : List ℕ)
        → Absent node xs
        → ((j : ℕ) → j < layers → Absent (l.place j) xs)
        → Links m.store xs []
        → Links t xs []
    behind-Links xs = Links-kept m.store t node l.place layers xs p.rewired.heights p.rewired.others

    front-Links : Links t (m.head ∷ l.front) next
    front-Links =
        relink m.store t node l.place layers back next p.rewired (m.head ∷ l.front)
          (Links-front m.store (m.head ∷ l.front) back Links-here) p.out
          (Different-front (m.head ∷ l.front) l.back l.different)
          (λ j q. inl (l.last j (omega (arith, p.low))))

    -- The skip list in the new store, when the new back part stands for `ws`.
    pub Spliced-Models :
        (size : ℕ) (ws us : List T)
        → Links t next []
        → Different ((m.head ∷ l.front) ++ next)
        → Values t next ws
        → Fits t (height_of m.store m.head) next
        → take_less E value vs ++ ws ≡ us
        → Sorted E us
        → size ≡ length us
        → ((a : ℕ) → Absent a ((m.head ∷ l.front) ++ next) → t.nodes a ≡ none)
        → ((a : ℕ) → t.next_address ≤ a → t.nodes a ≡ none)
        → Models E (record m { store = t; size = size }) us
    Spliced-Models size ws us links different back_values fits list sorted counted owned free =
        let top = height_of m.store m.head in
        let front = l.front in
        record {
          places = front ++ next;
          links = Links-append t (m.head ∷ front) next front-Links links;
          different = different;
          values = subst (Values t (front ++ next)) list (
              Values-append t front next (take_less E value vs) ws
                (Values-same m.store t node front (take_less E value vs) p.values (p.out.1)
                  l.front_values)
                back_values);
          sorted = sorted;
          fits =
              subst (λ h. Fits t h (front ++ next)) (sym head_same)
                (Fits-append t top front next
                  (Fits-same m.store t node top front p.rewired.heights (p.out.1)
                    (Fits-front m.store top front back Fits-here))
                  fits);
          narrow = omega (arith, head_same, k.narrow);
          counted = counted;
          owned = owned;
          free = free;
        }
