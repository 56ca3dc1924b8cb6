-- ===== src/SkipList/Regrow.antt =====
-- src/container/skiplist.h: `grow_height` puts a higher node in the place of the head.
use wizard.Prelude.{
  ℕ, ◌+◌, ◌≤◌, ◌<◌, ◌^◌, ◌≡◌, ◌≢◌, inl, inr, refl, sym, ◌∙◌, ap, subst, false, Bool-cases, none,
  some, List, [], ◌∷◌, arith, ltb, leb, ◌>>=◌, dec_lt, ℕ_discrete, append-nil,
}
use wizard.Prelude.Pigeonhole.{Absent}
use wizard.SkipList.{
  Store, SkipList, Element, skip_at, skip, create, copy_skip_pointer, head_node, grow_height,
}
use wizard.SkipList.Layers.{next_tall}
use wizard.SkipList.Models.{height_in, height_of, Linked, Links, Values, Fits, Models}
use wizard.SkipList.Write.{create_lem}
use wizard.SkipList.Loops.{copy_skip_pointer_lem}
use wizard.SkipList.Locate.{node-present}
use wizard.SkipList.Kept.{
  Destroyed, destroy_lem, Destroyed-Untouched, Links-Absent, Values-same, Fits-same, Untouched,
  Untouched-Links, Untouched-next_tall,
}

module _ {ℓ} {T : Type ℓ} where
  -- No node is in a layer above the head.
  next_tall-Fits :
      (s : Store T) (height j : ℕ) (xs : List ℕ)
      → height ≤ j
      → Fits s height xs
      → next_tall (height_of s) j xs ≡ none
  next_tall-Fits s height j [] p k = refl
  next_tall-Fits s height j (x ∷ xs) p k =
      let low : height_of s x ≤ j = omega (arith, k.0) in
      let below : ltb j (height_of s x) ≡ false = ground arith in
      rw below (next_tall-Fits s height j xs p (k.1))

  Fits-higher :
      (s : Store T) (low high : ℕ) (xs : List ℕ) → low ≤ high → Fits s low xs → Fits s high xs
  Fits-higher s low high [] p k = tt
  Fits-higher s low high (x ∷ xs) p k = (omega (arith, k.0), Fits-higher s low high xs p (k.1))

  module _ (E : Element T) where
    -- A new node with the pointers of the head, in the layers of the head.
    record Taller (m : SkipList T) (new_height : ℕ) : Type ℓ where
      copied : Store T
      result :
          copy_skip_pointer
            (create m.store new_height E.initial_value)
            m.store.next_address
            m.head
            (height_of m.store m.head)
          ≡ some copied
      rest : Untouched m.store copied m.store.next_address
      high : height_of copied m.store.next_address ≡ new_height
      same :
          (j : ℕ)
          → j < height_of m.store m.head
          → skip copied m.store.next_address j ≡ skip m.store m.head j
      above :
          (j : ℕ)
          → height_of m.store m.head ≤ j
          → j < new_height
          → skip copied m.store.next_address j ≡ some none
      address : copied.next_address ≡ m.store.next_address + 1

    taller :
        (m : SkipList T) (new_height : ℕ)
        → m.store.next_address ≢ m.head
        → height_of m.store m.head < new_height
        → new_height < 2 ^ 8
        → Taller m new_height
    unfolding create skip
    taller m new_height apart higher narrow =
        let s = m.store in
        let node = s.next_address in
        let c = create_lem s new_height E.initial_value narrow in
        let head_same : height_of (create s new_height E.initial_value) m.head
            ≡ height_of s m.head =
          ap height_in (c.others m.head apart) in
        let copy =
          copy_skip_pointer_lem (create s new_height E.initial_value) node m.head
            (height_of s m.head) apart (omega (arith, c.high)) (omega (arith, head_same)) in
        record {
          copied = copy.after;
          result = copy.result;
          rest = record {
            heights = λ x ne. copy.wrote.heights x ∙ ap height_in (c.others x ne);
            values =
                λ x ne. copy.wrote.values x ∙ ap (λ o. o >>= (λ n. some n.value)) (c.others x ne);
            skips = λ x j ne. copy.others x j ne ∙ ap (λ o. o >>= skip_at j) (c.others x ne);
            dead = λ x ne e. copy.wrote.dead x (c.others x ne ∙ e);
          };
          high = copy.wrote.heights node ∙ c.high;
          same = λ j p. copy.copied j p ∙ ap (λ o. o >>= skip_at j) (c.others m.head apart);
          above = λ j p q. copy.above j p ∙ c.empty j q;
          address = copy.wrote.address;
        }

    -- The skip list in which the new node is the head and the old head is destroyed.
    module _ (m : SkipList T) (vs : List T) (new_height : ℕ) (k : Models E m vs)
        (higher : height_of m.store m.head < new_height) (t : Taller m new_height)
        (gone : Destroyed t.copied m.head) where
      out : Absent m.store.next_address (m.head ∷ k.places)
      out =
          Links-Absent m.store m.store.next_address (m.head ∷ k.places) []
            (k.free m.store.next_address (omega arith)) k.links

      last : Untouched t.copied gone.after m.head
      last = Destroyed-Untouched t.copied m.head gone

      same_places :
          (j : ℕ)
          → next_tall (height_of gone.after) j k.places ≡ next_tall (height_of m.store) j k.places
      same_places j =
          Untouched-next_tall t.copied gone.after m.head last j k.places (k.different.0)
          ∙ Untouched-next_tall m.store t.copied m.store.next_address t.rest j k.places (out.1)

      new_high : height_of gone.after m.store.next_address ≡ new_height
      new_high = last.heights m.store.next_address out.0 ∙ t.high

      new_head-Linked : Linked gone.after m.store.next_address k.places
      new_head-Linked =
          let s = m.store in
          let old : Linked s m.head k.places =
            subst (Linked s m.head) (append-nil k.places) (k.links.0) in
          record {
            present = omega (arith, new_high, higher);
            skips = λ j p.
                last.skips s.next_address j out.0 ∙ elim (dec_lt j (height_of s m.head)) [
                  | yes q ↦ t.same j q ∙ old.skips j q ∙ ap some (sym (same_places j))
                  | no q ↦
                      let up : height_of s m.head ≤ j = omega (arith, q) in
                      t.above j up (omega (arith, new_high, p))
                      ∙ ap some (
                          sym (
                            same_places j
                            ∙ next_tall-Fits s (height_of s m.head) j k.places up k.fits))
                ];
          }

      places-Fits : Fits gone.after (height_of gone.after m.store.next_address) k.places
      places-Fits =
          let s = m.store in
          subst (λ h. Fits gone.after h k.places) (sym new_high)
            (Fits-same t.copied gone.after m.head new_height k.places last.heights (k.different.0) (
              Fits-same s t.copied s.next_address new_height k.places t.rest.heights (out.1) (
                Fits-higher s (height_of s m.head) new_height k.places (omega (arith, higher))
                  k.fits)))

      places-Values : Values gone.after k.places vs
      places-Values =
          Values-same t.copied gone.after m.head k.places vs last.values (k.different.0) (
            Values-same m.store t.copied m.store.next_address k.places vs t.rest.values (out.1)
              k.values)

      places-Links : Links gone.after k.places []
      places-Links = Untouched-Links t.copied gone.after m.head last k.places (k.different.0) (
          Untouched-Links m.store t.copied m.store.next_address t.rest k.places (out.1) (k.links.1))

      none_else :
          (a : ℕ) → m.store.next_address ≢ a → m.store.nodes a ≡ none → gone.after.nodes a ≡ none
      none_else a ne e = elim (ℕ_discrete m.head a) [
        | yes f ↦ subst (λ b. gone.after.nodes b ≡ none) f gone.gone
        | no f ↦ last.dead a f (t.rest.dead a ne e)
      ]

      regrown-Models :
          new_height < 2 ^ 8
          → Models E (record m { store = gone.after; head = m.store.next_address }) vs
      regrown-Models narrow = record {
        places = k.places;
        links = (
          subst (Linked gone.after m.store.next_address) (sym (append-nil k.places))
              new_head-Linked,
          places-Links,
        );
        different = (out.1, k.different.1);
        values = places-Values;
        sorted = k.sorted;
        fits = places-Fits;
        narrow = omega (arith, new_high, narrow);
        counted = k.counted;
        owned = λ a none_here. elim (ℕ_discrete m.head a) [
          | yes f ↦ subst (λ b. gone.after.nodes b ≡ none) f gone.gone
          | no f ↦ none_else a (none_here.0) (k.owned a (f, none_here.1))
        ];
        free = λ a p.
            none_else a (omega (arith, p, gone.address, t.address))
              (k.free a (omega (arith, p, gone.address, t.address)));
      }

    -- A skip list with one more layer, or as many as asked for.
    pub record Grown (m : SkipList T) (vs : List T) (new_height : ℕ) : Type ℓ where
      pub after : SkipList T
      pub result : grow_height E m new_height ≡ some after
      pub models : Models E after vs
      pub same_size : after.size ≡ m.size

    pub grow_height_lem :
        (m : SkipList T) (vs : List T) (new_height : ℕ)
        → Models E m vs
        → new_height < 2 ^ 8
        → Grown m vs new_height
    unfolding grow_height head_node
    grow_height_lem m vs new_height k narrow =
        let s = m.store in
        let present = (k.links.0).present in
        let top = node-present s m.head present in
        elim (Bool-cases (leb new_height ((top.0).height))) [
          | inl e ↦ record { after = m; result = rw (top.1, e) refl; models = k; same_size = refl }
          | inr e ↦
              let higher : height_of s m.head < new_height = ground (arith, top.2) in
              let dead = k.free s.next_address (omega arith) in
              let apart : s.next_address ≢ m.head =
                λ f. omega (arith, present, ap height_in (ap s.nodes (sym f) ∙ dead)) in
              let t = taller m new_height apart higher narrow in
              let copies =
                subst
                  (λ h.
                    copy_skip_pointer (create s new_height E.initial_value) s.next_address m.head h
                    ≡ some t.copied)
                  (sym top.2) t.result in
              let gone =
                destroy_lem t.copied m.head (omega (arith, t.rest.heights m.head apart, present)) in
              record {
                after = record m { store = gone.after; head = s.next_address };
                result = rw (top.1, e, copies, gone.result) refl;
                models = regrown-Models m vs new_height k higher t gone narrow;
                same_size = refl;
              }
        ]
