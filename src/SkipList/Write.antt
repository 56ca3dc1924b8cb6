-- ===== src/SkipList/Write.antt =====
-- src/container/skiplist-inl.h, src/container/skiplist.h: what the writes to nodes change.
use wizard.Prelude.{
  ℕ, ◌<◌, ◌%◌, ◌^◌, ◌≡◌, ◌≢◌, ◌⊎◌, inl, inr, refl, sym, ◌∙◌, ap, Option-cases, Option, none, some,
  arith, lt→ltb, ◌>>=◌, ℕ_discrete,
}
use wizard.Prelude.Functions.{assign_at, assign_at_self, assign_at_ne, assign_at_cases}
use wizard.SkipList.{Store, create, skip_at, skip, set_skip}
use wizard.SkipList.Models.{height_in, height_of, value_of}

other_layer : {a b i j : ℕ} → a ≡ b → (a ≢ b) ⊎ (i ≢ j) → i ≢ j
other_layer same (inl ne) = absurd (ne same)
other_layer same (inr ne) = ne

module _ {ℓ} {T : Type ℓ} where
  -- Only pointers have changed.
  pub record Wrote (s t : Store T) : Type ℓ where
    pub heights : (b : ℕ) → height_of t b ≡ height_of s b
    pub values : (b : ℕ) → value_of t b ≡ value_of s b
    pub address : t.next_address ≡ s.next_address
    pub dead : (b : ℕ) → s.nodes b ≡ none → t.nodes b ≡ none

  pub Wrote-refl : (s : Store T) → Wrote s s
  Wrote-refl s = record { heights = λ b. refl; values = λ b. refl; address = refl; dead = λ b e. e }

  pub Wrote-trans : (s t u : Store T) → Wrote s t → Wrote t u → Wrote s u
  Wrote-trans s t u w v = record {
    heights = λ b. v.heights b ∙ w.heights b;
    values = λ b. v.values b ∙ w.values b;
    address = v.address ∙ w.address;
    dead = λ b e. v.dead b (w.dead b e);
  }

  -- What a `set_skip` on a layer that the node has does.
  pub record SetSkip (s : Store T) (a i : ℕ) (p : Option ℕ) : Type ℓ where
    pub after : Store T
    pub result : set_skip s a i p ≡ some after
    pub wrote : Wrote s after
    pub here : skip after a i ≡ some p
    pub elsewhere : (b j : ℕ) → (a ≢ b) ⊎ (i ≢ j) → skip after b j ≡ skip s b j

  pub set_skip_lem : (s : Store T) (a i : ℕ) (p : Option ℕ) → i < height_of s a → SetSkip s a i p
  unfolding set_skip skip
  set_skip_lem s a i p high = elim (Option-cases (s.nodes a)) [
    | inl e ↦ absurd (omega (arith, rw e at high))
    | inr (n, e) ↦
        let tall : i < n.height = rw e at high in
        let new = record n { skip = assign_at n.skip i p } in
        record {
          after = record s { nodes = assign_at s.nodes a (some new) };
          result = rw (e, lt→ltb i n.height tall) refl;
          wrote = record {
            heights = λ b.
                assign_at_cases s.nodes a b (some new) (λ o o'. height_in o' ≡ height_in o)
                  (rw e refl) (λ o. refl);
            values = λ b.
                assign_at_cases s.nodes a b (some new)
                  (λ o o'. (o' >>= (λ k. some k.value)) ≡ (o >>= (λ k. some k.value))) (rw e refl)
                  (λ o. refl);
            address = refl;
            dead = λ b.
                assign_at_cases s.nodes a b (some new) (λ o o'. o ≡ none → o' ≡ none)
                  (λ f. absurd (cc (e, f))) (λ o f. f);
          };
          here =
              rw
                (
                  assign_at_self s.nodes a (some new),
                  lt→ltb i n.height tall,
                  assign_at_self n.skip i p,
                )
                refl;
          elsewhere = λ b j apart. elim (ℕ_discrete a b) [
            | no ne ↦ ap (λ o. o >>= skip_at j) (assign_at_ne s.nodes a b (some new) ne)
            | yes same ↦
                rw
                  (
                    sym same,
                    assign_at_self s.nodes a (some new),
                    e,
                    assign_at_ne n.skip i j p (other_layer same apart),
                  )
                  refl
          ];
        }
  ]

  -- `create` at an address without a node.
  pub record Created (s : Store T) (height : ℕ) (value : T) : Type ℓ where
    pub high : height_of (create s height value) s.next_address ≡ height
    pub valued : value_of (create s height value) s.next_address ≡ some value
    pub others : (b : ℕ) → s.next_address ≢ b → (create s height value).nodes b ≡ s.nodes b
    pub empty : (i : ℕ) → i < height → skip (create s height value) s.next_address i ≡ some none

  pub create_lem : (s : Store T) (height : ℕ) (value : T) → height < 2 ^ 8 → Created s height value
  unfolding create skip
  create_lem s height value narrow =
      let same : height % 2 ^ 8 ≡ height = omega arith in
      record {
        high =
            rw
              (assign_at_self s.nodes s.next_address
                (some (record { height = height % 2 ^ 8; value = value; skip = λ i. none })))
              same;
        valued =
            rw
              (assign_at_self s.nodes s.next_address
                (some (record { height = height % 2 ^ 8; value = value; skip = λ i. none })))
              refl;
        others = λ b ne. assign_at_ne s.nodes s.next_address b _ ne;
        empty = λ i p.
            rw
              (
                assign_at_self s.nodes s.next_address
                    (some (record { height = height % 2 ^ 8; value = value; skip = λ j. none })),
                same,
                lt→ltb i height p,
              )
              refl;
      }
