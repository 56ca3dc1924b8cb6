-- ===== src/SkipList/Relink.antt =====
-- src/container/skiplist.h: a list of nodes stays linked when, in some layers, the last node of the
-- layer gets a new pointer.
use wizard.Prelude.{
  ℕ, ◌≤◌, ◌<◌, ◌≡◌, ◌≢◌, ◌⊎◌, inl, inr, refl, sym, ◌∙◌, ap, subst, Bool-cases, Option-cases, none,
  some, List, [], ◌∷◌, ◌++◌, arith, ltb, lt→ltb, dec_lt,
}
use wizard.Prelude.Pigeonhole.{Absent, Different}
use wizard.SkipList.{Store, skip}
use wizard.SkipList.Layers.{
  otherwise, next_tall, final_tall, next_tall-append, final_tall-none, next_tall-none,
  final_tall-Absent,
}
use wizard.SkipList.Models.{height_of, Linked, Links}

-- The address is the last of the layer, or the layer is empty here and the address elsewhere.
abbrev pub Last : (ℕ → ℕ) → ℕ → ℕ → List ℕ → Type 0
Last h j place xs =
    (final_tall h j xs ≡ some place) ⊎ (Absent place xs × (final_tall h j xs ≡ none))

Last-tail :
    (h : ℕ → ℕ) (j place x : ℕ) (xs : List ℕ)
    → Different (x ∷ xs)
    → Last h j place (x ∷ xs)
    → Last h j place xs
Last-tail h j place x xs diff (inl e) = elim (Option-cases (final_tall h j xs)) [
  | inl n ↦ elim (Bool-cases (ltb j (h x))) [
    | inl high ↦
        let same : x ≡ place = cc (rw (n, high) at e) in
        inr (subst (λ y. Absent y xs) same (diff.0), n)
    | inr low ↦ absurd (cc (rw (n, low) at e))
  ]
  | inr (y, n) ↦ let same : y ≡ place = cc (rw n at e) in inl (n ∙ ap some same)
]
Last-tail h j place x xs diff (inr (out, e)) = elim (Option-cases (final_tall h j xs)) [
  | inl n ↦ inr (out.1, n)
  | inr (y, n) ↦ absurd (cc (rw n at e))
]

-- Either the node is the last one of the layer, or another one behind it is.
Last-head :
    (h : ℕ → ℕ) (j place x : ℕ) (xs : List ℕ)
    → Different (x ∷ xs)
    → j < h x
    → Last h j place (x ∷ xs)
    → ((place ≡ x) × (next_tall h j xs ≡ none))
      ⊎ ((place ≢ x) × (b : ℕ) × (next_tall h j xs ≡ some b))
Last-head h j place x xs diff high last = elim (Option-cases (final_tall h j xs)) [
  | inl n ↦ elim last [
    | inl e ↦
        let same : x ≡ place = cc (rw (n, lt→ltb j (h x) high) at e) in
        inl (sym same, next_tall-none h j xs n)
    | inr (out, e) ↦ absurd (cc (rw (n, lt→ltb j (h x) high) at e))
  ]
  | inr (y, n) ↦ elim (Option-cases (next_tall h j xs)) [
    | inl none_there ↦ absurd (cc (final_tall-none h j xs none_there, n))
    | inr (b, there) ↦ elim last [
      | inl e ↦
          let same : y ≡ place = cc (rw n at e) in
          inr (subst (λ z. z ≢ x) same (final_tall-Absent h j x y xs (diff.0) n), b, there)
      | inr (out, e) ↦ absurd (cc (rw n at e))
    ]
  ]
]

pub next_tall-same :
    (g h : ℕ → ℕ) (j node : ℕ) (xs : List ℕ)
    → ((x : ℕ) → node ≢ x → g x ≡ h x)
    → Absent node xs
    → next_tall g j xs ≡ next_tall h j xs
next_tall-same g h j node [] same out = refl
next_tall-same g h j node (x ∷ xs) same out =
    rw (same x (λ e. out.0 (sym e)), next_tall-same g h j node xs same (out.1)) refl

module _ {ℓ} {T : Type ℓ} where
  -- In the lower layers the nodes at `place` get new pointers, and `node` may change altogether.
  pub record Rewired (s t : Store T) (node : ℕ) (place : ℕ → ℕ) (layers : ℕ) (R R' : List ℕ)
      : Type 0 where
    pub heights : (x : ℕ) → node ≢ x → height_of t x ≡ height_of s x
    pub from : (j : ℕ) → j < layers → skip t (place j) j ≡ some (next_tall (height_of t) j R')
    pub others : (x j : ℕ) → node ≢ x → (layers ≤ j) ⊎ (place j ≢ x) → skip t x j ≡ skip s x j
    pub above : (j : ℕ) → layers ≤ j → next_tall (height_of t) j R' ≡ next_tall (height_of s) j R

  module _ (s t : Store T) (node : ℕ) (place : ℕ → ℕ) (layers : ℕ) (R R' : List ℕ)
      (r : Rewired s t node place layers R R') where
    relink_one :
        (x : ℕ) (xs : List ℕ)
        → Linked s x (xs ++ R)
        → node ≢ x
        → Absent node xs
        → Different (x ∷ xs)
        → ((j : ℕ) → j < layers → Last (height_of s) j (place j) (x ∷ xs))
        → (j : ℕ) → j < height_of s x
        → skip t x j
          ≡ some (otherwise (next_tall (height_of s) j xs) (next_tall (height_of t) j R'))
    relink_one x xs k apart out diff last j high =
        let old = k.skips j high ∙ ap some (next_tall-append (height_of s) j xs R) in
        elim (dec_lt j layers) [
          | no p ↦
              r.others x j apart (inl (omega (arith, p)))
              ∙ old
              ∙ ap (λ o. some (otherwise (next_tall (height_of s) j xs) o))
                  (sym (r.above j (omega (arith, p))))
          | yes p ↦ elim (Last-head (height_of s) j (place j) x xs diff high (last j p)) [
            | inl (here, last_one) ↦ rw (last_one) (ap (λ y. skip t y j) (sym here) ∙ r.from j p)
            | inr (elsewhere, b, there) ↦
                rw there (r.others x j apart (inr elsewhere) ∙ old ∙ rw there refl)
          ]
        ]

    pub relink :
        (xs : List ℕ)
        → Links s xs R
        → Absent node xs
        → Different xs
        → ((j : ℕ) → j < layers → Last (height_of s) j (place j) xs)
        → Links t xs R'
    relink [] k out diff last = tt
    relink (x ∷ xs) k out diff last =
        let apart : node ≢ x = λ e. out.0 (sym e) in
        (
          record {
            present = omega (arith, r.heights x apart, (k.0).present);
            skips = λ j high.
                relink_one x xs (k.0) apart (out.1) diff last j (omega (arith, r.heights x apart))
                ∙ ap (λ o. some (otherwise o (next_tall (height_of t) j R')))
                    (sym (next_tall-same (height_of t) (height_of s) j node xs r.heights (out.1)))
                ∙ ap some (sym (next_tall-append (height_of t) j xs R'));
          },
          relink xs (k.1) (out.1) (diff.1)
              (λ j p. Last-tail (height_of s) j (place j) x xs diff (last j p)),
        )
