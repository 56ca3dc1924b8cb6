-- ===== src/SkipList/Layers.antt =====
-- src/container/skiplist.h: the elements of a layer, among the addresses of all elements in order.
use wizard.Prelude.{
  ℕ, ◌<◌, ◌≡◌, ◌≢◌, inl, inr, refl, ◌∙◌, ap, Bool-cases, Option-cases, Option, none, some, List, [],
  ◌∷◌, ◌++◌, arith, ltb, ltb→lt, lt→ltb, if◌then◌else◌,
}
use wizard.Prelude.Pigeonhole.{Absent}

abbrev pub otherwise : Option ℕ → Option ℕ → Option ℕ
otherwise none o = o
otherwise (some a) o = some a

module _ (h : ℕ → ℕ) (i : ℕ) where
  -- The first address of a node higher than layer `i`.
  abbrev pub next_tall : List ℕ → Option ℕ
  next_tall [] = none
  next_tall (x ∷ xs) = if ltb i (h x) then some x else next_tall xs

  -- The last one.
  abbrev pub final_tall : List ℕ → Option ℕ
  final_tall [] = none
  final_tall (x ∷ xs) = otherwise (final_tall xs) (if ltb i (h x) then some x else none)

  pub final_tall-append :
      (xs ys : List ℕ) → final_tall (xs ++ ys) ≡ otherwise (final_tall ys) (final_tall xs)
  final_tall-append [] ys = elim (Option-cases (final_tall ys)) [
    | inl e ↦ rw e refl
    | inr (a, e) ↦ rw e refl
  ]
  final_tall-append (x ∷ xs) ys = elim (Option-cases (final_tall ys)) [
    | inl e ↦ rw (final_tall-append xs ys, e) refl
    | inr (a, e) ↦ rw (final_tall-append xs ys, e) refl
  ]

  -- A node that is high enough hides those before it.
  pub final_tall-hides :
      (xs ys : List ℕ) (b : ℕ) → i < h b → final_tall (xs ++ (b ∷ ys)) ≡ final_tall (b ∷ ys)
  final_tall-hides xs ys b tall = elim (Option-cases (final_tall ys)) [
    | inl e ↦ rw (final_tall-append xs (b ∷ ys), e, lt→ltb i (h b) tall) refl
    | inr (a, e) ↦ rw (final_tall-append xs (b ∷ ys), e) refl
  ]

  pub next_tall-append :
      (xs ys : List ℕ) → next_tall (xs ++ ys) ≡ otherwise (next_tall xs) (next_tall ys)
  next_tall-append [] ys = refl
  next_tall-append (x ∷ xs) ys = elim (Bool-cases (ltb i (h x))) [
    | inl e ↦ rw e refl
    | inr e ↦ rw e (next_tall-append xs ys)
  ]

  pub final_tall-none : (xs : List ℕ) → next_tall xs ≡ none → final_tall xs ≡ none
  final_tall-none [] e = refl
  final_tall-none (x ∷ xs) e = elim (Bool-cases (ltb i (h x))) [
    | inl high ↦ absurd (cc (rw high at e))
    | inr low ↦ rw (final_tall-none xs (rw low at e), low) refl
  ]

  pub next_tall-none : (xs : List ℕ) → final_tall xs ≡ none → next_tall xs ≡ none
  next_tall-none [] e = refl
  next_tall-none (x ∷ xs) e = elim (Option-cases (final_tall xs)) [
    | inl n ↦ elim (Bool-cases (ltb i (h x))) [
      | inl high ↦ absurd (cc (rw (n, high) at e))
      | inr low ↦ rw low (next_tall-none xs n)
    ]
    | inr (a, n) ↦ absurd (cc (rw n at e))
  ]

  -- Where the first one stands.
  pub next_split :
      (xs : List ℕ) (b : ℕ)
      → next_tall xs ≡ some b
      → (low : List ℕ) × (ys : List ℕ) × (xs ≡ low ++ (b ∷ ys)) × (i < h b)
  next_split [] b e = absurd (cc (e))
  next_split (x ∷ xs) b e = elim (Bool-cases (ltb i (h x))) [
    | inl high ↦
        let same : x ≡ b = cc (rw high at e) in
        ([], xs, ap (λ y. y ∷ xs) same, omega (arith, ltb→lt i (h x) high, ap h same))
    | inr low ↦
        let rest = next_split xs b (rw low at e) in
        (x ∷ rest.0, rest.1, ap (λ l. x ∷ l) (rest.2), rest.3)
  ]

  pub final_tall-Absent : (x y : ℕ) (xs : List ℕ) → Absent x xs → final_tall xs ≡ some y → y ≢ x
  final_tall-Absent x y [] out e = absurd (cc (e))
  final_tall-Absent x y (z ∷ xs) out e = elim (Option-cases (final_tall xs)) [
    | inl n ↦ elim (Bool-cases (ltb i (h z))) [
      | inl high ↦ let same : z ≡ y = cc (rw (n, high) at e) in λ f. out.0 (same ∙ f)
      | inr low ↦ absurd (cc (rw (n, low) at e))
    ]
    | inr (a, n) ↦
        let same : a ≡ y = cc (rw n at e) in final_tall-Absent x y xs (out.1) (n ∙ ap some same)
  ]
