-- ===== src/Prelude/Pigeonhole.antt =====
-- Different numbers below `n` are at most `n`.
use wizard.Prelude.{
  ℕ, zero, suc, ◌+◌, ◌≤◌, ◌<◌, ◌≢◌, List, [], ◌∷◌, ◌++◌, arith, ◌==◌, ==_eq, ==_ne, if◌then◌else◌,
  length, ℕ_discrete, subst,
}

-- `a` is not in the list.
abbrev pub Absent : ℕ → List ℕ → Type 0
Absent a [] = Unit {0}
Absent a (x ∷ xs) = (x ≢ a) × Absent a xs

abbrev pub Different : List ℕ → Type 0
Different [] = Unit {0}
Different (x ∷ xs) = Absent x xs × Different xs

abbrev pub AllBelow : ℕ → List ℕ → Type 0
AllBelow n [] = Unit {0}
AllBelow n (x ∷ xs) = (x < n) × AllBelow n xs

-- The list without the first `a`.
remove : ℕ → List ℕ → List ℕ
remove a [] = []
remove a (x ∷ xs) = if x == a then xs else x ∷ remove a xs

Absent-remove : (a b : ℕ) (xs : List ℕ) → Absent b xs → Absent b (remove a xs)
unfolding remove
Absent-remove a b [] h = tt
Absent-remove a b (x ∷ xs) h = elim (ℕ_discrete x a) [
  | yes e ↦ rw (==_eq e) (h.1)
  | no ne ↦ rw (==_ne ne) (h.0, Absent-remove a b xs (h.1))
]

Different-remove : (a : ℕ) (xs : List ℕ) → Different xs → Different (remove a xs)
unfolding remove
Different-remove a [] h = tt
Different-remove a (x ∷ xs) h = elim (ℕ_discrete x a) [
  | yes e ↦ rw (==_eq e) (h.1)
  | no ne ↦ rw (==_ne ne) (Absent-remove a x xs (h.0), Different-remove a xs (h.1))
]

length-remove : (a : ℕ) (xs : List ℕ) → length xs ≤ length (remove a xs) + 1
unfolding remove
length-remove a [] = omega arith
length-remove a (x ∷ xs) = elim (ℕ_discrete x a) [
  | yes e ↦ rw (==_eq e) (omega arith)
  | no ne ↦ rw (==_ne ne) (omega (arith, length-remove a xs))
]

AllBelow-Absent : (n : ℕ) (xs : List ℕ) → Absent n xs → AllBelow (suc n) xs → AllBelow n xs
AllBelow-Absent n [] a h = tt
AllBelow-Absent n (x ∷ xs) a h =
    let ne : x ≢ n = a.0 in
    let below : x < suc n = h.0 in (omega arith, AllBelow-Absent n xs (a.1) (h.1))

AllBelow-remove :
    (n : ℕ) (xs : List ℕ) → Different xs → AllBelow (suc n) xs → AllBelow n (remove n xs)
unfolding remove
AllBelow-remove n [] d h = tt
AllBelow-remove n (x ∷ xs) d h = elim (ℕ_discrete x n) [
  | yes e ↦ rw (==_eq e) (AllBelow-Absent n xs (subst (λ k. Absent k xs) e (d.0)) (h.1))
  | no ne ↦
      let below : x < suc n = h.0 in rw (==_ne ne) (omega arith, AllBelow-remove n xs (d.1) (h.1))
]

pub pigeonhole : (n : ℕ) (xs : List ℕ) → Different xs → AllBelow n xs → length xs ≤ n
pigeonhole zero [] d h = omega arith
pigeonhole zero (x ∷ xs) d h = absurd (omega (arith, h.0))
pigeonhole (suc n) xs d h = omega (
  arith,
  length-remove n xs,
  pigeonhole n (remove n xs) (Different-remove n xs d) (AllBelow-remove n xs d h),
)

pub Absent-append : (a : ℕ) (xs ys : List ℕ) → Absent a xs → Absent a ys → Absent a (xs ++ ys)
Absent-append a [] ys p q = q
Absent-append a (x ∷ xs) ys p q = (p.0, Absent-append a xs ys (p.1) q)

pub Absent-front : (a : ℕ) (xs ys : List ℕ) → Absent a (xs ++ ys) → Absent a xs
Absent-front a [] ys p = tt
Absent-front a (x ∷ xs) ys p = (p.0, Absent-front a xs ys (p.1))

pub Absent-back : (a : ℕ) (xs ys : List ℕ) → Absent a (xs ++ ys) → Absent a ys
Absent-back a [] ys p = p
Absent-back a (x ∷ xs) ys p = Absent-back a xs ys (p.1)

pub Different-front : (xs ys : List ℕ) → Different (xs ++ ys) → Different xs
Different-front [] ys d = tt
Different-front (x ∷ xs) ys d = (Absent-front x xs ys (d.0), Different-front xs ys (d.1))

pub Different-back : (xs ys : List ℕ) → Different (xs ++ ys) → Different ys
Different-back [] ys d = d
Different-back (x ∷ xs) ys d = Different-back xs ys (d.1)
