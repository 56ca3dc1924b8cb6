-- ===== src/Prelude/Sums.antt =====
-- Sums over the agents of a schedule, and how often a number is in a list.
use wizard.Prelude.{
  ℕ, zero, suc, ◌+◌, ◌≤◌, ◌≡◌, ◌≢◌, refl, ap, some, List, [], ◌∷◌, ◌++◌, arith, ◌==◌, if◌then◌else◌,
  get_elem?, set, replicate,
}

module _ {ℓ} {A : Type ℓ} where
  abbrev pub total : (A → ℕ) → List A → ℕ
  total f [] = 0
  total f (x ∷ xs) = f x + total f xs

  pub total-set :
      (f : A → ℕ) (xs : List A) (i : ℕ) (old new : A)
      → get_elem? xs i ≡ some old
      → total f (set xs i new) + f old ≡ total f xs + f new
  total-set f [] i old new e = absurd (cc (e))
  total-set f (x ∷ xs) zero old new e = let same : x ≡ old = cc (e) in omega (arith, ap f same)
  total-set f (x ∷ xs) (suc i) old new e = omega (arith, total-set f xs i old new e)

  -- One of the summands.
  pub le-total :
      (f : A → ℕ) (xs : List A) (i : ℕ) (x : A) → get_elem? xs i ≡ some x → f x ≤ total f xs
  le-total f [] i x e = absurd (cc (e))
  le-total f (y ∷ xs) zero x e = let same : y ≡ x = cc (e) in omega (arith, ap f same)
  le-total f (y ∷ xs) (suc i) x e = omega (arith, le-total f xs i x e)

  -- Two of them.
  pub two-le-total :
      (f : A → ℕ) (xs : List A) (i j : ℕ) (x y : A)
      → i ≢ j
      → get_elem? xs i ≡ some x
      → get_elem? xs j ≡ some y
      → f x + f y ≤ total f xs
  two-le-total f [] i j x y ne a b = absurd (cc (a))
  two-le-total f (z ∷ xs) zero zero x y ne a b = absurd (ne refl)
  two-le-total f (z ∷ xs) zero (suc j) x y ne a b =
      let same : z ≡ x = cc (a) in omega (arith, ap f same, le-total f xs j y b)
  two-le-total f (z ∷ xs) (suc i) zero x y ne a b =
      let same : z ≡ y = cc (b) in omega (arith, ap f same, le-total f xs i x a)
  two-le-total f (z ∷ xs) (suc i) (suc j) x y ne a b =
      omega (arith, two-le-total f xs i j x y (λ e. ne (ap suc e)) a b)

  pub total-replicate : (f : A → ℕ) (n : ℕ) (x : A) → f x ≡ 0 → total f (replicate n x) ≡ 0
  total-replicate f zero x e = refl
  total-replicate f (suc n) x e = omega (arith, e, total-replicate f n x e)

abbrev pub count : ℕ → List ℕ → ℕ
count p [] = 0
count p (x ∷ xs) = (if x == p then 1 else 0) + count p xs

pub count-append : (p : ℕ) (xs ys : List ℕ) → count p (xs ++ ys) ≡ count p xs + count p ys
count-append p [] ys = omega arith
count-append p (x ∷ xs) ys = omega (arith, count-append p xs ys)
