-- ===== src/Prelude/Tabulate.antt =====
-- Lists given by their elements, and remainders of numbers below twice the divisor.
use native.Mathlib.Nat.{mod-eq_of_lt, mod-eq-sub-mod}
use wizard.Prelude.{
  ℕ, zero, suc, ◌+◌, ◌-◌, ◌*◌, ◌%◌, ◌≤◌, ◌<◌, ◌≡◌, ◌≢◌, ◌⊎◌, inl, inr, refl, ap, arith, List, [],
  ◌∷◌, ◌++◌, length, get_or, dec_lt,
}

module _ {ℓ} {A : Type ℓ} where
  -- f 0, f 1, …, f (n - 1)
  abbrev pub tabulate : ℕ → (ℕ → A) → List A
  tabulate zero f = []
  tabulate (suc n) f = f 0 ∷ tabulate n (λ i. f (suc i))

  pub cons_congr : {x y : A} {xs ys : List A} → x ≡ y → xs ≡ ys → x ∷ xs ≡ y ∷ ys
  cons_congr p q = rw (p, q) refl

  pub length-tabulate : (n : ℕ) (f : ℕ → A) → length (tabulate n f) ≡ n
  length-tabulate zero f = refl
  length-tabulate (suc n) f = ap suc (length-tabulate n (λ i. f (suc i)))

  pub tabulate_last : (n : ℕ) (f : ℕ → A) → tabulate (suc n) f ≡ tabulate n f ++ (f n ∷ [])
  tabulate_last zero f = refl
  tabulate_last (suc n) f = ap (λ l. f 0 ∷ l) (tabulate_last n (λ i. f (suc i)))

  pub tabulate_congr :
      (n : ℕ) (f g : ℕ → A) → ((i : ℕ) → i < n → f i ≡ g i) → tabulate n f ≡ tabulate n g
  tabulate_congr zero f g h = refl
  tabulate_congr (suc n) f g h = rw (
    h 0 (omega arith),
    tabulate_congr n (λ i. f (suc i)) (λ i. g (suc i)) (λ i p. h (suc i) (omega arith)),
  )

  pub get_or-tabulate :
      (n : ℕ) (f : ℕ → A) (i : ℕ) (d : A) → i < n → get_or (tabulate n f) i d ≡ f i
  get_or-tabulate zero f i d h = absurd (omega arith)
  get_or-tabulate (suc n) f zero d h = refl
  get_or-tabulate (suc n) f (suc i) d h = get_or-tabulate n (λ j. f (suc j)) i d (omega arith)

pub mod-cases : (x c : ℕ) → x < 2 * c → ((x < c) × (x % c ≡ x)) ⊎ ((c ≤ x) × (x % c + c ≡ x))
mod-cases x c h = elim (dec_lt x c) [
  | yes p ↦ inl (p, mod-eq_of_lt p)
  | no p ↦ inr (
    omega arith,
    omega (
      arith,
      mod-eq-sub-mod {n = x} {m = c} (omega arith),
      mod-eq_of_lt {n = x - c} {m = c} (omega arith),
    ),
  )
]

-- Less than `c` steps round a ring of `c` places do not meet.
pub mod-distinct : (c h i j : ℕ) → h < c → i < j → j < c → (i + h) % c ≢ (j + h) % c
mod-distinct c h i j hc ij jc e =
    omega (arith, mod-cases (i + h) c (omega arith), mod-cases (j + h) c (omega arith))
