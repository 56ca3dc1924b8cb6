-- ===== src/Prelude/Functions.antt =====
-- Functions on the numbers changed at one number.
use Prim.Native.Nat.{ℕ}
use mathlib.Core.Path.{◌≡◌, refl, subst}
use mathlib.Core.Logic.{◌≢◌}
use wizard.Prelude.{◌==◌, ==_eq, ==_ne, ℕ_discrete, if◌then◌else◌}

module _ {ℓ} {A : Type ℓ} where
  unfoldable pub assign_at : (ℕ → A) → ℕ → A → ℕ → A
  assign_at f i a j = if i == j then a else f j

  pub assign_at_self : (f : ℕ → A) (i : ℕ) (a : A) → assign_at f i a i ≡ a
  unfolding assign_at
  assign_at_self f i a = rw (==_eq {a = i} refl) refl

  pub assign_at_ne : (f : ℕ → A) (i j : ℕ) (a : A) → i ≢ j → assign_at f i a j ≡ f j
  unfolding assign_at
  assign_at_ne f i j a ne = rw (==_ne ne) refl

  -- A relation between the values at a number before and after the function is changed at one.
  pub assign_at_cases {κ} :
      (f : ℕ → A) (i j : ℕ) (a : A) (P : A → A → Type κ)
      → P (f i) a
      → ((x : A) → P x x)
      → P (f j) (assign_at f i a j)
  assign_at_cases f i j a P here same = elim (ℕ_discrete i j) [
    | yes e ↦ subst (λ k. P (f k) (assign_at f i a k)) e (rw (assign_at_self f i a) here)
    | no ne ↦ rw (assign_at_ne f i j a ne) (same (f j))
  ]
