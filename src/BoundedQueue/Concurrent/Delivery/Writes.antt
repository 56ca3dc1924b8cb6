-- ===== src/BoundedQueue/Concurrent/Delivery/Writes.antt =====
-- How the delivery invariant survives the writes that the steps are made of.
use wizard.Prelude.{ℕ, ◌≡◌, ◌≢◌, inl, inr, refl, sym, ◌∙◌, Bool, true, false, Option}
use wizard.BoundedQueue.{Kind, push, pop}
use wizard.BoundedQueue.Concurrent.{
  Pc, idle, begun, loaded, waiting, asleep, entered, called, waking, done, System, move_to,
  write_word,
}
use wizard.BoundedQueue.Concurrent.Turns.Moves.{assign-cases}
use wizard.BoundedQueue.Concurrent.Delivery.{Holds, cell, Delivers}

-- The places at which an operation has nothing to show.
abbrev pub quiet : Pc → Bool
quiet called = false
quiet waking = false
quiet done = false
quiet _ = true

pub Holds-quiet {ℓ} :
    {T : Type ℓ} (c g t : Option T) (k : Kind) (p : Pc) → quiet p ≡ true → Holds c g t k p
Holds-quiet c g t push idle h = tt
Holds-quiet c g t push begun h = tt
Holds-quiet c g t push (loaded w) h = tt
Holds-quiet c g t push (waiting w) h = tt
Holds-quiet c g t push (asleep w) h = tt
Holds-quiet c g t push entered h = tt
Holds-quiet c g t pop idle h = tt
Holds-quiet c g t pop begun h = tt
Holds-quiet c g t pop (loaded w) h = tt
Holds-quiet c g t pop (waiting w) h = tt
Holds-quiet c g t pop (asleep w) h = tt
Holds-quiet c g t pop entered h = tt
Holds-quiet c g t k p h = cc

-- Only a push that has called back looks at the cell.
pub Holds-cell {ℓ} :
    {T : Type ℓ} (c c' g t : Option T) (k : Kind) (p : Pc)
    → (k ≡ push → p ≡ called → c' ≡ c)
    → Holds c g t k p
    → Holds c' g t k p
Holds-cell c c' g t push called kept h = kept refl refl ∙ h
Holds-cell c c' g t push idle kept h = tt
Holds-cell c c' g t push p kept h = tt
Holds-cell c c' g t pop called kept h = h
Holds-cell c c' g t pop waking kept h = h
Holds-cell c c' g t pop done kept h = h
Holds-cell c c' g t pop p kept h = tt

-- Of a push nothing is asked of what was taken.
pub Holds-push {ℓ} :
    {T : Type ℓ} (c c' g t t' : Option T) (p : Pc)
    → (p ≡ called → c' ≡ c)
    → Holds c g t push p
    → Holds c' g t' push p
Holds-push c c' g t t' called kept h = kept refl ∙ h
Holds-push c c' g t t' p kept h = tt

-- Of a pop nothing is asked of the cell.
pub Holds-pop {ℓ} :
    {T : Type ℓ} (c c' g g' t t' : Option T) (p : Pc)
    → (quiet p ≡ false → (g ≡ g') × (t ≡ t'))
    → Holds c g t pop p
    → Holds c' g' t' pop p
Holds-pop c c' g g' t t' called kept h = sym (kept refl).1 ∙ h ∙ (kept refl).0
Holds-pop c c' g g' t t' waking kept h = sym (kept refl).1 ∙ h ∙ (kept refl).0
Holds-pop c c' g g' t t' done kept h = sym (kept refl).1 ∙ h ∙ (kept refl).0
Holds-pop c c' g g' t t' p kept h = tt

module _ {ℓ} {T : Type ℓ} {bits : ℕ} {s : System T} {version : ℕ → ℕ}
    (del : Delivers bits s version) where
  pub move_to-Delivers :
      (k : Kind) (i : ℕ) (p : Pc)
      → s.pc k i ≢ idle
      → s.pc k i ≢ called
      → Holds (cell bits s i) (s.pushed i) (s.popped i) k p
      → Delivers bits (move_to s k i p) version
  unfolding move_to
  move_to-Delivers k i p started before ok = record {
    full = λ j h n. del.full j h (elim (assign-cases s.pc k i p pop j) [
      | inl (same, e) ↦ λ q. before (rw (same.0, same.1) q)
      | inr (other, e) ↦ λ q. n (e ∙ q)
    ]);
    holds = λ l j. elim (assign-cases s.pc k i p l j) [
      | inl (same, e) ↦ rw (e, ← same.0, ← same.1) ok
      | inr (other, e) ↦ rw e (del.holds l j)
    ];
    given = λ j h. del.given j (elim (assign-cases s.pc k i p push j) [
      | inl (same, e) ↦ λ q. started (rw (same.0, same.1) q)
      | inr (other, e) ↦ λ q. h (e ∙ q)
    ]);
  }

  pub write_word-Delivers : (slot w : ℕ) → Delivers bits (write_word s slot w) version
  unfolding write_word
  write_word-Delivers slot w = record { full = del.full; holds = del.holds; given = del.given }

  pub quiet-Delivers :
      (k : Kind) (i : ℕ) (p p' : Pc)
      → s.pc k i ≡ p'
      → p' ≢ idle
      → p' ≢ called
      → quiet p ≡ true
      → Delivers bits (move_to s k i p) version
  quiet-Delivers k i p p' e n c q =
      move_to-Delivers k i p (λ h. n (sym e ∙ h)) (λ h. c (sym e ∙ h)) (Holds-quiet _ _ _ k p q)
