-- ===== src/BoundedQueue/Concurrent/Turns/Moves.antt =====
-- How the invariant of the turns survives the writes that the steps are made of.
use wizard.Prelude.{
  ℕ, ◌%◌, ◌^◌, ◌<◌, ◌≡◌, ◌≢◌, ◌⊎◌, inl, inr, refl, ◌∙◌, sym, arith, List, Option, length,
  length-set, get_or-set_self, get_or-set_ne, ℕ_discrete,
}
use wizard.BoundedQueue.{Kind, push, pop, slot_id}
use wizard.BoundedQueue.Concurrent.{Pc, idle, System, word, assign, move_to, write_word}
use wizard.BoundedQueue.Concurrent.Order.{turn, place, place-lt, slot_id-eq-place}
use wizard.BoundedQueue.Concurrent.Turns.{Fits, Turns}

abbrev pub Same : Kind → ℕ → Kind → ℕ → Type 0
Same k i l j = (k ≡ l) × (i ≡ j)

-- An assignment sets its own place and no other.
pub assign-cases {ℓ} :
    {A : Type ℓ} (f : Kind → ℕ → A) (k : Kind) (i : ℕ) (a : A) (l : Kind) (j : ℕ)
    → (Same k i l j × (assign f k i a l j ≡ a)) ⊎ ((¬ Same k i l j) × (assign f k i a l j ≡ f l j))
unfolding assign
assign-cases f push i a push j = elim (ℕ_discrete i j) [
  | yes e ↦ inl (ground arith)
  | no ne ↦ inr (λ h. ne h.1, ground arith)
]
assign-cases f pop i a pop j = elim (ℕ_discrete i j) [
  | yes e ↦ inl (ground arith)
  | no ne ↦ inr (λ h. ne h.1, ground arith)
]
assign-cases f push i a pop j = inr (λ h. cc (h.0), refl)
assign-cases f pop i a push j = inr (λ h. cc (h.0), refl)

module _ {ℓ} {T : Type ℓ} {bits : ℕ} {s : System T} {version : ℕ → ℕ}
    (inv : Turns bits s version) where
  pub slot_eq : (i : ℕ) → slot_id s.queue i ≡ place bits i
  slot_eq = slot_id-eq-place inv.laid_out

  pub word_low :
      (i : ℕ) → word s.queue (slot_id s.queue i) % 2 ^ 16 ≡ version (place bits i) % 2 ^ 16
  word_low i = rw slot_eq (inv.raw (place bits i) (place-lt bits i))

  pub not_idle : (k : Kind) (i : ℕ) (p : Pc) → s.pc k i ≡ p → p ≢ idle → s.pc k i ≢ idle
  not_idle k i p e ne h = ne (sym e ∙ h)

  pub Fits-at :
      (k : Kind) (i : ℕ) {p : Pc} → s.pc k i ≡ p → Fits (version (place bits i)) (turn bits k i) p
  Fits-at k i e = rw e at (inv.fits k i)

  pub move_to-Turns :
      (k : Kind) (i : ℕ) (p : Pc)
      → s.pc k i ≢ idle
      → Fits (version (place bits i)) (turn bits k i) p
      → Turns bits (move_to s k i p) version
  unfolding move_to
  move_to-Turns k i p started ok = record {
    laid_out = inv.laid_out;
    raw = inv.raw;
    fits = λ l j. elim (assign-cases s.pc k i p l j) [
      | inl (same, e) ↦ rw (e, ← same.0, ← same.1) ok
      | inr (other, e) ↦ rw e (inv.fits l j)
    ];
    pushes_new = λ j h. elim (assign-cases s.pc k i p push j) [
      | inl (same, e) ↦ absurd (started (rw (same.0, same.1) (inv.pushes_new j h)))
      | inr (other, e) ↦ e ∙ inv.pushes_new j h
    ];
    pops_new = λ j h. elim (assign-cases s.pc k i p pop j) [
      | inl (same, e) ↦ absurd (started (rw (same.0, same.1) (inv.pops_new j h)))
      | inr (other, e) ↦ e ∙ inv.pops_new j h
    ];
  }

  -- A word may change, but not in its low half.
  pub write_word-Turns :
      (slot w : ℕ)
      → slot < 2 ^ bits
      → w % 2 ^ 16 ≡ word s.queue slot % 2 ^ 16
      → Turns bits (write_word s slot w) version
  unfolding write_word
  write_word-Turns slot w small low = record {
    laid_out = record {
      bits_eq = inv.laid_out.bits_eq;
      bits_le = inv.laid_out.bits_le;
      capacity_eq = inv.laid_out.capacity_eq;
      futexes_len = length-set s.queue.futexes slot w ∙ inv.laid_out.futexes_len;
      values_len = inv.laid_out.values_len;
    };
    raw = λ x h. elim (ℕ_discrete slot x) [
      | yes e ↦
          rw (← e, get_or-set_self s.queue.futexes slot w 0 (rw inv.laid_out.futexes_len small))
            (low ∙ inv.raw slot small)
      | no ne ↦ rw (get_or-set_ne s.queue.futexes slot x w 0 ne) (inv.raw x h)
    ];
    fits = inv.fits;
    pushes_new = inv.pushes_new;
    pops_new = inv.pops_new;
  }

  -- Beyond the words and the places, only the sizes matter.
  pub same_shape-Turns :
      (values : List T)
      → length values ≡ length s.queue.values
      → (popped : ℕ → Option T)
      → Turns bits
          (record s { queue = record s.queue { values = values }; popped = popped })
          version
  same_shape-Turns values len popped = record {
    laid_out = record {
      bits_eq = inv.laid_out.bits_eq;
      bits_le = inv.laid_out.bits_le;
      capacity_eq = inv.laid_out.capacity_eq;
      futexes_len = inv.laid_out.futexes_len;
      values_len = len ∙ inv.laid_out.values_len;
    };
    raw = inv.raw;
    fits = inv.fits;
    pushes_new = inv.pushes_new;
    pops_new = inv.pops_new;
  }
