-- ===== src/BoundedQueue/Concurrent/Delivery/Finish.antt =====
-- The exchange, the wake-up and the start of an operation keep the delivery invariant.
use wizard.Prelude.{
  ℕ, suc, ◌≤◌, ◌≡◌, ◌≢◌, inl, inr, refl, sym, ◌∙◌, ap, Bool, true, false, arith, Option, some, ◌==◌,
  ℕ_discrete,
}
use wizard.Prelude.Functions.{assign_at}
use wizard.BoundedQueue.{Kind, push, pop, slot_id, advance_version}
use wizard.BoundedQueue.Concurrent.{
  Pc, idle, begun, asleep, called, waking, done, System, assign, move_to, publish, awake, wake_all,
  start_push, start_pop,
}
use wizard.BoundedQueue.Concurrent.Order.{turn, place, same_operation}
use wizard.BoundedQueue.Concurrent.Turns.{finished, Fits, Turns}
use wizard.BoundedQueue.Concurrent.Turns.Moves.{Same, assign-cases, Fits-at}
use wizard.BoundedQueue.Concurrent.Turns.Finish.{
  end_turn, end_turn_self, end_turn_other, leave, leave-finished,
}
use wizard.BoundedQueue.Concurrent.Delivery.{Holds, cell, Delivers}
use wizard.BoundedQueue.Concurrent.Delivery.Writes.{move_to-Delivers, Holds-quiet, Holds-pop, quiet}
use wizard.BoundedQueue.Concurrent.Delivery.Callback.{turn_pop}

Holds-finished {ℓ} :
    {T : Type ℓ} (c g t : Option T) (k : Kind) (p : Pc)
    → finished p ≡ true
    → Holds c g t k called
    → Holds c g t k p
Holds-finished c g t push waking over h = tt
Holds-finished c g t push done over h = tt
Holds-finished c g t pop waking over h = h
Holds-finished c g t pop done over h = h
Holds-finished c g t k p over h = cc

Fits-loud : (v t : ℕ) (p : Pc) → quiet p ≡ false → Fits v t p → t ≤ v
Fits-loud v t called loud h = omega arith
Fits-loud v t waking loud h = omega arith
Fits-loud v t done loud h = omega arith
Fits-loud v t p loud h = cc

Holds-done {ℓ} :
    {T : Type ℓ} (c g t : Option T) (k : Kind) → Holds c g t k waking → Holds c g t k done
Holds-done c g t push h = tt
Holds-done c g t pop h = h

Holds-awake {ℓ} :
    {T : Type ℓ} (c g t : Option T) (k : Kind) (b : Bool) (p : Pc)
    → Holds c g t k p
    → Holds c g t k (awake b p)
unfolding awake
Holds-awake c g t push true (asleep w) h = tt
Holds-awake c g t pop true (asleep w) h = tt
Holds-awake c g t k b p h = h

awake-eq : (b : Bool) (p q : Pc) → p ≡ q → ((w : ℕ) → q ≢ asleep w) → awake b p ≡ q
unfolding awake
awake-eq true (asleep w) q e ne = absurd (ne w (sym e))
awake-eq b p q e ne = e

module _ {ℓ} {T : Type ℓ} {bits : ℕ} {s : System T} {version : ℕ → ℕ} (inv : Turns bits s version)
    (del : Delivers bits s version) where
  publish-full :
      (k : Kind) (i : ℕ)
      → s.pc k i ≡ called
      → (j : ℕ) → end_turn version (place bits i) (place bits j) ≡ suc (turn bits push j)
      → assign s.pc k i (leave inv k i) pop j ≢ called
      → cell bits s j ≡ s.pushed j
  publish-full k i e j h n = elim (ℕ_discrete (place bits i) (place bits j)) [
    | yes p ↦
        let v : version (place bits j) ≡ turn bits push j =
          omega (arith, end_turn_self version (place bits i) (place bits j) p) in
        let same = same_operation bits k push i j p (sym (Fits-at inv k i e) ∙ ap version p ∙ v) in
        let at_called : s.pc push j ≡ called = rw (same.0, same.1) at e in
        rw at_called at (del.holds push j)
    | no ne ↦ del.full j (sym (end_turn_other version (place bits i) (place bits j) ne) ∙ h) (λ q.
        elim (assign-cases s.pc k i (leave inv k i) pop j) [
          | inl (same, e') ↦ ne (ap (place bits) same.1)
          | inr (other, e') ↦ n (e' ∙ q)
        ])
  ]

  pub publish-Delivers :
      (k : Kind) (i : ℕ)
      → s.pc k i ≡ called
      → Delivers bits (publish s k i) (end_turn version (place bits i))
  unfolding publish move_to advance_version
  publish-Delivers k i e = record {
    full = publish-full k i e;
    holds = λ l j. elim (assign-cases s.pc k i (leave inv k i) l j) [
      | inl (same, e') ↦
          rw (e', ← same.0, ← same.1)
            (Holds-finished _ _ _ k (leave inv k i) (leave-finished inv k i)
              (rw e at (del.holds k i)))
      | inr (other, e') ↦ rw e' (del.holds l j)
    ];
    given = λ j h. del.given j (elim (assign-cases s.pc k i (leave inv k i) push j) [
      | inl (same, e') ↦ λ q. cc (e, rw (← same.0, ← same.1) at q)
      | inr (other, e') ↦ λ q. h (e' ∙ q)
    ]);
  }

  wake-Delivers :
      (slot : ℕ)
      → Delivers bits
          (record s { pc = λ k i. awake (slot_id s.queue i == slot) (s.pc k i) })
          version
  wake-Delivers slot = record {
    full = λ j h n.
        del.full j h (λ q. n (awake-eq (slot_id s.queue j == slot) _ called q (λ w q'. cc (q'))));
    holds = λ k i. Holds-awake _ _ _ k (slot_id s.queue i == slot) (s.pc k i) (del.holds k i);
    given = λ j h.
        del.given j (λ q. h (awake-eq (slot_id s.queue j == slot) _ idle q (λ w q'. cc (q'))));
  }

  pub wake_all-Delivers :
      (k : Kind) (i : ℕ) → s.pc k i ≡ waking → Delivers bits (wake_all s k i) version
  unfolding wake_all
  wake_all-Delivers k i e =
      let b = slot_id s.queue i == slot_id s.queue i in
      let e' : awake b (s.pc k i) ≡ waking = awake-eq b (s.pc k i) waking e (λ w q. cc (q)) in
      move_to-Delivers (wake-Delivers (slot_id s.queue i)) k i done (λ q. cc (e', q))
        (λ q. cc (e', q)) (Holds-done _ _ _ k (rw e at (del.holds k i)))

  given_at : (v : T) (i j : ℕ) → ¬ (i ≡ j) → assign_at s.pushed i (some v) j ≡ s.pushed j
  unfolding assign_at
  given_at v i j ne = ground arith

  given_self : (v : T) (i : ℕ) → assign_at s.pushed i (some v) i ≡ some v
  unfolding assign_at
  given_self v i = ground arith

  -- The place of another operation when one begins.
  begin_other :
      (k : Kind) (i : ℕ) (l : Kind) (j : ℕ) → ¬ Same k i l j → assign s.pc k i begun l j ≡ s.pc l j
  begin_other k i l j other = elim (assign-cases s.pc k i begun l j) [
    | inl (same, e') ↦ absurd (other same)
    | inr (_, e') ↦ e'
  ]

  -- Nothing has been taken at an index at which nothing has been given.
  taken_after : (j : ℕ) → quiet (s.pc pop j) ≡ false → version (place bits j) ≤ turn bits push j → ⊥
  taken_after j loud early =
      omega (arith, turn_pop bits j, Fits-loud _ _ (s.pc pop j) loud (inv.fits pop j))

  begin-Holds :
      (v : T) (i : ℕ)
      → version (place bits i) ≤ turn bits push i
      → (l : Kind) (j : ℕ) → ¬ Same push i l j
      → Holds (cell bits s j) (assign_at s.pushed i (some v) j) (s.popped j) l (s.pc l j)
  begin-Holds v i early push j other = rw (given_at v i j (λ q. other (refl, q))) (del.holds push j)
  begin-Holds v i early pop j other =
      Holds-pop (cell bits s j) (cell bits s j) (s.pushed j) _ _ _ (s.pc pop j)
        (λ loud. (sym (given_at v i j (λ q. taken_after j loud (rw (← q) early))), refl))
        (del.holds pop j)

  -- The push that begins has an index at which nothing was given or taken before.
  pub start_push-Delivers : (v : T) → Delivers bits (start_push s v) version
  unfolding start_push move_to
  start_push-Delivers v =
      let i = s.queue.next_push_index in
      let early : version (place bits i) ≤ turn bits push i =
        Fits-at inv push i (inv.pushes_new i (omega arith)) in
      record {
        full = λ j h n. elim (ℕ_discrete i j) [
          | yes p ↦
              absurd (omega (arith, early, ap version (ap (place bits) p), ap (turn bits push) p))
          | no ne ↦
              rw (given_at v i j ne)
                (del.full j h (λ q. n (begin_other push i pop j (λ same. cc (same.0)) ∙ q)))
        ];
        holds = λ l j. elim (assign-cases s.pc push i begun l j) [
          | inl (same, e') ↦ rw e' (Holds-quiet _ _ _ l begun refl)
          | inr (other, e') ↦ rw e' (begin-Holds v i early l j other)
        ];
        given = λ j h. elim (ℕ_discrete i j) [
          | yes p ↦ λ q. cc (given_self v i, rw (← p) at q)
          | no ne ↦ λ q.
              del.given j (λ q'. h (begin_other push i push j (λ same. ne same.1) ∙ q'))
                (sym (given_at v i j ne) ∙ q)
        ];
      }

  pub start_pop-Delivers : Delivers bits (start_pop s) version
  unfolding start_pop move_to
  start_pop-Delivers =
      let i = s.queue.next_pop_index in
      record {
        full = λ j h n. elim (assign-cases s.pc pop i begun pop j) [
          | inl (same, e') ↦
              del.full j h (λ q. cc (inv.pops_new i (omega arith), rw (← same.1) at q))
          | inr (other, e') ↦ del.full j h (λ q. n (e' ∙ q))
        ];
        holds = λ l j. elim (assign-cases s.pc pop i begun l j) [
          | inl (same, e') ↦ rw e' (Holds-quiet _ _ _ l begun refl)
          | inr (other, e') ↦ rw e' (del.holds l j)
        ];
        given = λ j h. del.given j (λ q. h (begin_other pop i push j (λ same. cc (same.0)) ∙ q));
      }
