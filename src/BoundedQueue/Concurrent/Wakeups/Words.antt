-- ===== src/BoundedQueue/Concurrent/Wakeups/Words.antt =====
-- The steps that touch a word or wake sleepers keep every sleeper awaited.
use wizard.Prelude.{
  ℕ, ◌<◌, ◌≡◌, ◌≢◌, inl, inr, refl, sym, ◌∙◌, ap, Bool, true, false, arith, get_or-set_ne, ◌==◌,
  ==_iff, if◌then◌else◌, ℕ_discrete, Bool-cases,
}
use wizard.BoundedQueue.{
  Kind, push, pop, slot_id, is_tagged_version, make_tagged_version, advance_version,
}
use wizard.BoundedQueue.Concurrent.{
  Pc, idle, begun, loaded, waiting, asleep, called, waking, done, System, word, assign, move_to,
  write_word, futex_wait, publish, awake, wake_all,
}
use wizard.BoundedQueue.Concurrent.Order.{place}
use wizard.BoundedQueue.Concurrent.Turns.{Turns}
use wizard.BoundedQueue.Concurrent.Turns.Moves.{assign-cases, slot_eq, Fits-at}
use wizard.BoundedQueue.Concurrent.Turns.Finish.{leave}
use wizard.BoundedQueue.Concurrent.Wakeups.{Waker, Awaited, NoneLost}

abbrev pub sleeping : Pc → Bool
sleeping (asleep w) = true
sleeping _ = false

assign_self {ℓ} :
    {A : Type ℓ} (f : Kind → ℕ → A) (k : Kind) (i : ℕ) (a : A) → assign f k i a k i ≡ a
unfolding assign
assign_self f push i a = ground arith
assign_self f pop i a = ground arith

-- Who does not sleep needs nobody.
Awaited-awake {ℓ} :
    {T : Type ℓ} (bits : ℕ) (s : System T) (slot : ℕ) (p : Pc)
    → sleeping p ≡ false
    → Awaited bits s slot p
Awaited-awake bits s slot (asleep w) h = cc
Awaited-awake bits s slot idle h = tt
Awaited-awake bits s slot p h = tt

leaving-awake : (b : Bool) → sleeping (if b then waking else done) ≡ false
leaving-awake true = refl
leaving-awake false = refl

awake-waking : (b : Bool) (p : Pc) → p ≡ waking → awake b p ≡ waking
unfolding awake
awake-waking b p e = rw e (ground arith)

module _ {ℓ} {T : Type ℓ} {bits : ℕ} {s : System T} (none_lost : NoneLost bits s) where
  Waker-move :
      (k : Kind) (i : ℕ) (p : Pc) (slot : ℕ)
      → s.pc k i ≢ waking
      → Waker bits s slot
      → Waker bits (move_to s k i p) slot
  unfolding move_to
  Waker-move k i p slot ne (l, j, at, e) = (
    l,
    j,
    at,
    (elim (assign-cases s.pc k i p l j) [
      | inl (same, e') ↦ absurd (ne (rw (same.0, same.1) e))
      | inr (_, e') ↦ e' ∙ e
    ]),
  )

  Awaited-move :
      (k : Kind) (i : ℕ) (p q : Pc) (slot : ℕ)
      → s.pc k i ≢ waking
      → Awaited bits s slot q
      → Awaited bits (move_to s k i p) slot q
  unfolding move_to
  Awaited-move k i p (asleep w) slot ne (inl held) = inl held
  Awaited-move k i p (asleep w) slot ne (inr waker) = inr (Waker-move k i p slot ne waker)
  Awaited-move k i p q slot ne a = tt

  move_to-NoneLost :
      (k : Kind) (i : ℕ) (p : Pc)
      → s.pc k i ≢ waking
      → Awaited bits s (place bits i) p
      → NoneLost bits (move_to s k i p)
  unfolding move_to
  move_to-NoneLost k i p ne ok = record {
    awaited = λ l j. elim (assign-cases s.pc k i p l j) [
      | inl (same, e') ↦ rw (e', ← same.1) (Awaited-move k i p p (place bits i) ne ok)
      | inr (_, e') ↦
          rw e' (Awaited-move k i p (s.pc l j) (place bits j) ne (none_lost.awaited l j))
    ];
  }

  -- A step that neither puts the operation to sleep nor ends its wake-up.
  pub quiet-NoneLost :
      (k : Kind) (i : ℕ) (p p' : Pc)
      → s.pc k i ≡ p'
      → p' ≢ waking
      → sleeping p ≡ false
      → NoneLost bits (move_to s k i p)
  quiet-NoneLost k i p p' e ne awake_after =
      move_to-NoneLost k i p (λ h. ne (sym e ∙ h))
        (Awaited-awake bits s (place bits i) p awake_after)

module _ {ℓ} {T : Type ℓ} {bits : ℕ} {s : System T} {version : ℕ → ℕ} (inv : Turns bits s version)
    (none_lost : NoneLost bits s) where
  pub futex_wait-NoneLost :
      (k : Kind) (i w : ℕ) → s.pc k i ≡ waiting w → NoneLost bits (futex_wait s k i w)
  unfolding futex_wait
  futex_wait-NoneLost k i w e = elim (Bool-cases (word s.queue (slot_id s.queue i) == w)) [
    | inl held ↦ rw held (
        move_to-NoneLost none_lost k i (asleep w) (λ q. cc (e, q))
          (inl (rw (slot_eq inv) at ((==_iff _ w).0 held))))
    | inr changed ↦ rw changed (quiet-NoneLost none_lost k i begun (waiting w) e (λ q. cc (q)) refl)
  ]

  -- The tag goes onto an untagged word, on which nobody sleeps.
  tag-Awaited :
      (slot c w : ℕ) (l : Kind) (j : ℕ) (p : Pc)
      → s.pc l j ≡ p
      → is_tagged_version c ≡ false
      → word s.queue slot ≡ c
      → Awaited bits s (place bits j) p
      → Awaited bits (write_word s slot w) (place bits j) p
  unfolding write_word is_tagged_version
  tag-Awaited slot c w l j (asleep v) e untagged held (inl same) =
      inl (elim (ℕ_discrete slot (place bits j)) [
        | yes p ↦ absurd (ground (arith, Fits-at inv l j e, rw p at held))
        | no ne ↦ rw (get_or-set_ne s.queue.futexes slot (place bits j) w 0 ne) same
      ])
  tag-Awaited slot c w l j (asleep v) e untagged held (inr waker) = inr waker
  tag-Awaited slot c w l j p e untagged held a = tt

  pub tag-NoneLost :
      (k : Kind) (i c : ℕ)
      → s.pc k i ≡ loaded c
      → is_tagged_version c ≡ false
      → word s.queue (slot_id s.queue i) ≡ c
      → NoneLost bits (write_word s (slot_id s.queue i) (make_tagged_version c))
  unfolding write_word
  tag-NoneLost k i c e untagged held = record {
    awaited = λ l j.
        tag-Awaited (slot_id s.queue i) c (make_tagged_version c) l j (s.pc l j) refl untagged held
          (none_lost.awaited l j);
  }

  -- The exchange takes the value away from those who sleep on the slot, and then owes them a
  -- wake-up: the word that it read was tagged.
  owes : (k : Kind) (i w : ℕ) → 65535 < w → word s.queue (place bits i) ≡ w → leave inv k i ≡ waking
  unfolding is_tagged_version
  owes k i w tagged held = rw (slot_eq inv, held) (ground arith)

  publish-Waker :
      (k : Kind) (i slot : ℕ)
      → s.pc k i ≡ called
      → Waker bits s slot
      → Waker bits (publish s k i) slot
  unfolding publish move_to
  publish-Waker k i slot e (l, j, at, e') = (
    l,
    j,
    at,
    (elim (assign-cases s.pc k i (leave inv k i) l j) [
      | inl (same, _) ↦ cc (e, e', rw (← same.0, ← same.1) at e')
      | inr (_, kept) ↦ kept ∙ e'
    ]),
  )

  publish-Awaited :
      (k : Kind) (i : ℕ) (l : Kind) (j : ℕ) (p : Pc)
      → s.pc k i ≡ called
      → s.pc l j ≡ p
      → Awaited bits s (place bits j) p
      → Awaited bits (publish s k i) (place bits j) p
  unfolding publish move_to advance_version
  publish-Awaited k i l j (asleep w) e at (inl held) =
      elim (ℕ_discrete (place bits i) (place bits j)) [
        | yes p ↦ inr (
          k,
          i,
          p,
          assign_self s.pc k i (leave inv k i) ∙ owes k i w (Fits-at inv l j at).1 (rw p held),
        )
        | no ne ↦ inl (
            rw (slot_eq inv)
              (get_or-set_ne s.queue.futexes (place bits i) (place bits j) _ 0 ne ∙ held))
      ]
  publish-Awaited k i l j (asleep w) e at (inr waker) =
      inr (publish-Waker k i (place bits j) e waker)
  publish-Awaited k i l j p e at a = tt

  pub publish-NoneLost : (k : Kind) (i : ℕ) → s.pc k i ≡ called → NoneLost bits (publish s k i)
  unfolding publish move_to advance_version
  publish-NoneLost k i e = record {
    awaited = λ l j. elim (assign-cases s.pc k i (leave inv k i) l j) [
      | inl (same, e') ↦ rw e' (
          Awaited-awake bits (publish s k i) (place bits j) (leave inv k i)
            (leaving-awake (is_tagged_version (word s.queue (slot_id s.queue i)))))
      | inr (_, e') ↦ rw e' (publish-Awaited k i l j (s.pc l j) e refl (none_lost.awaited l j))
    ];
  }

  abbrev woken : ℕ → Kind → ℕ → Pc
  woken i k j = awake (slot_id s.queue j == slot_id s.queue i) (s.pc k j)

  wake-Waker :
      (k : Kind) (i slot : ℕ)
      → place bits i ≢ slot
      → Waker bits s slot
      → Waker bits (wake_all s k i) slot
  unfolding wake_all move_to
  wake-Waker k i slot ne (l, j, at, e) = (
    l,
    j,
    at,
    (elim (assign-cases (woken i) k i done l j) [
      | inl (same, _) ↦ absurd (ne (ap (place bits) same.1 ∙ at))
      | inr (_, kept) ↦ kept ∙ awake-waking (slot_id s.queue j == slot_id s.queue i) (s.pc l j) e
    ]),
  )

  wake-Awaited :
      (k : Kind) (i j : ℕ) (p : Pc)
      → Awaited bits s (place bits j) p
      → Awaited bits
          (wake_all s k i)
          (place bits j)
          (awake (slot_id s.queue j == slot_id s.queue i) p)
  unfolding wake_all move_to awake
  wake-Awaited k i j (asleep w) a = elim (Bool-cases (slot_id s.queue j == slot_id s.queue i)) [
    | inl here ↦ rw here tt
    | inr elsewhere ↦ rw elsewhere (elim a [
      | inl held ↦ inl held
      | inr waker ↦
          inr (
            wake-Waker k i (place bits j) (λ p. ground (arith, slot_eq inv i, slot_eq inv j)) waker)
    ])
  ]
  wake-Awaited k i j p a = elim (Bool-cases (slot_id s.queue j == slot_id s.queue i)) [
    | inl here ↦ rw here tt
    | inr elsewhere ↦ rw elsewhere tt
  ]

  pub wake_all-NoneLost : (k : Kind) (i : ℕ) → NoneLost bits (wake_all s k i)
  unfolding wake_all move_to
  wake_all-NoneLost k i = record {
    awaited = λ l j. elim (assign-cases (woken i) k i done l j) [
      | inl (same, e') ↦ rw e' tt
      | inr (_, e') ↦ rw e' (wake-Awaited k i j (s.pc l j) (none_lost.awaited l j))
    ];
  }
