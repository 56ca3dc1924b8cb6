-- ===== src/BoundedQueue/Concurrent/Results.antt =====
-- What any schedule of pushes and pops may rely on.
use native.Mathlib.Nat.{add-div_right, add-mod_right}
use wizard.Prelude.Bits.{pow-pos}
use wizard.Prelude.{
  ℕ, suc, ◌+◌, ◌^◌, ◌<◌, ◌≡◌, ◌≢◌, inl, inr, refl, sym, ◌∙◌, ap, Bool, true, false, arith, List, [],
  ◌∷◌, Option, none,
}
use wizard.BoundedQueue.{Kind, push, pop, BoundedQueue, expected_version, slot_id, get_raw_version}
use wizard.BoundedQueue.Concurrent.{
  Pc, idle, begun, loaded, waiting, asleep, entered, called, waking, done, System, Event, word,
  step, start, exec,
}
use wizard.BoundedQueue.Concurrent.Order.{turn, place, expected-eq-turn, IsLaidOut, same_operation}
use wizard.BoundedQueue.Concurrent.Turns.{finished, Fits, Turns}
use wizard.BoundedQueue.Concurrent.Turns.Moves.{Fits-at, slot_eq}
use wizard.BoundedQueue.Concurrent.Turns.Wait.{WithinLimits}
use wizard.BoundedQueue.Concurrent.Turns.Steps.{after, step-Turns}
use wizard.BoundedQueue.Concurrent.Delivery.{Holds, cell, Delivers}
use wizard.BoundedQueue.Concurrent.Delivery.Writes.{Holds-quiet}
use wizard.BoundedQueue.Concurrent.Delivery.Callback.{turn_pop}
use wizard.BoundedQueue.Concurrent.Delivery.Steps.{step-Delivers}
use wizard.BoundedQueue.Concurrent.Wakeups.{NoneLost}
use wizard.BoundedQueue.Concurrent.Wakeups.Steps.{step-NoneLost}

-- A queue as `reserve_and_clear` leaves it when it makes new slots.
pub record IsFresh {ℓ} {T : Type ℓ} (bits : ℕ) (q : BoundedQueue T) : Type ℓ where
  pub laid_out : IsLaidOut bits q
  pub untouched : (slot : ℕ) → word q slot ≡ 0
  pub no_push : q.next_push_index ≡ 0
  pub no_pop : q.next_pop_index ≡ 0

module _ {ℓ} {T : Type ℓ} where
  -- Every state from which the schedule goes on is within the limits.
  abbrev pub AllWithin : (T → T) → System T → List (Event T) → Type 0
  AllWithin moved s [] = Unit
  AllWithin moved s (e ∷ es) = WithinLimits s × AllWithin moved (step moved s e) es

  -- The three invariants, at some count of the turns.
  pub record Sound (bits : ℕ) (s : System T) : Type ℓ where
    pub version : ℕ → ℕ
    pub turns : Turns bits s version
    pub delivers : Delivers bits s version
    pub none_lost : NoneLost bits s

  pub start-Sound : (bits : ℕ) (q : BoundedQueue T) → IsFresh bits q → Sound bits (start q)
  unfolding start
  start-Sound bits q f = record {
    version = λ _. 0;
    turns = record {
      laid_out = f.laid_out;
      raw = λ slot h. rw (f.untouched slot) refl;
      fits = λ k i. omega arith;
      pushes_new = λ i h. refl;
      pops_new = λ i h. refl;
    };
    delivers = record {
      full = λ i h n. absurd (omega arith);
      holds = λ k i. Holds-quiet _ _ _ k idle refl;
      given = λ i h. absurd (h refl);
    };
    none_lost = record { awaited = λ k i. tt };
  }

  pub step-Sound :
      (moved : T → T) (bits : ℕ) (s : System T) (e : Event T)
      → Sound bits s
      → WithinLimits s
      → Sound bits (step moved s e)
  step-Sound moved bits s e sound within = record {
    version = after bits sound.version s e;
    turns = step-Turns sound.turns moved e within;
    delivers = step-Delivers sound.turns sound.delivers moved e;
    none_lost = step-NoneLost sound.turns sound.none_lost moved e;
  }

  exec-Sound :
      (moved : T → T) (bits : ℕ) (s : System T) (es : List (Event T))
      → Sound bits s
      → AllWithin moved s es
      → Sound bits (exec moved s es)
  unfolding exec
  exec-Sound moved bits s [] sound within = sound
  exec-Sound moved bits s (e ∷ es) sound within =
      exec-Sound moved bits (step moved s e) es (step-Sound moved bits s e sound within.0) within.1

-- Between the test of `process` and the exchange.
abbrev pub inside : Pc → Bool
inside entered = true
inside called = true
inside _ = false

Fits-inside : (v t : ℕ) (p : Pc) → inside p ≡ true → Fits v t p → v ≡ t
Fits-inside v t entered h f = f
Fits-inside v t called h f = f
Fits-inside v t p h f = cc

Fits-past : (v t : ℕ) (p : Pc) → Fits v t p → t < v → finished p ≡ true
Fits-past v t waking f h = refl
Fits-past v t done f h = refl
Fits-past v t idle f h = absurd (omega arith)
Fits-past v t begun f h = absurd (omega arith)
Fits-past v t (loaded c) f h = absurd (omega arith)
Fits-past v t (waiting w) f h = absurd (omega arith)
Fits-past v t (asleep w) f h = absurd (omega arith)
Fits-past v t entered f h = absurd (omega arith)
Fits-past v t called f h = absurd (omega arith)

finished-past : (v t : ℕ) (p : Pc) → finished p ≡ true → Fits v t p → t < v
finished-past v t waking h f = f
finished-past v t done h f = f
finished-past v t p h f = cc

Holds-popped {ℓ} :
    {T : Type ℓ} (c g t : Option T) (p : Pc) → finished p ≡ true → Holds c g t pop p → t ≡ g
Holds-popped c g t waking h e = e
Holds-popped c g t done h e = e
Holds-popped c g t p h e = cc

finished-started : (p : Pc) → finished p ≡ true → p ≢ idle
finished-started p h e = ground arith

next_turn : (bits i : ℕ) → turn bits push (i + 2 ^ bits) ≡ suc (turn bits pop i)
unfolding turn
next_turn bits i = omega (arith, add-div_right i {k = 2 ^ bits} (pow-pos bits))

next_place : (bits i : ℕ) → place bits (i + 2 ^ bits) ≡ place bits i
unfolding place
next_place bits i = add-mod_right i (2 ^ bits)

module _ {ℓ} {T : Type ℓ} (moved : T → T) (bits : ℕ) (q : BoundedQueue T) (es : List (Event T))
    (fresh : IsFresh bits q) (within : AllWithin moved (start q) es) where
  abbrev end : System T
  end = exec moved (start q) es

  sound : Sound bits end
  sound = exec-Sound moved bits (start q) es (start-Sound bits q fresh) within

  -- In every schedule of a fresh queue whose states are within the limits: two operations between
  -- the version test and the exchange on one slot are the same operation.
  pub exclusive :
      let s = exec moved (start q) es in
      (k l : Kind) (i j : ℕ)
      → inside (s.pc k i) ≡ true
      → inside (s.pc l j) ≡ true
      → slot_id s.queue i ≡ slot_id s.queue j
      → (k ≡ l) × (i ≡ j)
  exclusive k l i j hi hj same_slot =
      let inv = sound.turns in
      let p : place bits i ≡ place bits j = sym (slot_eq inv i) ∙ same_slot ∙ slot_eq inv j in
      same_operation bits k l i j p (
        sym (Fits-inside _ _ _ hi (inv.fits k i))
        ∙ ap sound.version p
        ∙ Fits-inside _ _ _ hj (inv.fits l j))

  -- In every schedule of a fresh queue whose states are within the limits: a finished pop has the
  -- value that the push with the same index was given, and that push is finished.
  pub pop-push :
      let s = exec moved (start q) es in
      (i : ℕ)
      → finished (s.pc pop i) ≡ true
      → (finished (s.pc push i) ≡ true) × (s.popped i ≡ s.pushed i) × (s.pushed i ≢ none)
  pop-push i over =
      let inv = sound.turns in
      let past = finished-past _ _ _ over (inv.fits pop i) in
      let pushed_over = Fits-past _ _ _ (inv.fits push i) (omega (arith, past, turn_pop bits i)) in
      (
        pushed_over,
        Holds-popped (cell bits end i) _ _ _ over (sound.delivers.holds pop i),
        sound.delivers.given i (finished-started _ pushed_over),
      )

  -- In every schedule of a fresh queue whose states are within the limits: a finished push one
  -- capacity after a pop index shows that this pop is finished, so no value is overwritten before
  -- it is taken.
  pub no_overwrite :
      let s = exec moved (start q) es in
      (i : ℕ) → finished (s.pc push (i + s.queue.capacity)) ≡ true → finished (s.pc pop i) ≡ true
  no_overwrite i over =
      let inv = sound.turns in
      let over' : finished (end.pc push (i + 2 ^ bits)) ≡ true =
        rw inv.laid_out.capacity_eq at over in
      let past = finished-past _ _ _ over' (inv.fits push (i + 2 ^ bits)) in
      Fits-past _ _ _ (inv.fits pop i)
        (omega (arith, past, next_turn bits i, ap sound.version (next_place bits i)))

  -- In every schedule of a fresh queue whose states are within the limits: an operation that sleeps
  -- although the version of its slot is the one that it waits for has a waker, an operation on the
  -- slot that stands before its FUTEX_WAKE.
  pub no_lost_wakeup :
      let s = exec moved (start q) es in
      (k : Kind) (i w : ℕ)
      → s.pc k i ≡ asleep w
      → get_raw_version (word s.queue (slot_id s.queue i)) ≡ expected_version s.queue k i
      → (l : Kind) × (j : ℕ) × (slot_id s.queue j ≡ slot_id s.queue i) × (s.pc l j ≡ waking)
  unfolding get_raw_version
  no_lost_wakeup k i w e turn_came =
      let inv = sound.turns in
      elim (rw e at (sound.none_lost.awaited k i)) [
        | inl held ↦ absurd (
            (Fits-at inv k i e).2 (
              omega (
                arith,
                turn_came,
                expected-eq-turn inv.laid_out k i,
                held,
                ap (word end.queue) (slot_eq inv i),
              )))
        | inr (l, j, at, e') ↦ (l, j, slot_eq inv j ∙ at ∙ sym (slot_eq inv i), e')
      ]
