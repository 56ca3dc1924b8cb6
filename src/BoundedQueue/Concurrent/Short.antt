-- ===== src/BoundedQueue/Concurrent/Short.antt =====
-- A schedule of fewer than 2^15 events stays within the limits, whatever it does.
use wizard.Prelude.{ℕ, suc, ◌+◌, ◌^◌, ◌≤◌, ◌<◌, ◌≢◌, arith, List, [], ◌∷◌, length, dec_lt}
use wizard.Prelude.Bits.{pow-pos}
use wizard.BoundedQueue.{Kind, push, pop, BoundedQueue, advance_version}
use wizard.BoundedQueue.Concurrent.{
  Pc, idle, loaded, asleep, entered, System, Event, begin_push, begin_pop, run, cas_fails,
  wakes_early, step, step_from, start, start_push, start_pop, move_to, write_word, test_version,
  futex_wait, call_back, publish, wake_all, reload_from, cas_fails_from,
}
use wizard.BoundedQueue.Concurrent.Turns.Wait.{WithinLimits}
use wizard.BoundedQueue.Concurrent.Results.{IsFresh, AllWithin, Sound, start-Sound, step-Sound}

module _ {ℓ} {T : Type ℓ} where
  -- Both indices are at most `n`.
  abbrev Below : ℕ → System T → Type 0
  Below n s = (s.queue.next_push_index ≤ n) × (s.queue.next_pop_index ≤ n)

  test_version-Below :
      (n : ℕ) (s : System T) (k : Kind) (i c : ℕ) → Below n s → Below n (test_version s k i c)
  unfolding test_version move_to write_word
  test_version-Below n s k i c h = ground arith

  call_back-Below :
      (n : ℕ) (moved : T → T) (s : System T) (k : Kind) (i : ℕ)
      → Below n s
      → Below n (call_back moved s k i)
  unfolding call_back move_to
  call_back-Below n moved s push i h = ground arith
  call_back-Below n moved s pop i h = ground arith

  run-Below :
      (n : ℕ) (moved : T → T) (s : System T) (k : Kind) (i : ℕ) (p : Pc)
      → Below n s
      → Below n (step_from moved s k i p)
  unfolding step_from move_to futex_wait publish advance_version wake_all
  run-Below n moved s k i (loaded c) h = test_version-Below n s k i c h
  run-Below n moved s k i entered h = call_back-Below n moved s k i h
  run-Below n moved s k i p h = h

  cas_fails-Below :
      (n : ℕ) (s : System T) (k : Kind) (i : ℕ) (p : Pc)
      → Below n s
      → Below n (cas_fails_from s k i p)
  unfolding cas_fails_from move_to
  cas_fails-Below n s k i (loaded c) h = ground arith
  cas_fails-Below n s k i p h = h

  reload-Below :
      (n : ℕ) (s : System T) (k : Kind) (i : ℕ) (p : Pc) → Below n s → Below n (reload_from s k i p)
  unfolding reload_from move_to
  reload-Below n s k i (asleep w) h = h
  reload-Below n s k i p h = h

  step-Below :
      (n : ℕ) (moved : T → T) (s : System T) (e : Event T)
      → Below n s
      → Below (suc n) (step moved s e)
  unfolding step start_push start_pop move_to
  step-Below n moved s (begin_push v) h = omega arith
  step-Below n moved s begin_pop h = omega arith
  step-Below n moved s (run k i) h = omega (arith, run-Below n moved s k i (s.pc k i) h)
  step-Below n moved s (cas_fails k i) h = omega (arith, cas_fails-Below n s k i (s.pc k i) h)
  step-Below n moved s (wakes_early k i) h = omega (arith, reload-Below n s k i (s.pc k i) h)

  started-lt :
      (n bits : ℕ) (s : System T)
      → Sound bits s
      → Below n s
      → (k : Kind) (i : ℕ) → s.pc k i ≢ idle
      → i < n
  started-lt n bits s sound h push i started = elim (dec_lt i n) [
    | yes p ↦ p
    | no p ↦ absurd (started (sound.turns.pushes_new i (omega arith)))
  ]
  started-lt n bits s sound h pop i started = elim (dec_lt i n) [
    | yes p ↦ p
    | no p ↦ absurd (started (sound.turns.pops_new i (omega arith)))
  ]

  few-WithinLimits :
      (n bits : ℕ) (s : System T) → Sound bits s → Below n s → n < 2 ^ 15 → WithinLimits s
  few-WithinLimits n bits s sound h few = record {
    not_overtaken = λ k i j started e. absurd (
        grind (
          arith,
          started-lt n bits s sound h k i started,
          sound.turns.laid_out.capacity_eq,
          pow-pos bits,
        ));
    pushes_fit = omega arith;
    pops_fit = omega arith;
  }

  few-AllWithin :
      (n bits : ℕ) (moved : T → T) (s : System T) (es : List (Event T))
      → Sound bits s
      → Below n s
      → n + length es < 2 ^ 15
      → AllWithin moved s es
  few-AllWithin n bits moved s [] sound h few = tt
  few-AllWithin n bits moved s (e ∷ es) sound h few =
      let within = few-WithinLimits n bits s sound h (omega arith) in
      (
        within,
        few-AllWithin (suc n) bits moved (step moved s e) es
            (step-Sound moved bits s e sound within) (step-Below n moved s e h) (omega arith),
      )

  start-Below : (bits : ℕ) (q : BoundedQueue T) → IsFresh bits q → Below 0 (start q)
  unfolding start
  start-Below bits q f = omega arith

  -- Every state of a schedule of fewer than 2^15 events of a fresh queue is within the limits.
  pub short-AllWithin :
      (moved : T → T) (bits : ℕ) (q : BoundedQueue T) (es : List (Event T))
      → IsFresh bits q
      → length es < 2 ^ 15
      → AllWithin moved (start q) es
  short-AllWithin moved bits q es fresh few =
      few-AllWithin 0 bits moved (start q) es (start-Sound bits q fresh) (start-Below bits q fresh)
        (omega arith)
