-- ===== src/BoundedQueue/Concurrent/Wakeups/Steps.antt =====
-- Every event of a schedule keeps every sleeper awaited.
use wizard.Prelude.{ℕ, ◌≡◌, inl, inr, refl, false, ◌||◌, arith, ◌==◌, ==_iff, Bool-cases}
use wizard.BoundedQueue.{
  Kind, push, pop, slot_id, expected_version, get_raw_version, is_tagged_version,
  make_tagged_version,
}
use wizard.BoundedQueue.Concurrent.{
  Pc, idle, begun, loaded, waiting, asleep, entered, called, waking, done, System, word, move_to,
  write_word, test_version, call_back, step_from, reload_from, cas_fails_from, start_push,
  start_pop,
}
use wizard.BoundedQueue.Concurrent.Turns.{Turns}
use wizard.BoundedQueue.Concurrent.{Event, begin_push, begin_pop, run, cas_fails, wakes_early, step}
use wizard.BoundedQueue.Concurrent.Wakeups.{NoneLost}
use wizard.BoundedQueue.Concurrent.Wakeups.Words.{
  sleeping, quiet-NoneLost, tag-NoneLost, futex_wait-NoneLost, publish-NoneLost, wake_all-NoneLost,
}

module _ {ℓ} {T : Type ℓ} {bits : ℕ} {s : System T} {version : ℕ → ℕ} (inv : Turns bits s version)
    (none_lost : NoneLost bits s) where
  -- The tag, and the operation on its way to the kernel.
  tagged-NoneLost :
      (k : Kind) (i c : ℕ)
      → s.pc k i ≡ loaded c
      → is_tagged_version c ≡ false
      → word s.queue (slot_id s.queue i) ≡ c
      → NoneLost bits (
          move_to
            (write_word s (slot_id s.queue i) (make_tagged_version c))
            k
            i
            (waiting (make_tagged_version c)))
  unfolding write_word
  tagged-NoneLost k i c e untagged held =
      quiet-NoneLost (tag-NoneLost inv none_lost k i c e untagged held) k i
        (waiting (make_tagged_version c)) (loaded c) e (λ q. cc (q)) refl

  test_version-NoneLost :
      (k : Kind) (i c : ℕ) → s.pc k i ≡ loaded c → NoneLost bits (test_version s k i c)
  unfolding test_version write_word
  test_version-NoneLost k i c e =
      let go = λ (p : Pc) (q : sleeping p ≡ false).
        quiet-NoneLost none_lost k i p (loaded c) e (λ h. cc (h)) q in
      elim (Bool-cases (get_raw_version c == expected_version s.queue k i)) [
        | inl y ↦ rw y (go entered refl)
        | inr n ↦ elim (Bool-cases (is_tagged_version c)) [
          | inl tagged ↦ rw (n, tagged) (go (waiting c) refl)
          | inr untagged ↦ elim (Bool-cases (word s.queue (slot_id s.queue i) == c)) [
            | inl hit ↦
                let slot = slot_id s.queue i in
                rw (n, untagged, hit) (tagged-NoneLost k i c e untagged ((==_iff _ c).0 hit))
            | inr miss ↦ rw (n, untagged, miss) (go begun refl)
          ]
        ]
      ]

  call_back-NoneLost :
      (moved : T → T) (k : Kind) (i : ℕ)
      → s.pc k i ≡ entered
      → NoneLost bits (call_back moved s k i)
  unfolding call_back move_to
  call_back-NoneLost moved push i e = record {
    awaited = (quiet-NoneLost none_lost push i called entered e (λ q. cc (q)) refl).awaited;
  }
  call_back-NoneLost moved pop i e = record {
    awaited = (quiet-NoneLost none_lost pop i called entered e (λ q. cc (q)) refl).awaited;
  }

  begin-NoneLost : (k : Kind) (i : ℕ) → s.pc k i ≡ idle → NoneLost bits (move_to s k i begun)
  begin-NoneLost k i e = quiet-NoneLost none_lost k i begun idle e (λ q. cc (q)) refl

  run-NoneLost :
      (moved : T → T) (k : Kind) (i : ℕ) (p : Pc)
      → s.pc k i ≡ p
      → NoneLost bits (step_from moved s k i p)
  unfolding step_from
  run-NoneLost moved k i idle e = none_lost
  run-NoneLost moved k i begun e = quiet-NoneLost none_lost k i _ begun e (λ h. cc (h)) refl
  run-NoneLost moved k i (loaded c) e = test_version-NoneLost k i c e
  run-NoneLost moved k i (waiting w) e = futex_wait-NoneLost inv none_lost k i w e
  run-NoneLost moved k i (asleep w) e = none_lost
  run-NoneLost moved k i entered e = call_back-NoneLost moved k i e
  run-NoneLost moved k i called e = publish-NoneLost inv none_lost k i e
  run-NoneLost moved k i waking e = wake_all-NoneLost inv none_lost k i
  run-NoneLost moved k i done e = none_lost

  reload-NoneLost : (k : Kind) (i : ℕ) (p : Pc) → s.pc k i ≡ p → NoneLost bits (reload_from s k i p)
  unfolding reload_from
  reload-NoneLost k i (asleep w) e =
      quiet-NoneLost none_lost k i begun (asleep w) e (λ h. cc (h)) refl
  reload-NoneLost k i idle e = none_lost
  reload-NoneLost k i p e = none_lost

  cas_fails-NoneLost :
      (k : Kind) (i : ℕ) (p : Pc) → s.pc k i ≡ p → NoneLost bits (cas_fails_from s k i p)
  unfolding cas_fails_from
  cas_fails-NoneLost k i (loaded c) e =
      elim (Bool-cases (get_raw_version c == expected_version s.queue k i || is_tagged_version c)) [
        | inl skip ↦ rw skip none_lost
        | inr fails ↦ rw fails (quiet-NoneLost none_lost k i begun (loaded c) e (λ h. cc (h)) refl)
      ]
  cas_fails-NoneLost k i idle e = none_lost
  cas_fails-NoneLost k i p e = none_lost

  -- Every event keeps the invariant.
  pub step-NoneLost : (moved : T → T) (e : Event T) → NoneLost bits (step moved s e)
  unfolding step start_push start_pop move_to
  step-NoneLost moved (begin_push v) =
      let i = s.queue.next_push_index in
      record { awaited = (begin-NoneLost push i (inv.pushes_new i (omega arith))).awaited }
  step-NoneLost moved begin_pop =
      let i = s.queue.next_pop_index in
      record { awaited = (begin-NoneLost pop i (inv.pops_new i (omega arith))).awaited }
  step-NoneLost moved (run k i) = run-NoneLost moved k i (s.pc k i) refl
  step-NoneLost moved (cas_fails k i) = cas_fails-NoneLost k i (s.pc k i) refl
  step-NoneLost moved (wakes_early k i) = reload-NoneLost k i (s.pc k i) refl
