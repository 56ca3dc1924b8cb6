-- ===== src/BoundedQueue/Concurrent/Turns/Steps.antt =====
-- Every event of a schedule keeps the invariant of the turns.
use wizard.Prelude.{ℕ, ◌≡◌, inl, inr, refl, ◌∙◌, ◌||◌, arith, ◌==◌, Bool-cases}
use wizard.BoundedQueue.{
  Kind, push, pop, slot_id, expected_version, get_raw_version, is_tagged_version,
}
use wizard.BoundedQueue.Concurrent.{
  Pc, idle, begun, loaded, waiting, asleep, entered, called, waking, done, System, assign, move_to,
  wake_all, step_from, reload_from, cas_fails_from, start_push, start_pop,
}
use wizard.BoundedQueue.Concurrent.Order.{turn, place}
use wizard.BoundedQueue.Concurrent.Turns.{Fits, Turns}
use wizard.BoundedQueue.Concurrent.Turns.Moves.{
  Same, assign-cases, move_to-Turns, not_idle, Fits-at,
}
use wizard.BoundedQueue.Concurrent.{Event, begin_push, begin_pop, run, cas_fails, wakes_early, step}
use wizard.BoundedQueue.Concurrent.Turns.Wait.{
  WithinLimits, load-Turns, test_version-Turns, futex_wait-Turns,
}
use wizard.BoundedQueue.Concurrent.Turns.Finish.{
  end_turn, call_back-Turns, publish-Turns, wake-Turns, awake_waking,
}

-- The versions after an event: only an exchange changes them.
unfoldable pub after_from : (ℕ → ℕ) → ℕ → Pc → ℕ → ℕ
after_from version slot called = end_turn version slot
after_from version slot _ = version

module _ {ℓ} {T : Type ℓ} where
  unfoldable pub after : ℕ → (ℕ → ℕ) → System T → Event T → ℕ → ℕ
  after bits version s (run k i) = after_from version (place bits i) (s.pc k i)
  after bits version s _ = version

module _ {ℓ} {T : Type ℓ} {bits : ℕ} {s : System T} {version : ℕ → ℕ}
    (inv : Turns bits s version) where
  wake_all-Turns : (k : Kind) (i : ℕ) → s.pc k i ≡ waking → Turns bits (wake_all s k i) version
  unfolding wake_all
  wake_all-Turns k i e =
      let now = Fits-at inv k i e in
      move_to-Turns (wake-Turns inv (slot_id s.queue i)) k i done
        (λ h. awake_waking (slot_id s.queue i == slot_id s.queue i) (s.pc k i) e h) now

  begin-Fits :
      (k : Kind) (i : ℕ)
      → s.pc k i ≡ idle
      → (l : Kind) (j : ℕ)
      → Fits (version (place bits j)) (turn bits l j) (assign s.pc k i begun l j)
  begin-Fits k i e l j = elim (assign-cases s.pc k i begun l j) [
    | inl (same, e') ↦ rw (e', ← same.0, ← same.1) (Fits-at inv k i e)
    | inr (other, e') ↦ rw e' (inv.fits l j)
  ]

  begin-new :
      (k : Kind) (i : ℕ) (l : Kind) (j : ℕ)
      → ¬ Same k i l j
      → s.pc l j ≡ idle
      → assign s.pc k i begun l j ≡ idle
  begin-new k i l j other e = elim (assign-cases s.pc k i begun l j) [
    | inl (same, e') ↦ absurd (other same)
    | inr (_, e') ↦ e' ∙ e
  ]

  start_push-Turns : (v : T) → WithinLimits s → Turns bits (start_push s v) version
  unfolding start_push move_to
  start_push-Turns v limits = record {
    laid_out = record {
      bits_eq = inv.laid_out.bits_eq;
      bits_le = inv.laid_out.bits_le;
      capacity_eq = inv.laid_out.capacity_eq;
      futexes_len = inv.laid_out.futexes_len;
      values_len = inv.laid_out.values_len;
    };
    raw = inv.raw;
    fits =
        begin-Fits push s.queue.next_push_index
          (inv.pushes_new s.queue.next_push_index (omega arith));
    pushes_new = λ j h.
        begin-new push s.queue.next_push_index push j
          (λ same. omega (arith, limits.pushes_fit, same.1))
          (inv.pushes_new j (omega (arith, limits.pushes_fit)));
    pops_new = λ j h.
        begin-new push s.queue.next_push_index pop j (λ same. cc (same.0)) (inv.pops_new j h);
  }

  start_pop-Turns : WithinLimits s → Turns bits (start_pop s) version
  unfolding start_pop move_to
  start_pop-Turns limits = record {
    laid_out = record {
      bits_eq = inv.laid_out.bits_eq;
      bits_le = inv.laid_out.bits_le;
      capacity_eq = inv.laid_out.capacity_eq;
      futexes_len = inv.laid_out.futexes_len;
      values_len = inv.laid_out.values_len;
    };
    raw = inv.raw;
    fits =
        begin-Fits pop s.queue.next_pop_index (inv.pops_new s.queue.next_pop_index (omega arith));
    pushes_new = λ j h.
        begin-new pop s.queue.next_pop_index push j (λ same. cc (same.0)) (inv.pushes_new j h);
    pops_new = λ j h.
        begin-new pop s.queue.next_pop_index pop j (λ same. omega (arith, limits.pops_fit, same.1))
          (inv.pops_new j (omega (arith, limits.pops_fit)));
  }

  run-Turns :
      (moved : T → T) (k : Kind) (i : ℕ) (p : Pc)
      → s.pc k i ≡ p
      → WithinLimits s
      → Turns bits (step_from moved s k i p) (after_from version (place bits i) p)
  unfolding step_from after_from
  run-Turns moved k i idle e limits = inv
  run-Turns moved k i begun e limits = load-Turns inv limits k i e
  run-Turns moved k i (loaded c) e limits = test_version-Turns inv limits k i c e
  run-Turns moved k i (waiting w) e limits = futex_wait-Turns inv limits k i w e
  run-Turns moved k i (asleep w) e limits = inv
  run-Turns moved k i entered e limits = call_back-Turns inv moved k i e
  run-Turns moved k i called e limits = publish-Turns inv k i e
  run-Turns moved k i waking e limits = wake_all-Turns k i e
  run-Turns moved k i done e limits = inv

  reload-Turns :
      (k : Kind) (i : ℕ) (p : Pc) → s.pc k i ≡ p → Turns bits (reload_from s k i p) version
  unfolding reload_from
  reload-Turns k i (asleep w) e =
      move_to-Turns inv k i begun (not_idle inv k i (asleep w) e (λ h. cc (h)))
        (Fits-at inv k i e).0
  reload-Turns k i idle e = inv
  reload-Turns k i p e = inv

  cas_fails-Turns :
      (k : Kind) (i : ℕ) (p : Pc) → s.pc k i ≡ p → Turns bits (cas_fails_from s k i p) version
  unfolding cas_fails_from
  cas_fails-Turns k i (loaded c) e =
      elim (Bool-cases (get_raw_version c == expected_version s.queue k i || is_tagged_version c)) [
        | inl skip ↦ rw skip inv
        | inr fails ↦ rw fails (
            move_to-Turns inv k i begun (not_idle inv k i (loaded c) e (λ h. cc (h)))
              (Fits-at inv k i e).0)
      ]
  cas_fails-Turns k i idle e = inv
  cas_fails-Turns k i p e = inv

  -- Every event keeps the invariant, at the versions after it.
  pub step-Turns :
      (moved : T → T) (e : Event T)
      → WithinLimits s
      → Turns bits (step moved s e) (after bits version s e)
  unfolding step after
  step-Turns moved (begin_push v) limits = start_push-Turns v limits
  step-Turns moved begin_pop limits = start_pop-Turns limits
  step-Turns moved (run k i) limits = run-Turns moved k i (s.pc k i) refl limits
  step-Turns moved (cas_fails k i) limits = cas_fails-Turns k i (s.pc k i) refl
  step-Turns moved (wakes_early k i) limits = reload-Turns k i (s.pc k i) refl
