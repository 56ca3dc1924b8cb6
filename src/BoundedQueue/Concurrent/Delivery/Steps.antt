-- ===== src/BoundedQueue/Concurrent/Delivery/Steps.antt =====
-- Every event of a schedule keeps the delivery invariant.
use wizard.Prelude.{ℕ, ◌≡◌, inl, inr, refl, true, ◌||◌, ◌==◌, Bool-cases}
use wizard.BoundedQueue.{
  Kind, slot_id, expected_version, get_raw_version, is_tagged_version, make_tagged_version,
}
use wizard.BoundedQueue.Concurrent.{
  Pc, idle, begun, loaded, waiting, asleep, entered, called, waking, done, System, word, write_word,
  test_version, futex_wait, step_from, reload_from, cas_fails_from,
}
use wizard.BoundedQueue.Concurrent.Order.{place}
use wizard.BoundedQueue.Concurrent.Turns.{Turns}
use wizard.BoundedQueue.Concurrent.Delivery.{Delivers}
use wizard.BoundedQueue.Concurrent.Delivery.Writes.{write_word-Delivers, quiet-Delivers, quiet}
use wizard.BoundedQueue.Concurrent.Delivery.Callback.{call_back-Delivers}
use wizard.BoundedQueue.Concurrent.{Event, begin_push, begin_pop, run, cas_fails, wakes_early, step}
use wizard.BoundedQueue.Concurrent.Turns.Steps.{after, after_from}
use wizard.BoundedQueue.Concurrent.Delivery.Finish.{
  publish-Delivers, wake_all-Delivers, start_push-Delivers, start_pop-Delivers,
}

module _ {ℓ} {T : Type ℓ} {bits : ℕ} {s : System T} {version : ℕ → ℕ} (inv : Turns bits s version)
    (del : Delivers bits s version) where
  -- The wait loop moves the operation and touches at most the word.
  test_version-Delivers :
      (k : Kind) (i c : ℕ) → s.pc k i ≡ loaded c → Delivers bits (test_version s k i c) version
  unfolding test_version write_word
  test_version-Delivers k i c e =
      let go = λ (p : Pc) (q : quiet p ≡ true).
        quiet-Delivers del k i p (loaded c) e (λ h. cc (h)) (λ h. cc (h)) q in
      elim (Bool-cases (get_raw_version c == expected_version s.queue k i)) [
        | inl y ↦ rw y (go entered refl)
        | inr n ↦ elim (Bool-cases (is_tagged_version c)) [
          | inl tagged ↦ rw (n, tagged) (go (waiting c) refl)
          | inr untagged ↦ elim (Bool-cases (word s.queue (slot_id s.queue i) == c)) [
            | inl hit ↦
                rw (n, untagged, hit)
                  (quiet-Delivers
                    (write_word-Delivers del (slot_id s.queue i) (make_tagged_version c)) k i
                    (waiting (make_tagged_version c)) (loaded c) e (λ h. cc (h)) (λ h. cc (h)) refl)
            | inr miss ↦ rw (n, untagged, miss) (go begun refl)
          ]
        ]
      ]

  futex_wait-Delivers :
      (k : Kind) (i w : ℕ) → s.pc k i ≡ waiting w → Delivers bits (futex_wait s k i w) version
  unfolding futex_wait
  futex_wait-Delivers k i w e =
      quiet-Delivers del k i _ (waiting w) e (λ h. cc (h)) (λ h. cc (h))
        (elim (Bool-cases (word s.queue (slot_id s.queue i) == w)) [
          | inl same ↦ rw same refl
          | inr other ↦ rw other refl
        ])

  run-Delivers :
      (moved : T → T) (k : Kind) (i : ℕ) (p : Pc)
      → s.pc k i ≡ p
      → Delivers bits (step_from moved s k i p) (after_from version (place bits i) p)
  unfolding step_from after_from
  run-Delivers moved k i idle e = del
  run-Delivers moved k i begun e = quiet-Delivers del k i _ begun e (λ h. cc (h)) (λ h. cc (h)) refl
  run-Delivers moved k i (loaded c) e = test_version-Delivers k i c e
  run-Delivers moved k i (waiting w) e = futex_wait-Delivers k i w e
  run-Delivers moved k i (asleep w) e = del
  run-Delivers moved k i entered e = call_back-Delivers inv del moved k i e
  run-Delivers moved k i called e = publish-Delivers inv del k i e
  run-Delivers moved k i waking e = wake_all-Delivers inv del k i e
  run-Delivers moved k i done e = del

  reload-Delivers :
      (k : Kind) (i : ℕ) (p : Pc) → s.pc k i ≡ p → Delivers bits (reload_from s k i p) version
  unfolding reload_from
  reload-Delivers k i (asleep w) e =
      quiet-Delivers del k i begun (asleep w) e (λ h. cc (h)) (λ h. cc (h)) refl
  reload-Delivers k i idle e = del
  reload-Delivers k i p e = del

  cas_fails-Delivers :
      (k : Kind) (i : ℕ) (p : Pc) → s.pc k i ≡ p → Delivers bits (cas_fails_from s k i p) version
  unfolding cas_fails_from
  cas_fails-Delivers k i (loaded c) e =
      elim (Bool-cases (get_raw_version c == expected_version s.queue k i || is_tagged_version c)) [
        | inl skip ↦ rw skip del
        | inr fails ↦
            rw fails (quiet-Delivers del k i begun (loaded c) e (λ h. cc (h)) (λ h. cc (h)) refl)
      ]
  cas_fails-Delivers k i idle e = del
  cas_fails-Delivers k i p e = del

  -- Every event keeps the invariant, at the versions after it.
  pub step-Delivers :
      (moved : T → T) (e : Event T) → Delivers bits (step moved s e) (after bits version s e)
  unfolding step after
  step-Delivers moved (begin_push v) = start_push-Delivers inv del v
  step-Delivers moved begin_pop = start_pop-Delivers inv del
  step-Delivers moved (run k i) = run-Delivers moved k i (s.pc k i) refl
  step-Delivers moved (cas_fails k i) = cas_fails-Delivers k i (s.pc k i) refl
  step-Delivers moved (wakes_early k i) = reload-Delivers k i (s.pc k i) refl
