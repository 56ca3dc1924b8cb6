-- ===== src/BoundedQueue/Concurrent/Tests.antt =====
-- A pop that comes first sleeps until a push publishes its value.
use wizard.Prelude.{ℕ, ◌≡◌, ◌≢◌, refl, true, List, [], ◌∷◌, ◌++◌, none, some, arith, zero, suc}
use wizard.Prelude.Functions.{assign_at}
use wizard.BoundedQueue.{
  Kind, push, pop, BoundedQueue, expected_version, push_version_for_index, pop_version_for_index,
  slot_id, get_raw_version, make_tagged_version, is_tagged_version, advance_version,
}
use wizard.BoundedQueue.Concurrent.{
  waking, System, Event, begin_push, begin_pop, run, word, assign, step, step_from, start, exec,
  start_push, start_pop, move_to, write_word, test_version, futex_wait, call_back, publish,
  wake_all, awake,
}
use wizard.BoundedQueue.Concurrent.Turns.{finished}
use wizard.BoundedQueue.Concurrent.Results.{
  IsFresh, exclusive, pop-push, no_overwrite, no_lost_wakeup,
}
use wizard.BoundedQueue.Concurrent.Short.{short-AllWithin}

abbrev two_slots : BoundedQueue ℕ
two_slots = record {
  values = 0 ∷ 0 ∷ [];
  futexes = 0 ∷ 0 ∷ [];
  capacity = 2;
  round_bits = 1;
  next_push_index = 0;
  next_pop_index = 0;
}

two_slots-IsFresh : IsFresh 1 two_slots
two_slots-IsFresh = record {
  laid_out = omega arith;
  untouched = blank;
  no_push = refl;
  no_pop = refl;
}
  where
    blank : (slot : ℕ) → word two_slots slot ≡ 0
    blank zero = refl
    blank (suc zero) = refl
    blank (suc (suc n)) = refl

abbrev keep : ℕ → ℕ
keep v = v

-- The pop sleeps on the tagged word; the push has exchanged it and owes the wake-up.
abbrev sleeper : List (Event ℕ)
sleeper =
    begin_pop
    ∷ run pop 0
    ∷ run pop 0
    ∷ run pop 0
    ∷ begin_push 7
    ∷ run push 0
    ∷ run push 0
    ∷ run push 0
    ∷ run push 0
    ∷ []

-- The push wakes the pop, which takes the value.
abbrev delivery : List (Event ℕ)
delivery =
    begin_pop
    ∷ run pop 0
    ∷ run pop 0
    ∷ run pop 0
    ∷ begin_push 7
    ∷ run push 0
    ∷ run push 0
    ∷ run push 0
    ∷ run push 0
    ∷ run push 0
    ∷ run pop 0
    ∷ run pop 0
    ∷ run pop 0
    ∷ run pop 0
    ∷ []

final : List (Event ℕ) → System ℕ
unfolding exec start step start_push start_pop step_from test_version futex_wait call_back publish
    wake_all awake move_to write_word assign assign_at slot_id expected_version
    push_version_for_index pop_version_for_index advance_version get_raw_version make_tagged_version
    is_tagged_version
final es = exec keep (start two_slots) es

delivery_value : (final delivery).popped 0 ≡ some 7
unfolding final
delivery_value = refl

pop-push_example :
    (finished ((exec keep (start two_slots) delivery).pc push 0) ≡ true)
    × ((exec keep (start two_slots) delivery).popped 0
        ≡ (exec keep (start two_slots) delivery).pushed 0)
    × ((exec keep (start two_slots) delivery).pushed 0 ≢ none)
unfolding final
pop-push_example =
    pop-push keep 1 two_slots delivery two_slots-IsFresh
      (short-AllWithin keep 1 two_slots delivery two_slots-IsFresh (omega arith)) 0 refl

-- A push between its version test and its exchange.
abbrev half_way : List (Event ℕ)
half_way = begin_push 7 ∷ begin_push 8 ∷ run push 0 ∷ run push 0 ∷ run push 1 ∷ []

exclusive_example : (push ≡ push) × (◌≡◌ {A = ℕ} 0 0)
unfolding final
exclusive_example =
    exclusive keep 1 two_slots half_way two_slots-IsFresh
      (short-AllWithin keep 1 two_slots half_way two_slots-IsFresh (omega arith)) push push 0 0 refl
      refl refl

abbrev all_of : Kind → ℕ → List (Event ℕ)
all_of k i = run k i ∷ run k i ∷ run k i ∷ run k i ∷ []

-- Three pushes through two slots, and the pop that makes room for the third.
abbrev third_push : List (Event ℕ)
third_push =
    begin_push 7 ∷ begin_push 8 ∷ begin_push 9 ∷ begin_pop ∷ all_of push 0
    ++ all_of push 1
    ++ all_of pop 0
    ++ all_of push 2

no_overwrite_example : finished ((exec keep (start two_slots) third_push).pc pop 0) ≡ true
unfolding final
no_overwrite_example =
    no_overwrite keep 1 two_slots third_push two_slots-IsFresh
      (short-AllWithin keep 1 two_slots third_push two_slots-IsFresh (omega arith)) 0 refl

no_lost_wakeup_example :
    let s = exec keep (start two_slots) sleeper in
    (l : Kind) × (j : ℕ) × (slot_id s.queue j ≡ slot_id s.queue 0) × (s.pc l j ≡ waking)
unfolding final
no_lost_wakeup_example =
    no_lost_wakeup keep 1 two_slots sleeper two_slots-IsFresh
      (short-AllWithin keep 1 two_slots sleeper two_slots-IsFresh (omega arith)) pop 0 65536 refl
      refl
