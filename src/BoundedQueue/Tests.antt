-- ===== src/BoundedQueue/Tests.antt =====
-- The queue at concrete inputs.
use wizard.Prelude.{ℕ, ◌+◌, ◌*◌, ◌≤◌, ◌<◌, ◌≡◌, refl, Option, none, some, arith, ◌>>=◌}
use wizard.PowTwo.{bit_length, clzl, ones, popcount, find_last_set, next_pow_two}
use wizard.BoundedQueue.{
  BoundedQueue, unset, size, expected_version, push_version_for_index, pop_version_for_index,
  slot_id, get_raw_version, advance_version, resize, process, push_with, pop_with, push_value,
  pop_value, clear_loop, clear, reserve_and_clear, create,
}
use wizard.BoundedQueue.Laws.{create-IsFresh}
use wizard.BoundedQueue.Concurrent.Results.{IsFresh}

abbrev three : Option (BoundedQueue ℕ)
three = create 0 3

-- Two pushes, a pop, and a push after the queue is cleared.
abbrev script : Option (ℕ × BoundedQueue ℕ)
script = do
  q ← three
  (_, q) ← push_value 5 q
  (_, q) ← push_value 6 q
  (first, q) ← pop_value (λ v. v) q
  q ← clear q
  (_, q) ← push_value 7 q
  (last, q) ← pop_value (λ v. v) q
  some (first + 10 * last, q)

outputs : ℕ
unfolding create reserve_and_clear resize unset clear clear_loop size push_value pop_value push_with
    pop_with process expected_version push_version_for_index pop_version_for_index slot_id
    get_raw_version advance_version next_pow_two find_last_set clzl bit_length popcount ones
outputs = elim script [ none ↦ 0 | some (n, _) ↦ n ]

outputs_value : outputs ≡ 75
unfolding outputs
outputs_value = refl

create-IsFresh_example :
    (q : BoundedQueue ℕ) × (bits : ℕ) × (create 0 3 ≡ some q)
    × IsFresh bits q
    × (3 ≤ q.capacity)
    × (q.capacity < 6)
create-IsFresh_example = create-IsFresh 0 3 (omega arith) (omega arith)
