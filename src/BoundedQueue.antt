-- ===== src/BoundedQueue.antt =====
-- src/concurrent/concurrent_bounded_queue.h: the state of `ConcurrentBoundedQueue`, its version
-- arithmetic, and its operations called by one thread.
--
-- `values` and `futexes` are the two arrays of `SlotVector`: `_slots[i].value` and the 32-bit word
-- of the futex of slot i (in the compacted layout that word stands inside the slot; `get_futex`
-- finds it in either layout). What C++ does to the value of a slot is a callback: it returns the
-- new value of the slot beside its own result. `none` is a call that waits for another thread.
pub mod Concurrent
pub mod Laws
mod Tests
use Prim.Native.Nat.{bit_and}
use wizard.Prelude.{
  ℕ, zero, suc, ◌+◌, ◌-◌, ◌*◌, ◌/◌, ◌%◌, ◌^◌, Bool, true, false, not, Option, none, some, List, [],
  ◌∷◌, ltb, ◌==◌, if◌then◌else◌, ◌>>=◌, get_elem?, set, replicate,
}
use wizard.PowTwo.{next_pow_two, popcount}

unfoldable pub get_raw_version : ℕ → ℕ
get_raw_version tagged_version = tagged_version % 2 ^ 16

-- `version + UINT16_MAX + 1` in `uint32_t`.
unfoldable pub make_tagged_version : ℕ → ℕ
make_tagged_version version = (version + 65535 + 1) % 2 ^ 32

unfoldable pub is_tagged_version : ℕ → Bool
is_tagged_version version = ltb 65535 version

-- Which of the two operations holds an index.
pub data Kind : Type 0 where
  push pop : Kind

pub record BoundedQueue {ℓ} (T : Type ℓ) : Type ℓ where
  pub values : List T
  pub futexes : List ℕ
  pub capacity : ℕ
  pub round_bits : ℕ
  pub next_push_index : ℕ
  pub next_pop_index : ℕ

module _ {ℓ} {T : Type ℓ} where
  -- The members before a constructor runs.
  unfoldable pub unset : BoundedQueue T
  unset = record {
    values = [];
    futexes = [];
    capacity = 0;
    round_bits = 0;
    next_push_index = 0;
    next_pop_index = 0;
  }

  unfoldable pub size : BoundedQueue T → ℕ
  size q =
      if ltb q.next_pop_index q.next_push_index then q.next_push_index - q.next_pop_index else 0

  -- `(index >> _round_bits) << 1` in `size_t`, cut to `uint16_t`.
  unfoldable pub push_version_for_index : BoundedQueue T → ℕ → ℕ
  push_version_for_index q index = index / 2 ^ q.round_bits * 2 % 2 ^ 64 % 2 ^ 16

  unfoldable pub pop_version_for_index : BoundedQueue T → ℕ → ℕ
  pop_version_for_index q index = (push_version_for_index q index + 1) % 2 ^ 16

  -- The first branch of `process`.
  unfoldable pub expected_version : BoundedQueue T → Kind → ℕ → ℕ
  expected_version q push index = push_version_for_index q index
  expected_version q pop index = pop_version_for_index q index

  -- `index & (_capacity - 1)`, cut to `uint32_t`.
  unfoldable pub slot_id : BoundedQueue T → ℕ → ℕ
  slot_id q index = bit_and index (q.capacity - 1) % 2 ^ 32

  -- `exchange` of the futex word of a slot in `advance_version_and_wakeup_waiters`.
  unfoldable pub advance_version : ℕ → ℕ → BoundedQueue T → BoundedQueue T
  advance_version slot new_version q = record q {
    futexes = set q.futexes slot (new_version % 2 ^ 16);
  }

  -- `SlotVector::clear` then `SlotVector::init`: the arrays anew, each value built by `Slot()`.
  unfoldable pub resize : T → ℕ → BoundedQueue T → BoundedQueue T
  resize default_value capacity q = record q {
    values = replicate capacity default_value;
    futexes = replicate capacity 0;
  }

  -- `process` where no other thread runs: it goes on if the version is the expected one, and
  -- otherwise waits for a change that nobody makes.
  unfoldable pub process {κ} :
      {R : Type κ} → Kind → ℕ → (T → T × R) → BoundedQueue T → Option (R × BoundedQueue T)
  process kind index callback q = do
    let slot = slot_id q index
    let expected = expected_version q kind index
    word ← get_elem? q.futexes slot
    value ← get_elem? q.values slot
    let (value', result) = callback value
    if get_raw_version word == expected
        then some (
          result,
          advance_version slot (expected + 1) (record q { values = set q.values slot value' }),
        )
        else none

  -- `push(C&&)` and `pop(C&&)`: take the next index (`fetch_add` in `size_t`), then `process` it.
  unfoldable pub push_with {κ} :
      {R : Type κ} → (T → T × R) → BoundedQueue T → Option (R × BoundedQueue T)
  push_with callback q =
      process push q.next_push_index callback
        (record q { next_push_index = (q.next_push_index + 1) % 2 ^ 64 })

  unfoldable pub pop_with {κ} :
      {R : Type κ} → (T → T × R) → BoundedQueue T → Option (R × BoundedQueue T)
  pop_with callback q =
      process pop q.next_pop_index callback
        (record q { next_pop_index = (q.next_pop_index + 1) % 2 ^ 64 })

  -- `push(const T&)`.
  unfoldable pub push_value : T → BoundedQueue T → Option (Unit {0} × BoundedQueue T)
  push_value value = push_with (λ _. (value, tt))

  -- `pop(T&)`; `moved` is what the move assignment leaves in the slot.
  unfoldable pub pop_value : (T → T) → BoundedQueue T → Option (T × BoundedQueue T)
  pop_value moved = pop_with (λ v. (moved v, v))

  -- `while (size() > 0) pop([](T&) {})`, in at most `fuel` rounds.
  unfoldable pub clear_loop : ℕ → BoundedQueue T → Option (BoundedQueue T)
  clear_loop zero q = none
  clear_loop (suc fuel) q =
      let rest = pop_with (λ v. (v, tt {0})) q >>= λ (_, q'). clear_loop fuel q' in
      if ltb 0 (size q) then rest else some q

  unfoldable pub clear : BoundedQueue T → Option (BoundedQueue T)
  clear q = clear_loop (suc (size q)) q

  -- `_round_bits` is read off the mask; both indices and all futex words are reset.
  unfoldable pub reserve_and_clear : T → ℕ → BoundedQueue T → Option (BoundedQueue T)
  reserve_and_clear default_value min_capacity q =
      let new_capacity = next_pow_two min_capacity in
      if new_capacity == q.capacity
      then clear q
      else some (
          resize default_value new_capacity (record q {
            round_bits = popcount (new_capacity - 1);
            capacity = new_capacity;
            next_push_index = 0;
            next_pop_index = 0;
          }))

  -- The constructor.
  unfoldable pub create : T → ℕ → Option (BoundedQueue T)
  create default_value capacity = reserve_and_clear default_value capacity unset
