-- ===== src/BoundedQueue/Concurrent.antt =====
-- The same queue used by any number of threads: every access to shared memory is a step of its own,
-- and a schedule is a list of events. `push(C&&)`, `pop(C&&)`, `process`,
-- `wait_until_reach_expected_version` and `advance_version_and_wakeup_waiters` of
-- src/concurrent/concurrent_bounded_queue.h are cut at their atomic operations and futex calls.
--
-- An operation is named by its kind and the index that its `fetch_add` returned. The kernel's futex
-- is modelled by its documented behaviour: FUTEX_WAIT sleeps only if the word still holds the given
-- value, FUTEX_WAKE wakes all sleepers of the word, and a sleeper may wake without cause.
pub mod Order
pub mod Turns
pub mod Delivery
pub mod Wakeups
pub mod Results
pub mod Short
mod Tests
use wizard.Prelude.{
  ℕ, ◌+◌, ◌%◌, ◌^◌, Bool, true, false, ◌&&◌, ◌||◌, Option, none, some, List, [], ◌∷◌, ◌==◌,
  if◌then◌else◌, get_elem?, get_or, set,
}
use wizard.Prelude.Functions.{assign_at}
use wizard.BoundedQueue.{
  Kind, push, pop, BoundedQueue, expected_version, slot_id, get_raw_version, make_tagged_version,
  is_tagged_version, advance_version,
}

-- Where an operation stands.
pub data Pc : Type 0 where
  idle : Pc  -- its index has not been handed out
  begun : Pc  -- before a load of the futex word
  loaded : ℕ → Pc  -- with `current_version`, at the test of the loop
  waiting : ℕ → Pc  -- before the system call FUTEX_WAIT, with the value that it expects
  asleep : ℕ → Pc  -- in the kernel
  entered : Pc  -- the version was the expected one; before the callback
  called : Pc  -- after the callback, before the exchange
  waking : Pc  -- the exchanged word was tagged; before FUTEX_WAKE
  done : Pc

pub record System {ℓ} (T : Type ℓ) : Type ℓ where
  pub queue : BoundedQueue T
  pub pc : Kind → ℕ → Pc
  -- The argument of each push and the result of each pop, by index.
  pub pushed : ℕ → Option T
  pub popped : ℕ → Option T

pub data Event {ℓ} (T : Type ℓ) : Type ℓ where
  begin_push : T → Event T
  begin_pop : Event T
  run : Kind → ℕ → Event T  -- the next step of an operation
  cas_fails : Kind → ℕ → Event T  -- the weak compare-exchange fails without cause
  wakes_early : Kind → ℕ → Event T  -- a sleeper wakes without cause

abbrev pub same_kind : Kind → Kind → Bool
same_kind push push = true
same_kind pop pop = true
same_kind _ _ = false

unfoldable pub assign {ℓ} : {A : Type ℓ} → (Kind → ℕ → A) → Kind → ℕ → A → Kind → ℕ → A
assign f kind index a k i = if same_kind kind k && (index == i) then a else f k i

-- What a wake-up makes of an operation on the slot.
unfoldable pub awake : Bool → Pc → Pc
awake true (asleep w) = begun
awake _ p = p

module _ {ℓ} {T : Type ℓ} where
  -- The futex word of a slot.
  abbrev pub word : BoundedQueue T → ℕ → ℕ
  word q slot = get_or q.futexes slot 0

  unfoldable pub move_to : System T → Kind → ℕ → Pc → System T
  move_to s kind index p = record s { pc = assign s.pc kind index p }

  unfoldable pub write_word : System T → ℕ → ℕ → System T
  write_word s slot w = record s { queue = record s.queue { futexes = set s.queue.futexes slot w } }

  -- One round of the loop after the load: leave it, tag the word by a compare-exchange and wait, or
  -- wait at once where the word is tagged.
  unfoldable pub test_version : System T → Kind → ℕ → ℕ → System T
  test_version s kind index current =
      let slot = slot_id s.queue index in
      let tagged = make_tagged_version current in
      if get_raw_version current == expected_version s.queue kind index
      then move_to s kind index entered
      else if is_tagged_version current
      then move_to s kind index (waiting current)
      else if word s.queue slot == current
      then move_to (write_word s slot tagged) kind index (waiting tagged)
      else move_to s kind index begun

  -- FUTEX_WAIT.
  unfoldable pub futex_wait : System T → Kind → ℕ → ℕ → System T
  futex_wait s kind index expected =
      move_to s kind index
        (if word s.queue (slot_id s.queue index) == expected then asleep expected else begun)

  -- The callback of `push(const T&)` and of `pop(T&)`; `moved` is what a move leaves behind.
  unfoldable pub call_back : (T → T) → System T → Kind → ℕ → System T
  call_back moved s push index =
      let slot = slot_id s.queue index in
      let values : List T = elim (s.pushed index) [
        | none ↦ s.queue.values
        | some v ↦ set s.queue.values slot v
      ] in
      move_to (record s { queue = record s.queue { values = values } }) push index called
  call_back moved s pop index =
      let slot = slot_id s.queue index in
      let found = get_elem? s.queue.values slot in
      let values : List T = elim found [
        | none ↦ s.queue.values
        | some v ↦ set s.queue.values slot (moved v)
      ] in
      move_to
        (record s {
          queue = record s.queue { values = values };
          popped = assign_at s.popped index found;
        })
        pop index called

  -- The exchange, and the test of the word that it returned.
  unfoldable pub publish : System T → Kind → ℕ → System T
  publish s kind index =
      let slot = slot_id s.queue index in
      let old_version = word s.queue slot in
      let next = expected_version s.queue kind index + 1 in
      move_to (record s { queue = advance_version slot next s.queue }) kind index
        (if is_tagged_version old_version then waking else done)

  -- FUTEX_WAKE of all sleepers of the slot.
  unfoldable pub wake_all : System T → Kind → ℕ → System T
  wake_all s kind index =
      let slot = slot_id s.queue index in
      move_to (record s { pc = λ k i. awake (slot_id s.queue i == slot) (s.pc k i) }) kind index
        done

  unfoldable pub step_from : (T → T) → System T → Kind → ℕ → Pc → System T
  step_from moved s kind index begun =
      move_to s kind index (loaded (word s.queue (slot_id s.queue index)))
  step_from moved s kind index (loaded current) = test_version s kind index current
  step_from moved s kind index (waiting expected) = futex_wait s kind index expected
  step_from moved s kind index entered = call_back moved s kind index
  step_from moved s kind index called = publish s kind index
  step_from moved s kind index waking = wake_all s kind index
  step_from moved s kind index _ = s

  -- Back to the load: a compare-exchange that failed, or a sleeper that woke.
  unfoldable pub reload_from : System T → Kind → ℕ → Pc → System T
  reload_from s kind index (asleep w) = move_to s kind index begun
  reload_from s kind index _ = s

  unfoldable pub cas_fails_from : System T → Kind → ℕ → Pc → System T
  cas_fails_from s kind index (loaded current) =
      if get_raw_version current == expected_version s.queue kind index || is_tagged_version current
      then s
      else move_to s kind index begun
  cas_fails_from s kind index _ = s

  -- The `fetch_add` of `push` and of `pop`.
  unfoldable pub start_push : System T → T → System T
  start_push s v =
      let index = s.queue.next_push_index in
      move_to
        (record s {
          queue = record s.queue { next_push_index = (index + 1) % 2 ^ 64 };
          pushed = assign_at s.pushed index (some v);
        })
        push index begun

  unfoldable pub start_pop : System T → System T
  start_pop s =
      let index = s.queue.next_pop_index in
      move_to (record s { queue = record s.queue { next_pop_index = (index + 1) % 2 ^ 64 } }) pop
        index begun

  unfoldable pub step : (T → T) → System T → Event T → System T
  step moved s (begin_push v) = start_push s v
  step moved s begin_pop = start_pop s
  step moved s (run kind index) = step_from moved s kind index (s.pc kind index)
  step moved s (cas_fails kind index) = cas_fails_from s kind index (s.pc kind index)
  step moved s (wakes_early kind index) = reload_from s kind index (s.pc kind index)

  -- A queue that nobody has used yet.
  unfoldable pub start : BoundedQueue T → System T
  start q = record { queue = q; pc = λ _ _. idle; pushed = λ _. none; popped = λ _. none }

  unfoldable pub exec : (T → T) → System T → List (Event T) → System T
  exec moved s [] = s
  exec moved s (e ∷ es) = exec moved (step moved s e) es
