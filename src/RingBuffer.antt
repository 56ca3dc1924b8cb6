-- ===== src/RingBuffer.antt =====
-- src/container/ringbuffer.h: `RingBuffer<T, Overwrite>` and its iterators.
--
-- A cell of the memory block is `none` where no object of type T lives. `trivial` stands for
-- `std::is_trivially_destructible<T>`: such objects are never destroyed. `tail_` is an `int` that
-- starts at -1. `none` as a result is a remainder by a capacity of zero. Capacities are below 2^31,
-- so that the indices fit an `int`.
pub mod Laws
pub mod Copy
pub mod Fifo
pub mod Iteration
pub mod Reads
mod Tests
use wizard.Prelude.{
  ℕ, zero, suc, ◌+◌, ◌-◌, ◌%◌, ◌^◌, Bool, true, false, Option, none, some, List, [], ◌∷◌, ◌++◌,
  ◌==◌, if◌then◌else◌, get_or, set, take, drop, replicate,
}
use wizard.Prelude.Int.{ℤ, pos, negsuc}

pub record RingBuffer {ℓ} (T : Type ℓ) : Type ℓ where
  pub elements : List (Option T)
  pub tail : ℤ
  pub head : ℕ
  pub size : ℕ
  pub capacity : ℕ

-- `(tail_ + 1) % capacity_`: the sum is an `int`, converted to `size_t` for the remainder.
unfoldable pub next_tail : ℤ → ℕ → ℕ
next_tail (pos n) capacity = (n + 1) % capacity
next_tail (negsuc zero) capacity = 0 % capacity
next_tail (negsuc (suc n)) capacity = (2 ^ 64 - (n + 1)) % capacity

module _ {ℓ} {T : Type ℓ} where
  -- The constructor.
  unfoldable pub create : ℕ → RingBuffer T
  create capacity = record {
    elements = replicate capacity none;
    tail = negsuc 0;
    head = 0;
    size = 0;
    capacity = capacity;
  }

  unfoldable pub is_empty : RingBuffer T → Bool
  is_empty r = r.size == 0

  unfoldable pub is_full : RingBuffer T → Bool
  is_full r = r.size == r.capacity

  -- `operator[]`, which takes a raw index.
  unfoldable pub raw_at : RingBuffer T → ℕ → Option T
  raw_at r index = get_or r.elements index none

  -- `at`, counted from the head.
  unfoldable pub at : RingBuffer T → ℕ → Option T
  unfolding raw_at
  at r index = raw_at r ((index + r.head) % r.capacity)

  unfoldable pub front : RingBuffer T → Option T
  unfolding raw_at
  front r = raw_at r r.head

  -- No object lives below index 0.
  unfoldable pub back_at : RingBuffer T → ℤ → Option T
  unfolding raw_at
  back_at r (pos n) = raw_at r n
  back_at r (negsuc n) = none

  unfoldable pub back : RingBuffer T → Option T
  unfolding back_at
  back r = back_at r r.tail

  -- `_destroy` in its two overloads.
  unfoldable pub destroy : Bool → ℕ → List (Option T) → List (Option T)
  destroy true index elements = elements
  destroy false index elements = set elements index none

  unfoldable pub pop_front : Bool → RingBuffer T → RingBuffer T
  unfolding is_empty
  pop_front trivial r = if is_empty r then r else record r {
    elements = destroy trivial r.head r.elements;
    size = r.size - 1;
    head = (r.head + 1) % r.capacity;
  }

  unfoldable pub emplace_back_impl : T → RingBuffer T → Option (RingBuffer T)
  emplace_back_impl value r =
      let tail = next_tail r.tail r.capacity in
      if r.capacity == 0
      then none
      else some (record r {
        tail = pos tail;
        elements = set r.elements tail (some value);
        size = r.size + 1;
      })

  -- `_emplace_back`; `overwrite` is the template argument.
  unfoldable pub emplace_back : Bool → Bool → T → RingBuffer T → Option (RingBuffer T)
  unfolding is_full
  emplace_back overwrite trivial value r =
      if is_full r
      then (if overwrite then emplace_back_impl value (pop_front trivial r) else some r)
      else emplace_back_impl value r

  -- The loop of `_destroy_all(std::false_type)`, in `rounds` rounds.
  unfoldable pub destroy_loop : ℕ → RingBuffer T → RingBuffer T
  destroy_loop zero r = r
  destroy_loop (suc rounds) r =
      let rest = destroy_loop rounds (record r {
        elements = destroy false r.head r.elements;
        head = (r.head + 1) % r.capacity;
        size = r.size - 1;
      }) in
      if is_empty r then r else rest

  -- `clear`: `_destroy_all` in its two overloads.
  unfoldable pub clear : Bool → RingBuffer T → RingBuffer T
  clear true r = record r { head = 0; tail = negsuc 0; size = 0 }
  clear false r = destroy_loop r.size r

  -- `construct_all` on a new block: `_construct` in its two overloads.
  unfoldable pub construct_all : Bool → T → ℕ → List (Option T)
  construct_all true default_value capacity = replicate capacity none
  construct_all false default_value capacity = replicate capacity (some default_value)

  -- The copy constructor: `std::copy` of the first `size_` cells.
  unfoldable pub copy : Bool → T → RingBuffer T → RingBuffer T
  copy trivial default_value rhs = record rhs {
    elements =
        take rhs.size rhs.elements
        ++ drop rhs.size (construct_all trivial default_value rhs.capacity);
  }

  -- `swap`, with both buffers behind it.
  unfoldable pub swap : RingBuffer T → RingBuffer T → RingBuffer T × RingBuffer T
  swap r rhs = (
    record r {
      elements = rhs.elements;
      tail = rhs.tail;
      head = rhs.head;
      size = rhs.size;
      capacity = rhs.capacity;
    },
    record rhs {
      elements = r.elements;
      tail = r.tail;
      head = r.head;
      size = r.size;
      capacity = r.capacity;
    },
  )

  -- `operator=`: the temporary takes the old values with it when it is destroyed.
  unfoldable pub assign : Bool → T → RingBuffer T → RingBuffer T → RingBuffer T
  assign trivial default_value r rhs = (swap r (copy trivial default_value rhs)).0

-- An `int` converted to `size_t`.
unfoldable pub to_size : ℤ → ℕ
to_size (pos n) = n
to_size (negsuc n) = 2 ^ 64 - (n + 1)

-- `RingBufferIterator`, whose template argument R is `reverse` below.
pub record RingBufferIterator : Type 0 where
  pub index : ℤ
  pub plus_count : ℕ

-- `operator==` compares the counts alone.
unfoldable pub equals : RingBufferIterator → RingBufferIterator → Bool
equals l r = l.plus_count == r.plus_count

module _ {ℓ} {T : Type ℓ} where
  -- `begin` and `rbegin`.
  unfoldable pub begin : Bool → RingBuffer T → RingBufferIterator
  begin true r = record { index = r.tail; plus_count = 0 }
  begin false r = record { index = pos r.head; plus_count = 0 }

  -- `end` and `rend`.
  unfoldable pub end : Bool → RingBuffer T → RingBufferIterator
  end true r = record { index = pos r.head; plus_count = r.size }
  end false r = record { index = r.tail; plus_count = r.size }

  unfoldable pub dereference : RingBuffer T → RingBufferIterator → Option T
  unfolding raw_at to_size
  dereference r it = raw_at r (to_size it.index)

  -- `operator++`.
  unfoldable pub increment : Bool → RingBuffer T → RingBufferIterator → RingBufferIterator
  unfolding to_size
  increment true r it = record {
    index = pos ((to_size it.index + r.capacity + (2 ^ 64 - 1)) % 2 ^ 64 % r.capacity);
    plus_count = it.plus_count + 1;
  }
  increment false r it = record {
    index = pos (next_tail it.index r.capacity);
    plus_count = it.plus_count + 1;
  }

  -- `for (it = begin; it != end; ++it)`, with what each round reads, in at most `rounds` rounds.
  unfoldable pub walk : Bool → RingBuffer T → ℕ → RingBufferIterator → List (Option T)
  walk reverse r zero it = []
  walk reverse r (suc rounds) it =
      let rest = walk reverse r rounds (increment reverse r it) in
      if equals it (end reverse r) then [] else dereference r it ∷ rest
