-- ===== src/RingBuffer/Tests.antt =====
-- Runs of the ring buffer of src/container/ringbuffer.h on small buffers.
use wizard.Prelude.{ℕ, ◌≡◌, refl, true, false, none, some, [], ◌∷◌, arith}
use wizard.Prelude.Int.{pos}
use wizard.RingBuffer.{
  RingBuffer, next_tail, is_full, back, pop_front, emplace_back_impl, emplace_back, copy,
}
use wizard.RingBuffer.Laws.{Holds}
use wizard.RingBuffer.Fifo.{pop_front-Holds, emplace_back-Holds}
use wizard.RingBuffer.Copy.{back-copy}

-- Three places that held 5, 6 and 7, then lost 5.
abbrev moved : RingBuffer ℕ
moved = record {
  elements = some 5 ∷ some 6 ∷ some 7 ∷ [];
  tail = pos 2;
  head = 1;
  size = 2;
  capacity = 3;
}

-- The same buffer with one more value, which wraps round.
abbrev wrapped : RingBuffer ℕ
wrapped = record {
  elements = some 8 ∷ some 6 ∷ some 7 ∷ [];
  tail = pos 0;
  head = 1;
  size = 3;
  capacity = 3;
}

-- Two places of three, from the first cell on.
abbrev at_start : RingBuffer ℕ
at_start = record {
  elements = some 5 ∷ some 6 ∷ none ∷ [];
  tail = pos 1;
  head = 0;
  size = 2;
  capacity = 3;
}

moved-Holds : Holds moved (6 ∷ 7 ∷ [])
unfolding next_tail
moved-Holds = record {
  valid = record {
    room = refl;
    head_in = omega arith;
    size_in = omega arith;
    tail_before = refl;
    tail_last = λ p. refl;
  };
  contents = refl;
}

wrapped-Holds : Holds wrapped (6 ∷ 7 ∷ 8 ∷ [])
unfolding next_tail
wrapped-Holds = record {
  valid = record {
    room = refl;
    head_in = omega arith;
    size_in = omega arith;
    tail_before = refl;
    tail_last = λ p. refl;
  };
  contents = refl;
}

at_start-Holds : Holds at_start (5 ∷ 6 ∷ [])
unfolding next_tail
at_start-Holds = record {
  valid = record {
    room = refl;
    head_in = omega arith;
    size_in = omega arith;
    tail_before = refl;
    tail_last = λ p. refl;
  };
  contents = refl;
}

emplace_back_test : emplace_back true false 8 moved ≡ some wrapped
unfolding emplace_back emplace_back_impl is_full next_tail
emplace_back_test = refl

pop_front-Holds_example : Holds (pop_front false wrapped) (7 ∷ 8 ∷ [])
pop_front-Holds_example = pop_front-Holds false wrapped (6 ∷ 7 ∷ 8 ∷ []) wrapped-Holds

emplace_back-Holds_example :
    (s : RingBuffer ℕ) × (emplace_back true false 9 wrapped ≡ some s)
    × Holds s (7 ∷ 8 ∷ 9 ∷ [])
    × (s.capacity ≡ 3)
emplace_back-Holds_example = emplace_back-Holds true false 9 wrapped (6 ∷ 7 ∷ 8 ∷ []) wrapped-Holds

back-copy_example : back (copy false 0 moved) ≡ some 0
back-copy_example =
    back-copy false 0 moved (6 ∷ 7 ∷ []) moved-Holds (omega arith) (omega arith) (omega arith)
