-- ===== src/RingBuffer/Copy.antt =====
-- src/container/ringbuffer.h: the copy constructor, which copies the first `size_` cells of the
-- block.
use wizard.Prelude.{
  ℕ, zero, suc, ◌+◌, ◌-◌, ◌%◌, ◌≤◌, ◌<◌, ◌≡◌, refl, sym, subst, ◌∙◌, Bool, true, false, none, some,
  List, [], ◌∷◌, ◌++◌, arith, if◌then◌else◌, length, length-append, length-take, length-drop,
  length-replicate, get_or, get_or-replicate, take, drop, replicate,
}
use wizard.Prelude.Tabulate.{tabulate_congr}
use native.Mathlib.Nat.{mod-eq_of_lt}
use wizard.RingBuffer.{RingBuffer, raw_at, back, back_at, construct_all, copy, swap, assign}
use wizard.RingBuffer.Laws.{Holds}

module _ {ℓ} {T : Type ℓ} where
  splice_front :
      (n : ℕ) (es fs : List T) (i : ℕ) (d : T)
      → i < n
      → n ≤ length es
      → get_or (take n es ++ fs) i d ≡ get_or es i d
  splice_front zero es fs i d below room = absurd (omega arith)
  splice_front (suc n) [] fs i d below room = absurd (omega arith)
  splice_front (suc n) (e ∷ es) fs zero d below room = refl
  splice_front (suc n) (e ∷ es) fs (suc i) d below room =
      splice_front n es fs i d (omega arith) (omega arith)

  splice_back :
      (n : ℕ) (es fs : List T) (i : ℕ) (d : T)
      → n ≤ i
      → n ≤ length es
      → n ≤ length fs
      → get_or (take n es ++ drop n fs) i d ≡ get_or fs i d
  splice_back zero es fs i d above room rest = refl
  splice_back (suc n) [] fs i d above room rest = absurd (omega arith)
  splice_back (suc n) (e ∷ es) [] i d above room rest = absurd (omega arith)
  splice_back (suc n) (e ∷ es) (f ∷ fs) zero d above room rest = absurd (omega arith)
  splice_back (suc n) (e ∷ es) (f ∷ fs) (suc i) d above room rest =
      splice_back n es fs i d (omega arith) (omega arith) (omega arith)

module _ {ℓ} {T : Type ℓ} where
  length-construct_all :
      (trivial : Bool) (d : T) (capacity : ℕ) → length (construct_all trivial d capacity) ≡ capacity
  unfolding construct_all
  length-construct_all true d capacity = length-replicate capacity none
  length-construct_all false d capacity = length-replicate capacity (some d)

  get_or-full :
      {d : T} (capacity i : ℕ) → i < capacity → get_or (replicate capacity (some d)) i none ≡ some d
  get_or-full zero i p = absurd (omega arith)
  get_or-full (suc capacity) zero p = refl
  get_or-full (suc capacity) (suc i) p = get_or-full capacity i (omega arith)

  get_or-construct_all :
      (trivial : Bool) (d : T) (capacity i : ℕ)
      → i < capacity
      → get_or (construct_all trivial d capacity) i none ≡ (if trivial then none else some d)
  unfolding construct_all
  get_or-construct_all true d capacity i p = get_or-replicate capacity i none
  get_or-construct_all false d capacity i p = get_or-full capacity i p

  length-copy :
      (trivial : Bool) (d : T) (r : RingBuffer T)
      → r.size ≤ r.capacity
      → length r.elements ≡ r.capacity
      → length (copy trivial d r).elements ≡ r.capacity
  unfolding copy
  length-copy trivial d r fits room = omega (
    arith,
    length-append (take r.size r.elements) (drop r.size (construct_all trivial d r.capacity)),
    length-take r.size r.elements,
    length-drop r.size (construct_all trivial d r.capacity),
    length-construct_all trivial d r.capacity,
  )

  -- The copy of a buffer that holds `xs` and whose head is the first cell of its block holds `xs`.
  pub copy-Holds :
      (trivial : Bool) (d : T) (r : RingBuffer T) (xs : List T)
      → Holds r xs
      → r.head ≡ 0
      → Holds (copy trivial d r) xs
  unfolding copy
  copy-Holds trivial d r xs h first = record {
    valid = record {
      room = length-copy trivial d r h.valid.size_in h.valid.room;
      head_in = h.valid.head_in;
      size_in = h.valid.size_in;
      tail_before = h.valid.tail_before;
      tail_last = h.valid.tail_last;
    };
    contents =
        tabulate_congr r.size _ _ (λ i p.
          splice_front r.size r.elements _ ((i + r.head) % r.capacity) none
            (omega (
              arith,
              h.valid.size_in,
              mod-eq_of_lt {n = i + r.head} {m = r.capacity} (omega (arith, h.valid.size_in)),
            ))
            (omega (arith, h.valid.size_in, h.valid.room)))
        ∙ h.contents;
  }

  -- The copy of a non-empty buffer whose values lie in one piece that starts behind the first cell
  -- of the block loses its last value: `back` of the copy is an uninitialised cell when values have
  -- a trivial destructor, and a default-constructed value when not.
  pub back-copy :
      (trivial : Bool) (d : T) (r : RingBuffer T) (xs : List T)
      → Holds r xs
      → 0 < r.head
      → 0 < r.size
      → r.head + r.size ≤ r.capacity
      → back (copy trivial d r) ≡ (if trivial then none else some d)
  unfolding copy back back_at raw_at
  back-copy trivial d r xs h moved some_left straight =
      let last : (r.size - 1 + r.head) % r.capacity ≡ r.size - 1 + r.head =
        mod-eq_of_lt {n = r.size - 1 + r.head} {m = r.capacity} (omega arith) in
      rw (h.valid.tail_last some_left, last)
        (splice_back r.size r.elements (construct_all trivial d r.capacity) (r.size - 1 + r.head)
            none (omega arith) (omega (arith, h.valid.room))
            (omega (arith, length-construct_all trivial d r.capacity))
          ∙ get_or-construct_all trivial d r.capacity (r.size - 1 + r.head) (omega arith))

  -- An assignment has the result of the copy, whatever the buffer held.
  assign-copy :
      (trivial : Bool) (d : T) (r rhs : RingBuffer T) → assign trivial d r rhs ≡ copy trivial d rhs
  unfolding assign swap
  assign-copy trivial d r rhs = refl

  -- A buffer to which one that holds `xs`, with the head at the first cell, is assigned holds `xs`.
  assign-Holds :
      (trivial : Bool) (d : T) (r rhs : RingBuffer T) (xs : List T)
      → Holds rhs xs
      → rhs.head ≡ 0
      → Holds (assign trivial d r rhs) xs
  assign-Holds trivial d r rhs xs h first =
      subst (λ b. Holds b xs) (sym (assign-copy trivial d r rhs))
        (copy-Holds trivial d rhs xs h first)
