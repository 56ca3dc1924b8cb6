-- ===== src/RingBuffer/Fifo.antt =====
-- src/container/ringbuffer.h: what the operations do to the list of values the buffer holds.
use wizard.Prelude.{
  ℕ, zero, suc, ◌-◌, ◌<◌, ◌≡◌, ◌≢◌, refl, sym, ◌∙◌, Bool, true, false, some, List, [], ◌∷◌, ◌++◌,
  arith, ◌==◌, ==_ne, ==_eq, if◌then◌else◌, length, ℕ_discrete, drop,
}
use wizard.RingBuffer.{
  RingBuffer, next_tail, is_empty, is_full, pop_front, emplace_back_impl, emplace_back,
  destroy_loop, clear,
}
use wizard.RingBuffer.Laws.{Holds, size_lem, rest-Holds, emplace_back_impl-Holds}

module _ {ℓ} {T : Type ℓ} where
  -- The list after one more value: a full buffer drops its oldest value or refuses the new one.
  abbrev pub bounded_push : Bool → ℕ → T → List T → List T
  bounded_push overwrite capacity v xs =
      if length xs == capacity
      then (if overwrite then drop 1 xs ++ (v ∷ []) else xs)
      else xs ++ (v ∷ [])

  drop-none : (xs : List T) → length xs ≡ 0 → drop 1 xs ≡ xs
  drop-none [] e = refl
  drop-none (x ∷ xs) e = absurd (omega arith)

  pop_front-room :
      (trivial : Bool) (r : RingBuffer T)
      → r.size ≢ 0
      → ((pop_front trivial r).size ≡ r.size - 1) × ((pop_front trivial r).capacity ≡ r.capacity)
  unfolding pop_front is_empty
  pop_front-room trivial r ne = rw (==_ne ne) (refl, refl)

  -- Removing the front of a buffer that holds `xs` leaves one that holds `xs` without its first
  -- value, and `[]` when `xs` is empty.
  pub pop_front-Holds :
      (trivial : Bool) (r : RingBuffer T) (xs : List T)
      → Holds r xs
      → Holds (pop_front trivial r) (drop 1 xs)
  unfolding pop_front is_empty
  pop_front-Holds trivial r xs h = elim (ℕ_discrete r.size 0) [
    | yes e ↦ rw (==_eq e, drop-none xs (sym (size_lem h) ∙ e)) h
    | no ne ↦ rw (==_ne ne) (rest-Holds trivial r xs h ne)
  ]

  full-Holds :
      (overwrite trivial : Bool) (v : T) (r : RingBuffer T) (xs : List T)
      → Holds r xs
      → r.size ≡ r.capacity
      → (s : RingBuffer T) × ((if overwrite
            then emplace_back_impl v (pop_front trivial r)
            else some r)
          ≡ some s)
        × Holds s (if overwrite then drop 1 xs ++ (v ∷ []) else xs)
        × (s.capacity ≡ r.capacity)
  full-Holds false trivial v r xs h full = (r, refl, h, refl)
  full-Holds true trivial v r xs h full =
      let left = pop_front-room trivial r (omega (arith, h.valid.head_in)) in
      let grown =
        emplace_back_impl-Holds (pop_front trivial r) (drop 1 xs) v (pop_front-Holds trivial r xs h)
          (omega (arith, h.valid.head_in, left)) in
      (grown.0, grown.1, grown.2, grown.3 ∙ left.1)

  -- Adding `v` to a buffer that holds `xs` returns a buffer that holds `xs` with `v` behind it;
  -- when `xs` already has `capacity` values, the oldest one goes first if the buffer overwrites,
  -- and `xs` stays as it is if not. The capacity does not change.
  pub emplace_back-Holds :
      (overwrite trivial : Bool) (v : T) (r : RingBuffer T) (xs : List T)
      → Holds r xs
      → (s : RingBuffer T) × (emplace_back overwrite trivial v r ≡ some s)
        × Holds s (bounded_push overwrite r.capacity v xs)
        × (s.capacity ≡ r.capacity)
  unfolding emplace_back is_full
  emplace_back-Holds overwrite trivial v r xs h = elim (ℕ_discrete r.size r.capacity) [
    | yes e ↦ rw (==_eq e, ==_eq (sym (size_lem h) ∙ e)) (full-Holds overwrite trivial v r xs h e)
    | no ne ↦
        rw (==_ne ne, ==_ne (λ e. ne (size_lem h ∙ e)))
          (emplace_back_impl-Holds r xs v h (omega (arith, h.valid.size_in)))
  ]

  clear_cells :
      (r : RingBuffer T) → 0 < r.capacity → length r.elements ≡ r.capacity → Holds (clear true r) []
  unfolding clear next_tail
  clear_cells r room fits = record {
    valid = record {
      room = fits;
      head_in = room;
      size_in = omega arith;
      tail_before = refl;
      tail_last = λ p. absurd (omega arith);
    };
    contents = refl;
  }

  destroy_loop-Holds :
      (n : ℕ) (r : RingBuffer T) (xs : List T)
      → r.size ≡ n
      → Holds r xs
      → Holds (destroy_loop n r) []
  unfolding destroy_loop is_empty
  destroy_loop-Holds zero r [] e h = h
  destroy_loop-Holds zero r (x ∷ xs) e h = absurd (omega (arith, size_lem h))
  destroy_loop-Holds (suc n) r xs e h =
      let ne : r.size ≢ 0 = omega arith in
      rw (==_ne ne) (destroy_loop-Holds n _ (drop 1 xs) (omega arith) (rest-Holds false r xs h ne))

  -- After `clear` a buffer, whatever it held, holds nothing, whether or not its values have a
  -- destructor to run.
  pub clear-Holds :
      (trivial : Bool) (r : RingBuffer T) (xs : List T) → Holds r xs → Holds (clear trivial r) []
  unfolding clear
  clear-Holds true r xs h = clear_cells r (omega (arith, h.valid.head_in)) h.valid.room
  clear-Holds false r xs h = destroy_loop-Holds r.size r xs refl h
