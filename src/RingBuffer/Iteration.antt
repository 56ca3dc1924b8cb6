-- ===== src/RingBuffer/Iteration.antt =====
-- src/container/ringbuffer.h: the loops from `begin` to `end` and from `rbegin` to `rend`.
use wizard.Prelude.{
  ℕ, zero, suc, ◌+◌, ◌-◌, ◌%◌, ◌^◌, ◌≤◌, ◌<◌, ◌≡◌, ◌≢◌, refl, ◌∙◌, ap, true, false, Option, none,
  some, List, [], ◌∷◌, map, arith, ==_ne, ==_eq, length, get_or,
}
use wizard.Prelude.Int.{pos}
use wizard.Prelude.Tabulate.{tabulate, cons_congr, tabulate_last, tabulate_congr}
use mathlib.Core.List.{reverse, reverse-append}
use native.Mathlib.Nat.{mod-eq_of_lt, mod-eq-sub-mod, mod-add-mod, add-mod_right, mod-lt}
use wizard.RingBuffer.{
  RingBuffer, RingBufferIterator, next_tail, to_size, raw_at, begin, end, equals, dereference,
  increment, walk,
}
use wizard.RingBuffer.Laws.{Holds, size_lem}

-- `index_ + c - 1` in 64 bits, when `c` is below the range of an `int`.
step_back :
    (j head capacity : ℕ)
    → head < capacity
    → capacity ≤ 2 ^ 31
    → ((suc j + head) % capacity + capacity + (2 ^ 64 - 1)) % 2 ^ 64 % capacity
      ≡ (j + head) % capacity
step_back j head capacity inside small =
    let index = (suc j + head) % capacity in
    let below : index < capacity = mod-lt (suc j + head) {m = capacity} (omega arith) in
    let word : (index + capacity + (2 ^ 64 - 1)) % 2 ^ 64 ≡ index + (capacity - 1) = omega (
      arith,
      mod-eq-sub-mod {n = index + capacity + (2 ^ 64 - 1)} {m = 2 ^ 64} (omega arith),
      mod-eq_of_lt {n = index + capacity + (2 ^ 64 - 1) - 2 ^ 64} {m = 2 ^ 64} (omega arith),
    ) in
    let round : suc j + head + (capacity - 1) ≡ j + head + capacity = omega arith in
    ap (λ k. k % capacity) word
    ∙ mod-add-mod (suc j + head) capacity (capacity - 1)
    ∙ ap (λ k. k % capacity) round
    ∙ add-mod_right (j + head) capacity

module _ {ℓ} {T : Type ℓ} where
  -- The cell number `i` from the head on.
  abbrev cell : RingBuffer T → ℕ → Option T
  cell r i = get_or r.elements ((i + r.head) % r.capacity) none

  walk_forward :
      (r : RingBuffer T) (m rounds k : ℕ) (it : RingBufferIterator)
      → it.index ≡ pos ((k + r.head) % r.capacity)
      → it.plus_count ≡ k
      → m + k ≡ r.size
      → m < rounds
      → walk false r rounds it ≡ tabulate m (λ i. cell r (i + k))
  unfolding walk equals end dereference increment raw_at to_size next_tail
  walk_forward r m zero k it at count left fuel = absurd (omega arith)
  walk_forward r zero (suc rounds) k it at count left fuel =
      let e : it.plus_count ≡ r.size = omega arith in rw (==_eq e) refl
  walk_forward r (suc m) (suc rounds) k it at count left fuel =
      let e : it.plus_count ≢ r.size = omega arith in
      let here : k ≡ 0 + k = omega arith in
      let there : k + r.head + 1 ≡ k + 1 + r.head = omega arith in
      rw (==_ne e, at)
        (cons_congr (ap (cell r) here) (
          walk_forward r m rounds (k + 1) _
            (ap pos (mod-add-mod (k + r.head) r.capacity 1 ∙ ap (λ n. n % r.capacity) there))
            (omega arith) (omega arith) (omega arith)
          ∙ tabulate_congr m (λ i. cell r (i + (k + 1))) (λ i. cell r (suc i + k))
              (λ i p. let next : i + (k + 1) ≡ suc i + k = omega arith in ap (cell r) next)))

  walk_backward :
      (r : RingBuffer T) (m rounds : ℕ) (it : RingBufferIterator)
      → r.head < r.capacity
      → r.capacity ≤ 2 ^ 31
      → (0 < m → it.index ≡ pos ((m - 1 + r.head) % r.capacity))
      → it.plus_count + m ≡ r.size
      → m < rounds
      → walk true r rounds it ≡ reverse (tabulate m (cell r))
  unfolding walk equals end dereference increment raw_at to_size
  walk_backward r m zero it inside small at left fuel = absurd (omega arith)
  walk_backward r zero (suc rounds) it inside small at left fuel =
      let e : it.plus_count ≡ r.size = omega arith in rw (==_eq e) refl
  walk_backward r (suc m) (suc rounds) it inside small at left fuel =
      let e : it.plus_count ≢ r.size = omega arith in
      let here : suc m - 1 ≡ m = omega arith in
      rw
        (
          ==_ne e,
          at (omega arith),
          tabulate_last m (cell r),
          reverse-append (tabulate m (cell r)) (cell r m ∷ []),
        )
        (cons_congr (ap (cell r) here) (
          walk_backward r m rounds _ inside small
            (λ p.
              let back : suc m - 1 ≡ suc (m - 1) = omega arith in
              ap pos (
                ap
                  (λ n.
                    ((n + r.head) % r.capacity + r.capacity + (2 ^ 64 - 1)) % 2 ^ 64 % r.capacity)
                  back
                ∙ step_back (m - 1) r.head r.capacity inside small))
            (omega arith) (omega arith)))

  -- In a buffer that holds `xs`, the loop from `begin` to `end` reads the values of `xs` in their
  -- order and then stops, within `length xs` rounds and one test more.
  pub walk-begin :
      (r : RingBuffer T) (xs : List T) (rounds : ℕ)
      → Holds r xs
      → length xs < rounds
      → walk false r rounds (begin false r) ≡ map some xs
  unfolding begin
  walk-begin r xs rounds h fuel =
      let head : r.head ≡ (0 + r.head) % r.capacity =
        omega (
          arith,
          mod-eq_of_lt {n = 0 + r.head} {m = r.capacity} (omega (arith, h.valid.head_in)),
        ) in
      walk_forward r r.size rounds 0 _ (ap pos head) refl (omega arith) (omega (arith, size_lem h))
      ∙ tabulate_congr r.size (λ i. cell r (i + 0)) (cell r)
          (λ i p. let e : i + 0 ≡ i = omega arith in ap (cell r) e)
      ∙ h.contents

  -- In a buffer that holds `xs` and whose capacity is at most 2^31, the loop from `rbegin` to
  -- `rend` reads the values of `xs` from the last to the first and then stops, within `length xs`
  -- rounds and one test more.
  pub walk-rbegin :
      (r : RingBuffer T) (xs : List T) (rounds : ℕ)
      → Holds r xs
      → r.capacity ≤ 2 ^ 31
      → length xs < rounds
      → walk true r rounds (begin true r) ≡ reverse (map some xs)
  unfolding begin
  walk-rbegin r xs rounds h small fuel =
      walk_backward r r.size rounds _ h.valid.head_in small h.valid.tail_last (omega arith)
        (omega (arith, size_lem h))
      ∙ ap reverse h.contents
