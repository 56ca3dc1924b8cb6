-- ===== src/RingBuffer/Reads.antt =====
-- src/container/ringbuffer.h: what `front`, `back`, `at` and the iterators read.
use wizard.Prelude.{
  ℕ, zero, suc, ◌+◌, ◌-◌, ◌%◌, ◌<◌, ◌≡◌, refl, sym, ◌∙◌, ap, none, some, List, [], ◌∷◌, map, arith,
  length, get_or, get_elem?,
}
use wizard.Prelude.Tabulate.{get_or-tabulate}
use native.Mathlib.Nat.{mod-eq_of_lt}
use wizard.RingBuffer.{RingBuffer, raw_at, at, front, back, back_at}
use wizard.RingBuffer.Laws.{Holds, size_lem}

module _ {ℓ} {T : Type ℓ} where
  get_or-map-some : (xs : List T) (i : ℕ) → get_or (map some xs) i none ≡ get_elem? xs i
  get_or-map-some [] i = refl
  get_or-map-some (x ∷ xs) zero = refl
  get_or-map-some (x ∷ xs) (suc i) = get_or-map-some xs i

  -- In a buffer that holds `xs`, `at i` is the value number `i` of `xs`, for every `i` below the
  -- number of values.
  pub at_lem :
      (r : RingBuffer T) (xs : List T) (i : ℕ)
      → Holds r xs
      → i < length xs
      → at r i ≡ get_elem? xs i
  unfolding at raw_at
  at_lem r xs i h p =
      let q : i < r.size = omega (arith, size_lem h) in
      sym
        (get_or-tabulate r.size (λ j. get_or r.elements ((j + r.head) % r.capacity) none) i none q)
      ∙ ap (λ l. get_or l i none) h.contents
      ∙ get_or-map-some xs i

  -- `front` and `back` of a buffer that holds a non-empty `xs` are its first and its last value.
  pub front-back :
      (r : RingBuffer T) (xs : List T)
      → Holds r xs
      → 0 < length xs
      → (front r ≡ get_elem? xs 0) × (back r ≡ get_elem? xs (length xs - 1))
  unfolding front back back_at raw_at at
  front-back r xs h p =
      let q : 0 < r.size = omega (arith, size_lem h) in
      let here : r.head ≡ (0 + r.head) % r.capacity =
        omega (
          arith,
          mod-eq_of_lt {n = 0 + r.head} {m = r.capacity} (omega (arith, h.valid.head_in)),
        ) in
      (
        ap (λ j. get_or r.elements j none) here ∙ at_lem r xs 0 h p,
        rw (h.valid.tail_last q, size_lem h) (at_lem r xs (length xs - 1) h (omega arith)),
      )
