-- ===== src/BoundedQueue/Laws.antt =====
-- The constructor of the queue makes a fresh queue, and the version arithmetic of its slots.
use wizard.Prelude.{
  ℕ, ◌-◌, ◌*◌, ◌^◌, ◌≤◌, ◌<◌, ◌≡◌, ◌≢◌, refl, ◌∙◌, arith, some, replicate, length-replicate,
  get_or-replicate, true, false,
}
use wizard.PowTwo.{next_pow_two, popcount}
use wizard.PowTwo.Laws.{next_pow_two_lem, popcount-mask, pow_lt_cancel}
use wizard.BoundedQueue.{
  BoundedQueue, unset, resize, reserve_and_clear, create, get_raw_version, make_tagged_version,
  is_tagged_version,
}
use wizard.BoundedQueue.Concurrent.Results.{IsFresh}

-- The tag leaves the raw version of an untagged word alone, marks the word, and fits 32 bits.
pub tagged_version_lem :
    (version : ℕ)
    → is_tagged_version version ≡ false
    → (get_raw_version (make_tagged_version version) ≡ version)
      × (is_tagged_version (make_tagged_version version) ≡ true)
      × (make_tagged_version version < 2 ^ 32)
unfolding get_raw_version make_tagged_version is_tagged_version
tagged_version_lem version untagged = ground arith

module _ {ℓ} {T : Type ℓ} (default_value : T) where
  new_slots : ℕ → ℕ → BoundedQueue T
  new_slots capacity bits = record {
    values = replicate capacity default_value;
    futexes = replicate capacity 0;
    capacity = capacity;
    round_bits = bits;
    next_push_index = 0;
    next_pop_index = 0;
  }

  create-new_slots :
      (capacity : ℕ)
      → next_pow_two capacity ≢ 0
      → create default_value capacity
        ≡ some (new_slots (next_pow_two capacity) (popcount (next_pow_two capacity - 1)))
  unfolding create reserve_and_clear resize unset new_slots
  create-new_slots capacity ne = ground arith

  new_slots-IsFresh : (bits : ℕ) → bits ≤ 32 → IsFresh bits (new_slots (2 ^ bits) bits)
  unfolding new_slots
  new_slots-IsFresh bits h = record {
    laid_out = record {
      bits_eq = refl;
      bits_le = h;
      capacity_eq = refl;
      futexes_len = length-replicate (2 ^ bits) 0;
      values_len = length-replicate (2 ^ bits) default_value;
    };
    untouched = λ slot. get_or-replicate (2 ^ bits) slot 0;
    no_push = refl;
    no_pop = refl;
  }

  -- For each capacity from 1 to 2^32 the constructor returns a fresh queue whose capacity is a
  -- power of two, at least the given one and less than twice it.
  pub create-IsFresh :
      (capacity : ℕ)
      → 0 < capacity
      → capacity ≤ 2 ^ 32
      → (q : BoundedQueue T) × (bits : ℕ) × (create default_value capacity ≡ some q)
        × IsFresh bits q
        × (capacity ≤ q.capacity)
        × (q.capacity < 2 * capacity)
  unfolding new_slots
  create-IsFresh capacity pos small =
      let (k, _, e, low, high) = next_pow_two_lem capacity pos (omega arith) in
      let fits : k < 33 = pow_lt_cancel k 33 (omega arith) in
      let bits_le : k ≤ 32 = omega arith in
      (
        new_slots (2 ^ k) k,
        k,
        create-new_slots capacity (omega arith) ∙ rw (e, popcount-mask k bits_le) refl,
        new_slots-IsFresh k bits_le,
        omega arith,
        omega arith,
      )
