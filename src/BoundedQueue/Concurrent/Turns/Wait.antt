-- ===== src/BoundedQueue/Concurrent/Turns/Wait.antt =====
-- The wait loop keeps the invariant of the turns, as long as no operation is overtaken by 2^15
-- rounds: the 16 bits of a version cannot tell two such operations apart.
use native.Mathlib.Nat.{add-mul-div_right, div-lt_iff_lt-mul, add-mul-mod_self_right}
use wizard.Prelude.{
  ℕ, ◌+◌, ◌-◌, ◌*◌, ◌%◌, ◌^◌, ◌<◌, ◌≡◌, ◌≢◌, inl, inr, ◌∙◌, ap, true, false, arith, ◌==◌, ==_iff,
  dec_lt, Bool-cases,
}
use wizard.Prelude.Bits.{pow-pos}
use wizard.BoundedQueue.{
  Kind, push, pop, slot_id, expected_version, get_raw_version, is_tagged_version,
  make_tagged_version,
}
use wizard.BoundedQueue.Concurrent.{
  Pc, idle, begun, loaded, waiting, asleep, entered, called, waking, done, System, word, move_to,
  write_word, test_version, futex_wait,
}
use wizard.BoundedQueue.Concurrent.Order.{turn, place, place-lt, expected-eq-turn}
use wizard.BoundedQueue.Concurrent.Turns.{finished, Fits, Turns}
use wizard.BoundedQueue.Concurrent.Turns.Moves.{
  move_to-Turns, write_word-Turns, slot_eq, word_low, not_idle, Fits-at,
}

-- What the versions and the indices can count. An operation that has begun finds the operation of
-- its kind 2^15 rounds before it finished, and the indices stay below the top of `size_t`.
pub record WithinLimits {ℓ} {T : Type ℓ} (s : System T) : Type 0 where
  pub not_overtaken :
      (k : Kind) (i j : ℕ)
      → s.pc k i ≢ idle
      → i ≡ j + 2 ^ 15 * s.queue.capacity
      → finished (s.pc k j) ≡ true
  pub pushes_fit : s.queue.next_push_index + 1 < 2 ^ 64
  pub pops_fit : s.queue.next_pop_index + 1 < 2 ^ 64

Fits-finished : (v t : ℕ) (p : Pc) → Fits v t p → finished p ≡ true → t < v
Fits-finished v t waking h e = h
Fits-finished v t done h e = h
Fits-finished v t idle h e = cc
Fits-finished v t begun h e = cc
Fits-finished v t (loaded c) h e = cc
Fits-finished v t (waiting c) h e = cc
Fits-finished v t (asleep c) h e = cc
Fits-finished v t entered h e = cc
Fits-finished v t called h e = cc

turn_later :
    (bits : ℕ) (k : Kind) (j : ℕ) → turn bits k (j + 2 ^ 15 * 2 ^ bits) ≡ turn bits k j + 2 ^ 16
unfolding turn
turn_later bits k j = omega (arith, add-mul-div_right j (2 ^ 15) {z = 2 ^ bits} (pow-pos bits))

place_later : (bits j : ℕ) → place bits (j + 2 ^ 15 * 2 ^ bits) ≡ place bits j
unfolding place
place_later bits j = add-mul-mod_self_right j (2 ^ 15) (2 ^ bits)

turn_early : (bits : ℕ) (k : Kind) (i : ℕ) → i < 2 ^ 15 * 2 ^ bits → turn bits k i < 2 ^ 16
unfolding turn
turn_early bits push i h =
    omega (arith, (div-lt_iff_lt-mul {k = 2 ^ bits} {x = i} {y = 2 ^ 15} (pow-pos bits)).1 h)
turn_early bits pop i h =
    omega (arith, (div-lt_iff_lt-mul {k = 2 ^ bits} {x = i} {y = 2 ^ 15} (pow-pos bits)).1 h)

module _ {ℓ} {T : Type ℓ} {bits : ℕ} {s : System T} {version : ℕ → ℕ} (inv : Turns bits s version)
    (limits : WithinLimits s) where
  -- The turn of an operation that has begun is less than 2^16 turns away.
  turn-lt-from :
      (k : Kind) (i j : ℕ)
      → s.pc k i ≢ idle
      → i ≡ j + 2 ^ 15 * 2 ^ bits
      → turn bits k i < version (place bits i) + 2 ^ 16
  turn-lt-from k i j started e =
      let over = limits.not_overtaken k i j started (rw inv.laid_out.capacity_eq e) in
      let before = Fits-finished _ _ _ (inv.fits k j) over in
      omega (
        arith,
        before,
        ap (turn bits k) e,
        turn_later bits k j,
        ap version (ap (place bits) e ∙ place_later bits j),
      )

  turn-lt : (k : Kind) (i : ℕ) → s.pc k i ≢ idle → turn bits k i < version (place bits i) + 2 ^ 16
  turn-lt k i started = elim (dec_lt i (2 ^ 15 * 2 ^ bits)) [
    | yes early ↦ omega (arith, turn_early bits k i early)
    | no late ↦ turn-lt-from k i (i - 2 ^ 15 * 2 ^ bits) started (omega arith)
  ]

  module _ (k : Kind) (i : ℕ) where
    pub load-Turns :
        s.pc k i ≡ begun
        → Turns bits (move_to s k i (loaded (word s.queue (slot_id s.queue i)))) version
    load-Turns e =
        let started = not_idle inv k i begun e (λ h. cc (h)) in
        let far = turn-lt k i started in
        let near = Fits-at inv k i e in
        move_to-Turns inv k i _ started (near, λ h. omega (arith, word_low inv i))

    reached :
        (c : ℕ)
        → (get_raw_version c == expected_version s.queue k i) ≡ true
        → c % 2 ^ 16 ≡ turn bits k i % 2 ^ 16
    unfolding get_raw_version
    reached c h = (==_iff _ _).0 h ∙ expected-eq-turn inv.laid_out k i

    missed :
        (c : ℕ)
        → (get_raw_version c == expected_version s.queue k i) ≡ false
        → c % 2 ^ 16 ≢ turn bits k i % 2 ^ 16
    unfolding get_raw_version
    missed c h e = ground (arith, expected-eq-turn inv.laid_out k i)

    -- The tag is set: the word keeps its low half.
    tag-Turns :
        (c : ℕ)
        → s.pc k i ≡ loaded c
        → (get_raw_version c == expected_version s.queue k i) ≡ false
        → is_tagged_version c ≡ false
        → (word s.queue (slot_id s.queue i) == c) ≡ true
        → Turns bits
            (move_to
              (write_word s (slot_id s.queue i) (make_tagged_version c))
              k
              i
              (waiting (make_tagged_version c)))
            version
    unfolding make_tagged_version is_tagged_version write_word
    tag-Turns c e n untagged hit =
        let small : c < 2 ^ 16 = ground arith in
        let held : word s.queue (slot_id s.queue i) ≡ c = (==_iff _ _).0 hit in
        let tagged : (c + 65535 + 1) % 2 ^ 32 ≡ c + 65536 = omega arith in
        move_to-Turns
          (write_word-Turns inv (slot_id s.queue i) (make_tagged_version c)
            (rw (slot_eq inv) (place-lt bits i)) (omega arith))
          k i (waiting (make_tagged_version c)) (not_idle inv k i (loaded c) e (λ h. cc (h)))
          ((Fits-at inv k i e).0, omega arith, λ h. missed c n (omega arith))

    pub test_version-Turns :
        (c : ℕ) → s.pc k i ≡ loaded c → Turns bits (test_version s k i c) version
    unfolding test_version is_tagged_version
    test_version-Turns c e =
        let started = not_idle inv k i (loaded c) e (λ h. cc (h)) in
        let now = Fits-at inv k i e in
        elim (Bool-cases (get_raw_version c == expected_version s.queue k i)) [
          | inl y ↦ rw y (move_to-Turns inv k i entered started (now.1 (reached c y)))
          | inr n ↦ elim (Bool-cases (is_tagged_version c)) [
            | inl tagged ↦
                rw (n, tagged)
                  (move_to-Turns inv k i (waiting c) started (now.0, ground arith, missed c n))
            | inr untagged ↦ elim (Bool-cases (word s.queue (slot_id s.queue i) == c)) [
              | inl hit ↦ rw (n, untagged, hit) (tag-Turns c e n untagged hit)
              | inr miss ↦ rw (n, untagged, miss) (move_to-Turns inv k i begun started now.0)
            ]
          ]
        ]

    pub futex_wait-Turns : (w : ℕ) → s.pc k i ≡ waiting w → Turns bits (futex_wait s k i w) version
    unfolding futex_wait
    futex_wait-Turns w e =
        let started = not_idle inv k i (waiting w) e (λ h. cc (h)) in
        let now = Fits-at inv k i e in
        move_to-Turns inv k i _ started (elim (Bool-cases (word s.queue (slot_id s.queue i) == w)) [
          | inl same ↦ rw same now
          | inr other ↦ rw other now.0
        ])
