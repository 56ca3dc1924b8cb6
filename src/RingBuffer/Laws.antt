-- ===== src/RingBuffer/Laws.antt =====
-- The ring buffer holds a list of at most `capacity` values, oldest first.
use wizard.Prelude.{
  ℕ, suc, ◌+◌, ◌-◌, ◌%◌, ◌≤◌, ◌<◌, ◌≡◌, ◌≢◌, refl, sym, ◌∙◌, ap, Bool, true, false, Option, none,
  some, List, [], ◌∷◌, ◌++◌, map, arith, ==_ne, length, get_or, set, length-set, get_or-set_self,
  get_or-set_ne, ℕ_discrete, drop, length-replicate,
}
use wizard.Prelude.Int.{pos}
use wizard.Prelude.Tabulate.{tabulate, length-tabulate, tabulate_last, tabulate_congr, mod-distinct}
use native.Mathlib.Nat.{mod-lt, add-mod-mod, mod-add-mod, mod-eq_of_lt}
use wizard.RingBuffer.{RingBuffer, next_tail, create, destroy, emplace_back_impl}

mod-step :
    (i head capacity : ℕ) → (i + (head + 1) % capacity) % capacity ≡ (suc i + head) % capacity
mod-step i head capacity =
    let e : i + (head + 1) ≡ suc i + head = omega arith in
    add-mod-mod i (head + 1) capacity ∙ ap (λ k. k % capacity) e

module _ {ℓ} {T : Type ℓ} where
  -- The cells from the head on, as many as `size_` says.
  abbrev pub cells : RingBuffer T → List (Option T)
  cells r = tabulate r.size (λ i. get_or r.elements ((i + r.head) % r.capacity) none)

  -- The representation invariant; the tail is the place before the next one to fill.
  pub record IsValid (r : RingBuffer T) : Type ℓ where
    pub room : length r.elements ≡ r.capacity
    pub head_in : r.head < r.capacity
    pub size_in : r.size ≤ r.capacity
    pub tail_before : next_tail r.tail r.capacity ≡ (r.head + r.size) % r.capacity
    pub tail_last : 0 < r.size → r.tail ≡ pos ((r.size - 1 + r.head) % r.capacity)

  -- The buffer holds exactly these values.
  pub record Holds (r : RingBuffer T) (xs : List T) : Type ℓ where
    pub valid : IsValid r
    pub contents : cells r ≡ map some xs

  length-map-some : (xs : List T) → length (map some xs) ≡ length xs
  length-map-some [] = refl
  length-map-some (x ∷ xs) = ap suc (length-map-some xs)

  pub size_lem : {r : RingBuffer T} {xs : List T} → Holds r xs → r.size ≡ length xs
  size_lem {r} {xs} h = sym (length-tabulate r.size _) ∙ ap length h.contents ∙ length-map-some xs

  map-append_one : (xs : List T) (v : T) → map some xs ++ (some v ∷ []) ≡ map some (xs ++ (v ∷ []))
  map-append_one [] v = refl
  map-append_one (x ∷ xs) v = ap (λ l. some x ∷ l) (map-append_one xs v)

  -- A constructed buffer is empty.
  pub create-Holds : (capacity : ℕ) → 0 < capacity → Holds (create {T = T} capacity) []
  unfolding create next_tail
  create-Holds capacity pos_capacity = record {
    valid = record {
      room = length-replicate capacity none;
      head_in = pos_capacity;
      size_in = omega arith;
      tail_before = refl;
      tail_last = λ p. absurd (omega arith);
    };
    contents = refl;
  }

  -- A cell set behind the last one extends the cells.
  set-cells :
      (es : List (Option T)) (n head capacity place : ℕ) (v : T)
      → length es ≡ capacity
      → n < capacity
      → head < capacity
      → place ≡ (n + head) % capacity
      → tabulate (suc n) (λ i. get_or (set es place (some v)) ((i + head) % capacity) none)
        ≡ tabulate n (λ i. get_or es ((i + head) % capacity) none) ++ (some v ∷ [])
  set-cells es n head capacity place v room fits inside behind =
      tabulate_last n (λ i. get_or (set es place (some v)) ((i + head) % capacity) none)
      ∙ rw (
        tabulate_congr n (λ i. get_or (set es place (some v)) ((i + head) % capacity) none)
            (λ i. get_or es ((i + head) % capacity) none)
            (λ i p.
              get_or-set_ne es place ((i + head) % capacity) (some v) none
                (λ e. mod-distinct capacity head i n inside p fits (sym e ∙ behind))),
        sym behind,
        get_or-set_self es place (some v) none
            (grind (arith, mod-lt (n + head) {m = capacity} (omega arith))),
      )

  -- Taking the first cell away leaves the cells behind it.
  tail-cells :
      (es fs : List (Option T)) (n head capacity : ℕ)
      → head < capacity
      → suc n ≤ capacity
      → ((i : ℕ) → i ≢ head → get_or fs i none ≡ get_or es i none)
      → get_or es head none
          ∷ tabulate n (λ i. get_or fs ((i + (head + 1) % capacity) % capacity) none)
        ≡ tabulate (suc n) (λ i. get_or es ((i + head) % capacity) none)
  tail-cells es fs n head capacity inside fits same =
      let first : get_or es ((0 + head) % capacity) none ≡ get_or es head none =
        ap (λ j. get_or es j none)
          (omega (arith, mod-eq_of_lt {n = 0 + head} {m = capacity} (omega arith))) in
      rw (
        first,
        tabulate_congr n (λ i. get_or fs ((i + (head + 1) % capacity) % capacity) none)
            (λ i. get_or es ((suc i + head) % capacity) none)
            (λ i p.
              same ((i + (head + 1) % capacity) % capacity) (
                grind (
                  arith,
                  mod-step i head capacity,
                  mod-distinct capacity head 0 (suc i) inside (omega arith) (omega arith),
                  mod-eq_of_lt {n = head} {m = capacity} inside,
                ))
              ∙ ap (λ j. get_or es j none) (mod-step i head capacity)),
      )

  destroy_other :
      (trivial : Bool) (es : List (Option T)) (head i : ℕ)
      → i ≢ head
      → get_or (destroy trivial head es) i none ≡ get_or es i none
  unfolding destroy
  destroy_other true es head i ne = refl
  destroy_other false es head i ne = get_or-set_ne es head i none none (λ e. ne (sym e))

  length-destroy :
      (trivial : Bool) (es : List (Option T)) (head : ℕ)
      → length (destroy trivial head es) ≡ length es
  unfolding destroy
  length-destroy true es head = refl
  length-destroy false es head = length-set es head none

  uncons-map :
      {y : Option T} {ys : List (Option T)} (xs : List T)
      → y ∷ ys ≡ map some xs
      → ys ≡ map some (drop 1 xs)
  uncons-map [] e = absurd (cc (e))
  uncons-map (x ∷ xs) e = cc (e)

  -- What a removal at the head leaves.
  pub rest-Holds :
      (trivial : Bool) (r : RingBuffer T) (xs : List T)
      → Holds r xs
      → r.size ≢ 0
      → Holds
          (record r {
            elements = destroy trivial r.head r.elements;
            size = r.size - 1;
            head = (r.head + 1) % r.capacity;
          })
          (drop 1 xs)
  rest-Holds trivial r xs h some_left =
      let back_one : suc (r.size - 1) ≡ r.size = omega arith in
      let turned : (r.head + r.size) % r.capacity
          ≡ ((r.head + 1) % r.capacity + (r.size - 1)) % r.capacity =
        let e : r.head + r.size ≡ r.head + 1 + (r.size - 1) = omega arith in
        ap (λ k. k % r.capacity) e ∙ sym (mod-add-mod (r.head + 1) r.capacity (r.size - 1)) in
      record {
        valid = record {
          room = length-destroy trivial r.elements r.head ∙ h.valid.room;
          head_in = mod-lt (r.head + 1) {m = r.capacity} (omega (arith, h.valid.head_in));
          size_in = omega (arith, h.valid.size_in);
          tail_before = h.valid.tail_before ∙ turned;
          tail_last = λ p.
              let e : r.size - 1 + r.head ≡ r.size - 1 - 1 + (r.head + 1) = omega arith in
              h.valid.tail_last (omega arith)
              ∙ ap (λ k. pos (k % r.capacity)) e
              ∙ ap pos (sym (add-mod-mod (r.size - 1 - 1) (r.head + 1) r.capacity));
        };
        contents = uncons-map xs (
            tail-cells r.elements (destroy trivial r.head r.elements) (r.size - 1) r.head r.capacity
              h.valid.head_in (omega (arith, h.valid.size_in))
              (λ i. destroy_other trivial r.elements r.head i)
            ∙ ap (λ n. tabulate n (λ i. get_or r.elements ((i + r.head) % r.capacity) none))
                back_one
            ∙ h.contents);
      }

  pub emplace_back_impl-Holds :
      (r : RingBuffer T) (xs : List T) (v : T)
      → Holds r xs
      → r.size < r.capacity
      → (s : RingBuffer T) × (emplace_back_impl v r ≡ some s)
        × Holds s (xs ++ (v ∷ []))
        × (s.capacity ≡ r.capacity)
  unfolding emplace_back_impl next_tail
  emplace_back_impl-Holds r xs v h room =
      let moved : next_tail (pos (next_tail r.tail r.capacity)) r.capacity
          ≡ (r.head + (r.size + 1)) % r.capacity =
        let e : r.head + r.size + 1 ≡ r.head + (r.size + 1) = omega arith in
        ap (λ k. (k + 1) % r.capacity) h.valid.tail_before
        ∙ mod-add-mod (r.head + r.size) r.capacity 1
        ∙ ap (λ k. k % r.capacity) e in
      let behind : next_tail r.tail r.capacity ≡ (r.size + r.head) % r.capacity =
        let e : r.head + r.size ≡ r.size + r.head = omega arith in
        h.valid.tail_before ∙ ap (λ k. k % r.capacity) e in
      let grown =
        set-cells r.elements r.size r.head r.capacity (next_tail r.tail r.capacity) v h.valid.room
          room h.valid.head_in behind in
      let more : r.size + 1 ≡ suc r.size = omega arith in
      let back_one =
        ap
          (λ n. tabulate n (λ i.
            get_or (set r.elements (next_tail r.tail r.capacity) (some v))
              ((i + r.head) % r.capacity) none))
          more in
      elim (ℕ_discrete r.capacity 0) [
        | yes e ↦ absurd (omega arith)
        | no ne ↦ rw (==_ne ne) (
          record r {
            tail = pos (next_tail r.tail r.capacity);
            elements = set r.elements (next_tail r.tail r.capacity) (some v);
            size = r.size + 1;
          },
          refl,
          record {
            valid = record {
              room = length-set r.elements (next_tail r.tail r.capacity) (some v) ∙ h.valid.room;
              head_in = h.valid.head_in;
              size_in = omega arith;
              tail_before = moved;
              tail_last = λ p.
                  let e : r.size + r.head ≡ r.size + 1 - 1 + r.head = omega arith in
                  ap pos (behind ∙ ap (λ k. k % r.capacity) e);
            };
            contents =
                back_one ∙ grown ∙ ap (λ l. l ++ (some v ∷ [])) h.contents ∙ map-append_one xs v;
          },
          refl,
        )
      ]
