-- ===== src/ConcurrentVector/Covers.antt =====
-- src/concurrent/vector.h: which elements the callback of `for_each` gets.
use wizard.Prelude.{
  ℕ, zero, suc, ◌+◌, ◌-◌, ◌*◌, ◌^◌, ◌≤◌, ◌<◌, ◌≡◌, ◌≢◌, refl, sym, ◌∙◌, ap, true, some, List, [],
  ◌∷◌, ◌++◌, append_assoc, append-nil, arith, ==_eq, ==_ne, ltb, lt→ltb,
}
use wizard.Prelude.Bits.{and-mask, pow-pos}
use native.Mathlib.Nat.{mod-add-div', mod-lt, add-mul}
use wizard.ConcurrentVector.{
  Meta, Range, get_shard_id, get_shard_offset, middle, last_part, for_each,
}

-- x, x + 1, …, x + (k - 1)
abbrev pub seq : ℕ → ℕ → List ℕ
seq x zero = []
seq x (suc k) = x ∷ seq (suc x) k

-- The indices of the elements that the calls get, in their order.
abbrev pub covers : Meta → List Range → List ℕ
covers m [] = []
covers m (r ∷ rs) = seq (r.shard * m.num_per_shard + r.from) (r.to - r.from) ++ covers m rs

-- As the constructor of the vector sets it up.
pub record IsMeta (m : Meta) : Type 0 where
  pub power : m.num_per_shard ≡ 2 ^ m.shard_bit

seq-append : (x j k : ℕ) → seq x j ++ seq (x + j) k ≡ seq x (j + k)
seq-append x zero k =
    let e : x + 0 ≡ x = omega arith in let f : 0 + k ≡ k = omega arith in rw (e, f) refl
seq-append x (suc j) k =
    let e : x + suc j ≡ suc x + j = omega arith in
    let f : suc j + k ≡ suc (j + k) = omega arith in
    rw (e, f) (ap (λ l. x ∷ l) (seq-append (suc x) j k))

seq_join : (x y j k n : ℕ) → y ≡ x + j → n ≡ j + k → seq x j ++ seq y k ≡ seq x n
seq_join x y j k n e f = rw (e, f) (seq-append x j k)

middle_lem :
    (m : Meta) (shard_num k rounds shard end_shard : ℕ)
    → shard + k ≡ end_shard
    → end_shard ≤ shard_num
    → k < rounds
    → (between : List Range) × (middle m shard_num end_shard rounds shard ≡ some between)
      × (covers m between ≡ seq (shard * m.num_per_shard) (k * m.num_per_shard))
unfolding middle
middle_lem m shard_num k zero shard end_shard at fits fuel = absurd (omega arith)
middle_lem m shard_num zero (suc rounds) shard end_shard at fits fuel =
    let e : shard ≡ end_shard = omega arith in
    let z : 0 * m.num_per_shard ≡ 0 = omega arith in rw (==_eq e, z) ([], refl, refl)
middle_lem m shard_num (suc k) (suc rounds) shard end_shard at fits fuel =
    let e : shard ≢ end_shard = omega arith in
    let room : ltb shard shard_num ≡ true = ground arith in
    let n = m.num_per_shard in
    let rest =
      middle_lem m shard_num k rounds (shard + 1) end_shard (omega arith) fits (omega arith) in
    let z : shard * n + 0 ≡ shard * n = omega arith in
    let joined : seq (shard * n + 0) (n - 0) ++ seq ((shard + 1) * n) (k * n)
        ≡ seq (shard * n) (suc k * n) =
      rw z (
        seq_join (shard * n) ((shard + 1) * n) (n - 0) (k * n) (suc k * n) (omega arith)
          (omega arith)) in
    rw (==_ne e, room, rest.1)
      (
        record { shard = shard; from = 0; to = n } ∷ rest.0,
        refl,
        ap (λ l. seq (shard * n + 0) (n - 0) ++ l) rest.2 ∙ joined,
      )

-- An index is the start of its shard and its offset there.
pub split :
    (m : Meta) (index : ℕ)
    → IsMeta m
    → (get_shard_id m index * m.num_per_shard + get_shard_offset m index ≡ index)
      × (get_shard_offset m index < m.num_per_shard)
unfolding get_shard_id get_shard_offset
split m index w =
    rw (w.power, and-mask m.shard_bit index)
      (
        omega (arith, mod-add-div' index (2 ^ m.shard_bit)),
        mod-lt index {m = 2 ^ m.shard_bit} (pow-pos m.shard_bit),
      )

last_part_lem :
    (m : Meta) (shard_num a e p : ℕ)
    → a < e
    → (0 < p → e < shard_num)
    → (last : List Range) × (last_part shard_num a e p ≡ some last)
      × (covers m last ≡ seq (e * m.num_per_shard) p)
unfolding last_part
last_part_lem m shard_num a e zero order fits =
    let early : ltb a e ≡ true = lt→ltb a e order in rw early ([], refl, refl)
last_part_lem m shard_num a e (suc p) order fits =
    let early : ltb a e ≡ true = lt→ltb a e order in
    let some_left : ltb 0 (suc p) ≡ true = ground arith in
    let room : ltb e shard_num ≡ true = lt→ltb e shard_num (fits (omega arith)) in
    let z : e * m.num_per_shard + 0 ≡ e * m.num_per_shard = omega arith in
    let whole : suc p - 0 ≡ suc p = omega arith in
    rw (early, some_left, room)
      (record { shard = e; from = 0; to = suc p } ∷ [], refl, rw (z, whole) (append-nil _))

covers-append : (m : Meta) (rs ss : List Range) → covers m (rs ++ ss) ≡ covers m rs ++ covers m ss
covers-append m [] ss = refl
covers-append m (r ∷ rs) ss =
    ap (λ l. seq (r.shard * m.num_per_shard + r.from) (r.to - r.from) ++ l) (covers-append m rs ss)
    ∙ sym (
        append_assoc (seq (r.shard * m.num_per_shard + r.from) (r.to - r.from)) (covers m rs)
          (covers m ss))

pub shards_apart : (a e n : ℕ) → a < e → e * n ≡ (a + 1) * n + (e - (a + 1)) * n
shards_apart a e n order =
    let whole : e ≡ a + 1 + (e - (a + 1)) = omega arith in
    let d = e - (a + 1) in
    let spread : (a + 1 + d) * n ≡ (a + 1) * n + d * n = add-mul (a + 1) d n in
    ap (λ k. k * n) whole ∙ spread

-- When the start lies in an earlier shard than the end, and each shard with an element before the
-- end exists, `for_each` stays inside the table, and its calls get the elements from the start to
-- the end, without the end, each once and in their order.
pub covers-for_each :
    (m : Meta) (shard_num start end : ℕ)
    → IsMeta m
    → get_shard_id m start < get_shard_id m end
    → get_shard_id m end ≤ shard_num
    → (0 < get_shard_offset m end → get_shard_id m end < shard_num)
    → (ranges : List Range) × (for_each m shard_num start end ≡ some ranges)
      × (covers m ranges ≡ seq start (end - start))
unfolding for_each
covers-for_each m shard_num start end w order fits last_fits =
    let a = get_shard_id m start in
    let e = get_shard_id m end in
    let n = m.num_per_shard in
    let first = split m start w in
    let final = split m end w in
    let room : ltb a shard_num ≡ true = lt→ltb a shard_num (omega arith) in
    let between =
      middle_lem m shard_num (e - (a + 1)) (shard_num + 1) (a + 1) e (omega arith) fits
        (omega arith) in
    let last = last_part_lem m shard_num a e (get_shard_offset m end) order last_fits in
    let o = get_shard_offset m start in
    let p = get_shard_offset m end in
    let d = e - (a + 1) in
    let far : e * n ≡ (a + 1) * n + d * n = shards_apart a e n order in
    let between_last : seq ((a + 1) * n) (d * n) ++ seq (e * n) p ≡ seq ((a + 1) * n) (d * n + p) =
      seq_join ((a + 1) * n) (e * n) (d * n) p (d * n + p) far refl in
    let all : seq (a * n + o) (n - o) ++ seq ((a + 1) * n) (d * n + p)
        ≡ seq (a * n + o) (end - start) =
      seq_join (a * n + o) ((a + 1) * n) (n - o) (d * n + p) (end - start) (omega (arith, first.1))
        (omega (arith, first.0, first.1, final.0, far)) in
    rw (room, between.1, last.1)
      (
        record { shard = a; from = o; to = n } ∷ (between.0 ++ last.0),
        refl,
        ap (λ l. seq (a * n + o) (n - o) ++ l)
              (covers-append m between.0 last.0 ∙ rw (between.2, last.2) between_last)
            ∙ all
            ∙ ap (λ x. seq x (end - start)) first.0,
      )
