-- ===== src/ConcurrentVector/Table/Growth.antt =====
-- `ConcurrentVector::ensure_table` of src/concurrent/vector.h: a table is as long as it was asked
-- for, and what two calls at once do to the shards.
use wizard.Prelude.{
  ℕ, zero, suc, ◌+◌, ◌-◌, ◌≤◌, ◌<◌, ◌≡◌, inl, inr, refl, sym, ◌∙◌, ap, subst, Bool-cases,
  Option-cases, some, List, [], ◌∷◌, arith, ltb, leb, if◌then◌else◌, length, length-append,
  length-take, get_elem?, set, set_cases, get_elem?-replicate, take, ℕ_discrete, ==_eq, ==_ne,
}
use wizard.Prelude.Functions.{assign_at, assign_at_self, assign_at_ne}
use wizard.ConcurrentVector.Table.{
  Vector, Call, outside, growing, returned, Event, ensure_table, compare_exchange, System, current,
  create_shards, fill_table, load_table, publish_table, round_of, step, exec, initial,
}

pub length-create_shards : (k next : ℕ) → length (create_shards k next) ≡ k
unfolding create_shards
length-create_shards zero next = refl
length-create_shards (suc k) next = ap suc (length-create_shards k (next + 1))

pub length-fill_table :
    (old : List ℕ) (old_shard_num shard_num next : ℕ)
    → old_shard_num ≤ length old
    → old_shard_num ≤ shard_num
    → length (fill_table old old_shard_num shard_num next) ≡ shard_num
unfolding fill_table
length-fill_table old a b next p q = omega (
  arith,
  length-append (take a old) (create_shards (b - a) next),
  length-take a old,
  length-create_shards (b - a) next,
)

-- What a call relies on: its old table exists and is not longer than wanted, and a table that it
-- has returned is long enough.
abbrev CallOk : Vector → Call → Type 0
CallOk v outside = Unit {0}
CallOk v (growing old old_shard_num shard_num) =
    (old < v.next_table)
    × (old_shard_num ≤ length (v.tables old))
    × (length (v.tables old) ≤ shard_num)
    × (old_shard_num ≤ length (current v))
CallOk v (returned shard_num t) = (t < v.next_table) × (shard_num ≤ length (v.tables t))

record Inv (s : System) : Type 0 where
  latest : s.vector.table < s.vector.next_table
  calls : (i : ℕ) (c : Call) → get_elem? s.calls i ≡ some c → CallOk s.vector c

record Extends (v w : Vector) : Type 0 where
  more : v.next_table ≤ w.next_table
  same : (t : ℕ) → t < v.next_table → w.tables t ≡ v.tables t
  longer : length (current v) ≤ length (current w)

Extends-refl : (v : Vector) → Extends v v
Extends-refl v = record { more = omega arith; same = λ t p. refl; longer = omega arith }

CallOk-Extends : (v w : Vector) (c : Call) → Extends v w → CallOk v c → CallOk w c
CallOk-Extends v w outside x k = tt
CallOk-Extends v w (growing old a b) x k = (
  omega (arith, k.0, x.more),
  omega (arith, k.1, ap length (x.same old (k.0))),
  omega (arith, k.2, ap length (x.same old (k.0))),
  omega (arith, k.3, x.longer),
)
CallOk-Extends v w (returned n t) x k =
    (omega (arith, k.0, x.more), omega (arith, k.1, ap length (x.same t (k.0))))

record AfterCall (v : Vector) (c : Call) : Type 0 where
  grown : Extends v ((round_of v c).0)
  kept : (round_of v c).0.table < (round_of v c).0.next_table
  fine : CallOk ((round_of v c).0) ((round_of v c).1)

publish_table-Extends :
    (v : Vector) (old a b : ℕ)
    → v.table ≡ old
    → old < v.next_table
    → a ≤ length (v.tables old)
    → length (v.tables old) ≤ b
    → Extends v (publish_table v old a b)
      × ((publish_table v old a b).table < (publish_table v old a b).next_table)
      × (v.next_table < (publish_table v old a b).next_table)
      × (b ≤ length ((publish_table v old a b).tables v.next_table))
unfolding publish_table current
publish_table-Extends v old a b here p q r =
    let filled = fill_table (v.tables old) a b v.next_shard in
    let long : length filled ≡ b =
      length-fill_table (v.tables old) a b v.next_shard q (omega (arith, q, r)) in
    let top : length (assign_at v.tables v.next_table filled v.next_table) ≡ b =
      ap length (assign_at_self v.tables v.next_table filled) ∙ long in
    (
      record {
        more = omega arith;
        same = λ t far. assign_at_ne v.tables v.next_table t filled (omega arith);
        longer = omega (arith, top, r, ap (λ t. length (v.tables t)) here);
      },
      omega arith,
      omega arith,
      omega (arith, top),
    )

equal-AfterCall :
    (v w : Vector) (c d : Call)
    → round_of v c ≡ (w, d)
    → Extends v w
    → w.table < w.next_table
    → CallOk w d
    → AfterCall v c
equal-AfterCall v w c d e x p k = record {
  grown = subst (λ (r : Vector × Call). Extends v (r.0)) (sym e) x;
  kept = subst (λ (r : Vector × Call). r.0.table < r.0.next_table) (sym e) p;
  fine = subst (λ (r : Vector × Call). CallOk (r.0) (r.1)) (sym e) k;
}

-- A call whose compare-exchange has failed.
retry : Vector → ℕ → ℕ → Call
retry v a b = if ltb b (length (current v)) then returned b v.table else growing v.table a b

retry-CallOk :
    (v : Vector) (a b : ℕ)
    → v.table < v.next_table
    → a ≤ length (current v)
    → CallOk v (retry v a b)
unfolding retry current
retry-CallOk v a b p q = elim (Bool-cases (ltb b (length (v.tables v.table)))) [
  | inl e ↦ rw e (p, ground arith)
  | inr e ↦ rw e (p, q, ground arith, q)
]

round_of-AfterCall : (v : Vector) (c : Call) → v.table < v.next_table → CallOk v c → AfterCall v c
unfolding round_of retry current
round_of-AfterCall v outside p k = record { grown = Extends-refl v; kept = p; fine = tt }
round_of-AfterCall v (returned n t) p k = record { grown = Extends-refl v; kept = p; fine = k }
round_of-AfterCall v (growing old a b) p k = elim (ℕ_discrete v.table old) [
  | yes here ↦
      let done = publish_table-Extends v old a b here (k.0) (k.1) (k.2) in
      equal-AfterCall v (publish_table v old a b) (growing old a b) (returned b v.next_table)
        (rw (==_eq here) refl) (done.0) (done.1) (done.2, done.3)
  | no other ↦
      let w = record v { next_shard = v.next_shard + (b - a) } in
      equal-AfterCall v w (growing old a b) (retry w a b) (rw (==_ne other) refl)
        (record { more = omega arith; same = λ t q. refl; longer = omega arith }) p
        (retry-CallOk w a b p (k.3))
]

load_table-CallOk : (v : Vector) (n : ℕ) → v.table < v.next_table → CallOk v (load_table v n)
unfolding load_table current
load_table-CallOk v n p = elim (Bool-cases (leb n (length (current v)))) [
  | inl e ↦ rw e (p, ground arith)
  | inr e ↦ rw e (p, omega arith, ground arith, omega arith)
]

record AfterEvent (s : System) (e : Event) : Type 0 where
  inv : Inv (step s e)
  longer : length (current s.vector) ≤ length (current (step s e).vector)

start_call_lem :
    (s : System) (i : ℕ) (old new : Call)
    → Inv s
    → get_elem? s.calls i ≡ some old
    → CallOk s.vector new
    → Inv (record s { calls = set s.calls i new })
start_call_lem s i old new v at ok = record {
  latest = v.latest;
  calls = λ j c e. elim (set_cases s.calls i j old new c at e) [
    | inl (_, same) ↦ subst (CallOk s.vector) same ok
    | inr (_, there) ↦ v.calls j c there
  ];
}

ensure_table-AfterEvent : (s : System) (i n : ℕ) → Inv s → AfterEvent s (ensure_table i n)
unfolding step
ensure_table-AfterEvent s i n v = elim (Option-cases (get_elem? s.calls i)) [
  | inl e ↦ record { inv = rw e v; longer = rw e (omega arith) }
  | inr (outside, e) ↦ record {
    inv = rw e (start_call_lem s i outside _ v e (load_table-CallOk s.vector n v.latest));
    longer = rw e (omega arith);
  }
  | inr (growing old a b, e) ↦ record { inv = rw e v; longer = rw e (omega arith) }
  | inr (returned k t, e) ↦ record {
    inv = rw e (start_call_lem s i (returned k t) _ v e (load_table-CallOk s.vector n v.latest));
    longer = rw e (omega arith);
  }
]

compare_exchange-AfterEvent : (s : System) (i : ℕ) → Inv s → AfterEvent s (compare_exchange i)
unfolding step
compare_exchange-AfterEvent s i v = elim (Option-cases (get_elem? s.calls i)) [
  | inl e ↦ record { inv = rw e v; longer = rw e (omega arith) }
  | inr (old, e) ↦
      let r = round_of-AfterCall s.vector old v.latest (v.calls i old e) in
      record {
        inv = rw e (record {
          latest = r.kept;
          calls = λ j c f. elim (set_cases s.calls i j old _ c e f) [
            | inl (_, same) ↦ subst (CallOk ((round_of s.vector old).0)) same r.fine
            | inr (_, there) ↦
                CallOk-Extends s.vector ((round_of s.vector old).0) c r.grown (v.calls j c there)
          ];
        });
        longer = rw e r.grown.longer;
      }
]

step-AfterEvent : (s : System) (e : Event) → Inv s → AfterEvent s e
step-AfterEvent s (ensure_table i n) v = ensure_table-AfterEvent s i n v
step-AfterEvent s (compare_exchange i) v = compare_exchange-AfterEvent s i v

record AfterEvents (s : System) (es : List Event) : Type 0 where
  inv : Inv (exec s es)
  longer : length (current s.vector) ≤ length (current (exec s es).vector)

exec-AfterEvents : (s : System) (es : List Event) → Inv s → AfterEvents s es
unfolding exec
exec-AfterEvents s [] v = record { inv = v; longer = omega arith }
exec-AfterEvents s (e ∷ es) v =
    let one = step-AfterEvent s e v in
    let rest = exec-AfterEvents (step s e) es one.inv in
    record { inv = rest.inv; longer = omega (arith, one.longer, rest.longer) }

initial-Inv : (threads : ℕ) → Inv (initial threads)
unfolding initial
initial-Inv threads = record {
  latest = omega arith;
  calls = λ i c e.
      subst (CallOk (initial threads).vector) (sym (get_elem?-replicate threads i outside c e)) tt;
}

-- In every schedule of a new vector, a table that a call has returned has at least as many
-- shards as the call was asked for, and from there on the current table never gets shorter.
pub ensure_table-enough :
    (threads : ℕ) (es later : List Event)
    → ((i n t : ℕ)
        → get_elem? (exec (initial threads) es).calls i ≡ some (returned n t)
        → n ≤ length ((exec (initial threads) es).vector.tables t))
      × (length (current (exec (initial threads) es).vector)
          ≤ length (current (exec (exec (initial threads) es) later).vector))
ensure_table-enough threads es later =
    let run = exec-AfterEvents (initial threads) es (initial-Inv threads) in
    (
      λ i n t e. (run.inv.calls i (returned n t) e).1,
      (exec-AfterEvents (exec (initial threads) es) later run.inv).longer,
    )
