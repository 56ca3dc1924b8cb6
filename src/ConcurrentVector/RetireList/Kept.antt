-- ===== src/ConcurrentVector/RetireList/Kept.antt =====
-- `RetireList` of src/concurrent/vector.h: no retired table is lost or freed twice.
use wizard.Prelude.{
  ℕ, ◌+◌, ◌≡◌, ◌≢◌, inl, inr, refl, Bool, ◌&&◌, not, Bool-cases, Option-cases, Option, none, some,
  List, [], ◌∷◌, arith, ◌==◌, ==_eq, ==_ne, ℕ_discrete, if◌then◌else◌, get_elem?,
}
use wizard.Prelude.Sums.{total, total-set, total-replicate, count}
use wizard.ConcurrentVector.RetireList.{
  expire, Node, RetireList, head_word, Call, ready, checking, forcing, dropping, deleting, pushing,
  linking, Event, retire, force_gc, go_on, System, delete_table, after_gc, run_call, step, exec,
  initial,
}

abbrev pub tables_of : List Node → List ℕ
tables_of [] = []
tables_of (n ∷ ns) = n.table ∷ tables_of ns

abbrev pub pending : ℕ → Option (Node × ℕ) → ℕ
pending p none = 0
pending p (some (n, now)) = if n.table == p then 1 else 0

-- How often a call holds the table.
abbrev pub holds : ℕ → Call → ℕ
holds p ready = 0
holds p (checking n now) = if n.table == p then 1 else 0
holds p forcing = 0
holds p (dropping next old_head) = pending p next
holds p (deleting next ns) = pending p next + count p (tables_of ns)
holds p (pushing n now) = if n.table == p then 1 else 0
holds p (linking n now expected) = if n.table == p then 1 else 0

-- How often the list has it, or has freed it.
abbrev pub listed : ℕ → RetireList → ℕ
listed p l = count p (tables_of l.nodes) + count p l.deleted

count-delete_table :
    (p table : ℕ) (deleted : List ℕ)
    → p ≢ 0
    → count p (delete_table table deleted) ≡ (if table == p then 1 else 0) + count p deleted
unfolding delete_table
count-delete_table p table deleted ne = elim (ℕ_discrete table 0) [
  | yes e ↦ let other : table ≢ p = omega (arith, e, ne) in rw (==_eq e, ==_ne other) (omega arith)
  | no used ↦ rw (==_ne used) refl
]

holds-after_gc : (p : ℕ) (next : Option (Node × ℕ)) → holds p (after_gc next) ≡ pending p next
unfolding after_gc
holds-after_gc p none = refl
holds-after_gc p (some (n, now)) = refl

-- A step moves a table from one place to another.
run_call-holds :
    (p : ℕ) (l : RetireList) (c : Call) (fails : Bool)
    → p ≢ 0
    → holds p ((run_call l c fails).1) + listed p ((run_call l c fails).0) ≡ holds p c + listed p l
unfolding run_call
run_call-holds p l ready fails ne = refl
run_call-holds p l (checking n now) fails ne = elim (Bool-cases (expire (head_word l) now)) [
  | inl e ↦ rw e refl
  | inr e ↦ rw e refl
]
run_call-holds p l forcing fails ne = refl
run_call-holds p l (dropping next old) fails ne =
    elim (Bool-cases (not fails && (head_word l == old))) [
      | inl e ↦ rw e (omega arith)
      | inr e ↦ rw e (omega (arith, holds-after_gc p next))
    ]
run_call-holds p l (deleting next []) fails ne = omega (arith, holds-after_gc p next)
run_call-holds p l (deleting next (n ∷ ns)) fails ne =
    omega (arith, count-delete_table p n.table l.deleted ne)
run_call-holds p l (pushing n now) fails ne = refl
run_call-holds p l (linking n now expected) fails ne =
    elim (Bool-cases (not fails && (head_word l == expected))) [
      | inl e ↦ rw e (omega arith)
      | inr e ↦ rw e refl
    ]

abbrev Balance : ℕ → System → Type 0
Balance p s = total (holds p) s.calls + listed p s.list ≡ count p s.retired

retire-Balance :
    (p : ℕ) (s : System) (i address table seconds : ℕ)
    → Balance p s
    → Balance p (step s (retire i address table seconds))
unfolding step
retire-Balance p s i address table seconds b = elim (Option-cases (get_elem? s.calls i)) [
  | inl e ↦ rw e b
  | inr (ready, e) ↦ rw e (omega (arith, total-set (holds p) s.calls i ready _ e, b))
  | inr (checking n now, e) ↦ rw e b
  | inr (forcing, e) ↦ rw e b
  | inr (dropping next old, e) ↦ rw e b
  | inr (deleting next ns, e) ↦ rw e b
  | inr (pushing n now, e) ↦ rw e b
  | inr (linking n now expected, e) ↦ rw e b
]

force_gc-Balance : (p : ℕ) (s : System) (i : ℕ) → Balance p s → Balance p (step s (force_gc i))
unfolding step
force_gc-Balance p s i b = elim (Option-cases (get_elem? s.calls i)) [
  | inl e ↦ rw e b
  | inr (ready, e) ↦ rw e (omega (arith, total-set (holds p) s.calls i ready forcing e, b))
  | inr (checking n now, e) ↦ rw e b
  | inr (forcing, e) ↦ rw e b
  | inr (dropping next old, e) ↦ rw e b
  | inr (deleting next ns, e) ↦ rw e b
  | inr (pushing n now, e) ↦ rw e b
  | inr (linking n now expected, e) ↦ rw e b
]

step-Balance : (p : ℕ) (s : System) (e : Event) → p ≢ 0 → Balance p s → Balance p (step s e)
unfolding step
step-Balance p s (retire i address table seconds) ne b =
    retire-Balance p s i address table seconds b
step-Balance p s (force_gc i) ne b = force_gc-Balance p s i b
step-Balance p s (go_on i fails) ne b = elim (Option-cases (get_elem? s.calls i)) [
  | inl e ↦ rw e b
  | inr (old, e) ↦ rw e (
      omega (
        arith,
        total-set (holds p) s.calls i old ((run_call s.list old fails).1) e,
        run_call-holds p s.list old fails ne,
        b,
      ))
]

exec-Balance : (p : ℕ) (s : System) (es : List Event) → p ≢ 0 → Balance p s → Balance p (exec s es)
unfolding exec
exec-Balance p s [] ne b = b
exec-Balance p s (e ∷ es) ne b = exec-Balance p (step s e) es ne (step-Balance p s e ne b)

-- After any schedule a table other than `EMPTY_TABLE` is as often in the hands of the calls, in
-- the list and among the freed ones together as it was retired. So a table that is retired once is
-- freed at most once, and is neither lost nor in the list any more when it is freed.
pub retired-count :
    (threads : ℕ) (es : List Event) (p : ℕ)
    → p ≢ 0
    → total (holds p) (exec (initial threads) es).calls
        + (count p (tables_of (exec (initial threads) es).list.nodes)
            + count p (exec (initial threads) es).list.deleted)
      ≡ count p (exec (initial threads) es).retired
unfolding initial
retired-count threads es p ne =
    exec-Balance p (initial threads) es ne
      (omega (arith, total-replicate (holds p) threads ready refl))
