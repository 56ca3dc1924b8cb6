-- ===== src/Hazptr/Holders.antt =====
-- src/concurrent/hazptr.h, src/concurrent/hazptr.hpp: the steps of a holder keep the invariant.
use wizard.Prelude.{
  ℕ, zero, suc, ◌≡◌, inl, inr, refl, sym, ◌∙◌, ap, Bool, true, false, Bool-cases, Option-cases,
  Option, none, some, arith, ◌==◌, ◌&&◌, not, get_elem?, set, length, get_elem?-lt, ==_eq, ==_ne,
  ==_iff,
}
use wizard.Hazptr.{
  HazptrRecord, Shared, Holder, HolderCall, Reclaimer, ReclaimerPc, System, same_pointer,
  store_realptr, load_active, run_holder, call_holder,
}
use wizard.Hazptr.Holder.{
  outside, walking, claiming, creating, counting, idle, loaded, stored, failed, protecting, leaving,
}
use wizard.Hazptr.HolderCall.{construct, get_protected, reset, destroy, run}
use wizard.Hazptr.ReclaimerPc.{scanning, deleting}
use wizard.Prelude.Sums.{le-total, count, count-append}
use wizard.Hazptr.Owns.{owns, activity, batch_of, keeps, owed}
use wizard.Hazptr.Invariant.{
  Covers, Guarded, HolderOk, HolderMoves, Inv, owns-le-activity, owns-lt, activity_bound,
  holder-Inv,
}
use wizard.Hazptr.Stores.{
  store_realptr-Moves, store_realptr_self, store_active-Moves, stay-Moves, create-Moves,
}

pub same_pointer-eq : (p q : Option ℕ) → same_pointer p q ≡ true → p ≡ q
unfolding same_pointer
same_pointer-eq none none e = refl
same_pointer-eq none (some q) e = absurd (cc (e))
same_pointer-eq (some p) none e = absurd (cc (e))
same_pointer-eq (some p) (some q) e = ap some ((==_iff p q).0 e)

-- No reclaimer has an object that is not retired.
keeps-none :
    (s : System) (q t : ℕ) (m : Reclaimer)
    → Inv s
    → owed (s.shared.phase q) ≡ 0
    → get_elem? s.reclaimers t ≡ some m
    → keeps q m ≡ 0
keeps-none s q t m v none_owed at = omega (arith, le-total (keeps q) s.reclaimers t m at, v.kept q)

Covers-empty : (r q : ℕ) (pc : ReclaimerPc) → count q (batch_of pc) ≡ 0 → Covers r q pc
Covers-empty r q (scanning batch k seen) e = λ some_there. absurd (some_there e)
Covers-empty r q (deleting batch seen left) e =
    λ some_there. absurd (some_there (omega (arith, e, count-append q batch left)))
Covers-empty r q pc e = tt

Covers-none : (r q : ℕ) (m : Reclaimer) → keeps q m ≡ 0 → Covers r q m.pc
Covers-none r q m none_kept = Covers-empty r q m.pc (omega (arith, none_kept))

-- A pointer that the source still has is guarded.
validate-Guarded :
    (s : System) (r src q : ℕ)
    → Inv s
    → s.shared.sources src ≡ some q
    → Guarded s.shared s.reclaimers r q
validate-Guarded s r src q v e =
    let phase = v.links src q e in
    record {
      used = rw phase refl;
      covered = λ t m at. Covers-none r q m (keeps-none s q t m v (rw phase refl) at);
    }

-- What has to be shown of a step: what it does, and that its new place is fine.
Fine : System → Holder → Shared × Holder → Type 0
Fine s old done =
    HolderMoves s.shared old (done.0) (done.1) × HolderOk (done.0) s.reclaimers (done.1)

load_active-false :
    (s : Shared) (k : ℕ)
    → load_active s k ≡ false
    → (rec : HazptrRecord) × (get_elem? s.records k ≡ some rec) × (rec.active ≡ false)
unfolding load_active
load_active-false s k e = elim (Option-cases (get_elem? s.records k)) [
  | inl h ↦ absurd (cc (rw h at e))
  | inr (rec, h) ↦ (rec, h, rw h at e)
]

run_holder-Fine :
    (s : System) (h : ℕ) (old : Holder) (fails : Bool)
    → Inv s
    → get_elem? s.holders h ≡ some old
    → Fine s old (run_holder s.shared old fails)
unfolding run_holder Fine
run_holder-Fine s h outside fails v at = (stay-Moves s.shared _ _ (λ k. refl), tt)
run_holder-Fine s h (walking zero) fails v at = (stay-Moves s.shared _ _ (λ k. refl), tt)
run_holder-Fine s h (walking (suc n)) fails v at = elim (Bool-cases (load_active s.shared n)) [
  | inl e ↦ rw e (stay-Moves s.shared _ _ (λ k. refl), tt)
  | inr e ↦ rw e (stay-Moves s.shared _ _ (λ k. refl), tt)
]
run_holder-Fine s h (claiming n) fails v at = elim (Bool-cases (load_active s.shared n)) [
  | inl e ↦ rw e (stay-Moves s.shared _ _ (λ k. refl), tt)
  | inr e ↦
      let there = load_active-false s.shared n e in
      rw e (
        store_active-Moves s.shared n true (there.0) (claiming n) (idle n) (there.1)
            (λ k ne. rw (==_ne ne) refl) (rw (there.2, ==_eq {a = n} refl) refl),
        tt,
      )
]
run_holder-Fine s h (creating n) fails v at =
    elim (Bool-cases (not fails && (n == length s.shared.records))) [
      | inl e ↦
          let same : n ≡ length s.shared.records = ground (arith, e) in
          rw (e, same) (create-Moves s.shared (length s.shared.records), tt)
      | inr e ↦ rw e (stay-Moves s.shared _ _ (λ k. refl), tt)
    ]
run_holder-Fine s h (counting r) fails v at = (
  record {
    same_sources = refl;
    same_phase = refl;
    same_retired = refl;
    ownership = λ k. refl;
    others = λ k out. refl;
  },
  tt,
)
run_holder-Fine s h (idle r) fails v at = (stay-Moves s.shared _ _ (λ k. refl), tt)
run_holder-Fine s h (loaded r src p) fails v at =
    let has : owns r (loaded r src p) ≡ 1 = rw (==_eq {a = r} refl) refl in
    let inside = owns-lt s h r (loaded r src p) v at has in
    (
      store_realptr-Moves s.shared r p (loaded r src p) (stored r src p) inside (λ k. refl) has,
      store_realptr_self s.shared r p inside,
    )
run_holder-Fine s h (stored r src p) fails v at =
    elim (Bool-cases (same_pointer p (s.shared.sources src))) [
      | inl e ↦
          let same = same_pointer-eq p (s.shared.sources src) e in
          rw e (
            stay-Moves s.shared (stored r src p) (protecting r p) (λ k. refl),
            (v.held h (stored r src p) at, λ q f. validate-Guarded s r src q v (sym same ∙ f)),
          )
      | inr e ↦ rw e (stay-Moves s.shared _ _ (λ k. refl), tt)
    ]
run_holder-Fine s h (failed r src p) fails v at =
    let has : owns r (failed r src p) ≡ 1 = rw (==_eq {a = r} refl) refl in
    let inside = owns-lt s h r (failed r src p) v at has in
    (
      store_realptr-Moves s.shared r none (failed r src p) (loaded r src p) inside (λ k. refl) has,
      tt,
    )
run_holder-Fine s h (protecting r p) fails v at = (
  stay-Moves s.shared (protecting r p) (protecting r p) (λ k. refl),
  v.held h (protecting r p) at,
)
run_holder-Fine s h (leaving r) fails v at =
    let has : owns r (leaving r) ≡ 1 = rw (==_eq {a = r} refl) refl in
    let rec = get_elem?-lt s.shared.records r (owns-lt s h r (leaving r) v at has) in
    let taken = owns-le-activity s h r (leaving r) v at in
    let is_active : activity (some (rec.0)) ≡ 1 =
      omega (arith, ap activity (rec.1), taken, has, activity_bound (some (rec.0))) in
    (
      store_active-Moves s.shared r false (rec.0) (leaving r) outside (rec.1)
          (λ k ne. rw (==_ne ne) refl) (omega (arith, has, is_active)),
      tt,
    )

-- A store to `realptr` that leaves the holder with its record and no validated pointer.
store-Fine :
    (s : System) (h r : ℕ) (p : Option ℕ) (old new : Holder)
    → Inv s
    → get_elem? s.holders h ≡ some old
    → ((k : ℕ) → owns k old ≡ owns k new)
    → owns r old ≡ 1
    → ((s' : Shared) → HolderOk s' s.reclaimers new)
    → Fine s old (store_realptr s.shared r p, new)
unfolding Fine
store-Fine s h r p old new v at same has ok =
    (store_realptr-Moves s.shared r p old new (owns-lt s h r old v at has) same has, ok _)

call_holder-Fine :
    (s : System) (h : ℕ) (old : Holder) (call : HolderCall)
    → Inv s
    → get_elem? s.holders h ≡ some old
    → Fine s old (call_holder s.shared old call)
unfolding call_holder Fine
call_holder-Fine s h outside construct v at = (stay-Moves s.shared _ _ (λ k. refl), tt)
call_holder-Fine s h (idle r) (get_protected src) v at = (stay-Moves s.shared _ _ (λ k. refl), tt)
call_holder-Fine s h (protecting r p) (get_protected src) v at =
    (stay-Moves s.shared _ _ (λ k. refl), tt)
call_holder-Fine s h (idle r) (reset q) v at =
    unfold Fine in
    store-Fine s h r q (idle r) (idle r) v at (λ k. refl) (rw (==_eq {a = r} refl) refl) (λ s'. tt)
call_holder-Fine s h (protecting r p) (reset q) v at =
    unfold Fine in
    store-Fine s h r q (protecting r p) (idle r) v at (λ k. refl) (rw (==_eq {a = r} refl) refl)
      (λ s'. tt)
call_holder-Fine s h (idle r) destroy v at =
    unfold Fine in
    store-Fine s h r none (idle r) (leaving r) v at (λ k. refl) (rw (==_eq {a = r} refl) refl)
      (λ s'. tt)
call_holder-Fine s h (protecting r p) destroy v at =
    unfold Fine in
    store-Fine s h r none (protecting r p) (leaving r) v at (λ k. refl)
      (rw (==_eq {a = r} refl) refl) (λ s'. tt)
call_holder-Fine s h old (run fails) v at = run_holder-Fine s h old fails v at
call_holder-Fine s h old call v at = (stay-Moves s.shared old old (λ k. refl), v.held h old at)

pub call_holder-Inv :
    (s : System) (h : ℕ) (old : Holder) (call : HolderCall)
    → Inv s
    → get_elem? s.holders h ≡ some old
    → (let done = call_holder s.shared old call in
        Inv (record s { shared = done.0; holders = set s.holders h (done.1) }))
unfolding Fine
call_holder-Inv s h old call v at =
    let fine = call_holder-Fine s h old call v at in
    let done = call_holder s.shared old call in
    holder-Inv s h old (done.1) (done.0) v at (fine.0) (fine.1)
