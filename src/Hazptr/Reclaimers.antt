-- ===== src/Hazptr/Reclaimers.antt =====
-- src/concurrent/hazptr.h, src/concurrent/hazptr.hpp: the steps of a reclaimer keep the invariant.
use wizard.Prelude.{
  ℕ, zero, suc, ◌+◌, ◌≤◌, ◌≡◌, inl, inr, refl, ◌∙◌, ap, subst, Bool, true, Bool-cases, some, List,
  [], ◌∷◌, ◌++◌, append-nil, arith, ◌==◌, ◌&&◌, not, ltb, get_elem?, set, length, ==_eq, ==_ne,
  ℕ_discrete,
}
use wizard.Prelude.Functions.{assign_at, assign_at_self, assign_at_ne}
use wizard.Hazptr.{
  Phase, unlinked, retired, Shared, Reclaimer, ReclaimerPc, ReclaimerCall, System, try_bulk_reclaim,
  same_pointer, contains, first, reached_threshold, not_enough, is_unlinked, run_pc, push_all,
  run_reclaimer, destroy_private, call_reclaimer,
}
use wizard.Hazptr.ReclaimerPc.{
  ready, pushed, joining, appending, adding, trying, testing, zeroing, taking, taken, scanning,
  deleting,
}
use wizard.Hazptr.ReclaimerCall.{retire, destroy, run}
use wizard.Prelude.Sums.{le-total, count, count-append}
use wizard.Hazptr.Owns.{batch_of, keeps, owed, in_use}
use wizard.Hazptr.Invariant.{Inv, ReclaimerMoves, reclaimer-Inv}
use wizard.Hazptr.Batches.{
  PcMoves, quiet-Moves, behind-batch, behind-Covers, scan-Covers, retired_of_owed, delete-Moves,
}

run_pc-Moves :
    (s : Shared) (pc : ReclaimerPc) (fails : Bool)
    → ((p : ℕ) → count p (batch_of pc) ≤ owed (s.phase p))
    → PcMoves s pc (run_pc s pc fails).0 (run_pc s pc fails).1
unfolding run_pc
run_pc-Moves s (joining next batch) fails owes =
    quiet-Moves s s _ _ refl refl refl refl (λ p. refl) (λ r q inside points cover. tt)
run_pc-Moves s (appending next batch expected) fails owes =
    elim (Bool-cases (not fails && same_pointer expected (first s.retired_list))) [
      | inl e ↦ rw e (record {
        same_sources = refl;
        same_records = refl;
        balance = λ p. omega (arith, count-append p batch s.retired_list);
        links_stay = λ src p f. f;
        guards = λ r q inside points used cover. (used, tt);
      })
      | inr e ↦
          rw e (quiet-Moves s s _ _ refl refl refl refl (λ p. refl) (λ r q inside points cover. tt))
    ]
run_pc-Moves s (adding next n) fails owes =
    quiet-Moves s _ _ _ refl refl refl refl (behind-batch next)
      (λ r q inside points cover. behind-Covers next r q)
run_pc-Moves s trying fails owes =
    quiet-Moves s s _ _ refl refl refl refl (λ p. refl) (λ r q inside points cover. tt)
run_pc-Moves s (testing n) fails owes = elim (Bool-cases (not_enough n s.hazptr_count)) [
  | inl e ↦
      rw e (quiet-Moves s s _ _ refl refl refl refl (λ p. refl) (λ r q inside points cover. tt))
  | inr e ↦
      rw e (quiet-Moves s s _ _ refl refl refl refl (λ p. refl) (λ r q inside points cover. tt))
]
run_pc-Moves s (zeroing n) fails owes = elim (Bool-cases (not fails && (n == s.retired_count))) [
  | inl e ↦
      rw e (quiet-Moves s _ _ _ refl refl refl refl (λ p. refl) (λ r q inside points cover. tt))
  | inr e ↦
      rw e (quiet-Moves s s _ _ refl refl refl refl (λ p. refl) (λ r q inside points cover. tt))
]
run_pc-Moves s taking fails owes = record {
  same_sources = refl;
  same_records = refl;
  balance = λ p. omega arith;
  links_stay = λ src p f. f;
  guards = λ r q inside points used cover. (used, tt);
}
run_pc-Moves s (taken batch) fails owes =
    quiet-Moves s s _ _ refl refl refl refl (λ p. refl)
      (λ r q inside points cover some_there. inl inside)
run_pc-Moves s (scanning batch zero seen) fails owes =
    quiet-Moves s s _ _ refl refl refl refl (λ p. ap (count p) (append-nil batch))
      (λ r q inside points cover some_there. elim (cover some_there) [
        | inl ahead ↦ absurd (omega arith)
        | inr before ↦ before
      ])
run_pc-Moves s (scanning batch (suc k) seen) fails owes =
    quiet-Moves s s _ _ refl refl refl refl (λ p. refl)
      (λ r q inside points cover. scan-Covers s batch k seen r q points cover)
run_pc-Moves s (deleting (p ∷ batch) seen left) fails owes = elim (Bool-cases (contains seen p)) [
  | inl e ↦ rw e (
      quiet-Moves s s _ _ refl refl refl refl
        (λ q. omega (
          arith,
          count-append q batch (left ++ (p ∷ [])),
          count-append q batch left,
          count-append q left (p ∷ []),
        ))
        (λ r q inside points cover some_there. cover (λ z. some_there (omega (arith, z)))))
  | inr e ↦ rw e (
      delete-Moves s p batch seen left
        (retired_of_owed (s.phase p) (omega (arith, rw (==_eq {a = p} refl) at (owes p)))) e)
]
run_pc-Moves s (deleting [] seen []) fails owes =
    quiet-Moves s s _ _ refl refl refl refl (λ p. refl) (λ r q inside points cover. tt)
run_pc-Moves s (deleting [] seen (p ∷ left)) fails owes =
    quiet-Moves s s _ _ refl refl refl refl (λ p. refl) (λ r q inside points cover. tt)
run_pc-Moves s pc fails owes =
    quiet-Moves s s pc pc refl refl refl refl (λ p. refl) (λ r q inside points cover. cover)

-- With the private list, which the step leaves alone.
lift-Moves :
    (s s' : Shared) (priv_list : List ℕ) (pc pc' : ReclaimerPc)
    → PcMoves s pc s' pc'
    → ReclaimerMoves s
        (record { priv_list = priv_list; pc = pc })
        s'
        (record { priv_list = priv_list; pc = pc' })
lift-Moves s s' priv_list pc pc' m = record {
  same_sources = m.same_sources;
  same_records = m.same_records;
  balance = λ p. omega (arith, m.balance p);
  links_stay = m.links_stay;
  guards = m.guards;
}

-- The private list becomes the batch that is appended to the shared list.
give_all-Moves :
    (s : Shared) (priv_list : List ℕ) (pc : ReclaimerPc)
    → batch_of pc ≡ []
    → ReclaimerMoves s
        (record { priv_list = priv_list; pc = pc })
        s
        (record { priv_list = []; pc = joining try_bulk_reclaim priv_list })
give_all-Moves s priv_list pc empty = record {
  same_sources = refl;
  same_records = refl;
  balance = λ p. omega (arith, ap (count p) empty);
  links_stay = λ src p f. f;
  guards = λ r q inside points used cover. (used, tt);
}

keep_all-Moves :
    (s : Shared) (priv_list : List ℕ) (pc : ReclaimerPc)
    → batch_of pc ≡ []
    → ReclaimerMoves s
        (record { priv_list = priv_list; pc = pc })
        s
        (record { priv_list = priv_list; pc = ready })
keep_all-Moves s priv_list pc empty = record {
  same_sources = refl;
  same_records = refl;
  balance = λ p. omega (arith, ap (count p) empty);
  links_stay = λ src p f. f;
  guards = λ r q inside points used cover. (used, tt);
}

push_all-Moves :
    (s : Shared) (priv_list : List ℕ)
    → ReclaimerMoves s (record { priv_list = priv_list; pc = pushed }) s (push_all s priv_list)
unfolding push_all
push_all-Moves s priv_list =
    elim (Bool-cases (reached_threshold (length priv_list) s.hazptr_count)) [
      | inl e ↦ rw e (give_all-Moves s priv_list pushed refl)
      | inr e ↦ rw e (keep_all-Moves s priv_list pushed refl)
    ]

destroy_private-Moves :
    (s : Shared) (priv_list : List ℕ)
    → ReclaimerMoves s (record { priv_list = priv_list; pc = ready }) s (destroy_private priv_list)
unfolding destroy_private
destroy_private-Moves s priv_list = elim (Bool-cases (ltb 0 (length priv_list))) [
  | inl e ↦ rw e (give_all-Moves s priv_list ready refl)
  | inr e ↦ rw e (keep_all-Moves s priv_list ready refl)
]

run_reclaimer-Moves :
    (s : Shared) (priv_list : List ℕ) (pc : ReclaimerPc) (fails : Bool)
    → ((p : ℕ) → count p (batch_of pc) ≤ owed (s.phase p))
    → ReclaimerMoves s
        (record { priv_list = priv_list; pc = pc })
        (run_reclaimer s priv_list pc fails).0
        (run_reclaimer s priv_list pc fails).1
unfolding run_reclaimer
run_reclaimer-Moves s priv_list pushed fails owes = push_all-Moves s priv_list
run_reclaimer-Moves s priv_list pc fails owes =
    lift-Moves s (run_pc s pc fails).0 priv_list pc (run_pc s pc fails).1
      (run_pc-Moves s pc fails owes)

is_unlinked-eq : (f : Phase) → is_unlinked f ≡ true → f ≡ unlinked
unfolding is_unlinked
is_unlinked-eq unlinked e = refl
is_unlinked-eq f e = absurd (cc (e))

retire-Moves :
    (s : Shared) (priv_list : List ℕ) (p : ℕ)
    → s.phase p ≡ unlinked
    → ReclaimerMoves s
        (record { priv_list = priv_list; pc = ready })
        (record s { phase = assign_at s.phase p retired })
        (record { priv_list = priv_list ++ (p ∷ []); pc = pushed })
retire-Moves s priv_list p was = record {
  same_sources = refl;
  same_records = refl;
  balance = λ q. elim (ℕ_discrete p q) [
    | yes e ↦
        subst
          (λ j.
            count j (priv_list ++ (p ∷ [])) + 0 + count j s.retired_list + owed (s.phase j)
            ≡ count j priv_list + 0 + count j s.retired_list + owed (assign_at s.phase p retired j))
          e
          (rw (assign_at_self s.phase p retired, was)
            (omega (arith, rw (==_eq {a = p} refl) at (count-append p priv_list (p ∷ [])))))
    | no ne ↦
        rw (assign_at_ne s.phase p q retired ne)
          (omega (arith, rw (==_ne ne) at (count-append q priv_list (p ∷ []))))
  ];
  links_stay = λ src q e. elim (ℕ_discrete p q) [
    | yes same ↦ absurd (cc (was, ap s.phase same, e))
    | no ne ↦ assign_at_ne s.phase p q retired ne ∙ e
  ];
  guards = λ r q inside points used cover. elim (ℕ_discrete p q) [
    | yes same ↦ (
      subst (λ j. in_use (assign_at s.phase p retired j) ≡ true) same
          (rw (assign_at_self s.phase p retired) refl),
      tt,
    )
    | no ne ↦ (rw (assign_at_ne s.phase p q retired ne) used, tt)
  ];
}

call_reclaimer-Moves :
    (s : Shared) (priv_list : List ℕ) (pc : ReclaimerPc) (call : ReclaimerCall)
    → ((p : ℕ) → count p (batch_of pc) ≤ owed (s.phase p))
    → ReclaimerMoves s
        (record { priv_list = priv_list; pc = pc })
        (call_reclaimer s priv_list pc call).0
        (call_reclaimer s priv_list pc call).1
unfolding call_reclaimer
call_reclaimer-Moves s priv_list ready (retire p) owes =
    elim (Bool-cases (is_unlinked (s.phase p))) [
      | inl e ↦ rw e (retire-Moves s priv_list p (is_unlinked-eq (s.phase p) e))
      | inr e ↦ rw e (
          lift-Moves s s priv_list ready ready (
            quiet-Moves s s ready ready refl refl refl refl (λ q. refl)
              (λ r q inside points cover. tt)))
    ]
call_reclaimer-Moves s priv_list ready destroy owes = destroy_private-Moves s priv_list
call_reclaimer-Moves s priv_list pc (run fails) owes = run_reclaimer-Moves s priv_list pc fails owes
call_reclaimer-Moves s priv_list pc call owes =
    lift-Moves s s priv_list pc pc
      (quiet-Moves s s pc pc refl refl refl refl (λ q. refl) (λ r q inside points cover. cover))

pub call_reclaimer-Inv :
    (s : System) (t : ℕ) (old : Reclaimer) (call : ReclaimerCall)
    → Inv s
    → get_elem? s.reclaimers t ≡ some old
    → (let done = call_reclaimer s.shared old.priv_list old.pc call in
        Inv (record s { shared = done.0; reclaimers = set s.reclaimers t (done.1) }))
call_reclaimer-Inv s t old call v at =
    let done = call_reclaimer s.shared old.priv_list old.pc call in
    reclaimer-Inv s t old (done.1) (done.0) v at (
      call_reclaimer-Moves s.shared old.priv_list old.pc call
        (λ p. omega (arith, le-total (keeps p) s.reclaimers t old at, v.kept p)))
