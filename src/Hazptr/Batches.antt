-- ===== src/Hazptr/Batches.antt =====
-- src/concurrent/hazptr.h, src/concurrent/hazptr.hpp: what one step of a reclaimer changes.
use wizard.Prelude.{
  ℕ, suc, ◌+◌, ◌<◌, ◌≡◌, ◌≢◌, inl, inr, refl, ◌∙◌, ap, subst, true, false, Bool-cases, Option, none,
  some, List, ◌∷◌, ◌++◌, arith, get_elem?, length, ==_eq, ==_ne, ℕ_discrete,
}
use wizard.Prelude.Functions.{assign_at, assign_at_self, assign_at_ne}
use wizard.Hazptr.{
  HazptrRecord, Phase, free, linked, retired, Shared, ReclaimerPc, After, try_bulk_reclaim, return,
  same_pointer, contains, see, behind,
}
use wizard.Hazptr.ReclaimerPc.{scanning, deleting}
use wizard.Prelude.Sums.{count}
use wizard.Hazptr.Owns.{batch_of, owed, in_use}
use wizard.Hazptr.Invariant.{realptr_of, realptr_at, Covers}

-- The part of a step that does not concern the private list.
pub record PcMoves (s : Shared) (old : ReclaimerPc) (s' : Shared) (new : ReclaimerPc) : Type 0 where
  pub same_sources : s'.sources ≡ s.sources
  pub same_records : s'.records ≡ s.records
  pub balance :
      (p : ℕ)
      → count p (batch_of new) + count p s'.retired_list + owed (s.phase p)
        ≡ count p (batch_of old) + count p s.retired_list + owed (s'.phase p)
  pub links_stay : (src p : ℕ) → s.phase p ≡ linked src → s'.phase p ≡ linked src
  pub guards :
      (r q : ℕ)
      → r < length s.records
      → realptr_at s r ≡ some q
      → in_use (s.phase q) ≡ true
      → Covers r q old
      → (in_use (s'.phase q) ≡ true) × Covers r q new

-- A step that leaves the list of retired objects and all phases alone, and keeps the batch.
pub quiet-Moves :
    (s s' : Shared) (old new : ReclaimerPc)
    → s'.sources ≡ s.sources
    → s'.records ≡ s.records
    → s'.retired_list ≡ s.retired_list
    → s'.phase ≡ s.phase
    → ((p : ℕ) → count p (batch_of new) ≡ count p (batch_of old))
    → ((r q : ℕ) → r < length s.records → realptr_at s r ≡ some q → Covers r q old → Covers r q new)
    → PcMoves s old s' new
quiet-Moves s s' old new a b c d same covers = record {
  same_sources = a;
  same_records = b;
  balance = λ p. omega (arith, same p, ap (count p) c, ap (λ (f : ℕ → Phase). owed (f p)) d);
  links_stay = λ src p e. ap (λ (f : ℕ → Phase). f p) d ∙ e;
  guards = λ r q inside points used cover.
      (ap (λ (f : ℕ → Phase). in_use (f q)) d ∙ used, covers r q inside points cover);
}

pub behind-batch : (next : After) (p : ℕ) → count p (batch_of (behind next)) ≡ 0
unfolding behind
behind-batch try_bulk_reclaim p = refl
behind-batch return p = refl

pub behind-Covers : (next : After) (r q : ℕ) → Covers r q (behind next)
unfolding behind
behind-Covers try_bulk_reclaim r q = tt
behind-Covers return r q = tt

same_pointer_self : (p : Option ℕ) → same_pointer p p ≡ true
unfolding same_pointer
same_pointer_self none = refl
same_pointer_self (some p) = ==_eq {a = p} refl

seen-here :
    (q : ℕ) (o : Option HazptrRecord) (seen : List (Option ℕ))
    → realptr_of o ≡ some q
    → contains (see o seen) q ≡ true
unfolding contains
seen-here q none seen e = absurd (cc (e))
seen-here q (some rec) seen e = rw (e, same_pointer_self (some q)) refl

seen-before :
    (q : ℕ) (o : Option HazptrRecord) (seen : List (Option ℕ))
    → contains seen q ≡ true
    → contains (see o seen) q ≡ true
unfolding contains
seen-before q none seen e = e
seen-before q (some rec) seen e = elim (Bool-cases (same_pointer rec.realptr (some q))) [
  | inl t ↦ rw t refl
  | inr f ↦ rw (f, e) refl
]

-- The reclaimer has read one more record.
pub scan-Covers :
    (s : Shared) (batch : List ℕ) (k : ℕ) (seen : List (Option ℕ)) (r q : ℕ)
    → realptr_at s r ≡ some q
    → Covers r q (scanning batch (suc k) seen)
    → Covers r q (scanning batch k (see (get_elem? s.records k) seen))
scan-Covers s batch k seen r q points cover some_there = elim (ℕ_discrete r k) [
  | yes here ↦
      inr (
        seen-here q (get_elem? s.records k) seen (subst (λ j. realptr_at s j ≡ some q) here points))
  | no ne ↦ elim (cover some_there) [
    | inl ahead ↦ inl (omega arith)
    | inr before ↦ inr (seen-before q (get_elem? s.records k) seen before)
  ]
]

pub retired_of_owed : (f : Phase) → 0 < owed f → f ≡ retired
retired_of_owed retired p = refl
retired_of_owed f p = absurd (omega arith)

-- The deletion of an object of the batch.
pub delete-Moves :
    (s : Shared) (p : ℕ) (batch : List ℕ) (seen : List (Option ℕ)) (left : List ℕ)
    → s.phase p ≡ retired
    → contains seen p ≡ false
    → PcMoves s
        (deleting (p ∷ batch) seen left)
        (record s { phase = assign_at s.phase p free })
        (deleting batch seen left)
delete-Moves s p batch seen left was unseen = record {
  same_sources = refl;
  same_records = refl;
  balance = λ q. elim (ℕ_discrete p q) [
    | yes e ↦
        subst
          (λ j.
            count j (batch ++ left) + count j s.retired_list + owed (s.phase j)
            ≡ count j (p ∷ (batch ++ left))
              + count j s.retired_list
              + owed (assign_at s.phase p free j))
          e (rw (assign_at_self s.phase p free, was, ==_eq {a = p} refl) (omega arith))
    | no ne ↦ rw (assign_at_ne s.phase p q free ne, ==_ne ne) (omega arith)
  ];
  links_stay = λ src q e. elim (ℕ_discrete p q) [
    | yes same ↦ absurd (cc (was, ap s.phase same, e))
    | no ne ↦ assign_at_ne s.phase p q free ne ∙ e
  ];
  guards = λ r q inside points used cover. elim (ℕ_discrete p q) [
    | yes same ↦
        let met : count q (p ∷ batch) ≢ 0 = rw (==_eq same) (λ e. omega arith) in
        absurd (cc (unseen, ap (contains seen) same, cover met))
    | no ne ↦ (
      rw (assign_at_ne s.phase p q free ne) used,
      λ some_there. cover (rw (==_ne ne) (λ e. some_there (omega (arith, e)))),
    )
  ];
}
