-- ===== src/Hazptr/Exit.antt =====
-- src/concurrent/hazptr.hpp: the destructor of `HazptrManager`, behind the ends of the threads.
use wizard.Prelude.{
  ℕ, ◌<◌, ◌≡◌, ◌≢◌, refl, ◌∙◌, ap, subst, List, [], ◌∷◌, arith, ==_eq, ==_ne, ℕ_discrete,
}
use wizard.Prelude.Functions.{assign_at, assign_at_self, assign_at_ne}
use wizard.Prelude.Sums.{total, count}
use wizard.Hazptr.{Phase, free, retired, Shared, Reclaimer, Event, exec, initial}
use wizard.Hazptr.ReclaimerPc.{ready}
use wizard.Hazptr.Owns.{keeps, owed, batch_of}
use wizard.Hazptr.Safety.{exec-kept}

-- `delete p` for each object of a list. Deleting an object retires no other one.
unfoldable pub delete_all : (ℕ → Phase) → List ℕ → ℕ → Phase
delete_all phase [] = phase
delete_all phase (p ∷ ps) = delete_all (assign_at phase p free) ps

-- The destructor of `HazptrManager`.
unfoldable pub destroy_manager : Shared → Shared
destroy_manager s = record s {
  retired_list = [];
  phase = delete_all s.phase s.retired_list;
  records = [];
}

-- Between two calls, with an empty private list.
pub record IsIdle (r : Reclaimer) : Type 0 where
  pub no_list : r.priv_list ≡ []
  pub no_call : r.pc ≡ ready

abbrev pub AllIdle : List Reclaimer → Type 0
AllIdle [] = Unit {0}
AllIdle (r ∷ rs) = IsIdle r × AllIdle rs

total-AllIdle : (p : ℕ) (rs : List Reclaimer) → AllIdle rs → total (keeps p) rs ≡ 0
total-AllIdle p [] idle = refl
total-AllIdle p (r ∷ rs) idle = omega (
  arith,
  ap (count p) ((idle.0).no_list),
  ap (λ pc. count p (batch_of pc)) ((idle.0).no_call),
  total-AllIdle p rs (idle.1),
)

delete_all_free :
    (phase : ℕ → Phase) (ps : List ℕ) (p : ℕ) → phase p ≡ free → delete_all phase ps p ≡ free
unfolding delete_all
delete_all_free phase [] p e = e
delete_all_free phase (q ∷ ps) p e =
    delete_all_free (assign_at phase q free) ps p (elim (ℕ_discrete q p) [
      | yes same ↦ subst (λ j. assign_at phase q free j ≡ free) same (assign_at_self phase q free)
      | no ne ↦ assign_at_ne phase q p free ne ∙ e
    ])

delete_all_in :
    (phase : ℕ → Phase) (ps : List ℕ) (p : ℕ) → 0 < count p ps → delete_all phase ps p ≡ free
unfolding delete_all
delete_all_in phase [] p some_there = absurd (omega arith)
delete_all_in phase (q ∷ ps) p some_there = elim (ℕ_discrete q p) [
  | yes same ↦
      delete_all_free (assign_at phase q free) ps p
        (subst (λ j. assign_at phase q free j ≡ free) same (assign_at_self phase q free))
  | no ne ↦ delete_all_in (assign_at phase q free) ps p (omega (arith, rw (==_ne ne) at some_there))
]

delete_all_out :
    (phase : ℕ → Phase) (ps : List ℕ) (p : ℕ) → count p ps ≡ 0 → delete_all phase ps p ≡ phase p
unfolding delete_all
delete_all_out phase [] p none_there = refl
delete_all_out phase (q ∷ ps) p none_there = elim (ℕ_discrete q p) [
  | yes same ↦ absurd (omega (arith, rw (==_eq same) at none_there))
  | no ne ↦
      delete_all_out (assign_at phase q free) ps p (omega (arith, rw (==_ne ne) at none_there))
      ∙ assign_at_ne phase q p free ne
]

not_owed : (f : Phase) → f ≢ retired → owed f ≡ 0
not_owed retired ne = absurd (ne refl)
not_owed f ne = refl

-- After any schedule that leaves each thread between two calls and with an empty private list, as
-- the end of a thread does, the destructor of the manager deletes each retired object exactly
-- once, and it is then free; it deletes no other object.
pub destroy_manager-retired :
    (m n : ℕ) (es : List Event) (p : ℕ)
    → AllIdle (exec (initial m n) es).reclaimers
    → (count p (exec (initial m n) es).shared.retired_list
        ≡ owed ((exec (initial m n) es).shared.phase p))
      × ((exec (initial m n) es).shared.phase p ≡ retired
          → (destroy_manager (exec (initial m n) es).shared).phase p ≡ free)
      × ((exec (initial m n) es).shared.phase p ≢ retired
          → (destroy_manager (exec (initial m n) es).shared).phase p
            ≡ (exec (initial m n) es).shared.phase p)
unfolding destroy_manager
destroy_manager-retired m n es p idle =
    let s = exec (initial m n) es in
    let once : count p s.shared.retired_list ≡ owed (s.shared.phase p) =
      omega (arith, exec-kept m n es p, total-AllIdle p s.reclaimers idle) in
    (
      once,
      λ e. delete_all_in s.shared.phase s.shared.retired_list p (omega (arith, once, ap owed e)),
      λ ne.
          delete_all_out s.shared.phase s.shared.retired_list p
            (omega (arith, once, not_owed (s.shared.phase p) ne)),
    )
