-- ===== src/Hazptr/Safety.antt =====
-- src/concurrent/hazptr.h, src/concurrent/hazptr.hpp: a protected object is not deleted.
use wizard.Prelude.{
  ℕ, ◌+◌, ◌≡◌, ◌≢◌, inl, inr, refl, ◌∙◌, true, Option-cases, some, List, [], ◌∷◌, get_elem?,
  get_elem?-set_ne,
}
use wizard.Hazptr.{
  linked, HolderCall, ReclaimerCall, System, Event, holder, reclaimer, allocate, replace, step,
  exec, initial,
}
use wizard.Hazptr.Holder.{protecting}
use wizard.Prelude.Sums.{total, count}
use wizard.Hazptr.Owns.{owns, activity, keeps, owed, in_use}
use wizard.Hazptr.Invariant.{realptr_at, Inv, user-Inv, initial-Inv}
use wizard.Hazptr.Holders.{call_holder-Inv}
use wizard.Hazptr.Reclaimers.{call_reclaimer-Inv}
use wizard.Hazptr.Users.{allocate-Moves, replace-Moves}

pub step-Inv : (s : System) (e : Event) → Inv s → Inv (step s e)
unfolding step
step-Inv s (holder h call) v = elim (Option-cases (get_elem? s.holders h)) [
  | inl none_there ↦ rw none_there v
  | inr (old, at) ↦ rw at (call_holder-Inv s h old call v at)
]
step-Inv s (reclaimer t call) v = elim (Option-cases (get_elem? s.reclaimers t)) [
  | inl none_there ↦ rw none_there v
  | inr (old, at) ↦ rw at (call_reclaimer-Inv s t old call v at)
]
step-Inv s (allocate p) v = user-Inv s _ v (allocate-Moves s p (s.shared.phase p) v refl)
step-Inv s (replace src p) v = user-Inv s _ v (replace-Moves s src p v)

exec-Inv : (s : System) (es : List Event) → Inv s → Inv (exec s es)
unfolding exec
exec-Inv s [] v = v
exec-Inv s (e ∷ es) v = exec-Inv (step s e) es (step-Inv s e v)

schedule-Inv : (m n : ℕ) (es : List Event) → Inv (exec (initial m n) es)
schedule-Inv m n es = exec-Inv (initial m n) es (initial-Inv m n)

-- No event of the list is a step of this holder.
abbrev pub Rests : ℕ → List Event → Type 0
Rests h [] = Unit {0}
Rests h (holder j call ∷ es) = (j ≢ h) × Rests h es
Rests h (e ∷ es) = Rests h es

get_elem?-step_holder :
    (s : System) (j h : ℕ) (call : HolderCall)
    → j ≢ h
    → get_elem? (step s (holder j call)).holders h ≡ get_elem? s.holders h
unfolding step
get_elem?-step_holder s j h call ne = elim (Option-cases (get_elem? s.holders j)) [
  | inl none_there ↦ rw none_there refl
  | inr (old, at) ↦ rw at (get_elem?-set_ne s.holders _ ne)
]

get_elem?-step_reclaimer :
    (s : System) (t h : ℕ) (call : ReclaimerCall)
    → get_elem? (step s (reclaimer t call)).holders h ≡ get_elem? s.holders h
unfolding step
get_elem?-step_reclaimer s t h call = elim (Option-cases (get_elem? s.reclaimers t)) [
  | inl none_there ↦ rw none_there refl
  | inr (old, at) ↦ rw at refl
]

exec-Rests :
    (s : System) (es : List Event) (h : ℕ)
    → Rests h es
    → get_elem? (exec s es).holders h ≡ get_elem? s.holders h
unfolding exec step
exec-Rests s [] h rests = refl
exec-Rests s (holder j call ∷ es) h rests =
    exec-Rests (step s (holder j call)) es h (rests.1) ∙ get_elem?-step_holder s j h call (rests.0)
exec-Rests s (reclaimer t call ∷ es) h rests =
    exec-Rests (step s (reclaimer t call)) es h rests ∙ get_elem?-step_reclaimer s t h call
exec-Rests s (allocate p ∷ es) h rests = exec-Rests (step s (allocate p)) es h rests
exec-Rests s (replace src p ∷ es) h rests = exec-Rests (step s (replace src p)) es h rests

-- A holder whose `get_protected` has returned the pointer `q` after some schedule: as long as the
-- holder makes no step, whatever the other holders, the reclaimers and the users do, its record
-- points to `q`, and the object is in use: it is not deleted, and not allocated anew.
pub get_protected-in_use :
    (m n : ℕ) (es later : List Event) (h r q : ℕ)
    → get_elem? (exec (initial m n) es).holders h ≡ some (protecting r (some q))
    → Rests h later
    → (realptr_at (exec (exec (initial m n) es) later).shared r ≡ some q)
      × (in_use ((exec (exec (initial m n) es) later).shared.phase q) ≡ true)
get_protected-in_use m n es later h r q at rests =
    let s = exec (initial m n) es in
    let v : Inv (exec s later) = exec-Inv s later (schedule-Inv m n es) in
    let ok = v.held h (protecting r (some q)) (exec-Rests s later h rests ∙ at) in
    (ok.0, (ok.1 q refl).used)

-- After any schedule a retired object stands exactly once in all the private lists, the batches
-- of the calls under way and the shared list together, and any other object in none of them.
pub exec-kept :
    (m n : ℕ) (es : List Event) (p : ℕ)
    → total (keeps p) (exec (initial m n) es).reclaimers
        + count p (exec (initial m n) es).shared.retired_list
      ≡ owed ((exec (initial m n) es).shared.phase p)
exec-kept m n es p = (schedule-Inv m n es).kept p

-- After any schedule an object that a source points to is linked in that source, so it is neither
-- deleted nor retired, and a record has at most one holder, exactly one when it is active.
pub exec-links :
    (m n : ℕ) (es : List Event)
    → ((src p : ℕ)
        → (exec (initial m n) es).shared.sources src ≡ some p
        → (exec (initial m n) es).shared.phase p ≡ linked src)
      × ((k : ℕ)
          → total (owns k) (exec (initial m n) es).holders
            ≡ activity (get_elem? (exec (initial m n) es).shared.records k))
exec-links m n es = ((schedule-Inv m n es).links, (schedule-Inv m n es).owned)
