-- ===== src/Hazptr/Invariant.antt =====
-- src/concurrent/hazptr.h, src/concurrent/hazptr.hpp: what holds in every state of a schedule.
use wizard.Prelude.{
  get_elem?-replicate, set_cases, ℕ, zero, suc, ◌+◌, ◌≤◌, ◌<◌, ◌≡◌, ◌≢◌, ◌⊎◌, inl, inr, refl, sym,
  ◌∙◌, ap, subst, true, Option, none, some, List, [], ◌∷◌, arith, get_elem?, set, length,
}
use wizard.Hazptr.{
  HazptrRecord, Phase, Shared, Holder, ReclaimerPc, Reclaimer, System, contains, initial,
}
use wizard.Hazptr.Holder.{stored, protecting}
use wizard.Hazptr.ReclaimerPc.{scanning, deleting}
use wizard.Prelude.Sums.{total, total-set, le-total, two-le-total, total-replicate, count}
use wizard.Hazptr.Owns.{owns, activity, keeps, owed, in_use}

abbrev pub realptr_of : Option HazptrRecord → Option ℕ
realptr_of none = none
realptr_of (some rec) = rec.realptr

abbrev pub realptr_at : Shared → ℕ → Option ℕ
realptr_at s r = realptr_of (get_elem? s.records r)

-- A reclaimer whose batch has `q`, which record `r` points to, has seen it or has the record ahead.
abbrev pub Covers : ℕ → ℕ → ReclaimerPc → Type 0
Covers r q (scanning batch k seen) = count q batch ≢ 0 → (r < k) ⊎ (contains seen q ≡ true)
Covers r q (deleting batch seen left) = count q batch ≢ 0 → contains seen q ≡ true
Covers r q _ = Unit {0}

-- A validated pointer: the object is in use, and no reclaimer will delete it.
pub record Guarded (s : Shared) (rs : List Reclaimer) (r q : ℕ) : Type 0 where
  pub used : in_use (s.phase q) ≡ true
  pub covered : (t : ℕ) (m : Reclaimer) → get_elem? rs t ≡ some m → Covers r q m.pc

abbrev pub HolderOk : Shared → List Reclaimer → Holder → Type 0
HolderOk s rs (stored r src p) = realptr_at s r ≡ p
HolderOk s rs (protecting r p) = (realptr_at s r ≡ p) × ((q : ℕ) → p ≡ some q → Guarded s rs r q)
HolderOk s rs _ = Unit {0}

pub record Inv (s : System) : Type 0 where
  -- What a source points to is linked there, and so in no other source.
  pub links : (src p : ℕ) → s.shared.sources src ≡ some p → s.shared.phase p ≡ Phase.linked src
  -- A retired object is in exactly one list, once; every other object is in none.
  pub kept :
      (p : ℕ)
      → total (keeps p) s.reclaimers + count p s.shared.retired_list ≡ owed (s.shared.phase p)
  -- An active record has exactly one holder, any other record none.
  pub owned : (k : ℕ) → total (owns k) s.holders ≡ activity (get_elem? s.shared.records k)
  pub held :
      (h : ℕ) (pc : Holder) → get_elem? s.holders h ≡ some pc → HolderOk s.shared s.reclaimers pc

-- What a step of a holder does to the shared state and its own.
pub record HolderMoves (s : Shared) (pc : Holder) (s' : Shared) (pc' : Holder) : Type 0 where
  pub same_sources : s'.sources ≡ s.sources
  pub same_phase : s'.phase ≡ s.phase
  pub same_retired : s'.retired_list ≡ s.retired_list
  pub ownership :
      (k : ℕ)
      → activity (get_elem? s'.records k) + owns k pc
        ≡ activity (get_elem? s.records k) + owns k pc'
  pub others : (k : ℕ) → owns k pc ≡ 0 → realptr_at s' k ≡ realptr_at s k

HolderOk-move :
    (s s' : Shared) (rs : List Reclaimer) (mover pc mover' : Holder)
    → HolderMoves s mover s' mover'
    → ((k : ℕ) → owns k pc ≡ 1 → owns k mover ≡ 0)
    → HolderOk s rs pc
    → HolderOk s' rs pc
HolderOk-move s s' rs mover (stored r src p) mover' m apart ok =
    m.others r (apart r (ground arith)) ∙ ok
HolderOk-move s s' rs mover (protecting r p) mover' m apart ok = (
  m.others r (apart r (ground arith)) ∙ ok.0,
  λ q e.
      let g = ok.1 q e in
      record {
        used = ap (λ (f : ℕ → Phase). in_use (f q)) m.same_phase ∙ g.used;
        covered = g.covered;
      },
)
HolderOk-move s s' rs mover pc mover' m apart ok = tt

pub activity_bound : (o : Option HazptrRecord) → activity o ≤ 1
activity_bound none = omega arith
activity_bound (some rec) = ground arith

active-lt : (xs : List HazptrRecord) (r : ℕ) → 0 < activity (get_elem? xs r) → r < length xs
active-lt [] r p = absurd (omega arith)
active-lt (x ∷ xs) zero p = omega arith
active-lt (x ∷ xs) (suc r) p = omega (arith, active-lt xs r p)

-- A holder has at most the record that it is active for, and a record that exists.
pub owns-le-activity :
    (s : System) (h k : ℕ) (pc : Holder)
    → Inv s
    → get_elem? s.holders h ≡ some pc
    → owns k pc ≤ activity (get_elem? s.shared.records k)
owns-le-activity s h k pc v at = omega (arith, le-total (owns k) s.holders h pc at, v.owned k)

pub owns-lt :
    (s : System) (h k : ℕ) (pc : Holder)
    → Inv s
    → get_elem? s.holders h ≡ some pc
    → owns k pc ≡ 1
    → k < length s.shared.records
owns-lt s h k pc v at e =
    active-lt s.shared.records k (omega (arith, owns-le-activity s h k pc v at, e))

pub holder-Inv :
    (s : System) (h : ℕ) (old new : Holder) (s' : Shared)
    → Inv s
    → get_elem? s.holders h ≡ some old
    → HolderMoves s.shared old s' new
    → HolderOk s' s.reclaimers new
    → Inv (record s { shared = s'; holders = set s.holders h new })
holder-Inv s h old new s' v at m ok = record {
  links = λ src p e.
      ap (λ (f : ℕ → Phase). f p) m.same_phase
      ∙ v.links src p (ap (λ (f : ℕ → Option ℕ). f src) (sym m.same_sources) ∙ e);
  kept = λ p. omega (
    arith,
    v.kept p,
    ap (count p) m.same_retired,
    ap (λ (f : ℕ → Phase). owed (f p)) m.same_phase,
  );
  owned = λ k. omega (arith, total-set (owns k) s.holders h old new at, v.owned k, m.ownership k);
  held = λ j pc e. elim (set_cases s.holders h j old new pc at e) [
    | inl (_, same) ↦ subst (HolderOk s' s.reclaimers) same ok
    | inr (ne, there) ↦
        HolderOk-move s.shared s' s.reclaimers old pc new m
          (λ k one. omega (
            arith,
            two-le-total (owns k) s.holders h j old pc ne at there,
            v.owned k,
            activity_bound (get_elem? s.shared.records k),
            one,
          ))
          (v.held j pc there)
  ];
}

-- What a step of a reclaimer does to the shared state and its own.
pub record ReclaimerMoves (s : Shared) (old : Reclaimer) (s' : Shared) (new : Reclaimer)
    : Type 0 where
  pub same_sources : s'.sources ≡ s.sources
  pub same_records : s'.records ≡ s.records
  pub balance :
      (p : ℕ)
      → keeps p new + count p s'.retired_list + owed (s.phase p)
        ≡ keeps p old + count p s.retired_list + owed (s'.phase p)
  pub links_stay : (src p : ℕ) → s.phase p ≡ Phase.linked src → s'.phase p ≡ Phase.linked src
  pub guards :
      (r q : ℕ)
      → r < length s.records
      → realptr_at s r ≡ some q
      → in_use (s.phase q) ≡ true
      → Covers r q old.pc
      → (in_use (s'.phase q) ≡ true) × Covers r q new.pc

-- A change of the shared state that keeps all records keeps what the holders rely on.
HolderOk-keep :
    (s s' : Shared) (rs rs' : List Reclaimer) (pc : Holder)
    → s'.records ≡ s.records
    → ((r q : ℕ) → owns r pc ≡ 1 → realptr_at s r ≡ some q → Guarded s rs r q → Guarded s' rs' r q)
    → HolderOk s rs pc
    → HolderOk s' rs' pc
HolderOk-keep s s' rs rs' (stored r src p) same keep ok =
    ap (λ l. realptr_of (get_elem? l r)) same ∙ ok
HolderOk-keep s s' rs rs' (protecting r p) same keep ok = (
  ap (λ l. realptr_of (get_elem? l r)) same ∙ ok.0,
  λ q e. keep r q (ground arith) (ok.0 ∙ e) (ok.1 q e),
)
HolderOk-keep s s' rs rs' pc same keep ok = tt

pub reclaimer-Inv :
    (s : System) (t : ℕ) (old new : Reclaimer) (s' : Shared)
    → Inv s
    → get_elem? s.reclaimers t ≡ some old
    → ReclaimerMoves s.shared old s' new
    → Inv (record s { shared = s'; reclaimers = set s.reclaimers t new })
reclaimer-Inv s t old new s' v at m = record {
  links = λ src p e.
      m.links_stay src p
        (v.links src p (ap (λ (f : ℕ → Option ℕ). f src) (sym m.same_sources) ∙ e));
  kept = λ p. omega (arith, total-set (keeps p) s.reclaimers t old new at, v.kept p, m.balance p);
  owned = λ k. v.owned k ∙ ap (λ l. activity (get_elem? l k)) (sym m.same_records);
  held = λ h pc e.
      HolderOk-keep s.shared s' s.reclaimers (set s.reclaimers t new) pc m.same_records
        (λ r q has points g.
          let next = m.guards r q (owns-lt s h r pc v e has) points g.used (g.covered t old at) in
          record {
            used = next.0;
            covered = λ j x f. elim (set_cases s.reclaimers t j old new x at f) [
              | inl (_, same) ↦ subst (λ (y : Reclaimer). Covers r q y.pc) same (next.1)
              | inr (_, there) ↦ g.covered j x there
            ];
          })
        (v.held h pc e);
}

-- What a step of a user does.
pub record UserMoves (s s' : Shared) : Type 0 where
  pub same_records : s'.records ≡ s.records
  pub same_retired : s'.retired_list ≡ s.retired_list
  pub links' : (src p : ℕ) → s'.sources src ≡ some p → s'.phase p ≡ Phase.linked src
  pub same_owed : (p : ℕ) → owed (s'.phase p) ≡ owed (s.phase p)
  pub used : (q : ℕ) → in_use (s.phase q) ≡ true → in_use (s'.phase q) ≡ true

pub user-Inv :
    (s : System) (s' : Shared) → Inv s → UserMoves s.shared s' → Inv (record s { shared = s' })
user-Inv s s' v m = record {
  links = m.links';
  kept = λ p. omega (arith, v.kept p, ap (count p) m.same_retired, m.same_owed p);
  owned = λ k. v.owned k ∙ ap (λ l. activity (get_elem? l k)) (sym m.same_records);
  held = λ h pc e.
      HolderOk-keep s.shared s' s.reclaimers s.reclaimers pc m.same_records
        (λ r q has points g. record { used = m.used q g.used; covered = g.covered })
        (v.held h pc e);
}

pub initial-Inv : (holders reclaimers : ℕ) → Inv (initial holders reclaimers)
unfolding initial
initial-Inv m n = record {
  links = λ src p e. absurd (cc (e));
  kept = λ p.
      omega (
        arith,
        total-replicate (keeps p) n (record { priv_list = []; pc = ReclaimerPc.ready }) refl,
      );
  owned = λ k. total-replicate (owns k) m Holder.outside refl;
  held = λ h pc e.
      subst (HolderOk (initial m n).shared (initial m n).reclaimers)
        (sym (get_elem?-replicate m h Holder.outside pc e)) tt;
}
