-- ===== src/Hazptr/Stores.antt =====
-- src/concurrent/hazptr.h, src/concurrent/hazptr.hpp: what a holder's stores to a record change.
use wizard.Prelude.{
  ℕ, zero, suc, ◌+◌, ◌<◌, ◌≡◌, ◌≢◌, refl, sym, ap, Bool, true, Option, none, some, List, [], ◌∷◌,
  ◌++◌, arith, if◌then◌else◌, get_elem?, length, get_elem?-append_last, get_elem?-lt, ==_eq, ==_ne,
  ℕ_discrete,
}
use wizard.Hazptr.{HazptrRecord, Shared, Holder, modify, store_realptr, store_active}
use wizard.Hazptr.Holder.{creating, counting}
use wizard.Hazptr.Owns.{owns, activity}
use wizard.Hazptr.Invariant.{realptr_at, HolderMoves}

get_elem?-end : (xs : List HazptrRecord) → get_elem? xs (length xs) ≡ none
get_elem?-end [] = refl
get_elem?-end (x ∷ xs) = get_elem?-end xs

get_elem?-append_ne :
    (xs : List HazptrRecord) (x : HazptrRecord) (k : ℕ)
    → length xs ≢ k
    → get_elem? (xs ++ (x ∷ [])) k ≡ get_elem? xs k
get_elem?-append_ne [] x zero ne = absurd (ne refl)
get_elem?-append_ne [] x (suc k) ne = refl
get_elem?-append_ne (y ∷ xs) x zero ne = refl
get_elem?-append_ne (y ∷ xs) x (suc k) ne = get_elem?-append_ne xs x k (λ e. ne (ap suc e))

module _ {ℓ} {A : Type ℓ} where
  get_elem?-modify_ne :
      (f : A → A) (xs : List A) (r k : ℕ) → r ≢ k → get_elem? (modify f xs r) k ≡ get_elem? xs k
  unfolding modify
  get_elem?-modify_ne f [] r k ne = refl
  get_elem?-modify_ne f (x ∷ xs) zero zero ne = absurd (ne refl)
  get_elem?-modify_ne f (x ∷ xs) zero (suc k) ne = refl
  get_elem?-modify_ne f (x ∷ xs) (suc r) zero ne = refl
  get_elem?-modify_ne f (x ∷ xs) (suc r) (suc k) ne =
      get_elem?-modify_ne f xs r k (λ e. ne (ap suc e))

  get_elem?-modify_self :
      (f : A → A) (xs : List A) (r : ℕ) (x : A)
      → get_elem? xs r ≡ some x
      → get_elem? (modify f xs r) r ≡ some (f x)
  unfolding modify
  get_elem?-modify_self f [] r x e = absurd (cc (e))
  get_elem?-modify_self f (y ∷ xs) zero x e = let same : y ≡ x = cc (e) in ap (λ z. some (f z)) same
  get_elem?-modify_self f (y ∷ xs) (suc r) x e = get_elem?-modify_self f xs r x e

-- A holder's store to the `realptr` of its record.
pub store_realptr-Moves :
    (s : Shared) (r : ℕ) (p : Option ℕ) (old new : Holder)
    → r < length s.records
    → ((k : ℕ) → owns k old ≡ owns k new)
    → owns r old ≡ 1
    → HolderMoves s old (store_realptr s r p) new
unfolding store_realptr
store_realptr-Moves s r p old new inside same has =
    let f = λ (rec : HazptrRecord). record rec { realptr = p } in
    let at = get_elem?-lt s.records r inside in
    record {
      same_sources = refl;
      same_phase = refl;
      same_retired = refl;
      ownership = λ k. elim (ℕ_discrete r k) [
        | yes here ↦
            rw (sym here, get_elem?-modify_self f s.records r (at.0) (at.1), at.1)
              (omega (arith, same r))
        | no ne ↦ rw (get_elem?-modify_ne f s.records r k ne) (omega (arith, same k))
      ];
      others = λ k out.
          let ne : r ≢ k = λ here. omega (arith, ap (λ i. owns i old) here, has, out) in
          rw (get_elem?-modify_ne f s.records r k ne) refl;
    }

pub store_realptr_self :
    (s : Shared) (r : ℕ) (p : Option ℕ)
    → r < length s.records
    → realptr_at (store_realptr s r p) r ≡ p
unfolding store_realptr
store_realptr_self s r p inside =
    let at = get_elem?-lt s.records r inside in
    rw
      (get_elem?-modify_self (λ (rec : HazptrRecord). record rec { realptr = p }) s.records r (at.0)
        (at.1))
      refl

-- A store to `active` with the change of owner that goes with it.
pub store_active-Moves :
    (s : Shared) (r : ℕ) (active : Bool) (rec : HazptrRecord) (old new : Holder)
    → get_elem? s.records r ≡ some rec
    → ((k : ℕ) → r ≢ k → owns k old ≡ owns k new)
    → (if active then 1 else 0) + owns r old ≡ activity (some rec) + owns r new
    → HolderMoves s old (store_active s r active) new
unfolding store_active
store_active-Moves s r active rec old new e same here =
    let f = λ (rec : HazptrRecord). record rec { active = active } in
    record {
      same_sources = refl;
      same_phase = refl;
      same_retired = refl;
      ownership = λ k. elim (ℕ_discrete r k) [
        | yes at ↦ rw (sym at, get_elem?-modify_self f s.records r rec e, e) here
        | no ne ↦ rw (get_elem?-modify_ne f s.records r k ne) (omega (arith, same k ne))
      ];
      others = λ k out. elim (ℕ_discrete r k) [
        | yes at ↦ rw (sym at, get_elem?-modify_self f s.records r rec e, e) refl
        | no ne ↦ rw (get_elem?-modify_ne f s.records r k ne) refl
      ];
    }

-- A step that leaves the shared state and the record alone.
pub stay-Moves :
    (s : Shared) (old new : Holder) → ((k : ℕ) → owns k old ≡ owns k new) → HolderMoves s old s new
stay-Moves s old new same = record {
  same_sources = refl;
  same_phase = refl;
  same_retired = refl;
  ownership = λ k. omega (arith, same k);
  others = λ k out. refl;
}

-- A new record in front of the list.
pub create-Moves :
    (s : Shared) (n : ℕ)
    → HolderMoves s
        (creating n)
        (record s { records = s.records ++ (record { active = true; realptr = none } ∷ []) })
        (counting (length s.records))
create-Moves s n =
    let rec : HazptrRecord = record { active = true; realptr = none } in
    record {
      same_sources = refl;
      same_phase = refl;
      same_retired = refl;
      ownership = λ k. elim (ℕ_discrete (length s.records) k) [
        | yes at ↦
            rw
              (
                sym at,
                get_elem?-append_last s.records rec,
                get_elem?-end s.records,
                ==_eq {a = length s.records} refl,
              )
              (omega arith)
        | no ne ↦ rw (get_elem?-append_ne s.records rec k ne, ==_ne ne) refl
      ];
      others = λ k out. elim (ℕ_discrete (length s.records) k) [
        | yes at ↦ rw (sym at, get_elem?-append_last s.records rec, get_elem?-end s.records) refl
        | no ne ↦ rw (get_elem?-append_ne s.records rec k ne) refl
      ];
    }
