-- ===== src/SkipList/Order.antt =====
-- Sorted lists: what a skip list is for.
use wizard.Prelude.{
  suc, ◌≡◌, inl, inr, refl, ap, subst, Bool, true, false, ◌||◌, ◌&&◌, not, Bool-cases, List, [],
  ◌∷◌, ◌++◌, if◌then◌else◌, length,
}
use wizard.SkipList.{Element}

module _ {ℓ} {T : Type ℓ} (E : Element T) where
  -- Not less than any later one.
  abbrev pub Before : T → List T → Type 0
  Before v [] = Unit {0}
  Before v (w ∷ ws) = (E.less w v ≡ false) × Before v ws

  abbrev pub Sorted : List T → Type 0
  Sorted [] = Unit {0}
  Sorted (v ∷ vs) = Before v vs × Sorted vs

  abbrev pub member : T → List T → Bool
  member value [] = false
  member value (v ∷ vs) = E.same v value || member value vs

  -- In front of the first value that is not less.
  abbrev pub insert_sorted : T → List T → List T
  insert_sorted value [] = value ∷ []
  insert_sorted value (v ∷ vs) =
      if E.less v value then v ∷ insert_sorted value vs else value ∷ v ∷ vs

  abbrev pub remove_first : T → List T → List T
  remove_first value [] = []
  remove_first value (v ∷ vs) = if E.same v value then vs else v ∷ remove_first value vs

  -- What `insert` makes of the list.
  abbrev pub insert_list : T → Bool → List T → List T
  insert_list value force vs =
      if (member value vs && force) || not (member value vs) then insert_sorted value vs else vs

  module _ (value : T) where
    abbrev pub take_less : List T → List T
    take_less [] = []
    take_less (v ∷ vs) = if E.less v value then v ∷ take_less vs else []

    abbrev pub drop_less : List T → List T
    drop_less [] = []
    drop_less (v ∷ vs) = if E.less v value then drop_less vs else v ∷ vs

    abbrev pub starts_with : List T → Bool
    starts_with [] = false
    starts_with (v ∷ vs) = E.same v value

    abbrev pub behind_first : List T → List T
    behind_first [] = []
    behind_first (v ∷ vs) = vs

    pub not_less_behind :
        (v w : T) → E.less v value ≡ false → E.less w v ≡ false → E.less w value ≡ false
    not_less_behind v w p q = elim (Bool-cases (E.less w value)) [
      | inr e ↦ e
      | inl e ↦ elim (Bool-cases (E.less v w)) [
        | inl f ↦ absurd (cc (E.transitive v w value f e, p))
        | inr f ↦ let same : v ≡ w = E.connected v w f q in absurd (cc (same, e, p))
      ]
    ]

    less-same : (v : T) → E.less v value ≡ true → E.same v value ≡ false
    less-same v e = elim (Bool-cases (E.same v value)) [
      | inr f ↦ f
      | inl f ↦
          let equal : v ≡ value = (E.same_iff v value).0 f in
          absurd (cc (e, subst (λ w. E.less v w ≡ false) equal (E.irreflexive v)))
    ]

    member-Before :
        (v : T) (vs : List T)
        → E.less v value ≡ false
        → E.same v value ≡ false
        → Before v vs
        → member value vs ≡ false
    member-Before v [] p q b = refl
    member-Before v (w ∷ vs) p q b = elim (Bool-cases (E.same w value)) [
      | inr f ↦ rw f (member-Before v vs p q (b.1))
      | inl f ↦
          let equal : w ≡ value = (E.same_iff w value).0 f in
          let same : v ≡ value =
            E.connected v value p (subst (λ u. E.less u v ≡ false) equal (b.0)) in
          absurd (cc ((E.same_iff v value).1 same, q))
    ]

    pub starts_with-drop_less :
        (vs : List T) → Sorted vs → starts_with (drop_less vs) ≡ member value vs
    starts_with-drop_less [] o = refl
    starts_with-drop_less (v ∷ vs) o = elim (Bool-cases (E.less v value)) [
      | inl e ↦ rw (e, less-same v e) (starts_with-drop_less vs (o.1))
      | inr e ↦ elim (Bool-cases (E.same v value)) [
        | inl f ↦ rw (e, f) refl
        | inr f ↦ rw (e, f, member-Before v vs e f (o.0)) refl
      ]
    ]

    pub insert_sorted_lem :
        (vs : List T) → take_less vs ++ (value ∷ drop_less vs) ≡ insert_sorted value vs
    insert_sorted_lem [] = refl
    insert_sorted_lem (v ∷ vs) = elim (Bool-cases (E.less v value)) [
      | inl e ↦ rw e (ap (λ l. v ∷ l) (insert_sorted_lem vs))
      | inr e ↦ rw e refl
    ]

    pub remove_first_lem :
        (vs : List T)
        → starts_with (drop_less vs) ≡ true
        → take_less vs ++ behind_first (drop_less vs) ≡ remove_first value vs
    remove_first_lem [] e = refl
    remove_first_lem (v ∷ vs) e = elim (Bool-cases (E.less v value)) [
      | inl f ↦ rw (f, less-same v f) (ap (λ l. v ∷ l) (remove_first_lem vs (rw f at e)))
      | inr f ↦ let found : E.same v value ≡ true = rw f at e in rw (f, found) refl
    ]

    pub remove_first_absent : (vs : List T) → member value vs ≡ false → remove_first value vs ≡ vs
    remove_first_absent [] e = refl
    remove_first_absent (v ∷ vs) e = elim (Bool-cases (E.same v value)) [
      | inl f ↦ absurd (cc (rw f at e))
      | inr f ↦ rw f (ap (λ l. v ∷ l) (remove_first_absent vs (rw f at e)))
    ]

    Before-insert_sorted :
        (v : T) (vs : List T)
        → E.less value v ≡ false
        → Before v vs
        → Before v (insert_sorted value vs)
    Before-insert_sorted v [] p b = (p, tt)
    Before-insert_sorted v (w ∷ vs) p b = elim (Bool-cases (E.less w value)) [
      | inl e ↦ rw e (b.0, Before-insert_sorted v vs p (b.1))
      | inr e ↦ rw e (p, b)
    ]

    Before-smaller : (v : T) (vs : List T) → E.less v value ≡ false → Before v vs → Before value vs
    Before-smaller v [] p b = tt
    Before-smaller v (w ∷ vs) p b = (not_less_behind v w p (b.0), Before-smaller v vs p (b.1))

    less-not_less : (v : T) → E.less v value ≡ true → E.less value v ≡ false
    less-not_less v e = elim (Bool-cases (E.less value v)) [
      | inr f ↦ f
      | inl f ↦ absurd (cc (E.transitive v value v e f, E.irreflexive v))
    ]

    pub insert_sorted-Sorted : (vs : List T) → Sorted vs → Sorted (insert_sorted value vs)
    insert_sorted-Sorted [] o = (tt, tt)
    insert_sorted-Sorted (v ∷ vs) o = elim (Bool-cases (E.less v value)) [
      | inl e ↦
          rw e (Before-insert_sorted v vs (less-not_less v e) (o.0), insert_sorted-Sorted vs (o.1))
      | inr e ↦ rw e ((e, Before-smaller v vs e (o.0)), o)
    ]

    Before-remove_first : (v : T) (vs : List T) → Before v vs → Before v (remove_first value vs)
    Before-remove_first v [] b = tt
    Before-remove_first v (w ∷ vs) b = elim (Bool-cases (E.same w value)) [
      | inl e ↦ rw e (b.1)
      | inr e ↦ rw e (b.0, Before-remove_first v vs (b.1))
    ]

    pub remove_first-Sorted : (vs : List T) → Sorted vs → Sorted (remove_first value vs)
    remove_first-Sorted [] o = tt
    remove_first-Sorted (v ∷ vs) o = elim (Bool-cases (E.same v value)) [
      | inl e ↦ rw e (o.1)
      | inr e ↦ rw e (Before-remove_first v vs (o.0), remove_first-Sorted vs (o.1))
    ]

    pub length-insert_sorted : (vs : List T) → length (insert_sorted value vs) ≡ suc (length vs)
    length-insert_sorted [] = refl
    length-insert_sorted (v ∷ vs) = elim (Bool-cases (E.less v value)) [
      | inl e ↦ rw e (ap suc (length-insert_sorted vs))
      | inr e ↦ rw e refl
    ]

    pub length-remove_first :
        (vs : List T) → member value vs ≡ true → suc (length (remove_first value vs)) ≡ length vs
    length-remove_first [] e = absurd (cc (e))
    length-remove_first (v ∷ vs) e = elim (Bool-cases (E.same v value)) [
      | inl f ↦ rw f refl
      | inr f ↦ rw f (ap suc (length-remove_first vs (rw f at e)))
    ]
