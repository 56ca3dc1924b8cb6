-- ===== src/Hazptr/Alone.antt =====
-- src/concurrent/hazptr.hpp: `bulkReclaim` of a thread that no other one interrupts.
use wizard.Prelude.{
  ℕ, zero, suc, ◌+◌, ◌≡◌, inl, inr, refl, sym, ◌∙◌, ap, Bool, true, false, Bool-cases, Option, some,
  List, [], ◌∷◌, ◌++◌, arith, get_elem?, length, if◌then◌else◌, ◌||◌, append_assoc, append-nil,
}
use wizard.Prelude.Functions.{assign_at}
use wizard.Hazptr.{
  HazptrRecord, Phase, free, Shared, ReclaimerPc, contains, first, run_pc, same_pointer, see,
  behind,
}
use wizard.Hazptr.ReclaimerPc.{ready, taking, scanning, deleting}

-- So many steps, none of which fails without cause.
abbrev pub run_alone : ℕ → Shared → ReclaimerPc → Shared × ReclaimerPc
run_alone zero s pc = (s, pc)
run_alone (suc k) s pc = let ran = run_pc s pc false in run_alone k (ran.0) (ran.1)

-- Whether a record of the list points to the object.
abbrev pub is_protected : List HazptrRecord → ℕ → Bool
is_protected [] p = false
is_protected (rec ∷ records) p = same_pointer rec.realptr (some p) || is_protected records p

-- What `bulkReclaim` is for: the protected objects stay in the list, in order, all others are
-- deleted.
abbrev pub kept_of : List HazptrRecord → List ℕ → List ℕ
kept_of records [] = []
kept_of records (p ∷ ps) =
    if is_protected records p then p ∷ kept_of records ps else kept_of records ps

abbrev pub deleted_from : List HazptrRecord → (ℕ → Phase) → List ℕ → ℕ → Phase
deleted_from records phase [] = phase
deleted_from records phase (p ∷ ps) =
    if is_protected records p
    then deleted_from records phase ps
    else deleted_from records (assign_at phase p free) ps

run_alone-ready : (k : ℕ) (s : Shared) → run_alone k s ready ≡ (s, ready)
unfolding run_pc
run_alone-ready zero s = refl
run_alone-ready (suc k) s = run_alone-ready k s

see_all : List HazptrRecord → ℕ → List (Option ℕ) → List (Option ℕ)
see_all records zero seen = seen
see_all records (suc k) seen = see_all records k (see (get_elem? records k) seen)

see_all-cons :
    (rec : HazptrRecord) (records : List HazptrRecord) (k : ℕ) (seen : List (Option ℕ))
    → see_all (rec ∷ records) (suc k) seen ≡ rec.realptr ∷ see_all records k seen
unfolding see_all
see_all-cons rec records zero seen = refl
see_all-cons rec records (suc k) seen = see_all-cons rec records k (see (get_elem? records k) seen)

contains-see_all :
    (records : List HazptrRecord) (p : ℕ)
    → contains (see_all records (length records) []) p ≡ is_protected records p
unfolding contains see_all
contains-see_all [] p = refl
contains-see_all (rec ∷ records) p =
    rw (see_all-cons rec records (length records) [], contains-see_all records p) refl

run_alone-add :
    (j n : ℕ) (s : Shared) (pc : ReclaimerPc)
    → run_alone (j + n) s pc ≡ run_alone n ((run_alone j s pc).0) ((run_alone j s pc).1)
run_alone-add zero n s pc = let same : 0 + n ≡ n = omega arith in ap (λ k. run_alone k s pc) same
run_alone-add (suc j) n s pc =
    let more : suc j + n ≡ suc (j + n) = omega arith in
    ap (λ k. run_alone k s pc) more
    ∙ run_alone-add j n ((run_pc s pc false).0) ((run_pc s pc false).1)

run_alone-scanning :
    (s : Shared) (batch : List ℕ) (k : ℕ) (seen : List (Option ℕ))
    → run_alone (suc k) s (scanning batch k seen)
      ≡ (s, deleting batch (see_all s.records k seen) [])
unfolding run_pc see_all
run_alone-scanning s batch zero seen = refl
run_alone-scanning s batch (suc k) seen =
    run_alone-scanning s batch k (see (get_elem? s.records k) seen)

run_pc-kept :
    (s : Shared) (p : ℕ) (batch : List ℕ) (seen : List (Option ℕ)) (left : List ℕ)
    → contains seen p ≡ true
    → run_pc s (deleting (p ∷ batch) seen left) false ≡ (s, deleting batch seen (left ++ (p ∷ [])))
unfolding run_pc
run_pc-kept s p batch seen left e = rw e refl

run_pc-deleted :
    (s : Shared) (p : ℕ) (batch : List ℕ) (seen : List (Option ℕ)) (left : List ℕ)
    → contains seen p ≡ false
    → run_pc s (deleting (p ∷ batch) seen left) false
      ≡ (record s { phase = assign_at s.phase p free }, deleting batch seen left)
unfolding run_pc
run_pc-deleted s p batch seen left e = rw e refl

module _ (records : List HazptrRecord) (seen : List (Option ℕ))
    (same : (p : ℕ) → contains seen p ≡ is_protected records p) where
  run_alone-deleting :
      (s : Shared) (batch left : List ℕ)
      → run_alone (length batch) s (deleting batch seen left) ≡ (
        record s { phase = deleted_from records s.phase batch },
        deleting [] seen (left ++ kept_of records batch),
      )
  run_alone-deleting s [] left = rw (append-nil left) refl
  run_alone-deleting s (p ∷ batch) left = elim (Bool-cases (is_protected records p)) [
    | inl held ↦
        ap (λ ran. run_alone (length batch) (ran.0) (ran.1))
          (run_pc-kept s p batch seen left (same p ∙ held))
        ∙ run_alone-deleting s batch (left ++ (p ∷ []))
        ∙ rw (held, append_assoc left (p ∷ []) (kept_of records batch)) refl
    | inr loose ↦
        ap (λ ran. run_alone (length batch) (ran.0) (ran.1))
          (run_pc-deleted s p batch seen left (same p ∙ loose))
        ∙ run_alone-deleting (record s { phase = assign_at s.phase p free }) batch left
        ∙ rw loose refl
  ]

-- `append` of what is left to the list that the exchange has emptied.
run_alone-left :
    (s : Shared) (seen : List (Option ℕ)) (left : List ℕ)
    → s.retired_list ≡ []
    → run_alone 4 s (deleting [] seen left)
      ≡ (record s { retired_list = left; retired_count = s.retired_count + length left }, ready)
unfolding run_pc first same_pointer behind
run_alone-left s seen [] empty =
    let none_more : s.retired_count + 0 ≡ s.retired_count = omega arith in
    rw (none_more, sym empty) refl
run_alone-left s seen (p ∷ left) empty = rw (empty, append-nil left) refl

-- `bulkReclaim` alone, from before the exchange to its return, in at most seven steps and one
-- for each record and each retired object: it deletes the retired objects that no record points
-- to, puts those that a record points to back as the list, in their order, adds their number to
-- the count, and changes nothing else.
pub bulk_reclaim-alone :
    (s : Shared)
    → run_alone (2 + (suc (length s.records) + (length s.retired_list + 4))) s taking ≡ (
      record s {
        retired_list = kept_of s.records s.retired_list;
        retired_count = s.retired_count + length (kept_of s.records s.retired_list);
        phase = deleted_from s.records s.phase s.retired_list;
      },
      ready,
    )
unfolding run_pc
bulk_reclaim-alone s =
    let records = s.records in
    let batch = s.retired_list in
    let seen = see_all records (length records) [] in
    let s1 = record s { retired_list = [] } in
    let s2 = record s1 { phase = deleted_from records s.phase batch } in
    run_alone-add 2 (suc (length records) + (length batch + 4)) s taking
    ∙ run_alone-add (suc (length records)) (length batch + 4) s1
        (scanning batch (length records) [])
    ∙ ap (λ ran. run_alone (length batch + 4) (ran.0) (ran.1))
        (run_alone-scanning s1 batch (length records) [])
    ∙ run_alone-add (length batch) 4 s1 (deleting batch seen [])
    ∙ ap (λ ran. run_alone 4 (ran.0) (ran.1))
        (run_alone-deleting records seen (contains-see_all records) s1 batch [])
    ∙ run_alone-left s2 seen (kept_of records batch) refl
