-- ===== src/Hazptr/Users.antt =====
-- src/concurrent/hazptr.h, src/concurrent/hazptr.hpp: the steps of the users of the objects
-- keep the invariant.
use wizard.Prelude.{
  ℕ, ◌≡◌, ◌≢◌, inl, inr, refl, sym, ◌∙◌, ap, subst, true, Option-cases, Option, none, some,
  ℕ_discrete,
}
use wizard.Prelude.Functions.{assign_at_cases, assign_at, assign_at_self, assign_at_ne}
use wizard.Hazptr.{
  Phase, free, fresh, linked, unlinked, Shared, System, allocate_at, unlink, link, replace_source,
}
use wizard.Hazptr.Owns.{owed, in_use}
use wizard.Hazptr.Invariant.{Inv, UserMoves}

-- Nothing changes.
same-Moves : (s : System) → Inv s → UserMoves s.shared s.shared
same-Moves s v = record {
  same_records = refl;
  same_retired = refl;
  links' = v.links;
  same_owed = λ p. refl;
  used = λ q e. e;
}

pub allocate-Moves :
    (s : System) (p : ℕ) (f : Phase)
    → Inv s
    → s.shared.phase p ≡ f
    → UserMoves s.shared (allocate_at s.shared p f)
unfolding allocate_at
allocate-Moves s p free v e = record {
  same_records = refl;
  same_retired = refl;
  links' = λ src q at. elim (ℕ_discrete p q) [
    | yes same ↦ absurd (cc (e, ap s.shared.phase same, v.links src q at))
    | no ne ↦ assign_at_ne s.shared.phase p q fresh ne ∙ v.links src q at
  ];
  same_owed = λ q.
      assign_at_cases s.shared.phase p q fresh (λ a b. owed b ≡ owed a) (rw e refl) (λ f. refl);
  used = λ q.
      assign_at_cases s.shared.phase p q fresh (λ a b. in_use a ≡ true → in_use b ≡ true)
        (rw e (λ u. absurd (cc (u)))) (λ f u. u);
}
allocate-Moves s p f v e = same-Moves s v

-- A source that loses its object.
record Unlinks (s : Shared) (src : ℕ) (after : ℕ → Phase) : Type 0 where
  links' : (src' p : ℕ) → src ≢ src' → s.sources src' ≡ some p → after p ≡ linked src'
  same_owed : (p : ℕ) → owed (after p) ≡ owed (s.phase p)
  used : (q : ℕ) → in_use (s.phase q) ≡ true → in_use (after q) ≡ true
  fresh_stays : (p : ℕ) → s.phase p ≡ fresh → after p ≡ fresh

unlink_lem :
    (s : System) (src : ℕ)
    → Inv s
    → Unlinks s.shared src (unlink s.shared.phase (s.shared.sources src))
unfolding unlink
unlink_lem s src v = elim (Option-cases (s.shared.sources src)) [
  | inl e ↦ rw e (record {
    links' = λ src' p ne at. v.links src' p at;
    same_owed = λ p. refl;
    used = λ q u. u;
    fresh_stays = λ p f. f;
  })
  | inr (o, e) ↦
      let was = v.links src o e in
      rw e (record {
        links' = λ src' p ne at. elim (ℕ_discrete o p) [
          | yes same ↦ absurd (ne (cc (was, ap s.shared.phase same, v.links src' p at)))
          | no other ↦ assign_at_ne s.shared.phase o p unlinked other ∙ v.links src' p at
        ];
        same_owed = λ q.
            assign_at_cases s.shared.phase o q unlinked (λ a b. owed b ≡ owed a) (rw was refl)
              (λ f. refl);
        used = λ q.
            assign_at_cases s.shared.phase o q unlinked (λ a b. in_use a ≡ true → in_use b ≡ true)
              (λ u. refl) (λ f u. u);
        fresh_stays = λ q.
            assign_at_cases s.shared.phase o q unlinked (λ a b. a ≡ fresh → b ≡ fresh)
              (rw was (λ u. absurd (cc (u)))) (λ f u. u);
      })
]

link-Moves :
    (s : System) (src p : ℕ) (f : Phase)
    → Inv s
    → s.shared.phase p ≡ f
    → UserMoves s.shared (link s.shared src p f)
unfolding link
link-Moves s src p fresh v e =
    let w = unlink_lem s src v in
    let after = unlink s.shared.phase (s.shared.sources src) in
    let was = w.fresh_stays p e in
    record {
      same_records = refl;
      same_retired = refl;
      links' = λ src' q at. elim (ℕ_discrete src src') [
        | yes same ↦
            let here : p ≡ q = cc (at, assign_at_self s.shared.sources src (some p)) in
            subst (λ j. assign_at after p (linked src) j ≡ linked src') here
              (assign_at_self after p (linked src) ∙ ap linked same)
        | no ne ↦
            let old =
              w.links' src' q ne (sym (assign_at_ne s.shared.sources src src' (some p) ne) ∙ at) in
            elim (ℕ_discrete p q) [
              | yes same ↦ absurd (cc (was, ap after same, old))
              | no other ↦ assign_at_ne after p q (linked src) other ∙ old
            ]
      ];
      same_owed = λ q.
          assign_at_cases after p q (linked src) (λ a b. owed b ≡ owed a) (rw was refl) (λ f. refl)
          ∙ w.same_owed q;
      used = λ q u.
          assign_at_cases after p q (linked src) (λ a b. in_use a ≡ true → in_use b ≡ true)
            (λ x. refl) (λ f x. x) (w.used q u);
    }
link-Moves s src p f v e = same-Moves s v

pub replace-Moves :
    (s : System) (src : ℕ) (new : Option ℕ)
    → Inv s
    → UserMoves s.shared (replace_source s.shared src new)
unfolding replace_source
replace-Moves s src none v =
    let w = unlink_lem s src v in
    record {
      same_records = refl;
      same_retired = refl;
      links' = λ src' q at. elim (ℕ_discrete src src') [
        | yes same ↦ absurd (cc (at, assign_at_self s.shared.sources src none))
        | no ne ↦ w.links' src' q ne (sym (assign_at_ne s.shared.sources src src' none ne) ∙ at)
      ];
      same_owed = w.same_owed;
      used = w.used;
    }
replace-Moves s src (some p) v = link-Moves s src p (s.shared.phase p) v refl
