-- ===== src/SkipList/Destructor.antt =====
-- src/container/skiplist.h: `~SkipList`.
use wizard.Prelude.{
  ℕ, zero, suc, ◌+◌, ◌<◌, ◌≡◌, refl, ◌∙◌, ap, subst, none, some, List, [], ◌∷◌, arith, ◌>>=◌,
  length, ℕ_discrete, append-nil,
}
use wizard.Prelude.Pigeonhole.{Absent, Different}
use wizard.SkipList.{Store, SkipList, Element, skip_at, skip, destroy_from}
use wizard.SkipList.Models.{height_in, Linked, Links, Models, first_of, Linked-first}
use wizard.SkipList.Locate.{length-Values}
use wizard.SkipList.Kept.{Links-kept}
use wizard.SkipList.Kept.{destroy_lem}

module _ {ℓ} {T : Type ℓ} where
  destroy_from_lem :
      (xs : List ℕ) (fuel : ℕ) (s : Store T)
      → Links s xs []
      → Different xs
      → ((a : ℕ) → Absent a xs → s.nodes a ≡ none)
      → length xs < fuel
      → (t : Store T) × (destroy_from fuel s (first_of xs) ≡ some t) × ((a : ℕ) → t.nodes a ≡ none)
  unfolding destroy_from skip
  destroy_from_lem xs zero s links different owned enough = absurd (omega arith)
  destroy_from_lem [] (suc fuel) s links different owned enough = (s, refl, λ a. owned a tt)
  destroy_from_lem (x ∷ xs) (suc fuel) s links different owned enough =
      let linked : Linked s x xs = subst (Linked s x) (append-nil xs) (links.0) in
      let next : skip s x 0 ≡ some (first_of xs) =
        linked.skips 0 linked.present ∙ ap some (Linked-first s [] xs (links.1)) in
      let gone = destroy_lem s x linked.present in
      let t = gone.after in
      let rest =
        destroy_from_lem xs fuel t
          (Links-kept s t x (λ j. x) 0 xs (λ y ne. ap height_in (gone.others y ne))
            (λ y j ne q. ap (λ o. o >>= skip_at j) (gone.others y ne)) (different.0)
            (λ j p. absurd (omega arith)) (links.1))
          (different.1)
          (λ a out. elim (ℕ_discrete x a) [
            | yes e ↦ subst (λ b. t.nodes b ≡ none) e gone.gone
            | no ne ↦ gone.others a ne ∙ owned a (ne, out)
          ])
          (omega arith) in
      (rest.0, rw (next, gone.result) (rest.1), rest.2)

  -- The destructor of a skip list that stands for a sorted list destroys each node once and
  -- leaves none.
  pub destroy-Models :
      (E : Element T) (m : SkipList T) (vs : List T)
      → Models E m vs
      → (after : Store T) × (destroy_from (m.size + 2) m.store (some m.head) ≡ some after)
        × ((a : ℕ) → after.nodes a ≡ none)
  destroy-Models E m vs k =
      destroy_from_lem (m.head ∷ k.places) (m.size + 2) m.store k.links k.different k.owned
        (omega (arith, k.counted, length-Values m.store k.places vs k.values))
