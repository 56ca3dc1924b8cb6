-- ===== src/SkipList/Kept.antt =====
-- src/container/skiplist.h: what a change of one node leaves as it was.
use wizard.Prelude.{
  ℕ, ◌≤◌, ◌<◌, ◌≡◌, ◌≢◌, ◌⊎◌, inl, inr, refl, sym, ◌∙◌, ap, none, some, List, [], ◌∷◌, ◌++◌, arith,
  ◌>>=◌, dec_lt,
}
use wizard.Prelude.Functions.{assign_at, assign_at_self, assign_at_ne}
use wizard.Prelude.Pigeonhole.{Absent, Absent-append}
use wizard.SkipList.{Store, skip_at, skip, destroy}
use wizard.SkipList.Layers.{next_tall}
use wizard.SkipList.Models.{height_in, height_of, value_of, Links, Values, Fits}
use wizard.SkipList.Locate.{node-present}
use wizard.SkipList.Relink.{next_tall-same}

module _ {ℓ} {T : Type ℓ} where
  -- An address without a node is none of the linked ones.
  pub Links-Absent :
      (s : Store T) (node : ℕ) (xs R : List ℕ) → s.nodes node ≡ none → Links s xs R → Absent node xs
  Links-Absent s node [] R e k = tt
  Links-Absent s node (x ∷ xs) R e k = (
    λ same. omega (arith, (k.0).present, ap (height_of s) same, ap height_in e),
    Links-Absent s node xs R e (k.1),
  )

  pub Values-same :
      (s t : Store T) (node : ℕ) (xs : List ℕ) (vs : List T)
      → ((x : ℕ) → node ≢ x → value_of t x ≡ value_of s x)
      → Absent node xs
      → Values s xs vs
      → Values t xs vs
  Values-same s t node [] [] same out k = k
  Values-same s t node [] (v ∷ vs) same out k = k
  Values-same s t node (x ∷ xs) [] same out k = k
  Values-same s t node (x ∷ xs) (v ∷ vs) same out k =
      (same x (λ e. out.0 (sym e)) ∙ k.0, Values-same s t node xs vs same (out.1) (k.1))

  pub Values-append :
      (s : Store T) (xs ys : List ℕ) (vs ws : List T)
      → Values s xs vs
      → Values s ys ws
      → Values s (xs ++ ys) (vs ++ ws)
  Values-append s [] ys [] ws k l = l
  Values-append s [] ys (v ∷ vs) ws k l = absurd (cc (k))
  Values-append s (x ∷ xs) ys [] ws k l = absurd (cc (k.1))
  Values-append s (x ∷ xs) ys (v ∷ vs) ws k l = (k.0, Values-append s xs ys vs ws (k.1) l)

  pub Fits-same :
      (s t : Store T) (node height : ℕ) (xs : List ℕ)
      → ((x : ℕ) → node ≢ x → height_of t x ≡ height_of s x)
      → Absent node xs
      → Fits s height xs
      → Fits t height xs
  Fits-same s t node height [] same out k = tt
  Fits-same s t node height (x ∷ xs) same out k = (
    omega (arith, same x (λ e. out.0 (sym e)), k.0),
    Fits-same s t node height xs same (out.1) (k.1),
  )

  pub Fits-append :
      (s : Store T) (height : ℕ) (xs ys : List ℕ)
      → Fits s height xs
      → Fits s height ys
      → Fits s height (xs ++ ys)
  Fits-append s height [] ys k l = l
  Fits-append s height (x ∷ xs) ys k l = (k.0, Fits-append s height xs ys (k.1) l)

  pub Fits-front :
      (s : Store T) (height : ℕ) (xs ys : List ℕ) → Fits s height (xs ++ ys) → Fits s height xs
  Fits-front s height [] ys k = tt
  Fits-front s height (x ∷ xs) ys k = (k.0, Fits-front s height xs ys (k.1))

  pub Fits-back :
      (s : Store T) (height : ℕ) (xs ys : List ℕ) → Fits s height (xs ++ ys) → Fits s height ys
  Fits-back s height [] ys k = k
  Fits-back s height (x ∷ xs) ys k = Fits-back s height xs ys (k.1)

  -- Nodes none of which loses a pointer.
  pub Links-kept :
      (s t : Store T) (node : ℕ) (place : ℕ → ℕ) (layers : ℕ) (xs : List ℕ)
      → ((x : ℕ) → node ≢ x → height_of t x ≡ height_of s x)
      → ((x j : ℕ) → node ≢ x → (layers ≤ j) ⊎ (place j ≢ x) → skip t x j ≡ skip s x j)
      → Absent node xs
      → ((j : ℕ) → j < layers → Absent (place j) xs)
      → Links s xs []
      → Links t xs []
  Links-kept s t node place layers [] heights skips out outs k = tt
  Links-kept s t node place layers (x ∷ xs) heights skips out outs k =
      let apart : node ≢ x = λ e. out.0 (sym e) in
      let lost : (j : ℕ) → (layers ≤ j) ⊎ (place j ≢ x) = λ j. elim (dec_lt j layers) [
        | yes p ↦ inr (λ e. (outs j p).0 (sym e))
        | no p ↦ inl (omega (arith, p))
      ] in
      (
        record {
          present = omega (arith, heights x apart, (k.0).present);
          skips = λ j p.
              skips x j apart (lost j)
              ∙ (k.0).skips j (omega (arith, heights x apart))
              ∙ ap some (
                  sym (
                    next_tall-same (height_of t) (height_of s) j node (xs ++ []) heights
                      (Absent-append node xs [] (out.1) tt)));
        },
        Links-kept s t node place layers xs heights skips (out.1) (λ j p. (outs j p).1) (k.1),
      )

  -- Nothing but `node` has changed.
  pub record Untouched (s t : Store T) (node : ℕ) : Type ℓ where
    pub heights : (x : ℕ) → node ≢ x → height_of t x ≡ height_of s x
    pub values : (x : ℕ) → node ≢ x → value_of t x ≡ value_of s x
    pub skips : (x j : ℕ) → node ≢ x → skip t x j ≡ skip s x j
    pub dead : (x : ℕ) → node ≢ x → s.nodes x ≡ none → t.nodes x ≡ none

  module _ (s t : Store T) (node : ℕ) (u : Untouched s t node) where
    pub Untouched-Links : (xs : List ℕ) → Absent node xs → Links s xs [] → Links t xs []
    Untouched-Links xs out =
        Links-kept s t node (λ j. node) 0 xs u.heights (λ x j ne q. u.skips x j ne) out
          (λ j p. absurd (omega arith))

    pub Untouched-next_tall :
        (j : ℕ) (xs : List ℕ)
        → Absent node xs
        → next_tall (height_of t) j xs ≡ next_tall (height_of s) j xs
    Untouched-next_tall j xs = next_tall-same (height_of t) (height_of s) j node xs u.heights

  -- `destroy` of a node that is there.
  pub record Destroyed (s : Store T) (a : ℕ) : Type ℓ where
    pub after : Store T
    pub result : destroy s a ≡ some after
    pub gone : after.nodes a ≡ none
    pub others : (b : ℕ) → a ≢ b → after.nodes b ≡ s.nodes b
    pub address : after.next_address ≡ s.next_address

  pub destroy_lem : (s : Store T) (a : ℕ) → 0 < height_of s a → Destroyed s a
  unfolding destroy
  destroy_lem s a high =
      let n = node-present s a high in
      record {
        after = record s { nodes = assign_at s.nodes a none };
        result = rw (n.1) refl;
        gone = assign_at_self s.nodes a none;
        others = λ b ne. assign_at_ne s.nodes a b none ne;
        address = refl;
      }

  pub Destroyed-Untouched : (s : Store T) (a : ℕ) (d : Destroyed s a) → Untouched s d.after a
  unfolding skip
  Destroyed-Untouched s a d = record {
    heights = λ x ne. ap height_in (d.others x ne);
    values = λ x ne. ap (λ o. o >>= (λ n. some n.value)) (d.others x ne);
    skips = λ x j ne. ap (λ o. o >>= skip_at j) (d.others x ne);
    dead = λ x ne e. d.others x ne ∙ e;
  }
