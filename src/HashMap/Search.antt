-- ===== src/HashMap/Search.antt =====
-- src/concurrent/concurrent_hashmap_detail.h: what the loops along a chain find.
use wizard.Prelude.{
  ℕ, zero, suc, ◌+◌, ◌<◌, ◌≡◌, ◌≢◌, inl, inr, refl, sym, ◌∙◌, ap, Bool-cases, Option, none, some,
  List, [], ◌∷◌, ◌++◌, arith, if◌then◌else◌, length,
}
use wizard.HashMap.Store.{HashKey, Store, node_at}
use wizard.HashMap.Segment.{Place, next_of, search, find_node}
use wizard.Prelude.Pigeonhole.{Absent, Different, AllBelow, pigeonhole}
use wizard.HashMap.Keeps.{node_at-bound}
use wizard.HashMap.Chains.{Entry, Link, Chain, Avoids}

module _ {ℓ} {K V : Type ℓ} where
  -- Not one of the entries has the key `k`.
  abbrev pub KeyAvoids : K → List (Entry K V) → Type ℓ
  KeyAvoids k [] = Unit {ℓ}
  KeyAvoids k (e ∷ es) = (e.key ≢ k) × KeyAvoids k es

  -- The keys are different.
  abbrev pub KeysDistinct : List (Entry K V) → Type ℓ
  KeysDistinct [] = Unit {ℓ}
  KeysDistinct (e ∷ es) = KeyAvoids e.key es × KeysDistinct es

  unfoldable pub head_address : List (Entry K V) → Option ℕ
  head_address [] = none
  head_address (e ∷ es) = some e.address

  -- Where the pointer behind these entries stands, for a chain whose first pointer stands at
  -- `prev`.
  unfoldable pub last_place : Place → List (Entry K V) → Place
  last_place prev [] = prev
  last_place prev (e ∷ es) = last_place (next_of e.address) es

  -- Every entry is a node of the store.
  abbrev pub Linked : Store K V → List (Entry K V) → Type ℓ
  Linked s [] = Unit {ℓ}
  Linked s (e ∷ es) = (q : Option ℕ) × Link s e q × Linked s es

  pub Chain-Linked :
      (s : Store K V) (p : Option ℕ) (es : List (Entry K V)) → Chain s p es → Linked s es
  Chain-Linked s p [] c = tt
  Chain-Linked s p (e ∷ es) c = (c.1, c.2, Chain-Linked s (c.1) es (c.3))

  pub Linked-front : (s : Store K V) (bs ys : List (Entry K V)) → Linked s (bs ++ ys) → Linked s bs
  Linked-front s [] ys l = tt
  Linked-front s (e ∷ bs) ys l = (l.0, l.1, Linked-front s bs ys (l.2))

  -- Nodes with different keys are at different addresses.
  pub KeyAvoids-Avoids :
      (s : Store K V) (e : Entry K V) (q : Option ℕ) (es : List (Entry K V))
      → Link s e q
      → Linked s es
      → KeyAvoids e.key es
      → Avoids e.address es
  KeyAvoids-Avoids s e q [] l c out = tt
  KeyAvoids-Avoids s e q (x ∷ es) l c out = (
    λ same. out.0 (cc (ap (node_at s) same ∙ l.alive, c.1.alive)),
    KeyAvoids-Avoids s e q es l (c.2) (out.1),
  )

  -- The keys of `bs` are none of the keys of `es`.
  abbrev pub AllAvoid : List (Entry K V) → List (Entry K V) → Type ℓ
  AllAvoid [] es = Unit {ℓ}
  AllAvoid (b ∷ bs) es = KeyAvoids b.key es × AllAvoid bs es

  KeyAvoids-front :
      (k : K) (bs ys : List (Entry K V)) → KeyAvoids k (bs ++ ys) → KeyAvoids k bs × KeyAvoids k ys
  KeyAvoids-front k [] ys a = (tt, a)
  KeyAvoids-front k (b ∷ bs) ys a =
      let rest = KeyAvoids-front k bs ys (a.1) in ((a.0, rest.0), rest.1)

  pub KeyAvoids-append :
      (k : K) (bs ys : List (Entry K V)) → KeyAvoids k bs → KeyAvoids k ys → KeyAvoids k (bs ++ ys)
  KeyAvoids-append k [] ys a c = c
  KeyAvoids-append k (b ∷ bs) ys a c = (a.0, KeyAvoids-append k bs ys (a.1) c)

  -- Two lists with different keys each, and no key in both.
  pub KeysDistinct-split :
      (bs ys : List (Entry K V))
      → KeysDistinct (bs ++ ys)
      → KeysDistinct bs × KeysDistinct ys × AllAvoid bs ys
  KeysDistinct-split [] ys d = (tt, d, tt)
  KeysDistinct-split (b ∷ bs) ys d =
      let rest = KeysDistinct-split bs ys (d.1) in
      let first = KeyAvoids-front b.key bs ys (d.0) in
      ((first.0, rest.0), rest.1, (first.1, rest.2))

  pub KeysDistinct-append :
      (bs ys : List (Entry K V))
      → KeysDistinct bs
      → KeysDistinct ys
      → AllAvoid bs ys
      → KeysDistinct (bs ++ ys)
  KeysDistinct-append [] ys d e a = e
  KeysDistinct-append (b ∷ bs) ys d e a =
      (KeyAvoids-append b.key bs ys (d.0) (a.0), KeysDistinct-append bs ys (d.1) e (a.1))

  -- An entry behind `bs` has none of their keys.
  pub AllAvoid-key :
      (bs : List (Entry K V)) (e : Entry K V) (ys : List (Entry K V))
      → AllAvoid bs (e ∷ ys)
      → KeyAvoids e.key bs × AllAvoid bs ys
  AllAvoid-key [] e ys a = (tt, tt)
  AllAvoid-key (b ∷ bs) e ys a =
      let rest = AllAvoid-key bs e ys (a.1) in ((λ same. a.0.0 (sym same), rest.0), (a.0.1, rest.1))

  addresses : List (Entry K V) → List ℕ
  addresses [] = []
  addresses (e ∷ es) = e.address ∷ addresses es

  length-addresses : (es : List (Entry K V)) → length (addresses es) ≡ length es
  unfolding addresses
  length-addresses [] = refl
  length-addresses (e ∷ es) = ap suc (length-addresses es)

  Avoids-Absent : (a : ℕ) (es : List (Entry K V)) → Avoids a es → Absent a (addresses es)
  unfolding addresses
  Avoids-Absent a [] h = tt
  Avoids-Absent a (e ∷ es) h = (h.0, Avoids-Absent a es (h.1))

  addresses-Different :
      (s : Store K V) (es : List (Entry K V))
      → Linked s es
      → KeysDistinct es
      → Different (addresses es)
  unfolding addresses
  addresses-Different s [] l d = tt
  addresses-Different s (e ∷ es) l d = (
    Avoids-Absent e.address es (KeyAvoids-Avoids s e (l.0) es (l.1) (l.2) (d.0)),
    addresses-Different s es (l.2) (d.1),
  )

  addresses-AllBelow :
      (s : Store K V) (es : List (Entry K V))
      → Linked s es
      → AllBelow (length s.cells) (addresses es)
  unfolding addresses
  addresses-AllBelow s [] l = tt
  addresses-AllBelow s (e ∷ es) l =
      (node_at-bound s e.address (l.1.alive), addresses-AllBelow s es (l.2))

  -- A chain is no longer than the store, so that the fuel of the loops is enough.
  pub Chain-short :
      (s : Store K V) (p : Option ℕ) (es : List (Entry K V))
      → Chain s p es
      → KeysDistinct es
      → length es < length s.cells + 1
  Chain-short s p es c d =
      let l = Chain-Linked s p es c in
      omega (
        arith,
        length-addresses es,
        pigeonhole (length s.cells) (addresses es) (addresses-Different s es l d)
            (addresses-AllBelow s es l),
      )

  pub Chain-head :
      (s : Store K V) (p : Option ℕ) (es : List (Entry K V)) → Chain s p es → p ≡ head_address es
  unfolding head_address
  Chain-head s p [] c = c.0
  Chain-head s p (e ∷ es) c = c.0

module _ {ℓ} {K V : Type ℓ} ⦃key_type : HashKey K⦄ where
  -- The entries before the first one with the key `k`.
  unfoldable pub before : K → List (Entry K V) → List (Entry K V)
  before k [] = []
  before k (e ∷ es) = if key_type.same k e.key then [] else e ∷ before k es

  -- The first entry with the key `k`, and those behind it.
  unfoldable pub from : K → List (Entry K V) → List (Entry K V)
  from k [] = []
  from k (e ∷ es) = if key_type.same k e.key then e ∷ es else from k es

  pub before-append-from : (k : K) (es : List (Entry K V)) → before k es ++ from k es ≡ es
  unfolding before from
  before-append-from k [] = refl
  before-append-from k (e ∷ es) = elim (Bool-cases (key_type.same k e.key)) [
    | inl t ↦ rw t refl
    | inr f ↦ rw f (ap (λ l. e ∷ l) (before-append-from k es))
  ]

  pub search_lem :
      (s : Store K V) (k : K) (fuel : ℕ) (prev : Place) (p : Option ℕ) (es : List (Entry K V))
      → Chain s p es
      → length es < fuel
      → search fuel s k prev p ≡ some (last_place prev (before k es), head_address (from k es))
  unfolding search before from last_place head_address
  search_lem s k zero prev p es c room = absurd (omega arith)
  search_lem s k (suc fuel) prev p [] c room = rw (c.0) refl
  search_lem s k (suc fuel) prev p (e ∷ es) c room = elim (Bool-cases (key_type.same k e.key)) [
    | inl t ↦ rw (c.0, c.2.alive, t) refl
    | inr f ↦
        rw (c.0, c.2.alive, f)
          (search_lem s k fuel (next_of e.address) (c.1) es (c.3) (omega arith))
  ]

  pub find_node_lem :
      (s : Store K V) (k : K) (fuel : ℕ) (p : Option ℕ) (es : List (Entry K V))
      → Chain s p es
      → length es < fuel
      → find_node fuel s k p ≡ some (head_address (from k es))
  unfolding find_node from head_address
  find_node_lem s k zero p es c room = absurd (omega arith)
  find_node_lem s k (suc fuel) p [] c room = rw (c.0) refl
  find_node_lem s k (suc fuel) p (e ∷ es) c room = elim (Bool-cases (key_type.same k e.key)) [
    | inl t ↦ rw (c.0, c.2.alive, t) refl
    | inr f ↦ rw (c.0, c.2.alive, f) (find_node_lem s k fuel (c.1) es (c.3) (omega arith))
  ]
