-- ===== src/HashMap/Table.antt =====
-- The buckets as chains of entries, and the map from keys to values that they stand for.
use wizard.Prelude.{
  ℕ, zero, suc, ◌+◌, ◌≤◌, ◌<◌, ◌/◌, ◌^◌, ◌≡◌, ◌≢◌, inl, inr, refl, sym, ◌∙◌, ap, true, false,
  Bool-cases, Option, none, some, List, [], ◌∷◌, arith, ◌==◌, subst, ==_eq, ==_ne, if◌then◌else◌,
  length, length-set, get_or, get_elem?-eq-get_or, set, get_or-set_self, get_or-set_ne, ℕ_discrete,
}
use wizard.Prelude.Bits.{and-mask, pow-pos}
use native.Mathlib.Nat.{mod-lt}
use wizard.HashMap.Store.{HashKey, Store}
use wizard.HashMap.Segment.{bucket_id, push_head}
use wizard.HashMap.Chains.{Entry, Link, Chain, Avoids, Keeps, Chain-Keeps}
use wizard.HashMap.Keeps.{set_next_lem}
use wizard.HashMap.Search.{KeyAvoids, KeysDistinct}

module _ {ℓ} {V : Type ℓ} where
  -- How many keys this is the value of.
  unfoldable pub held : Option V → ℕ
  held none = 0
  held (some _) = 1

module _ {ℓ} {A : Type ℓ} where
  -- A function changed at one number.
  abbrev pub put_at : (ℕ → A) → ℕ → A → ℕ → A
  put_at f i v j = if i == j then v else f j

pow_ne : (bits : ℕ) → 2 ^ bits ≢ 0
pow_ne bits e = omega (arith, pow-pos bits)

pub bucket_id-lt : (b bits hash : ℕ) → bucket_id b hash (2 ^ bits) < 2 ^ bits
unfolding bucket_id
bucket_id-lt b bits hash =
    rw (==_ne (pow_ne bits), and-mask bits (hash / 2 ^ b))
      (mod-lt (hash / 2 ^ b) {m = 2 ^ bits} (pow-pos bits))

module _ {ℓ} {K : Type ℓ} ⦃key_type : HashKey K⦄ where
  pub same_self : (k : K) → key_type.same k k ≡ true
  same_self k = (key_type.same_iff k k).1 refl

  pub same_ne : (k q : K) → k ≢ q → key_type.same k q ≡ false
  same_ne k q ne = elim (Bool-cases (key_type.same k q)) [
    | inl t ↦ absurd (ne ((key_type.same_iff k q).0 t))
    | inr f ↦ f
  ]

  pub ne_of_same : (k q : K) → key_type.same k q ≡ false → k ≢ q
  ne_of_same k q f e = cc (f, (key_type.same_iff k q).1 e)

module _ {ℓ} {K V : Type ℓ} ⦃key_type : HashKey K⦄ where
  unfoldable pub lookup : K → List (Entry K V) → Option V
  lookup k [] = none
  lookup k (e ∷ es) = if key_type.same k e.key then some e.value else lookup k es

  -- A map changed at one key.
  abbrev pub update : (K → Option V) → K → Option V → K → Option V
  update f k w q = if key_type.same q k then w else f q

  -- All entries belong in bucket `i`.
  abbrev pub Placed : ℕ → ℕ → ℕ → List (Entry K V) → Type 0
  Placed b count i [] = Unit {0}
  Placed b count i (e ∷ es) = (bucket_id b (key_type.hash e.key) count ≡ i) × Placed b count i es

  -- The heads lead to these chains, and the chains are the map `f`.
  pub record Table (b : ℕ) (s : Store K V) (heads : List (Option ℕ)) (chains : ℕ → List (Entry K V))
      (f : K → Option V) : Type ℓ where
    pub bits : ℕ
    pub power : length heads ≡ 2 ^ bits
    pub chained : (i : ℕ) → i < length heads → Chain s (get_or heads i none) (chains i)
    pub placed : (i : ℕ) → Placed b (length heads) i (chains i)
    pub distinct : (i : ℕ) → KeysDistinct (chains i)
    pub views : (k : K) → lookup k (chains (bucket_id b (key_type.hash k) (length heads))) ≡ f k

  -- The number of entries in the first `n` buckets.
  abbrev pub total : ℕ → (ℕ → List (Entry K V)) → ℕ
  total zero chains = 0
  total (suc n) chains = total n chains + length (chains n)

  pub home :
      {b : ℕ} {s : Store K V} {heads : List (Option ℕ)} {chains : ℕ → List (Entry K V)}
      {f : K → Option V}
      → Table b s heads chains f
      → (hash : ℕ) → bucket_id b hash (length heads) < length heads
  home {b} {s} {heads} w hash = rw (w.power) (bucket_id-lt b w.bits hash)

  pub lookup-none : (k : K) (es : List (Entry K V)) → lookup k es ≡ none → KeyAvoids k es
  unfolding lookup
  lookup-none k [] e = tt
  lookup-none k (x ∷ es) e = elim (Bool-cases (key_type.same k x.key)) [
    | inl t ↦ absurd (cc (rw t at e))
    | inr f ↦ (λ same. ne_of_same k x.key f (sym same), lookup-none k es (rw f at e))
  ]

  pub none-lookup : (k : K) (es : List (Entry K V)) → KeyAvoids k es → lookup k es ≡ none
  unfolding lookup
  none-lookup k [] a = refl
  none-lookup k (x ∷ es) a = rw (same_ne k x.key (λ e. a.0 (sym e))) (none-lookup k es (a.1))

  total-put_beyond :
      (n i : ℕ) (chains : ℕ → List (Entry K V)) (es : List (Entry K V))
      → n ≤ i
      → total n (put_at chains i es) ≡ total n chains
  total-put_beyond zero i chains es p = refl
  total-put_beyond (suc n) i chains es p =
      let ne : i ≢ n = omega arith in
      rw (==_ne ne, total-put_beyond n i chains es (omega arith)) refl

  pub total-put :
      (n i : ℕ) (chains : ℕ → List (Entry K V)) (es : List (Entry K V))
      → i < n
      → total n (put_at chains i es) + length (chains i) ≡ total n chains + length es
  total-put zero i chains es p = absurd (omega arith)
  total-put (suc n) i chains es p = elim (ℕ_discrete i n) [
    | yes e ↦ rw (==_eq e, e) (omega (arith, total-put_beyond n n chains es (omega arith)))
    | no ne ↦ rw (==_ne ne) (omega (arith, total-put n i chains es (omega arith)))
  ]

  lookup-put :
      (b count : ℕ) (chains : ℕ → List (Entry K V)) (f : K → Option V) (e : Entry K V) (i : ℕ)
      → bucket_id b (key_type.hash e.key) count ≡ i
      → ((k : K) → lookup k (chains (bucket_id b (key_type.hash k) count)) ≡ f k)
      → (k : K)
      → lookup k (put_at chains i (e ∷ chains i) (bucket_id b (key_type.hash k) count))
        ≡ update f e.key (some e.value) k
  unfolding lookup
  lookup-put b count chains f e i at views k =
      elim (ℕ_discrete i (bucket_id b (key_type.hash k) count)) [
        | yes same ↦ rw (==_eq same) (elim (Bool-cases (key_type.same k e.key)) [
          | inl t ↦ rw t refl
          | inr x ↦ rw (x, same) (views k)
        ])
        | no ne ↦
            rw
              (
                ==_ne ne,
                same_ne k e.key
                    (λ s. ne (sym at ∙ ap (λ q. bucket_id b (key_type.hash q) count) (sym s))),
              )
              (views k)
      ]

  -- `new_node->next_.store(head); set_head(bucket_id, new_node)` for a node that is in no
  -- bucket yet and whose key is new adds the key to the map.
  pub push_head_lem :
      (b : ℕ) (s : Store K V) (heads : List (Option ℕ)) (chains : ℕ → List (Entry K V))
      (f : K → Option V) (e : Entry K V) (q : Option ℕ) (i : ℕ)
      → Table b s heads chains f
      → Link s e q
      → ((j : ℕ) → Avoids e.address (chains j))
      → f e.key ≡ none
      → bucket_id b (key_type.hash e.key) (length heads) ≡ i
      → (t : Store K V) × (push_head s heads i e.address ≡ some (t, set heads i (some e.address)))
        × Table b t
            (set heads i (some e.address))
            (put_at chains i (e ∷ chains i))
            (update f e.key (some e.value))
        × Keeps s t e.address
        × (length t.cells ≡ length s.cells)
  unfolding push_head
  push_head_lem b s heads chains f e q i w l out fresh at =
      let changed = set_next_lem s e q (get_or heads i none) l in
      let inside : i < length heads = rw at at (home w (key_type.hash e.key)) in
      let absent : lookup e.key (chains i) ≡ none =
        ap (λ j. lookup e.key (chains j)) (sym at) ∙ w.views e.key ∙ fresh in
      let count : length (set heads i (some e.address)) ≡ length heads =
        length-set heads i (some e.address) in
      (
        changed.0,
        rw (get_elem?-eq-get_or heads i none inside, changed.1) refl,
        record {
          bits = w.bits;
          power = count ∙ w.power;
          chained = λ j p. elim (ℕ_discrete i j) [
            | yes same ↦
                rw (==_eq same, sym same, get_or-set_self heads i (some e.address) none inside)
                  (
                    refl,
                    get_or heads i none,
                    changed.3,
                    Chain-Keeps s (changed.0) e.address _ (chains i) (changed.2) (out i)
                        (w.chained i inside),
                  )
            | no ne ↦
                rw (==_ne ne, get_or-set_ne heads i j (some e.address) none ne)
                  (Chain-Keeps s (changed.0) e.address _ (chains j) (changed.2) (out j)
                    (w.chained j (omega (arith, count))))
          ];
          placed = λ j. elim (ℕ_discrete i j) [
            | yes same ↦
                rw (count, ==_eq same)
                  (at ∙ same, subst (λ k. Placed b (length heads) k (chains i)) same (w.placed i))
            | no ne ↦ rw (count, ==_ne ne) (w.placed j)
          ];
          distinct = λ j. elim (ℕ_discrete i j) [
            | yes same ↦ rw (==_eq same) (lookup-none e.key (chains i) absent, w.distinct i)
            | no ne ↦ rw (==_ne ne) (w.distinct j)
          ];
          views = λ k. rw count (lookup-put b (length heads) chains f e i at w.views k);
        },
        changed.2,
        changed.4,
      )
