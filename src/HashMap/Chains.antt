-- ===== src/HashMap/Chains.antt =====
-- Chains of nodes in the store, as lists of entries.
use wizard.Prelude.{ℕ, ◌≡◌, ◌≢◌, Option, none, some, List, [], ◌∷◌}
use wizard.HashMap.Store.{Store, node_at}

-- A node of a chain: where it is, and what it holds.
pub record Entry {ℓ} (K V : Type ℓ) : Type ℓ where
  pub address : ℕ
  pub key : K
  pub value : V

module _ {ℓ} {K V : Type ℓ} where
  -- The node of an entry is alive, and points on to `q`.
  pub record Link (s : Store K V) (e : Entry K V) (q : Option ℕ) : Type ℓ where
    pub refcount : ℕ
    pub alive :
        node_at s e.address
        ≡ some (record { key = e.key; value = e.value; next = q; refcount = refcount })

  -- The pointers from `p` on lead through these entries, and then to null.
  abbrev pub Chain : Store K V → Option ℕ → List (Entry K V) → Type ℓ
  Chain s p [] = (p ≡ none) × Unit {ℓ}
  Chain s p (e ∷ es) = (p ≡ some e.address) × (q : Option ℕ) × Link s e q × Chain s q es

  -- Not one of the entries is at address `a`.
  abbrev pub Avoids : ℕ → List (Entry K V) → Type 0
  Avoids a [] = Unit {0}
  Avoids a (e ∷ es) = (e.address ≢ a) × Avoids a es

  -- Every link is kept by what happens to the store, but for one address.
  pub record Keeps (s t : Store K V) (a : ℕ) : Type ℓ where
    pub kept : (e : Entry K V) (q : Option ℕ) → e.address ≢ a → Link s e q → Link t e q

  -- Every link is kept.
  pub record KeepsAll (s t : Store K V) : Type ℓ where
    pub kept : (e : Entry K V) (q : Option ℕ) → Link s e q → Link t e q

  pub Chain-Keeps :
      (s t : Store K V) (a : ℕ) (p : Option ℕ) (es : List (Entry K V))
      → Keeps s t a
      → Avoids a es
      → Chain s p es
      → Chain t p es
  Chain-Keeps s t a p [] k out c = c
  Chain-Keeps s t a p (e ∷ es) k out c =
      (c.0, c.1, k.kept e (c.1) (out.0) (c.2), Chain-Keeps s t a (c.1) es k (out.1) (c.3))

  pub Chain-KeepsAll :
      (s t : Store K V) (p : Option ℕ) (es : List (Entry K V))
      → KeepsAll s t
      → Chain s p es
      → Chain t p es
  Chain-KeepsAll s t p [] k c = c
  Chain-KeepsAll s t p (e ∷ es) k c =
      (c.0, c.1, k.kept e (c.1) (c.2), Chain-KeepsAll s t (c.1) es k (c.3))
