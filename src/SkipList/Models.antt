-- ===== src/SkipList/Models.antt =====
-- src/container/skiplist.h: when the nodes of a skip list stand for a sorted list of values.
use wizard.Prelude.{
  ℕ, ◌≤◌, ◌<◌, ◌^◌, ◌≡◌, inl, inr, refl, sym, ap, subst, Bool, true, false, Bool-cases, Option,
  none, some, List, [], ◌∷◌, ◌++◌, lt→ltb, ◌>>=◌, length, append-nil,
}
use wizard.Prelude.Pigeonhole.{Absent, Different}
use wizard.SkipList.{SkipListNode, Store, SkipList, Element, skip}
use wizard.SkipList.Layers.{next_tall}
use wizard.SkipList.Order.{Before, Sorted, take_less, drop_less, not_less_behind}

abbrev pub first_of : List ℕ → Option ℕ
first_of [] = none
first_of (x ∷ xs) = some x

module _ {ℓ} {T : Type ℓ} where
  abbrev pub height_in : Option (SkipListNode T) → ℕ
  height_in none = 0
  height_in (some n) = n.height

  -- 0 for an address without a node.
  abbrev pub height_of : Store T → ℕ → ℕ
  height_of s a = height_in (s.nodes a)

  abbrev pub value_of : Store T → ℕ → Option T
  value_of s a = s.nodes a >>= (λ n. some n.value)

  -- A node each of whose pointers leads to the next node of that layer, among those behind it.
  pub record Linked (s : Store T) (a : ℕ) (behind : List ℕ) : Type 0 where
    pub present : 0 < height_of s a
    pub skips : (i : ℕ) → i < height_of s a → skip s a i ≡ some (next_tall (height_of s) i behind)

  abbrev pub Links : Store T → List ℕ → List ℕ → Type 0
  Links s [] behind = Unit {0}
  Links s (x ∷ xs) behind = Linked s x (xs ++ behind) × Links s xs behind

  abbrev pub Values : Store T → List ℕ → List T → Type ℓ
  Values s [] [] = Unit {ℓ}
  Values s (x ∷ xs) (v ∷ vs) = (value_of s x ≡ some v) × Values s xs vs
  Values s [] (v ∷ vs) = some v ≡ none
  Values s (x ∷ xs) [] = (v : T) × (some v ≡ none)

  -- No node is higher than the head.
  abbrev pub Fits : Store T → ℕ → List ℕ → Type 0
  Fits s height [] = Unit {0}
  Fits s height (x ∷ xs) = (height_of s x ≤ height) × Fits s height xs

  module _ (E : Element T) where
    pub record Models (m : SkipList T) (vs : List T) : Type ℓ where
      pub places : List ℕ
      pub links : Links m.store (m.head ∷ places) []
      pub different : Different (m.head ∷ places)
      pub values : Values m.store places vs
      pub sorted : Sorted E vs
      pub fits : Fits m.store (height_of m.store m.head) places
      pub narrow : height_of m.store m.head < 2 ^ 8
      pub counted : m.size ≡ length vs
      -- No other node exists.
      pub owned : (a : ℕ) → Absent a (m.head ∷ places) → m.store.nodes a ≡ none
      pub free : (a : ℕ) → m.store.next_address ≤ a → m.store.nodes a ≡ none

  pub Links-append :
      (s : Store T) (xs ys : List ℕ) → Links s xs ys → Links s ys [] → Links s (xs ++ ys) []
  Links-append s [] ys k l = l
  Links-append s (x ∷ xs) ys k l =
      (subst (Linked s x) (sym (append-nil (xs ++ ys))) (k.0), Links-append s xs ys (k.1) l)

  pub Links-front : (s : Store T) (xs ys : List ℕ) → Links s (xs ++ ys) [] → Links s xs ys
  Links-front s [] ys l = tt
  Links-front s (x ∷ xs) ys l =
      (subst (Linked s x) (append-nil (xs ++ ys)) (l.0), Links-front s xs ys (l.1))

  pub Links-back : (s : Store T) (xs ys : List ℕ) → Links s (xs ++ ys) [] → Links s ys []
  Links-back s [] ys l = l
  Links-back s (x ∷ xs) ys l = Links-back s xs ys (l.1)

  pub Linked-first :
      (s : Store T) (ys : List ℕ) (R : List ℕ)
      → Links s (ys ++ R) []
      → next_tall (height_of s) 0 (ys ++ R) ≡ first_of (ys ++ R)
  Linked-first s [] [] l = refl
  Linked-first s [] (x ∷ R) l = rw (lt→ltb 0 (height_of s x) ((l.0).present)) refl
  Linked-first s (x ∷ ys) R l = rw (lt→ltb 0 (height_of s x) ((l.0).present)) refl

  -- Whether each of the values, at each of the addresses, is less than `value`.
  module _ (E : Element T) (value : T) where
    abbrev pub Compare : Bool → Store T → List ℕ → Type ℓ
    Compare b s [] = Unit {ℓ}
    Compare b s (x ∷ xs) =
        ((v : T) × (value_of s x ≡ some v) × (E.less v value ≡ b)) × Compare b s xs

    Compare-Before :
        (s : Store T) (xs : List ℕ) (v : T) (vs : List T)
        → E.less v value ≡ false
        → Values s xs vs
        → Before E v vs
        → Compare false s xs
    Compare-Before s [] v [] p k b = tt
    Compare-Before s [] v (w ∷ vs) p k b = tt
    Compare-Before s (x ∷ xs) v [] p k b = absurd (cc (k.1))
    Compare-Before s (x ∷ xs) v (w ∷ vs) p k b =
        ((w, k.0, not_less_behind E value v w p (b.0)), Compare-Before s xs v vs p (k.1) (b.1))

    -- The places of the values that are less, and those behind.
    pub record Split (s : Store T) (xs : List ℕ) (vs : List T) : Type ℓ where
      pub front : List ℕ
      pub back : List ℕ
      pub whole : xs ≡ front ++ back
      pub front_values : Values s front (take_less E value vs)
      pub back_values : Values s back (drop_less E value vs)
      pub small : Compare true s front
      pub large : Compare false s back

    pub split :
        (s : Store T) (xs : List ℕ) (vs : List T) → Values s xs vs → Sorted E vs → Split s xs vs
    split s [] [] k o = record {
      front = [];
      back = [];
      whole = refl;
      front_values = tt;
      back_values = tt;
      small = tt;
      large = tt;
    }
    split s [] (v ∷ vs) k o = absurd (cc (k))
    split s (x ∷ xs) [] k o = absurd (cc (k.1))
    split s (x ∷ xs) (v ∷ vs) k o = elim (Bool-cases (E.less v value)) [
      | inl e ↦
          let rest = split s xs vs (k.1) (o.1) in
          record {
            front = x ∷ rest.front;
            back = rest.back;
            whole = ap (λ l. x ∷ l) rest.whole;
            front_values = rw e (k.0, rest.front_values);
            back_values = rw e rest.back_values;
            small = ((v, k.0, e), rest.small);
            large = rest.large;
          }
      | inr e ↦ record {
        front = [];
        back = x ∷ xs;
        whole = refl;
        front_values = rw e tt;
        back_values = rw e k;
        small = tt;
        large = ((v, k.0, e), Compare-Before s xs v vs e (k.1) (o.0));
      }
    ]
