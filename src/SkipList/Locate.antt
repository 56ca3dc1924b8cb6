-- ===== src/SkipList/Locate.antt =====
-- src/container/skiplist.h: where a search of a skip list that stands for a sorted list ends.
use wizard.Prelude.{
  ℕ, suc, ◌+◌, ◌<◌, ◌≡◌, ◌≢◌, inl, inr, refl, sym, ◌∙◌, ap, subst, Bool-cases, Option-cases, Option,
  none, some, List, [], ◌∷◌, ◌++◌, arith, ltb, lt→ltb, ltb→lt, length, length-append,
}
use wizard.Prelude.Pigeonhole.{Absent, Different, Absent-back}
use wizard.SkipList.{
  SkipListNode, Store, SkipList, Element, skip, search, search_only, head_node, has_value, find,
}
use wizard.SkipList.Layers.{
  otherwise, next_tall, final_tall, next_tall-append, next_tall-none, final_tall-Absent,
}
use wizard.SkipList.Order.{take_less, drop_less, member, starts_with, starts_with-drop_less}
use wizard.SkipList.Models.{
  height_of, Links, Values, Fits, Models, split, first_of, Linked-first, Links-front, Links-back,
}
use wizard.SkipList.Search.{bottom, bottom_high, search_lem, value-read}

abbrev pub from_some : Option ℕ → ℕ → ℕ
from_some none a = a
from_some (some b) a = b

final_tall-high : (h : ℕ → ℕ) (j y : ℕ) (xs : List ℕ) → final_tall h j xs ≡ some y → j < h y
final_tall-high h j y [] e = absurd (cc (e))
final_tall-high h j y (x ∷ xs) e = elim (Option-cases (final_tall h j xs)) [
  | inl n ↦ elim (Bool-cases (ltb j (h x))) [
    | inl high ↦
        let same : x ≡ y = cc (rw (n, high) at e) in omega (arith, ltb→lt j (h x) high, ap h same)
    | inr low ↦ absurd (cc (rw (n, low) at e))
  ]
  | inr (z, n) ↦ let same : z ≡ y = cc (rw n at e) in final_tall-high h j y xs (n ∙ ap some same)
]

final_tall-head :
    (h : ℕ → ℕ) (j head : ℕ) (xs : List ℕ)
    → j < h head
    → final_tall h j (head ∷ xs) ≡ some (from_some (final_tall h j xs) head)
final_tall-head h j head xs high = elim (Option-cases (final_tall h j xs)) [
  | inl n ↦ rw (n, lt→ltb j (h head) high) refl
  | inr (y, n) ↦ rw n refl
]

-- The last of a layer in front is not behind.
final_tall-front :
    (h : ℕ → ℕ) (j y : ℕ) (xs ys : List ℕ)
    → Different (xs ++ ys)
    → final_tall h j xs ≡ some y
    → Absent y ys
final_tall-front h j y [] ys d e = absurd (cc (e))
final_tall-front h j y (x ∷ xs) ys d e = elim (Option-cases (final_tall h j xs)) [
  | inl n ↦ elim (Bool-cases (ltb j (h x))) [
    | inl high ↦
        let same : x ≡ y = cc (rw (n, high) at e) in
        subst (λ z. Absent z ys) same (Absent-back x xs ys (d.0))
    | inr low ↦ absurd (cc (rw (n, low) at e))
  ]
  | inr (z, n) ↦
      let same : z ≡ y = cc (rw n at e) in final_tall-front h j y xs ys (d.1) (n ∙ ap some same)
]

module _ {ℓ} {T : Type ℓ} where
  pub node-present :
      (s : Store T) (a : ℕ)
      → 0 < height_of s a
      → (n : SkipListNode T) × (s.nodes a ≡ some n) × (n.height ≡ height_of s a)
  node-present s a high = elim (Option-cases (s.nodes a)) [
    | inl e ↦ absurd (omega (arith, rw e at high))
    | inr (n, e) ↦ (n, e, rw e refl)
  ]

  pub length-Values :
      (s : Store T) (xs : List ℕ) (vs : List T) → Values s xs vs → length xs ≡ length vs
  length-Values s [] [] k = refl
  length-Values s [] (v ∷ vs) k = absurd (cc (k))
  length-Values s (x ∷ xs) [] k = absurd (cc (k.1))
  length-Values s (x ∷ xs) (v ∷ vs) k = ap suc (length-Values s xs vs (k.1))

  -- The pointer of the last node of a layer leads to what is behind.
  skip-final_tall :
      (s : Store T) (j y : ℕ) (xs R : List ℕ)
      → Links s xs R
      → final_tall (height_of s) j xs ≡ some y
      → skip s y j ≡ some (next_tall (height_of s) j R)
  skip-final_tall s j y [] R k e = absurd (cc (e))
  skip-final_tall s j y (x ∷ xs) R k e = elim (Option-cases (final_tall (height_of s) j xs)) [
    | inl n ↦ elim (Bool-cases (ltb j (height_of s x))) [
      | inl high ↦
          let same : x ≡ y = cc (rw (n, high) at e) in
          ap (λ z. skip s z j) (sym same)
          ∙ (k.0).skips j (ltb→lt j (height_of s x) high)
          ∙ ap some (next_tall-append (height_of s) j xs R)
          ∙ ap (λ o. some (otherwise o (next_tall (height_of s) j R)))
              (next_tall-none (height_of s) j xs n)
      | inr low ↦ absurd (cc (rw (n, low) at e))
    ]
    | inr (z, n) ↦
        let same : z ≡ y = cc (rw n at e) in skip-final_tall s j y xs R (k.1) (n ∙ ap some same)
  ]

  module _ (E : Element T) where
    -- What the searches find.
    pub record Located (m : SkipList T) (vs : List T) (value : T) : Type ℓ where
      pub front : List ℕ
      pub back : List ℕ
      pub front_values : Values m.store front (take_less E value vs)
      pub back_values : Values m.store back (drop_less E value vs)
      pub links : Links m.store ((m.head ∷ front) ++ back) []
      pub different : Different ((m.head ∷ front) ++ back)
      pub owned : (a : ℕ) → Absent a ((m.head ∷ front) ++ back) → m.store.nodes a ≡ none
      pub fits : Fits m.store (height_of m.store m.head) (front ++ back)
      pub top : SkipListNode T
      pub top_node : m.store.nodes m.head ≡ some top
      pub top_height : top.height ≡ height_of m.store m.head
      pub prevs : ℕ → Option ℕ
      pub result :
          search E (m.size + 1) m.store value (λ i. none) m.head none top.height
          ≡ some (first_of back, prevs)
      pub alone :
          search_only E (m.size + 1) m.store value m.head none top.height ≡ some (first_of back)
      pub place : ℕ → ℕ
      pub known : (j : ℕ) → j < height_of m.store m.head → prevs j ≡ some (place j)
      pub last :
          (j : ℕ)
          → j < height_of m.store m.head
          → final_tall (height_of m.store) j (m.head ∷ front) ≡ some (place j)

    pub locate : (m : SkipList T) (vs : List T) (value : T) → Models E m vs → Located m vs value
    locate m vs value k =
        let s = m.store in
        let h = height_of s in
        let parts = split E value s k.places vs k.values k.sorted in
        let front = parts.front in
        let back = parts.back in
        let links : Links s ((m.head ∷ front) ++ back) [] =
          subst (λ l. Links s (m.head ∷ l) []) parts.whole k.links in
        let behind : Links s (front ++ back) [] = links.1 in
        let front_links = Links-front s (m.head ∷ front) back links in
        let present = (links.0).present in
        let top = node-present s m.head present in
        let few : length front < m.size + 1 = omega (
          arith,
          k.counted,
          length-Values s k.places vs k.values,
          ap length parts.whole,
          length-append front back,
        ) in
        let found =
          search_lem E s value back parts.large (m.size + 1) (λ i. none) m.head front none
            ((top.0).height) few (omega (arith, top.2))
            (record { linked = front_links.0; links = front_links.1; small = parts.small }) in
        let first : bottom E s value ((top.0).height) none back ≡ first_of back =
          bottom_high E s value ((top.0).height) none back (omega (arith, present, top.2))
          ∙ Linked-first s [] back (Links-back s front back behind) in
        record {
          front = front;
          back = back;
          front_values = parts.front_values;
          back_values = parts.back_values;
          links = links;
          different = subst (λ l. Different (m.head ∷ l)) parts.whole k.different;
          owned =
              subst (λ p. (a : ℕ) → Absent a (m.head ∷ p) → s.nodes a ≡ none) parts.whole k.owned;
          fits = subst (Fits s (height_of s m.head)) parts.whole k.fits;
          top = top.0;
          top_node = top.1;
          top_height = top.2;
          prevs = found.after;
          result = found.result ∙ ap (λ n. some (n, found.after)) first;
          alone = found.alone ∙ ap some first;
          place = λ j. from_some (final_tall h j front) m.head;
          known = λ j p. found.set j (omega (arith, top.2)) ∙ final_tall-head h j m.head front p;
          last = λ j p. final_tall-head h j m.head front p;
        }

    module _ {m : SkipList T} {vs : List T} {value : T} (l : Located m vs value) where
      pub place-high : (j : ℕ) → j < height_of m.store m.head → j < height_of m.store (l.place j)
      place-high j p =
          final_tall-high (height_of m.store) j (l.place j) (m.head ∷ l.front) (l.last j p)

      pub place-Absent :
          (j a : ℕ) → j < height_of m.store m.head → Absent a (m.head ∷ l.front) → a ≢ l.place j
      place-Absent j a p out e =
          final_tall-Absent (height_of m.store) j a (l.place j) (m.head ∷ l.front) out (l.last j p)
            (sym e)

      pub place-behind : (j : ℕ) → j < height_of m.store m.head → Absent (l.place j) l.back
      place-behind j p =
          final_tall-front (height_of m.store) j (l.place j) (m.head ∷ l.front) l.back l.different
            (l.last j p)

      pub skip-place :
          (j : ℕ)
          → j < height_of m.store m.head
          → skip m.store (l.place j) j ≡ some (next_tall (height_of m.store) j l.back)
      skip-place j p =
          skip-final_tall m.store j (l.place j) (m.head ∷ l.front) l.back
            (Links-front m.store (m.head ∷ l.front) l.back l.links) (l.last j p)

    pub has_value-first_of :
        (s : Store T) (value : T) (xs : List ℕ) (vs : List T)
        → Values s xs vs
        → has_value E s value (first_of xs) ≡ some (starts_with E value vs)
    unfolding has_value
    has_value-first_of s value [] [] k = refl
    has_value-first_of s value [] (v ∷ vs) k = absurd (cc (k))
    has_value-first_of s value (x ∷ xs) [] k = absurd (cc (k.1))
    has_value-first_of s value (x ∷ xs) (v ∷ vs) k =
        let n = value-read E s value x v (k.0) in rw (n.1, n.2) refl

    pub exists-member :
        (m : SkipList T) (vs : List T) (value : T) (k : Models E m vs) (l : Located m vs value)
        → has_value E m.store value (first_of l.back) ≡ some (member E value vs)
    exists-member m vs value k l =
        has_value-first_of m.store value l.back (drop_less E value vs) l.back_values
        ∙ ap some (starts_with-drop_less E value vs k.sorted)

    -- `find` on a skip list that stands for a sorted list returns whether the value is a member.
    pub find-Models :
        (m : SkipList T) (vs : List T) (value : T)
        → Models E m vs
        → find E m value ≡ some (member E value vs)
    unfolding find head_node
    find-Models m vs value k =
        let l = locate m vs value k in rw (l.top_node, l.alone) (exists-member m vs value k l)
