-- ===== src/SkipList/Remove.antt =====
-- src/container/skiplist.h: `remove`.
use wizard.Prelude.{
  ℕ, ◌-◌, ◌≤◌, ◌<◌, ◌≡◌, ◌≢◌, ◌⊎◌, inl, inr, refl, sym, ◌∙◌, ap, subst, true, false, Bool-cases,
  none, some, List, [], ◌∷◌, ◌++◌, arith, ltb, ℕ_discrete, append-nil,
}
use wizard.Prelude.Pigeonhole.{
  Absent, Different, Absent-append, Absent-front, Absent-back, Different-back,
}
use wizard.SkipList.{Store, SkipList, Element, skip, head_node, remove_node, remove_found, remove}
use wizard.SkipList.Layers.{next_tall}
use wizard.SkipList.Order.{
  member, take_less, drop_less, starts_with, behind_first, starts_with-drop_less, remove_first,
  remove_first_lem, remove_first_absent, remove_first-Sorted, length-remove_first,
}
use wizard.SkipList.Models.{
  height_of, value_of, Linked, Links, Values, Fits, Models, first_of, Links-back,
}
use wizard.SkipList.Loops.{unlink_layers_lem}
use wizard.SkipList.Relink.{next_tall-same}
use wizard.SkipList.Splice.{Spliced, Spliced-Models, behind-Links}
use wizard.SkipList.Search.{value-read}
use wizard.SkipList.Locate.{Located, locate, place-high, place-behind, node-present}
use wizard.SkipList.Kept.{Values-same, Fits-same, Fits-back}
use wizard.SkipList.Kept.{destroy_lem, Destroyed-Untouched}

Different-apart : (node : ℕ) (xs ys : List ℕ) → Different (xs ++ (node ∷ ys)) → Absent node xs
Different-apart node [] ys d = tt
Different-apart node (x ∷ xs) ys d =
    (λ e. (Absent-back x xs (node ∷ ys) (d.0)).0 (sym e), Different-apart node xs ys (d.1))

Different-remove :
    (node : ℕ) (xs ys : List ℕ) → Different (xs ++ (node ∷ ys)) → Different (xs ++ ys)
Different-remove node [] ys d = d.1
Different-remove node (x ∷ xs) ys d = (
  Absent-append x xs ys (Absent-front x xs (node ∷ ys) (d.0))
      ((Absent-back x xs (node ∷ ys) (d.0)).1),
  Different-remove node xs ys (d.1),
)

module _ {ℓ} {T : Type ℓ} (E : Element T) (m : SkipList T) (vs : List T) (value : T)
    (k : Models E m vs) (l : Located E m vs value) where
  -- The store after `remove_node`.
  record Dropped (node : ℕ) : Type ℓ where
    after : Store T
    result : remove_node E m node l.prevs ≡ some (record m { store = after; size = m.size - 1 })
    heights : (x : ℕ) → node ≢ x → height_of after x ≡ height_of m.store x
    values : (x : ℕ) → node ≢ x → value_of after x ≡ value_of m.store x
    others :
        (x j : ℕ)
        → node ≢ x
        → (height_of m.store node ≤ j) ⊎ (l.place j ≢ x)
        → skip after x j ≡ skip m.store x j
    from : (j : ℕ) → j < height_of m.store node → skip after (l.place j) j ≡ skip m.store node j
    gone : after.nodes node ≡ none
    dead : (x : ℕ) → m.store.nodes x ≡ none → after.nodes x ≡ none
    address : after.next_address ≡ m.store.next_address

  -- The node found is the first one whose value is not less.
  module _ (node : ℕ) (rest : List ℕ) (v : T) (ws : List T) (here : l.back ≡ node ∷ rest)
      (those : drop_less E value vs ≡ v ∷ ws) where
    Different-here : Different ((m.head ∷ l.front) ++ (node ∷ rest))
    Different-here = subst (λ b. Different ((m.head ∷ l.front) ++ b)) here l.different

    Links-here : Links m.store (node ∷ rest) []
    Links-here =
        Links-back m.store (m.head ∷ l.front) (node ∷ rest)
          (subst (λ b. Links m.store ((m.head ∷ l.front) ++ b) []) here l.links)

    Fits-here : Fits m.store (height_of m.store m.head) (node ∷ rest)
    Fits-here =
        Fits-back m.store (height_of m.store m.head) l.front (node ∷ rest)
          (subst (λ b. Fits m.store (height_of m.store m.head) (l.front ++ b)) here l.fits)

    Values-here : Values m.store (node ∷ rest) (v ∷ ws)
    Values-here =
        subst (Values m.store (node ∷ rest)) those
          (subst (λ b. Values m.store b (drop_less E value vs)) here l.back_values)

    rest_apart : Absent node rest
    rest_apart = (Different-back (m.head ∷ l.front) (node ∷ rest) Different-here).0

    behind : (j : ℕ) → j < height_of m.store node → Absent (l.place j) (node ∷ rest)
    behind j p =
        subst (λ b. Absent (l.place j) b) here (place-behind E l j (omega (arith, Fits-here.0)))

    dropped : Dropped node
    unfolding remove_node skip
    dropped =
        let s = m.store in
        let height = height_of s node in
        let n = node-present s node (Links-here.0).present in
        let un =
          unlink_layers_lem node l.prevs l.place height s
            (λ j p. l.known j (omega (arith, Fits-here.0))) (λ j p e. (behind j p).0 (sym e))
            (λ j p. place-high E l j (omega (arith, Fits-here.0))) (omega arith) in
        let gone =
          destroy_lem un.after node
            (omega (arith, un.wrote.heights node, (Links-here.0).present)) in
        let last = Destroyed-Untouched un.after node gone in
        record {
          after = gone.after;
          result = rw (n.1, n.2, un.result, gone.result) refl;
          heights = λ x ne. last.heights x ne ∙ un.wrote.heights x;
          values = λ x ne. last.values x ne ∙ un.wrote.values x;
          others = λ x j ne q. last.skips x j ne ∙ un.others x j q;
          from = λ j p. last.skips (l.place j) j (λ e. (behind j p).0 e) ∙ un.from j p;
          gone = gone.gone;
          dead = λ x e. elim (ℕ_discrete node x) [
            | yes f ↦ subst (λ b. gone.after.nodes b ≡ none) f gone.gone
            | no ne ↦ last.dead x ne (un.wrote.dead x e)
          ];
          address = gone.address ∙ un.wrote.address;
        }

    Dropped-Spliced :
        (d : Dropped node)
        → Spliced E m vs value k l d.after node (height_of m.store node) (node ∷ rest) rest
    Dropped-Spliced d =
        let s = m.store in
        let linked : Linked s node rest = subst (Linked s node) (append-nil rest) (Links-here.0) in
        let same_tall : (j : ℕ)
            → next_tall (height_of d.after) j rest ≡ next_tall (height_of s) j rest =
          λ j. next_tall-same (height_of d.after) (height_of s) j node rest d.heights rest_apart in
        record {
          here = here;
          low = Fits-here.0;
          rewired = record {
            heights = d.heights;
            from = λ j p. d.from j p ∙ linked.skips j p ∙ ap some (sym (same_tall j));
            others = d.others;
            above = λ j q.
                let below : ltb j (height_of s node) ≡ false = ground arith in
                rw below (same_tall j);
          };
          values = d.values;
          out = Different-apart node (m.head ∷ l.front) rest Different-here;
        }

    removed_list : E.same v value ≡ true → take_less E value vs ++ ws ≡ remove_first E value vs
    removed_list found =
        ap (λ w. take_less E value vs ++ behind_first E value w) (sym those)
        ∙ remove_first_lem E value vs (ap (starts_with E value) those ∙ found)

    Dropped-owned :
        (d : Dropped node) (a : ℕ) → Absent a ((m.head ∷ l.front) ++ rest) → d.after.nodes a ≡ none
    Dropped-owned d a none_here = elim (ℕ_discrete node a) [
      | yes f ↦ subst (λ b. d.after.nodes b ≡ none) f d.gone
      | no ne ↦ d.dead a (
          l.owned a (
            subst (λ b. Absent a ((m.head ∷ l.front) ++ b)) (sym here)
              (Absent-append a (m.head ∷ l.front) (node ∷ rest)
                (Absent-front a (m.head ∷ l.front) rest none_here)
                (ne, Absent-back a (m.head ∷ l.front) rest none_here))))
    ]

    -- The rest of the nodes stand for the list without its first occurrence of the value.
    remove_node_lem :
        E.same v value ≡ true
        → (d : Dropped node)
        → Models E (record m { store = d.after; size = m.size - 1 }) (remove_first E value vs)
    remove_node_lem found d =
        let s = m.store in
        let top = height_of s m.head in
        let height = height_of s node in
        let cut = Dropped-Spliced d in
        let is_member : member E value vs ≡ true =
          sym (starts_with-drop_less E value vs k.sorted)
          ∙ ap (starts_with E value) those
          ∙ found in
        Spliced-Models E m vs value k l d.after node height (node ∷ rest) rest cut (m.size - 1) ws
          (remove_first E value vs)
          (behind-Links E m vs value k l d.after node height (node ∷ rest) rest cut rest rest_apart
            (λ j p. (behind j p).1) (Links-here.1))
          (Different-remove node (m.head ∷ l.front) rest Different-here)
          (Values-same s d.after node rest ws d.values rest_apart (Values-here.1))
          (Fits-same s d.after node top rest d.heights rest_apart (Fits-here.1))
          (removed_list found) (remove_first-Sorted E value vs k.sorted)
          (omega (arith, k.counted, length-remove_first E value vs is_member)) (Dropped-owned d)
          (λ a p. d.dead a (k.free a (omega (arith, p, d.address))))

  record RemovedFound (back : List ℕ) : Type ℓ where
    after : SkipList T
    result : remove_found E m value (first_of back) l.prevs ≡ some (after, member E value vs)
    models : Models E after (remove_first E value vs)

  remove_found_lem :
      (back : List ℕ) (ws : List T)
      → l.back ≡ back
      → drop_less E value vs ≡ ws
      → Values m.store back ws
      → RemovedFound back
  unfolding remove_found
  remove_found_lem [] [] here those values =
      let out : member E value vs ≡ false =
        sym (starts_with-drop_less E value vs k.sorted) ∙ ap (starts_with E value) those in
      record { after = m; result = rw out refl; models = rw (remove_first_absent E value vs out) k }
  remove_found_lem [] (v ∷ ws) here those values = absurd (cc (values))
  remove_found_lem (x ∷ xs) [] here those values = absurd (cc (values.1))
  remove_found_lem (x ∷ xs) (v ∷ ws) here those values =
      let n = value-read E m.store value x v (values.0) in
      let known : member E value vs ≡ E.same v value =
        sym (starts_with-drop_less E value vs k.sorted) ∙ ap (starts_with E value) those in
      elim (Bool-cases (E.same v value)) [
        | inl e ↦
            let d = dropped x xs v ws here those in
            record {
              after = record m { store = d.after; size = m.size - 1 };
              result = rw (n.1, n.2, known, e, d.result) refl;
              models = remove_node_lem x xs v ws here those e d;
            }
        | inr e ↦ record {
          after = m;
          result = rw (n.1, n.2, known, e) refl;
          models = rw (remove_first_absent E value vs (known ∙ e)) k;
        }
      ]

-- `remove` from a skip list that stands for a sorted list returns whether the value was a member,
-- and leaves a skip list for the list without its first occurrence.
pub remove-Models {ℓ} :
    {T : Type ℓ} (E : Element T) (m : SkipList T) (vs : List T) (value : T)
    → Models E m vs
    → (after : SkipList T) × (remove E m value ≡ some (after, member E value vs))
      × Models E after (remove_first E value vs)
unfolding remove head_node
remove-Models E m vs value k =
    let l = locate E m vs value k in
    let done =
      remove_found_lem E m vs value k l l.back (drop_less E value vs) refl refl l.back_values in
    (done.after, rw (l.top_node, l.result) done.result, done.models)
