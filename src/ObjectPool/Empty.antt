-- ===== src/ObjectPool/Empty.antt =====
-- src/pool.h: `init` of a pool with an empty list.
use wizard.Prelude.{
  ℕ, zero, suc, ◌+◌, ◌≤◌, ◌≡◌, ◌⊎◌, inl, inr, refl, sym, ap, true, false, Option-cases, Option,
  none, some, List, arith, ltb, >>=-eq-some, get_elem?, replicate,
}
use wizard.ObjectPool.{null_index, PoolNode, LinkedList, push_back, push_into, init_nodes, init}

-- The result of the loop of `init`.
abbrev Listed : Type 0
Listed = List PoolNode × LinkedList × LinkedList

market_of : Listed → Option Listed → LinkedList
market_of d none = d.1
market_of d (some r) = r.1

collective_of : Listed → Option Listed → LinkedList
collective_of d none = d.2
collective_of d (some r) = r.2

-- Without a collective node from node `i` on, the list of collective nodes stays.
init_nodes-collective :
    (left i c : ℕ) (nodes : List PoolNode) (market collective : LinkedList) (r : Listed)
    → c ≤ i
    → init_nodes left i c nodes market collective ≡ some r
    → r.2 ≡ collective
unfolding init_nodes collective_of
init_nodes-collective zero i c nodes market collective r p e = ap (collective_of r) (sym e)
init_nodes-collective (suc left) i c nodes market collective r p e =
    let past : ltb i c ≡ false = ground arith in
    let read = >>=-eq-some (get_elem? nodes i) _ e in
    let pushed = >>=-eq-some (push_back _ market i) _ (rw past at read.2) in
    init_nodes-collective left (suc i) c (pushed.0.0) (pushed.0.1) collective r (omega arith)
      (pushed.2)

-- With only collective nodes, the list of the others stays.
init_nodes-market :
    (left i c : ℕ) (nodes : List PoolNode) (market collective : LinkedList) (r : Listed)
    → i + left ≤ c
    → init_nodes left i c nodes market collective ≡ some r
    → r.1 ≡ market
unfolding init_nodes market_of
init_nodes-market zero i c nodes market collective r p e = ap (market_of r) (sym e)
init_nodes-market (suc left) i c nodes market collective r p e =
    let first : ltb i c ≡ true = ground arith in
    let read = >>=-eq-some (get_elem? nodes i) _ e in
    let pushed = >>=-eq-some (push_back _ collective i) _ (rw first at read.2) in
    init_nodes-market left (suc i) c (pushed.0.0) market (pushed.0.1) r (omega arith) (pushed.2)

push_into-none :
    (nodes : List PoolNode) (head : ℕ) (list : LinkedList)
    → list.head ≡ none
    → push_into nodes head list ≡ none
unfolding push_into
push_into-none nodes head list e = rw e refl

-- `init` follows a null pointer when no node is collective, and when all of them are.
pub init-none :
    (num collective_num : ℕ)
    → (collective_num ≡ 0) ⊎ (num ≤ collective_num)
    → init num collective_num ≡ none
unfolding init
init-none num c h =
    let fresh : PoolNode = record {
      next = null_index;
      index = 0;
      tag = 0;
      is_collective = false;
    } in
    let empty : LinkedList = record { head = none; tail = none } in
    elim (Option-cases (init_nodes num 0 c (replicate num fresh) empty empty)) [
      | inl e ↦ rw e refl
      | inr (r, e) ↦ elim (Option-cases (push_into (r.0) null_index (r.1))) [
        | inl f ↦ rw (e, f) refl
        | inr (m, f) ↦ elim h [
          | inl all_market ↦
              let same =
                init_nodes-collective num 0 c (replicate num fresh) empty empty r (omega arith) e in
              rw
                (e, f, push_into-none (m.0) null_index (r.2) (ap (λ (l : LinkedList). l.head) same))
                refl
          | inr all_collective ↦
              let same =
                init_nodes-market num 0 c (replicate num fresh) empty empty r (omega arith) e in
              rw (e, push_into-none (r.0) null_index (r.1) (ap (λ (l : LinkedList). l.head) same))
                refl
        ]
      ]
    ]
