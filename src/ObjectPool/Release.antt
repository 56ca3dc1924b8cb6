-- ===== src/ObjectPool/Release.antt =====
-- src/pool.h: `release` as an operation on three lists of free nodes.
use wizard.Prelude.{
  ℕ, ◌-◌, ◌^◌, ◌<◌, ◌≡◌, ◌≢◌, inl, inr, refl, sym, ◌∙◌, ap, Bool, true, false, Bool-cases, some,
  none, ◌||◌, if◌then◌else◌, List, [], ◌∷◌, ◌++◌, append_assoc, arith, ltb, subst, get_elem?, set,
  length, in_bounds, ℕ_discrete,
}
use wizard.Prelude.Pigeonhole.{Absent, Different}
use wizard.ObjectPool.{
  PoolNode, ObjectPool, get_capacity, is_alive, destroy_object, put_back, release,
}
use wizard.ObjectPool.Stacks.{Pushed, push_one_node_lem}
use wizard.ObjectPool.Frees.{Kind, Frees}

Absent-split : (a : ℕ) (xs ys : List ℕ) → Absent a (xs ++ ys) → Absent a xs × Absent a ys
Absent-split a [] ys h = (tt, h)
Absent-split a (x ∷ xs) ys h = let rest = Absent-split a xs ys (h.1) in ((h.0, rest.0), rest.1)

Absent-insert : (a x : ℕ) (xs ys : List ℕ) → x ≢ a → Absent a (xs ++ ys) → Absent a (xs ++ (x ∷ ys))
Absent-insert a x [] ys ne h = (ne, h)
Absent-insert a x (b ∷ xs) ys ne h = (h.0, Absent-insert a x xs ys ne (h.1))

Different-insert :
    (x : ℕ) (xs ys : List ℕ)
    → Absent x (xs ++ ys)
    → Different (xs ++ ys)
    → Different (xs ++ (x ∷ ys))
Different-insert x [] ys out d = (out, d)
Different-insert x (b ∷ xs) ys out d =
    (Absent-insert b x xs ys (λ e. out.0 (sym e)) (d.0), Different-insert x xs ys (out.1) (d.1))

Kind-keep :
    (b : Bool) (nodes after : List PoolNode) (x : ℕ) (n : PoolNode) (ys : List ℕ)
    → Pushed nodes after x n
    → Absent x ys
    → Kind b nodes ys
    → Kind b after ys
Kind-keep b nodes after x n [] p out k = tt
Kind-keep b nodes after x n (y ∷ ys) p out k = (
  (k.0.0, p.others y (λ e. out.0 (sym e)) ∙ k.0.1, k.0.2),
  Kind-keep b nodes after x n ys p (out.1) (k.1),
)

-- What every `push_one_node` keeps.
record Stays (p : ObjectPool) (after : List PoolNode) (x : ℕ) (cache market collective : List ℕ)
    : Type 0 where
  cache_kind : Kind false after cache
  market_kind : Kind false after market
  collective_kind : Kind true after collective
  indexed : (y : ℕ) (m : PoolNode) → get_elem? after y ≡ some m → m.index ≡ y
  small : length after < 2 ^ 32

stays_lem :
    (p : ObjectPool) (after : List PoolNode) (x : ℕ) (n : PoolNode)
    (cache market collective : List ℕ)
    → Frees p cache market collective
    → get_elem? p.nodes x ≡ some n
    → Absent x cache
    → Absent x market
    → Absent x collective
    → Pushed p.nodes after x n
    → Stays p after x cache market collective
stays_lem p after x n cache market collective h at a b c r = record {
  cache_kind = Kind-keep false p.nodes after x n cache r a h.cache_kind;
  market_kind = Kind-keep false p.nodes after x n market r b h.market_kind;
  collective_kind = Kind-keep true p.nodes after x n collective r c h.collective_kind;
  indexed = λ y m e. elim (ℕ_discrete x y) [
    | yes same ↦
        let new : r.new ≡ m = cc (r.written, ap (get_elem? after) same, e) in
        ap (λ (z : PoolNode). z.index) (sym new) ∙ r.same_index ∙ h.indexed x n at ∙ same
    | no ne ↦ h.indexed y m (sym (r.others y ne) ∙ e)
  ];
  small = omega (arith, r.same_length, h.small);
}

-- The three lists after a node is released: a collective node goes to its list, another one to the
-- thread's cache while there is room, and else to the market list.
abbrev pub Released : Bool → Bool → ObjectPool → ℕ → List ℕ → List ℕ → List ℕ → Type 0
Released true room q x cache market collective = Frees q cache market (x ∷ collective)
Released false true q x cache market collective = Frees q (x ∷ cache) market collective
Released false false q x cache market collective = Frees q cache (x ∷ market) collective

-- A node that is in none of the three lists.
module _ (p : ObjectPool) (x : ℕ) (n : PoolNode) (cache market collective : List ℕ)
    (h : Frees p cache market collective) (at : get_elem? p.nodes x ≡ some n)
    (out : Absent x (cache ++ (market ++ collective))) where
  no_cache : Absent x cache
  no_cache = (Absent-split x cache (market ++ collective) out).0

  no_market : Absent x market
  no_market =
      (Absent-split x market collective (Absent-split x cache (market ++ collective) out).1).0

  no_collective : Absent x collective
  no_collective =
      (Absent-split x market collective (Absent-split x cache (market ++ collective) out).1).1

  node_small : x < 2 ^ 32 - 1
  node_small = omega (arith, in_bounds p.nodes at, h.small)

  -- `put_back` returns, and the node is then where `Released` says.
  abbrev pub IsReleased : ℕ → Bool → Bool → Type 0
  IsReleased tc_size is_collective room =
      (q : ObjectPool) × (put_back tc_size p x is_collective ≡ some q)
      × (length q.nodes ≡ length p.nodes)
      × (q.objects ≡ p.objects)
      × Released is_collective room q x cache market collective

  release_collective :
      (tc_size : ℕ) (room : Bool) → n.is_collective ≡ true → IsReleased tc_size true room
  unfolding put_back
  release_collective tc_size room t =
      let pushed =
        push_one_node_lem p.nodes p.collective_head x n collective at (h.indexed x n at) node_small
          no_collective h.on_collective in
      let keep =
        stays_lem p (pushed.0) x n cache market collective h at no_cache no_market no_collective
          (pushed.4) in
      (
        record p { nodes = pushed.0; collective_head = pushed.1 },
        rw (pushed.2) refl,
        pushed.4.same_length,
        refl,
        record {
          cached = h.cached;
          on_market = pushed.4.other_stacks p.market_head market no_market h.on_market;
          on_collective = pushed.3;
          different = subst Different (append_assoc cache market (x ∷ collective)) (
              Different-insert x (cache ++ market) collective
                (subst (Absent x) (sym (append_assoc cache market collective)) out)
                (subst Different (sym (append_assoc cache market collective)) h.different));
          cache_kind = keep.cache_kind;
          market_kind = keep.market_kind;
          collective_kind =
              ((pushed.4.new, pushed.4.written, pushed.4.same_kind ∙ t), keep.collective_kind);
          indexed = keep.indexed;
          small = keep.small;
        },
      )

  release_cached :
      (tc_size : ℕ)
      → n.is_collective ≡ false
      → ltb (length cache) (get_capacity tc_size) ≡ true
      → IsReleased tc_size false true
  unfolding put_back
  release_cached tc_size f room = (
    record p { cache = x ∷ p.cache },
    rw (h.cached, room) refl,
    refl,
    refl,
    record {
      cached = ap (λ l. x ∷ l) h.cached;
      on_market = h.on_market;
      on_collective = h.on_collective;
      different = (out, h.different);
      cache_kind = ((n, at, f), h.cache_kind);
      market_kind = h.market_kind;
      collective_kind = h.collective_kind;
      indexed = h.indexed;
      small = h.small;
    },
  )

  release_market :
      (tc_size : ℕ)
      → n.is_collective ≡ false
      → ltb (length cache) (get_capacity tc_size) ≡ false
      → IsReleased tc_size false false
  unfolding put_back
  release_market tc_size f full =
      let pushed =
        push_one_node_lem p.nodes p.market_head x n market at (h.indexed x n at) node_small
          no_market h.on_market in
      let keep =
        stays_lem p (pushed.0) x n cache market collective h at no_cache no_market no_collective
          (pushed.4) in
      (
        record p { nodes = pushed.0; market_head = pushed.1 },
        rw (h.cached, full, pushed.2) refl,
        pushed.4.same_length,
        refl,
        record {
          cached = h.cached;
          on_market = pushed.3;
          on_collective =
              pushed.4.other_stacks p.collective_head collective no_collective h.on_collective;
          different = Different-insert x cache (market ++ collective) out h.different;
          cache_kind = keep.cache_kind;
          market_kind =
              ((pushed.4.new, pushed.4.written, pushed.4.same_kind ∙ f), keep.market_kind);
          collective_kind = keep.collective_kind;
          indexed = keep.indexed;
          small = keep.small;
        },
      )

  -- Whatever the kind of the node.
  pub put_back_lem :
      (tc_size : ℕ) → IsReleased tc_size n.is_collective (ltb (length cache) (get_capacity tc_size))
  put_back_lem tc_size = elim (Bool-cases n.is_collective) [
    | inl t ↦ rw t (release_collective tc_size (ltb (length cache) (get_capacity tc_size)) t)
    | inr f ↦ elim (Bool-cases (ltb (length cache) (get_capacity tc_size))) [
      | inl room ↦ rw (f, room) (release_cached tc_size f room)
      | inr full ↦ rw (f, full) (release_market tc_size f full)
    ]
  ]

-- What becomes of the objects when the destructor of one of them runs.
abbrev pub objects_after : Bool → List Bool → ℕ → List Bool
objects_after trivial objects x = if trivial then objects else set objects x false

destroy_object_lem :
    (trivial : Bool) (objects : List Bool) (x : ℕ)
    → destroy_object trivial objects x
      ≡ (if trivial || is_alive objects x then some (objects_after trivial objects x) else none)
unfolding destroy_object
destroy_object_lem true objects x = refl
destroy_object_lem false objects x = refl

-- The destructor changes none of the lists.
Frees-objects :
    (p : ObjectPool) (objects : List Bool) (cache market collective : List ℕ)
    → Frees p cache market collective
    → Frees (record p { objects = objects }) cache market collective
Frees-objects p objects cache market collective h = record {
  cached = h.cached;
  on_market = h.on_market;
  on_collective = h.on_collective;
  different = h.different;
  cache_kind = h.cache_kind;
  market_kind = h.market_kind;
  collective_kind = h.collective_kind;
  indexed = h.indexed;
  small = h.small;
}

-- With the number of nodes.
pub release_lem :
    (trivial : Bool) (tc_size : ℕ) (p : ObjectPool) (x : ℕ) (n : PoolNode)
    (cache market collective : List ℕ)
    → Frees p cache market collective
    → get_elem? p.nodes x ≡ some n
    → Absent x (cache ++ (market ++ collective))
    → (q : ObjectPool) × (release trivial tc_size p x
        ≡ (if trivial || is_alive p.objects x then some q else none))
      × (length q.nodes ≡ length p.nodes)
      × (q.objects ≡ objects_after trivial p.objects x)
      × Released n.is_collective
          (ltb (length cache) (get_capacity tc_size))
          q
          x
          cache
          market
          collective
unfolding release
release_lem trivial tc_size p x n cache market collective h at out =
    let objects = objects_after trivial p.objects x in
    let p' = record p { objects = objects } in
    let done =
      put_back_lem p' x n cache market collective
        (Frees-objects p objects cache market collective h) at out tc_size in
    (
      done.0,
      rw (at, destroy_object_lem trivial p.objects x)
          (elim (Bool-cases (trivial || is_alive p.objects x)) [
            | inl t ↦ rw t (rw (done.1) refl)
            | inr f ↦ rw f refl
          ]),
      done.2,
      done.3,
      done.4,
    )

-- `release` of a node that is not free goes wrong when the object of the node has been destroyed
-- before and its destructor is not trivial. Else it returns; the object is then destroyed, unless
-- its destructor is trivial, and the node is free: a collective node is the first of the
-- collective list, another one is the first of the thread's cache while the cache has room, and
-- else of the market list.
pub release-Released :
    (trivial : Bool) (tc_size : ℕ) (p : ObjectPool) (x : ℕ) (n : PoolNode)
    (cache market collective : List ℕ)
    → Frees p cache market collective
    → get_elem? p.nodes x ≡ some n
    → Absent x (cache ++ (market ++ collective))
    → (q : ObjectPool) × (release trivial tc_size p x
        ≡ (if trivial || is_alive p.objects x then some q else none))
      × (q.objects ≡ objects_after trivial p.objects x)
      × Released n.is_collective
          (ltb (length cache) (get_capacity tc_size))
          q
          x
          cache
          market
          collective
release-Released trivial tc_size p x n cache market collective h at out =
    let done = release_lem trivial tc_size p x n cache market collective h at out in
    (done.0, done.1, done.3, done.4)
