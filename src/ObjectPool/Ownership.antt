-- ===== src/ObjectPool/Ownership.antt =====
-- src/pool.h: each node is free or has one handle, whatever the handles do.
use wizard.Prelude.{
  ℕ, ◌+◌, ◌≤◌, ◌<◌, ◌≡◌, ◌⊎◌, inl, inr, refl, sym, ◌∙◌, ap, subst, Bool, true, false, Option, none,
  some, List, [], ◌∷◌, ◌++◌, arith, ◌==◌, ==_eq, ==_ne, if◌then◌else◌, get_elem?-lt, length,
  Option-cases, ℕ_discrete, Bool-cases, ◌||◌, not, set, get_or, get_or-set_ne, zero, suc,
}
use wizard.Prelude.Functions.{assign_at, assign_at_self, assign_at_ne}
use wizard.Prelude.Pigeonhole.{Absent}
use wizard.Prelude.Sums.{count, count-append}
use wizard.ObjectPool.{ObjectPool, popped_market, popped_cache, pop_one_node, try_pop, is_alive}
use wizard.ObjectPool.Frees.{Frees, first, Popped, try_pop-Frees}
use wizard.ObjectPool.Release.{Released, objects_after, release_lem}
use wizard.ObjectPool.Handles.{
  ObjectPointer, PooledObject, Owner, empty, node_handle, heap_handle, release_parts,
  release_object, delete_object, release_handle, get,
}
use wizard.ObjectPool.Handles.ObjectPointer.{of_node, of_heap}

abbrev pub one_if : ℕ → ℕ → ℕ
one_if x y = if x == y then 1 else 0

abbrev pub node_count : ℕ → Option ℕ → ℕ
node_count y none = 0
node_count y (some x) = one_if x y

abbrev pub heap_count : ℕ → Option ObjectPointer → ℕ
heap_count b none = 0
heap_count b (some (of_node x)) = 0
heap_count b (some (of_heap a)) = one_if a b

-- Whether the handle has the node, or the object at an address.
abbrev pub holds : ℕ → PooledObject → ℕ
holds x o = node_count x o.node

abbrev pub points : ℕ → PooledObject → ℕ
points a o = heap_count a o.object

-- A handle of a node, of an object that `new` has made, or of nothing.
abbrev pub Shape : PooledObject → Type 0
Shape o = ((x : ℕ) × (o ≡ node_handle x)) ⊎ (((a : ℕ) × (o ≡ heap_handle a)) ⊎ (o ≡ empty))

-- `stock` says which nodes there are, `held` and `pointed` how often handles have a node or point
-- to an address: each node is free or held, and never both; what `new` has made and nobody has
-- deleted has one handle.
pub record OwnerOk (stock : ℕ → ℕ) (s : Owner) (held pointed : ℕ → ℕ) : Type 0 where
  pub cache : List ℕ
  pub market : List ℕ
  pub collective : List ℕ
  pub frees : Frees s.pool cache market collective
  pub nodes : (x : ℕ) → count x (cache ++ (market ++ collective)) + held x ≡ stock x
  pub heaps : (a : ℕ) → pointed a ≡ (if s.heap a then 1 else 0)
  pub fresh : (a : ℕ) → s.next_address ≤ a → s.heap a ≡ false
  pub once : (x : ℕ) → stock x ≤ 1
  pub real : (x : ℕ) → 0 < stock x → x < length s.pool.nodes

count-Absent : (x : ℕ) (ys : List ℕ) → count x ys ≡ 0 → Absent x ys
count-Absent x [] e = tt
count-Absent x (y ∷ ys) e = elim (ℕ_discrete y x) [
  | yes same ↦ absurd (omega (arith, rw (==_eq same) at e))
  | no ne ↦ (ne, count-Absent x ys (omega (arith, rw (==_ne ne) at e)))
]

count-cons : (y x : ℕ) (xs ys : List ℕ) → count y (xs ++ (x ∷ ys)) ≡ one_if x y + count y (xs ++ ys)
count-cons y x xs ys = omega (arith, count-append y xs (x ∷ ys), count-append y xs ys)

-- The lists of free nodes behind a `release`: with the node once more.
record Relisted (q : ObjectPool) (x : ℕ) (free : List ℕ) : Type 0 where
  cache : List ℕ
  market : List ℕ
  collective : List ℕ
  frees : Frees q cache market collective
  more : (y : ℕ) → count y (cache ++ (market ++ collective)) ≡ one_if x y + count y free

Released-Relisted :
    (b room : Bool) (q : ObjectPool) (x : ℕ) (cache market collective : List ℕ)
    → Released b room q x cache market collective
    → Relisted q x (cache ++ (market ++ collective))
Released-Relisted true room q x cache market collective h = record {
  cache = cache;
  market = market;
  collective = x ∷ collective;
  frees = h;
  more = λ y. omega (
    arith,
    count-append y cache (market ++ (x ∷ collective)),
    count-append y cache (market ++ collective),
    count-cons y x market collective,
  );
}
Released-Relisted false true q x cache market collective h = record {
  cache = x ∷ cache;
  market = market;
  collective = collective;
  frees = h;
  more = λ y. refl;
}
Released-Relisted false false q x cache market collective h = record {
  cache = cache;
  market = x ∷ market;
  collective = collective;
  frees = h;
  more = λ y. count-cons y x cache (market ++ collective);
}

-- The lists of free nodes behind a `try_pop`: without the node.
record Unlisted (q : ObjectPool) (popped : Option ℕ) (free : List ℕ) : Type 0 where
  cache : List ℕ
  market : List ℕ
  collective : List ℕ
  frees : Frees q cache market collective
  less : (y : ℕ) → count y free ≡ node_count y popped + count y (cache ++ (market ++ collective))

Popped-Unlisted :
    (q : ObjectPool) (cache market collective : List ℕ)
    → Popped q cache market collective
    → Unlisted q (first cache market collective) (cache ++ (market ++ collective))
Popped-Unlisted q (x ∷ cache) market collective h = record {
  cache = cache;
  market = market;
  collective = collective;
  frees = h;
  less = λ y. refl;
}
Popped-Unlisted q [] (x ∷ market) collective h = record {
  cache = [];
  market = market;
  collective = collective;
  frees = h;
  less = λ y. refl;
}
Popped-Unlisted q [] [] (x ∷ collective) h = record {
  cache = [];
  market = [];
  collective = collective;
  frees = h;
  less = λ y. refl;
}
Popped-Unlisted q [] [] [] h = record {
  cache = [];
  market = [];
  collective = [];
  frees = h;
  less = λ y. omega arith;
}

-- A `try_pop` changes only the heads and the cache.
abbrev Keeps : ObjectPool → ObjectPool → Type 0
Keeps p q = (q.nodes ≡ p.nodes) × (q.objects ≡ p.objects)

Keeps-eq : (p q r : ObjectPool) → r ≡ q → Keeps p r → Keeps p q
Keeps-eq p q r e k = subst (Keeps p) e k

popped_market-Keeps :
    (p q : ObjectPool) (m : Option ℕ × ℕ) (r : Option ℕ)
    → popped_market p m ≡ some (r, q)
    → Keeps p q
unfolding popped_market
popped_market-Keeps p q (some x, head) r e =
    Keeps-eq p q (record p { market_head = head }) (cc (e)) (refl, refl)
popped_market-Keeps p q (none, head) r e =
    elim (Option-cases (pop_one_node p.nodes p.collective_head)) [
      | inl f ↦ absurd (cc (rw f at e))
      | inr (c, f) ↦ Keeps-eq p q (record p { collective_head = c.1 }) (cc (rw f at e)) (refl, refl)
    ]

popped_cache-Keeps :
    (p q : ObjectPool) (cache : List ℕ) (r : Option ℕ)
    → popped_cache p cache ≡ some (r, q)
    → Keeps p q
unfolding popped_cache
popped_cache-Keeps p q (x ∷ cache) r e =
    Keeps-eq p q (record p { cache = cache }) (cc (e)) (refl, refl)
popped_cache-Keeps p q [] r e = elim (Option-cases (pop_one_node p.nodes p.market_head)) [
  | inl f ↦ absurd (cc (rw f at e))
  | inr (m, f) ↦ popped_market-Keeps p q m r (rw f at e)
]

try_pop-Keeps : (p q : ObjectPool) (r : Option ℕ) → try_pop p ≡ some (r, q) → Keeps p q
unfolding try_pop
try_pop-Keeps p q r = popped_cache-Keeps p q p.cache r

-- Whether the destructor of a node's object has run, or does nothing.
abbrev pub spent : Bool → ObjectPool → ℕ → ℕ
spent trivial p x = if trivial || not (is_alive p.objects x) then 1 else 0

pub get_or-set_dead : (objects : List Bool) (x : ℕ) → get_or (set objects x false) x false ≡ false
get_or-set_dead [] x = refl
get_or-set_dead (b ∷ objects) zero = refl
get_or-set_dead (b ∷ objects) (suc x) = get_or-set_dead objects x

-- Behind the destructor of an object, this one is destroyed, and each that was before.
destroyed-spent :
    (trivial : Bool) (p q : ObjectPool) (x y : ℕ)
    → q.objects ≡ objects_after trivial p.objects x
    → (one_if x y ≤ spent trivial q y) × (spent trivial p y ≤ spent trivial q y)
unfolding is_alive
destroyed-spent true p q x y e = (ground arith, ground arith)
destroyed-spent false p q x y e = elim (ℕ_discrete x y) [
  | yes same ↦
      let dead : get_or q.objects y false ≡ false =
        ap (λ o. get_or o y false) e
        ∙ subst (λ z. get_or (set p.objects x false) z false ≡ false) same
            (get_or-set_dead p.objects x) in
      rw dead (ground arith, ground arith)
  | no ne ↦
      let kept : get_or q.objects y false ≡ get_or p.objects y false =
        ap (λ o. get_or o y false) e ∙ get_or-set_ne p.objects x y false false ne in
      rw (kept, ==_ne ne) (omega arith, omega arith)
]

or_false : (a b : Bool) → (a || b) ≡ false → (a ≡ false) × (b ≡ false)
or_false true b e = absurd (cc (e))
or_false false b e = (refl, e)

-- `release` of a handle goes wrong: the object of the node has been destroyed before.
pub record DestroysTwice (trivial : Bool) (tc_size : ℕ) (s : Owner) (o : PooledObject)
    : Type 0 where
  pub result : release_handle trivial tc_size s o ≡ none
  pub not_trivial : trivial ≡ false
  pub x : ℕ
  pub own_node : o.node ≡ some x
  pub dead : is_alive s.pool.objects x ≡ false

module _ (stock : ℕ → ℕ) where
  -- What `get` returns.
  pub record Got (s : Owner) (held pointed : ℕ → ℕ) (done : Option (Owner × PooledObject))
      : Type 0 where
    pub after : Owner
    pub made : PooledObject
    pub result : done ≡ some (after, made)
    pub shape : Shape made
    pub same_objects : after.pool.objects ≡ s.pool.objects
    pub ok : OwnerOk stock after (λ x. held x + holds x made) (λ a. pointed a + points a made)

  -- A node of the pool, if there is one.
  popped-OwnerOk :
      (s : Owner) (held pointed : ℕ → ℕ) (q : ObjectPool) (popped : Option ℕ)
      → (k : OwnerOk stock s held pointed) → try_pop s.pool ≡ some (popped, q)
      → Unlisted q popped (k.cache ++ (k.market ++ k.collective))
      → OwnerOk stock (record s { pool = q }) (λ x. held x + node_count x popped) pointed
  popped-OwnerOk s held pointed q popped k e u =
      let same : q.nodes ≡ s.pool.nodes = (try_pop-Keeps s.pool q popped e).0 in
      record {
        cache = u.cache;
        market = u.market;
        collective = u.collective;
        frees = u.frees;
        nodes = λ x. omega (arith, k.nodes x, u.less x);
        heaps = k.heaps;
        fresh = k.fresh;
        once = k.once;
        real = λ x p. omega (arith, k.real x p, ap length same);
      }

  -- A new object at an address that no other has.
  allocated-OwnerOk :
      (s : Owner) (held pointed : ℕ → ℕ)
      → OwnerOk stock s held pointed
      → OwnerOk stock
          (record s {
            heap = assign_at s.heap s.next_address true;
            next_address = s.next_address + 1;
          })
          held
          (λ a. pointed a + one_if s.next_address a)
  allocated-OwnerOk s held pointed k = record {
    cache = k.cache;
    market = k.market;
    collective = k.collective;
    frees = k.frees;
    nodes = k.nodes;
    heaps = λ a. elim (ℕ_discrete s.next_address a) [
      | yes same ↦
          let none_yet : pointed a ≡ 0 = k.heaps a ∙ rw (k.fresh a (omega arith)) refl in
          rw
            (
              none_yet,
              ==_eq same,
              subst (λ b. assign_at s.heap s.next_address true b ≡ true) same
                  (assign_at_self s.heap s.next_address true),
            )
            (omega arith)
      | no ne ↦
          rw (==_ne ne, assign_at_ne s.heap s.next_address a true ne) (omega (arith, k.heaps a))
    ];
    fresh = λ a p.
        assign_at_ne s.heap s.next_address a true (λ e. omega arith) ∙ k.fresh a (omega arith);
    once = k.once;
    real = k.real;
  }

  -- `delete` of the object of a handle.
  deleted-OwnerOk :
      (s : Owner) (held pointed rest : ℕ → ℕ) (a : ℕ)
      → OwnerOk stock s held pointed
      → ((b : ℕ) → pointed b ≡ rest b + one_if a b)
      → OwnerOk stock (record s { heap = assign_at s.heap a false }) held rest
  deleted-OwnerOk s held pointed rest a k less = record {
    cache = k.cache;
    market = k.market;
    collective = k.collective;
    frees = k.frees;
    nodes = k.nodes;
    heaps = λ b. elim (ℕ_discrete a b) [
      | yes same ↦
          rw (subst (λ c. assign_at s.heap a false c ≡ false) same (assign_at_self s.heap a false))
            (ground (arith, k.heaps b, rw (==_eq same) at (less b)))
      | no ne ↦
          rw (assign_at_ne s.heap a b false ne)
            (omega (arith, k.heaps b, rw (==_ne ne) at (less b)))
    ];
    fresh = λ b p. elim (ℕ_discrete a b) [
      | yes same ↦
          subst (λ c. assign_at s.heap a false c ≡ false) same (assign_at_self s.heap a false)
      | no ne ↦ assign_at_ne s.heap a b false ne ∙ k.fresh b p
    ];
    once = k.once;
    real = k.real;
  }

  pub OwnerOk-same :
      (s : Owner) (held pointed held' pointed' : ℕ → ℕ)
      → ((x : ℕ) → held x ≡ held' x)
      → ((a : ℕ) → pointed a ≡ pointed' a)
      → OwnerOk stock s held pointed
      → OwnerOk stock s held' pointed'
  OwnerOk-same s held pointed held' pointed' h p k = record {
    cache = k.cache;
    market = k.market;
    collective = k.collective;
    frees = k.frees;
    nodes = λ x. omega (arith, k.nodes x, h x);
    heaps = λ a. sym (p a) ∙ k.heaps a;
    fresh = k.fresh;
    once = k.once;
    real = k.real;
  }

  -- A `try_pop`, with the free nodes behind it.
  record TriedPop (s : Owner) (held pointed : ℕ → ℕ) : Type 0 where
    pool : ObjectPool
    popped : Option ℕ
    result : try_pop s.pool ≡ some (popped, pool)
    ok : OwnerOk stock (record s { pool = pool }) (λ x. held x + node_count x popped) pointed

  tried_pop :
      (s : Owner) (held pointed : ℕ → ℕ) → OwnerOk stock s held pointed → TriedPop s held pointed
  tried_pop s held pointed k =
      let p = try_pop-Frees s.pool k.cache k.market k.collective k.frees in
      let popped = first k.cache k.market k.collective in
      record {
        pool = p.0;
        popped = popped;
        result = p.1;
        ok =
            popped-OwnerOk s held pointed (p.0) popped k (p.1)
              (Popped-Unlisted (p.0) k.cache k.market k.collective (p.2));
      }

  get_behind :
      (s : Owner) (held pointed : ℕ → ℕ) (q : ObjectPool) (popped : Option ℕ)
      → try_pop s.pool ≡ some (popped, q)
      → OwnerOk stock (record s { pool = q }) (λ x. held x + node_count x popped) pointed
      → Got s held pointed (get s)
  unfolding get
  get_behind s held pointed q (some x) e k = record {
    after = record s { pool = q };
    made = node_handle x;
    result = rw e refl;
    shape = inl (x, refl);
    same_objects = (try_pop-Keeps s.pool q (some x) e).1;
    ok =
        OwnerOk-same (record s { pool = q }) (λ y. held y + one_if x y) pointed
          (λ y. held y + one_if x y) (λ a. pointed a + 0) (λ y. refl) (λ a. omega arith) k;
  }
  get_behind s held pointed q none e k = record {
    after = record s {
      pool = q;
      heap = assign_at s.heap s.next_address true;
      next_address = s.next_address + 1;
    };
    made = heap_handle s.next_address;
    result = rw e refl;
    shape = inr (inl (s.next_address, refl));
    same_objects = (try_pop-Keeps s.pool q none e).1;
    ok = allocated-OwnerOk (record s { pool = q }) (λ x. held x + 0) pointed k;
  }

  -- `get` returns a handle that no other handle shares its object with.
  pub get_lem :
      (s : Owner) (held pointed : ℕ → ℕ) → OwnerOk stock s held pointed → Got s held pointed (get s)
  get_lem s held pointed k =
      let t = tried_pop s held pointed k in get_behind s held pointed t.pool t.popped t.result t.ok

  -- `release` of a handle returns: what it had is then free or deleted.
  pub record ReleasedHandle (trivial : Bool) (tc_size : ℕ) (s : Owner) (o : PooledObject)
      (held pointed : ℕ → ℕ) : Type 0 where
    pub after : Owner
    pub result : release_handle trivial tc_size s o ≡ some after
    pub ok : OwnerOk stock after held pointed
    pub ends : (y : ℕ) → holds y o ≤ spent trivial after.pool y
    pub stays : (y : ℕ) → spent trivial s.pool y ≤ spent trivial after.pool y

  abbrev pub Ends : Bool → ℕ → Owner → PooledObject → (ℕ → ℕ) → (ℕ → ℕ) → Type 0
  Ends trivial tc_size s o held pointed =
      ReleasedHandle trivial tc_size s o held pointed ⊎ DestroysTwice trivial tc_size s o

  release_node :
      (trivial : Bool) (tc_size : ℕ) (s : Owner) (x : ℕ) (held pointed held' pointed' : ℕ → ℕ)
      → OwnerOk stock s held pointed
      → ((y : ℕ) → held y ≡ held' y + one_if x y)
      → ((a : ℕ) → pointed a ≡ pointed' a + 0)
      → Ends trivial tc_size s (node_handle x) held' pointed'
  unfolding release_handle release_parts
  release_node trivial tc_size s x held pointed held' pointed' k less same =
      let mine : held x ≡ held' x + 1 = less x ∙ rw (==_eq {a = x} refl) refl in
      let there = get_elem?-lt s.pool.nodes x (k.real x (omega (arith, k.nodes x, mine))) in
      let unlisted : count x (k.cache ++ (k.market ++ k.collective)) ≡ 0 =
        omega (arith, k.nodes x, mine, k.once x) in
      let done =
        release_lem trivial tc_size s.pool x (there.0) k.cache k.market k.collective k.frees
          (there.1) (count-Absent x (k.cache ++ (k.market ++ k.collective)) unlisted) in
      let lists =
        Released-Relisted (there.0).is_collective _ (done.0) x k.cache k.market k.collective
          (done.4) in
      elim (Bool-cases (trivial || is_alive s.pool.objects x)) [
        | inl t ↦ inl (record {
          after = record s { pool = done.0 };
          result = rw (done.1, t) refl;
          ok = record {
            cache = lists.cache;
            market = lists.market;
            collective = lists.collective;
            frees = lists.frees;
            nodes = λ y. omega (arith, k.nodes y, less y, lists.more y);
            heaps = λ a. omega (arith, same a) ∙ k.heaps a;
            fresh = k.fresh;
            once = k.once;
            real = λ y p. omega (arith, k.real y p, done.2);
          };
          ends = λ y. (destroyed-spent trivial s.pool (done.0) x y (done.3)).0;
          stays = λ y. (destroyed-spent trivial s.pool (done.0) x y (done.3)).1;
        })
        | inr f ↦
            let apart = or_false trivial (is_alive s.pool.objects x) f in
            inr (record {
              result = rw (done.1, f) refl;
              not_trivial = apart.0;
              x = x;
              own_node = refl;
              dead = apart.1;
            })
      ]

  -- `release` of a handle goes wrong only if it has a node whose object is destroyed already.
  pub release_handle_lem :
      (trivial : Bool) (tc_size : ℕ) (s : Owner) (o : PooledObject)
      (held pointed held' pointed' : ℕ → ℕ)
      → Shape o
      → OwnerOk stock s held pointed
      → ((y : ℕ) → held y ≡ held' y + holds y o)
      → ((a : ℕ) → pointed a ≡ pointed' a + points a o)
      → Ends trivial tc_size s o held' pointed'
  unfolding release_handle release_parts release_object delete_object
  release_handle_lem trivial tc_size s o held pointed held' pointed' (inl (x, e)) k h p =
      subst (λ z. Ends trivial tc_size s z held' pointed') (sym e)
        (release_node trivial tc_size s x held pointed held' pointed' k
          (λ y. h y ∙ ap (λ z. held' y + holds y z) e)
          (λ a. p a ∙ ap (λ z. pointed' a + points a z) e))
  release_handle_lem trivial tc_size s o held pointed held' pointed' (inr (inl (a, e))) k h p =
      let mine : pointed a ≡ pointed' a + 1 =
        p a ∙ ap (λ z. pointed' a + points a z) e ∙ rw (==_eq {a = a} refl) refl in
      let live : s.heap a ≡ true = ground (arith, k.heaps a) in
      subst (λ z. Ends trivial tc_size s z held' pointed') (sym e)
        (inl (record {
          after = record s { heap = assign_at s.heap a false };
          result = rw live refl;
          ok =
              OwnerOk-same _ held pointed' held' pointed'
                (λ y. h y ∙ ap (λ z. held' y + holds y z) e ∙ omega arith) (λ b. refl)
                (deleted-OwnerOk s held pointed pointed' a k
                  (λ b. p b ∙ ap (λ z. pointed' b + points b z) e));
          ends = λ y. omega arith;
          stays = λ y. omega arith;
        }))
  release_handle_lem trivial tc_size s o held pointed held' pointed' (inr (inr e)) k h p =
      subst (λ z. Ends trivial tc_size s z held' pointed') (sym e)
        (inl (record {
          after = s;
          result = refl;
          ok =
              OwnerOk-same s held pointed held' pointed'
                (λ y. h y ∙ ap (λ z. held' y + holds y z) e ∙ omega arith)
                (λ a. p a ∙ ap (λ z. pointed' a + points a z) e ∙ omega arith) k;
          ends = λ y. omega arith;
          stays = λ y. omega arith;
        }))
