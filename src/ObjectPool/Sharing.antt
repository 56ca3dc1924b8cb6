-- ===== src/ObjectPool/Sharing.antt =====
-- src/pool.h: no two `PooledObject`s share an object, whatever is done with them.
use wizard.Prelude.{
  ℕ, zero, suc, ◌+◌, ◌≡◌, inl, inr, refl, sym, ◌∙◌, Option, none, some, List, [], ◌∷◌, ◌++◌, arith,
  get_elem?, get_elem?-set_self, get_elem?-set_ne, set, in_bounds, ◌>>=◌, ℕ_discrete, ◌≤◌, ◌⊎◌, ap,
  Bool, false, ◌||◌, not, if◌then◌else◌,
}
use wizard.Prelude.Sums.{total, total-set}
use wizard.ObjectPool.{ObjectPool, is_alive}
use wizard.ObjectPool.Handles.{
  PooledObject, Owner, Handles, HandleCall, empty, get, append_handle, move_assign, move_found,
  move_new_found, release_found, release_handle, call, call_all,
}
use wizard.ObjectPool.Handles.HandleCall.{get_new, move_new, move_to, release_at}
use wizard.ObjectPool.Ownership.{
  holds, points, Shape, OwnerOk, OwnerOk-same, Got, get_lem, release_handle_lem, spent,
  DestroysTwice,
}

abbrev pub AllShape : List PooledObject → Type 0
AllShape [] = Unit {0}
AllShape (o ∷ os) = Shape o × AllShape os

AllShape-get :
    (os : List PooledObject) (i : ℕ) (o : PooledObject)
    → get_elem? os i ≡ some o
    → AllShape os
    → Shape o
AllShape-get [] i o e k = absurd (cc (e))
AllShape-get (p ∷ os) zero o e k = let same : p ≡ o = cc (e) in rw (sym same) (k.0)
AllShape-get (p ∷ os) (suc i) o e k = AllShape-get os i o e (k.1)

AllShape-set :
    (os : List PooledObject) (i : ℕ) (o : PooledObject)
    → Shape o
    → AllShape os
    → AllShape (set os i o)
AllShape-set [] i o shape k = tt
AllShape-set (p ∷ os) zero o shape k = (shape, k.1)
AllShape-set (p ∷ os) (suc i) o shape k = (k.0, AllShape-set os i o shape (k.1))

AllShape-append :
    (os : List PooledObject) (o : PooledObject) → Shape o → AllShape os → AllShape (os ++ (o ∷ []))
AllShape-append [] o shape k = (shape, tt)
AllShape-append (p ∷ os) o shape k = (k.0, AllShape-append os o shape (k.1))

total-append :
    (f : PooledObject → ℕ) (os : List PooledObject) (o : PooledObject)
    → total f (os ++ (o ∷ [])) ≡ total f os + f o
total-append f [] o = omega arith
total-append f (p ∷ os) o = omega (arith, total-append f os o)

-- The places of a move before the release: the two handles have changed places.
module _ (hs : List PooledObject) (i j : ℕ) (to from : PooledObject)
    (at_to : get_elem? hs i ≡ some to) (at_from : get_elem? hs j ≡ some from) where
  swapped_once : get_elem? (set hs i from) j ≡ some from
  swapped_once = elim (ℕ_discrete i j) [
    | yes same ↦ rw (sym same) (get_elem?-set_self hs i from (in_bounds hs at_to))
    | no ne ↦ get_elem?-set_ne hs from ne ∙ at_from
  ]

  swapped_twice : get_elem? (set (set hs i from) j to) j ≡ some to
  swapped_twice = get_elem?-set_self (set hs i from) j to (in_bounds (set hs i from) swapped_once)

  total-moved :
      (f : PooledObject → ℕ)
      → f empty ≡ 0
      → total f hs ≡ total f (set (set (set hs i from) j to) j empty) + f to
  total-moved f nothing = omega (
    arith,
    nothing,
    total-set f hs i to from at_to,
    total-set f (set hs i from) j from to swapped_once,
    total-set f (set (set hs i from) j to) j to empty swapped_twice,
  )

-- Each node is free or has one handle, and each object that `new` has made and nobody has deleted
-- has one handle, which is of one of the three shapes.
pub record HandlesOk (stock : ℕ → ℕ) (s : Handles) : Type 0 where
  pub ok : OwnerOk stock s.owner (λ x. total (holds x) s.handles) (λ a. total (points a) s.handles)
  pub shapes : AllShape s.handles

-- The handle whose `release` a call runs.
abbrev pub released_by : Handles → HandleCall → Option PooledObject
released_by s get_new = none
released_by s (move_new j) = none
released_by s (move_to i j) = get_elem? s.handles j >>= (λ from. get_elem? s.handles i)
released_by s (release_at i) = get_elem? s.handles i

-- The call runs the destructor of an object that is destroyed already.
pub record Twice (trivial : Bool) (s : Handles) (c : HandleCall) : Type 0 where
  pub not_trivial : trivial ≡ false
  pub o : PooledObject
  pub x : ℕ
  pub of_call : released_by s c ≡ some o
  pub own_node : o.node ≡ some x
  pub dead : is_alive s.owner.pool.objects x ≡ false

-- The state behind a run. Each node that had a handle before has one, or its object is destroyed.
pub record Returned (stock : ℕ → ℕ) (trivial : Bool) (s : Handles) (done : Option Handles)
    : Type 0 where
  pub after : Handles
  pub result : done ≡ some after
  pub ok : HandlesOk stock after
  pub ended :
      (x : ℕ)
      → total (holds x) s.handles ≤ total (holds x) after.handles + spent trivial after.owner.pool x
  pub stays : (x : ℕ) → spent trivial s.owner.pool x ≤ spent trivial after.owner.pool x

module _ (stock : ℕ → ℕ) (trivial : Bool) (tc_size : ℕ) (s : Handles) (k : HandlesOk stock s) where
  unchanged : Returned stock trivial s (some s)
  unchanged = record {
    after = s;
    result = refl;
    ok = k;
    ended = λ x. omega arith;
    stays = λ x. omega arith;
  }

  same_spent :
      (q : ObjectPool) (x : ℕ)
      → q.objects ≡ s.owner.pool.objects
      → spent trivial q x ≡ spent trivial s.owner.pool x
  same_spent q x e = ap (λ o. if trivial || not (is_alive o x) then 1 else 0) e

  call_get :
      (made : Option (Owner × PooledObject))
      → Got stock s.owner (λ x. total (holds x) s.handles) (λ a. total (points a) s.handles) made
      → Returned stock trivial s (made >>= (λ r. some (append_handle s.handles r)))
  call_get made g = record {
    after = append_handle s.handles (g.after, g.made);
    result = rw g.result refl;
    ok = record {
      ok =
          OwnerOk-same stock g.after _ _ _ _ (λ x. sym (total-append (holds x) s.handles g.made))
            (λ a. sym (total-append (points a) s.handles g.made)) g.ok;
      shapes = AllShape-append s.handles g.made g.shape k.shapes;
    };
    ended = λ x. omega (arith, total-append (holds x) s.handles g.made);
    stays = λ x. omega (arith, same_spent g.after.pool x g.same_objects);
  }

  moved_new :
      (j : ℕ) (found : Option PooledObject)
      → get_elem? s.handles j ≡ found
      → Returned stock trivial s (move_new_found s j found)
  unfolding move_new_found
  moved_new j none e = unchanged
  moved_new j (some from) e =
      let cleared = set s.handles j empty in
      let same : (f : PooledObject → ℕ)
          → f empty ≡ 0
          → total f s.handles ≡ total f (cleared ++ (from ∷ [])) =
        λ f nothing.
          omega
            (arith, nothing, total-set f s.handles j from empty e, total-append f cleared from) in
      record {
        after = append_handle cleared (s.owner, from);
        result = refl;
        ok = record {
          ok =
              OwnerOk-same stock s.owner _ _ _ _ (λ x. same (holds x) refl)
                (λ a. same (points a) refl) k.ok;
          shapes =
              AllShape-append cleared from (AllShape-get s.handles j from e k.shapes)
                (AllShape-set s.handles j empty (inr (inr refl)) k.shapes);
        };
        ended = λ x. omega (arith, same (holds x) refl);
        stays = λ x. omega arith;
      }

  -- A handle is released, and the handles are then `rest`, without it.
  Ended : PooledObject → List PooledObject → Type 0
  Ended o rest =
      Returned stock trivial s (
        release_handle trivial tc_size s.owner o
        >>= (λ owner. some (record { owner = owner; handles = rest })))
      ⊎ DestroysTwice trivial tc_size s.owner o

  released :
      (o : PooledObject) (rest : List PooledObject)
      → Shape o
      → AllShape rest
      → ((x : ℕ) → total (holds x) s.handles ≡ total (holds x) rest + holds x o)
      → ((a : ℕ) → total (points a) s.handles ≡ total (points a) rest + points a o)
      → Ended o rest
  unfolding Ended
  released o rest shape shapes held pointed =
      elim (release_handle_lem stock trivial tc_size s.owner o _ _ (λ x. total (holds x) rest)
        (λ a. total (points a) rest) shape k.ok held pointed) [
          | inl r ↦ inl (record {
            after = record { owner = r.after; handles = rest };
            result = rw r.result refl;
            ok = record { ok = r.ok; shapes = shapes };
            ended = λ x. omega (arith, held x, r.ends x);
            stays = r.stays;
          })
          | inr r ↦ inr r
        ]

  -- The end of a call: it returns, or it would run a destructor again.
  abbrev CallEnds : HandleCall → Option Handles → Type 0
  CallEnds c done = Returned stock trivial s done ⊎ ((done ≡ none) × Twice trivial s c)

  twice :
      (c : HandleCall) (o : PooledObject)
      → released_by s c ≡ some o
      → DestroysTwice trivial tc_size s.owner o
      → Twice trivial s c
  twice c o e d = record {
    not_trivial = d.not_trivial;
    o = o;
    x = d.x;
    of_call = e;
    own_node = d.own_node;
    dead = d.dead;
  }

  released_at :
      (i : ℕ) (found : Option PooledObject)
      → get_elem? s.handles i ≡ found
      → CallEnds (release_at i) (release_found trivial tc_size s i found)
  unfolding release_found Ended
  released_at i none e = inl unchanged
  released_at i (some o) e =
      let cleared = set s.handles i empty in
      elim (released o cleared (AllShape-get s.handles i o e k.shapes)
        (AllShape-set s.handles i empty (inr (inr refl)) k.shapes)
        (λ x. omega (arith, total-set (holds x) s.handles i o empty e))
        (λ a. omega (arith, total-set (points a) s.handles i o empty e))) [
          | inl r ↦ inl r
          | inr d ↦ inr (rw d.result refl, twice (release_at i) o e d)
        ]

  moved_to :
      (i j : ℕ) (to from : Option PooledObject)
      → get_elem? s.handles i ≡ to
      → get_elem? s.handles j ≡ from
      → CallEnds (move_to i j) (move_found trivial tc_size s i j to from)
  unfolding move_found move_assign Ended
  moved_to i j none from e f = inl unchanged
  moved_to i j (some to) none e f = inl unchanged
  moved_to i j (some to) (some from) e f =
      let hs = s.handles in
      let shape_to = AllShape-get hs i to e k.shapes in
      let shape_from = AllShape-get hs j from f k.shapes in
      elim (released to (set (set (set hs i from) j to) j empty) shape_to
        (AllShape-set (set (set hs i from) j to) j empty (inr (inr refl))
          (AllShape-set (set hs i from) j to shape_to (AllShape-set hs i from shape_from k.shapes)))
        (λ x. total-moved hs i j to from e f (holds x) refl)
        (λ a. total-moved hs i j to from e f (points a) refl)) [
          | inl r ↦ inl r
          | inr d ↦ inr (rw d.result refl, twice (move_to i j) to (rw f e) d)
        ]

  called : (c : HandleCall) → CallEnds c (call trivial tc_size s c)
  unfolding call
  called get_new = inl (call_get (get s.owner) (get_lem stock s.owner _ _ k.ok))
  called (move_new j) = inl (moved_new j (get_elem? s.handles j) refl)
  called (move_to i j) = moved_to i j (get_elem? s.handles i) (get_elem? s.handles j) refl refl
  called (release_at i) = released_at i (get_elem? s.handles i) refl

-- The calls go wrong at one of them, behind others that return.
pub record Faulty (stock : ℕ → ℕ) (trivial : Bool) (tc_size : ℕ) (s : Handles)
    (cs : List HandleCall) : Type 0 where
  pub before : List HandleCall
  pub c : HandleCall
  pub later : List HandleCall
  pub split : cs ≡ before ++ (c ∷ later)
  pub reached : Handles
  pub returned : call_all trivial tc_size s before ≡ some reached
  pub ok : HandlesOk stock reached
  pub result : call trivial tc_size reached c ≡ none
  pub twice : Twice trivial reached c

Faulty-cons :
    (stock : ℕ → ℕ) (trivial : Bool) (tc_size : ℕ) (s t : Handles) (c : HandleCall)
    (cs : List HandleCall)
    → call trivial tc_size s c ≡ some t
    → Faulty stock trivial tc_size t cs
    → Faulty stock trivial tc_size s (c ∷ cs)
unfolding call_all
Faulty-cons stock trivial tc_size s t c cs e f = record {
  before = c ∷ f.before;
  c = f.c;
  later = f.later;
  split = ap (λ l. c ∷ l) f.split;
  reached = f.reached;
  returned = rw e f.returned;
  ok = f.ok;
  result = f.result;
  twice = f.twice;
}

Returned-cons :
    (stock : ℕ → ℕ) (trivial : Bool) (s : Handles) (first last : Option Handles)
    → HandlesOk stock s
    → (one : Returned stock trivial s first) → Returned stock trivial one.after last
    → Returned stock trivial s last
Returned-cons stock trivial s first last k one rest = record {
  after = rest.after;
  result = rest.result;
  ok = rest.ok;
  ended = λ x. omega (arith, one.ended x, rest.ended x, rest.stays x, k.ok.nodes x, k.ok.once x);
  stays = λ x. omega (arith, one.stays x, rest.stays x);
}

-- Handles of a pool, each node of which is free or has one handle: whatever is done with them, by
-- getting new handles, moving them into new ones or into each other, themselves included, and
-- releasing them, also twice. Either every call returns; then again each node is free or has one
-- handle, and the object of each node that had a handle at first and has none any more is
-- destroyed, unless its destructor is trivial. Or the destructor is not trivial, and the calls go
-- wrong at the first one that releases a handle of a node whose object is destroyed already.
pub call_all-HandlesOk :
    (stock : ℕ → ℕ) (trivial : Bool) (tc_size : ℕ) (s : Handles) (cs : List HandleCall)
    → HandlesOk stock s
    → Returned stock trivial s (call_all trivial tc_size s cs)
      ⊎ ((call_all trivial tc_size s cs ≡ none) × Faulty stock trivial tc_size s cs)
unfolding call_all
call_all-HandlesOk stock trivial tc_size s [] k = inl (unchanged stock trivial tc_size s k)
call_all-HandlesOk stock trivial tc_size s (c ∷ cs) k = elim (called stock trivial tc_size s k c) [
  | inl one ↦ elim (call_all-HandlesOk stock trivial tc_size one.after cs one.ok) [
    | inl rest ↦ inl (rw one.result (Returned-cons stock trivial s _ _ k one rest))
    | inr (e, f) ↦
        inr (rw one.result e, Faulty-cons stock trivial tc_size s one.after c cs one.result f)
  ]
  | inr (e, t) ↦ inr (
    rw e refl,
    record {
      before = [];
      c = c;
      later = cs;
      split = refl;
      reached = s;
      returned = refl;
      ok = k;
      result = e;
      twice = t;
    },
  )
]
