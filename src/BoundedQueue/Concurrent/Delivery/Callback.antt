-- ===== src/BoundedQueue/Concurrent/Delivery/Callback.antt =====
-- The callbacks keep the delivery invariant.
use wizard.Prelude.{
  ℕ, suc, ◌≡◌, ◌≢◌, inl, inr, refl, sym, ◌∙◌, ap, arith, List, Option, some, get_elem?, set,
}
use wizard.Prelude.Functions.{assign_at}
use wizard.BoundedQueue.{Kind, push, pop, slot_id}
use wizard.BoundedQueue.Concurrent.{entered, called, System, move_to, call_back}
use wizard.BoundedQueue.Concurrent.Order.{turn, place, place-lt, same_operation}
use wizard.BoundedQueue.Concurrent.Turns.{Turns}
use wizard.BoundedQueue.Concurrent.Turns.Moves.{Same, assign-cases, slot_eq, Fits-at}
use wizard.Prelude.{Option-cases}
use wizard.BoundedQueue.Concurrent.Delivery.{Holds, cell, Delivers}
use wizard.Prelude.{get_elem?-set_self, get_elem?-set_ne}
use wizard.BoundedQueue.Concurrent.Delivery.Writes.{
  move_to-Delivers, Holds-quiet, Holds-cell, Holds-push, Holds-pop,
}

pub turn_pop : (bits i : ℕ) → turn bits pop i ≡ suc (turn bits push i)
unfolding turn
turn_pop bits i = omega arith

module _ {ℓ} {T : Type ℓ} {bits : ℕ} {s : System T} {version : ℕ → ℕ} (inv : Turns bits s version)
    (del : Delivers bits s version) where
  -- An operation in its turn is alone on its slot.
  other_place :
      (k : Kind) (i : ℕ) (l : Kind) (j : ℕ)
      → version (place bits i) ≡ turn bits k i
      → version (place bits j) ≡ turn bits l j
      → ¬ Same k i l j
      → place bits i ≢ place bits j
  other_place k i l j mine theirs other p =
      other (same_operation bits k l i j p (sym mine ∙ ap version p ∙ theirs))

  cell_kept :
      (i j : ℕ) (v : T)
      → place bits i ≢ place bits j
      → get_elem? (set s.queue.values (slot_id s.queue i) v) (place bits j) ≡ cell bits s j
  cell_kept i j v ne = rw (slot_eq inv) (get_elem?-set_ne s.queue.values v ne)

  cell_set :
      (i : ℕ) (v : T) → get_elem? (set s.queue.values (slot_id s.queue i) v) (place bits i) ≡ some v
  cell_set i v = rw (slot_eq inv) (
      get_elem?-set_self s.queue.values (place bits i) v
        (rw inv.laid_out.values_len (place-lt bits i)))

  -- A write by an operation in its turn leaves the cells of the others alone.
  others_kept :
      (k : Kind) (i : ℕ) (v : T) (l : Kind) (j : ℕ)
      → s.pc k i ≡ entered
      → ¬ Same k i l j
      → Holds (cell bits s j) (s.pushed j) (s.popped j) l (s.pc l j)
      → Holds
          (get_elem? (set s.queue.values (slot_id s.queue i) v) (place bits j))
          (s.pushed j)
          (s.popped j)
          l
          (s.pc l j)
  others_kept k i v l j e other = Holds-cell _ _ _ _ l (s.pc l j) λ _ at_called.
      cell_kept i j v (other_place k i l j (Fits-at inv k i e) (Fits-at inv l j at_called) other)

  full_kept :
      (k : Kind) (i : ℕ) (v : T) (j : ℕ)
      → s.pc k i ≡ entered
      → ¬ Same k i pop j
      → version (place bits j) ≡ suc (turn bits push j)
      → get_elem? (set s.queue.values (slot_id s.queue i) v) (place bits j) ≡ cell bits s j
  full_kept k i v j e other h =
      cell_kept i j v (other_place k i pop j (Fits-at inv k i e) (h ∙ sym (turn_pop bits j)) other)

  call_back_push :
      (i : ℕ) (v : T)
      → s.pc push i ≡ entered
      → s.pushed i ≡ some v
      → Delivers bits
          (move_to
            (record s {
              queue = record s.queue { values = set s.queue.values (slot_id s.queue i) v };
            })
            push
            i
            called)
          version
  call_back_push i v e g =
      move_to-Delivers
        (record {
          full = λ j h n. full_kept push i v j e (λ q. cc (q.0)) h ∙ del.full j h n;
          holds = λ l j. elim (assign-cases s.pc push i called l j) [
            | inl (same, e') ↦ Holds-quiet _ _ _ l (s.pc l j) (rw (← same.0, ← same.1, e) refl)
            | inr (other, e') ↦ others_kept push i v l j e other (del.holds l j)
          ];
          given = del.given;
        })
        push i called (λ q. cc (e, q)) (λ q. cc (e, q)) (cell_set i v ∙ sym g)

  -- Elsewhere than at `i` the popped values stay.
  popped_kept : (i j : ℕ) (found : Option T) → ¬ (i ≡ j) → assign_at s.popped i found j ≡ s.popped j
  unfolding assign_at
  popped_kept i j found ne = ground arith

  popped_set : (i : ℕ) (found : Option T) → assign_at s.popped i found i ≡ found
  unfolding assign_at
  popped_set i found = ground arith

  take_others :
      (i : ℕ) (values : List T) (l : Kind) (j : ℕ)
      → s.pc pop i ≡ entered
      → ((j : ℕ) → place bits i ≢ place bits j → get_elem? values (place bits j) ≡ cell bits s j)
      → ¬ Same pop i l j
      → Holds (cell bits s j) (s.pushed j) (s.popped j) l (s.pc l j)
      → Holds
          (get_elem? values (place bits j))
          (s.pushed j)
          (assign_at s.popped i (get_elem? s.queue.values (slot_id s.queue i)) j)
          l
          (s.pc l j)
  take_others i values push j e kept other =
      Holds-push (cell bits s j) _ _ (s.popped j)
        (assign_at s.popped i (get_elem? s.queue.values (slot_id s.queue i)) j) (s.pc push j)
        λ at_called.
          kept j
            (other_place pop i push j (Fits-at inv pop i e) (Fits-at inv push j at_called) other)
  take_others i values pop j e kept other =
      Holds-pop (cell bits s j) (get_elem? values (place bits j)) _ _ _ _ (s.pc pop j)
        λ _. (refl, sym (popped_kept i j _ (λ q. other (refl, q))))

  take_with :
      (i : ℕ) (values : List T)
      → s.pc pop i ≡ entered
      → ((j : ℕ) → place bits i ≢ place bits j → get_elem? values (place bits j) ≡ cell bits s j)
      → Delivers bits
          (move_to
            (record s {
              queue = record s.queue { values = values };
              popped = assign_at s.popped i (get_elem? s.queue.values (slot_id s.queue i));
            })
            pop
            i
            called)
          version
  unfolding move_to
  take_with i values e kept =
      let mine = Fits-at inv pop i e in
      let apart = other_place pop i in
      let found : get_elem? s.queue.values (slot_id s.queue i) ≡ s.pushed i =
        rw (slot_eq inv) (del.full i (mine ∙ turn_pop bits i) (λ q. cc (e, q))) in
      record {
        full = λ j h n. elim (assign-cases s.pc pop i called pop j) [
          | inl (same, e') ↦ absurd (n e')
          | inr (other, e') ↦
              kept j (apart pop j mine (h ∙ sym (turn_pop bits j)) other)
              ∙ del.full j h (λ q. n (e' ∙ q))
        ];
        holds = λ l j. elim (assign-cases s.pc pop i called l j) [
          | inl (same, e') ↦ rw (e', ← same.0, ← same.1) (popped_set i _ ∙ found)
          | inr (other, e') ↦ rw e' (take_others i values l j e kept other (del.holds l j))
        ];
        given = λ j h. del.given j (elim (assign-cases s.pc pop i called push j) [
          | inl (same, e') ↦ cc (same.0)
          | inr (other, e') ↦ λ q. h (e' ∙ q)
        ]);
      }

  pub call_back-Delivers :
      (moved : T → T) (k : Kind) (i : ℕ)
      → s.pc k i ≡ entered
      → Delivers bits (call_back moved s k i) version
  unfolding call_back
  call_back-Delivers moved push i e = elim (Option-cases (s.pushed i)) [
    | inl unset ↦ absurd (del.given i (λ q. cc (e, q)) unset)
    | inr (v, given) ↦ rw given (call_back_push i v e given)
  ]
  call_back-Delivers moved pop i e =
      elim (Option-cases (get_elem? s.queue.values (slot_id s.queue i))) [
        | inl out ↦ rw (out, ← out) (take_with i s.queue.values e (λ j ne. refl))
        | inr (v, found) ↦
            rw (found, ← found)
              (take_with i (set s.queue.values (slot_id s.queue i) (moved v)) e
                (λ j ne. cell_kept i j (moved v) ne))
      ]
