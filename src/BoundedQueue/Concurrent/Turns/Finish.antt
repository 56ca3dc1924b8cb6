-- ===== src/BoundedQueue/Concurrent/Turns/Finish.antt =====
-- The callback, the exchange, the wake-up and the start of an operation keep the invariant of the
-- turns.
use wizard.Prelude.{
  ℕ, suc, ◌+◌, ◌%◌, ◌^◌, ◌<◌, ◌≡◌, ◌≢◌, inl, inr, refl, sym, ◌∙◌, ap, Bool, true, false, arith,
  length-set, get_elem?, set, get_or-set_self, get_or-set_ne, ◌==◌, if◌then◌else◌, ℕ_discrete,
}
use wizard.Prelude.Functions.{assign_at}
use wizard.BoundedQueue.{
  Kind, push, pop, slot_id, expected_version, is_tagged_version, advance_version,
}
use wizard.BoundedQueue.Concurrent.{
  Pc, idle, asleep, entered, called, waking, done, System, word, assign, move_to, call_back,
  publish, awake,
}
use wizard.BoundedQueue.Concurrent.Order.{turn, place, expected-eq-turn, same_operation}
use wizard.BoundedQueue.Concurrent.Turns.{finished, Fits, Fits-suc, Turns}
use wizard.BoundedQueue.Concurrent.Turns.Moves.{
  Same, assign-cases, move_to-Turns, same_shape-Turns, slot_eq, not_idle, Fits-at,
}
use wizard.Prelude.{Option-cases}

-- The exchange ends a turn of the slot.
unfoldable pub end_turn : (ℕ → ℕ) → ℕ → ℕ → ℕ
unfolding assign_at
end_turn version slot = assign_at version slot (suc (version slot))

pub end_turn_self : (version : ℕ → ℕ) (x y : ℕ) → x ≡ y → end_turn version x y ≡ suc (version y)
unfolding end_turn
end_turn_self version x y e = ground (arith, ap version e)

pub end_turn_other : (version : ℕ → ℕ) (x y : ℕ) → x ≢ y → end_turn version x y ≡ version y
unfolding end_turn
end_turn_other version x y ne = ground arith

Fits-awake : (b : Bool) (v t : ℕ) (p : Pc) → Fits v t p → Fits v t (awake b p)
unfolding awake
Fits-awake true v t (asleep w) h = h.0
Fits-awake false v t (asleep w) h = h
Fits-awake b v t p h = ground arith

awake-idle : (b : Bool) (p : Pc) → p ≡ idle → awake b p ≡ idle
unfolding awake
awake-idle b p e = rw e (ground arith)

finished-Fits : (v t : ℕ) (p : Pc) → finished p ≡ true → t < v → Fits v t p
finished-Fits v t waking e h = h
finished-Fits v t done e h = h
finished-Fits v t p e h = cc

pub awake_waking : (b : Bool) (p : Pc) → p ≡ waking → awake b p ≢ idle
unfolding awake
awake_waking b p e h = ground arith

module _ {ℓ} {T : Type ℓ} {bits : ℕ} {s : System T} {version : ℕ → ℕ}
    (inv : Turns bits s version) where
  pub call_back-Turns :
      (moved : T → T) (k : Kind) (i : ℕ)
      → s.pc k i ≡ entered
      → Turns bits (call_back moved s k i) version
  unfolding call_back
  call_back-Turns moved push i e =
      let started = not_idle inv push i entered e (λ h. cc (h)) in
      elim (Option-cases (s.pushed i)) [
        | inl unset ↦ rw unset (move_to-Turns inv push i called started (Fits-at inv push i e))
        | inr (v, given) ↦ rw given (
            move_to-Turns
              (same_shape-Turns inv (set s.queue.values (slot_id s.queue i) v)
                (length-set s.queue.values (slot_id s.queue i) v) s.popped)
              push i called started (Fits-at inv push i e))
      ]
  call_back-Turns moved pop i e =
      let started = not_idle inv pop i entered e (λ h. cc (h)) in
      elim (Option-cases (get_elem? s.queue.values (slot_id s.queue i))) [
        | inl out ↦ rw out (
            move_to-Turns (same_shape-Turns inv s.queue.values refl _) pop i called started
              (Fits-at inv pop i e))
        | inr (v, found) ↦ rw found (
            move_to-Turns
              (same_shape-Turns inv (set s.queue.values (slot_id s.queue i) (moved v))
                (length-set s.queue.values (slot_id s.queue i) (moved v)) _)
              pop i called started (Fits-at inv pop i e))
      ]

  -- Another operation on the slot is not in the turn that ends.
  pub other_turn :
      (k : Kind) (i : ℕ) (l : Kind) (j : ℕ)
      → s.pc k i ≡ called
      → ¬ Same k i l j
      → place bits i ≡ place bits j
      → turn bits l j ≢ version (place bits j)
  other_turn k i l j e other p t =
      let mine = Fits-at inv k i e in
      other (same_operation bits k l i j p (sym mine ∙ ap version p ∙ sym t))

  publish-Fits :
      (k : Kind) (i : ℕ)
      → s.pc k i ≡ called
      → (p : Pc) → finished p ≡ true
      → (l : Kind) (j : ℕ)
      → Fits
          (end_turn version (place bits i) (place bits j))
          (turn bits l j)
          (assign s.pc k i p l j)
  publish-Fits k i e p over l j = elim (assign-cases s.pc k i p l j) [
    | inl (same, e') ↦
        rw (e', ← same.0, ← same.1, end_turn_self version (place bits i) (place bits i) refl)
          (finished-Fits _ _ p over (omega (arith, Fits-at inv k i e)))
    | inr (other, e') ↦ elim (ℕ_discrete (place bits i) (place bits j)) [
      | yes p' ↦
          rw (e', end_turn_self version (place bits i) (place bits j) p')
            (Fits-suc _ _ _ (other_turn k i l j e other p') (inv.fits l j))
      | no ne ↦ rw (e', end_turn_other version (place bits i) (place bits j) ne) (inv.fits l j)
    ]
  ]

  -- The place after the exchange.
  abbrev pub leave : Kind → ℕ → Pc
  leave k i = if is_tagged_version (word s.queue (slot_id s.queue i)) then waking else done

  pub leave-finished : (k : Kind) (i : ℕ) → finished (leave k i) ≡ true
  leave-finished k i = ground arith

  publish-raw :
      (k : Kind) (i : ℕ)
      → s.pc k i ≡ called
      → (x : ℕ) → x < 2 ^ bits
      → word (advance_version (slot_id s.queue i) (expected_version s.queue k i + 1) s.queue) x
          % 2 ^ 16
        ≡ end_turn version (place bits i) x % 2 ^ 16
  unfolding advance_version
  publish-raw k i e x h = elim (ℕ_discrete (place bits i) x) [
    | yes p ↦
        rw
          (
            slot_eq inv,
            end_turn_self version (place bits i) x p,
            p,
            get_or-set_self s.queue.futexes x ((expected_version s.queue k i + 1) % 2 ^ 16) 0
                (rw inv.laid_out.futexes_len h),
          )
          (omega (arith, expected-eq-turn inv.laid_out k i, Fits-at inv k i e, ap version p))
    | no ne ↦
        rw
          (
            slot_eq inv,
            end_turn_other version (place bits i) x ne,
            get_or-set_ne s.queue.futexes (place bits i) x
                ((expected_version s.queue k i + 1) % 2 ^ 16) 0 ne,
          )
          (inv.raw x h)
  ]

  pub publish-Turns :
      (k : Kind) (i : ℕ)
      → s.pc k i ≡ called
      → Turns bits (publish s k i) (end_turn version (place bits i))
  unfolding publish move_to advance_version
  publish-Turns k i e = record {
    laid_out = record {
      bits_eq = inv.laid_out.bits_eq;
      bits_le = inv.laid_out.bits_le;
      capacity_eq = inv.laid_out.capacity_eq;
      futexes_len = length-set s.queue.futexes _ _ ∙ inv.laid_out.futexes_len;
      values_len = inv.laid_out.values_len;
    };
    raw = publish-raw k i e;
    fits = publish-Fits k i e (leave k i) (leave-finished k i);
    pushes_new = λ j h. elim (assign-cases s.pc k i (leave k i) push j) [
      | inl (same, e') ↦
          absurd
            (not_idle inv k i called e (λ q. cc (q)) (rw (same.0, same.1) (inv.pushes_new j h)))
      | inr (other, e') ↦ e' ∙ inv.pushes_new j h
    ];
    pops_new = λ j h. elim (assign-cases s.pc k i (leave k i) pop j) [
      | inl (same, e') ↦
          absurd (not_idle inv k i called e (λ q. cc (q)) (rw (same.0, same.1) (inv.pops_new j h)))
      | inr (other, e') ↦ e' ∙ inv.pops_new j h
    ];
  }

  pub wake-Turns :
      (slot : ℕ)
      → Turns bits (record s { pc = λ k i. awake (slot_id s.queue i == slot) (s.pc k i) }) version
  wake-Turns slot = record {
    laid_out = inv.laid_out;
    raw = inv.raw;
    fits = λ k i. Fits-awake (slot_id s.queue i == slot) _ _ (s.pc k i) (inv.fits k i);
    pushes_new = λ i h. awake-idle (slot_id s.queue i == slot) (s.pc push i) (inv.pushes_new i h);
    pops_new = λ i h. awake-idle (slot_id s.queue i == slot) (s.pc pop i) (inv.pops_new i h);
  }
