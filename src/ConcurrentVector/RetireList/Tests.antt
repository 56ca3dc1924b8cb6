-- ===== src/ConcurrentVector/RetireList/Tests.antt =====
-- `RetireList` of src/concurrent/vector.h: schedules that run.
use wizard.Prelude.{ℕ, ◌+◌, ◌%◌, ◌^◌, ◌≡◌, ◌⊎◌, ◌↔◌, refl, false, List, [], ◌∷◌, arith}
use wizard.Prelude.Sums.{total, count}
use wizard.ConcurrentVector.RetireList.{
  make_tagged_ptr, get_tag, get_current_timestamp, expire, first_address, head_word, Event, retire,
  go_on, delete_table, after_gc, run_call, step, exec, initial,
}
use wizard.ConcurrentVector.RetireList.Kept.{tables_of, holds, retired-count}
use wizard.ConcurrentVector.RetireList.Expiry.{expire_iff}

-- Table 5 is retired at second 63, table 6 at second 64.
abbrev two_units : List Event
two_units =
    retire 0 100 5 63
    ∷ go_on 0 false
    ∷ go_on 0 false
    ∷ go_on 0 false
    ∷ retire 0 200 6 64
    ∷ go_on 0 false
    ∷ go_on 0 false
    ∷ go_on 0 false
    ∷ go_on 0 false
    ∷ go_on 0 false
    ∷ go_on 0 false
    ∷ []

-- A second later, table 5 is freed.
freed_early : (exec (initial 1) two_units).list.deleted ≡ 5 ∷ []
unfolding exec step initial run_call expire head_word first_address make_tagged_ptr get_tag
    get_current_timestamp delete_table after_gc
freed_early = refl

retired-count_example :
    total (holds 5) (exec (initial 1) two_units).calls
      + (count 5 (tables_of (exec (initial 1) two_units).list.nodes)
          + count 5 (exec (initial 1) two_units).list.deleted)
    ≡ count 5 (exec (initial 1) two_units).retired
retired-count_example = retired-count 1 two_units 5 (λ e. omega (arith, e))

expire_iff_example :
    (expire (make_tagged_ptr 100 7) 8 ≡ false) ↔ ((◌≡◌ {A = ℕ} 8 7) ⊎ ((8 + 1) % 2 ^ 16 ≡ 7))
expire_iff_example = expire_iff 100 7 8 (omega arith) (omega arith) (omega arith)
