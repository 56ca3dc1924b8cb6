-- ===== src/Hazptr/Tests.antt =====
-- src/concurrent/hazptr.hpp: schedules that run.
use wizard.Prelude.{
  ℕ, ◌+◌, ◌≡◌, ◌≢◌, refl, true, false, none, some, List, [], ◌∷◌, get_elem?, ◌++◌, suc,
}
use wizard.Prelude.Functions.{assign_at}
use wizard.Hazptr.{
  free, linked, retired, destroy_private, Shared, Event, HolderCall, ReclaimerCall, holder,
  reclaimer, allocate, replace, System, exec, initial, step, call_holder, run_holder,
  call_reclaimer, run_reclaimer, run_pc, push_all, reached_threshold, not_enough, store_realptr,
  store_active, load_active, modify, same_pointer, contains, first, behind, is_unlinked,
  allocate_at, unlink, link, replace_source,
}
use wizard.Hazptr.HolderCall.{construct, get_protected}
use wizard.Hazptr.ReclaimerCall.{retire}
use wizard.Hazptr.ReclaimerPc.{ready, taking}
use wizard.Prelude.Sums.{total, count}
use wizard.Hazptr.Owns.{owns, activity, keeps, owed, in_use}
use wizard.Hazptr.Invariant.{realptr_at}
use wizard.Hazptr.Safety.{get_protected-in_use, exec-kept, exec-links}
use wizard.Hazptr.Alone.{run_alone, bulk_reclaim-alone}
use wizard.Hazptr.Exit.{destroy_manager, destroy_manager-retired}

abbrev go_on : Event
go_on = holder 0 (HolderCall.run false)

abbrev work : Event
work = reclaimer 0 (ReclaimerCall.run false)

-- The holder gets a new record and protects object 7, which source 0 points to.
abbrev reading : List Event
reading =
    allocate 7
    ∷ replace 0 (some 7)
    ∷ holder 0 construct
    ∷ go_on
    ∷ go_on
    ∷ go_on
    ∷ holder 0 (get_protected 0)
    ∷ go_on
    ∷ go_on
    ∷ []

-- Objects 1 to 4 are retired, and object 7 last, which starts the
-- reclaiming.
abbrev removal : List Event
removal =
    allocate 1
    ∷ replace 1 (some 1)
    ∷ replace 1 none
    ∷ reclaimer 0 (retire 1)
    ∷ work
    ∷ allocate 2
    ∷ replace 1 (some 2)
    ∷ replace 1 none
    ∷ reclaimer 0 (retire 2)
    ∷ work
    ∷ allocate 3
    ∷ replace 1 (some 3)
    ∷ replace 1 none
    ∷ reclaimer 0 (retire 3)
    ∷ work
    ∷ allocate 4
    ∷ replace 1 (some 4)
    ∷ replace 1 none
    ∷ reclaimer 0 (retire 4)
    ∷ work
    ∷ replace 0 none
    ∷ reclaimer 0 (retire 7)
    ∷ work
    ∷ work
    ∷ work
    ∷ work
    ∷ work
    ∷ work
    ∷ work
    ∷ work
    ∷ work
    ∷ work
    ∷ work
    ∷ work
    ∷ work
    ∷ work
    ∷ work
    ∷ work
    ∷ work
    ∷ work
    ∷ work
    ∷ work
    ∷ work
    ∷ []

abbrev read : System
read = exec (initial 1 1) reading

abbrev removed : System
removed = exec (exec (initial 1 1) reading) removal

removed-phases :
    (removed.shared.phase 7 ≡ retired)
    × (removed.shared.phase 1 ≡ free)
    × (removed.shared.phase 4 ≡ free)
    × (removed.shared.retired_list ≡ 7 ∷ [])
    × (removed.shared.retired_count ≡ 1)
unfolding exec step call_holder run_holder call_reclaimer run_reclaimer run_pc push_all
    reached_threshold not_enough store_realptr store_active load_active modify same_pointer contains
    first assign_at behind is_unlinked allocate_at unlink link replace_source initial
removed-phases = (refl, refl, refl, refl, refl)

get_protected-in_use_example :
    (realptr_at removed.shared 0 ≡ some 7) × (in_use (removed.shared.phase 7) ≡ true)
unfolding exec step call_holder run_holder call_reclaimer run_reclaimer run_pc push_all
    reached_threshold not_enough store_realptr store_active load_active modify same_pointer contains
    first assign_at behind is_unlinked allocate_at unlink link replace_source initial
get_protected-in_use_example = get_protected-in_use 1 1 reading removal 0 0 7 refl tt

exec-kept_example :
    total (keeps 7) removed.reclaimers + count 7 removed.shared.retired_list
    ≡ owed (removed.shared.phase 7)
unfolding exec step call_holder run_holder call_reclaimer run_reclaimer run_pc push_all
    reached_threshold not_enough store_realptr store_active load_active modify same_pointer contains
    first assign_at behind is_unlinked allocate_at unlink link replace_source initial
exec-kept_example = exec-kept 1 1 (reading ++ removal) 7

exec-links_example :
    ((src p : ℕ) → read.shared.sources src ≡ some p → read.shared.phase p ≡ linked src)
    × ((k : ℕ) → total (owns k) read.holders ≡ activity (get_elem? read.shared.records k))
exec-links_example = exec-links 1 1 reading

-- The record points to the second of three retired objects.
abbrev shared : Shared
shared = record {
  sources = λ src. none;
  records =
      record { active = true; realptr = some 2 } ∷ record { active = false; realptr = none } ∷ [];
  hazptr_count = 2;
  retired_list = 3 ∷ 2 ∷ 1 ∷ [];
  retired_count = 0;
  phase = λ p. retired;
}

bulk_reclaim-alone_example : run_alone (2 + (suc 2 + (3 + 4))) shared taking ≡ (
  record shared {
    retired_list = 2 ∷ [];
    retired_count = 1;
    phase = assign_at (assign_at (λ p. retired) 3 free) 1 free;
  },
  ready,
)
unfolding same_pointer
bulk_reclaim-alone_example = bulk_reclaim-alone shared

-- The only thread retires object 3 and ends.
abbrev ending : List Event
ending =
    allocate 3
    ∷ replace 1 (some 3)
    ∷ replace 1 none
    ∷ reclaimer 0 (retire 3)
    ∷ work
    ∷ reclaimer 0 ReclaimerCall.destroy
    ∷ work
    ∷ work
    ∷ work
    ∷ work
    ∷ work
    ∷ []

abbrev ended : System
ended = exec (initial 0 1) ending

ended-phase : (ended.shared.phase 3 ≡ retired) × (ended.shared.retired_list ≡ 3 ∷ [])
unfolding exec step call_reclaimer run_reclaimer run_pc push_all destroy_private reached_threshold
    not_enough same_pointer first assign_at behind is_unlinked allocate_at unlink link
    replace_source initial
ended-phase = (refl, refl)

destroy_manager-retired_example :
    (count 3 ended.shared.retired_list ≡ owed (ended.shared.phase 3))
    × (ended.shared.phase 3 ≡ retired → (destroy_manager ended.shared).phase 3 ≡ free)
    × (ended.shared.phase 3 ≢ retired
        → (destroy_manager ended.shared).phase 3 ≡ ended.shared.phase 3)
unfolding exec step call_reclaimer run_reclaimer run_pc push_all destroy_private reached_threshold
    not_enough same_pointer first assign_at behind is_unlinked allocate_at unlink link
    replace_source initial
destroy_manager-retired_example =
    destroy_manager-retired 0 1 ending 3 (record { no_list = refl; no_call = refl }, tt)
