-- ===== src/Hazptr.antt =====
-- src/concurrent/hazptr.h, src/concurrent/hazptr.hpp: hazard pointers, with
-- `USE_THREAD_LOCAL_CACHE` off as by default. Every access to shared memory is a step of its
-- own, and a schedule is a list of events.
--
-- Objects and sources (the `std::atomic<T*>` that readers read) are numbers. The list of
-- records only grows in front: record k has the record k - 1 behind it, and the list is given
-- by how many there are. A list of retired objects, linked by `next`, is the list of its
-- objects. The counters are taken to fit an `int`. A thread that holds several `HazptrHolder`s
-- is several holders here; a thread's `HazptrPrivate` is a reclaimer, and a `retire` from
-- within a destructor counts as one of another reclaimer.
pub mod Owns
pub mod Invariant
pub mod Stores
pub mod Holders
pub mod Batches
pub mod Reclaimers
pub mod Users
pub mod Safety
pub mod Alone
pub mod Exit
mod Tests
use wizard.Prelude.{
  ℕ, zero, suc, ◌+◌, ◌*◌, Bool, true, false, ◌&&◌, ◌||◌, not, Option, none, some, List, [], ◌∷◌,
  ◌++◌, ◌==◌, ltb, leb, if◌then◌else◌, length, get_elem?, set, replicate,
}
use wizard.Prelude.Functions.{assign_at}

pub record HazptrRecord : Type 0 where
  pub active : Bool
  pub realptr : Option ℕ

-- The life of an object: its user allocates it, links it into one source, unlinks it there and
-- retires it once.
pub data Phase : Type 0 where
  free : Phase
  fresh : Phase
  linked : ℕ → Phase
  unlinked : Phase
  retired : Phase

pub record Shared : Type 0 where
  pub sources : ℕ → Option ℕ
  pub records : List HazptrRecord
  pub hazptr_count : ℕ
  pub retired_list : List ℕ
  pub retired_count : ℕ
  pub phase : ℕ → Phase

-- Where a `HazptrHolder` stands, with its record once it has one.
pub data Holder : Type 0 where
  outside : Holder
  walking : ℕ → Holder  -- in the loop of `acquire_record`, with so many records ahead
  claiming : ℕ → Holder  -- the record is not active; before the compare-exchange
  creating : ℕ → Holder  -- a new record whose `next` is a list of so many records
  counting : ℕ → Holder  -- before `_hazptr_count.fetch_add`
  idle : ℕ → Holder
  loaded : ℕ → ℕ → Option ℕ → Holder  -- source and pointer; before the store to `realptr`
  stored : ℕ → ℕ → Option ℕ → Holder  -- before the second load
  failed : ℕ → ℕ → Option ℕ → Holder  -- before the store of null, with the latest pointer
  protecting : ℕ → Option ℕ → Holder  -- `get_protected` has returned the pointer
  leaving : ℕ → Holder  -- in the destructor, behind `clear`

pub data HolderCall : Type 0 where
  construct : HolderCall
  get_protected : ℕ → HolderCall
  reset : Option ℕ → HolderCall
  destroy : HolderCall
  run : Bool → HolderCall  -- the next step; whether a weak compare-exchange fails without cause

-- What follows a call of `append`.
pub data After : Type 0 where
  try_bulk_reclaim : After
  return : After

pub data ReclaimerPc : Type 0 where
  ready : ReclaimerPc
  pushed : ReclaimerPc  -- in `push`, before `reached_threshold`
  joining : After → List ℕ → ReclaimerPc  -- in `append`, before the load of the list
  appending : After → List ℕ → Option ℕ → ReclaimerPc  -- `tail->next` is the expected head
  adding : After → ℕ → ReclaimerPc  -- before `_retired_count.fetch_add`
  trying : ReclaimerPc  -- in `tryBulkReclaim`, before the load of `_retired_count`
  testing : ℕ → ReclaimerPc  -- before the load of `_hazptr_count`
  zeroing : ℕ → ReclaimerPc  -- before the compare-exchange of `_retired_count`
  taking : ReclaimerPc  -- in `bulkReclaim`, before the exchange
  taken : List ℕ → ReclaimerPc  -- before the load of `_hazptr_list`
  scanning : List ℕ → ℕ → List (Option ℕ) → ReclaimerPc  -- so many records ahead, and the set
  deleting : List ℕ → List (Option ℕ) → List ℕ → ReclaimerPc  -- the set and `left_list`

pub record Reclaimer : Type 0 where
  pub priv_list : List ℕ
  pub pc : ReclaimerPc

pub data ReclaimerCall : Type 0 where
  retire : ℕ → ReclaimerCall
  destroy : ReclaimerCall  -- the thread ends
  run : Bool → ReclaimerCall

pub record System : Type 0 where
  pub shared : Shared
  pub holders : List Holder
  pub reclaimers : List Reclaimer

pub data Event : Type 0 where
  holder : ℕ → HolderCall → Event
  reclaimer : ℕ → ReclaimerCall → Event
  allocate : ℕ → Event
  replace : ℕ → Option ℕ → Event  -- a source gets a fresh object, or null

unfoldable pub same_pointer : Option ℕ → Option ℕ → Bool
same_pointer none none = true
same_pointer (some p) (some q) = p == q
same_pointer _ _ = false

unfoldable pub contains : List (Option ℕ) → ℕ → Bool
contains [] p = false
contains (q ∷ qs) p = same_pointer q (some p) || contains qs p

unfoldable pub first : List ℕ → Option ℕ
first [] = none
first (p ∷ ps) = some p

-- A list changed at one place.
unfoldable pub modify {ℓ} : {A : Type ℓ} → (A → A) → List A → ℕ → List A
modify f [] i = []
modify f (x ∷ xs) zero = f x ∷ xs
modify f (x ∷ xs) (suc i) = x ∷ modify f xs i

-- `realptr.store`
unfoldable pub store_realptr : Shared → ℕ → Option ℕ → Shared
store_realptr s r p = record s {
  records = modify (λ (rec : HazptrRecord). record rec { realptr = p }) s.records r;
}

-- `active.store`
unfoldable pub store_active : Shared → ℕ → Bool → Shared
store_active s r active = record s {
  records = modify (λ (rec : HazptrRecord). record rec { active = active }) s.records r;
}

abbrev pub active_of : Option HazptrRecord → Bool
active_of none = true
active_of (some rec) = rec.active

-- `active.load`
unfoldable pub load_active : Shared → ℕ → Bool
load_active s r = active_of (get_elem? s.records r)

-- `try_protect`, again and again as `get_protected` calls it, one access after another.
abbrev pub try_protect : Shared → Holder → Shared × Holder
try_protect s (loaded r src p) = (store_realptr s r p, stored r src p)
try_protect s (stored r src p) =
    (s, if same_pointer p (s.sources src) then protecting r p else failed r src (s.sources src))
try_protect s (failed r src p) = (store_realptr s r none, loaded r src p)
try_protect s h = (s, h)

-- `acquire_record`, `release_record` and `get_protected`, one access after another.
unfoldable pub run_holder : Shared → Holder → Bool → Shared × Holder
run_holder s (walking zero) fails = (s, creating (length s.records))
run_holder s (walking (suc k)) fails = (s, if load_active s k then walking k else claiming k)
run_holder s (claiming k) fails =
    if load_active s k then (s, walking k) else (store_active s k true, idle k)
run_holder s (creating n) fails =
    if not fails && (n == length s.records)
    then (
      record s { records = s.records ++ (record { active = true; realptr = none } ∷ []) },
      counting n,
    )
    else (s, creating (length s.records))
run_holder s (counting r) fails = (record s { hazptr_count = s.hazptr_count + 1 }, idle r)
run_holder s (leaving r) fails = (store_active s r false, outside)
run_holder s h fails = try_protect s h

unfoldable pub call_holder : Shared → Holder → HolderCall → Shared × Holder
call_holder s outside construct = (s, walking (length s.records))
call_holder s (idle r) (get_protected src) = (s, loaded r src (s.sources src))
call_holder s (protecting r p) (get_protected src) = (s, loaded r src (s.sources src))
call_holder s (idle r) (reset q) = (store_realptr s r q, idle r)
call_holder s (protecting r p) (reset q) = (store_realptr s r q, idle r)
call_holder s (idle r) destroy = (store_realptr s r none, leaving r)
call_holder s (protecting r p) destroy = (store_realptr s r none, leaving r)
call_holder s h (run fails) = run_holder s h fails
call_holder s h _ = (s, h)

-- `reached_threshold`, and the same test in `tryBulkReclaim`: 5 is `HAZPTR_SCAN_THRESHOLD`, 2
-- is `HAZPTR_SCAN_MULT`.
unfoldable pub reached_threshold : ℕ → ℕ → Bool
reached_threshold retire_cnt hazptr_cnt = leb 5 retire_cnt && leb (2 * hazptr_cnt) retire_cnt

-- The test of `tryBulkReclaim`.
unfoldable pub not_enough : ℕ → ℕ → Bool
not_enough retire_cnt hazptr_cnt = ltb retire_cnt 5 || ltb retire_cnt (2 * hazptr_cnt)

-- `set.insert(h->realptr)`
abbrev pub see : Option HazptrRecord → List (Option ℕ) → List (Option ℕ)
see none seen = seen
see (some rec) seen = rec.realptr ∷ seen

unfoldable pub behind : After → ReclaimerPc
behind try_bulk_reclaim = trying
behind return = ready

unfoldable pub is_unlinked : Phase → Bool
is_unlinked unlinked = true
is_unlinked _ = false

-- `append`, `tryBulkReclaim` and `bulkReclaim`, one access after another.
unfoldable pub run_pc : Shared → ReclaimerPc → Bool → Shared × ReclaimerPc
run_pc s (joining next batch) fails = (s, appending next batch (first s.retired_list))
run_pc s (appending next batch expected) fails =
    if not fails && same_pointer expected (first s.retired_list)
    then (record s { retired_list = batch ++ s.retired_list }, adding next (length batch))
    else (s, appending next batch (first s.retired_list))
run_pc s (adding next n) fails = (record s { retired_count = s.retired_count + n }, behind next)
run_pc s trying fails = (s, testing s.retired_count)
run_pc s (testing n) fails = (s, if not_enough n s.hazptr_count then ready else zeroing n)
run_pc s (zeroing n) fails =
    if not fails && (n == s.retired_count)
    then (record s { retired_count = 0 }, taking)
    else (s, testing s.retired_count)
run_pc s taking fails = (record s { retired_list = [] }, taken s.retired_list)
run_pc s (taken batch) fails = (s, scanning batch (length s.records) [])
run_pc s (scanning batch zero seen) fails = (s, deleting batch seen [])
run_pc s (scanning batch (suc k) seen) fails =
    (s, scanning batch k (see (get_elem? s.records k) seen))
run_pc s (deleting (p ∷ batch) seen left) fails =
    if contains seen p
    then (s, deleting batch seen (left ++ (p ∷ [])))
    else (record s { phase = assign_at s.phase p free }, deleting batch seen left)
run_pc s (deleting [] seen []) fails = (s, ready)
run_pc s (deleting [] seen (p ∷ left)) fails = (s, joining return (p ∷ left))
run_pc s pc fails = (s, pc)

-- `push` behind its append to the private list.
unfoldable pub push_all : Shared → List ℕ → Reclaimer
push_all s priv_list =
    if reached_threshold (length priv_list) s.hazptr_count
    then record { priv_list = []; pc = joining try_bulk_reclaim priv_list }
    else record { priv_list = priv_list; pc = ready }

unfoldable pub run_reclaimer : Shared → List ℕ → ReclaimerPc → Bool → Shared × Reclaimer
run_reclaimer s priv_list pushed fails = (s, push_all s priv_list)
run_reclaimer s priv_list pc fails =
    let ran = run_pc s pc fails in (ran.0, record { priv_list = priv_list; pc = ran.1 })

-- The destructor of `HazptrPrivate`.
unfoldable pub destroy_private : List ℕ → Reclaimer
destroy_private priv_list =
    if ltb 0 (length priv_list)
    then record { priv_list = []; pc = joining try_bulk_reclaim priv_list }
    else record { priv_list = priv_list; pc = ready }

-- `retire` of an object that its user has unlinked and not retired yet.
unfoldable pub call_reclaimer : Shared → List ℕ → ReclaimerPc → ReclaimerCall → Shared × Reclaimer
call_reclaimer s priv_list ready (retire p) =
    if is_unlinked (s.phase p)
    then (
      record s { phase = assign_at s.phase p retired },
      record { priv_list = priv_list ++ (p ∷ []); pc = pushed },
    )
    else (s, record { priv_list = priv_list; pc = ready })
call_reclaimer s priv_list ready destroy = (s, destroy_private priv_list)
call_reclaimer s priv_list pc (run fails) = run_reclaimer s priv_list pc fails
call_reclaimer s priv_list pc _ = (s, record { priv_list = priv_list; pc = pc })

-- The users' steps.
unfoldable pub allocate_at : Shared → ℕ → Phase → Shared
allocate_at s p free = record s { phase = assign_at s.phase p fresh }
allocate_at s p _ = s

unfoldable pub unlink : (ℕ → Phase) → Option ℕ → ℕ → Phase
unlink phase none = phase
unlink phase (some q) = assign_at phase q unlinked

unfoldable pub link : Shared → ℕ → ℕ → Phase → Shared
link s src p fresh = record s {
  sources = assign_at s.sources src (some p);
  phase = assign_at (unlink s.phase (s.sources src)) p (linked src);
}
link s src p _ = s

unfoldable pub replace_source : Shared → ℕ → Option ℕ → Shared
replace_source s src none = record s {
  sources = assign_at s.sources src none;
  phase = unlink s.phase (s.sources src);
}
replace_source s src (some p) = link s src p (s.phase p)

abbrev pub step_holder : System → ℕ → HolderCall → Option Holder → System
step_holder s h call none = s
step_holder s h call (some pc) =
    let done = call_holder s.shared pc call in
    record s { shared = done.0; holders = set s.holders h (done.1) }

abbrev pub step_reclaimer : System → ℕ → ReclaimerCall → Option Reclaimer → System
step_reclaimer s t call none = s
step_reclaimer s t call (some r) =
    let done = call_reclaimer s.shared r.priv_list r.pc call in
    record s { shared = done.0; reclaimers = set s.reclaimers t (done.1) }

unfoldable pub step : System → Event → System
step s (holder h call) = step_holder s h call (get_elem? s.holders h)
step s (reclaimer t call) = step_reclaimer s t call (get_elem? s.reclaimers t)
step s (allocate p) = record s { shared = allocate_at s.shared p (s.shared.phase p) }
step s (replace src p) = record s { shared = replace_source s.shared src p }

unfoldable pub exec : System → List Event → System
exec s [] = s
exec s (e ∷ es) = exec (step s e) es

-- No record, no object, and so many holders and reclaimers.
unfoldable pub initial : ℕ → ℕ → System
initial holders reclaimers = record {
  shared = record {
    sources = λ src. none;
    records = [];
    hazptr_count = 0;
    retired_list = [];
    retired_count = 0;
    phase = λ p. free;
  };
  holders = replicate holders outside;
  reclaimers = replicate reclaimers (record { priv_list = []; pc = ready });
}
