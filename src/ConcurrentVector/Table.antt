-- ===== src/ConcurrentVector/Table.antt =====
-- `ConcurrentVector::ensure_table` of src/concurrent/vector.h, called by any number of threads.
--
-- Tables and shards are numbers that are not used again, and a retired table is taken to stay
-- readable as long as a call uses it; RetireList has when it is freed. A table is the list of
-- its shards. What a round of the loop does between two compare-exchanges of `_table` only its
-- own thread sees, so it is one step with the compare-exchange.
pub mod Growth
pub mod Lost
use wizard.Prelude.{
  ℕ, zero, suc, ◌+◌, ◌-◌, Bool, true, false, Option, none, some, List, [], ◌∷◌, ◌++◌, ◌==◌, ltb,
  leb, if◌then◌else◌, length, get_elem?, set, take, replicate,
}
use wizard.Prelude.Functions.{assign_at}

pub record Vector : Type 0 where
  pub tables : ℕ → List ℕ
  pub table : ℕ
  pub next_table : ℕ
  pub next_shard : ℕ
  pub retired : List ℕ

-- A call of `ensure_table`, with the number of shards that it is asked for.
pub data Call : Type 0 where
  outside : Call
  growing : ℕ → ℕ → ℕ → Call  -- `old_table`, `old_shard_num`, `shard_num`
  returned : ℕ → ℕ → Call  -- `shard_num` and the table

pub data Event : Type 0 where
  ensure_table : ℕ → ℕ → Event  -- by a thread: the load of `_table`
  compare_exchange : ℕ → Event

pub record System : Type 0 where
  pub vector : Vector
  pub calls : List Call

unfoldable pub current : Vector → List ℕ
current v = v.tables v.table

-- So many calls of `create_shard`.
unfoldable pub create_shards : ℕ → ℕ → List ℕ
create_shards zero next = []
create_shards (suc k) next = next ∷ create_shards k (next + 1)

-- The new table: the shards of the old one are copied, then all from `old_shard_num` on are new.
unfoldable pub fill_table : List ℕ → ℕ → ℕ → ℕ → List ℕ
fill_table old old_shard_num shard_num next =
    take old_shard_num old ++ create_shards (shard_num - old_shard_num) next

unfoldable pub load_table : Vector → ℕ → Call
load_table v shard_num =
    if leb shard_num (length (current v))
    then returned shard_num v.table
    else growing v.table (length (current v)) shard_num

-- The compare-exchange succeeds.
unfoldable pub publish_table : Vector → ℕ → ℕ → ℕ → Vector
publish_table v old old_shard_num shard_num = record {
  tables =
      assign_at v.tables v.next_table
        (fill_table (v.tables old) old_shard_num shard_num v.next_shard);
  table = v.next_table;
  next_table = v.next_table + 1;
  next_shard = v.next_shard + (shard_num - old_shard_num);
  retired = old ∷ v.retired;
}

-- One round of the loop, and what follows the compare-exchange.
unfoldable pub round_of : Vector → Call → Vector × Call
round_of v (growing old old_shard_num shard_num) =
    if v.table == old
    then (publish_table v old old_shard_num shard_num, returned shard_num v.next_table)
    else (
      record v { next_shard = v.next_shard + (shard_num - old_shard_num) },
      if ltb shard_num (length (current v))
          then returned shard_num v.table
          else growing v.table old_shard_num shard_num,
    )
round_of v call = (v, call)

abbrev pub go_on : System → ℕ → Option Call → System
go_on s i none = s
go_on s i (some call) =
    let done = round_of s.vector call in
    record s { vector = done.0; calls = set s.calls i (done.1) }

-- A thread has one call at a time.
abbrev pub start_call : System → ℕ → ℕ → Option Call → System
start_call s i shard_num none = s
start_call s i shard_num (some (growing old old_shard_num wanted)) = s
start_call s i shard_num _ = record s { calls = set s.calls i (load_table s.vector shard_num) }

unfoldable pub step : System → Event → System
step s (ensure_table i shard_num) = start_call s i shard_num (get_elem? s.calls i)
step s (compare_exchange i) = go_on s i (get_elem? s.calls i)

unfoldable pub exec : System → List Event → System
exec s [] = s
exec s (e ∷ es) = exec (step s e) es

-- A new vector, whose table is `EMPTY_TABLE`, and so many threads.
unfoldable pub initial : ℕ → System
initial threads = record {
  vector = record { tables = λ t. []; table = 0; next_table = 1; next_shard = 0; retired = [] };
  calls = replicate threads outside;
}
