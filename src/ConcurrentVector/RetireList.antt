-- ===== src/ConcurrentVector/RetireList.antt =====
-- `RetireList` of src/concurrent/vector.h with its tagged pointers, used by any number of threads.
-- Every access to `_head` is a step of its own, and a schedule is a list of events.
--
-- The nodes that are linked from the head on are a list. A node's address is below 2^48, and
-- the operator `new` chooses it. The time is given in seconds. Tables are numbers; 0 is
-- `EMPTY_TABLE`, which is never freed.
pub mod Kept
pub mod Expiry
mod Tests
use Prim.Native.Nat.{bit_and, bit_or}
use wizard.Prelude.{
  ℕ, zero, suc, ◌+◌, ◌-◌, ◌*◌, ◌/◌, ◌%◌, ◌^◌, Bool, true, false, ◌&&◌, not, Option, none, some,
  List, [], ◌∷◌, ◌==◌, ltb, if◌then◌else◌, get_elem?, set, replicate,
}

unfoldable pub get_ptr : ℕ → ℕ
get_ptr tagged_ptr = bit_and tagged_ptr (2 ^ 48 - 1)

unfoldable pub get_tag : ℕ → ℕ
get_tag tagged_ptr = tagged_ptr / 2 ^ 48 % 2 ^ 16

-- `ptr | tag << 48`, with the shifted word first.
unfoldable pub make_tagged_ptr : ℕ → ℕ → ℕ
make_tagged_ptr ptr tag = bit_or (tag % 2 ^ 16 * 2 ^ 48) ptr

unfoldable pub get_current_timestamp : ℕ → ℕ
get_current_timestamp seconds = seconds / 64 % 2 ^ 16

-- `static_cast<uint16_t>(get_tag(head) - now) > 1`
unfoldable pub expire : ℕ → ℕ → Bool
expire head now = ltb 1 ((get_tag head + (2 ^ 16 - now)) % 2 ^ 16)

pub record Node : Type 0 where
  pub address : ℕ
  pub table : ℕ

pub record RetireList : Type 0 where
  pub nodes : List Node
  pub tag : ℕ
  pub deleted : List ℕ

unfoldable pub first_address : List Node → ℕ
first_address [] = 0
first_address (n ∷ ns) = n.address

-- The word in `_head`.
unfoldable pub head_word : RetireList → ℕ
head_word l = make_tagged_ptr (first_address l.nodes) l.tag

-- A call, and where it stands. A `retire` has its new node and its time stamp with it.
pub data Call : Type 0 where
  ready : Call
  checking : Node → ℕ → Call  -- in `try_gc`, before the load
  forcing : Call  -- in `force_gc`, before the load
  dropping : Option (Node × ℕ) → ℕ → Call  -- in `try_drop`, with the old head
  deleting : Option (Node × ℕ) → List Node → Call  -- in `delete_list`
  pushing : Node → ℕ → Call  -- in `push`, before the load
  linking : Node → ℕ → ℕ → Call  -- before the compare-exchange, with the expected head

pub data Event : Type 0 where
  retire : ℕ → ℕ → ℕ → ℕ → Event  -- by a thread: the node's address, the table and the time
  force_gc : ℕ → Event
  go_on : ℕ → Bool → Event  -- whether a weak compare-exchange fails without cause

pub record System : Type 0 where
  pub list : RetireList
  pub calls : List Call
  pub retired : List ℕ  -- all tables that were retired

unfoldable pub delete_table : ℕ → List ℕ → List ℕ
delete_table table deleted = if table == 0 then deleted else table ∷ deleted

-- What follows the garbage collection.
unfoldable pub after_gc : Option (Node × ℕ) → Call
after_gc none = ready
after_gc (some (n, now)) = pushing n now

unfoldable pub run_call : RetireList → Call → Bool → RetireList × Call
run_call l (checking n now) fails =
    (l, if expire (head_word l) now then dropping (some (n, now)) (head_word l) else pushing n now)
run_call l forcing fails = (l, dropping none (head_word l))
run_call l (dropping next old_head) fails =
    if not fails && (head_word l == old_head)
    then (record l { nodes = []; tag = 0 }, deleting next l.nodes)
    else (l, after_gc next)
run_call l (deleting next (n ∷ ns)) fails =
    (record l { deleted = delete_table n.table l.deleted }, deleting next ns)
run_call l (deleting next []) fails = (l, after_gc next)
run_call l (pushing n now) fails = (l, linking n now (head_word l))
run_call l (linking n now expected) fails =
    if not fails && (head_word l == expected)
    then (record l { nodes = n ∷ l.nodes; tag = now }, ready)
    else (l, linking n now (head_word l))
run_call l ready fails = (l, ready)

-- A thread has one call at a time.
abbrev pub begin_retire : System → ℕ → ℕ → ℕ → ℕ → Option Call → System
begin_retire s i address table seconds (some ready) = record s {
  calls =
      set s.calls i
        (checking (record { address = address; table = table }) (get_current_timestamp seconds));
  retired = table ∷ s.retired;
}
begin_retire s i address table seconds _ = s

abbrev pub begin_force_gc : System → ℕ → Option Call → System
begin_force_gc s i (some ready) = record s { calls = set s.calls i forcing }
begin_force_gc s i _ = s

abbrev pub run_next : System → ℕ → Bool → Option Call → System
run_next s i fails none = s
run_next s i fails (some call) =
    let ran = run_call s.list call fails in record s { list = ran.0; calls = set s.calls i (ran.1) }

unfoldable pub step : System → Event → System
step s (retire i address table seconds) =
    begin_retire s i address table seconds (get_elem? s.calls i)
step s (force_gc i) = begin_force_gc s i (get_elem? s.calls i)
step s (go_on i fails) = run_next s i fails (get_elem? s.calls i)

unfoldable pub exec : System → List Event → System
exec s [] = s
exec s (e ∷ es) = exec (step s e) es

unfoldable pub initial : ℕ → System
initial threads = record {
  list = record { nodes = []; tag = 0; deleted = [] };
  calls = replicate threads ready;
  retired = [];
}
