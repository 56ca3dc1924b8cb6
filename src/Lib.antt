-- ===== src/Lib.antt =====
-- Verification of the containers of the wizard repository.
--
-- The repository is a collection of C++ containers for concurrent servers. The containers do not
-- call each other, but for the word helpers, which the bounded queue and the hash map share as
-- copies, and for the hazard pointers, through which the hash map deletes its nodes.
--
-- - Prelude: lists, options, numbers and Boolean tests that the other files share. Prelude.Bits
--   and Prelude.Tabulate have the lemmas on powers of two and on indices that go round a ring.
-- - PowTwo: `findLastSet` and `nextPowTwo` of src/concurrent/concurrent_bounded_queue.h, as
--   `find_last_set` and `next_pow_two`. The compiler builtins are counted digit by digit, in 64 or
--   32 rounds, one for each digit of the word.
-- - BoundedQueue: `ConcurrentBoundedQueue` of src/concurrent/concurrent_bounded_queue.h used by
--   one thread, one function for each operation. A call that would wait forever is `none`.
--   BoundedQueue.Concurrent is the same queue used by any number of threads: `step` makes one
--   access to shared memory of one operation, and a schedule is a list of events. `test_version`,
--   `futex_wait`, `call_back`, `publish` and `wake_all` are the pieces of `push`, `pop`,
--   `process`, `wait_until_reach_expected_version` and `advance_version_and_wakeup_waiters`
--   between the atomic operations. A schedule is within the limits when the 16-bit versions of its
--   states have not wrapped round.
-- - RingBuffer: `RingBuffer` and its iterators of src/container/ringbuffer.h. A buffer `Holds` a
--   list of values when its fields are consistent and its cells, read from the head on, are these
--   values. Capacities are below 2^31, so that the indices fit an `int`. The loops over the buffer
--   run for a given number of rounds, which the theorems bound by the number of values.
-- - FeatureTable: `IdxList`, `DataVector`, `HeterogeneousVector` and `FeatureTable` of
--   src/feature_table.cpp. `Heap` holds what lives outside the table: the lists of row indices,
--   which columns share by pointer, and the static storage of columns. The loop of `filter` runs
--   for as many rounds as the table has rows and one more; each round goes to the next row and no
--   round adds one.
-- - ConcurrentVector: `Meta` and `Snapshot::for_each` of src/concurrent/vector.h, which `fill_n`
--   and `copy_n` call. The result is the list of the callback's calls. The loop over the shards
--   has as many rounds as the table has shards and one more: each round goes to the next shard,
--   and behind the last one it leaves the table, which is `none`. ConcurrentVector.Elements is
--   `reserve`, `ensure`, `operator[]`, `copy_n` and `fill_n`, with the elements at a shard and an
--   offset, while no other call grows the vector. ConcurrentVector.Table is `ensure_table` called
--   by any number of threads; a round of its loop ends with the compare-exchange and is one step,
--   `round_of`. ConcurrentVector.RetireList is the list of retired tables with its tagged
--   pointers, used by any number of threads, one access to the head in each step.
--   ConcurrentVector.Construct is the constructor, with `folly::nextPowTwo` as a parameter.
-- - HashMap: `NodeT` and `ConcurrentHashMapSegment` of
--   src/concurrent/concurrent_hashmap_detail.h in Store and Segment, with the segment's
--   iterator in Iterator, one operation at a time, as the mutex makes the writers, and
--   `ConcurrentHashMap` of src/concurrent/concurrent_hashmap.h in Sharded. `HashKey` is what
--   the code asks of the key type: its equality test and its hash. The product with the load
--   factor, a `float`, is a function. A node that is retired is put on a list, since the hazard
--   pointers delete it later, and stays readable. A segment `Models` a function from keys to
--   values when each bucket leads through a chain of nodes that are alive, each key stands in
--   its own bucket once, and a search finds the function's value; a map `Maps` a function when
--   each segment models the part of it whose keys the segment gets. The loops along a chain
--   have as many rounds as the store has cells and one more; a chain has no node twice.
-- - ObjectPool: the nodes, tagged indices and lists of free nodes of src/pool.h, used by one
--   thread, and that thread's cache. A pool's free nodes are three lists, `Frees`: the cache, and
--   the nodes that the market and the collective head lead through. ObjectPool.Handles has
--   `PooledObject` with `get`, its moves and `release`; a handle points to the object of a node or
--   to one that `new` has made. A destructor that is not trivial must not run twice on an object;
--   a call that does so is `none`.
-- - Hazptr: `HazptrHolder`, `HazptrManager`, `HazptrPrivate` and `HazptrRecord` of
--   src/concurrent/hazptr.h and src/concurrent/hazptr.hpp, used by any number of threads: `step`
--   makes one access to shared memory of one holder or one thread that retires objects, or one
--   step of a user. `try_protect`, `run_holder` and `call_holder` are `get_protected`,
--   `acquire_record`, `release_record` and `reset`; `push_all`, `run_pc` and `call_reclaimer` are
--   `push`, `append`, `tryBulkReclaim`, `bulkReclaim`, `retire` and the end of a thread, and
--   `destroy_manager` is the destructor of the manager, when no thread is left. Users link an
--   object into one source at a time, unlink it there, and retire it once, by that order and by a
--   thread that knows it is unlinked; a step that breaks this does nothing. The steps of a
--   schedule need no fuel; that a call of `bulkReclaim` alone ends is shown with the number of its
--   steps.
-- - SkipList: `SkipList` of src/container/skiplist.h and `SkipListNode` and `getHeight` of
--   src/container/skiplist-inl.h, with `search` and `search_only` for the two
--   `_search_equal_or_greater`. `Element` is what the code asks of the element type: a
--   comparison that is a strict total order, and the equality that agrees with it. A skip list
--   `Models` a sorted list when, from the head on, each pointer of each node leads to the next
--   node of that layer. The loop along a layer has one round more than the list has elements.
--   The tables of size limits and probabilities, of 64 entries, are given as functions.
--
-- Integers are natural numbers with the remainder by 2^64, 2^32 or 2^16 written out where the
-- code can wrap round; an `int` that starts at -1 is an integer of Prelude.Int. Memory is
-- sequentially consistent. The futex of the kernel follows its documented behaviour, with
-- wake-ups without cause.
--
-- Not modelled: memory layout, alignment and statistics of the bounded queue, `sort_by`,
-- printing and type names of the feature table, the destructor of the concurrent vector with
-- the lifetimes of its elements, readers of the hash map beside a writer, `emplace`,
-- `ConstIterator`, the pool used by several threads, printing of the skip list, the thread
-- pool, the lock-free queues, and of the hazard pointers the records that a thread caches,
-- which is off by default, and `swap`. The copies of liburcu, moodycamel's queue and folly
-- under urcu/, src/concurrent/ and hazptr/ are other projects' libraries; main/, unittest/,
-- bench/ and small_test/ are programs, tests and experiments.
pub mod BoundedQueue
pub mod ConcurrentVector
pub mod FeatureTable
pub mod HashMap
pub mod Hazptr
pub mod ObjectPool
pub mod PowTwo
pub mod Prelude
pub mod RingBuffer
pub mod SkipList
