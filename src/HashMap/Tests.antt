-- ===== src/HashMap/Tests.antt =====
-- Runs of src/concurrent/concurrent_hashmap.h and its segment on numbers as keys, with the
-- identity as hash.
use wizard.Prelude.{
  List, ℕ, ◌+◌, ◌≡◌, refl, true, Option, none, some, [], ◌∷◌, ◌==◌, ==_iff, ◌>>=◌, length, ◌^◌,
  if◌then◌else◌, arith,
}
use wizard.HashMap.Store.{
  HashKey, node_at, write_node, new_node, acquire, acquire_next, release, release_next, set_next,
}
use wizard.HashMap.Segment.{
  Segment, create, find as segment_find, erase as segment_erase, insert as segment_insert, rehash,
  insert_internal, search, insert_found, find_node, erase_found, rehash_buckets, rehash_chain,
  bucket_id, push_head, write_place,
}
use wizard.PowTwo.{next_pow_two, find_last_set, clzl, bit_length}
use wizard.HashMap.Iterator.{Iterator, cbegin, visit}
use wizard.HashMap.Iterator.Visits.{visit-cbegin}
use wizard.HashMap.Chains.{Entry}
use wizard.HashMap.Search.{KeysDistinct}
use wizard.HashMap.Grow.{Grows}
use wizard.HashMap.Table.{lookup, held, update}
use wizard.HashMap.Methods.{Models, create-Models, rehash-Models}
use wizard.HashMap.Insert.{insert-Models}
use wizard.HashMap.Sharded.{
  ConcurrentHashMap, construct, insert, find, erase, find_in, found_at, erase_in, ensure_segment,
  ensured, reserve, size, pick_segment,
}
use wizard.HashMap.Shards.{Maps}
use wizard.HashMap.Whole.{read, construct-Maps, insert-Maps, find-Maps, erase-Maps, find-insert}
use wizard.HashMap.Reserve.{find-reserve}

instance pub numbers : HashKey ℕ
numbers = record { same = λ a b. a == b; same_iff = λ a b. ==_iff a b; hash = λ k. k }

-- A load factor of 1.
abbrev one_each : ℕ → ℕ
one_each n = n

abbrev nothing : ℕ → Option ℕ
nothing k = none

-- One segment with two buckets and two keys; the third makes a rehash.
abbrev empty : Segment ℕ ℕ
empty = create 2 one_each

abbrev six_and_two : ℕ → Option ℕ
six_and_two = update (update nothing 6 (some 60)) 2 (some 20)

two : (n : Segment ℕ ℕ) × Models 1 n six_and_two
two =
    let a = insert-Models 1 empty nothing 6 60 (create-Models 1 2 one_each (omega arith)) in
    let c = insert-Models 1 (a.0) (update nothing 6 (some 60)) 2 20 (a.2) in (c.0, c.2)

rehash-Models_example :
    (n : Segment ℕ ℕ) × (rehash 1 (2 ^ 2) (two.0) ≡ some n)
    × Models 1 n six_and_two
    × Grows two.0.store n.store
    × (n.size ≡ two.0.size)
    × (length n.buckets ≡ 2 ^ 2)
rehash-Models_example = rehash-Models 1 2 (two.0) six_and_two (two.1)

-- The map with its 2^8 segments.
abbrev whole : ConcurrentHashMap ℕ ℕ
whole = construct 8 one_each

whole-Maps : Maps 8 whole nothing
whole-Maps = construct-Maps 8 one_each

one : (n : ConcurrentHashMap ℕ ℕ) × Maps 8 n (update nothing 6 (some 60))
one = let a = insert-Maps 8 whole nothing 6 60 whole-Maps in (a.0, a.2)

insert-Maps_example :
    (n : ConcurrentHashMap ℕ ℕ) × (insert 8 262 2 (one.0)
      ≡ some (pick_segment {K = ℕ} 8 262, true, n))
    × Maps 8 n (update (update nothing 6 (some 60)) 262 (some 2))
    × (size n + held (update nothing 6 (some 60) 262) ≡ size (one.0) + 1)
insert-Maps_example = insert-Maps 8 (one.0) (update nothing 6 (some 60)) 262 2 (one.1)

find-Maps_example :
    (r : ℕ × Option ℕ) × (find 8 6 (one.0) ≡ some r)
    × (read (one.0) r ≡ update nothing 6 (some 60) 6)
find-Maps_example = find-Maps 8 (one.0) (update nothing 6 (some 60)) 6 (one.1)

erase-Maps_example :
    (n : ConcurrentHashMap ℕ ℕ) × (erase 8 6 (one.0) ≡ some n)
    × Maps 8 n (update (update nothing 6 (some 60)) 6 none)
    × (size n + held (update nothing 6 (some 60) 6) ≡ size (one.0))
erase-Maps_example = erase-Maps 8 (one.0) (update nothing 6 (some 60)) 6 (one.1)

find-insert_example :
    (insert 8 262 2 (one.0) >>= (λ r. find 8 6 (r.2) >>= (λ it. read (r.2) it)))
    ≡ (if numbers.same 6 262 then some 2 else (find 8 6 (one.0) >>= (λ it. read (one.0) it)))
find-insert_example = find-insert 8 (one.0) (update nothing 6 (some 60)) 262 6 2 (one.1)

-- A map of two segments, both there, and a `reserve` for one bucket in all.
abbrev pair : ConcurrentHashMap ℕ ℕ
pair = record { segments = some empty ∷ some empty ∷ []; init_capacity = 8; load_factor = one_each }

find-reserve_example : (reserve 1 1 pair >>= (λ n. find 1 5 n)) ≡ none
unfolding pick_segment numbers
find-reserve_example = find-reserve 1 1 pair 5 empty (omega arith) refl

-- Three keys in one bucket, one of them replaced and one erased.
after_all : Option (ConcurrentHashMap ℕ ℕ)
after_all = insert 8 6 60 whole >>= (λ a.
    insert 8 262 2 (a.2)
    >>= (λ c. insert 8 518 5 (c.2) >>= (λ d. insert 8 262 7 (d.2) >>= (λ e. erase 8 6 (e.2)))))

after_all_262 : (after_all >>= (λ m. find 8 262 m >>= (λ it. read m it))) ≡ some 7
unfolding after_all numbers pick_segment insert find find_in found_at erase erase_in ensure_segment
    ensured construct create next_pow_two find_last_set clzl bit_length segment_insert
    insert_internal search insert_found segment_find find_node segment_erase erase_found rehash
    rehash_buckets rehash_chain bucket_id push_head write_place node_at write_node new_node acquire
    acquire_next release release_next set_next
after_all_262 = refl

after_all_6 : (after_all >>= (λ m. find 8 6 m >>= (λ it. read m it))) ≡ none
unfolding after_all numbers pick_segment insert find find_in found_at erase erase_in ensure_segment
    ensured construct create next_pow_two find_last_set clzl bit_length segment_insert
    insert_internal search insert_found segment_find find_node segment_erase erase_found rehash
    rehash_buckets rehash_chain bucket_id push_head write_place node_at write_node new_node acquire
    acquire_next release release_next set_next
after_all_6 = refl

visit-cbegin_example :
    (it : Iterator) × (es : List (Entry ℕ ℕ)) × (cbegin (two.0) ≡ some it)
    × (visit (two.0.size + 1) (two.0) it.node it.bucket_id ≡ some es)
    × KeysDistinct es
    × ((k : ℕ) → lookup k es ≡ six_and_two k)
    × (length es ≡ two.0.size)
visit-cbegin_example = visit-cbegin 1 (two.0) six_and_two (two.1)
