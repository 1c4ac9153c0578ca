-- ===== src/Store/Memory/Refines.antt =====
-- The in-memory store of checkpoint/adapters/memory.rs keeps the contract of `ExecutionStore`.
use determa_state_rust.Prelude.{
  String, Bool, true, not, Option, none, some, ◌≡◌, ◌≢◌, refl, ap, eq_iff, arith,
}
use determa_state_rust.Store.Records.{StoreRecord, StoreError, ok, err, store_failure}
use determa_state_rust.Store.Contract.{
  swap_spec, insert_spec, at_key, StoreOperations, KeepsContract,
}
use determa_state_rust.Store.Memory.Keyed.{find_record, find_record-put_record}
use determa_state_rust.Store.Memory.{
  MemoryExecutionStore, load, insert_if_absent, compare_and_swap, differs, insert_unless, swap_if,
}

abbrev pub view : MemoryExecutionStore → String → Option StoreRecord
view s root = find_record root s.records

abbrev pub usable : MemoryExecutionStore → Bool
usable s = not s.poisoned

insert_unless-answers :
    (s : MemoryExecutionStore) (r : StoreRecord) (o : Option StoreRecord)
    → (insert_unless s r o).0 ≡ ok (insert_spec o r).0
unfolding insert_unless insert_spec
insert_unless-answers s r none = refl
insert_unless-answers s r (some current) = refl

insert_unless-stores :
    (s : MemoryExecutionStore) (r : StoreRecord) (j : String) (o : Option StoreRecord)
    → view s r.root_instance_id ≡ o
    → view (insert_unless s r o).1 j ≡ at_key (view s) r.root_instance_id (insert_spec o r).1 j
unfolding insert_unless insert_spec
insert_unless-stores s r j none e = find_record-put_record r.root_instance_id j r s.records
insert_unless-stores s r j (some current) e = ground (arith, eq_iff r.root_instance_id j)

swap_if-answers :
    (s : MemoryExecutionStore) (root revision digest : String) (r : StoreRecord)
    (o : Option StoreRecord)
    → (swap_if s root revision digest r o).0 ≡ ok (swap_spec o revision digest r).0
unfolding swap_if swap_spec differs
swap_if-answers s root revision digest r none = refl
swap_if-answers s root revision digest r (some current) = ground arith

swap_if-stores :
    (s : MemoryExecutionStore) (root revision digest : String) (r : StoreRecord) (j : String)
    (o : Option StoreRecord)
    → view s root ≡ o
    → view (swap_if s root revision digest r o).1 j
      ≡ at_key (view s) root (swap_spec o revision digest r).1 j
unfolding swap_if swap_spec differs
swap_if-stores s root revision digest r j none e = ground (arith, eq_iff root j)
swap_if-stores s root revision digest r j (some current) e =
    ground (arith, eq_iff root j, find_record-put_record root j r s.records)

insert_opened :
    (s : MemoryExecutionStore) (r : StoreRecord)
    → usable s ≡ true
    → insert_if_absent s r ≡ insert_unless s r (view s r.root_instance_id)
unfolding insert_if_absent
insert_opened s r u = ground arith

swap_opened :
    (s : MemoryExecutionStore) (root revision digest : String) (r : StoreRecord)
    → usable s ≡ true
    → r.root_instance_id ≡ root
    → compare_and_swap s root revision digest r ≡ swap_if s root revision digest r (view s root)
unfolding compare_and_swap
swap_opened s root revision digest r u e = ground (arith, eq_iff r.root_instance_id root)

swap-foreign :
    (s : MemoryExecutionStore) (root revision digest : String) (r : StoreRecord)
    → r.root_instance_id ≢ root
    → ((e : StoreError) × ((compare_and_swap s root revision digest r).0 ≡ err e))
      × ((compare_and_swap s root revision digest r).1 ≡ s)
unfolding compare_and_swap
swap-foreign s root revision digest r n = (
  (
    store_failure "replacement belongs to another root",
    ground (arith, eq_iff r.root_instance_id root),
  ),
  ground (arith, eq_iff r.root_instance_id root),
)

insert-poisoned :
    (s : MemoryExecutionStore) (r : StoreRecord) → (insert_if_absent s r).1.poisoned ≡ s.poisoned
unfolding insert_if_absent
insert-poisoned s r = ground arith

swap-poisoned :
    (s : MemoryExecutionStore) (root revision digest : String) (r : StoreRecord)
    → (compare_and_swap s root revision digest r).1.poisoned ≡ s.poisoned
unfolding compare_and_swap
swap-poisoned s root revision digest r = ground arith

load-view :
    (s : MemoryExecutionStore) (root : String) → usable s ≡ true → load s root ≡ ok (view s root)
unfolding load
load-view s root u = ground arith

unfoldable pub memory_operations : StoreOperations MemoryExecutionStore
memory_operations = record {
  load = load;
  insert_if_absent = insert_if_absent;
  compare_and_swap = compare_and_swap;
}

-- The in-memory store keeps the contract: while its lock is not poisoned it reads, inserts and
-- swaps as the contract says, on every branch; a replacement that belongs to another root is an
-- error and changes nothing; and no operation poisons the lock.
pub memory-KeepsContract : KeepsContract memory_operations usable view
unfolding memory_operations
memory-KeepsContract = record {
  load_views = load-view;
  insert_answers =
      λ s r u. rw (insert_opened s r u) (insert_unless-answers s r (view s r.root_instance_id));
  insert_stores = λ s r j u.
      rw (insert_opened s r u) (insert_unless-stores s r j (view s r.root_instance_id) refl);
  insert_keeps_usable = λ s r. ap not (insert-poisoned s r);
  swap_answers = λ s root revision digest r u e.
      rw (swap_opened s root revision digest r u e)
        (swap_if-answers s root revision digest r (view s root));
  swap_stores = λ s root revision digest r j u e.
      rw (swap_opened s root revision digest r u e)
        (swap_if-stores s root revision digest r j (view s root) refl);
  swap_foreign = swap-foreign;
  swap_keeps_usable = λ s root revision digest r. ap not (swap-poisoned s root revision digest r);
}
