-- ===== src/Store/Memory.antt =====
-- checkpoint/adapters/memory.rs. The `BTreeMap` behind the mutex is an association list; a
-- poisoned mutex is a field, which the operations read and none sets.
pub mod Keyed
pub mod Refines
pub mod Clients
use determa_state_rust.Prelude.{
  String, Bool, true, false, not, Option, none, some, List, [], ◌∷◌, ◌||◌, str_eq, if◌then◌else◌,
}
use determa_state_rust.Store.Records.{
  StoreRecord, StoreWriteResult, committed, conflict, Stored, ok, err, store_failure,
}
use determa_state_rust.Store.Memory.Keyed.{Table, find_record, put_record}

pub record MemoryExecutionStore : Type 0 where
  pub records : Table
  pub poisoned : Bool

abbrev pub new : MemoryExecutionStore
new = record { records = []; poisoned = false }

abbrev pub lock_is_poisoned : {A : Type 0} → Stored A
lock_is_poisoned = err (store_failure "memory store lock is poisoned")

pub load : MemoryExecutionStore → String → Stored (Option StoreRecord)
load s root = if s.poisoned then lock_is_poisoned else ok (find_record root s.records)

insert_unless :
    MemoryExecutionStore
    → StoreRecord
    → Option StoreRecord
    → Stored StoreWriteResult × MemoryExecutionStore
insert_unless s r (some current) = (ok (conflict (some current)), s)
insert_unless s r none =
    (ok committed, record s { records = put_record r.root_instance_id r s.records })

pub insert_if_absent :
    MemoryExecutionStore → StoreRecord → Stored StoreWriteResult × MemoryExecutionStore
unfolding insert_unless
insert_if_absent s r =
    if s.poisoned
    then (lock_is_poisoned, s)
    else insert_unless s r (find_record r.root_instance_id s.records)

-- `current.revision != expected_revision || current.execution_checkpoint_digest != …`
unfoldable pub differs : StoreRecord → String → String → Bool
differs current revision digest =
    not (str_eq current.revision revision)
    || not (str_eq current.execution_checkpoint_digest digest)

unfoldable pub swap_if :
    MemoryExecutionStore
    → String
    → String
    → String
    → StoreRecord
    → Option StoreRecord
    → Stored StoreWriteResult × MemoryExecutionStore
swap_if s root revision digest r none = (ok (conflict none), s)
swap_if s root revision digest r (some current) =
    if differs current revision digest
    then (ok (conflict (some current)), s)
    else (ok committed, record s { records = put_record root r s.records })

unfoldable pub compare_and_swap :
    MemoryExecutionStore
    → String
    → String
    → String
    → StoreRecord
    → Stored StoreWriteResult × MemoryExecutionStore
unfolding swap_if
compare_and_swap s root revision digest r =
    if not (str_eq r.root_instance_id root)
    then (err (store_failure "replacement belongs to another root"), s)
    else if s.poisoned
    then (lock_is_poisoned, s)
    else swap_if s root revision digest r (find_record root s.records)
