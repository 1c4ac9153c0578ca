-- ===== src/Store/Memory/Clients.antt =====
-- What the clients of the in-memory store of checkpoint/adapters/memory.rs may rely on.
use determa_state_rust.Prelude.{
  String, true, false, some, List, [], ◌∷◌, ◌≡◌, ◌≢◌, refl, Bool-cases, inl, inr, arith,
}
use determa_state_rust.Store.Records.{StoreRecord, committed, conflict, ok}
use determa_state_rust.Store.Contract.Updates.{
  IsHeld, WriteCall, inserting, swapping, after_call, after_calls, no_lost_update, root_is_kept,
}
use determa_state_rust.Store.Memory.{MemoryExecutionStore, insert_if_absent, compare_and_swap}
use determa_state_rust.Store.Memory.Keyed.{find_record}
use determa_state_rust.Store.Memory.Refines.{usable, view, memory_operations, memory-KeepsContract}

-- A store whose lock is poisoned commits nothing.
usable_of_committed :
    (s : MemoryExecutionStore) (root revision digest : String) (r : StoreRecord)
    → (compare_and_swap s root revision digest r).0 ≡ ok committed
    → usable s ≡ true
unfolding compare_and_swap
usable_of_committed s root revision digest r h = ground (arith)

-- No update is lost: after a swap that the store committed and that moved the root to another revision, every
-- swap of that root that still expects the old revision is answered by a conflict that carries the
-- committed record.
pub memory_loses_no_update :
    (s : MemoryExecutionStore) (root revision digest digest' : String) (r r' : StoreRecord)
    → r.root_instance_id ≡ root
    → r'.root_instance_id ≡ root
    → r.revision ≢ revision
    → (compare_and_swap s root revision digest r).0 ≡ ok committed
    → (compare_and_swap (compare_and_swap s root revision digest r).1 root revision digest' r').0
      ≡ ok (conflict (some r))
unfolding memory_operations
memory_loses_no_update s root revision digest digest' r r' e e' moved done =
    no_lost_update memory_operations usable view memory-KeepsContract s root revision digest digest'
      r r' (usable_of_committed s root revision digest r done) e e' moved done

poisoned_writes_nothing :
    (s : MemoryExecutionStore) (w : WriteCall)
    → usable s ≡ false
    → after_call memory_operations s w ≡ s
unfolding memory_operations insert_if_absent compare_and_swap
poisoned_writes_nothing s (inserting r) h = ground (arith)
poisoned_writes_nothing s (swapping root revision digest r) h = ground (arith)

poisoned_stays :
    (s : MemoryExecutionStore) (ws : List WriteCall)
    → usable s ≡ false
    → after_calls memory_operations s ws ≡ s
poisoned_stays s [] h = refl
poisoned_stays s (w ∷ ws) h = rw (poisoned_writes_nothing s w h) (poisoned_stays s ws h)

-- A root is never removed: once the store holds a record for it, it holds one after any inserts and swaps of
-- any clients, whatever their answers.
pub memory_keeps_roots :
    (s : MemoryExecutionStore) (ws : List WriteCall) (k : String)
    → IsHeld (find_record k s.records)
    → IsHeld (find_record k (after_calls memory_operations s ws).records)
memory_keeps_roots s ws k held = elim (Bool-cases (usable s)) [
  | inl u ↦ root_is_kept memory_operations usable view memory-KeepsContract s ws k u held
  | inr u ↦ rw (poisoned_stays s ws u) held
]
