-- ===== src/Store/Contract.antt =====
-- The contract of the trait `ExecutionStore` in checkpoint/store.rs, as its doc comment has it: an
-- atomic checkpoint storage primitive without a delete. A store shows a map from root to record.
pub mod Updates
use determa_state_rust.Prelude.{
  String, Bool, true, false, Option, none, some, ◌≡◌, ◌≢◌, ◌&&◌, str_eq, if◌then◌else◌,
}
use determa_state_rust.Store.Records.{
  StoreRecord, StoreWriteResult, committed, conflict, StoreError, Stored, ok, err,
}

-- The record is at the revision and digest that the caller read.
matches : StoreRecord → String → String → Bool
matches current revision digest =
    str_eq current.revision revision && str_eq current.execution_checkpoint_digest digest

-- What a swap answers, and the record that is stored after it.
unfoldable pub swap_spec :
    Option StoreRecord → String → String → StoreRecord → StoreWriteResult × Option StoreRecord
unfolding matches
swap_spec none revision digest r = (conflict none, none)
swap_spec (some current) revision digest r =
    if matches current revision digest
    then (committed, some r)
    else (conflict (some current), some current)

unfoldable pub insert_spec :
    Option StoreRecord → StoreRecord → StoreWriteResult × Option StoreRecord
insert_spec none r = (committed, some r)
insert_spec (some current) r = (conflict (some current), some current)

-- The map with one key changed.
abbrev pub at_key :
    (String → Option StoreRecord) → String → Option StoreRecord → String → Option StoreRecord
at_key v k o j = if str_eq k j then o else v j

-- The operations of the trait, for a store of type `S`.
pub record StoreOperations (S : Type 0) : Type 0 where
  pub load : S → String → Stored (Option StoreRecord)
  pub insert_if_absent : S → StoreRecord → Stored StoreWriteResult × S
  pub compare_and_swap : S → String → String → String → StoreRecord → Stored StoreWriteResult × S

-- `usable` tells the states in which the store answers no error of its own (a failure, or a response
-- that is lost after the commit), and `view` the record that it holds for each root. The laws are about
-- the calls in such a state.
pub record KeepsContract {S : Type 0} (c : StoreOperations S) (usable : S → Bool)
    (view : S → String → Option StoreRecord) : Type 0 where
  pub load_views : (s : S) (root : String) → usable s ≡ true → c.load s root ≡ ok (view s root)
  pub insert_answers :
      (s : S) (r : StoreRecord)
      → usable s ≡ true
      → (c.insert_if_absent s r).0 ≡ ok (insert_spec (view s r.root_instance_id) r).0
  pub insert_stores :
      (s : S) (r : StoreRecord) (j : String)
      → usable s ≡ true
      → view (c.insert_if_absent s r).1 j
        ≡ at_key (view s) r.root_instance_id (insert_spec (view s r.root_instance_id) r).1 j
  pub insert_keeps_usable : (s : S) (r : StoreRecord) → usable (c.insert_if_absent s r).1 ≡ usable s
  pub swap_answers :
      (s : S) (root revision digest : String) (r : StoreRecord)
      → usable s ≡ true
      → r.root_instance_id ≡ root
      → (c.compare_and_swap s root revision digest r).0
        ≡ ok (swap_spec (view s root) revision digest r).0
  pub swap_stores :
      (s : S) (root revision digest : String) (r : StoreRecord) (j : String)
      → usable s ≡ true
      → r.root_instance_id ≡ root
      → view (c.compare_and_swap s root revision digest r).1 j
        ≡ at_key (view s) root (swap_spec (view s root) revision digest r).1 j
  pub swap_foreign :
      (s : S) (root revision digest : String) (r : StoreRecord)
      → r.root_instance_id ≢ root
      → ((e : StoreError) × ((c.compare_and_swap s root revision digest r).0 ≡ err e))
        × ((c.compare_and_swap s root revision digest r).1 ≡ s)
  pub swap_keeps_usable :
      (s : S) (root revision digest : String) (r : StoreRecord)
      → usable (c.compare_and_swap s root revision digest r).1 ≡ usable s
