-- ===== src/Mailbox/Step/Recall.antt =====
-- `remove_ready_head`, the deferral of an entry, and `recall_deferred` of format1/v1.rs.
use determa_state_rust.Prelude.{
  ℕ, ◌+◌, String, Bool, Option, none, some, List, [], ◌∷◌, ◌++◌, map, if◌then◌else◌,
}
use determa_state_rust.State.Active.{is_running}
use determa_state_rust.Mailbox.Records.{
  Result, ok, ◌>>=◌, ok_or, invalid_aggregate, Entry, RuntimeRecord, Document, NativeAggregate,
  Engine,
}
use determa_state_rust.Mailbox.Documents.{find_runtime, update_runtime}

-- The lists `retained` and `recalled`, and the counter after the loop.
pub record Sifted (V : Type 0) : Type 0 where
  pub retained : List (Entry V)
  pub recalled : List (Entry V)
  pub next_queue_sequence : ℕ

abbrev pub requeued : {V : Type 0} → Entry V → ℕ → Entry V
requeued entry queue = record entry { queue_sequence = queue }

unfoldable pub sift : {V : Type 0} → (String → Bool) → ℕ → List (Entry V) → Sifted V
sift eligible next [] = record { retained = []; recalled = []; next_queue_sequence = next }
sift eligible next (e ∷ es) =
    if eligible e.envelope.event
    then (let rest = sift eligible (next + 1) es in
        record rest { recalled = requeued e next ∷ rest.recalled })
    else (let rest = sift eligible next es in record rest { retained = e ∷ rest.retained })

module _ {V M : Type 0} where
  -- `runtime_by_id(&state.root, …)`: the runtimes of the tree are listed in the order of this search.
  abbrev pub runtimes_of : NativeAggregate V M → List (RuntimeRecord V M)
  runtimes_of state = state.root ∷ state.contained

  abbrev pub without_head : List (Entry V) → RuntimeRecord V M → RuntimeRecord V M
  without_head rest r = record r { ready_mailbox = rest }

  unfoldable pub take_head :
      String → Document V M → List (Entry V) → Result (Entry V × Document V M)
  unfolding update_runtime
  take_head runtime_id value [] = invalid_aggregate "runtime ready mailbox is empty"
  take_head runtime_id value (entry ∷ rest) = do
    next ← update_runtime runtime_id (without_head rest) value
    ok (entry, next)

  unfoldable pub remove_ready_head : String → Document V M → Result (Entry V × Document V M)
  unfolding take_head
  remove_ready_head runtime_id value = do
    runtime ← ok_or (find_runtime runtime_id value.runtimes) "target runtime is absent"
    take_head runtime_id value runtime.ready_mailbox

  abbrev pub push_deferred : Entry V → RuntimeRecord V M → RuntimeRecord V M
  push_deferred entry r = record r { deferred_mailbox = r.deferred_mailbox ++ (entry ∷ []) }

  -- What `step_v1_impl` does with an entry that the engine defers and that has room.
  unfoldable pub defer_head : String → Document V M → Result (Document V M)
  unfolding remove_ready_head update_runtime
  defer_head runtime_id document = do
    (entry, value) ← remove_ready_head runtime_id document
    let queue = value.next_queue_sequence
    let deferred : Entry V = record entry {
      queue_sequence = queue;
      deferral_count = entry.deferral_count + 1;
    }
    update_runtime runtime_id (push_deferred deferred)
        (record value { next_queue_sequence = queue + 1 })

  abbrev pub recalled_runtime : Sifted V → RuntimeRecord V M → RuntimeRecord V M
  recalled_runtime sifted r = record r {
    ready_mailbox = r.ready_mailbox ++ sifted.recalled;
    deferred_mailbox = sifted.retained;
  }

  module _ {P F : Type 0} (engine : Engine V P M F) where
    -- One round of the loop, for a runtime that the engine's state holds and that is running.
    unfoldable pub recall_runtime :
        RuntimeRecord V M → String → Document V M → Result (Document V M)
    unfolding sift update_runtime
    recall_runtime state runtime_id value = do
      runtime ← ok_or (find_runtime runtime_id value.runtimes) "target runtime is absent"
      let sifted : Sifted V =
          sift (engine.structural_recall_eligible state) value.next_queue_sequence
            runtime.deferred_mailbox
      update_runtime runtime_id (recalled_runtime sifted)
          (record value { next_queue_sequence = sifted.next_queue_sequence })

    unfoldable pub recall_known :
        Option (RuntimeRecord V M) → String → Document V M → Result (Document V M)
    unfolding recall_runtime
    recall_known none runtime_id value = ok value
    recall_known (some state) runtime_id value =
        if is_running state.status then recall_runtime state runtime_id value else ok value

    unfoldable pub recall_all :
        NativeAggregate V M → List String → Document V M → Result (Document V M)
    unfolding recall_known
    recall_all state [] value = ok value
    recall_all state (id ∷ ids) value = do
      next ← recall_known (find_runtime id (runtimes_of state)) id value
      recall_all state ids next

    unfoldable pub recall_deferred : NativeAggregate V M → Document V M → Result (Document V M)
    unfolding recall_all
    recall_deferred state value =
        recall_all state (map (λ (r : RuntimeRecord V M). r.runtime_id) value.runtimes) value
