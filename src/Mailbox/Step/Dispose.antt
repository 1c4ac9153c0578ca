-- ===== src/Mailbox/Step/Dispose.antt =====
-- `merge_native_state`, `lifecycle_disposition` and `dispose_removed_mailboxes` of format1/v1.rs.
use determa_state_rust.Prelude.{
  ℕ, String, Bool, true, false, Option, none, some, List, [], ◌∷◌, ◌++◌, any, str_eq, if◌then◌else◌,
  ◌&&◌,
}
use determa_state_rust.State.Machine.{RuntimeStatus, running, completed, faulted}
use determa_state_rust.Mailbox.Records.{
  Result, ok, ◌>>=◌, ◌>>◌, require, invalid_aggregate, Entry, RuntimeRecord, Document,
  NativeAggregate, Engine, Emission,
}
use determa_state_rust.Mailbox.Documents.{
  has_runtime, unique_ids, find_runtime, update_runtime, seal_aggregate,
}
use determa_state_rust.Mailbox.Step.Recall.{runtimes_of}

pub data LifecycleReason : Type 0 where
  aggregate_completed runtime_completed runtime_cancelled : LifecycleReason

pub record LifecycleDisposition : Type 0 where
  pub event_id : String
  pub request_digest : String
  pub acceptance_sequence : ℕ
  pub final_queue_sequence : ℕ
  pub target_runtime_id : String
  pub reason : LifecycleReason

abbrev pub has_no_entries : {A : Type 0} → List A → Bool
has_no_entries [] = true
has_no_entries (x ∷ xs) = false

abbrev pub is_completed : RuntimeStatus → Bool
is_completed running = false
is_completed completed = true
is_completed faulted = false

module _ {P : Type 0} where
  -- that `completed_ids` holds the runtime
  abbrev pub completes : String → Emission P → Bool
  completes runtime_id emission =
      str_eq emission.event "determa.component_completed"
      && str_eq emission.emitting_runtime_id runtime_id

  unfoldable pub removal_reason : RuntimeStatus → List (Emission P) → String → LifecycleReason
  removal_reason root_status emissions runtime_id =
      if is_completed root_status
      then aggregate_completed
      else if any (completes runtime_id) emissions
      then runtime_completed
      else runtime_cancelled
  -- One round, for a runtime of the old document: the new document and the dispositions added.

module _ {V : Type 0} where
  abbrev pub lifecycle_disposition : Entry V → String → LifecycleReason → LifecycleDisposition
  lifecycle_disposition entry runtime_id reason = record {
    event_id = entry.envelope.event_id;
    request_digest = entry.envelope_digest;
    acceptance_sequence = entry.acceptance_sequence;
    final_queue_sequence = entry.queue_sequence;
    target_runtime_id = runtime_id;
    reason = reason;
  }

  -- The inner loop over one mailbox, which passes over the entry that the step consumed.
  unfoldable pub dispose_entries :
      String → String → LifecycleReason → List (Entry V) → List LifecycleDisposition
  dispose_entries causal_event_id runtime_id reason [] = []
  dispose_entries causal_event_id runtime_id reason (e ∷ es) =
      let rest = dispose_entries causal_event_id runtime_id reason es in
      if str_eq e.envelope.event_id causal_event_id
      then rest
      else lifecycle_disposition e runtime_id reason ∷ rest

module _ {V M : Type 0} where
  -- `copy_runtime_mailboxes` at one runtime
  unfoldable pub copy_mailboxes :
      Option (RuntimeRecord V M) → RuntimeRecord V M → Result (RuntimeRecord V M)
  copy_mailboxes (some wire) r =
      ok (record r { ready_mailbox = wire.ready_mailbox; deferred_mailbox = wire.deferred_mailbox })
  copy_mailboxes none r =
      if has_no_entries r.ready_mailbox && has_no_entries r.deferred_mailbox
      then ok r
      else invalid_aggregate "new runtime unexpectedly carries retained mailbox entries"

  -- `copy_wire_mailboxes`, over the runtimes in the order of its recursion
  unfoldable pub copy_wire_mailboxes :
      List (RuntimeRecord V M) → List (RuntimeRecord V M) → Result (List (RuntimeRecord V M))
  unfolding copy_mailboxes
  copy_wire_mailboxes retained [] = ok []
  copy_wire_mailboxes retained (r ∷ rs) = do
    copied ← copy_mailboxes (find_runtime r.runtime_id retained) r
    rest ← copy_wire_mailboxes retained rs
    ok (copied ∷ rest)

  unfoldable pub clear_mailboxes : RuntimeRecord V M → RuntimeRecord V M
  clear_mailboxes r = record r { ready_mailbox = []; deferred_mailbox = [] }

  -- What a runtime's entries are disposed with.
  abbrev pub disposed_runtime :
      String → LifecycleReason → RuntimeRecord V M → List LifecycleDisposition
  disposed_runtime causal_event_id reason r =
      dispose_entries causal_event_id r.runtime_id reason r.ready_mailbox
      ++ dispose_entries causal_event_id r.runtime_id reason r.deferred_mailbox

  unfoldable pub clear_and_dispose :
      String
      → LifecycleReason
      → RuntimeRecord V M
      → String
      → Document V M
      → Result (Document V M × List LifecycleDisposition)
  unfolding dispose_entries clear_mailboxes update_runtime
  clear_and_dispose causal_event_id reason candidate runtime_id new = do
    next ← update_runtime runtime_id clear_mailboxes new
    ok (next, disposed_runtime causal_event_id reason candidate)

  module _ {P : Type 0} where
    unfoldable pub dispose_runtime :
        List (Emission P)
        → RuntimeStatus
        → String
        → RuntimeRecord V M
        → Option (RuntimeRecord V M)
        → Document V M
        → Result (Document V M × List LifecycleDisposition)
    unfolding removal_reason dispose_entries clear_and_dispose
    dispose_runtime emissions root_status causal_event_id r none new = ok (
      new,
      disposed_runtime causal_event_id (removal_reason root_status emissions r.runtime_id) r,
    )
    dispose_runtime emissions root_status causal_event_id r (some candidate) new =
        if is_completed root_status
        then clear_and_dispose causal_event_id (removal_reason root_status emissions r.runtime_id)
            candidate r.runtime_id new
        else ok (new, [])

    unfoldable pub dispose_removed_mailboxes :
        List (Emission P)
        → RuntimeStatus
        → String
        → List (RuntimeRecord V M)
        → Document V M
        → Result (Document V M × List LifecycleDisposition)
    unfolding dispose_runtime
    dispose_removed_mailboxes emissions root_status causal_event_id [] new = ok (new, [])
    dispose_removed_mailboxes emissions root_status causal_event_id (r ∷ rs) new = do
      (next, first) ←
          dispose_runtime emissions root_status causal_event_id r
            (find_runtime r.runtime_id new.runtimes) new
      (last, rest) ← dispose_removed_mailboxes emissions root_status causal_event_id rs next
      ok (last, first ++ rest)

  module _ {P F : Type 0} (engine : Engine V P M F) where
    -- The seal sorts the runtime records that `encode_aggregate` wrote. Of the refusals of its
    -- `validate_envelope_semantics`, that of the identities is written out.
    unfoldable pub merge_native_state : Document V M → NativeAggregate V M → Result (Document V M)
    unfolding copy_wire_mailboxes unique_ids seal_aggregate
    merge_native_state retained state = do
      runtimes ← copy_wire_mailboxes retained.runtimes (runtimes_of state)
      let written : Document V M = record {
        validated_bundle_fingerprint = state.validated_bundle_fingerprint;
        root_instance_id = state.root_instance_id;
        root_runtime_id = state.root.runtime_id;
        next_acceptance_sequence = retained.next_acceptance_sequence;
        next_queue_sequence = retained.next_queue_sequence;
        runtimes = runtimes;
        aggregate_state_digest = "";
      }
      engine.check_encoding state written
      require (unique_ids runtimes && has_runtime state.root.runtime_id runtimes)
          "invalid_aggregate_state" "runtime identities are incomplete or duplicated"
      seal_aggregate engine written
