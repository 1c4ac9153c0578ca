-- ===== src/Mailbox/Step/Run.antt =====
-- `step_v1` of format1/v1.rs, from its guards to the sealed document.
use determa_state_rust.Prelude.{
  ℕ, String, Bool, true, false, not, Option, none, some, List, [], ◌∷◌, ◌||◌, length, leb, str_eq,
  if◌then◌else◌, ◌&&◌,
}
use determa_state_rust.State.Machine.{RuntimeStatus, running, completed, faulted}
use determa_state_rust.State.Active.{is_running}
use determa_state_rust.Codes.Runtime.{Disposition, disposition_as_str}
use determa_state_rust.Mailbox.Records.{
  Result, ok, ◌>>=◌, ◌>>◌, ok_or, AdmissionDelivery, RelationKind, Entry, RuntimeRecord, Document,
  NativeAggregate, Engine, Envelope, Delivery, CoreResult,
}
use determa_state_rust.Mailbox.Documents.{find_runtime, aggregate_status, seal_aggregate}
use determa_state_rust.Mailbox.Sources.{core_delivery}
use determa_state_rust.Mailbox.Step.Recall.{
  runtimes_of, remove_ready_head, defer_head, recall_deferred,
}
use determa_state_rust.Mailbox.Step.Dispose.{
  LifecycleDisposition, merge_native_state, dispose_removed_mailboxes,
}
use determa_state_rust.Mailbox.Step.Emit.{EmissionResult, append_step_emissions}

-- `core_step_result`
pub record StepResult (V M F : Type 0) : Type 0 where
  pub status : RuntimeStatus
  pub disposition : String
  pub state : Document V M
  pub emissions : List (EmissionResult V)
  pub lifecycle_dispositions : List LifecycleDisposition
  pub fault : Option F
  pub rejection : Option String

abbrev pub is_faulted : RuntimeStatus → Bool
is_faulted running = false
is_faulted completed = false
is_faulted faulted = true

abbrev pub is_component : RelationKind → Bool
is_component RelationKind.root = false
is_component RelationKind.component = true
is_component RelationKind.owned_spawned_instance = false

abbrev pub is_disposition_deferred : Option Disposition → Bool
is_disposition_deferred (some Disposition.deferred) = true
is_disposition_deferred _ = false

abbrev pub is_disposition_handled : Option Disposition → Bool
is_disposition_handled (some Disposition.handled) = true
is_disposition_handled _ = false

-- `result.disposition.map(Disposition::as_str).unwrap_or("handled")`
abbrev pub disposition_or_handled : Option Disposition → String
disposition_or_handled none = "handled"
disposition_or_handled (some disposition) = disposition_as_str disposition

abbrev pub envelope_of : {P : Type 0} → Delivery P → Envelope P
envelope_of (Delivery.input envelope) = envelope
envelope_of (Delivery.internal envelope) = envelope

abbrev pub delivery_of : {V : Type 0} → Entry V → AdmissionDelivery V
delivery_of entry = record {
  delivery_mode = entry.delivery_mode;
  envelope = entry.envelope;
  envelope_digest = entry.envelope_digest;
}

-- `is_some_and(|capacity| deferred_len >= capacity)`
abbrev pub is_full : Option ℕ → ℕ → Bool
is_full none deferred_len = false
is_full (some capacity) deferred_len = leb capacity deferred_len

-- What the rewriting of a document comes to before it is sealed.
pub record Settled (V M : Type 0) : Type 0 where
  pub value : Document V M
  pub emissions : List (EmissionResult V)
  pub lifecycle : List LifecycleDisposition

module _ {V P M F : Type 0} (engine : Engine V P M F) (aggregate : NativeAggregate V M) where
  unfoldable pub core_step_result :
      Document V M
      → String
      → List (EmissionResult V)
      → List LifecycleDisposition
      → Option F
      → Option String
      → Result (StepResult V M F)
  unfolding aggregate_status
  core_step_result state disposition emissions lifecycle fault rejection = do
    status ← aggregate_status state
    ok (record {
      status = status;
      disposition = disposition;
      state = state;
      emissions = emissions;
      lifecycle_dispositions = lifecycle;
      fault = fault;
      rejection = rejection;
    })

  unfoldable pub core_step_rejected : String → Result (StepResult V M F)
  unfolding core_step_result
  core_step_rejected code = core_step_result aggregate.document "rejected" [] [] none (some code)

  -- The consumed entry leaves its queue, and the engine's new state and emissions enter the document.
  unfoldable pub settle :
      String → String → NativeAggregate V M → CoreResult V P M F → Result (Settled V M)
  unfolding remove_ready_head merge_native_state dispose_removed_mailboxes append_step_emissions
  settle target_runtime_id causal_event_id state result = do
    (head, retained) ← remove_ready_head target_runtime_id aggregate.document
    merged ← merge_native_state engine retained state
    (kept, disposed) ←
        dispose_removed_mailboxes result.emissions state.root.status causal_event_id
          aggregate.document.runtimes merged
    (value, lifecycle, emissions) ←
        append_step_emissions engine aggregate.document result.emissions disposed kept
    ok (record { value = value; emissions = emissions; lifecycle = lifecycle })

  unfoldable pub recall_if_handled :
      NativeAggregate V M → Option Disposition → Document V M → Result (Document V M)
  unfolding recall_deferred
  recall_if_handled state disposition value =
      if is_disposition_handled disposition && is_running state.root.status
      then recall_deferred engine state value
      else ok value

  -- A step that was not deferred.
  unfoldable pub finish : String → String → CoreResult V P M F → Result (StepResult V M F)
  unfolding settle recall_if_handled seal_aggregate core_step_result
  finish target_runtime_id causal_event_id result = do
    state ← ok_or result.state "core step returned no aggregate state"
    settled ← settle target_runtime_id causal_event_id state result
    recalled ← recall_if_handled state result.disposition settled.value
    sealed ← seal_aggregate engine recalled
    core_step_result sealed (disposition_or_handled result.disposition) settled.emissions
        settled.lifecycle result.fault result.rejection

  -- A deferral that finds the deferred mailbox full: the engine faults the aggregate instead.
  unfoldable pub finish_full : String → Envelope P → Result (StepResult V M F)
  unfolding settle seal_aggregate core_step_result
  finish_full target_runtime_id envelope = do
    let result = engine.fault_deferred_capacity aggregate envelope
    state ← ok_or result.state "capacity fault returned no state"
    settled ← settle target_runtime_id envelope.event_id state result
    sealed ← seal_aggregate engine settled.value
    core_step_result sealed "faulted" settled.emissions settled.lifecycle result.fault none

  unfoldable pub finish_deferred : String → Result (StepResult V M F)
  unfolding defer_head seal_aggregate core_step_result
  finish_deferred target_runtime_id = do
    value ← defer_head target_runtime_id aggregate.document
    sealed ← seal_aggregate engine value
    core_step_result sealed "deferred" [] [] none none

  unfoldable pub try_defer : String → RuntimeRecord V M → Envelope P → Result (StepResult V M F)
  unfolding finish_full finish_deferred
  try_defer target_runtime_id runtime envelope = do
    state ←
        ok_or (find_runtime target_runtime_id (runtimes_of aggregate))
          "target runtime is absent from abstract state"
    if is_full (engine.deferred_event_capacity state) (length runtime.deferred_mailbox)
        then finish_full target_runtime_id envelope
        else finish_deferred target_runtime_id

  unfoldable pub step_entry :
      String → RuntimeRecord V M → List (Entry V) → Result (StepResult V M F)
  unfolding core_delivery try_defer finish core_step_result
  step_entry target_runtime_id runtime [] =
      core_step_result aggregate.document "not_runnable" [] [] none none
  step_entry target_runtime_id runtime (entry ∷ rest) = do
    delivery ← core_delivery engine (delivery_of entry)
    let result = engine.step_native_aggregate aggregate delivery
    if is_disposition_deferred result.disposition
        then try_defer target_runtime_id runtime (envelope_of delivery)
        else finish target_runtime_id entry.envelope.event_id result

  unfoldable pub step_runtime :
      RuntimeStatus → String → Option (RuntimeRecord V M) → Result (StepResult V M F)
  unfolding step_entry core_step_rejected
  step_runtime root_status target_runtime_id none = core_step_rejected "invalid_instance_target"
  step_runtime root_status target_runtime_id (some runtime) =
      if is_faulted root_status || not (is_running runtime.status)
      then core_step_rejected (
          if not (is_faulted root_status) && is_component runtime.relation
          then "inactive_component_target"
          else "invalid_instance_target")
      else step_entry target_runtime_id runtime runtime.ready_mailbox

  unfoldable pub step_v1 : String → Result (StepResult V M F)
  unfolding step_runtime core_step_rejected aggregate_status
  step_v1 target_runtime_id = do
    engine.check_bundle
    root_status ← aggregate_status aggregate.document
    if str_eq aggregate.document.validated_bundle_fingerprint engine.bundle_fingerprint
        then step_runtime root_status target_runtime_id
            (find_runtime target_runtime_id aggregate.document.runtimes)
        else core_step_rejected "incompatible_bundle"
