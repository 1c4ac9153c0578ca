-- ===== src/Mailbox/Step/Emit.antt =====
-- `append_step_emissions` of format1/v1.rs: an internal emission becomes an entry of its target's mailbox, or
-- is disposed at once if the target is gone.
use determa_state_rust.Prelude.{
  ℕ, String, Bool, true, false, Option, none, some, List, [], ◌∷◌, ◌++◌, length, str_eq,
  if◌then◌else◌, ◌&&◌, not,
}
use determa_state_rust.State.Machine.{RuntimeStatus, running, completed, faulted}
use determa_state_rust.Mailbox.Records.{
  Result, ok, ◌>>=◌, ok_or, Target, root, spawned_instance, component, external, Source, runtime,
  system, QueueEnvelope, Entry, RuntimeRecord, Document, Engine, Emission,
}
use determa_state_rust.Mailbox.Documents.{
  find_runtime, update_runtime, aggregate_status, runtime_status, allocate_acceptance,
  allocate_queue, push_ready,
}
use determa_state_rust.Mailbox.Sources.{target_runtime_id}
use determa_state_rust.Mailbox.Step.Dispose.{
  LifecycleReason, aggregate_completed, runtime_completed, runtime_cancelled, LifecycleDisposition,
  lifecycle_disposition, is_completed,
}

pub data EmissionResult (V : Type 0) : Type 0 where
  external_effect : Option String → Option ℕ → String → V → Option String → EmissionResult V
  internal_mailbox : ℕ → String → ℕ → ℕ → EmissionResult V
  internal_disposed : ℕ → String → ℕ → ℕ → EmissionResult V

abbrev pub is_external : Target → Bool
is_external (root instance_id runtime_id) = false
is_external (spawned_instance reference) = false
is_external (component instance_id owner component_id runtime_id sequence) = false
is_external external = true

-- `matches!(target_status, Some("running" | "faulted"))`
abbrev pub takes_entries : Option RuntimeStatus → Bool
takes_entries (some running) = true
takes_entries (some faulted) = true
takes_entries (some completed) = false
takes_entries none = false

-- `target_status == Some("completed")`
abbrev pub has_completed : Option RuntimeStatus → Bool
has_completed none = false
has_completed (some status) = is_completed status

-- `aggregate_status(value).ok() == Some("completed")`
abbrev pub status_completed : Result RuntimeStatus → Bool
status_completed (ok status) = is_completed status
status_completed (Result.err e) = false

-- What an emission leads to: the document, the dispositions so far, and its own result.
pub record Emitted (V M : Type 0) : Type 0 where
  pub value : Document V M
  pub lifecycle : List LifecycleDisposition
  pub result : EmissionResult V

abbrev pub emitted_entry : {V : Type 0} → QueueEnvelope V → String → ℕ → ℕ → Entry V
emitted_entry envelope digest acceptance queue = record {
  acceptance_sequence = acceptance;
  queue_sequence = queue;
  delivery_mode = "internal";
  envelope = envelope;
  envelope_digest = digest;
  deferral_count = 0;
}

abbrev pub gone_reason : Bool → Option RuntimeStatus → LifecycleReason
gone_reason aggregate_done target_status =
    if aggregate_done
    then aggregate_completed
    else if has_completed target_status
    then runtime_completed
    else runtime_cancelled

module _ {V M : Type 0} where
  -- `runtime_target(value, …).or_else(|| runtime_target(old, …))`
  abbrev pub runtime_target :
      Option (RuntimeRecord V M) → Option (RuntimeRecord V M) → Option Target
  runtime_target (some r) other = some r.target_identity
  runtime_target none (some r) = some r.target_identity
  runtime_target none none = none

  unfoldable pub emission_source :
      {P : Type 0} → Document V M → Document V M → Emission P → Option String → Result Source
  emission_source value old emission (some locator) = ok (system locator)
  emission_source value old emission none = do
    target ←
        ok_or
          (runtime_target (find_runtime emission.emitting_runtime_id value.runtimes)
            (find_runtime emission.emitting_runtime_id old.runtimes))
          "internal emission source runtime is absent"
    ok (runtime target)

  unfoldable pub disposal_reason :
      Document V M → String → Option RuntimeStatus → Result LifecycleReason
  unfolding aggregate_status
  disposal_reason value target_id target_status =
      if str_eq value.root_runtime_id target_id
      then (do
        status ← aggregate_status value
        ok (gone_reason (is_completed status) target_status))
      else ok (gone_reason false target_status)

  unfoldable pub enqueue_emission :
      ℕ → Entry V → String → List LifecycleDisposition → Document V M → Result (Emitted V M)
  unfolding update_runtime
  enqueue_emission emission_index entry target_id lifecycle value = do
    next ← update_runtime target_id (push_ready entry) value
    ok (record {
      value = next;
      lifecycle = lifecycle;
      result =
          internal_mailbox emission_index entry.envelope.event_id entry.acceptance_sequence
            entry.queue_sequence;
    })

  unfoldable pub dispose_emission :
      ℕ → Entry V → Option String → List LifecycleDisposition → Document V M → Result (Emitted V M)
  unfolding disposal_reason
  dispose_emission emission_index entry target lifecycle value = do
    target_id ← ok_or target "internal target is external"
    reason ← disposal_reason value target_id (runtime_status value target_id)
    ok (record {
      value = value;
      lifecycle = lifecycle ++ (lifecycle_disposition entry target_id reason ∷ []);
      result =
          internal_disposed emission_index entry.envelope.event_id entry.acceptance_sequence
            (length lifecycle);
    })

  unfoldable pub deliver_emission :
      ℕ → Entry V → Option String → List LifecycleDisposition → Document V M → Result (Emitted V M)
  unfolding enqueue_emission dispose_emission aggregate_status
  deliver_emission emission_index entry none lifecycle value =
      dispose_emission emission_index entry none lifecycle value
  deliver_emission emission_index entry (some target_id) lifecycle value =
      if takes_entries (runtime_status value target_id)
        && not (status_completed (aggregate_status value))
      then enqueue_emission emission_index entry target_id lifecycle value
      else dispose_emission emission_index entry (some target_id) lifecycle value

  module _ {P F : Type 0} (engine : Engine V P M F) (old : Document V M) where
    unfoldable pub emission_envelope : Document V M → Emission P → Result (QueueEnvelope V)
    unfolding emission_source
    emission_envelope value emission = do
      event_id ← ok_or emission.event_id "internal emission has no event id"
      cause_id ← ok_or emission.cause_id "internal emission has no causal event id"
      source ← emission_source value old emission emission.system_source
      ok (record {
        event = emission.event;
        event_id = event_id;
        cause_id = cause_id;
        source = source;
        target = emission.target;
        payload = engine.payload_from_map emission.payload;
        correlation_id = emission.correlation_id;
      })

    unfoldable pub emit_internal :
        Emission P → List LifecycleDisposition → Document V M → Result (Emitted V M)
    unfolding emission_envelope deliver_emission target_runtime_id
    emit_internal emission lifecycle value = do
      envelope ← emission_envelope value emission
      digest ← engine.envelope_digest value.root_instance_id "internal" envelope
      deliver_emission emission.emission_index
          (emitted_entry envelope digest value.next_acceptance_sequence value.next_queue_sequence)
          (target_runtime_id emission.target) lifecycle (allocate_queue (allocate_acceptance value))

    abbrev pub external_result : Emission P → EmissionResult V
    external_result emission =
        external_effect emission.effect_id emission.sequence emission.event
          (engine.payload_from_map emission.payload) emission.correlation_id

    unfoldable pub append_step_emissions :
        List (Emission P)
        → List LifecycleDisposition
        → Document V M
        → Result (Document V M × List LifecycleDisposition × List (EmissionResult V))
    unfolding emit_internal
    append_step_emissions [] lifecycle value = ok (value, lifecycle, [])
    append_step_emissions (e ∷ es) lifecycle value = elim (is_external e.target) [
      | true ↦ do
        (last, dispositions, results) ← append_step_emissions es lifecycle value
        ok (last, dispositions, external_result e ∷ results)
      | false ↦ do
        emitted ← emit_internal e lifecycle value
        (last, dispositions, results) ← append_step_emissions es emitted.lifecycle emitted.value
        ok (last, dispositions, emitted.result ∷ results)
    ]
