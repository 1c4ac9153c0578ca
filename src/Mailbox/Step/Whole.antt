-- ===== src/Mailbox/Step/Whole.antt =====
-- The whole of `step_v1` in format1/v1.rs: no queued event is lost or doubled.
use determa_state_rust.Prelude.{
  String, true, false, not, Option, none, some, List, [], ◌∷◌, ◌≡◌, refl, str_eq, arith, Bool-cases,
  inl, inr, ◌||◌,
}
use determa_state_rust.State.Machine.{RuntimeStatus}
use determa_state_rust.State.Active.{is_running}
use determa_state_rust.Mailbox.Records.{
  ok, Result-cases, Entry, RuntimeRecord, NativeAggregate, Engine,
}
use determa_state_rust.Mailbox.Copies.{is_event}
use determa_state_rust.Mailbox.Documents.{find_runtime, aggregate_status, unique_ids}
use determa_state_rust.Mailbox.Sources.{core_delivery}
use determa_state_rust.Mailbox.Step.Run.{
  StepResult, step_entry, step_runtime, step_v1, is_disposition_deferred, delivery_of, envelope_of,
  is_faulted,
}
-- Whether the entry that a step of the runtime would take has the event id.
use determa_state_rust.Mailbox.Step.Branches.{
  heads, Conserves, core_delivery-event_id, core_step_result-Conserves,
  core_step_rejected-Conserves, try_defer-Conserves, finish-Conserves,
}

module _ {V P M F : Type 0} (engine : Engine V P M F) (aggregate : NativeAggregate V M)
    (k : String) where
  step_entry-Conserves :
      (id : String) (r : RuntimeRecord V M) (entries : List (Entry V)) (step : StepResult V M F)
      → unique_ids aggregate.document.runtimes ≡ true
      → find_runtime id aggregate.document.runtimes ≡ some r
      → r.ready_mailbox ≡ entries
      → heads k (some r) ≡ false
      → step_entry engine aggregate id r entries ≡ ok step
      → Conserves engine aggregate k step
  unfolding step_entry
  step_entry-Conserves id r [] step unique found ready other h =
      core_step_result-Conserves engine aggregate k aggregate.document "not_runnable" [] [] none
        none step h (omega arith)
  step_entry-Conserves id r (head ∷ queue) step unique found ready other h =
      let apart : is_event k head ≡ false = rw ready at other in
      elim (Result-cases (core_delivery engine (delivery_of head))) [
        | inr (x, e) ↦ cc
        | inl (delivery, e) ↦
            let result = engine.step_native_aggregate aggregate delivery in
            elim (Bool-cases (is_disposition_deferred result.disposition)) [
              | inl e₁ ↦
                  try_defer-Conserves engine aggregate k id r head queue unique found ready apart
                    (envelope_of delivery) step
                    (core_delivery-event_id engine (delivery_of head) delivery e) (cc)
              | inr e₁ ↦
                  finish-Conserves engine aggregate k id r head queue unique found ready apart
                    result step (cc)
            ]
      ]

  step_runtime-Conserves :
      (status : RuntimeStatus) (id : String) (o : Option (RuntimeRecord V M))
      (step : StepResult V M F)
      → unique_ids aggregate.document.runtimes ≡ true
      → find_runtime id aggregate.document.runtimes ≡ o
      → heads k o ≡ false
      → step_runtime engine aggregate status id o ≡ ok step
      → Conserves engine aggregate k step
  unfolding step_runtime
  step_runtime-Conserves status id none step unique found other h =
      core_step_rejected-Conserves engine aggregate k "invalid_instance_target" step h
  step_runtime-Conserves status id (some r) step unique found other h =
      elim (Bool-cases (is_faulted status || not (is_running r.status))) [
        | inl e ↦ core_step_rejected-Conserves engine aggregate k _ step (rw e at h)
        | inr e ↦ step_entry-Conserves id r r.ready_mailbox step unique found refl other (rw e at h)
      ]

  -- Where a step answers, on whatever branch, an event id that is not the one at the head of the stepped
  -- runtime's queue stands in the mailboxes and the report afterwards as often as it stood in the
  -- mailboxes before and among the internal emissions that the step names. The document has no two
  -- runtimes of one id.
  pub step-Conserves :
      (id : String) (step : StepResult V M F)
      → unique_ids aggregate.document.runtimes ≡ true
      → heads k (find_runtime id aggregate.document.runtimes) ≡ false
      → step_v1 engine aggregate id ≡ ok step
      → Conserves engine aggregate k step
  unfolding step_v1
  step-Conserves id step unique other h = elim (Result-cases engine.check_bundle) [
    | inr (x, e) ↦ cc
    | inl (u, e) ↦ elim (Result-cases (aggregate_status aggregate.document)) [
      | inr (x, e₁) ↦ cc
      | inl (status, e₁) ↦
          elim (Bool-cases
            (str_eq aggregate.document.validated_bundle_fingerprint engine.bundle_fingerprint)) [
              | inl e₂ ↦
                  step_runtime-Conserves status id (find_runtime id aggregate.document.runtimes)
                    step unique refl other (cc)
              | inr e₂ ↦
                  core_step_rejected-Conserves engine aggregate k "incompatible_bundle" step (cc)
            ]
    ]
  ]
