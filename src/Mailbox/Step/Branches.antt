-- ===== src/Mailbox/Step/Branches.antt =====
-- The branches of `step_v1_impl` in format1/v1.rs: each keeps or reports every queued event.
use determa_state_rust.Prelude.{
  ◌+◌, String, Bool, true, false, Option, none, some, List, [], ◌∷◌, ◌≡◌, refl, str_eq, eq_iff,
  arith, Bool-cases, Option-cases, inl, inr, ◌&&◌, length,
}
use determa_state_rust.Checkpoint.ByKey.{count, count-append}
use determa_state_rust.Codes.Runtime.{Disposition}
use determa_state_rust.State.Active.{is_running}
use determa_state_rust.Mailbox.Records.{
  ok, Result-cases, Entry, RuntimeRecord, Document, NativeAggregate, Engine, Envelope, Delivery,
  CoreResult, AdmissionDelivery,
}
use determa_state_rust.Mailbox.Copies.{is_event, copies, copies-seal_aggregate, update_runtime_lem}
use determa_state_rust.Mailbox.Documents.{
  find_runtime, update_runtime, aggregate_status, unique_ids, seal_aggregate,
}
use determa_state_rust.Mailbox.Sources.{core_delivery, with_mode}
use determa_state_rust.Mailbox.Step.Recall.{
  runtimes_of, remove_ready_head, defer_head, push_deferred,
}
use determa_state_rust.Mailbox.Step.Dispose.{LifecycleDisposition}
use determa_state_rust.Mailbox.Step.Emit.{EmissionResult}
use determa_state_rust.Mailbox.Step.Run.{
  StepResult, settle, finish, finish_full, finish_deferred, try_defer, core_step_result,
  core_step_rejected, recall_if_handled, is_disposition_handled, envelope_of, is_full,
  disposition_or_handled,
}
use determa_state_rust.Mailbox.Step.Recalled.{remove_ready_head-Removed, copies-recall_deferred}
use determa_state_rust.Mailbox.Step.Disposed.{reports}
use determa_state_rust.Mailbox.Step.Emitted.{names_event}
use determa_state_rust.Mailbox.Step.Conserves.{settle-Conserved}

-- Whether the entry that a step of the runtime would take has the event id.
abbrev pub heads : {V M : Type 0} → String → Option (RuntimeRecord V M) → Bool
heads k none = false
heads k (some r) = elim r.ready_mailbox [ [] ↦ false | entry ∷ rest ↦ is_event k entry ]

with_mode-event_id :
    {P : Type 0} (mode : String) (envelope : Envelope P) (delivery : Delivery P)
    → with_mode mode envelope ≡ ok delivery
    → (envelope_of delivery).event_id ≡ envelope.event_id
with_mode-event_id mode envelope delivery h = elim (Bool-cases (str_eq mode "input")) [
  | inl e ↦ let out : delivery ≡ Delivery.input envelope = cc in rw out
  | inr e ↦ elim (Bool-cases (str_eq mode "internal")) [
    | inl e' ↦ let out : delivery ≡ Delivery.internal envelope = cc in rw out
    | inr e' ↦ cc
  ]
]

pub core_delivery-event_id :
    {V P M F : Type 0} (engine : Engine V P M F) (d : AdmissionDelivery V) (delivery : Delivery P)
    → core_delivery engine d ≡ ok delivery
    → (envelope_of delivery).event_id ≡ d.envelope.event_id
unfolding core_delivery
core_delivery-event_id engine d delivery h =
    elim (Result-cases (engine.payload_map d.envelope.payload)) [
      | inr (x, e) ↦ cc
      | inl (payload, e) ↦ elim (Result-cases (engine.check_target d.envelope.target)) [
        | inr (x, e') ↦ cc
        | inl (u, e') ↦
            with_mode-event_id d.delivery_mode
              (record {
                event = d.envelope.event;
                event_id = d.envelope.event_id;
                target = d.envelope.target;
                payload = payload;
                correlation_id = d.envelope.correlation_id;
              })
              delivery (cc)
      ]
    ]

apart_of_other : (a k : String) → str_eq a k ≡ false → str_eq k a ≡ false
apart_of_other a k h = ground (arith, eq_iff a k, eq_iff k a)

module _ {V P M F : Type 0} (engine : Engine V P M F) (aggregate : NativeAggregate V M)
    (k : String) where
  -- The event id is held or reported afterwards as often as it was held or emitted.
  abbrev pub Conserves : StepResult V M F → Type 0
  Conserves step =
      copies (is_event k) step.state + count (reports k) step.lifecycle_dispositions
      ≡ copies (is_event k) aggregate.document + count (names_event k) step.emissions

  pub core_step_result-Conserves :
      (state : Document V M) (disposition : String) (emissions : List (EmissionResult V))
      (lifecycle : List LifecycleDisposition) (fault : Option F) (rejection : Option String)
      (step : StepResult V M F)
      → core_step_result engine aggregate state disposition emissions lifecycle fault rejection
        ≡ ok step
      → copies (is_event k) state + count (reports k) lifecycle
        ≡ copies (is_event k) aggregate.document + count (names_event k) emissions
      → Conserves step
  unfolding core_step_result
  core_step_result-Conserves state disposition emissions lifecycle fault rejection step h same =
      elim (Result-cases (aggregate_status state)) [
        | inr (x, e) ↦ cc
        | inl (status, e) ↦
            let s : step.state ≡ state = cc in
            let es : step.emissions ≡ emissions = cc in
            let ls : step.lifecycle_dispositions ≡ lifecycle = cc in rw (s, es, ls) same
      ]

  pub core_step_rejected-Conserves :
      (code : String) (step : StepResult V M F)
      → core_step_rejected engine aggregate code ≡ ok step
      → Conserves step
  unfolding core_step_rejected
  core_step_rejected-Conserves code step h =
      core_step_result-Conserves aggregate.document "rejected" [] [] none (some code) step h
        (omega arith)

  recall_if_handled_lem :
      (state : NativeAggregate V M) (disposition : Option Disposition) (value next : Document V M)
      → recall_if_handled engine aggregate state disposition value ≡ ok next
      → copies (is_event k) next ≡ copies (is_event k) value
  unfolding recall_if_handled
  recall_if_handled_lem state disposition value next h =
      elim (Bool-cases (is_disposition_handled disposition && is_running state.root.status)) [
        | inl e ↦
            copies-recall_deferred engine (is_event k) (λ entry queue. refl) state value next
              (rw e at h)
        | inr e ↦ let out : next ≡ value = cc in rw out
      ]

  module _ (id : String) (r : RuntimeRecord V M) (head : Entry V) (queue : List (Entry V))
      (unique : unique_ids aggregate.document.runtimes ≡ true)
      (found : find_runtime id aggregate.document.runtimes ≡ some r)
      (ready : r.ready_mailbox ≡ head ∷ queue) (other : is_event k head ≡ false) where
    pub finish-Conserves :
        (result : CoreResult V P M F) (step : StepResult V M F)
        → finish engine aggregate id head.envelope.event_id result ≡ ok step
        → Conserves step
    unfolding finish
    finish-Conserves result step h = elim (Option-cases result.state) [
      | inl e ↦ cc
      | inr (state, e) ↦
          elim (Result-cases (settle engine aggregate id head.envelope.event_id state result)) [
            | inr (x, e₁) ↦ cc
            | inl (settled, e₁) ↦
                elim (Result-cases
                  (recall_if_handled engine aggregate state result.disposition settled.value)) [
                    | inr (x, e₂) ↦ cc
                    | inl (recalled, e₂) ↦ elim (Result-cases (seal_aggregate engine recalled)) [
                      | inr (x, e₃) ↦ cc
                      | inl (sealed, e₃) ↦
                          let conserved =
                            settle-Conserved engine aggregate k id head.envelope.event_id state
                              result head queue r settled unique found ready other
                              (apart_of_other head.envelope.event_id k other) e₁ in
                          core_step_result-Conserves sealed
                            (disposition_or_handled result.disposition) settled.emissions
                            settled.lifecycle result.fault result.rejection step (cc)
                            (omega (
                              arith,
                              conserved,
                              recall_if_handled_lem state result.disposition settled.value recalled
                                  e₂,
                              copies-seal_aggregate (is_event k) engine recalled sealed e₃,
                            ))
                    ]
                  ]
          ]
    ]

    finish_full-Conserves :
        (envelope : Envelope P) (step : StepResult V M F)
        → envelope.event_id ≡ head.envelope.event_id
        → finish_full engine aggregate id envelope ≡ ok step
        → Conserves step
    unfolding finish_full
    finish_full-Conserves envelope step same h =
        let result = engine.fault_deferred_capacity aggregate envelope in
        elim (Option-cases result.state) [
          | inl e ↦ cc
          | inr (state, e) ↦
              elim (Result-cases (settle engine aggregate id envelope.event_id state result)) [
                | inr (x, e₁) ↦ cc
                | inl (settled, e₁) ↦ elim (Result-cases (seal_aggregate engine settled.value)) [
                  | inr (x, e₂) ↦ cc
                  | inl (sealed, e₂) ↦
                      let apart : str_eq k envelope.event_id ≡ false =
                        rw same (apart_of_other head.envelope.event_id k other) in
                      let conserved =
                        settle-Conserved engine aggregate k id envelope.event_id state result head
                          queue r settled unique found ready other apart e₁ in
                      core_step_result-Conserves sealed "faulted" settled.emissions
                        settled.lifecycle result.fault none step (cc)
                        (omega (
                          arith,
                          conserved,
                          copies-seal_aggregate (is_event k) engine settled.value sealed e₂,
                        ))
                ]
              ]
        ]

    finish_deferred-Conserves :
        (step : StepResult V M F) → finish_deferred engine aggregate id ≡ ok step → Conserves step
    unfolding finish_deferred defer_head
    finish_deferred-Conserves step h =
        let p = is_event k in
        let document = aggregate.document in
        elim (Result-cases (remove_ready_head id document)) [
          | inr (x, e) ↦ cc
          | inl (taken, e) ↦
              let number = taken.1.next_queue_sequence in
              let deferred : Entry V = record taken.0 {
                queue_sequence = number;
                deferral_count = taken.0.deferral_count + 1;
              } in
              let counted : Document V M = record taken.1 { next_queue_sequence = number + 1 } in
              elim (Result-cases (update_runtime id (push_deferred deferred) counted)) [
                | inr (x, e₁) ↦ cc
                | inl (value, e₁) ↦ elim (Result-cases (seal_aggregate engine value)) [
                  | inr (x, e₂) ↦ cc
                  | inl (sealed, e₂) ↦
                      let removed = remove_ready_head-Removed p id document taken e in
                      let (frame, (s, there, changed)) =
                        update_runtime_lem p id (push_deferred deferred) counted value e₁ in
                      let pushed = count-append p s.deferred_mailbox (deferred ∷ []) in
                      core_step_result-Conserves sealed "deferred" [] [] none none step (cc) (
                        ground (
                          arith,
                          removed.counted,
                          changed,
                          pushed,
                          copies-seal_aggregate p engine value sealed e₂,
                        ))
                ]
              ]
        ]

    pub try_defer-Conserves :
        (envelope : Envelope P) (step : StepResult V M F)
        → envelope.event_id ≡ head.envelope.event_id
        → try_defer engine aggregate id r envelope ≡ ok step
        → Conserves step
    unfolding try_defer
    try_defer-Conserves envelope step same h =
        elim (Option-cases (find_runtime id (runtimes_of aggregate))) [
          | inl e ↦ cc
          | inr (state, e) ↦
              elim (Bool-cases
                (is_full (engine.deferred_event_capacity state) (length r.deferred_mailbox))) [
                  | inl e₁ ↦ finish_full-Conserves envelope step same (cc)
                  | inr e₁ ↦ finish_deferred-Conserves step (cc)
                ]
        ]
