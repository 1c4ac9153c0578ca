-- ===== src/Mailbox/Step/Emitted.antt =====
-- Every internal emission that `append_step_emissions` of format1/v1.rs writes is queued or reported, once.
use determa_state_rust.Prelude.{
  ℕ, ◌+◌, String, Bool, false, not, Option, none, some, List, [], ◌∷◌, ◌++◌, ◌≡◌, str_eq, arith,
  Bool-cases, inl, inr, ◌&&◌,
}
use determa_state_rust.Checkpoint.ByKey.{count, count-append}
use determa_state_rust.Mailbox.Records.{ok, Result-cases, Entry, Document, Engine, Emission}
use determa_state_rust.Mailbox.Copies.{one_if, is_event, copies}
use determa_state_rust.Mailbox.Documents.{
  update_runtime, push_ready, allocate_acceptance, allocate_queue, runtime_status, aggregate_status,
}
use determa_state_rust.Mailbox.Sources.{target_runtime_id}
use determa_state_rust.Mailbox.Admit.Added.{copies-push_ready}
use determa_state_rust.Mailbox.Step.Dispose.{lifecycle_disposition, LifecycleDisposition}
use determa_state_rust.Mailbox.Step.Disposed.{reports}
use determa_state_rust.Mailbox.Step.Emit.{
  internal_disposed, internal_mailbox, external_effect, external_result, Emitted, EmissionResult,
  is_external, takes_entries, status_completed, enqueue_emission, dispose_emission,
  deliver_emission, disposal_reason, emission_envelope, emitted_entry, emit_internal,
  append_step_emissions,
}

-- The test for results of internal emissions of one event id.
abbrev pub names_event : {V : Type 0} → String → EmissionResult V → Bool
names_event k (external_effect effect_id sequence event payload correlation_id) = false
names_event k (internal_mailbox index event_id acceptance queue) = str_eq event_id k
names_event k (internal_disposed index event_id acceptance disposition) = str_eq event_id k

module _ {V M : Type 0} (k : String) (index : ℕ) (entry : Entry V) where
  -- The entry is in a mailbox or in the report, beside what was there.
  abbrev Placed : List LifecycleDisposition → Document V M → Emitted V M → Type 0
  Placed lifecycle value emitted =
      copies (is_event k) emitted.value + count (reports k) emitted.lifecycle
      ≡ copies (is_event k) value
        + count (reports k) lifecycle
        + one_if (names_event k emitted.result)

  enqueue-Placed :
      (id : String) (lifecycle : List LifecycleDisposition) (value : Document V M)
      (emitted : Emitted V M)
      → enqueue_emission index entry id lifecycle value ≡ ok emitted
      → Placed lifecycle value emitted
  unfolding enqueue_emission
  enqueue-Placed id lifecycle value emitted h =
      elim (Result-cases (update_runtime id (push_ready entry) value)) [
        | inr (x, e) ↦ cc
        | inl (next, e) ↦
            let after : emitted.value ≡ next = cc in
            let out : emitted.lifecycle ≡ lifecycle = cc in
            let named : names_event k emitted.result ≡ is_event k entry = cc in
            rw (after, out, named)
              (omega (arith, copies-push_ready (is_event k) id entry value next e))
      ]

  dispose-Placed :
      (target : Option String) (lifecycle : List LifecycleDisposition) (value : Document V M)
      (emitted : Emitted V M)
      → dispose_emission index entry target lifecycle value ≡ ok emitted
      → Placed lifecycle value emitted
  unfolding dispose_emission
  dispose-Placed none lifecycle value emitted h = cc
  dispose-Placed (some id) lifecycle value emitted h =
      elim (Result-cases (disposal_reason value id (runtime_status value id))) [
        | inr (x, e) ↦ cc
        | inl (reason, e) ↦
            let after : emitted.value ≡ value = cc in
            let out : emitted.lifecycle
                ≡ lifecycle ++ (lifecycle_disposition entry id reason ∷ []) =
              cc in
            let named : names_event k emitted.result ≡ is_event k entry = cc in
            rw (after, out, named)
              (ground (
                arith,
                count-append (reports k) lifecycle (lifecycle_disposition entry id reason ∷ []),
              ))
      ]

  deliver-Placed :
      (target : Option String) (lifecycle : List LifecycleDisposition) (value : Document V M)
      (emitted : Emitted V M)
      → deliver_emission index entry target lifecycle value ≡ ok emitted
      → Placed lifecycle value emitted
  unfolding deliver_emission
  deliver-Placed none lifecycle value emitted h = dispose-Placed none lifecycle value emitted h
  deliver-Placed (some id) lifecycle value emitted h =
      elim (Bool-cases (
        takes_entries (runtime_status value id)
        && not (status_completed (aggregate_status value)))) [
          | inl e ↦ enqueue-Placed id lifecycle value emitted (rw e at h)
          | inr e ↦ dispose-Placed (some id) lifecycle value emitted (rw e at h)
        ]

module _ {V P M F : Type 0} (engine : Engine V P M F) (old : Document V M) (k : String) where
  emit_internal_lem :
      (e : Emission P) (lifecycle : List LifecycleDisposition) (value : Document V M)
      (emitted : Emitted V M)
      → emit_internal engine old e lifecycle value ≡ ok emitted
      → copies (is_event k) emitted.value + count (reports k) emitted.lifecycle
        ≡ copies (is_event k) value
          + count (reports k) lifecycle
          + one_if (names_event k emitted.result)
  unfolding emit_internal
  emit_internal_lem e lifecycle value emitted h =
      elim (Result-cases (emission_envelope engine old value e)) [
        | inr (x, n) ↦ cc
        | inl (envelope, n) ↦
            elim (Result-cases
              (engine.envelope_digest value.root_instance_id "internal" envelope)) [
                | inr (x, n') ↦ cc
                | inl (digest, n') ↦
                    let entry =
                      emitted_entry envelope digest value.next_acceptance_sequence
                        value.next_queue_sequence in
                    let placed =
                      deliver-Placed k e.emission_index entry (target_runtime_id e.target) lifecycle
                        (allocate_queue (allocate_acceptance value)) emitted (cc) in
                    placed
              ]
      ]

  -- The whole loop adds one entry or one report for each internal emission.
  pub append_step_lem :
      (es : List (Emission P)) (lifecycle : List LifecycleDisposition) (value : Document V M)
      (done : Document V M × List LifecycleDisposition × List (EmissionResult V))
      → append_step_emissions engine old es lifecycle value ≡ ok done
      → copies (is_event k) done.0 + count (reports k) done.1
        ≡ copies (is_event k) value + count (reports k) lifecycle + count (names_event k) done.2
  unfolding append_step_emissions
  append_step_lem [] lifecycle value done h =
      let out : done ≡ (value, lifecycle, []) = cc in rw out (omega arith)
  append_step_lem (e ∷ es) lifecycle value done h = elim (Bool-cases (is_external e.target)) [
    | inl x ↦ elim (Result-cases (append_step_emissions engine old es lifecycle value)) [
      | inr (y, n) ↦ cc
      | inl (rest, n) ↦
          let out : done ≡ (rest.0, rest.1, external_result engine old e ∷ rest.2) = cc in
          rw out (append_step_lem es lifecycle value rest n)
    ]
    | inr x ↦ elim (Result-cases (emit_internal engine old e lifecycle value)) [
      | inr (y, n) ↦ cc
      | inl (emitted, n) ↦
          elim (Result-cases
            (append_step_emissions engine old es emitted.lifecycle emitted.value)) [
              | inr (y, n') ↦ cc
              | inl (rest, n') ↦
                  let out : done ≡ (rest.0, rest.1, emitted.result ∷ rest.2) = cc in
                  rw out (
                    ground (
                      arith,
                      append_step_lem es emitted.lifecycle emitted.value rest n',
                      emit_internal_lem e lifecycle value emitted n,
                    ))
            ]
    ]
  ]
