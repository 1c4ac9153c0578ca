-- ===== src/Mailbox/Semantics.antt =====
-- `validate_mailbox_semantics` and `validate_restored_source` of format1/v1.rs: the test of the mailboxes of a
-- restored state against the definitions of its runtimes.
pub mod Sound
pub mod Sourced
use determa_state_rust.Prelude.{String, Bool, not, Option, none, some, List, [], ◌∷◌, str_eq, ◌&&◌}
use determa_state_rust.Codes.Runtime.{DispatchRejectionCode}
use determa_state_rust.Mailbox.Records.{
  Result, ok, ◌>>=◌, ◌>>◌, ok_or, require, invalid_aggregate, QueueEnvelope, AdmissionDelivery,
  Entry, RuntimeRecord, Document, NativeAggregate, Delivery, Engine,
}
use determa_state_rust.Mailbox.Documents.{find_runtime}
use determa_state_rust.Mailbox.Sources.{target_eq, source_is_valid, core_delivery}
use determa_state_rust.Mailbox.Step.Recall.{runtimes_of}

-- `ResolvedDefinition` of persistence.rs; `B` is the type of bundles.
pub record ResolvedDefinition (B : Type 0) : Type 0 where
  pub bundle : B
  pub trusted : Bool

-- What the restore calls: the resolver, fingerprints, and the engine's check of a queued event.
pub record Definitions (B V P M : Type 0) : Type 0 where
  -- `current_definition.validated_bundle_fingerprint`
  pub current_fingerprint : RuntimeRecord V M → String
  pub resolve_definition : String → Option (ResolvedDefinition B)
  pub fingerprint : B → String
  pub validate_queued_event_for_migration :
      B → NativeAggregate V M → Delivery P → Option DispatchRejectionCode

-- `map_err(…)`, the code that the message ends with left out
abbrev pub refuse_queued : Option DispatchRejectionCode → Result (Unit {0})
refuse_queued none = ok tt
refuse_queued (some code) =
    invalid_aggregate "mailbox delivery is invalid against its resolved definition"

abbrev pub delivery_of_entry : {V : Type 0} → Entry V → AdmissionDelivery V
delivery_of_entry entry = record {
  delivery_mode = entry.delivery_mode;
  envelope = entry.envelope;
  envelope_digest = entry.envelope_digest;
}

module _ {V M : Type 0} where
  unfoldable pub validate_restored_source :
      String → QueueEnvelope V → Document V M → Result (Unit {0})
  unfolding source_is_valid
  validate_restored_source mode envelope aggregate =
      require (source_is_valid mode envelope aggregate.runtimes) "invalid_aggregate_state"
        "mailbox source provenance is invalid"

module _ {B V P M : Type 0} (definitions : Definitions B V P M) where
  -- The definition that a runtime of the state stands on.
  unfoldable pub trusted_definition : RuntimeRecord V M → Result B
  trusted_definition runtime = do
    let fingerprint = definitions.current_fingerprint runtime
    resolved ←
        ok_or (definitions.resolve_definition fingerprint)
          "mailbox target definition is unavailable during restore"
    require (resolved.trusted && str_eq (definitions.fingerprint resolved.bundle) fingerprint)
        "invalid_aggregate_state"
        "mailbox target definition is untrusted or content-addressed incorrectly"
    ok resolved.bundle

module _ {B V P M F : Type 0} (engine : Engine V P M F) (definitions : Definitions B V P M)
    (value : Document V M) (state : NativeAggregate V M) where
  unfoldable pub check_queued : B → RuntimeRecord V M → Entry V → Result (Unit {0})
  unfolding target_eq validate_restored_source core_delivery
  check_queued bundle runtime entry = do
    engine.check_target entry.envelope.target
    require (target_eq entry.envelope.target runtime.target_identity) "invalid_aggregate_state"
        "mailbox target does not identify its containing runtime"
    validate_restored_source entry.delivery_mode entry.envelope value
    delivery ← core_delivery engine (delivery_of_entry entry)
    refuse_queued (definitions.validate_queued_event_for_migration bundle state delivery)

  unfoldable pub check_mailbox : B → RuntimeRecord V M → List (Entry V) → Result (Unit {0})
  unfolding check_queued
  check_mailbox bundle runtime [] = ok tt
  check_mailbox bundle runtime (entry ∷ entries) = do
    check_queued bundle runtime entry
    check_mailbox bundle runtime entries

  unfoldable pub check_records : List (RuntimeRecord V M) → Result (Unit {0})
  unfolding check_mailbox trusted_definition
  check_records [] = ok tt
  check_records (r ∷ rs) = do
    runtime ←
        ok_or (find_runtime r.runtime_id (runtimes_of state))
          "mailbox runtime is absent from restored state"
    bundle ← trusted_definition definitions runtime
    check_mailbox bundle runtime r.ready_mailbox
    check_mailbox bundle runtime r.deferred_mailbox
    check_records rs

  unfoldable pub validate_mailbox_semantics : Result (Unit {0})
  unfolding check_records
  validate_mailbox_semantics = check_records value.runtimes
