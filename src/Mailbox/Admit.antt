-- ===== src/Mailbox/Admit.antt =====
-- `admit_v1` of format1/v1.rs: a batch of deliveries is refused whole, answered as a replay, or appended to
-- the ready mailboxes of its targets.
pub mod Added
pub mod Digests
pub mod Fresh
pub mod Passed
pub mod Located
pub mod Once
pub mod Ordered
pub mod Restores
pub mod Retry
use determa_state_rust.Prelude.{
  ℕ, String, Bool, false, not, Option, none, some, List, [], ◌∷◌, any, find, str_eq, ltb,
  if◌then◌else◌, ◌||◌, inl, inr,
}
use determa_state_rust.State.Machine.{RuntimeStatus}
use determa_state_rust.Codes.Runtime.{DispatchRejectionCode, dispatch_rejection_code_as_str}
use determa_state_rust.Mailbox.Records.{
  Result, ok, ◌>>=◌, ◌>>◌, require, fail, AdmissionDelivery, Entry, RuntimeRecord, Document,
  NativeAggregate, Engine,
}
use determa_state_rust.Mailbox.Documents.{
  update_runtime, aggregate_status, allocate_acceptance, allocate_queue, push_ready, seal_aggregate,
}
use determa_state_rust.Mailbox.Sources.{validate_source, core_delivery}

pub data Place : Type 0 where
  ready deferred : Place

pub record MailboxLocation : Type 0 where
  pub event_id : String
  pub digest : String
  pub acceptance_sequence : ℕ
  pub location : Place

pub record Accepted : Type 0 where
  pub event_id : String
  pub acceptance_sequence : ℕ
  pub queue_sequence : ℕ

pub data Admission (V M : Type 0) : Type 0 where
  replay : RuntimeStatus → Document V M → MailboxLocation → Admission V M
  accepted : RuntimeStatus → Document V M → List Accepted → Admission V M

-- Whether an event id was inserted into `seen` before.
unfoldable pub has_duplicate : {V : Type 0} → List String → List (AdmissionDelivery V) → Bool
has_duplicate seen [] = false
has_duplicate seen (d ∷ ds) =
    any (str_eq d.envelope.event_id) seen || has_duplicate (d.envelope.event_id ∷ seen) ds

module _ {V : Type 0} where
  abbrev pub located : Place → Entry V → MailboxLocation
  located place entry = record {
    event_id = entry.envelope.event_id;
    digest = entry.envelope_digest;
    acceptance_sequence = entry.acceptance_sequence;
    location = place;
  }

  -- The map as the list of its insertions, the last one first.
  unfoldable pub locate_in : Place → List (Entry V) → List MailboxLocation → List MailboxLocation
  locate_in place [] locations = locations
  locate_in place (e ∷ es) locations = locate_in place es (located place e ∷ locations)

  unfoldable pub mailbox_locations :
      {M : Type 0} → List (RuntimeRecord V M) → List MailboxLocation → List MailboxLocation
  unfolding locate_in
  mailbox_locations [] locations = locations
  mailbox_locations (r ∷ rs) locations =
      mailbox_locations rs
        (locate_in deferred r.deferred_mailbox (locate_in ready r.ready_mailbox locations))

abbrev pub is_located : String → MailboxLocation → Bool
is_located event_id location = str_eq location.event_id event_id

-- `admission_failure_rank`
unfoldable pub admission_failure_rank : DispatchRejectionCode → ℕ
admission_failure_rank DispatchRejectionCode.invalid_instance_target = 0
admission_failure_rank DispatchRejectionCode.inactive_component_target = 0
admission_failure_rank DispatchRejectionCode.invalid_event = 1
admission_failure_rank DispatchRejectionCode.invalid_payload = 2
admission_failure_rank DispatchRejectionCode.invalid_correlation = 3
admission_failure_rank DispatchRejectionCode.incompatible_bundle = 4
admission_failure_rank DispatchRejectionCode.invalid_prior_state = 4

-- `rank < *prior`, or there is no prior failure
unfoldable pub worse :
    Option DispatchRejectionCode → DispatchRejectionCode → Option DispatchRejectionCode
unfolding admission_failure_rank
worse none code = some code
worse (some prior) code =
    if ltb (admission_failure_rank code) (admission_failure_rank prior)
    then some code
    else some prior

-- The two lists that the first loop fills, in order.
pub record Batch (V : Type 0) : Type 0 where
  pub replay : List (AdmissionDelivery V × MailboxLocation)
  pub fresh : List (AdmissionDelivery V × String)

pub record Checked (V : Type 0) : Type 0 where
  pub delivery : AdmissionDelivery V
  pub computed : String
  pub runtime_id : String

-- `map_dispatch_rejection`
abbrev pub reject : Option DispatchRejectionCode → Result (Unit {0})
reject none = ok tt
reject (some code) = fail (dispatch_rejection_code_as_str code) "delivery is not admissible"

module _ {V : Type 0} where
  -- `matches!(delivery.delivery_mode.as_str(), "input" | "internal")` for each fresh delivery
  unfoldable pub check_modes : List (AdmissionDelivery V × String) → Result (Unit {0})
  check_modes [] = ok tt
  check_modes ((d, computed) ∷ ds) = do
    require (str_eq d.delivery_mode "input" || str_eq d.delivery_mode "internal")
        "invalid_delivery_mode" "invalid delivery mode"
    check_modes ds

  unfoldable pub check_digests : List (Checked V) → Result (Unit {0})
  check_digests [] = ok tt
  check_digests (c ∷ cs) = do
    require (str_eq c.delivery.envelope_digest c.computed) "delivery_digest_mismatch"
        "supplied envelope digest does not match canonical content"
    check_digests cs

  abbrev pub queued : AdmissionDelivery V → ℕ → ℕ → Entry V
  queued d acceptance queue = record {
    acceptance_sequence = acceptance;
    queue_sequence = queue;
    delivery_mode = d.delivery_mode;
    envelope = d.envelope;
    envelope_digest = d.envelope_digest;
    deferral_count = 0;
  }

module _ {V M : Type 0} where
  unfoldable pub check_sources :
      Document V M → List (AdmissionDelivery V × String) → Result (Unit {0})
  unfolding validate_source
  check_sources aggregate [] = ok tt
  check_sources aggregate ((d, computed) ∷ ds) = do
    validate_source d aggregate
    check_sources aggregate ds

  -- The last loop: each delivery takes its two numbers and goes to the end of its target's queue.
  unfoldable pub append_deliveries :
      Document V M → List (Checked V) → Result (Document V M × List Accepted)
  unfolding update_runtime
  append_deliveries value [] = ok (value, [])
  append_deliveries value (c ∷ cs) = do
    let acceptance = value.next_acceptance_sequence
    let queue = value.next_queue_sequence
    next ←
        update_runtime c.runtime_id (push_ready (queued c.delivery acceptance queue))
          (allocate_queue (allocate_acceptance value))
    rest ← append_deliveries next cs
    let one : Accepted = record {
      event_id = c.delivery.envelope.event_id;
      acceptance_sequence = acceptance;
      queue_sequence = queue;
    }
    ok (rest.0, one ∷ rest.1)

module _ {V P M F : Type 0} (engine : Engine V P M F) where
  unfoldable pub sort_deliveries :
      String → List MailboxLocation → List (AdmissionDelivery V) → Result (Batch V)
  sort_deliveries root_instance_id locations [] = ok (record { replay = []; fresh = [] })
  sort_deliveries root_instance_id locations (d ∷ ds) = do
    engine.validate_admission_delivery_schema d
    computed ← engine.envelope_digest root_instance_id d.delivery_mode d.envelope
    elim (find (is_located d.envelope.event_id) locations) [
      | some existing ↦ do
        require (str_eq existing.digest computed) "event_id_conflict"
            "event identity is already retained with different content"
        rest ← sort_deliveries root_instance_id locations ds
        ok (record rest { replay = (d, existing) ∷ rest.replay })
      | none ↦ do
        rest ← sort_deliveries root_instance_id locations ds
        ok (record rest { fresh = (d, computed) ∷ rest.fresh })
    ]

  -- The third loop: the deliveries that the engine takes, and the worst failure so far.
  unfoldable pub check_targets :
      NativeAggregate V M
      → Option DispatchRejectionCode
      → List (AdmissionDelivery V × String)
      → Result (List (Checked V) × Option DispatchRejectionCode)
  unfolding worse core_delivery
  check_targets aggregate failure [] = ok ([], failure)
  check_targets aggregate failure ((d, computed) ∷ ds) = do
    core ← core_delivery engine d
    elim (engine.validate_delivery_for_admission aggregate core) [
      | inl code ↦ check_targets aggregate (worse failure code) ds
      | inr runtime_id ↦ do
        rest ← check_targets aggregate failure ds
        let one : Checked V = record { delivery = d; computed = computed; runtime_id = runtime_id }
        ok (one ∷ rest.0, rest.1)
    ]

  -- From the fresh deliveries on.
  unfoldable pub admit_fresh :
      NativeAggregate V M → List (AdmissionDelivery V × String) → Result (Admission V M)
  unfolding check_modes check_sources check_targets check_digests append_deliveries seal_aggregate
      aggregate_status
  admit_fresh aggregate fresh = do
    check_modes fresh
    check_sources aggregate.document fresh
    (validated, failure) ← check_targets aggregate none fresh
    reject failure
    check_digests validated
    (value, answers) ← append_deliveries aggregate.document validated
    sealed ← seal_aggregate engine value
    status ← aggregate_status sealed
    ok (accepted status sealed answers)

  -- One replay alone is answered as such; replays beside others are passed over.
  unfoldable pub answer :
      NativeAggregate V M
      → List (AdmissionDelivery V × MailboxLocation)
      → List (AdmissionDelivery V × String)
      → Result (Admission V M)
  unfolding admit_fresh aggregate_status
  answer aggregate ((d, location) ∷ []) [] = do
    status ← aggregate_status aggregate.document
    ok (replay status aggregate.document location)
  answer aggregate replays fresh = admit_fresh aggregate fresh

  unfoldable pub admit_v1 :
      NativeAggregate V M → List (AdmissionDelivery V) → Result (Admission V M)
  unfolding has_duplicate mailbox_locations sort_deliveries answer
  admit_v1 aggregate deliveries = do
    engine.check_bundle
    require (not (has_duplicate [] deliveries)) "duplicate_event_id_in_batch"
        "delivery batch contains a duplicate event id"
    let locations = mailbox_locations aggregate.document.runtimes []
    sorted ← sort_deliveries aggregate.document.root_instance_id locations deliveries
    answer aggregate sorted.replay sorted.fresh
