-- ===== src/Tests/Queues.antt =====
-- The mailboxes at a concrete aggregate: a root with one ready entry and a component with two entries, and an
-- engine whose step removes the component and sends the root an event.
use determa_state_rust.Prelude.{
  Every, ◌↔◌, ◌≤◌, ℕ, String, true, none, some, List, [], ◌∷◌, ◌≡◌, refl, inr, arith,
}
use determa_state_rust.Mailbox.Step.Dispose.{LifecycleDisposition, runtime_cancelled}
use determa_state_rust.Mailbox.Step.Emit.{internal_mailbox}
use determa_state_rust.Mailbox.Documents.{unique_ids}
use determa_state_rust.State.Config.{bytes_le}
use determa_state_rust.Mailbox.Semantics.{Definitions, validate_mailbox_semantics}
use determa_state_rust.Mailbox.Semantics.Sound.{IsPlaced, semantics-ArePlaced}
use determa_state_rust.Mailbox.Integrity.{validate_mailbox_integrity}
use determa_state_rust.Mailbox.Integrity.Sound.{IsIntact}
use determa_state_rust.Mailbox.Integrity.Complete.{validate_iff}
use determa_state_rust.Mailbox.Admit.Restores.{admitted_restores}
use determa_state_rust.Mailbox.Admit.Once.{admitted_once}
use determa_state_rust.Mailbox.Admit.Retry.{Replayed, retry-Replayed}
use determa_state_rust.Mailbox.Step.Whole.{step-Conserves}
use determa_state_rust.Mailbox.Step.Branches.{Conserves}
use determa_state_rust.State.Machine.{running}
use determa_state_rust.Codes.Runtime.{disposition_as_str, Disposition}
use determa_state_rust.Mailbox.Records.{
  fail, runtime, ok, Target, RelationKind, host, QueueEnvelope, AdmissionDelivery, Entry,
  RuntimeRecord, Document, NativeAggregate, Emission, CoreResult, Engine,
}
use determa_state_rust.Mailbox.Copies.{held, is_event, copies}
use determa_state_rust.Mailbox.Admit.{Accepted, MailboxLocation, admit_v1, accepted}
use determa_state_rust.Mailbox.Step.Run.{StepResult, step_v1}

abbrev root_target : Target
root_target = Target.root "i" "r"

abbrev child_target : Target
child_target = Target.component "i" "r" "c" "rc" 0

abbrev envelope : String → Target → QueueEnvelope ℕ
envelope id target = record {
  event = "go";
  event_id = id;
  cause_id = id;
  source = host;
  target = target;
  payload = 0;
  correlation_id = none;
}

abbrev entry : String → Target → ℕ → Entry ℕ
entry id target number = record {
  acceptance_sequence = number;
  queue_sequence = number;
  delivery_mode = "input";
  envelope = envelope id target;
  envelope_digest = id;
  deferral_count = 0;
}

abbrev empty_root : RuntimeRecord ℕ (Unit {0})
empty_root = record {
  runtime_id = "r";
  relation = RelationKind.root;
  target_identity = root_target;
  status = running;
  ready_mailbox = [];
  deferred_mailbox = [];
  members = tt;
}

abbrev root_record : RuntimeRecord ℕ (Unit {0})
root_record = record empty_root { ready_mailbox = entry "a" root_target 0 ∷ [] }

abbrev child_record : RuntimeRecord ℕ (Unit {0})
child_record = record {
  runtime_id = "rc";
  relation = RelationKind.component;
  target_identity = child_target;
  status = running;
  ready_mailbox = entry "b" child_target 1 ∷ [];
  deferred_mailbox = entry "c" child_target 2 ∷ [];
  members = tt;
}

abbrev document : Document ℕ (Unit {0})
document = record {
  validated_bundle_fingerprint = "f";
  root_instance_id = "i";
  root_runtime_id = "r";
  next_acceptance_sequence = 3;
  next_queue_sequence = 3;
  runtimes = root_record ∷ child_record ∷ [];
  aggregate_state_digest = "d";
}

abbrev aggregate : NativeAggregate ℕ (Unit {0})
aggregate = record {
  document = document;
  validated_bundle_fingerprint = "f";
  root_instance_id = "i";
  root = empty_root;
  contained = record child_record { ready_mailbox = []; deferred_mailbox = [] } ∷ [];
}

abbrev emission : Emission ℕ
emission = record {
  emitting_runtime_id = "rc";
  event = "bye";
  event_id = some "e";
  target = root_target;
  payload = 1;
  correlation_id = none;
  effect_id = none;
  sequence = none;
  emission_index = 0;
  cause_id = some "a";
  system_source = none;
}

abbrev after_step : CoreResult ℕ ℕ (Unit {0}) (Unit {0})
after_step = record {
  disposition = some Disposition.handled;
  state = some (record aggregate { contained = [] });
  emissions = emission ∷ [];
  fault = none;
  rejection = none;
}

abbrev engine : Engine ℕ ℕ (Unit {0}) (Unit {0})
engine = record {
  check_bundle = ok tt;
  bundle_fingerprint = "f";
  validate_admission_delivery_schema = λ d. ok tt;
  envelope_digest = λ instance mode e. ok e.event_id;
  aggregate_digest = λ d. ok "sealed";
  payload_map = λ v. ok v;
  payload_from_map = λ v. v;
  check_target = λ t. ok tt;
  check_encoding = λ state written. ok tt;
  validate_delivery_for_admission = λ state d. inr "r";
  step_native_aggregate = λ state d. after_step;
  fault_deferred_capacity = λ state e. after_step;
  deferred_event_capacity = λ r. some 4;
  structural_recall_eligible = λ r event. true;
}

abbrev delivery : AdmissionDelivery ℕ
delivery = record {
  delivery_mode = "input";
  envelope = envelope "n" root_target;
  envelope_digest = "n";
}

-- What the first admission and the step answer.
abbrev admitted : Document ℕ (Unit {0})
admitted = record document {
  next_acceptance_sequence = 4;
  next_queue_sequence = 4;
  runtimes =
      record root_record { ready_mailbox = entry "a" root_target 0 ∷ entry "n" root_target 3 ∷ [] }
      ∷ child_record
      ∷ [];
  aggregate_state_digest = "sealed";
}

abbrev answers : List Accepted
answers = record { event_id = "n"; acceptance_sequence = 3; queue_sequence = 3 } ∷ []

admits : admit_v1 engine aggregate (delivery ∷ []) ≡ ok (accepted running admitted answers)
unfolding admit_v1
admits = refl

-- The step consumes `a`, queues `e`, and reports `b` and `c`, whose runtime is gone.
abbrev sent : Entry ℕ
sent = record {
  acceptance_sequence = 3;
  queue_sequence = 3;
  delivery_mode = "internal";
  envelope = record {
    event = "bye";
    event_id = "e";
    cause_id = "a";
    source = runtime child_target;
    target = root_target;
    payload = 1;
    correlation_id = none;
  };
  envelope_digest = "e";
  deferral_count = 0;
}

abbrev lost : String → ℕ → LifecycleDisposition
lost id number = record {
  event_id = id;
  request_digest = id;
  acceptance_sequence = number;
  final_queue_sequence = number;
  target_runtime_id = "rc";
  reason = runtime_cancelled;
}

abbrev stepped : StepResult ℕ (Unit {0}) (Unit {0})
stepped = record {
  status = running;
  disposition = "handled";
  state = record document {
    next_acceptance_sequence = 4;
    next_queue_sequence = 4;
    runtimes = record empty_root { ready_mailbox = sent ∷ [] } ∷ [];
    aggregate_state_digest = "sealed";
  };
  emissions = internal_mailbox 0 "e" 3 3 ∷ [];
  lifecycle_dispositions = lost "b" 1 ∷ lost "c" 2 ∷ [];
  fault = none;
  rejection = none;
}

steps : step_v1 engine aggregate "r" ≡ ok stepped
unfolding step_v1 disposition_as_str
steps = refl

unique : unique_ids document.runtimes ≡ true
unfolding unique_ids
unique = refl

none_before : copies (is_event "n") document ≤ 1
unfolding held
none_before = omega arith

admitted_once_example : copies (is_event "n") admitted ≡ 1
admitted_once_example =
    admitted_once engine "n" aggregate (delivery ∷ []) running admitted answers admits none_before

retry-Replayed_example :
    (location : MailboxLocation) × Replayed engine aggregate delivery
      (record aggregate { document = admitted })
      running
      location
retry-Replayed_example =
    retry-Replayed engine aggregate delivery (record aggregate { document = admitted }) running
      admitted answers admits refl

step-Conserves_example : Conserves engine aggregate "b" stepped
step-Conserves_example = step-Conserves engine aggregate "b" "r" stepped unique refl steps

checked : validate_mailbox_integrity engine document ≡ ok tt
unfolding validate_mailbox_integrity bytes_le
checked = refl

validate_iff_example :
    (validate_mailbox_integrity engine document ≡ ok tt) ↔ IsIntact engine document
validate_iff_example = validate_iff engine document

admitted_restores_example : validate_mailbox_integrity engine admitted ≡ ok tt
admitted_restores_example =
    admitted_restores engine aggregate (delivery ∷ []) running admitted answers admits checked

-- Every runtime stands on the definition `f`, which takes every queued event.
abbrev definitions : Definitions (Unit {0}) ℕ ℕ (Unit {0})
definitions = record {
  current_fingerprint = λ r. "f";
  resolve_definition = λ fingerprint. some (record { bundle = tt; trusted = true });
  fingerprint = λ bundle. "f";
  validate_queued_event_for_migration = λ bundle state delivery. none;
}

restores : validate_mailbox_semantics engine definitions document aggregate ≡ ok tt
unfolding validate_mailbox_semantics
restores = refl

semantics-ArePlaced_example :
    Every (IsPlaced engine definitions document aggregate) document.runtimes
semantics-ArePlaced_example = semantics-ArePlaced engine definitions document aggregate restores

-- The step that removed the component left the event that the component sent; the restore of what the step
-- sealed refuses the source of that event.
abbrev state_after : NativeAggregate ℕ (Unit {0})
state_after = record aggregate { document = stepped.state; contained = [] }

sent_is_refused :
    validate_mailbox_semantics engine definitions stepped.state state_after
    ≡ fail "invalid_aggregate_state" "mailbox source provenance is invalid"
unfolding validate_mailbox_semantics
sent_is_refused = refl

sent_is_intact : validate_mailbox_integrity engine stepped.state ≡ ok tt
unfolding validate_mailbox_integrity
sent_is_intact = refl
