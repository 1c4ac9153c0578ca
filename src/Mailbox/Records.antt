-- ===== src/Mailbox/Records.antt =====
-- The aggregate document with its mailboxes, and what format1/v1.rs is given and answers. A document that
-- passed the JSON schema is a record: a counter (format1/counter.rs) is a number without a bound, which the
-- JSON holds as its canonical decimal. `V` is the type of wire payloads, `P` of the engine's payloads, and
-- `M` what a runtime record holds besides the members that the queues read.
use determa_state_rust.Prelude.{
  ℕ, String, Bool, true, false, Option, none, some, List, ◌≡◌, refl, ◌⊎◌, inl, inr, if◌then◌else◌,
}
use determa_state_rust.State.Machine.{RuntimeStatus}
use determa_state_rust.Codes.Runtime.{Disposition, DispatchRejectionCode}

pub record Version1Error : Type 0 where
  pub code : String
  pub message : String

-- `Result<A, Version1Error>`
pub data Result {ℓ} (A : Type ℓ) : Type ℓ where
  ok : A → Result A
  err : Version1Error → Result A

abbrev pub fail {ℓ} : {A : Type ℓ} → String → String → Result A
fail code message = err (record { code = code; message = message })

abbrev pub invalid_aggregate {ℓ} : {A : Type ℓ} → String → Result A
invalid_aggregate message = fail "invalid_aggregate_state" message

-- The operator `?`
infixl 5 ◌>>=◌ ◌>>◌
abbrev pub ◌>>=◌ {ℓ κ} : {A : Type ℓ} {B : Type κ} → Result A → (A → Result B) → Result B
err refusal >>= next = err refusal
ok value >>= next = next value

-- `option.ok_or_else(...)`
abbrev pub ok_or {ℓ} : {A : Type ℓ} → Option A → String → Result A
ok_or (some a) message = ok a
ok_or none message = invalid_aggregate message

-- `if !test { return Err(...) }`
abbrev pub require : Bool → String → String → Result (Unit {0})
require true code message = ok tt
require false code message = fail code message

abbrev pub ◌>>◌ {κ} : {B : Type κ} → Result (Unit {0}) → Result B → Result B
check >> next = check >>= λ _. next

-- To split on what a call answers.
pub Result-cases {ℓ} :
    {A : Type ℓ} (m : Result A) → ((a : A) × (m ≡ ok a)) ⊎ ((e : Version1Error) × (m ≡ err e))
Result-cases (ok a) = inl (a, refl)
Result-cases (err e) = inr (e, refl)

pub if-eq-ok {ℓ} :
    {A : Type ℓ} (b : Bool) (x y : Result A) (z : A)
    → (if b then x else y) ≡ ok z
    → ((b ≡ true) × (x ≡ ok z)) ⊎ ((b ≡ false) × (y ≡ ok z))
if-eq-ok true x y z h = inl (refl, h)
if-eq-ok false x y z h = inr (refl, h)

-- `InstanceReference` of value.rs; the version is the decimal that the wire holds.
pub record InstanceReference : Type 0 where
  pub root_instance_id : String
  pub instance_id : String
  pub machine_id : String
  pub machine_version : String

-- `Target` of format1/model.rs
pub data Target : Type 0 where
  root : String → String → Target
  spawned_instance : InstanceReference → Target
  component : String → String → String → String → ℕ → Target
  external : Target

-- The member `source` of an envelope: `{"host": true}`, `{"runtime": …}`, `{"system": …}`, or another object.
pub data Source : Type 0 where
  host : Source
  runtime : Target → Source
  system : String → Source
  malformed : Source

pub record QueueEnvelope (V : Type 0) : Type 0 where
  pub event : String
  pub event_id : String
  pub cause_id : String
  pub source : Source
  pub target : Target
  pub payload : V
  pub correlation_id : Option String

pub record AdmissionDelivery (V : Type 0) : Type 0 where
  pub delivery_mode : String
  pub envelope : QueueEnvelope V
  pub envelope_digest : String

-- An entry of a mailbox.
pub record Entry (V : Type 0) : Type 0 where
  pub acceptance_sequence : ℕ
  pub queue_sequence : ℕ
  pub delivery_mode : String
  pub envelope : QueueEnvelope V
  pub envelope_digest : String
  pub deferral_count : ℕ

-- The member `relation.kind` of a runtime record
pub data RelationKind : Type 0 where
  root component owned_spawned_instance : RelationKind

-- An element of `runtimes`.
pub record RuntimeRecord (V M : Type 0) : Type 0 where
  pub runtime_id : String
  pub relation : RelationKind
  pub target_identity : Target
  pub status : RuntimeStatus
  pub ready_mailbox : List (Entry V)
  pub deferred_mailbox : List (Entry V)
  pub members : M

pub record Document (V M : Type 0) : Type 0 where
  pub validated_bundle_fingerprint : String
  pub root_instance_id : String
  pub root_runtime_id : String
  pub next_acceptance_sequence : ℕ
  pub next_queue_sequence : ℕ
  pub runtimes : List (RuntimeRecord V M)
  pub aggregate_state_digest : String

-- `NativeAggregate`: the document beside the runtimes of the tree below `root`, in its preorder.
pub record NativeAggregate (V M : Type 0) : Type 0 where
  pub document : Document V M
  pub validated_bundle_fingerprint : String
  pub root_instance_id : String
  pub root : RuntimeRecord V M
  pub contained : List (RuntimeRecord V M)

-- `Envelope` and `Delivery` of format1/model.rs
pub record Envelope (P : Type 0) : Type 0 where
  pub event : String
  pub event_id : String
  pub target : Target
  pub payload : P
  pub correlation_id : Option String

pub data Delivery (P : Type 0) : Type 0 where
  input internal : Envelope P → Delivery P

-- `Emission` of format1/runtime.rs
pub record Emission (P : Type 0) : Type 0 where
  pub emitting_runtime_id : String
  pub event : String
  pub event_id : Option String
  pub target : Target
  pub payload : P
  pub correlation_id : Option String
  pub effect_id : Option String
  pub sequence : Option ℕ
  pub emission_index : ℕ
  pub cause_id : Option String
  pub system_source : Option String

-- `CoreResult`, its status left out; `F` is the type of fault records.
pub record CoreResult (V P M F : Type 0) : Type 0 where
  pub disposition : Option Disposition
  pub state : Option (NativeAggregate V M)
  pub emissions : List (Emission P)
  pub fault : Option F
  pub rejection : Option String

-- What the queues call: digests and the JSON schema, the projection of a payload, and the engine.
pub record Engine (V P M F : Type 0) : Type 0 where
  pub check_bundle : Result (Unit {0})
  pub bundle_fingerprint : String
  pub validate_admission_delivery_schema : AdmissionDelivery V → Result (Unit {0})
  pub envelope_digest : String → String → QueueEnvelope V → Result String
  pub aggregate_digest : Document V M → Result String
  -- `payload.to_value(None)`, and that it is a map
  pub payload_map : V → Result P
  -- `TypedValue::from_value` of a map
  pub payload_from_map : P → V
  -- that the version of a spawned target is within `i64`
  pub check_target : Target → Result (Unit {0})
  -- the other refusals of `encode_aggregate`, for a state and what is written of it
  pub check_encoding : NativeAggregate V M → Document V M → Result (Unit {0})
  pub validate_delivery_for_admission :
      NativeAggregate V M → Delivery P → DispatchRejectionCode ⊎ String
  pub step_native_aggregate : NativeAggregate V M → Delivery P → CoreResult V P M F
  pub fault_deferred_capacity : NativeAggregate V M → Envelope P → CoreResult V P M F
  -- the capacity as `usize`, 0 for a negative one
  pub deferred_event_capacity : RuntimeRecord V M → Option ℕ
  pub structural_recall_eligible : RuntimeRecord V M → String → Bool
