-- ===== src/Mailbox/Sources.antt =====
-- The provenance of a delivery, and its form for the engine: `validate_source`, `validate_restored_source`,
-- `core_delivery` and `target_runtime_id` of format1/v1.rs.
use determa_state_rust.Prelude.{
  String, Bool, true, false, Option, none, some, List, any, str_eq, ◌&&◌, ◌||◌, if◌then◌else◌, ◌==◌,
  ℕ, [], ◌∷◌, codes,
}
use determa_state_rust.State.Paths.{strip_prefix}
use determa_state_rust.Mailbox.Records.{
  Result, ok, ◌>>=◌, ◌>>◌, require, fail, Target, root, spawned_instance, component, external,
  Source, host, runtime, system, malformed, QueueEnvelope, AdmissionDelivery, RuntimeRecord,
  Document, Envelope, Delivery, input, internal, Engine,
}

-- `==` of targets
unfoldable pub target_eq : Target → Target → Bool
target_eq (root a b) (root c d) = str_eq a c && str_eq b d
target_eq (spawned_instance r) (spawned_instance s) =
    str_eq r.root_instance_id s.root_instance_id
    && str_eq r.instance_id s.instance_id
    && str_eq r.machine_id s.machine_id
    && str_eq r.machine_version s.machine_version
target_eq (component a b c d n) (component e f g h m) =
    str_eq a e && str_eq b f && str_eq c g && str_eq d h && n == m
target_eq external external = true
target_eq _ _ = false

unfoldable pub target_runtime_id : Target → Option String
target_runtime_id (root instance_id runtime_id) = some runtime_id
target_runtime_id (component instance_id owner component_id runtime_id sequence) = some runtime_id
target_runtime_id (spawned_instance reference) = some reference.instance_id
target_runtime_id external = none

unfoldable pub system_locator_matches_event : String → String → Bool
system_locator_matches_event locator event =
    str_eq locator "system:component_completion"
      && (str_eq event "determa.component_completed" || str_eq event "done")
    || str_eq locator "system:spawned_completion" && str_eq event "done"
    || str_eq locator "system:component_failure" && str_eq event "determa.component_failed"
    || str_eq locator "system:spawned_failure" && str_eq event "determa.spawned_instance_failed"

abbrev pub is_host : Source → Bool
is_host host = true
is_host (runtime identity) = false
is_host (system locator) = false
is_host malformed = false

-- The last `match` of `core_delivery`.
abbrev pub with_mode : {P : Type 0} → String → Envelope P → Result (Delivery P)
with_mode mode envelope =
    if str_eq mode "input"
    then ok (input envelope)
    else if str_eq mode "internal"
    then ok (internal envelope)
    else fail "invalid_delivery_mode" "invalid delivery mode"

-- `locator.starts_with("system:") && locator.len() > 7`
abbrev pub goes_on : Option (List ℕ) → Bool
goes_on none = false
goes_on (some []) = false
goes_on (some (c ∷ rest)) = true

-- The JSON of a target is an object, but for the external one.
unfoldable pub valid_internal_source_shape : Source → Bool
unfolding strip_prefix
valid_internal_source_shape (runtime external) = false
valid_internal_source_shape (runtime identity) = true
valid_internal_source_shape (system locator) =
    goes_on (strip_prefix (codes locator) (codes "system:"))
valid_internal_source_shape host = false
valid_internal_source_shape malformed = false

module _ {V M : Type 0} where
  unfoldable pub is_internal_source : List (RuntimeRecord V M) → QueueEnvelope V → Source → Bool
  unfolding target_eq system_locator_matches_event
  is_internal_source runtimes envelope (runtime identity) =
      any (λ (r : RuntimeRecord V M). target_eq r.target_identity identity) runtimes
  is_internal_source runtimes envelope (system locator) =
      system_locator_matches_event locator envelope.event
  is_internal_source runtimes envelope host = false
  is_internal_source runtimes envelope malformed = false

  -- Also what `validate_restored_source` tests.
  unfoldable pub source_is_valid : String → QueueEnvelope V → List (RuntimeRecord V M) → Bool
  unfolding is_internal_source
  source_is_valid mode envelope runtimes =
      if str_eq mode "input"
      then is_host envelope.source && str_eq envelope.cause_id envelope.event_id
      else if str_eq mode "internal"
      then is_internal_source runtimes envelope envelope.source
      else false

  -- Any other mode passes.
  unfoldable pub validate_source : AdmissionDelivery V → Document V M → Result (Unit {0})
  unfolding source_is_valid valid_internal_source_shape
  validate_source delivery aggregate =
      if str_eq delivery.delivery_mode "input"
      then require (source_is_valid "input" delivery.envelope aggregate.runtimes)
          "invalid_delivery_source" "input must be host-sourced with cause equal to event id"
      else if str_eq delivery.delivery_mode "internal"
      then require
          (source_is_valid "internal" delivery.envelope aggregate.runtimes
            && valid_internal_source_shape delivery.envelope.source)
          "invalid_delivery_source" "internal delivery provenance is invalid"
      else ok tt

  unfoldable pub core_delivery :
      {P F : Type 0} → Engine V P M F → AdmissionDelivery V → Result (Delivery P)
  core_delivery engine delivery = do
    payload ← engine.payload_map delivery.envelope.payload
    engine.check_target delivery.envelope.target
    with_mode delivery.delivery_mode (record {
      event = delivery.envelope.event;
      event_id = delivery.envelope.event_id;
      target = delivery.envelope.target;
      payload = payload;
      correlation_id = delivery.envelope.correlation_id;
    })
