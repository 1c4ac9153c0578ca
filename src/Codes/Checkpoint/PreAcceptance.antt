-- ===== src/Codes/Checkpoint/PreAcceptance.antt =====
-- `PreAcceptanceFailureCode` of checkpoint/types.rs.
use determa_state_rust.Prelude.{
  String, Option, none, some, List, [], ◌∷◌, ◌≡◌, inl, inr, refl, Elem, str_eq, if◌then◌else◌,
}
use determa_state_rust.Codes.{IsRegistry, distinct_of_inverse}

pub data PreAcceptanceFailureCode : Type 0 where
  delivery_digest_mismatch : PreAcceptanceFailureCode
  duplicate_event_id_in_batch : PreAcceptanceFailureCode
  event_id_conflict : PreAcceptanceFailureCode
  inactive_component_target : PreAcceptanceFailureCode
  invalid_correlation : PreAcceptanceFailureCode
  invalid_delivery_mode : PreAcceptanceFailureCode
  invalid_delivery_source : PreAcceptanceFailureCode
  invalid_event : PreAcceptanceFailureCode
  invalid_instance_target : PreAcceptanceFailureCode
  invalid_payload : PreAcceptanceFailureCode
  malformed_delivery : PreAcceptanceFailureCode
  terminal_root : PreAcceptanceFailureCode
  tombstoned_root : PreAcceptanceFailureCode
  wrong_root : PreAcceptanceFailureCode

-- `PreAcceptanceFailureCode::as_str`
pub pre_acceptance_failure_code_as_str : PreAcceptanceFailureCode → String
pre_acceptance_failure_code_as_str PreAcceptanceFailureCode.delivery_digest_mismatch =
    "delivery_digest_mismatch"
pre_acceptance_failure_code_as_str PreAcceptanceFailureCode.duplicate_event_id_in_batch =
    "duplicate_event_id_in_batch"
pre_acceptance_failure_code_as_str PreAcceptanceFailureCode.event_id_conflict = "event_id_conflict"
pre_acceptance_failure_code_as_str PreAcceptanceFailureCode.inactive_component_target =
    "inactive_component_target"
pre_acceptance_failure_code_as_str PreAcceptanceFailureCode.invalid_correlation =
    "invalid_correlation"
pre_acceptance_failure_code_as_str PreAcceptanceFailureCode.invalid_delivery_mode =
    "invalid_delivery_mode"
pre_acceptance_failure_code_as_str PreAcceptanceFailureCode.invalid_delivery_source =
    "invalid_delivery_source"
pre_acceptance_failure_code_as_str PreAcceptanceFailureCode.invalid_event = "invalid_event"
pre_acceptance_failure_code_as_str PreAcceptanceFailureCode.invalid_instance_target =
    "invalid_instance_target"
pre_acceptance_failure_code_as_str PreAcceptanceFailureCode.invalid_payload = "invalid_payload"
pre_acceptance_failure_code_as_str PreAcceptanceFailureCode.malformed_delivery =
    "malformed_delivery"
pre_acceptance_failure_code_as_str PreAcceptanceFailureCode.terminal_root = "terminal_root"
pre_acceptance_failure_code_as_str PreAcceptanceFailureCode.tombstoned_root = "tombstoned_root"
pre_acceptance_failure_code_as_str PreAcceptanceFailureCode.wrong_root = "wrong_root"

-- `PreAcceptanceFailureCode::PORTABLE_CODES`
pub pre_acceptance_failure_code_portable_codes : List PreAcceptanceFailureCode
pre_acceptance_failure_code_portable_codes =
    PreAcceptanceFailureCode.delivery_digest_mismatch
    ∷ PreAcceptanceFailureCode.duplicate_event_id_in_batch
    ∷ PreAcceptanceFailureCode.event_id_conflict
    ∷ PreAcceptanceFailureCode.inactive_component_target
    ∷ PreAcceptanceFailureCode.invalid_correlation ∷ PreAcceptanceFailureCode.invalid_delivery_mode
    ∷ PreAcceptanceFailureCode.invalid_delivery_source ∷ PreAcceptanceFailureCode.invalid_event
    ∷ PreAcceptanceFailureCode.invalid_instance_target ∷ PreAcceptanceFailureCode.invalid_payload
    ∷ PreAcceptanceFailureCode.malformed_delivery ∷ PreAcceptanceFailureCode.terminal_root
    ∷ PreAcceptanceFailureCode.tombstoned_root ∷ PreAcceptanceFailureCode.wrong_root ∷ []

pre_acceptance_failure_code_of : String → Option PreAcceptanceFailureCode
pre_acceptance_failure_code_of text =
    if str_eq text "delivery_digest_mismatch"
    then some PreAcceptanceFailureCode.delivery_digest_mismatch
    else if str_eq text "duplicate_event_id_in_batch"
    then some PreAcceptanceFailureCode.duplicate_event_id_in_batch
    else if str_eq text "event_id_conflict"
    then some PreAcceptanceFailureCode.event_id_conflict
    else if str_eq text "inactive_component_target"
    then some PreAcceptanceFailureCode.inactive_component_target
    else if str_eq text "invalid_correlation"
    then some PreAcceptanceFailureCode.invalid_correlation
    else if str_eq text "invalid_delivery_mode"
    then some PreAcceptanceFailureCode.invalid_delivery_mode
    else if str_eq text "invalid_delivery_source"
    then some PreAcceptanceFailureCode.invalid_delivery_source
    else if str_eq text "invalid_event"
    then some PreAcceptanceFailureCode.invalid_event
    else if str_eq text "invalid_instance_target"
    then some PreAcceptanceFailureCode.invalid_instance_target
    else if str_eq text "invalid_payload"
    then some PreAcceptanceFailureCode.invalid_payload
    else if str_eq text "malformed_delivery"
    then some PreAcceptanceFailureCode.malformed_delivery
    else if str_eq text "terminal_root"
    then some PreAcceptanceFailureCode.terminal_root
    else if str_eq text "tombstoned_root"
    then some PreAcceptanceFailureCode.tombstoned_root
    else if str_eq text "wrong_root"
    then some PreAcceptanceFailureCode.wrong_root
    else none

pre_acceptance_failure_code_of-as_str :
    (c : PreAcceptanceFailureCode)
    → pre_acceptance_failure_code_of (pre_acceptance_failure_code_as_str c) ≡ some c
unfolding pre_acceptance_failure_code_of pre_acceptance_failure_code_as_str
pre_acceptance_failure_code_of-as_str PreAcceptanceFailureCode.delivery_digest_mismatch = refl
pre_acceptance_failure_code_of-as_str PreAcceptanceFailureCode.duplicate_event_id_in_batch = refl
pre_acceptance_failure_code_of-as_str PreAcceptanceFailureCode.event_id_conflict = refl
pre_acceptance_failure_code_of-as_str PreAcceptanceFailureCode.inactive_component_target = refl
pre_acceptance_failure_code_of-as_str PreAcceptanceFailureCode.invalid_correlation = refl
pre_acceptance_failure_code_of-as_str PreAcceptanceFailureCode.invalid_delivery_mode = refl
pre_acceptance_failure_code_of-as_str PreAcceptanceFailureCode.invalid_delivery_source = refl
pre_acceptance_failure_code_of-as_str PreAcceptanceFailureCode.invalid_event = refl
pre_acceptance_failure_code_of-as_str PreAcceptanceFailureCode.invalid_instance_target = refl
pre_acceptance_failure_code_of-as_str PreAcceptanceFailureCode.invalid_payload = refl
pre_acceptance_failure_code_of-as_str PreAcceptanceFailureCode.malformed_delivery = refl
pre_acceptance_failure_code_of-as_str PreAcceptanceFailureCode.terminal_root = refl
pre_acceptance_failure_code_of-as_str PreAcceptanceFailureCode.tombstoned_root = refl
pre_acceptance_failure_code_of-as_str PreAcceptanceFailureCode.wrong_root = refl

pre_acceptance_failure_code_listed :
    (c : PreAcceptanceFailureCode) → Elem c pre_acceptance_failure_code_portable_codes
unfolding pre_acceptance_failure_code_portable_codes
pre_acceptance_failure_code_listed PreAcceptanceFailureCode.delivery_digest_mismatch = inl refl
pre_acceptance_failure_code_listed PreAcceptanceFailureCode.duplicate_event_id_in_batch =
    inr (inl refl)
pre_acceptance_failure_code_listed PreAcceptanceFailureCode.event_id_conflict = inr (inr (inl refl))
pre_acceptance_failure_code_listed PreAcceptanceFailureCode.inactive_component_target =
    inr (inr (inr (inl refl)))
pre_acceptance_failure_code_listed PreAcceptanceFailureCode.invalid_correlation =
    inr (inr (inr (inr (inl refl))))
pre_acceptance_failure_code_listed PreAcceptanceFailureCode.invalid_delivery_mode =
    inr (inr (inr (inr (inr (inl refl)))))
pre_acceptance_failure_code_listed PreAcceptanceFailureCode.invalid_delivery_source =
    inr (inr (inr (inr (inr (inr (inl refl))))))
pre_acceptance_failure_code_listed PreAcceptanceFailureCode.invalid_event =
    inr (inr (inr (inr (inr (inr (inr (inl refl)))))))
pre_acceptance_failure_code_listed PreAcceptanceFailureCode.invalid_instance_target =
    inr (inr (inr (inr (inr (inr (inr (inr (inl refl))))))))
pre_acceptance_failure_code_listed PreAcceptanceFailureCode.invalid_payload =
    inr (inr (inr (inr (inr (inr (inr (inr (inr (inl refl)))))))))
pre_acceptance_failure_code_listed PreAcceptanceFailureCode.malformed_delivery =
    inr (inr (inr (inr (inr (inr (inr (inr (inr (inr (inl refl))))))))))
pre_acceptance_failure_code_listed PreAcceptanceFailureCode.terminal_root =
    inr (inr (inr (inr (inr (inr (inr (inr (inr (inr (inr (inl refl)))))))))))
pre_acceptance_failure_code_listed PreAcceptanceFailureCode.tombstoned_root =
    inr (inr (inr (inr (inr (inr (inr (inr (inr (inr (inr (inr (inl refl))))))))))))
pre_acceptance_failure_code_listed PreAcceptanceFailureCode.wrong_root =
    inr (inr (inr (inr (inr (inr (inr (inr (inr (inr (inr (inr (inr (inl refl)))))))))))))

pub pre_acceptance_failure_code-IsRegistry :
    IsRegistry pre_acceptance_failure_code_as_str pre_acceptance_failure_code_portable_codes
      (λ _. Unit {0})
pre_acceptance_failure_code-IsRegistry = (
  λ c. (λ _. tt, λ _. pre_acceptance_failure_code_listed c),
  distinct_of_inverse pre_acceptance_failure_code_as_str pre_acceptance_failure_code_of
      pre_acceptance_failure_code_of-as_str,
)
