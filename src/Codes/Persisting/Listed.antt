-- ===== src/Codes/Persisting/Listed.antt =====
-- The texts and the list of the closed codes of format1/native.rs: why a stored aggregate or a migration is refused.
use determa_state_rust.Prelude.{
  String, Option, none, some, ◌≡◌, inl, inr, refl, Elem, str_eq, if◌then◌else◌,
}
use determa_state_rust.Codes.{IsRegistry, distinct_of_inverse}
use determa_state_rust.Codes.Persisting.{
  PersistenceErrorCode, persistence_error_code_as_str, persistence_error_code_portable_codes,
}

persistence_error_code_of : String → Option PersistenceErrorCode
persistence_error_code_of text =
    if str_eq text "unsupported_aggregate_state_format"
    then some PersistenceErrorCode.unsupported_aggregate_state_format
    else if str_eq text "unsupported_aggregate_state_schema_version"
    then some PersistenceErrorCode.unsupported_aggregate_state_schema_version
    else if str_eq text "unsupported_migration_descriptor_format"
    then some PersistenceErrorCode.unsupported_migration_descriptor_format
    else if str_eq text "unsupported_migration_descriptor_schema_version"
    then some PersistenceErrorCode.unsupported_migration_descriptor_schema_version
    else if str_eq text "unsupported_aggregate_state_package_format"
    then some PersistenceErrorCode.unsupported_aggregate_state_package_format
    else if str_eq text "unsupported_aggregate_state_package_schema_version"
    then some PersistenceErrorCode.unsupported_aggregate_state_package_schema_version
    else if str_eq text "invalid_aggregate_state"
    then some PersistenceErrorCode.invalid_aggregate_state
    else if str_eq text "invalid_aggregate_state_package"
    then some PersistenceErrorCode.invalid_aggregate_state_package
    else if str_eq text "aggregate_state_digest_mismatch"
    then some PersistenceErrorCode.aggregate_state_digest_mismatch
    else if str_eq text "source_definition_unavailable"
    then some PersistenceErrorCode.source_definition_unavailable
    else if str_eq text "definition_untrusted"
    then some PersistenceErrorCode.definition_untrusted
    else if str_eq text "target_definition_unavailable"
    then some PersistenceErrorCode.target_definition_unavailable
    else if str_eq text "definition_fingerprint_mismatch"
    then some PersistenceErrorCode.definition_fingerprint_mismatch
    else if str_eq text "migration_descriptor_untrusted"
    then some PersistenceErrorCode.migration_descriptor_untrusted
    else if str_eq text "invalid_migration_descriptor"
    then some PersistenceErrorCode.invalid_migration_descriptor
    else if str_eq text "invalid_migration_request"
    then some PersistenceErrorCode.invalid_migration_request
    else if str_eq text "migration_route_missing"
    then some PersistenceErrorCode.migration_route_missing
    else if str_eq text "migration_route_mismatch"
    then some PersistenceErrorCode.migration_route_mismatch
    else if str_eq text "migration_transform_fault"
    then some PersistenceErrorCode.migration_transform_fault
    else if str_eq text "migration_totality_failure"
    then some PersistenceErrorCode.migration_totality_failure
    else if str_eq text "migration_resource_limit_exceeded"
    then some PersistenceErrorCode.migration_resource_limit_exceeded
    else if str_eq text "terminal_migration_requires_maintenance"
    then some PersistenceErrorCode.terminal_migration_requires_maintenance
    else if str_eq text "terminal_migration_rejected"
    then some PersistenceErrorCode.terminal_migration_rejected
    else none

persistence_error_code_of-as_str :
    (c : PersistenceErrorCode)
    → persistence_error_code_of (persistence_error_code_as_str c) ≡ some c
unfolding persistence_error_code_of persistence_error_code_as_str
persistence_error_code_of-as_str PersistenceErrorCode.unsupported_aggregate_state_format = refl
persistence_error_code_of-as_str PersistenceErrorCode.unsupported_aggregate_state_schema_version =
    refl
persistence_error_code_of-as_str PersistenceErrorCode.unsupported_migration_descriptor_format = refl
persistence_error_code_of-as_str
      PersistenceErrorCode.unsupported_migration_descriptor_schema_version =
    refl
persistence_error_code_of-as_str PersistenceErrorCode.unsupported_aggregate_state_package_format =
    refl
persistence_error_code_of-as_str
      PersistenceErrorCode.unsupported_aggregate_state_package_schema_version =
    refl
persistence_error_code_of-as_str PersistenceErrorCode.invalid_aggregate_state = refl
persistence_error_code_of-as_str PersistenceErrorCode.invalid_aggregate_state_package = refl
persistence_error_code_of-as_str PersistenceErrorCode.aggregate_state_digest_mismatch = refl
persistence_error_code_of-as_str PersistenceErrorCode.source_definition_unavailable = refl
persistence_error_code_of-as_str PersistenceErrorCode.definition_untrusted = refl
persistence_error_code_of-as_str PersistenceErrorCode.target_definition_unavailable = refl
persistence_error_code_of-as_str PersistenceErrorCode.definition_fingerprint_mismatch = refl
persistence_error_code_of-as_str PersistenceErrorCode.migration_descriptor_untrusted = refl
persistence_error_code_of-as_str PersistenceErrorCode.invalid_migration_descriptor = refl
persistence_error_code_of-as_str PersistenceErrorCode.invalid_migration_request = refl
persistence_error_code_of-as_str PersistenceErrorCode.migration_route_missing = refl
persistence_error_code_of-as_str PersistenceErrorCode.migration_route_mismatch = refl
persistence_error_code_of-as_str PersistenceErrorCode.migration_transform_fault = refl
persistence_error_code_of-as_str PersistenceErrorCode.migration_totality_failure = refl
persistence_error_code_of-as_str PersistenceErrorCode.migration_resource_limit_exceeded = refl
persistence_error_code_of-as_str PersistenceErrorCode.terminal_migration_requires_maintenance = refl
persistence_error_code_of-as_str PersistenceErrorCode.terminal_migration_rejected = refl

persistence_error_code_listed :
    (c : PersistenceErrorCode) → Elem c persistence_error_code_portable_codes
unfolding persistence_error_code_portable_codes
persistence_error_code_listed PersistenceErrorCode.unsupported_aggregate_state_format = inl refl
persistence_error_code_listed PersistenceErrorCode.unsupported_aggregate_state_schema_version =
    inr (inl refl)
persistence_error_code_listed PersistenceErrorCode.unsupported_migration_descriptor_format =
    inr (inr (inl refl))
persistence_error_code_listed PersistenceErrorCode.unsupported_migration_descriptor_schema_version =
    inr (inr (inr (inl refl)))
persistence_error_code_listed PersistenceErrorCode.unsupported_aggregate_state_package_format =
    inr (inr (inr (inr (inl refl))))
persistence_error_code_listed
      PersistenceErrorCode.unsupported_aggregate_state_package_schema_version =
    inr (inr (inr (inr (inr (inl refl)))))
persistence_error_code_listed PersistenceErrorCode.invalid_aggregate_state =
    inr (inr (inr (inr (inr (inr (inl refl))))))
persistence_error_code_listed PersistenceErrorCode.invalid_aggregate_state_package =
    inr (inr (inr (inr (inr (inr (inr (inl refl)))))))
persistence_error_code_listed PersistenceErrorCode.aggregate_state_digest_mismatch =
    inr (inr (inr (inr (inr (inr (inr (inr (inl refl))))))))
persistence_error_code_listed PersistenceErrorCode.source_definition_unavailable =
    inr (inr (inr (inr (inr (inr (inr (inr (inr (inl refl)))))))))
persistence_error_code_listed PersistenceErrorCode.definition_untrusted =
    inr (inr (inr (inr (inr (inr (inr (inr (inr (inr (inl refl))))))))))
persistence_error_code_listed PersistenceErrorCode.target_definition_unavailable =
    inr (inr (inr (inr (inr (inr (inr (inr (inr (inr (inr (inl refl)))))))))))
persistence_error_code_listed PersistenceErrorCode.definition_fingerprint_mismatch =
    inr (inr (inr (inr (inr (inr (inr (inr (inr (inr (inr (inr (inl refl))))))))))))
persistence_error_code_listed PersistenceErrorCode.migration_descriptor_untrusted =
    inr (inr (inr (inr (inr (inr (inr (inr (inr (inr (inr (inr (inr (inl refl)))))))))))))
persistence_error_code_listed PersistenceErrorCode.invalid_migration_descriptor =
    inr (inr (inr (inr (inr (inr (inr (inr (inr (inr (inr (inr (inr (inr (inl refl))))))))))))))
persistence_error_code_listed PersistenceErrorCode.invalid_migration_request =
    inr
      (inr (inr (inr (inr (inr (inr (inr (inr (inr (inr (inr (inr (inr (inr (inl refl)))))))))))))))
persistence_error_code_listed PersistenceErrorCode.migration_route_missing = inr (
    inr (
      inr (inr (inr (inr (inr (inr (inr (inr (inr (inr (inr (inr (inr (inr (inl refl))))))))))))))))
persistence_error_code_listed PersistenceErrorCode.migration_route_mismatch = inr (
    inr (
      inr (
        inr (
          inr (inr (inr (inr (inr (inr (inr (inr (inr (inr (inr (inr (inr (inl refl)))))))))))))))))
persistence_error_code_listed PersistenceErrorCode.migration_transform_fault = inr (
    inr (
      inr (
        inr (
          inr (
            inr (
              inr (inr (inr (inr (inr (inr (inr (inr (inr (inr (inr (inr (inl refl))))))))))))))))))
persistence_error_code_listed PersistenceErrorCode.migration_totality_failure = inr (
    inr (
      inr (
        inr (
          inr (
            inr (
              inr (
                inr (
                  inr (inr (inr (inr (inr (inr (inr (inr (inr (inr (inr (inl refl)))))))))))))))))))
persistence_error_code_listed PersistenceErrorCode.migration_resource_limit_exceeded = inr (
    inr (
      inr (
        inr (
          inr (
            inr (
              inr (
                inr (
                  inr (
                    inr (
                      inr (inr (inr (inr (inr (inr (inr (inr (inr (inr (inl refl))))))))))))))))))))
persistence_error_code_listed PersistenceErrorCode.terminal_migration_requires_maintenance = inr (
    inr (
      inr (
        inr (
          inr (
            inr (
              inr (
                inr (
                  inr (
                    inr (
                      inr (
                        inr (
                          inr (inr (inr (inr (inr (inr (inr (inr (inr (inl refl)))))))))))))))))))))
persistence_error_code_listed PersistenceErrorCode.terminal_migration_rejected = inr (
    inr (
      inr (
        inr (
          inr (
            inr (
              inr (
                inr (
                  inr (
                    inr (
                      inr (
                        inr (
                          inr (
                            inr (
                              inr (inr (inr (inr (inr (inr (inr (inr (inl refl))))))))))))))))))))))

persistence_error_code-IsRegistry :
    IsRegistry persistence_error_code_as_str persistence_error_code_portable_codes (λ _. Unit {0})
persistence_error_code-IsRegistry = (
  λ c. (λ _. tt, λ _. persistence_error_code_listed c),
  distinct_of_inverse persistence_error_code_as_str persistence_error_code_of
      persistence_error_code_of-as_str,
)

abbrev pub PersistingCodes : Type 0
PersistingCodes =
    IsRegistry persistence_error_code_as_str persistence_error_code_portable_codes (λ _. Unit {0})

-- The registry lists every refusal of a stored aggregate or a migration, and the texts tell the codes apart.
pub persisting_codes-IsRegistry : PersistingCodes
persisting_codes-IsRegistry = (persistence_error_code-IsRegistry)
