-- ===== src/Codes/Persisting.antt =====
-- The closed codes of format1/native.rs: why a stored aggregate or a migration is refused.
pub mod Listed
use determa_state_rust.Prelude.{
  String, Option, none, some, List, [], ◌∷◌, ◌≡◌, inl, inr, refl, Elem, str_eq, if◌then◌else◌,
}
use determa_state_rust.Codes.{IsRegistry, distinct_of_inverse}

pub data PersistenceErrorCode : Type 0 where
  unsupported_aggregate_state_format : PersistenceErrorCode
  unsupported_aggregate_state_schema_version : PersistenceErrorCode
  unsupported_migration_descriptor_format : PersistenceErrorCode
  unsupported_migration_descriptor_schema_version : PersistenceErrorCode
  unsupported_aggregate_state_package_format : PersistenceErrorCode
  unsupported_aggregate_state_package_schema_version : PersistenceErrorCode
  invalid_aggregate_state : PersistenceErrorCode
  invalid_aggregate_state_package : PersistenceErrorCode
  aggregate_state_digest_mismatch : PersistenceErrorCode
  source_definition_unavailable : PersistenceErrorCode
  definition_untrusted : PersistenceErrorCode
  target_definition_unavailable : PersistenceErrorCode
  definition_fingerprint_mismatch : PersistenceErrorCode
  migration_descriptor_untrusted : PersistenceErrorCode
  invalid_migration_descriptor : PersistenceErrorCode
  invalid_migration_request : PersistenceErrorCode
  migration_route_missing : PersistenceErrorCode
  migration_route_mismatch : PersistenceErrorCode
  migration_transform_fault : PersistenceErrorCode
  migration_totality_failure : PersistenceErrorCode
  migration_resource_limit_exceeded : PersistenceErrorCode
  terminal_migration_requires_maintenance : PersistenceErrorCode
  terminal_migration_rejected : PersistenceErrorCode

-- `PersistenceErrorCode::as_str`
pub persistence_error_code_as_str : PersistenceErrorCode → String
persistence_error_code_as_str PersistenceErrorCode.unsupported_aggregate_state_format =
    "unsupported_aggregate_state_format"
persistence_error_code_as_str PersistenceErrorCode.unsupported_aggregate_state_schema_version =
    "unsupported_aggregate_state_schema_version"
persistence_error_code_as_str PersistenceErrorCode.unsupported_migration_descriptor_format =
    "unsupported_migration_descriptor_format"
persistence_error_code_as_str PersistenceErrorCode.unsupported_migration_descriptor_schema_version =
    "unsupported_migration_descriptor_schema_version"
persistence_error_code_as_str PersistenceErrorCode.unsupported_aggregate_state_package_format =
    "unsupported_aggregate_state_package_format"
persistence_error_code_as_str
      PersistenceErrorCode.unsupported_aggregate_state_package_schema_version =
    "unsupported_aggregate_state_package_schema_version"
persistence_error_code_as_str PersistenceErrorCode.invalid_aggregate_state =
    "invalid_aggregate_state"
persistence_error_code_as_str PersistenceErrorCode.invalid_aggregate_state_package =
    "invalid_aggregate_state_package"
persistence_error_code_as_str PersistenceErrorCode.aggregate_state_digest_mismatch =
    "aggregate_state_digest_mismatch"
persistence_error_code_as_str PersistenceErrorCode.source_definition_unavailable =
    "source_definition_unavailable"
persistence_error_code_as_str PersistenceErrorCode.definition_untrusted = "definition_untrusted"
persistence_error_code_as_str PersistenceErrorCode.target_definition_unavailable =
    "target_definition_unavailable"
persistence_error_code_as_str PersistenceErrorCode.definition_fingerprint_mismatch =
    "definition_fingerprint_mismatch"
persistence_error_code_as_str PersistenceErrorCode.migration_descriptor_untrusted =
    "migration_descriptor_untrusted"
persistence_error_code_as_str PersistenceErrorCode.invalid_migration_descriptor =
    "invalid_migration_descriptor"
persistence_error_code_as_str PersistenceErrorCode.invalid_migration_request =
    "invalid_migration_request"
persistence_error_code_as_str PersistenceErrorCode.migration_route_missing =
    "migration_route_missing"
persistence_error_code_as_str PersistenceErrorCode.migration_route_mismatch =
    "migration_route_mismatch"
persistence_error_code_as_str PersistenceErrorCode.migration_transform_fault =
    "migration_transform_fault"
persistence_error_code_as_str PersistenceErrorCode.migration_totality_failure =
    "migration_totality_failure"
persistence_error_code_as_str PersistenceErrorCode.migration_resource_limit_exceeded =
    "migration_resource_limit_exceeded"
persistence_error_code_as_str PersistenceErrorCode.terminal_migration_requires_maintenance =
    "terminal_migration_requires_maintenance"
persistence_error_code_as_str PersistenceErrorCode.terminal_migration_rejected =
    "terminal_migration_rejected"

-- `PersistenceErrorCode::PORTABLE_CODES`
pub persistence_error_code_portable_codes : List PersistenceErrorCode
persistence_error_code_portable_codes =
    PersistenceErrorCode.unsupported_aggregate_state_format
    ∷ PersistenceErrorCode.unsupported_aggregate_state_schema_version
    ∷ PersistenceErrorCode.unsupported_migration_descriptor_format
    ∷ PersistenceErrorCode.unsupported_migration_descriptor_schema_version
    ∷ PersistenceErrorCode.unsupported_aggregate_state_package_format
    ∷ PersistenceErrorCode.unsupported_aggregate_state_package_schema_version
    ∷ PersistenceErrorCode.invalid_aggregate_state
    ∷ PersistenceErrorCode.invalid_aggregate_state_package
    ∷ PersistenceErrorCode.aggregate_state_digest_mismatch
    ∷ PersistenceErrorCode.source_definition_unavailable ∷ PersistenceErrorCode.definition_untrusted
    ∷ PersistenceErrorCode.target_definition_unavailable
    ∷ PersistenceErrorCode.definition_fingerprint_mismatch
    ∷ PersistenceErrorCode.migration_descriptor_untrusted
    ∷ PersistenceErrorCode.invalid_migration_descriptor
    ∷ PersistenceErrorCode.invalid_migration_request ∷ PersistenceErrorCode.migration_route_missing
    ∷ PersistenceErrorCode.migration_route_mismatch ∷ PersistenceErrorCode.migration_transform_fault
    ∷ PersistenceErrorCode.migration_totality_failure
    ∷ PersistenceErrorCode.migration_resource_limit_exceeded
    ∷ PersistenceErrorCode.terminal_migration_requires_maintenance
    ∷ PersistenceErrorCode.terminal_migration_rejected ∷ []
