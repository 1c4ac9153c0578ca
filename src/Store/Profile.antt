-- ===== src/Store/Profile.antt =====
-- The host profiles of checkpoint/store.rs and the predicate that decides them from a store's
-- capabilities and a host's features.
pub mod Laws
use determa_state_rust.Prelude.{Bool, ◌&&◌, ◌||◌}
use determa_state_rust.Store.Capability.{
  durable_single_writer, durable_concurrent, shared_application_transaction,
  permanent_receipt_retention, root_identity_retention, permanent_outbox_terminal_retention,
  compact_effect_identity_retention,
}
use determa_state_rust.Store.HostFeature.{
  HostFeature, atomic_checkpoint_processing, acknowledge_after_checkpoint_commit,
  durable_redelivery, outbox_worker, total_outbox_lifecycle, retain_unresolved_outbox,
  retain_referenced_effect_tombstones, native_shared_application_transaction,
}
use determa_state_rust.Store.Retention.{Capabilities}

pub data HostProfile : Type 0 where
  durable_embedded_processing exactly_once_committed_processing : HostProfile
  broker_integrated strict_durable_outbox compact_durable_outbox : HostProfile
  shared_application_transaction_profile : HostProfile

abbrev pub Features : Type 0
Features = HostFeature → Bool

abbrev pub durable : Capabilities → Bool
durable c = c durable_single_writer || c durable_concurrent

unfoldable pub hypothetical_host_profile_matches :
    Capabilities → Features → HostProfile → Bool → Bool
hypothetical_host_profile_matches c f durable_embedded_processing permanent =
    durable c && c root_identity_retention && f atomic_checkpoint_processing
hypothetical_host_profile_matches c f exactly_once_committed_processing permanent =
    durable c
    && c root_identity_retention
    && f atomic_checkpoint_processing
    && permanent
    && c permanent_receipt_retention
hypothetical_host_profile_matches c f broker_integrated permanent =
    durable c
    && c root_identity_retention
    && f atomic_checkpoint_processing
    && f acknowledge_after_checkpoint_commit
    && f durable_redelivery
    && f outbox_worker
hypothetical_host_profile_matches c f strict_durable_outbox permanent =
    durable c
    && c root_identity_retention
    && c permanent_outbox_terminal_retention
    && f outbox_worker
    && f total_outbox_lifecycle
    && f retain_unresolved_outbox
hypothetical_host_profile_matches c f compact_durable_outbox permanent =
    durable c
    && c root_identity_retention
    && c compact_effect_identity_retention
    && f outbox_worker
    && f total_outbox_lifecycle
    && f retain_referenced_effect_tombstones
hypothetical_host_profile_matches c f shared_application_transaction_profile permanent =
    durable c
    && c root_identity_retention
    && c shared_application_transaction
    && f native_shared_application_transaction
