-- ===== src/Tests/Storing.antt =====
-- The in-memory store, the portable names and the host profiles at concrete inputs.
use determa_state_rust.Prelude.{true, false, some, [], ◌∷◌, ◌≡◌, ◌≢◌, refl, arith, eq_iff}
use determa_state_rust.Store.Records.{StoreRecord, committed, conflict, ok}
use determa_state_rust.Store.Contract.Updates.{IsHeld, inserting, swapping, after_calls}
use determa_state_rust.Store.Memory.{MemoryExecutionStore, compare_and_swap, swap_if, differs}
use determa_state_rust.Store.Memory.Keyed.{find_record, put_record}
use determa_state_rust.Store.Memory.Clients.{memory_loses_no_update, memory_keeps_roots}
use determa_state_rust.Store.Memory.Refines.{memory_operations}
use determa_state_rust.Store.Capability.{
  discriminant, durable_single_writer, root_identity_retention,
}
use determa_state_rust.Store.HostFeature.{atomic_checkpoint_processing}
use determa_state_rust.Store.Retention.{
  compact, DurableStoreMode, inserted, Capabilities, add_capabilities, permanent, strict,
}
use determa_state_rust.Store.Profile.{
  Features, exactly_once_committed_processing, durable_embedded_processing,
  hypothetical_host_profile_matches,
}
use determa_state_rust.Store.Profile.Laws.{
  serves, profile_needs_mode, exactly_once_eq_durable_embedded,
}

abbrev first : StoreRecord
first = record {
  root_instance_id = "a";
  revision = "0";
  execution_checkpoint_digest = "d0";
  bytes = 1 ∷ [];
}

abbrev second : StoreRecord
second = record {
  root_instance_id = "a";
  revision = "1";
  execution_checkpoint_digest = "d1";
  bytes = 2 ∷ [];
}

abbrev holding_first : MemoryExecutionStore
holding_first = record { records = ("a", first) ∷ []; poisoned = false }

first-IsHeld : IsHeld (find_record "a" holding_first.records)
unfolding find_record
first-IsHeld = (first, refl)

second_commits : (compare_and_swap holding_first "a" "0" "d0" second).0 ≡ ok committed
unfolding compare_and_swap swap_if differs find_record put_record
second_commits = refl

second_moves : second.revision ≢ "0"
second_moves = ground (arith, eq_iff "1" "0")

memory_loses_no_update_example :
    (compare_and_swap (compare_and_swap holding_first "a" "0" "d0" second).1 "a" "0" "d0" second).0
    ≡ ok (conflict (some second))
memory_loses_no_update_example =
    memory_loses_no_update holding_first "a" "0" "d0" "d0" second second refl refl second_moves
      second_commits

memory_keeps_roots_example : IsHeld (
    find_record "a"
      (after_calls memory_operations holding_first
        (swapping "a" "0" "d0" second ∷ inserting first ∷ [])).records)
memory_keeps_roots_example =
    memory_keeps_roots holding_first (swapping "a" "0" "d0" second ∷ inserting first ∷ []) "a"
      first-IsHeld

abbrev few : Capabilities
few durable_single_writer = true
few root_identity_retention = true
few _ = false

abbrev one : Features
one atomic_checkpoint_processing = true
one _ = false

-- With permanent receipts and compact outbox retention.
abbrev few_mode : DurableStoreMode
few_mode = record { receipt_retention = permanent; outbox_retention = compact }

few_is_exactly_once :
    hypothetical_host_profile_matches
      (add_capabilities few_mode few)
      one
      exactly_once_committed_processing
      true
    ≡ true
unfolding hypothetical_host_profile_matches add_capabilities inserted discriminant
few_is_exactly_once = refl

profile_needs_mode_example : serves few_mode exactly_once_committed_processing true ≡ true
profile_needs_mode_example =
    profile_needs_mode few_mode few one exactly_once_committed_processing true refl refl refl
      few_is_exactly_once

exactly_once_eq_durable_embedded_example :
    (hypothetical_host_profile_matches
      (add_capabilities (record { receipt_retention = permanent; outbox_retention = strict }) few)
      one
      exactly_once_committed_processing
      true)
    ≡ hypothetical_host_profile_matches few one durable_embedded_processing false
exactly_once_eq_durable_embedded_example = exactly_once_eq_durable_embedded strict few one false
