-- ===== src/Store/Profile/Laws.antt =====
-- What the host profiles of checkpoint/store.rs promise each other.
use determa_state_rust.Prelude.{false, ◌||◌, ◌&&◌, refl, false, Bool, true, ◌≡◌, arith}
use determa_state_rust.Store.Capability.{
  discriminant, permanent_receipt_retention, permanent_outbox_terminal_retention,
  compact_effect_identity_retention,
}
use determa_state_rust.Store.Retention.{
  DurableStoreMode, ReceiptRetentionMode, Capabilities, OutboxRetentionMode, permanent, strict,
  compact, add_capabilities, inserted,
}
use determa_state_rust.Store.Profile.{
  HostProfile, durable_embedded_processing, exactly_once_committed_processing, broker_integrated,
  strict_durable_outbox, compact_durable_outbox, shared_application_transaction_profile, Features,
  hypothetical_host_profile_matches,
}

abbrev pub is_permanent : ReceiptRetentionMode → Bool
is_permanent ReceiptRetentionMode.bounded = false
is_permanent permanent = true

abbrev pub is_strict : OutboxRetentionMode → Bool
is_strict OutboxRetentionMode.bounded = false
is_strict strict = true
is_strict compact = false

abbrev pub is_compact : OutboxRetentionMode → Bool
is_compact OutboxRetentionMode.bounded = false
is_compact strict = false
is_compact compact = true

abbrev modes : ReceiptRetentionMode → OutboxRetentionMode → DurableStoreMode
modes receipts outbox = record { receipt_retention = receipts; outbox_retention = outbox }

adds_receipts :
    (a : ReceiptRetentionMode) (b : OutboxRetentionMode) (c : Capabilities)
    → add_capabilities (modes a b) c permanent_receipt_retention
      ≡ (is_permanent a || c permanent_receipt_retention)
unfolding add_capabilities inserted discriminant
adds_receipts ReceiptRetentionMode.bounded OutboxRetentionMode.bounded c = refl
adds_receipts ReceiptRetentionMode.bounded strict c = refl
adds_receipts ReceiptRetentionMode.bounded compact c = refl
adds_receipts permanent OutboxRetentionMode.bounded c = refl
adds_receipts permanent strict c = refl
adds_receipts permanent compact c = refl

adds_strict :
    (a : ReceiptRetentionMode) (b : OutboxRetentionMode) (c : Capabilities)
    → add_capabilities (modes a b) c permanent_outbox_terminal_retention
      ≡ (is_strict b || c permanent_outbox_terminal_retention)
unfolding add_capabilities inserted discriminant
adds_strict ReceiptRetentionMode.bounded OutboxRetentionMode.bounded c = refl
adds_strict ReceiptRetentionMode.bounded strict c = refl
adds_strict ReceiptRetentionMode.bounded compact c = refl
adds_strict permanent OutboxRetentionMode.bounded c = refl
adds_strict permanent strict c = refl
adds_strict permanent compact c = refl

adds_compact :
    (a : ReceiptRetentionMode) (b : OutboxRetentionMode) (c : Capabilities)
    → add_capabilities (modes a b) c compact_effect_identity_retention
      ≡ (is_compact b || c compact_effect_identity_retention)
unfolding add_capabilities inserted discriminant
adds_compact ReceiptRetentionMode.bounded OutboxRetentionMode.bounded c = refl
adds_compact ReceiptRetentionMode.bounded strict c = refl
adds_compact ReceiptRetentionMode.bounded compact c = refl
adds_compact permanent OutboxRetentionMode.bounded c = refl
adds_compact permanent strict c = refl
adds_compact permanent compact c = refl

-- The retention that a profile is about: exactly-once processing needs receipts that stay, and a host that
-- replays them; each outbox profile needs the outbox mode of its name.
abbrev pub serves : DurableStoreMode → HostProfile → Bool → Bool
serves mode exactly_once_committed_processing replay = is_permanent mode.receipt_retention && replay
serves mode strict_durable_outbox replay = is_strict mode.outbox_retention
serves mode compact_durable_outbox replay = is_compact mode.outbox_retention
serves mode durable_embedded_processing replay = true
serves mode broker_integrated replay = true
serves mode shared_application_transaction_profile replay = true

-- A store that has no retention capability but those that its mode adds gives exactly-once processing only with
-- permanent receipts and to a host that replays permanently, the strict outbox only with strict outbox
-- retention, and the compact outbox only with compact, whatever else it and the host can do.
pub profile_needs_mode :
    (mode : DurableStoreMode) (c : Capabilities) (f : Features) (profile : HostProfile)
    (replay : Bool)
    → c permanent_receipt_retention ≡ false
    → c permanent_outbox_terminal_retention ≡ false
    → c compact_effect_identity_retention ≡ false
    → hypothetical_host_profile_matches (add_capabilities mode c) f profile replay ≡ true
    → serves mode profile replay ≡ true
unfolding hypothetical_host_profile_matches
profile_needs_mode mode c f durable_embedded_processing replay n₀ n₁ n₂ h = refl
profile_needs_mode mode c f exactly_once_committed_processing replay n₀ n₁ n₂ h =
    ground (arith, adds_receipts mode.receipt_retention mode.outbox_retention c)
profile_needs_mode mode c f broker_integrated replay n₀ n₁ n₂ h = refl
profile_needs_mode mode c f strict_durable_outbox replay n₀ n₁ n₂ h =
    ground (arith, adds_strict mode.receipt_retention mode.outbox_retention c)
profile_needs_mode mode c f compact_durable_outbox replay n₀ n₁ n₂ h =
    ground (arith, adds_compact mode.receipt_retention mode.outbox_retention c)
profile_needs_mode mode c f shared_application_transaction_profile replay n₀ n₁ n₂ h = refl

-- A store whose receipts are permanent gives exactly-once processing to a host that replays
-- permanently exactly if, before the retention modes added a capability, it gave durable embedded
-- processing: neither outbox retention mode makes a difference.
pub exactly_once_eq_durable_embedded :
    (outbox : OutboxRetentionMode) (c : Capabilities) (f : Features) (replay : Bool)
    → (hypothetical_host_profile_matches
          (add_capabilities (record { receipt_retention = permanent; outbox_retention = outbox }) c)
          f
          exactly_once_committed_processing
          true
        ≡ hypothetical_host_profile_matches c f durable_embedded_processing replay)
unfolding hypothetical_host_profile_matches add_capabilities inserted discriminant
exactly_once_eq_durable_embedded OutboxRetentionMode.bounded c f replay = ground arith
exactly_once_eq_durable_embedded strict c f replay = ground arith
exactly_once_eq_durable_embedded compact c f replay = ground arith
