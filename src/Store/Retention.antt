-- ===== src/Store/Retention.antt =====
-- The retention modes of checkpoint/store.rs. A `BTreeSet` of capabilities is its membership test.
use determa_state_rust.Prelude.{String, Bool, ◌||◌, ◌==◌}
use determa_state_rust.Store.Capability.{
  ExecutionStoreCapability, discriminant, permanent_receipt_retention,
  permanent_outbox_terminal_retention, compact_effect_identity_retention,
}

pub data ReceiptRetentionMode : Type 0 where
  bounded permanent : ReceiptRetentionMode

pub data OutboxRetentionMode : Type 0 where
  bounded strict compact : OutboxRetentionMode

pub record DurableStoreMode : Type 0 where
  pub receipt_retention : ReceiptRetentionMode
  pub outbox_retention : OutboxRetentionMode

-- `ReceiptRetentionMode::as_str`
unfoldable pub receipt_as_str : ReceiptRetentionMode → String
receipt_as_str ReceiptRetentionMode.bounded = "bounded"
receipt_as_str permanent = "permanent"

-- `OutboxRetentionMode::as_str`
unfoldable pub outbox_as_str : OutboxRetentionMode → String
outbox_as_str OutboxRetentionMode.bounded = "bounded"
outbox_as_str strict = "strict"
outbox_as_str compact = "compact"

abbrev pub Capabilities : Type 0
Capabilities = ExecutionStoreCapability → Bool

unfoldable pub inserted : ExecutionStoreCapability → Capabilities → Capabilities
unfolding discriminant
inserted c s d = discriminant d == discriminant c || s d

add_receipt_capability : ReceiptRetentionMode → Capabilities → Capabilities
add_receipt_capability ReceiptRetentionMode.bounded s = s
add_receipt_capability permanent s = inserted permanent_receipt_retention s

add_outbox_capability : OutboxRetentionMode → Capabilities → Capabilities
add_outbox_capability OutboxRetentionMode.bounded s = s
add_outbox_capability strict s = inserted permanent_outbox_terminal_retention s
add_outbox_capability compact s = inserted compact_effect_identity_retention s

unfoldable pub add_capabilities : DurableStoreMode → Capabilities → Capabilities
unfolding inserted add_receipt_capability add_outbox_capability
add_capabilities mode s =
    add_outbox_capability mode.outbox_retention (add_receipt_capability mode.receipt_retention s)
