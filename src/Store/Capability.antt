-- ===== src/Store/Capability.antt =====
-- `ExecutionStoreCapability` of checkpoint/store.rs, with its portable names.
use determa_state_rust.Prelude.{
  ℕ, String, Option, none, some, ◌≡◌, ◌↔◌, refl, sym, arith, str_eq, eq_iff, if◌then◌else◌,
}

pub data ExecutionStoreCapability : Type 0 where
  ephemeral : ExecutionStoreCapability
  restart_persistent : ExecutionStoreCapability
  durable_single_writer : ExecutionStoreCapability
  durable_concurrent : ExecutionStoreCapability
  shared_application_transaction : ExecutionStoreCapability
  permanent_receipt_retention : ExecutionStoreCapability
  root_identity_retention : ExecutionStoreCapability
  permanent_outbox_terminal_retention : ExecutionStoreCapability
  compact_effect_identity_retention : ExecutionStoreCapability

unfoldable pub as_str : ExecutionStoreCapability → String
as_str ephemeral = "ephemeral"
as_str restart_persistent = "restart_persistent"
as_str durable_single_writer = "durable_single_writer"
as_str durable_concurrent = "durable_concurrent"
as_str shared_application_transaction = "shared_application_transaction"
as_str permanent_receipt_retention = "permanent_receipt_retention"
as_str root_identity_retention = "root_identity_retention"
as_str permanent_outbox_terminal_retention = "permanent_outbox_terminal_retention"
as_str compact_effect_identity_retention = "compact_effect_identity_retention"

unfoldable pub from_name : String → Option ExecutionStoreCapability
from_name name =
    if str_eq name "ephemeral"
    then some ephemeral
    else if str_eq name "restart_persistent"
    then some restart_persistent
    else if str_eq name "durable_single_writer"
    then some durable_single_writer
    else if str_eq name "durable_concurrent"
    then some durable_concurrent
    else if str_eq name "shared_application_transaction"
    then some shared_application_transaction
    else if str_eq name "permanent_receipt_retention"
    then some permanent_receipt_retention
    else if str_eq name "root_identity_retention"
    then some root_identity_retention
    else if str_eq name "permanent_outbox_terminal_retention"
    then some permanent_outbox_terminal_retention
    else if str_eq name "compact_effect_identity_retention"
    then some compact_effect_identity_retention
    else none

-- The derived order, by which a `BTreeSet` tells its members apart, compares positions.
unfoldable pub discriminant : ExecutionStoreCapability → ℕ
discriminant ephemeral = 0
discriminant restart_persistent = 1
discriminant durable_single_writer = 2
discriminant durable_concurrent = 3
discriminant shared_application_transaction = 4
discriminant permanent_receipt_retention = 5
discriminant root_identity_retention = 6
discriminant permanent_outbox_terminal_retention = 7
discriminant compact_effect_identity_retention = 8

from_name-as_str : (c : ExecutionStoreCapability) → from_name (as_str c) ≡ some c
unfolding from_name as_str
from_name-as_str ephemeral = refl
from_name-as_str restart_persistent = refl
from_name-as_str durable_single_writer = refl
from_name-as_str durable_concurrent = refl
from_name-as_str shared_application_transaction = refl
from_name-as_str permanent_receipt_retention = refl
from_name-as_str root_identity_retention = refl
from_name-as_str permanent_outbox_terminal_retention = refl
from_name-as_str compact_effect_identity_retention = refl

as_str_of_from_name :
    (name : String) (c : ExecutionStoreCapability) → from_name name ≡ some c → as_str c ≡ name
unfolding from_name as_str
as_str_of_from_name name c h = ground (
  arith,
  eq_iff name "ephemeral",
  eq_iff name "restart_persistent",
  eq_iff name "durable_single_writer",
  eq_iff name "durable_concurrent",
  eq_iff name "shared_application_transaction",
  eq_iff name "permanent_receipt_retention",
  eq_iff name "root_identity_retention",
  eq_iff name "permanent_outbox_terminal_retention",
  eq_iff name "compact_effect_identity_retention",
)

-- A text names a capability exactly if it is the name that a capability is written as: reading and writing
-- names are inverse, and every other text is refused.
pub capability_name_iff :
    (name : String) (c : ExecutionStoreCapability) → (from_name name ≡ some c) ↔ (name ≡ as_str c)
capability_name_iff name c =
    (λ h. sym (as_str_of_from_name name c h), λ e. rw e (from_name-as_str c))
