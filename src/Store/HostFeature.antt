-- ===== src/Store/HostFeature.antt =====
-- `HostFeature` of checkpoint/store.rs, with its portable names.
use determa_state_rust.Prelude.{
  String, Option, none, some, ◌≡◌, ◌↔◌, refl, sym, arith, str_eq, eq_iff, if◌then◌else◌,
}

pub data HostFeature : Type 0 where
  atomic_checkpoint_processing : HostFeature
  acknowledge_after_checkpoint_commit : HostFeature
  durable_redelivery : HostFeature
  outbox_worker : HostFeature
  total_outbox_lifecycle : HostFeature
  retain_unresolved_outbox : HostFeature
  retain_referenced_effect_tombstones : HostFeature
  native_shared_application_transaction : HostFeature

unfoldable pub as_str : HostFeature → String
as_str atomic_checkpoint_processing = "atomic_accept_process"
as_str acknowledge_after_checkpoint_commit = "ingress_ack_after_commit"
as_str durable_redelivery = "durable_redelivery"
as_str outbox_worker = "outbox_worker"
as_str total_outbox_lifecycle = "total_outbox_lifecycle"
as_str retain_unresolved_outbox = "retain_unresolved_outbox"
as_str retain_referenced_effect_tombstones = "retain_receipt_references"
as_str native_shared_application_transaction = "native_shared_transaction_used"

unfoldable pub from_name : String → Option HostFeature
from_name name =
    if str_eq name "atomic_accept_process"
    then some atomic_checkpoint_processing
    else if str_eq name "ingress_ack_after_commit"
    then some acknowledge_after_checkpoint_commit
    else if str_eq name "durable_redelivery"
    then some durable_redelivery
    else if str_eq name "outbox_worker"
    then some outbox_worker
    else if str_eq name "total_outbox_lifecycle"
    then some total_outbox_lifecycle
    else if str_eq name "retain_unresolved_outbox"
    then some retain_unresolved_outbox
    else if str_eq name "retain_receipt_references"
    then some retain_referenced_effect_tombstones
    else if str_eq name "native_shared_transaction_used"
    then some native_shared_application_transaction
    else none

from_name-as_str : (c : HostFeature) → from_name (as_str c) ≡ some c
unfolding from_name as_str
from_name-as_str atomic_checkpoint_processing = refl
from_name-as_str acknowledge_after_checkpoint_commit = refl
from_name-as_str durable_redelivery = refl
from_name-as_str outbox_worker = refl
from_name-as_str total_outbox_lifecycle = refl
from_name-as_str retain_unresolved_outbox = refl
from_name-as_str retain_referenced_effect_tombstones = refl
from_name-as_str native_shared_application_transaction = refl

as_str_of_from_name : (name : String) (c : HostFeature) → from_name name ≡ some c → as_str c ≡ name
unfolding from_name as_str
as_str_of_from_name name c h = ground (
  arith,
  eq_iff name "atomic_accept_process",
  eq_iff name "ingress_ack_after_commit",
  eq_iff name "durable_redelivery",
  eq_iff name "outbox_worker",
  eq_iff name "total_outbox_lifecycle",
  eq_iff name "retain_unresolved_outbox",
  eq_iff name "retain_receipt_references",
  eq_iff name "native_shared_transaction_used",
)

-- A text names a feature exactly if it is the name that a feature is written as: reading and writing
-- names are inverse, and every other text is refused.
pub feature_name_iff :
    (name : String) (c : HostFeature) → (from_name name ≡ some c) ↔ (name ≡ as_str c)
feature_name_iff name c = (λ h. sym (as_str_of_from_name name c h), λ e. rw e (from_name-as_str c))
