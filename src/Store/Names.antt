-- ===== src/Store/Names.antt =====
-- The names of the capabilities and of the host features together, checkpoint/store.rs.
use determa_state_rust.Prelude.{String, ◌≡◌, ◌↔◌, some}
use determa_state_rust.Store.Capability
use determa_state_rust.Store.Capability.{ExecutionStoreCapability, capability_name_iff}
use determa_state_rust.Store.HostFeature
use determa_state_rust.Store.HostFeature.{HostFeature, feature_name_iff}

-- A text names a capability exactly if it is the name that the capability is written as, and a host feature
-- exactly if it is the name that the feature is written as: reading and writing names are inverse, and
-- every other text is refused.
names_iff :
    ((name : String) (c : ExecutionStoreCapability)
      → (Capability.from_name name ≡ some c) ↔ (name ≡ Capability.as_str c))
    × ((name : String) (c : HostFeature)
        → (HostFeature.from_name name ≡ some c) ↔ (name ≡ HostFeature.as_str c))
names_iff = (capability_name_iff, feature_name_iff)
