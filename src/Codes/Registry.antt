-- ===== src/Codes/Registry.antt =====
-- All closed sets of codes together.
use determa_state_rust.Codes.Runtime.{RuntimeCodes, runtime_codes-IsRegistry}
use determa_state_rust.Codes.Checkpoint.{CheckpointCodes, checkpoint_codes-IsRegistry}
use determa_state_rust.Codes.Loading.Listed.{LoadingCodes, loading_codes-IsRegistry}
use determa_state_rust.Codes.Persisting.Listed.{PersistingCodes, persisting_codes-IsRegistry}
use determa_state_rust.Codes.Inspecting.{InspectingCodes, inspecting_codes-IsRegistry}

-- In each closed set of codes of the runtime, the loader, the persistence of aggregates, the inspection, the
-- checkpoints and the stores, the texts tell the codes apart, and the portable list holds every code, but
-- for a failed structural validation, a missing runtime provider, and a store's own failure.
all_codes-AreRegistries :
    RuntimeCodes × LoadingCodes × PersistingCodes × InspectingCodes × CheckpointCodes
all_codes-AreRegistries = (
  runtime_codes-IsRegistry, loading_codes-IsRegistry, persisting_codes-IsRegistry,
  inspecting_codes-IsRegistry, checkpoint_codes-IsRegistry,
)
