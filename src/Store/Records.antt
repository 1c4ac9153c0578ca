-- ===== src/Store/Records.antt =====
-- The records and results of checkpoint/store.rs.
use determa_state_rust.Prelude.{ℕ, String, Option, List}

pub record StoreRecord : Type 0 where
  pub root_instance_id : String
  pub revision : String
  pub execution_checkpoint_digest : String
  pub bytes : List ℕ

pub data StoreWriteResult : Type 0 where
  committed : StoreWriteResult
  conflict : Option StoreRecord → StoreWriteResult

pub data StoreErrorCode : Type 0 where
  execution_store_failure injected_pre_commit_failure invalid_store_scope : StoreErrorCode
  permanent_processing_failure response_lost_after_commit : StoreErrorCode
  transient_processing_failure : StoreErrorCode

pub record StoreError : Type 0 where
  pub code : StoreErrorCode
  pub message : String

-- `Result<A, StoreError>`
pub data Stored (A : Type 0) : Type 0 where
  ok : A → Stored A
  err : StoreError → Stored A

-- `StoreError::new`
abbrev pub store_failure : String → StoreError
store_failure message = record { code = execution_store_failure; message = message }
