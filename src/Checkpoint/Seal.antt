-- ===== src/Checkpoint/Seal.antt =====
-- `seal_checkpoint`, `seal_and_validate_checkpoint` and `guard` of checkpoint/v1.rs.
use determa_state_rust.Prelude.{
  List, ℕ, String, Bool, false, not, Option, none, some, ◌≡◌, ◌||◌, str_eq, if◌then◌else◌,
}
use determa_state_rust.Checkpoint.Records.{
  Hashing, spells, RevisionText, OutboxIntent, Receipt, Unsigned, ExecutionCheckpoint, Artifact, ok,
  ◌>>=◌, failure, bind-ok,
}
use determa_state_rust.Checkpoint.ByKey.{sort_by_key}

-- What a checkpoint is sealed with: the digests, which hash a canonical text of their argument, and
-- the validation of its schema and of its members' relations.
pub record Sealing (V R M : Type 0) : Type 0 where
  pub checkpoint_digest : Unsigned V R M → Artifact String
  pub hashing : Hashing V
  pub validate : ExecutionCheckpoint V R M → Artifact Unit

-- `jcs_hash`, of an array that the canonicalizer wrote; the canonicalizer's own message is left out.
abbrev pub hashed : {V : Type 0} → Hashing V → Option (List ℕ) → Artifact String
hashed hashing none = failure "invalid_execution_checkpoint"
hashed hashing (some bytes) = ok (hashing.sha256_text bytes)

unfoldable pub outbox_intent_digest :
    {V : Type 0} → Hashing V → String → OutboxIntent V → Artifact String
outbox_intent_digest hashing root_instance_id intent = hashed hashing (
    hashing.to_vec (record {
      tag = "determa-outbox-intent-digest-1";
      version = "1";
      root_instance_id = root_instance_id;
      intent = intent;
    }))

-- A guard's expectation that is given and differs from what is stored.
abbrev pub expects_other : {A B : Type 0} → (A → B → Bool) → Option A → B → Bool
expects_other spells none stored = false
expects_other spells (some expected) stored = not (spells expected stored)

module _ {V R M : Type 0} where
  abbrev pub with_sorted_receipts : Unsigned V R M → Unsigned V R M
  with_sorted_receipts v = record v {
    operation_receipts = sort_by_key Receipt.receipt_sequence v.operation_receipts;
  }

  unfoldable pub seal_checkpoint :
      Sealing V R M → Unsigned V R M → Artifact (ExecutionCheckpoint V R M)
  seal_checkpoint env v = env.checkpoint_digest (with_sorted_receipts v) >>= λ digest.
      ok (record { value = with_sorted_receipts v; execution_checkpoint_digest = digest })

  unfoldable pub seal_and_validate_checkpoint :
      Sealing V R M → Unsigned V R M → Artifact (ExecutionCheckpoint V R M)
  seal_and_validate_checkpoint env v = seal_checkpoint env v >>= λ c. env.validate c >>= λ _. ok c

  unfoldable pub stale : ExecutionCheckpoint V R M → Option RevisionText → Option String → Bool
  stale c revision digest =
      expects_other spells revision c.value.revision
      || expects_other str_eq digest c.execution_checkpoint_digest

  unfoldable pub guard :
      ExecutionCheckpoint V R M → Option RevisionText → Option String → Artifact Unit
  unfolding stale
  guard c revision digest =
      if stale c revision digest then failure "checkpoint_revision_conflict" else ok tt

  -- What a successful seal holds.
  pub sealed-value :
      (env : Sealing V R M) (v : Unsigned V R M) (c : ExecutionCheckpoint V R M)
      → seal_and_validate_checkpoint env v ≡ ok c
      → c.value ≡ with_sorted_receipts v
  unfolding seal_and_validate_checkpoint seal_checkpoint
  sealed-value env v c h =
      let (d, e, k) = bind-ok (seal_checkpoint env v) _ c h in
      let (d', e', k') = bind-ok (env.checkpoint_digest (with_sorted_receipts v)) _ d e in
      let (u, a, b) = bind-ok (env.validate d) _ c k in cc
