-- ===== src/Checkpoint/Outbox.antt =====
-- The outbox operations of checkpoint/v1.rs: `checkpoint_update_pending_outbox`,
-- `checkpoint_terminalize_outbox` and `checkpoint_compact_outbox`.
pub mod Cases
pub mod Taken
pub mod Effects
pub mod Replay
use determa_state_rust.Prelude.{
  ℕ, suc, String, Bool, Option, none, some, List, [], ◌∷◌, ◌++◌, str_eq, if◌then◌else◌, any, find,
}
use determa_state_rust.Checkpoint.Records.{
  RevisionText, OutboxIntent, PendingOutboxState, TerminalOutboxOutcome, state_eq, outcome_eq,
  PendingRecord, TerminalRecord, EffectTombstone, Unsigned, ExecutionCheckpoint, Artifact, ok,
  ◌>>=◌, failure,
}
use determa_state_rust.Checkpoint.ByKey.{sort_by_key}
use determa_state_rust.Checkpoint.Seal.{
  outbox_intent_digest, Sealing, seal_and_validate_checkpoint, guard,
}

abbrev pub kept : {A : Type 0} → A → Option (A × List A) → Option (A × List A)
kept x none = none
kept x (some (y, ys)) = some (y, x ∷ ys)

-- The first element that passes, with the list that is left without it: `position`, then `remove`.
unfoldable pub take_first : {A : Type 0} → (A → Bool) → List A → Option (A × List A)
take_first p [] = none
take_first p (x ∷ xs) = let rest = take_first p xs in if p x then some (x, xs) else kept x rest

module _ {V : Type 0} where
  abbrev pub is_pending_of : String → PendingRecord V → Bool
  is_pending_of e r = str_eq r.intent.effect_id e

  abbrev pub is_terminal_of : String → TerminalRecord V → Bool
  is_terminal_of e r = str_eq r.intent.effect_id e

  -- The first record of the effect, with the new state and revision.
  pub set_state : String → PendingOutboxState → ℕ → List (PendingRecord V) → List (PendingRecord V)
  set_state e state revision [] = []
  set_state e state revision (r ∷ rs) =
      if is_pending_of e r
      then record r { delivery_state = state; state_revision = revision } ∷ rs
      else r ∷ set_state e state revision rs

abbrev pub is_tombstone_of : String → EffectTombstone → Bool
is_tombstone_of e r = str_eq r.effect_id e

module _ {V R M : Type 0} where
  abbrev pub updated : ExecutionCheckpoint V R M → String → PendingOutboxState → Unsigned V R M
  updated c e state = record c.value {
    revision = suc c.value.revision;
    pending_outbox_intents =
        set_state e state (suc c.value.revision) c.value.pending_outbox_intents;
  }

  abbrev pub terminalized :
      ExecutionCheckpoint V R M
      → TerminalOutboxOutcome
      → PendingRecord V
      → List (PendingRecord V)
      → Unsigned V R M
  terminalized c outcome pending others = record c.value {
    revision = suc c.value.revision;
    next_outbox_terminal_sequence = suc c.value.next_outbox_terminal_sequence;
    pending_outbox_intents = others;
    terminal_outbox_records =
        c.value.terminal_outbox_records
        ++ (record {
          terminal_sequence = c.value.next_outbox_terminal_sequence;
          intent = pending.intent;
          committed_revision = suc c.value.revision;
          outcome = outcome;
        }
            ∷ []);
  }

  abbrev pub compacted :
      ExecutionCheckpoint V R M
      → String
      → String
      → TerminalRecord V
      → List (TerminalRecord V)
      → Unsigned V R M
  compacted c e intent_digest terminal others = record c.value {
    revision = suc c.value.revision;
    terminal_outbox_records = others;
    outbox_effect_tombstones = sort_by_key EffectTombstone.terminal_sequence (
        c.value.outbox_effect_tombstones
        ++ (record {
          terminal_sequence = terminal.terminal_sequence;
          effect_id = e;
          intent_digest = intent_digest;
          committed_revision = terminal.committed_revision;
          outcome = terminal.outcome;
        }
            ∷ []));
  }

module _ {V R M : Type 0} (env : Sealing V R M) where
  update_existing :
      ExecutionCheckpoint V R M
      → String
      → PendingOutboxState
      → Option RevisionText
      → Option String
      → Option (PendingRecord V)
      → Artifact (ExecutionCheckpoint V R M)
  update_existing c e state revision digest none = failure "effect_id_conflict"
  update_existing c e state revision digest (some existing) =
      if state_eq existing.delivery_state state
      then ok c
      else (guard c revision digest >>= λ _. seal_and_validate_checkpoint env (updated c e state))

  pub update_pending :
      ExecutionCheckpoint V R M
      → String
      → PendingOutboxState
      → Option RevisionText
      → Option String
      → Artifact (ExecutionCheckpoint V R M)
  unfolding update_existing
  update_pending c e state revision digest =
      update_existing c e state revision digest
        (find (is_pending_of e) c.value.pending_outbox_intents)

  -- An effect that is terminal already: the same outcome changes nothing, another is refused.
  abbrev pub replayed :
      ExecutionCheckpoint V R M
      → TerminalOutboxOutcome
      → TerminalOutboxOutcome
      → Artifact (ExecutionCheckpoint V R M)
  replayed c stored outcome =
      if outcome_eq stored outcome then ok c else failure "effect_id_conflict"

  terminalize_taken :
      ExecutionCheckpoint V R M
      → TerminalOutboxOutcome
      → Option (PendingRecord V × List (PendingRecord V))
      → Artifact (ExecutionCheckpoint V R M)
  terminalize_taken c outcome none = failure "effect_id_conflict"
  terminalize_taken c outcome (some (pending, others)) =
      seal_and_validate_checkpoint env (terminalized c outcome pending others)

  terminalize_fresh :
      ExecutionCheckpoint V R M
      → String
      → TerminalOutboxOutcome
      → Option RevisionText
      → Option String
      → Option EffectTombstone
      → Artifact (ExecutionCheckpoint V R M)
  unfolding terminalize_taken
  terminalize_fresh c e outcome revision digest (some tombstone) =
      replayed c tombstone.outcome outcome
  terminalize_fresh c e outcome revision digest none = guard c revision digest >>= λ _.
      terminalize_taken c outcome (take_first (is_pending_of e) c.value.pending_outbox_intents)

  terminalize_unless :
      ExecutionCheckpoint V R M
      → String
      → TerminalOutboxOutcome
      → Option RevisionText
      → Option String
      → Option (TerminalRecord V)
      → Artifact (ExecutionCheckpoint V R M)
  unfolding terminalize_fresh
  terminalize_unless c e outcome revision digest (some terminal) =
      replayed c terminal.outcome outcome
  terminalize_unless c e outcome revision digest none =
      terminalize_fresh c e outcome revision digest
        (find (is_tombstone_of e) c.value.outbox_effect_tombstones)

  unfoldable pub terminalize :
      ExecutionCheckpoint V R M
      → String
      → TerminalOutboxOutcome
      → Option RevisionText
      → Option String
      → Artifact (ExecutionCheckpoint V R M)
  unfolding terminalize_unless
  terminalize c e outcome revision digest =
      terminalize_unless c e outcome revision digest
        (find (is_terminal_of e) c.value.terminal_outbox_records)

  compact_taken :
      ExecutionCheckpoint V R M
      → String
      → Option (TerminalRecord V × List (TerminalRecord V))
      → Artifact (ExecutionCheckpoint V R M)
  compact_taken c e none = failure "effect_id_conflict"
  compact_taken c e (some (terminal, others)) =
      outbox_intent_digest env.hashing c.value.root_instance_id terminal.intent >>= λ intent_digest.
      seal_and_validate_checkpoint env (compacted c e intent_digest terminal others)

  unfoldable pub compact :
      ExecutionCheckpoint V R M
      → String
      → Option RevisionText
      → Option String
      → Artifact (ExecutionCheckpoint V R M)
  unfolding compact_taken
  compact c e revision digest =
      if any (is_tombstone_of e) c.value.outbox_effect_tombstones
      then ok c
      else (guard c revision digest >>= λ _.
          compact_taken c e (take_first (is_terminal_of e) c.value.terminal_outbox_records))
