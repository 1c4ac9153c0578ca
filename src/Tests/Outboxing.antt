-- ===== src/Tests/Outboxing.antt =====
-- The outbox operations at a concrete checkpoint.
use determa_state_rust.Prelude.{
  codes, List, ℕ, ◌≤◌, zero, suc, String, true, none, some, [], ◌∷◌, ◌≡◌, ◌⊎◌, refl,
}
use determa_state_rust.Checkpoint.Records.{
  decimal, OutboxIntent, confirmed, discarded, not_attempted, TerminalRecord, ExecutionCheckpoint,
  ok, failure, outcome_eq,
}
use determa_state_rust.Checkpoint.ByKey.{sort_by_key, insert_by_key}
use determa_state_rust.Checkpoint.Seal
use determa_state_rust.Checkpoint.Seal.{
  Sealing, seal_checkpoint, seal_and_validate_checkpoint, guard, stale,
}
use determa_state_rust.Checkpoint.Outbox.{take_first, terminalize, compact}
use determa_state_rust.Checkpoint.Outbox.Effects.{
  OutboxCall, terminalizing, compacting, run, ExpectsStored, records_of, has_outcome,
  effects_are_kept, stale_writes_nothing, outcome_is_final,
}
use determa_state_rust.Checkpoint.Retained.{Seen, check_outbox}
use determa_state_rust.Checkpoint.Retained.Once.{each_effect_once}
use determa_state_rust.Checkpoint.Outbox.Replay.{guarded_by, call_replays, first_outcome_wins}

-- The digest tells whether the revision is zero.
abbrev digest_of : ℕ → String
digest_of zero = "d0"
digest_of (suc n) = "d1"

-- The digest tells whether anything was hashed.
abbrev hex : List ℕ → String
hex [] = ""
hex (c ∷ rest) = "x"

abbrev pub env : Sealing ℕ ℕ ℕ
env = record {
  checkpoint_digest = λ v. ok (digest_of v.revision);
  hashing = record { to_vec = λ array. some (codes array.intent.effect_id); sha256_text = hex };
  validate = λ c. ok tt;
}

abbrev intent_x : OutboxIntent ℕ
intent_x = record {
  effect_id = "x";
  sequence = 0;
  event = "mail";
  payload = 7;
  correlation_id = none;
}

abbrev pub before : ExecutionCheckpoint ℕ ℕ ℕ
before = record {
  value = record {
    root_instance_id = "a";
    revision = 0;
    next_outbox_terminal_sequence = 0;
    pending_outbox_intents =
        record { intent = intent_x; delivery_state = not_attempted; state_revision = 0 } ∷ [];
    terminal_outbox_records = [];
    outbox_effect_tombstones = [];
    operation_receipts = [];
    members = 0;
  };
  execution_checkpoint_digest = "d0";
}

abbrev pub delivered : TerminalRecord ℕ
delivered = record {
  terminal_sequence = 0;
  intent = intent_x;
  committed_revision = 1;
  outcome = confirmed;
}

abbrev pub after : ExecutionCheckpoint ℕ ℕ ℕ
after = record {
  value = record before.value {
    revision = 1;
    next_outbox_terminal_sequence = 1;
    pending_outbox_intents = [];
    terminal_outbox_records = delivered ∷ [];
  };
  execution_checkpoint_digest = "d1";
}

abbrev pub confirming : OutboxCall
confirming = terminalizing "x" confirmed (some (decimal 0)) (some "d0")

pub confirming_runs : run env before confirming ≡ ok after
unfolding terminalize take_first seal_and_validate_checkpoint seal_checkpoint guard stale
    sort_by_key
confirming_runs = refl

abbrev pub compacted_x : ExecutionCheckpoint ℕ ℕ ℕ
compacted_x = record {
  value = record after.value {
    revision = 2;
    terminal_outbox_records = [];
    outbox_effect_tombstones =
        record {
          terminal_sequence = 0;
          effect_id = "x";
          intent_digest = "x";
          committed_revision = 1;
          outcome = confirmed;
        }
        ∷ [];
  };
  execution_checkpoint_digest = "d1";
}

pub compacting_runs : run env after (compacting "x" (some (decimal 1)) none) ≡ ok compacted_x
unfolding compact Seal.outbox_intent_digest take_first seal_and_validate_checkpoint seal_checkpoint
    guard stale sort_by_key insert_by_key
compacting_runs = refl

effects_are_kept_example : records_of after.value "x" ≡ records_of before.value "x"
effects_are_kept_example = effects_are_kept env before after confirming "x" confirming_runs

stale_writes_nothing_example :
    (after ≡ before) ⊎ (ExpectsStored before confirming × (after.value.revision ≡ 1))
stale_writes_nothing_example = stale_writes_nothing env before after confirming confirming_runs

x_is_confirmed : has_outcome after.value "x" confirmed ≡ true
unfolding outcome_eq
x_is_confirmed = refl

outcome_is_final_example : has_outcome compacted_x.value "x" confirmed ≡ true
outcome_is_final_example =
    outcome_is_final env after compacted_x (compacting "x" (some (decimal 1)) none) "x" confirmed
      compacting_runs x_is_confirmed

call_replays_example :
    run env after (guarded_by (some (decimal 0)) (some "d0") confirming) ≡ ok after
call_replays_example =
    call_replays env before after confirming (some (decimal 0)) (some "d0") confirming_runs

first_outcome_wins_example :
    run env after (terminalizing "x" (discarded "late") none none) ≡ failure "effect_id_conflict"
first_outcome_wins_example =
    first_outcome_wins env before after "x" confirmed (discarded "late") (some (decimal 0)) none
      (some "d0") none confirming_runs (λ e. cc)

abbrev seen_x : Seen
seen_x = record { effects = "x" ∷ []; outbox_sequences = 0 ∷ []; terminal_sequences = [] }

before_is_accepted : check_outbox before.value ≡ ok seen_x
unfolding check_outbox
before_is_accepted = refl

each_effect_once_example : (records_of before.value "x" ≤ 1) × (records_of after.value "x" ≤ 1)
each_effect_once_example =
    each_effect_once env before after confirming seen_x "x" before_is_accepted confirming_runs
