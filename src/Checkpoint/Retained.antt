-- ===== src/Checkpoint/Retained.antt =====
-- The outbox part of `validate_emission_and_outbox_relationships` in checkpoint/v1.rs: the three loops over
-- the pending intents, the terminal records and the effect tombstones, with the sets that they fill.
pub mod Once
use determa_state_rust.Prelude.{
  ℕ, String, Bool, true, false, not, Option, none, some, List, [], ◌∷◌, ◌||◌, ◌==◌, leb, ltb, any,
  str_eq, if◌then◌else◌,
}
use determa_state_rust.Checkpoint.Records.{
  PendingRecord, TerminalRecord, EffectTombstone, Unsigned, Artifact, ok, err, ArtifactError, ◌>>=◌,
}

-- The sets `effects`, `outbox_sequences` and `terminal_sequences`.
pub record Seen : Type 0 where
  pub effects : List String
  pub outbox_sequences : List ℕ
  pub terminal_sequences : List ℕ

-- `invalid`
abbrev pub invalid : {A : Type 0} → String → Artifact A
invalid message = err (record { code = "invalid_execution_checkpoint"; message = message })

abbrev pub has_text : String → List String → Bool
has_text e l = any (λ d. str_eq d e) l

abbrev pub has_number : ℕ → List ℕ → Bool
has_number n l = any (λ k. k == n) l

-- `prior.is_some_and(|prior| prior >= sequence)`
abbrev pub not_above : Option ℕ → ℕ → Bool
not_above none n = false
not_above (some prior) n = leb n prior

abbrev pub chronology : {A : Type 0} → Artifact A
chronology = invalid "outbox identity, allocation, or chronology is invalid"

abbrev pub allocation : {A : Type 0} → Artifact A
allocation = invalid "outbox terminal allocation is invalid"

abbrev pub identity : {A : Type 0} → Artifact A
identity = invalid "outbox effect identity or terminal sequence is invalid"

module _ {V : Type 0} where
  abbrev pub refuses_pending : ℕ → Option ℕ → Seen → PendingRecord V → Bool
  refuses_pending revision prior seen r =
      has_text r.intent.effect_id seen.effects
      || has_number r.intent.sequence seen.outbox_sequences
      || not_above prior r.intent.sequence
      || ltb revision r.state_revision

  abbrev pub with_pending : Seen → PendingRecord V → Seen
  with_pending seen r = record seen {
    effects = r.intent.effect_id ∷ seen.effects;
    outbox_sequences = r.intent.sequence ∷ seen.outbox_sequences;
  }

  -- The loop over the pending intents
  check_pending : ℕ → Option ℕ → Seen → List (PendingRecord V) → Artifact Seen
  check_pending revision prior seen [] = ok seen
  check_pending revision prior seen (r ∷ rs) =
      if refuses_pending revision prior seen r
      then chronology
      else check_pending revision (some r.intent.sequence) (with_pending seen r) rs

  abbrev pub refuses_terminal : ℕ → Seen → TerminalRecord V → Bool
  refuses_terminal revision seen r =
      has_text r.intent.effect_id seen.effects
      || has_number r.intent.sequence seen.outbox_sequences
      || ltb revision r.committed_revision

  abbrev pub refuses_allocation : ℕ → Option ℕ → Seen → TerminalRecord V → Bool
  refuses_allocation next prior seen r =
      leb next r.terminal_sequence
      || not_above prior r.terminal_sequence
      || has_number r.terminal_sequence seen.terminal_sequences

  abbrev pub with_terminal : Seen → TerminalRecord V → Seen
  with_terminal seen r = record {
    effects = r.intent.effect_id ∷ seen.effects;
    outbox_sequences = r.intent.sequence ∷ seen.outbox_sequences;
    terminal_sequences = r.terminal_sequence ∷ seen.terminal_sequences;
  }

  -- The loop over the terminal records
  check_terminal : ℕ → ℕ → Option ℕ → Seen → List (TerminalRecord V) → Artifact Seen
  check_terminal revision next prior seen [] = ok seen
  check_terminal revision next prior seen (r ∷ rs) =
      if refuses_terminal revision seen r
      then chronology
      else if refuses_allocation next prior seen r
      then allocation
      else check_terminal revision next (some r.terminal_sequence) (with_terminal seen r) rs

abbrev pub refuses_tombstone : ℕ → Option ℕ → Seen → EffectTombstone → Bool
refuses_tombstone next prior seen r =
    has_text r.effect_id seen.effects
    || leb next r.terminal_sequence
    || has_number r.terminal_sequence seen.terminal_sequences
    || not_above prior r.terminal_sequence

abbrev pub with_tombstone : Seen → EffectTombstone → Seen
with_tombstone seen r = record seen {
  effects = r.effect_id ∷ seen.effects;
  terminal_sequences = r.terminal_sequence ∷ seen.terminal_sequences;
}

-- The loop over the effect tombstones
check_tombstones : ℕ → Option ℕ → Seen → List EffectTombstone → Artifact Seen
check_tombstones next prior seen [] = ok seen
check_tombstones next prior seen (r ∷ rs) =
    if refuses_tombstone next prior seen r
    then identity
    else check_tombstones next (some r.terminal_sequence) (with_tombstone seen r) rs

abbrev pub nothing_seen : Seen
nothing_seen = record { effects = []; outbox_sequences = []; terminal_sequences = [] }

unfoldable pub check_outbox : {V R M : Type 0} → Unsigned V R M → Artifact Seen
unfolding check_pending check_terminal check_tombstones
check_outbox v = check_pending v.revision none nothing_seen v.pending_outbox_intents >>= λ pending.
    check_terminal v.revision v.next_outbox_terminal_sequence none pending v.terminal_outbox_records
    >>= λ terminal.
        check_tombstones v.next_outbox_terminal_sequence none terminal v.outbox_effect_tombstones
