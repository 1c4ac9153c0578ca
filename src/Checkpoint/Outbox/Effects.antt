-- ===== src/Checkpoint/Outbox/Effects.antt =====
-- What any outbox operation of checkpoint/v1.rs keeps: the effects, the outcomes that are final, and
-- the revision as the witness of a write.
use determa_state_rust.Prelude.{
  ==_iff, ℕ, suc, ◌+◌, String, Bool, true, false, Option, some, List, ◌≡◌, ◌⊎◌, inl, inr, refl,
  ◌&&◌, ◌||◌, str_eq, eq_iff, any, arith, ap,
}
use determa_state_rust.Checkpoint.Records.{
  spells, decimal, PendingOutboxState, TerminalOutboxOutcome, outcome_eq, PendingRecord,
  TerminalRecord, EffectTombstone, ExecutionCheckpoint, Unsigned, Artifact, ok,
}
use determa_state_rust.Checkpoint.ByKey.{
  count, count-sort_by_key, count-append, any-sort_by_key, any-append,
}
use determa_state_rust.Checkpoint.Seal.{expects_other, Sealing, stale}
use determa_state_rust.Checkpoint.Outbox.{
  RevisionText, none, take_first, is_pending_of, is_terminal_of, is_tombstone_of, updated,
  terminalized, compacted, update_pending, terminalize, compact,
}
use determa_state_rust.Checkpoint.Outbox.Cases.{
  update_pending_cases, terminalize_cases, compact_cases,
}
use determa_state_rust.Checkpoint.Outbox.Taken.{taken, count-set_state}

-- A call, with the revision and the digest that its caller expects.
pub data OutboxCall : Type 0 where
  updating : String → PendingOutboxState → Option RevisionText → Option String → OutboxCall
  terminalizing : String → TerminalOutboxOutcome → Option RevisionText → Option String → OutboxCall
  compacting : String → Option RevisionText → Option String → OutboxCall

abbrev pub expected_revision : OutboxCall → Option RevisionText
expected_revision (updating e state revision digest) = revision
expected_revision (terminalizing e outcome revision digest) = revision
expected_revision (compacting e revision digest) = revision

abbrev pub expected_digest : OutboxCall → Option String
expected_digest (updating e state revision digest) = digest
expected_digest (terminalizing e outcome revision digest) = digest
expected_digest (compacting e revision digest) = digest

-- What is expected of a stored value is nothing, or that value.
abbrev pub IsNoneOr : {A : Type 0} → Option A → A → Type 0
IsNoneOr expected stored = (expected ≡ none) ⊎ (expected ≡ some stored)

-- The caller named no revision or the stored one, and no digest or the stored one.
abbrev pub ExpectsStored : {V R M : Type 0} → ExecutionCheckpoint V R M → OutboxCall → Type 0
ExpectsStored c call =
    IsNoneOr (expected_revision call) (decimal c.value.revision)
    × IsNoneOr (expected_digest call) c.execution_checkpoint_digest

expects_revision :
    (expected : Option RevisionText) (revision : ℕ)
    → expects_other spells expected revision ≡ false
    → IsNoneOr expected (decimal revision)
expects_revision none revision h = inl refl
expects_revision (some (RevisionText.decimal n)) revision h =
    inr (ap (λ (k : ℕ). some (decimal k)) ((==_iff n revision).0 (ground arith)))
expects_revision (some RevisionText.other_text) revision h = cc

expects_digest :
    (expected : Option String) (digest : String)
    → expects_other str_eq expected digest ≡ false
    → IsNoneOr expected digest
expects_digest none digest h = inl refl
expects_digest (some text) digest h = inr (ap some ((eq_iff text digest).0 (ground arith)))

not_stale :
    {V R M : Type 0} (c : ExecutionCheckpoint V R M) (revision : Option RevisionText)
    (digest : Option String)
    → stale c revision digest ≡ false
    → IsNoneOr revision (decimal c.value.revision) × IsNoneOr digest c.execution_checkpoint_digest
unfolding stale
not_stale c revision digest h = (
  expects_revision revision c.value.revision (ground arith),
  expects_digest digest c.execution_checkpoint_digest (ground arith),
)

-- How many records of the effect a checkpoint holds, whatever their state.
abbrev pub records_of : {V R M : Type 0} → Unsigned V R M → String → ℕ
records_of v e =
    count (is_pending_of e) v.pending_outbox_intents
    + (count (is_terminal_of e) v.terminal_outbox_records
        + count (is_tombstone_of e) v.outbox_effect_tombstones)

-- A record or a tombstone gives the effect that outcome.
abbrev pub has_outcome : {V R M : Type 0} → Unsigned V R M → String → TerminalOutboxOutcome → Bool
has_outcome v e o =
    any (λ r. is_terminal_of e r && outcome_eq r.outcome o) v.terminal_outbox_records
    || any (λ r. is_tombstone_of e r && outcome_eq r.outcome o) v.outbox_effect_tombstones

module _ {V R M : Type 0} (env : Sealing V R M) where
  abbrev pub run : ExecutionCheckpoint V R M → OutboxCall → Artifact (ExecutionCheckpoint V R M)
  run c (updating e state revision digest) = update_pending env c e state revision digest
  run c (terminalizing e outcome revision digest) = terminalize env c e outcome revision digest
  run c (compacting e revision digest) = compact env c e revision digest

  updated-records :
      (c : ExecutionCheckpoint V R M) (e k : String) (state : PendingOutboxState)
      → records_of (updated c e state) k ≡ records_of c.value k
  updated-records c e k state =
      rw
        (count-set_state (λ i. str_eq i k) e state (suc c.value.revision)
          c.value.pending_outbox_intents)
        refl

  terminalized-records :
      (c : ExecutionCheckpoint V R M) (e k : String) (outcome : TerminalOutboxOutcome)
      (x : PendingRecord V) (others : List (PendingRecord V))
      → take_first (is_pending_of e) c.value.pending_outbox_intents ≡ some (x, others)
      → records_of (terminalized c outcome x others) k ≡ records_of c.value k
  terminalized-records c e k outcome x others t =
      let (passes, anys, counts) =
        taken (is_pending_of e) c.value.pending_outbox_intents x others t in
      rw (count-append (is_terminal_of k) c.value.terminal_outbox_records _)
        (ground (arith, counts (is_pending_of k)))

  compacted-records :
      (c : ExecutionCheckpoint V R M) (e k digest : String) (x : TerminalRecord V)
      (others : List (TerminalRecord V))
      → take_first (is_terminal_of e) c.value.terminal_outbox_records ≡ some (x, others)
      → records_of (compacted c e digest x others) k ≡ records_of c.value k
  compacted-records c e k digest x others t =
      let (passes, anys, counts) =
        taken (is_terminal_of e) c.value.terminal_outbox_records x others t in
      rw (count-sort_by_key EffectTombstone.terminal_sequence (is_tombstone_of k) _) (
        rw (count-append (is_tombstone_of k) c.value.outbox_effect_tombstones _)
          (ground (arith, counts (is_terminal_of k), eq_iff x.intent.effect_id e)))

  -- An outbox call keeps every effect: for each effect the checkpoint holds as many records after the
  -- call as before, so none is lost and none is doubled, whether it is pending, terminal or compacted.
  pub effects_are_kept :
      (c c' : ExecutionCheckpoint V R M) (call : OutboxCall) (k : String)
      → run c call ≡ ok c'
      → records_of c'.value k ≡ records_of c.value k
  effects_are_kept c c' (updating e state revision digest) k h =
      elim (update_pending_cases env c c' e state revision digest h) [
        | inl (a, x, f, b) ↦ rw a refl
        | inr (a, (g, w)) ↦ rw w (updated-records c e k state)
      ]
  effects_are_kept c c' (terminalizing e outcome revision digest) k h =
      elim (terminalize_cases env c c' e outcome revision digest h) [
        | inl (a, x, f, b) ↦ rw a refl
        | inr (f, x, others, t, (g, w)) ↦ rw w (terminalized-records c e k outcome x others t)
      ]
  effects_are_kept c c' (compacting e revision digest) k h =
      elim (compact_cases env c c' e revision digest h) [
        | inl (a, b) ↦ rw a refl
        | inr (d, x, others, t, digested, (g, w)) ↦ rw w (compacted-records c e k d x others t)
      ]

  -- A call that succeeds either changes nothing at all, or the revision grows by one, and then the caller
  -- named the stored revision or none, and the stored digest or none.
  pub stale_writes_nothing :
      (c c' : ExecutionCheckpoint V R M) (call : OutboxCall)
      → run c call ≡ ok c'
      → (c' ≡ c) ⊎ (ExpectsStored c call × (c'.value.revision ≡ suc c.value.revision))
  stale_writes_nothing c c' (updating e state revision digest) h =
      elim (update_pending_cases env c c' e state revision digest h) [
        | inl (a, x, f, b) ↦ inl a
        | inr (a, (g, w)) ↦ inr (not_stale c revision digest g, ap (λ v. v.revision) w)
      ]
  stale_writes_nothing c c' (terminalizing e outcome revision digest) h =
      elim (terminalize_cases env c c' e outcome revision digest h) [
        | inl (a, x, f, b) ↦ inl a
        | inr (f, x, others, t, (g, w)) ↦
            inr (not_stale c revision digest g, ap (λ v. v.revision) w)
      ]
  stale_writes_nothing c c' (compacting e revision digest) h =
      elim (compact_cases env c c' e revision digest h) [
        | inl (a, b) ↦ inl a
        | inr (d, x, others, t, digested, (g, w)) ↦
            inr (not_stale c revision digest g, ap (λ v. v.revision) w)
      ]

  terminalized-outcome :
      (c : ExecutionCheckpoint V R M) (k : String) (o outcome : TerminalOutboxOutcome)
      (x : PendingRecord V) (others : List (PendingRecord V))
      → has_outcome c.value k o ≡ true
      → has_outcome (terminalized c outcome x others) k o ≡ true
  terminalized-outcome c k o outcome x others h =
      rw
        (any-append (λ r. is_terminal_of k r && outcome_eq r.outcome o)
          c.value.terminal_outbox_records _)
        (ground arith)

  compacted-outcome :
      (c : ExecutionCheckpoint V R M) (e k digest : String) (o : TerminalOutboxOutcome)
      (x : TerminalRecord V) (others : List (TerminalRecord V))
      → take_first (is_terminal_of e) c.value.terminal_outbox_records ≡ some (x, others)
      → has_outcome c.value k o ≡ true
      → has_outcome (compacted c e digest x others) k o ≡ true
  compacted-outcome c e k digest o x others t h =
      let (passes, anys, counts) =
        taken (is_terminal_of e) c.value.terminal_outbox_records x others t in
      rw
        (any-sort_by_key EffectTombstone.terminal_sequence
          (λ r. is_tombstone_of k r && outcome_eq r.outcome o) _)
        (rw
          (any-append (λ r. is_tombstone_of k r && outcome_eq r.outcome o)
            c.value.outbox_effect_tombstones _)
          (ground (
            arith,
            anys (λ r. is_terminal_of k r && outcome_eq r.outcome o),
            eq_iff x.intent.effect_id e,
          )))

  -- An outcome is final: once an effect has it, every later outbox call that succeeds leaves it with
  -- that outcome, also when the call compacts the record.
  pub outcome_is_final :
      (c c' : ExecutionCheckpoint V R M) (call : OutboxCall) (k : String)
      (o : TerminalOutboxOutcome)
      → run c call ≡ ok c'
      → has_outcome c.value k o ≡ true
      → has_outcome c'.value k o ≡ true
  outcome_is_final c c' (updating e state revision digest) k o h has =
      elim (update_pending_cases env c c' e state revision digest h) [
        | inl (a, x, f, b) ↦ rw a has
        | inr (a, (g, w)) ↦ rw w has
      ]
  outcome_is_final c c' (terminalizing e outcome revision digest) k o h has =
      elim (terminalize_cases env c c' e outcome revision digest h) [
        | inl (a, x, f, b) ↦ rw a has
        | inr (f, x, others, t, (g, w)) ↦ rw w (terminalized-outcome c k o outcome x others has)
      ]
  outcome_is_final c c' (compacting e revision digest) k o h has =
      elim (compact_cases env c c' e revision digest h) [
        | inl (a, b) ↦ rw a has
        | inr (d, x, others, t, digested, (g, w)) ↦
            rw w (compacted-outcome c e k d o x others t has)
      ]
