-- ===== src/Checkpoint/Outbox/Replay.antt =====
-- The outbox operations of checkpoint/v1.rs are safe to repeat.
use determa_state_rust.Prelude.{
  suc, String, true, Option, none, some, List, ◌≡◌, ◌≢◌, inl, inr, refl, eq_iff, any, find,
  Bool-cases, arith, sym, ap, ◌∙◌,
}
use determa_state_rust.Checkpoint.Records.{
  PendingOutboxState, TerminalOutboxOutcome, state_eq, outcome_eq, state_eq_refl, outcome_eq_refl,
  eq-of-outcome_eq, PendingRecord, TerminalRecord, EffectTombstone, ExecutionCheckpoint, ok,
  failure,
}
use determa_state_rust.Checkpoint.ByKey.{any-sort_by_key, any-append}
use determa_state_rust.Checkpoint.Seal.{Sealing, with_sorted_receipts}
use determa_state_rust.Checkpoint.Outbox.{
  RevisionText, take_first, is_pending_of, is_terminal_of, is_tombstone_of, terminalized, compacted,
  update_existing, update_pending, replayed, terminalize_unless, terminalize_fresh, terminalize,
  compact,
}
use determa_state_rust.Checkpoint.Outbox.Cases.{
  IsStored, update_pending_cases, terminalize_cases, compact_cases,
}
use determa_state_rust.Checkpoint.Outbox.Taken.{taken, find-set_state, find-append}
use determa_state_rust.Checkpoint.Outbox.Effects.{
  OutboxCall, updating, terminalizing, compacting, run,
}

-- The call with another guard.
abbrev pub guarded_by : Option RevisionText → Option String → OutboxCall → OutboxCall
guarded_by revision digest (updating e state r d) = updating e state revision digest
guarded_by revision digest (terminalizing e outcome r d) = terminalizing e outcome revision digest
guarded_by revision digest (compacting e r d) = compacting e revision digest

module _ {V R M : Type 0} (env : Sealing V R M) where
  update_again :
      (c : ExecutionCheckpoint V R M) (e : String) (state : PendingOutboxState)
      (revision : Option RevisionText) (digest : Option String) (x : PendingRecord V)
      → find (is_pending_of e) c.value.pending_outbox_intents ≡ some x
      → state_eq x.delivery_state state ≡ true
      → update_pending env c e state revision digest ≡ ok c
  unfolding update_pending update_existing
  update_again c e state revision digest x f s = rw f (rw s refl)

  terminalize_again :
      (c : ExecutionCheckpoint V R M) (e : String) (stored outcome : TerminalOutboxOutcome)
      (revision : Option RevisionText) (digest : Option String)
      → IsStored c e stored
      → terminalize env c e outcome revision digest ≡ replayed env c stored outcome
  unfolding terminalize terminalize_unless terminalize_fresh
  terminalize_again c e stored outcome revision digest (inl (x, f, s)) = rw f (rw s refl)
  terminalize_again c e stored outcome revision digest (inr (n, x, f, s)) = rw n (rw f (rw s refl))

  pub compact_again :
      (c : ExecutionCheckpoint V R M) (e : String) (revision : Option RevisionText)
      (digest : Option String)
      → any (is_tombstone_of e) c.value.outbox_effect_tombstones ≡ true
      → compact env c e revision digest ≡ ok c
  unfolding compact
  compact_again c e revision digest a = rw a refl

  terminalized-IsStored :
      (c c' : ExecutionCheckpoint V R M) (e : String) (outcome : TerminalOutboxOutcome)
      (x : PendingRecord V) (others : List (PendingRecord V))
      → find (is_terminal_of e) c.value.terminal_outbox_records ≡ none
      → take_first (is_pending_of e) c.value.pending_outbox_intents ≡ some (x, others)
      → c'.value ≡ with_sorted_receipts (terminalized c outcome x others)
      → IsStored c' e outcome
  terminalized-IsStored c c' e outcome x others f t w =
      let (passes, anys, counts) =
        taken (is_pending_of e) c.value.pending_outbox_intents x others t in
      inl (
        _,
        ap (λ v. find (is_terminal_of e) v.terminal_outbox_records) w
            ∙ find-append (is_terminal_of e) c.value.terminal_outbox_records _ f passes,
        refl,
      )

  compacted-any :
      (c c' : ExecutionCheckpoint V R M) (e digest : String) (x : TerminalRecord V)
      (others : List (TerminalRecord V))
      → c'.value ≡ with_sorted_receipts (compacted c e digest x others)
      → any (is_tombstone_of e) c'.value.outbox_effect_tombstones ≡ true
  compacted-any c c' e digest x others w = rw w (
      rw (any-sort_by_key EffectTombstone.terminal_sequence (is_tombstone_of e) _) (
        rw (any-append (is_tombstone_of e) c.value.outbox_effect_tombstones _)
          (ground (arith, eq_iff e e))))

  update_replays :
      (c c' : ExecutionCheckpoint V R M) (e : String) (state : PendingOutboxState)
      (r revision : Option RevisionText) (d digest : Option String)
      → update_pending env c e state r d ≡ ok c'
      → update_pending env c' e state revision digest ≡ ok c'
  update_replays c c' e state r revision d digest h =
      elim (update_pending_cases env c c' e state r d h) [
        | inl (a, x, f, s) ↦ rw a (update_again c e state revision digest x f s)
        | inr ((x, f), (g, w)) ↦
            let (y, k, s) =
              find-set_state e state (suc c.value.revision) c.value.pending_outbox_intents x f in
            update_again c' e state revision digest y
              (ap (λ v. find (is_pending_of e) v.pending_outbox_intents) w ∙ k)
              (rw s (state_eq_refl state))
      ]

  terminalize_replays :
      (c c' : ExecutionCheckpoint V R M) (e : String) (outcome : TerminalOutboxOutcome)
      (r revision : Option RevisionText) (d digest : Option String)
      → terminalize env c e outcome r d ≡ ok c'
      → terminalize env c' e outcome revision digest ≡ ok c'
  terminalize_replays c c' e outcome r revision d digest h =
      elim (terminalize_cases env c c' e outcome r d h) [
        | inl (a, stored, s, b) ↦
            rw a (terminalize_again c e stored outcome revision digest s ∙ rw b refl)
        | inr (f, x, others, t, (g, w)) ↦
            terminalize_again c' e outcome outcome revision digest
              (terminalized-IsStored c c' e outcome x others f t w)
            ∙ rw (outcome_eq_refl outcome) refl
      ]

  compact_replays :
      (c c' : ExecutionCheckpoint V R M) (e : String) (r revision : Option RevisionText)
      (d digest : Option String)
      → compact env c e r d ≡ ok c'
      → compact env c' e revision digest ≡ ok c'
  compact_replays c c' e r revision d digest h = elim (compact_cases env c c' e r d h) [
    | inl (a, b) ↦ rw a (compact_again c e revision digest b)
    | inr (i, x, others, t, digested, (g, w)) ↦
        compact_again c' e revision digest (compacted-any c c' e i x others w)
  ]

  -- A call that succeeded succeeds again at once, whatever revision and digest its caller then expects,
  -- and changes nothing: a worker whose answer was lost may repeat its call as it was.
  pub call_replays :
      (c c' : ExecutionCheckpoint V R M) (call : OutboxCall) (revision : Option RevisionText)
      (digest : Option String)
      → run env c call ≡ ok c'
      → run env c' (guarded_by revision digest call) ≡ ok c'
  call_replays c c' (updating e state r d) revision digest h =
      update_replays c c' e state r revision d digest h
  call_replays c c' (terminalizing e outcome r d) revision digest h =
      terminalize_replays c c' e outcome r revision d digest h
  call_replays c c' (compacting e r d) revision digest h =
      compact_replays c c' e r revision d digest h

  replayed_conflict :
      (c : ExecutionCheckpoint V R M) (stored outcome : TerminalOutboxOutcome)
      → stored ≢ outcome
      → replayed env c stored outcome ≡ failure "effect_id_conflict"
  replayed_conflict c stored outcome n = elim (Bool-cases (outcome_eq stored outcome)) [
    | inl a ↦ absurd (n (eq-of-outcome_eq stored outcome a))
    | inr a ↦ rw a refl
  ]

  -- The first outcome wins: after a call that terminalized an effect succeeded, a call that would give
  -- the effect another outcome is refused as a conflict, whatever revision and digest it expects.
  pub first_outcome_wins :
      (c c' : ExecutionCheckpoint V R M) (e : String) (outcome other : TerminalOutboxOutcome)
      (r revision : Option RevisionText) (d digest : Option String)
      → run env c (terminalizing e outcome r d) ≡ ok c'
      → outcome ≢ other
      → run env c' (terminalizing e other revision digest) ≡ failure "effect_id_conflict"
  first_outcome_wins c c' e outcome other r revision d digest h differ =
      elim (terminalize_cases env c c' e outcome r d h) [
        | inl (a, stored, s, b) ↦
            rw a (terminalize_again c e stored other revision digest s)
            ∙ replayed_conflict c' stored other
                (λ k. differ (sym (eq-of-outcome_eq stored outcome b) ∙ k))
        | inr (f, x, others, t, (g, w)) ↦
            terminalize_again c' e outcome other revision digest
              (terminalized-IsStored c c' e outcome x others f t w)
            ∙ replayed_conflict c' outcome other differ
      ]
