-- ===== src/Checkpoint/Outbox/Cases.antt =====
-- What an outbox operation of checkpoint/v1.rs did, if it succeeded.
use determa_state_rust.Prelude.{
  String, true, false, Option, none, some, List, ◌≡◌, ◌⊎◌, inl, inr, refl, any, find, arith,
}
use determa_state_rust.Checkpoint.Records.{
  PendingOutboxState, TerminalOutboxOutcome, state_eq, outcome_eq, PendingRecord, TerminalRecord,
  EffectTombstone, Unsigned, ExecutionCheckpoint, ok, ◌>>=◌, bind-ok, if-ok,
}
use determa_state_rust.Checkpoint.Seal.{
  Sealing, seal_and_validate_checkpoint, guard, stale, with_sorted_receipts, sealed-value,
}
use determa_state_rust.Checkpoint.Outbox.{
  outbox_intent_digest, RevisionText, take_first, is_pending_of, is_terminal_of, is_tombstone_of,
  updated, terminalized, compacted, update_existing, update_pending, replayed, terminalize_taken,
  terminalize_fresh, terminalize_unless, terminalize, compact_taken, compact,
}

module _ {V R M : Type 0} where
  -- The call wrote `v` under a guard that held.
  abbrev pub Writes :
      ExecutionCheckpoint V R M
      → Option RevisionText
      → Option String
      → Unsigned V R M
      → ExecutionCheckpoint V R M
      → Type 0
  Writes c revision digest v c' =
      (stale c revision digest ≡ false) × (c'.value ≡ with_sorted_receipts v)

  abbrev pub Updates :
      ExecutionCheckpoint V R M
      → String
      → PendingOutboxState
      → Option RevisionText
      → Option String
      → ExecutionCheckpoint V R M
      → Type 0
  Updates c e state revision digest c' =
      ((c' ≡ c)
        × (x : PendingRecord V) × (find (is_pending_of e) c.value.pending_outbox_intents ≡ some x)
        × (state_eq x.delivery_state state ≡ true))
      ⊎ (((x : PendingRecord V) × (find (is_pending_of e) c.value.pending_outbox_intents ≡ some x))
          × Writes c revision digest (updated c e state) c')

  -- The effect is terminal already, with a stored outcome.
  abbrev pub IsStored : ExecutionCheckpoint V R M → String → TerminalOutboxOutcome → Type 0
  IsStored c e stored =
      ((x : TerminalRecord V) × (find (is_terminal_of e) c.value.terminal_outbox_records ≡ some x)
        × (x.outcome ≡ stored))
      ⊎ ((find (is_terminal_of e) c.value.terminal_outbox_records ≡ none)
          × (x : EffectTombstone) × (find (is_tombstone_of e) c.value.outbox_effect_tombstones
              ≡ some x)
          × (x.outcome ≡ stored))

  abbrev pub Terminalizes :
      ExecutionCheckpoint V R M
      → String
      → TerminalOutboxOutcome
      → Option RevisionText
      → Option String
      → ExecutionCheckpoint V R M
      → Type 0
  Terminalizes c e outcome revision digest c' =
      ((c' ≡ c)
        × (stored : TerminalOutboxOutcome) × IsStored c e stored
        × (outcome_eq stored outcome ≡ true))
      ⊎ ((find (is_terminal_of e) c.value.terminal_outbox_records ≡ none)
          × (x : PendingRecord V) × (others : List (PendingRecord V)) × (take_first
                (is_pending_of e) c.value.pending_outbox_intents
              ≡ some (x, others))
          × Writes c revision digest (terminalized c outcome x others) c')

module _ {V R M : Type 0} (env : Sealing V R M) where
  guard_passed :
      (c : ExecutionCheckpoint V R M) (revision : Option RevisionText) (digest : Option String)
      (u : Unit)
      → guard c revision digest ≡ ok u
      → stale c revision digest ≡ false
  unfolding guard
  guard_passed c revision digest u h = ground arith

  guarded_seal :
      (c c' : ExecutionCheckpoint V R M) (revision : Option RevisionText) (digest : Option String)
      (v : Unsigned V R M)
      → (guard c revision digest >>= λ _. seal_and_validate_checkpoint env v) ≡ ok c'
      → Writes c revision digest v c'
  guarded_seal c c' revision digest v h =
      let (u, g, k) = bind-ok (guard c revision digest) _ c' h in
      (guard_passed c revision digest u g, sealed-value env v c' k)

  update_existing_cases :
      (c c' : ExecutionCheckpoint V R M) (e : String) (state : PendingOutboxState)
      (revision : Option RevisionText) (digest : Option String) (o : Option (PendingRecord V))
      → find (is_pending_of e) c.value.pending_outbox_intents ≡ o
      → update_existing env c e state revision digest o ≡ ok c'
      → Updates c e state revision digest c'
  unfolding update_existing
  update_existing_cases c c' e state revision digest none f h = cc
  update_existing_cases c c' e state revision digest (some x) f h =
      elim (if-ok (state_eq x.delivery_state state) _ _ c' h) [
        | inl (a, k) ↦ inl (cc, x, f, a)
        | inr (a, k) ↦ inr ((x, f), guarded_seal c c' revision digest (updated c e state) k)
      ]

  pub update_pending_cases :
      (c c' : ExecutionCheckpoint V R M) (e : String) (state : PendingOutboxState)
      (revision : Option RevisionText) (digest : Option String)
      → update_pending env c e state revision digest ≡ ok c'
      → Updates c e state revision digest c'
  unfolding update_pending
  update_pending_cases c c' e state revision digest h =
      update_existing_cases c c' e state revision digest _ refl h

  replayed_cases :
      (c c' : ExecutionCheckpoint V R M) (stored outcome : TerminalOutboxOutcome)
      → replayed env c stored outcome ≡ ok c'
      → (c' ≡ c) × (outcome_eq stored outcome ≡ true)
  replayed_cases c c' stored outcome h = elim (if-ok (outcome_eq stored outcome) _ _ c' h) [
    | inl (a, k) ↦ (cc, a)
    | inr (a, k) ↦ cc
  ]

  terminalize_taken_cases :
      (c c' : ExecutionCheckpoint V R M) (e : String) (outcome : TerminalOutboxOutcome)
      (revision : Option RevisionText) (digest : Option String)
      (o : Option (PendingRecord V × List (PendingRecord V)))
      → find (is_terminal_of e) c.value.terminal_outbox_records ≡ none
      → take_first (is_pending_of e) c.value.pending_outbox_intents ≡ o
      → (guard c revision digest >>= λ _. terminalize_taken env c outcome o) ≡ ok c'
      → Terminalizes c e outcome revision digest c'
  unfolding terminalize_taken
  terminalize_taken_cases c c' e outcome revision digest none f t h =
      let (u, g, k) = bind-ok (guard c revision digest) _ c' h in cc
  terminalize_taken_cases c c' e outcome revision digest (some (x, others)) f t h =
      inr (f, x, others, t, guarded_seal c c' revision digest (terminalized c outcome x others) h)

  terminalize_fresh_cases :
      (c c' : ExecutionCheckpoint V R M) (e : String) (outcome : TerminalOutboxOutcome)
      (revision : Option RevisionText) (digest : Option String) (o : Option EffectTombstone)
      → find (is_terminal_of e) c.value.terminal_outbox_records ≡ none
      → find (is_tombstone_of e) c.value.outbox_effect_tombstones ≡ o
      → terminalize_fresh env c e outcome revision digest o ≡ ok c'
      → Terminalizes c e outcome revision digest c'
  unfolding terminalize_fresh
  terminalize_fresh_cases c c' e outcome revision digest (some x) f t h =
      let (a, b) = replayed_cases c c' x.outcome outcome h in
      inl (a, x.outcome, inr (f, x, t, refl), b)
  terminalize_fresh_cases c c' e outcome revision digest none f t h =
      terminalize_taken_cases c c' e outcome revision digest _ f refl h

  terminalize_unless_cases :
      (c c' : ExecutionCheckpoint V R M) (e : String) (outcome : TerminalOutboxOutcome)
      (revision : Option RevisionText) (digest : Option String) (o : Option (TerminalRecord V))
      → find (is_terminal_of e) c.value.terminal_outbox_records ≡ o
      → terminalize_unless env c e outcome revision digest o ≡ ok c'
      → Terminalizes c e outcome revision digest c'
  unfolding terminalize_unless
  terminalize_unless_cases c c' e outcome revision digest (some x) f h =
      let (a, b) = replayed_cases c c' x.outcome outcome h in
      inl (a, x.outcome, inl (x, f, refl), b)
  terminalize_unless_cases c c' e outcome revision digest none f h =
      terminalize_fresh_cases c c' e outcome revision digest _ f refl h

  pub terminalize_cases :
      (c c' : ExecutionCheckpoint V R M) (e : String) (outcome : TerminalOutboxOutcome)
      (revision : Option RevisionText) (digest : Option String)
      → terminalize env c e outcome revision digest ≡ ok c'
      → Terminalizes c e outcome revision digest c'
  unfolding terminalize
  terminalize_cases c c' e outcome revision digest h =
      terminalize_unless_cases c c' e outcome revision digest _ refl h

  abbrev pub Compacts :
      ExecutionCheckpoint V R M
      → String
      → Option RevisionText
      → Option String
      → ExecutionCheckpoint V R M
      → Type 0
  Compacts c e revision digest c' =
      ((c' ≡ c) × (any (is_tombstone_of e) c.value.outbox_effect_tombstones ≡ true))
      ⊎ ((intent_digest : String) × (x : TerminalRecord V) × (others : List (TerminalRecord V))
          × (take_first (is_terminal_of e) c.value.terminal_outbox_records ≡ some (x, others))
          × (outbox_intent_digest env.hashing c.value.root_instance_id x.intent ≡ ok intent_digest)
          × Writes c revision digest (compacted c e intent_digest x others) c')

  compact_taken_cases :
      (c c' : ExecutionCheckpoint V R M) (e : String) (revision : Option RevisionText)
      (digest : Option String) (o : Option (TerminalRecord V × List (TerminalRecord V)))
      → take_first (is_terminal_of e) c.value.terminal_outbox_records ≡ o
      → (guard c revision digest >>= λ _. compact_taken env c e o) ≡ ok c'
      → Compacts c e revision digest c'
  unfolding compact_taken
  compact_taken_cases c c' e revision digest none t h =
      let (u, g, k) = bind-ok (guard c revision digest) _ c' h in cc
  compact_taken_cases c c' e revision digest (some (x, others)) t h =
      let (u, g, k) = bind-ok (guard c revision digest) _ c' h in
      let (d, i, l) =
        bind-ok (outbox_intent_digest env.hashing c.value.root_instance_id x.intent) _ c' k in
      inr (
        d,
        x,
        others,
        t,
        i,
        (guard_passed c revision digest u g, sealed-value env (compacted c e d x others) c' l),
      )

  pub compact_cases :
      (c c' : ExecutionCheckpoint V R M) (e : String) (revision : Option RevisionText)
      (digest : Option String)
      → compact env c e revision digest ≡ ok c'
      → Compacts c e revision digest c'
  unfolding compact
  compact_cases c c' e revision digest h =
      elim (if-ok (any (is_tombstone_of e) c.value.outbox_effect_tombstones) _ _ c' h) [
        | inl (a, k) ↦ inl (cc, a)
        | inr (a, k) ↦ compact_taken_cases c c' e revision digest _ refl k
      ]
