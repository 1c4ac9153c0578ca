-- ===== src/Tests/Retaining.antt =====
-- The compact retention policy at concrete checkpoints.
use native.Mathlib.Decide.{ℕ_discrete}
use determa_state_rust.Prelude.{
  ℕ, String, Bool, true, false, none, some, List, [], ◌∷◌, ◌≡◌, ◌↔◌, refl, Bool-cases, inl, inr,
  str_eq, eq_iff,
}
use determa_state_rust.Store.Records.{ok}
use determa_state_rust.Checkpoint.Records.{
  decimal, confirmed, TerminalRecord, EffectTombstone, external_outbox, Receipt, Unsigned,
  outcome_eq,
}
use determa_state_rust.Checkpoint.Outbox.Effects.{has_outcome, compacting}
use determa_state_rust.Store.CompactPolicy.{
  JsonEquality, receipt_references_effect, compact_tombstone_matches,
  validate_compact_retention_transition,
}
use determa_state_rust.Store.CompactPolicy.Evidence.{accepted_keeps_outcomes}
use determa_state_rust.Store.CompactPolicy.Calls.{calls_pass}
use determa_state_rust.Tests.Outboxing.{env, after, compacted_x, compacting_runs}

abbrev decided : {A : Type 0} {a b : A} → Dec (a ≡ b) → Bool
decided (yes e) = true
decided (no n) = false

decided_iff : {A : Type 0} (a b : A) (d : Dec (a ≡ b)) → (decided d ≡ true) ↔ (a ≡ b)
decided_iff a b (yes e) = (λ h. e, λ h. refl)
decided_iff a b (no n) = (λ h. cc, λ h. absurd (n h))

text_discrete : Discrete String
text_discrete a b = elim (Bool-cases (str_eq a b)) [
  | inl e ↦ yes ((eq_iff a b).0 e)
  | inr e ↦ no (λ h. cc (e, (eq_iff a b).1 h))
]

abbrev equality_of : {A : Type 0} → Discrete A → JsonEquality A
equality_of d = record {
  equal = λ a b. decided (d a b);
  equal_iff = λ a b. decided_iff a b (d a b);
}

abbrev terminals : JsonEquality (TerminalRecord ℕ)
terminals = equality_of (hlevel (ℕ_discrete, text_discrete))

abbrev tombstones : JsonEquality EffectTombstone
tombstones = equality_of (hlevel (ℕ_discrete, text_discrete))

calls_pass_example :
    validate_compact_retention_transition env.hashing terminals tombstones after.value
      compacted_x.value
    ≡ ok tt
calls_pass_example =
    calls_pass env terminals tombstones after compacted_x (compacting "x" (some (decimal 1)) none)
      compacting_runs

abbrev receipts : List (Receipt ℕ)
receipts =
    record { receipt_sequence = 1; emission_references = external_outbox 0 "x" ∷ []; receipt = 0 }
    ∷ []

abbrev referenced : Unsigned ℕ ℕ ℕ
referenced = record after.value { operation_receipts = receipts }

abbrev replacement : Unsigned ℕ ℕ ℕ
replacement = record compacted_x.value { operation_receipts = receipts }

replacement_passes :
    validate_compact_retention_transition env.hashing terminals tombstones referenced replacement
    ≡ ok tt
unfolding validate_compact_retention_transition receipt_references_effect compact_tombstone_matches
    outcome_eq
replacement_passes = refl

x_is_named : receipt_references_effect replacement "x" ≡ true
unfolding receipt_references_effect
x_is_named = refl

x_was_confirmed : has_outcome referenced "x" confirmed ≡ true
unfolding outcome_eq
x_was_confirmed = refl

accepted_keeps_outcomes_example : has_outcome replacement "x" confirmed ≡ true
accepted_keeps_outcomes_example =
    accepted_keeps_outcomes env.hashing terminals tombstones referenced replacement "x" confirmed
      replacement_passes x_is_named x_was_confirmed
