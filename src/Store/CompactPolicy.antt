-- ===== src/Store/CompactPolicy.antt =====
-- `validate_compact_retention_transition` of checkpoint/store.rs: what a store with compact outbox
-- retention demands of a replacement.
pub mod Evidence
pub mod Calls
use determa_state_rust.Prelude.{
  ℕ, String, Bool, true, false, not, Option, none, some, List, [], ◌∷◌, ◌≡◌, ◌↔◌, ◌&&◌, ◌||◌, ◌==◌,
  str_eq, any, find, if◌then◌else◌,
}
use determa_state_rust.Store.Records.{Stored, ok, err, store_failure}
use determa_state_rust.Checkpoint.Records.{
  Hashing, OutboxIntent, outcome_eq, TerminalRecord, EffectTombstone, EmissionReference,
  internal_mailbox, internal_terminal, external_outbox, Receipt, Unsigned, Artifact,
}
use determa_state_rust.Checkpoint.Outbox.{is_tombstone_of}

-- `==` of `serde_json::Value`, on the values that the records are: it decides their equality.
pub record JsonEquality (A : Type 0) : Type 0 where
  pub equal : A → A → Bool
  pub equal_iff : (a b : A) → (equal a b ≡ true) ↔ (a ≡ b)

abbrev pub refers_to : String → EmissionReference → Bool
refers_to e (internal_mailbox index event_id acceptance queue) = false
refers_to e (internal_terminal index event_id acceptance receipt) = false
refers_to e (external_outbox index effect_id) = str_eq effect_id e

-- The digest of an array that the canonicalizer wrote; its message is left out.
abbrev pub hashed_intent : {V : Type 0} → Hashing V → Option (List ℕ) → Stored String
hashed_intent hashing none = err (store_failure "canonicalization failed")
hashed_intent hashing (some bytes) = ok (hashing.sha256_text bytes)

-- `outbox_intent_digest` of checkpoint/store.rs, which has a namesake in checkpoint/v1.rs.
unfoldable pub outbox_intent_digest :
    {V : Type 0} → Hashing V → String → OutboxIntent V → Stored String
outbox_intent_digest hashing root_instance_id intent = hashed_intent hashing (
    hashing.to_vec (record {
      tag = "determa-outbox-intent-digest-1";
      version = "1";
      root_instance_id = root_instance_id;
      intent = intent;
    }))

-- The comparison, with `unwrap_or(false)` of its caller
abbrev pub digest_is : Stored String → String → Bool
digest_is (ok d) stored = str_eq d stored
digest_is (err x) stored = false

module _ {V R M : Type 0} where
  unfoldable pub receipt_references_effect : Unsigned V R M → String → Bool
  receipt_references_effect v e =
      any (λ r. any (refers_to e) r.emission_references) v.operation_receipts

abbrev pub and_then : Stored Unit → Stored Unit → Stored Unit
and_then (ok u) next = next
and_then (err e) next = err e

module _ {V R M : Type 0} (tombstones : JsonEquality EffectTombstone) where
  -- The loop over the tombstones that were stored.
  pub keep_tombstones : Unsigned V R M → List EffectTombstone → Stored Unit
  keep_tombstones after [] = ok tt
  keep_tombstones after (t ∷ ts) =
      if receipt_references_effect after t.effect_id
        && not (any (tombstones.equal t) after.outbox_effect_tombstones)
      then err (store_failure "compact outbox retention forbids referenced tombstone removal")
      else keep_tombstones after ts

module _ {V R M : Type 0} (hashing : Hashing V) where
  unfoldable pub compact_tombstone_matches :
      Unsigned V R M → TerminalRecord V → EffectTombstone → Bool
  unfolding outbox_intent_digest
  compact_tombstone_matches v terminal tombstone =
      (terminal.terminal_sequence == tombstone.terminal_sequence)
      && str_eq terminal.intent.effect_id tombstone.effect_id
      && (terminal.committed_revision == tombstone.committed_revision)
      && outcome_eq terminal.outcome tombstone.outcome
      && digest_is (outbox_intent_digest hashing v.root_instance_id terminal.intent)
          tombstone.intent_digest

  abbrev pub is_matched : Unsigned V R M → TerminalRecord V → Option EffectTombstone → Bool
  is_matched v terminal none = false
  is_matched v terminal (some tombstone) = compact_tombstone_matches v terminal tombstone

module _ {V R M : Type 0} (hashing : Hashing V) (terminals : JsonEquality (TerminalRecord V)) where
  -- The loop over the terminal records that were stored.
  pub keep_terminals : Unsigned V R M → Unsigned V R M → List (TerminalRecord V) → Stored Unit
  keep_terminals before after [] = ok tt
  keep_terminals before after (t ∷ ts) =
      let rest = keep_terminals before after ts in
      if not (receipt_references_effect after t.intent.effect_id)
        || any (terminals.equal t) after.terminal_outbox_records
      then rest
      else if is_matched hashing before t
          (find (is_tombstone_of t.intent.effect_id) after.outbox_effect_tombstones)
      then rest
      else err (
          store_failure
            "compact outbox retention requires full intent or matching tombstone evidence")

module _ {V R M : Type 0} (hashing : Hashing V) (terminals : JsonEquality (TerminalRecord V))
    (tombstones : JsonEquality EffectTombstone) where
  unfoldable pub validate_compact_retention_transition :
      Unsigned V R M → Unsigned V R M → Stored Unit
  unfolding keep_tombstones keep_terminals
  validate_compact_retention_transition before after =
      and_then (keep_tombstones tombstones after before.outbox_effect_tombstones)
        (keep_terminals hashing terminals before after before.terminal_outbox_records)
