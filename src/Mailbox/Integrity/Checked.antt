-- ===== src/Mailbox/Integrity/Checked.antt =====
-- The tests of one entry in `validate_mailbox_integrity` of format1/v1.rs, when the entry passes.
use determa_state_rust.Prelude.{
  ℕ, String, Bool, true, false, not, Option, none, some, List, [], ◌∷◌, ◌≡◌, str_eq, leb, ◌==◌,
  arith, ◌||◌, ◌&&◌, Bool-cases, inl, inr,
}
use determa_state_rust.Mailbox.Records.{
  ok, err, Result-cases, Entry, RuntimeRecord, Document, Engine,
}
use determa_state_rust.Mailbox.Integrity.{Seen, not_after, seen_before, out_of_order, check_entry}

abbrev pub is_acceptance : {V : Type 0} → ℕ → Entry V → Bool
is_acceptance n entry = entry.acceptance_sequence == n

abbrev pub is_queue : {V : Type 0} → ℕ → Entry V → Bool
is_queue n entry = entry.queue_sequence == n

abbrev pub digest_matches : {V P M F : Type 0} → Engine V P M F → String → Entry V → Bool
digest_matches engine root_instance_id entry =
    elim (engine.envelope_digest root_instance_id entry.delivery_mode entry.envelope) [
      | ok expected ↦ str_eq entry.envelope_digest expected
      | err e ↦ false
    ]

-- An entry whose numbers were not allocated, or whose digest is not that of its envelope.
abbrev pub unfit : {V P M F : Type 0} → Engine V P M F → Document V M → Entry V → Bool
unfit engine value entry =
    leb value.next_acceptance_sequence entry.acceptance_sequence
    || leb value.next_queue_sequence entry.queue_sequence
    || not (digest_matches engine value.root_instance_id entry)

-- The queue sequences rise.
unfoldable pub rising : {V : Type 0} → Option ℕ → List (Entry V) → Bool
rising previous [] = true
rising previous (e ∷ es) =
    not (not_after previous e.queue_sequence) && rising (some e.queue_sequence) es

unfoldable pub all_rising : {V M : Type 0} → List (RuntimeRecord V M) → Bool
unfolding rising
all_rising [] = true
all_rising (r ∷ rs) = rising none r.ready_mailbox && rising none r.deferred_mailbox && all_rising rs

module _ {V P M F : Type 0} (engine : Engine V P M F) (value : Document V M) where
  pub check_entry_lem :
      (previous : Option ℕ) (seen : Seen) (e : Entry V)
      → check_entry engine value previous seen e ≡ ok tt
      → (not_after previous e.queue_sequence ≡ false)
        × (seen_before seen e ≡ false)
        × (unfit engine value e ≡ false)
  unfolding check_entry
  check_entry_lem previous seen e h = elim (Bool-cases (out_of_order engine value previous e)) [
    | inl n ↦ absurd (cc)
    | inr n ↦ elim (Bool-cases (seen_before seen e)) [
      | inl n₁ ↦ absurd (cc)
      | inr n₁ ↦
          elim (Result-cases
            (engine.envelope_digest value.root_instance_id e.delivery_mode e.envelope)) [
              | inr (x, n₂) ↦ absurd (cc)
              | inl (expected, n₂) ↦ elim (Bool-cases (str_eq e.envelope_digest expected)) [
                | inr n₃ ↦ absurd (cc)
                | inl n₃ ↦
                    let matches : digest_matches engine value.root_instance_id e ≡ true =
                      rw (n₂, digest_matches) n₃ in
                    (ground (arith), n₁, ground (arith, matches))
              ]
            ]
    ]
  ]
