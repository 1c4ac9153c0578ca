-- ===== src/Mailbox/Integrity.antt =====
-- `validate_mailbox_integrity` of format1/v1.rs: the check of the mailboxes of a document that is restored.
pub mod Checked
pub mod Complete
pub mod Counted
pub mod Fit
pub mod Order
pub mod Pushed
pub mod Sorted
pub mod Sound
use determa_state_rust.Prelude.{
  ℕ, String, Bool, true, false, not, Option, none, some, List, [], ◌∷◌, any, str_eq, leb, ◌==◌,
  ◌||◌, ◌&&◌,
}
use determa_state_rust.Mailbox.Records.{
  Result, ok, ◌>>=◌, ◌>>◌, require, Entry, RuntimeRecord, Document, Engine,
}
use determa_state_rust.Mailbox.Documents.{id_le}

-- The sets that the loops fill.
pub record Seen : Type 0 where
  pub event_ids : List String
  pub acceptances : List ℕ
  pub queues : List ℕ

abbrev pub nothing_seen : Seen
nothing_seen = record { event_ids = []; acceptances = []; queues = [] }

-- `previous.as_ref().is_some_and(|prior| prior >= &queue)`
abbrev pub not_after : Option ℕ → ℕ → Bool
not_after none queue = false
not_after (some prior) queue = leb queue prior

-- `previous.as_bytes() >= runtime_id.as_bytes()`
abbrev pub id_not_after : Option String → String → Bool
id_not_after none runtime_id = false
id_not_after (some previous) runtime_id = id_le runtime_id previous

module _ {V : Type 0} where
  abbrev pub seen_before : Seen → Entry V → Bool
  seen_before seen entry =
      any (str_eq entry.envelope.event_id) seen.event_ids
      || any (λ (n : ℕ). entry.acceptance_sequence == n) seen.acceptances
      || any (λ (n : ℕ). entry.queue_sequence == n) seen.queues

  abbrev pub with_entry : Seen → Entry V → Seen
  with_entry seen entry = record {
    event_ids = entry.envelope.event_id ∷ seen.event_ids;
    acceptances = entry.acceptance_sequence ∷ seen.acceptances;
    queues = entry.queue_sequence ∷ seen.queues;
  }

module _ {V P M F : Type 0} (engine : Engine V P M F) (value : Document V M) where
  abbrev pub out_of_order : Option ℕ → Entry V → Bool
  out_of_order previous entry =
      not_after previous entry.queue_sequence
      || leb value.next_acceptance_sequence entry.acceptance_sequence
      || leb value.next_queue_sequence entry.queue_sequence

  unfoldable pub check_entry : Option ℕ → Seen → Entry V → Result (Unit {0})
  check_entry previous seen entry = do
    require (not (out_of_order previous entry)) "invalid_aggregate_state"
        "mailbox counter ordering is invalid"
    require (not (seen_before seen entry)) "invalid_aggregate_state"
        "mailbox identities are not unique"
    expected ← engine.envelope_digest value.root_instance_id entry.delivery_mode entry.envelope
    require (str_eq entry.envelope_digest expected) "invalid_aggregate_state"
        "mailbox envelope digest does not match content"

  -- One mailbox.
  unfoldable pub check_entries : Option ℕ → Seen → List (Entry V) → Result Seen
  unfolding check_entry
  check_entries previous seen [] = ok seen
  check_entries previous seen (entry ∷ entries) = do
    check_entry previous seen entry
    check_entries (some entry.queue_sequence) (with_entry seen entry) entries

  unfoldable pub check_runtimes : Option String → Seen → List (RuntimeRecord V M) → Result Seen
  unfolding check_entries
  check_runtimes previous seen [] = ok seen
  check_runtimes previous seen (r ∷ rs) = do
    require (not (id_not_after previous r.runtime_id)) "invalid_aggregate_state"
        "runtime records are not in canonical order"
    ready ← check_entries none seen r.ready_mailbox
    deferred ← check_entries none ready r.deferred_mailbox
    check_runtimes (some r.runtime_id) deferred rs

  unfoldable pub validate_mailbox_integrity : Result (Unit {0})
  unfolding check_runtimes
  validate_mailbox_integrity = do seen ← check_runtimes none nothing_seen value.runtimes; ok tt
