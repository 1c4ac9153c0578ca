-- ===== src/Mailbox/Admit/Once.antt =====
-- `admit_v1` of format1/v1.rs takes each event id once.
use determa_state_rust.Prelude.{refl, ◌≤◌, String, none, List, [], ◌≡◌, arith, any, if◌then◌else◌}
use determa_state_rust.State.Machine.{RuntimeStatus}
use determa_state_rust.Mailbox.Records.{ok, AdmissionDelivery, Document, NativeAggregate, Engine}
use determa_state_rust.Mailbox.Copies.{is_event, copies}
use determa_state_rust.Mailbox.Admit.{is_located, Accepted, accepted, mailbox_locations, admit_v1}
use determa_state_rust.Mailbox.Admit.Added.{requests, count-added, check_targets_all}
use determa_state_rust.Mailbox.Admit.Fresh.{
  any-eq_count, fresh_lem, any-mailbox_locations, count-le_one,
}
use determa_state_rust.Mailbox.Admit.Passed.{admitted-Passed, copies-Passed}

module _ {V P M F : Type 0} (engine : Engine V P M F) (event_id : String) where
  -- An accepted batch leaves each event id that it names in exactly one mailbox entry, and the number of
  -- entries of any other event id as it was, where the document held the event id at most once.
  pub admitted_once :
      (aggregate : NativeAggregate V M) (deliveries : List (AdmissionDelivery V))
      (status : RuntimeStatus) (sealed : Document V M) (answers : List Accepted)
      → admit_v1 engine aggregate deliveries ≡ ok (accepted status sealed answers)
      → copies (is_event event_id) aggregate.document ≤ 1
      → copies (is_event event_id) sealed ≡ (
          if any (requests event_id) deliveries
          then 1
          else copies (is_event event_id) aggregate.document)
  admitted_once aggregate deliveries status sealed answers h le =
      let document = aggregate.document in
      let locations = mailbox_locations document.runtimes [] in
      let (sorted, e, no_duplicate, passed) =
        admitted-Passed engine aggregate deliveries status sealed answers h in
      ground (
        arith,
        copies-Passed engine (is_event event_id) aggregate sorted.fresh status sealed answers
            passed,
        count-added event_id document.next_acceptance_sequence document.next_queue_sequence
            passed.checked.0,
        (check_targets_all engine event_id aggregate none sorted.fresh passed.checked passed.targets
            passed.no_failure).1,
        fresh_lem engine event_id document.root_instance_id locations deliveries sorted e,
        any-mailbox_locations (is_located event_id) (is_event event_id) document.runtimes []
            (λ place e. refl),
        count-le_one event_id [] deliveries no_duplicate,
        any-eq_count (requests event_id) deliveries,
      )
