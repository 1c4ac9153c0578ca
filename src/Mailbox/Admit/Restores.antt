-- ===== src/Mailbox/Admit/Restores.antt =====
-- What `admit_v1` of format1/v1.rs seals, `validate_mailbox_integrity` of a restore accepts.
use determa_state_rust.Prelude.{
  ℕ, ◌≤◌, String, Bool, true, none, List, [], ◌≡◌, ap, ◌∙◌, leb, length, arith,
}
use determa_state_rust.Checkpoint.ByKey.{count}
use determa_state_rust.State.Machine.{RuntimeStatus}
use determa_state_rust.Mailbox.Records.{
  ok, AdmissionDelivery, Entry, Document, NativeAggregate, Engine,
}
use determa_state_rust.Mailbox.Copies.{held-le, copies, seal_aggregate_lem}
use determa_state_rust.Mailbox.Admit.{Accepted, accepted, admit_v1, mailbox_locations}
use determa_state_rust.Mailbox.Admit.Digests.{
  fresh_right, targets_right, all_labelled, is_mislabelled, fit-added,
}
use determa_state_rust.Mailbox.Admit.Once.{admitted_once}
use determa_state_rust.Mailbox.Admit.Ordered.{
  IsOrdered, Numbered, append_deliveries_lem, acceptance-added, queue-added,
}
use determa_state_rust.Mailbox.Admit.Passed.{Passed, admitted-Passed, copies-Passed}
use determa_state_rust.Mailbox.Integrity.{validate_mailbox_integrity}
use determa_state_rust.Mailbox.Integrity.Checked.{digest_matches, is_acceptance, is_queue, unfit}
use determa_state_rust.Mailbox.Integrity.Complete.{validate_iff}
use determa_state_rust.Mailbox.Integrity.Pushed.{is_late}
use determa_state_rust.Mailbox.Integrity.Sorted.{sort_ascending}
use determa_state_rust.Mailbox.Integrity.Sound.{IsIntact}

module _ {V P M F : Type 0} (engine : Engine V P M F) where
  -- A test that only unfit entries pass counts nothing.
  none_of_fit :
      (value : Document V M) (p : Entry V → Bool)
      → IsIntact engine value
      → ((e : Entry V) → p e ≡ true → unfit engine value e ≡ true)
      → copies p value ≡ 0
  none_of_fit value p intact weaker =
      omega (arith, held-le p (unfit engine value) weaker value.runtimes, intact.all_fit)

  intact-IsOrdered : (value : Document V M) → IsIntact engine value → IsOrdered value
  intact-IsOrdered value intact = record {
    ids_ascend = intact.runtimes_ascend;
    queues_rise = intact.queues_rise;
    none_late =
        none_of_fit value (is_late value.next_queue_sequence) intact (λ e k. ground (arith));
  }

  -- Counters that grew fit no fewer entries.
  unfit_before :
      (value next : Document V M) (number : ℕ)
      → Numbered value next number
      → (e : Entry V) → unfit engine next e ≡ true
      → unfit engine value e ≡ true
  unfit_before value next number numbers e h =
      let same : digest_matches engine next.root_instance_id e
          ≡ digest_matches engine value.root_instance_id e =
        ap (λ (x : String). digest_matches engine x e) numbers.instance_id in
      ground (arith, same, numbers.acceptance, numbers.queue)

  module _ (aggregate : NativeAggregate V M) (fresh : List (AdmissionDelivery V × String))
      (status : RuntimeStatus) (sealed : Document V M) (answers : List Accepted)
      (passed : Passed engine aggregate fresh status sealed answers)
      (intact : IsIntact engine aggregate.document) where
    sealed_lem :
        (sealed.runtimes ≡ passed.done.0.runtimes)
        × IsOrdered passed.done.0
        × Numbered aggregate.document sealed (length passed.checked.0)
    sealed_lem =
        let (order, numbers) =
          append_deliveries_lem passed.checked.0 aggregate.document passed.done passed.appended
            (intact-IsOrdered aggregate.document intact) in
        let (sorted, frame) = seal_aggregate_lem engine passed.done.0 sealed passed.seal in
        (
          sorted ∙ sort_ascending none passed.done.0.runtimes order.ids_ascend order.queues_rise,
          order,
          record {
            instance_id = frame.instance_id ∙ numbers.instance_id;
            acceptance = frame.acceptance ∙ numbers.acceptance;
            queue = frame.queue ∙ numbers.queue;
          },
        )

    acceptance_once : (n : ℕ) → copies (is_acceptance n) sealed ≤ 1
    acceptance_once n =
        let document = aggregate.document in
        ground (
          arith,
          copies-Passed engine (is_acceptance n) aggregate fresh status sealed answers passed,
          acceptance-added n document.next_acceptance_sequence document.next_queue_sequence
              passed.checked.0,
          intact.acceptance_once n,
          λ (above : leb document.next_acceptance_sequence n ≡ true).
              none_of_fit document (is_acceptance n) intact (λ e k. ground (arith)),
        )

    queue_once : (n : ℕ) → copies (is_queue n) sealed ≤ 1
    queue_once n =
        let document = aggregate.document in
        ground (
          arith,
          copies-Passed engine (is_queue n) aggregate fresh status sealed answers passed,
          queue-added n document.next_acceptance_sequence document.next_queue_sequence
              passed.checked.0,
          intact.queue_once n,
          λ (above : leb document.next_queue_sequence n ≡ true).
              none_of_fit document (is_queue n) intact (λ e k. ground (arith)),
        )

    all_fit :
        count (is_mislabelled engine aggregate.document.root_instance_id) passed.checked.0 ≡ 0
        → copies (unfit engine sealed) sealed ≡ 0
    all_fit right =
        let document = aggregate.document in
        let numbers = sealed_lem.2 in
        let others : copies (unfit engine sealed) document ≡ 0 =
          none_of_fit document (unfit engine sealed) intact
            (unfit_before document sealed _ numbers) in
        let own =
          fit-added engine sealed document.next_acceptance_sequence document.next_queue_sequence
            passed.checked.0 (rw numbers.instance_id right) (omega (arith, numbers.acceptance))
            (omega (arith, numbers.queue)) in
        omega (
          arith,
          copies-Passed engine (unfit engine sealed) aggregate fresh status sealed answers passed,
          others,
          own,
        )

  -- An aggregate whose mailboxes pass the integrity test still passes it after an accepted
  -- batch: the sealed document passes it too.
  pub admitted_restores :
      (aggregate : NativeAggregate V M) (deliveries : List (AdmissionDelivery V))
      (status : RuntimeStatus) (sealed : Document V M) (answers : List Accepted)
      → admit_v1 engine aggregate deliveries ≡ ok (accepted status sealed answers)
      → validate_mailbox_integrity engine aggregate.document ≡ ok tt
      → validate_mailbox_integrity engine sealed ≡ ok tt
  admitted_restores aggregate deliveries status sealed answers h checked =
      let document = aggregate.document in
      let intact = (validate_iff engine document).0 checked in
      let (sorted, e, no_duplicate, passed) =
        admitted-Passed engine aggregate deliveries status sealed answers h in
      let right = all_labelled engine document.root_instance_id passed.checked.0 passed.digests (
        targets_right engine document.root_instance_id aggregate none sorted.fresh passed.checked
          passed.targets
          (fresh_right engine document.root_instance_id (mailbox_locations document.runtimes [])
            deliveries sorted e)) in
      let (same, order, numbers) =
        sealed_lem aggregate sorted.fresh status sealed answers passed intact in
      (validate_iff engine sealed).1 (record {
        runtimes_ascend = rw same order.ids_ascend;
        event_once = λ k. ground (
          arith,
          admitted_once engine k aggregate deliveries status sealed answers h (intact.event_once k),
          intact.event_once k,
        );
        acceptance_once =
            acceptance_once aggregate sorted.fresh status sealed answers passed intact;
        queue_once = queue_once aggregate sorted.fresh status sealed answers passed intact;
        all_fit = all_fit aggregate sorted.fresh status sealed answers passed intact right;
        queues_rise = rw same order.queues_rise;
      })
