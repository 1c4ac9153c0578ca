-- ===== src/Mailbox/Admit/Retry.antt =====
-- A delivery that `admit_v1` of format1/v1.rs accepted is answered as a replay when it comes again.
use determa_state_rust.Prelude.{
  any_of_find-none, Sum-cases, ℕ, String, Bool, true, none, some, List, [], ◌∷◌, ◌≡◌, refl, ap, ◌∙◌,
  str_eq, eq_iff, arith, find, Bool-cases, Option-cases, inl, inr,
}
use determa_state_rust.Checkpoint.ByKey.{count}
use determa_state_rust.State.Machine.{RuntimeStatus}
use determa_state_rust.Mailbox.Records.{
  ok, Result-cases, AdmissionDelivery, Entry, Document, NativeAggregate, Engine,
}
use determa_state_rust.Mailbox.Copies.{held-le, is_event, copies, seal_aggregate_lem}
use determa_state_rust.Mailbox.Documents.{aggregate_status}
use determa_state_rust.Mailbox.Admit.{
  admit_fresh, has_duplicate, core_delivery, check_digests, check_targets, MailboxLocation,
  Accepted, accepted, replay, is_located, Checked, mailbox_locations, sort_deliveries, answer,
  admit_v1,
}
use determa_state_rust.Mailbox.Admit.Added.{added}
use determa_state_rust.Mailbox.Admit.Fresh.{any-mailbox_locations}
use determa_state_rust.Mailbox.Admit.Passed.{Passed, admit_fresh-Passed, copies-Passed}
use determa_state_rust.Mailbox.Admit.Located.{
  find-passes, find_of_any, append_deliveries-root, differs_from, agrees, differs_entry,
}

module _ {V P M F : Type 0} (engine : Engine V P M F) (aggregate : NativeAggregate V M)
    (d : AdmissionDelivery V) where
  abbrev acceptance : ℕ
  acceptance = aggregate.document.next_acceptance_sequence

  -- A single delivery that was accepted is the one entry that was added.
  single :
      (computed : String) (status : RuntimeStatus) (sealed : Document V M) (answers : List Accepted)
      (passed : Passed engine aggregate ((d, computed) ∷ []) status sealed answers)
      → (id : String) × (passed.checked.0
          ≡ record { delivery = d; computed = computed; runtime_id = id } ∷ [])
        × (str_eq d.envelope_digest computed ≡ true)
  unfolding check_targets check_digests
  single computed status sealed answers passed =
      let targets = passed.targets in
      let digests = passed.digests in
      elim (Result-cases (core_delivery engine d)) [
        | inr (x, e) ↦ absurd (cc)
        | inl (core, e) ↦ elim (Sum-cases (engine.validate_delivery_for_admission aggregate core)) [
          | inl (code, e') ↦ absurd (cc (passed.no_failure))
          | inr (id, e') ↦
              let one : Checked V = record { delivery = d; computed = computed; runtime_id = id } in
              let same : passed.checked.0 ≡ one ∷ [] = cc in
              elim (Bool-cases (str_eq d.envelope_digest computed)) [
                | inr e'' ↦ absurd (cc)
                | inl e'' ↦ (id, same, e'')
              ]
        ]
      ]

  -- The mailboxes then hold the event id, and only as the delivery that was accepted.
  held_after :
      (computed : String) (status : RuntimeStatus) (sealed : Document V M) (answers : List Accepted)
      (passed : Passed engine aggregate ((d, computed) ∷ []) status sealed answers)
      → copies (is_event d.envelope.event_id) aggregate.document ≡ 0
      → (copies (is_event d.envelope.event_id) sealed ≡ 1)
        × (copies (differs_entry d acceptance) sealed ≡ 0)
  unfolding added
  held_after computed status sealed answers passed none_before =
      let (id, same, right) = single computed status sealed answers passed in
      let k = d.envelope.event_id in
      let document = aggregate.document in
      let queue = document.next_queue_sequence in
      let one : Checked V = record { delivery = d; computed = computed; runtime_id = id } in
      let entries = λ (p : Entry V → Bool).
        ap (λ (cs : List (Checked V)). count p (added acceptance queue cs)) same in
      let all =
        copies-Passed engine (is_event k) aggregate ((d, computed) ∷ []) status sealed answers
          passed in
      let bad =
        copies-Passed engine (differs_entry d acceptance) aggregate ((d, computed) ∷ []) status
          sealed answers passed in
      let below =
        held-le (differs_entry d acceptance) (is_event k) (λ e h. ground (arith))
          document.runtimes in
      (
        ground (arith, all, entries (is_event k), eq_iff k k, none_before),
        ground (
          arith,
          bad,
          below,
          entries (differs_entry d acceptance),
          eq_iff k k,
          eq_iff d.envelope_digest d.envelope_digest,
          none_before,
        ),
      )

  -- What a retry is call: where the entry stands, with its digest and number.
  pub record Replayed (again : NativeAggregate V M) (status : RuntimeStatus)
      (location : MailboxLocation) : Type 0 where
    pub call : admit_v1 engine again (d ∷ []) ≡ ok (replay status again.document location)
    pub same_event : location.event_id ≡ d.envelope.event_id
    pub same_digest : location.digest ≡ d.envelope_digest
    pub same_sequence : location.acceptance_sequence ≡ aggregate.document.next_acceptance_sequence

  -- The parts of the call that do not read the mailboxes give what they gave before.
  replay_lem :
      (again : NativeAggregate V M) (status : RuntimeStatus) (computed : String)
      (location : MailboxLocation)
      → engine.check_bundle ≡ ok tt
      → engine.validate_admission_delivery_schema d ≡ ok tt
      → engine.envelope_digest again.document.root_instance_id d.delivery_mode d.envelope
        ≡ ok computed
      → aggregate_status again.document ≡ ok status
      → find (is_located d.envelope.event_id) (mailbox_locations again.document.runtimes [])
        ≡ some location
      → str_eq location.digest computed ≡ true
      → admit_v1 engine again (d ∷ []) ≡ ok (replay status again.document location)
  unfolding admit_v1 sort_deliveries has_duplicate answer
  replay_lem again status computed location bundle schema digest root found same = cc

  -- The rest of the proof, from the chain of checks on.
  found_again :
      (again : NativeAggregate V M) (computed : String) (status : RuntimeStatus)
      (sealed : Document V M) (answers : List Accepted)
      → again.document ≡ sealed
      → engine.check_bundle ≡ ok tt
      → engine.validate_admission_delivery_schema d ≡ ok tt
      → engine.envelope_digest aggregate.document.root_instance_id d.delivery_mode d.envelope
        ≡ ok computed
      → find (is_located d.envelope.event_id) (mailbox_locations aggregate.document.runtimes [])
        ≡ none
      → Passed engine aggregate ((d, computed) ∷ []) status sealed answers
      → (location : MailboxLocation) × Replayed again status location
  found_again again computed status sealed answers next bundle schema digest absent passed =
      let k = d.envelope.event_id in
      let q = is_located k in
      let bad = differs_from d acceptance in
      let before =
        any-mailbox_locations q (is_event k) aggregate.document.runtimes [] (λ place e. refl) in
      let none_before : copies (is_event k) aggregate.document ≡ 0 = ground (
        arith,
        before,
        any_of_find-none q (mailbox_locations aggregate.document.runtimes []) absent,
      ) in
      let after = held_after computed status sealed answers passed none_before in
      let held_once = any-mailbox_locations q (is_event k) sealed.runtimes [] (λ place e. refl) in
      let none_differs =
        any-mailbox_locations bad (differs_entry d acceptance) sealed.runtimes []
          (λ place e. refl) in
      let locations = mailbox_locations sealed.runtimes [] in
      let (location, found) = find_of_any q locations (ground (arith, held_once, after.0)) in
      let passes =
        find-passes q bad locations location found (ground (arith, none_differs, after.1)) in
      let right = (single computed status sealed answers passed).2 in
      let (same_event, same_digest, same_sequence) =
        agrees d acceptance location passes.0 passes.1 in
      let same_root : sealed.root_instance_id ≡ aggregate.document.root_instance_id =
        (seal_aggregate_lem engine passed.done.0 sealed passed.seal).1.instance_id
        ∙ append_deliveries-root passed.checked.0 aggregate.document passed.done passed.appended in
      (
        location,
        record {
          call =
              replay_lem again status computed location bundle schema (rw (next, same_root) digest)
                (rw next passed.root_status) (rw next found) (rw same_digest right);
          same_event = same_event;
          same_digest = same_digest;
          same_sequence = same_sequence;
        },
      )

  -- A single delivery that was accepted is answered as a replay when it comes again: the mailboxes stay as they
  -- are, and the answer names the entry that holds its event id, with the digest of the delivery and
  -- the acceptance sequence that it was given.
  pub retry-Replayed :
      (again : NativeAggregate V M) (status : RuntimeStatus) (sealed : Document V M)
      (answers : List Accepted)
      → admit_v1 engine aggregate (d ∷ []) ≡ ok (accepted status sealed answers)
      → again.document ≡ sealed
      → (location : MailboxLocation) × Replayed again status location
  unfolding admit_v1 sort_deliveries has_duplicate answer
  retry-Replayed again status sealed answers h next =
      let k = d.envelope.event_id in
      let document = aggregate.document in
      let locations = mailbox_locations document.runtimes [] in
      elim (Result-cases engine.check_bundle) [
        | inr (x, e) ↦ absurd (cc)
        | inl (tt, e) ↦ elim (Result-cases (engine.validate_admission_delivery_schema d)) [
          | inr (x, e₁) ↦ absurd (cc)
          | inl (tt, e₁) ↦
              elim (Result-cases
                (engine.envelope_digest document.root_instance_id d.delivery_mode d.envelope)) [
                  | inr (x, e₂) ↦ absurd (cc)
                  | inl (computed, e₂) ↦ elim (Option-cases (find (is_located k) locations)) [
                    | inr (existing, e₃) ↦ elim (Bool-cases (str_eq existing.digest computed)) [
                      | inr e₄ ↦ absurd (cc)
                      | inl e₄ ↦ elim (Result-cases (aggregate_status document)) [
                        | inr (x, e₅) ↦ absurd (cc)
                        | inl (st, e₅) ↦ absurd (cc)
                      ]
                    ]
                    | inl e₃ ↦
                        let taken : admit_fresh engine aggregate ((d, computed) ∷ [])
                            ≡ ok (accepted status sealed answers) =
                          cc in
                        found_again again computed status sealed answers next e e₁ e₂ e₃ (
                          admit_fresh-Passed engine aggregate ((d, computed) ∷ []) status sealed
                            answers taken)
                  ]
                ]
        ]
      ]
