-- ===== src/Mailbox/Admit/Passed.antt =====
-- The chain of checks in `admit_v1` of format1/v1.rs, taken apart where it accepts.
use determa_state_rust.Prelude.{
  Bool-cases, ◌+◌, String, none, List, [], ◌∷◌, ◌≡◌, arith, Option-cases, inl, inr,
}
use determa_state_rust.Checkpoint.ByKey.{count}
use determa_state_rust.State.Machine.{RuntimeStatus}
use determa_state_rust.Mailbox.Records.{
  ok, Result-cases, AdmissionDelivery, Document, NativeAggregate, Engine,
}
use determa_state_rust.Mailbox.Documents.{seal_aggregate, aggregate_status}
use determa_state_rust.Mailbox.Copies.{copies, copies-seal_aggregate}
use determa_state_rust.Mailbox.Admit.{
  false, has_duplicate, mailbox_locations, sort_deliveries, Batch, admit_v1, DispatchRejectionCode,
  Bool, Option, Checked, Entry, MailboxLocation, Accepted, accepted, append_deliveries,
  check_targets, check_modes, check_sources, check_digests, admit_fresh, answer,
}
use determa_state_rust.Mailbox.Admit.Added.{added, copies-append_deliveries}

module _ {V P M F : Type 0} (engine : Engine V P M F) where
  -- What a batch that was accepted went through.
  pub record Passed (aggregate : NativeAggregate V M) (fresh : List (AdmissionDelivery V × String))
      (status : RuntimeStatus) (sealed : Document V M) (answers : List Accepted) : Type 0 where
    pub checked : List (Checked V) × Option DispatchRejectionCode
    pub done : Document V M × List Accepted
    pub targets : check_targets engine aggregate none fresh ≡ ok checked
    pub no_failure : checked.1 ≡ none
    pub digests : check_digests checked.0 ≡ ok tt
    pub appended : append_deliveries aggregate.document checked.0 ≡ ok done
    pub seal : seal_aggregate engine done.0 ≡ ok sealed
    pub reported : answers ≡ done.1
    pub root_status : aggregate_status sealed ≡ ok status

  pub admit_fresh-Passed :
      (aggregate : NativeAggregate V M) (fresh : List (AdmissionDelivery V × String))
      (status : RuntimeStatus) (sealed : Document V M) (answers : List Accepted)
      → admit_fresh engine aggregate fresh ≡ ok (accepted status sealed answers)
      → Passed aggregate fresh status sealed answers
  unfolding admit_fresh
  admit_fresh-Passed aggregate fresh status sealed answers h =
      elim (Result-cases (check_modes fresh)) [
        | inr (x, e) ↦ cc
        | inl (u, e) ↦ elim (Result-cases (check_sources aggregate.document fresh)) [
          | inr (x, e₁) ↦ cc
          | inl (u₁, e₁) ↦ elim (Result-cases (check_targets engine aggregate none fresh)) [
            | inr (x, e₂) ↦ cc
            | inl (checked, e₂) ↦ elim (Option-cases checked.1) [
              | inr (code, e₃) ↦ cc
              | inl e₃ ↦ elim (Result-cases (check_digests checked.0)) [
                | inr (x, e₄) ↦ cc
                | inl (tt, e₄) ↦
                    elim (Result-cases (append_deliveries aggregate.document checked.0)) [
                      | inr (x, e₅) ↦ cc
                      | inl (done, e₅) ↦ elim (Result-cases (seal_aggregate engine done.0)) [
                        | inr (x, e₆) ↦ cc
                        | inl (last, e₆) ↦ elim (Result-cases (aggregate_status last)) [
                          | inr (x, e₇) ↦ cc
                          | inl (st, e₇) ↦ record {
                            checked = checked;
                            done = done;
                            targets = e₂;
                            no_failure = e₃;
                            digests = e₄;
                            appended = e₅;
                            seal = cc;
                            reported = cc;
                            root_status = cc;
                          }
                        ]
                      ]
                    ]
              ]
            ]
          ]
        ]
      ]

  pub copies-Passed :
      (p : Entry V → Bool) (aggregate : NativeAggregate V M)
      (fresh : List (AdmissionDelivery V × String)) (status : RuntimeStatus) (sealed : Document V M)
      (answers : List Accepted) (passed : Passed aggregate fresh status sealed answers)
      → copies p sealed
        ≡ copies p aggregate.document
          + count p (
              added aggregate.document.next_acceptance_sequence
                aggregate.document.next_queue_sequence passed.checked.0)
  copies-Passed p aggregate fresh status sealed answers passed = omega (
    arith,
    copies-seal_aggregate p engine passed.done.0 sealed passed.seal,
    copies-append_deliveries p passed.checked.0 aggregate.document passed.done passed.appended,
  )

  pub answer_fresh :
      (aggregate : NativeAggregate V M) (replays : List (AdmissionDelivery V × MailboxLocation))
      (fresh : List (AdmissionDelivery V × String)) (status : RuntimeStatus) (sealed : Document V M)
      (answers : List Accepted)
      → answer engine aggregate replays fresh ≡ ok (accepted status sealed answers)
      → admit_fresh engine aggregate fresh ≡ ok (accepted status sealed answers)
  unfolding answer admit_fresh
  answer_fresh aggregate [] fresh status sealed answers h = h
  answer_fresh aggregate (r ∷ []) [] status sealed answers h =
      elim (Result-cases (aggregate_status aggregate.document)) [
        | inr (x, e) ↦ cc
        | inl (st, e) ↦ cc
      ]
  answer_fresh aggregate (r ∷ []) (f ∷ fresh) status sealed answers h = h
  answer_fresh aggregate (r ∷ s ∷ rs) fresh status sealed answers h = h

  -- An accepted batch, from the start of the handler on.
  pub admitted-Passed :
      (aggregate : NativeAggregate V M) (deliveries : List (AdmissionDelivery V))
      (status : RuntimeStatus) (sealed : Document V M) (answers : List Accepted)
      → admit_v1 engine aggregate deliveries ≡ ok (accepted status sealed answers)
      → (sorted : Batch V) × (sort_deliveries engine aggregate.document.root_instance_id
            (mailbox_locations aggregate.document.runtimes [])
            deliveries
          ≡ ok sorted)
        × (has_duplicate [] deliveries ≡ false)
        × Passed aggregate sorted.fresh status sealed answers
  unfolding admit_v1
  admitted-Passed aggregate deliveries status sealed answers h =
      let locations = mailbox_locations aggregate.document.runtimes [] in
      let id = aggregate.document.root_instance_id in
      elim (Result-cases engine.check_bundle) [
        | inr (x, e) ↦ absurd (cc)
        | inl (u, e) ↦ elim (Bool-cases (has_duplicate [] deliveries)) [
          | inl e₁ ↦ absurd (cc)
          | inr e₁ ↦ elim (Result-cases (sort_deliveries engine id locations deliveries)) [
            | inr (x, e₂) ↦ absurd (cc)
            | inl (sorted, e₂) ↦ (
              sorted,
              e₂,
              e₁,
              admit_fresh-Passed aggregate sorted.fresh status sealed answers
                  (answer_fresh aggregate sorted.replay sorted.fresh status sealed answers (cc)),
            )
          ]
        ]
      ]
