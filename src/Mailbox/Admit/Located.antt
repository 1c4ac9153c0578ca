-- ===== src/Mailbox/Admit/Located.antt =====
-- Looking up a delivery in the map of locations that `admit_v1` of format1/v1.rs makes.
use determa_state_rust.Prelude.{
  ℕ, Bool, true, false, not, some, List, [], ◌∷◌, ◌≡◌, sym, str_eq, eq_iff, arith, any, find, ◌==◌,
  ◌&&◌, Bool-cases, inl, inr,
}
use determa_state_rust.Mailbox.Records.{ok, Result-cases, AdmissionDelivery, Entry, Document}
use determa_state_rust.Mailbox.Copies.{is_event, update_runtime_lem}
use determa_state_rust.Mailbox.Documents.{
  update_runtime, allocate_acceptance, allocate_queue, push_ready,
}
use determa_state_rust.Mailbox.Admit.{
  MailboxLocation, Accepted, ready, located, is_located, Checked, queued, append_deliveries,
}

module _ {A : Type 0} where
  -- What is found passes any test that no other element with the key fails.
  pub find-passes :
      (q bad : A → Bool) (l : List A) (a : A)
      → find q l ≡ some a
      → any bad l ≡ false
      → (q a ≡ true) × (bad a ≡ false)
  find-passes q bad [] a h k = cc
  find-passes q bad (x ∷ l) a h k = elim (Bool-cases (q x)) [
    | inl e ↦
        let found : some x ≡ some a = rw e at h in
        let same : x ≡ a = cc in rw (sym same) (ground arith)
    | inr e ↦ find-passes q bad l a (rw e at h) (ground arith)
  ]

  pub find_of_any : (q : A → Bool) (l : List A) → any q l ≡ true → (a : A) × (find q l ≡ some a)
  find_of_any q [] h = cc
  find_of_any q (x ∷ l) h = elim (Bool-cases (q x)) [
    | inl e ↦ (x, rw e)
    | inr e ↦ let rest = find_of_any q l (rw e at h) in (rest.0, rw e (rest.1))
  ]

pub append_deliveries-root :
    {V M : Type 0} (cs : List (Checked V)) (value : Document V M)
    (done : Document V M × List Accepted)
    → append_deliveries value cs ≡ ok done
    → done.0.root_instance_id ≡ value.root_instance_id
unfolding append_deliveries
append_deliveries-root [] value done h = cc
append_deliveries-root (c ∷ cs) value done h =
    let entry = queued c.delivery value.next_acceptance_sequence value.next_queue_sequence in
    let counted = allocate_queue (allocate_acceptance value) in
    elim (Result-cases (update_runtime c.runtime_id (push_ready entry) counted)) [
      | inr (x, e) ↦ cc
      | inl (next, e) ↦ elim (Result-cases (append_deliveries next cs)) [
        | inr (x, e') ↦ cc
        | inl (rest, e') ↦
            let frame =
              (update_runtime_lem (is_event "") c.runtime_id (push_ready entry) counted next e).0 in
            cc (append_deliveries-root cs next rest e', frame.instance_id)
      ]
    ]

-- Whether what is held under an event id differs_from from an accepted delivery.
abbrev pub differs_from : {V : Type 0} → AdmissionDelivery V → ℕ → MailboxLocation → Bool
differs_from d acceptance location =
    str_eq location.event_id d.envelope.event_id
    && not (str_eq location.digest d.envelope_digest && location.acceptance_sequence == acceptance)

pub agrees :
    {V : Type 0} (d : AdmissionDelivery V) (acceptance : ℕ) (location : MailboxLocation)
    → is_located d.envelope.event_id location ≡ true
    → differs_from d acceptance location ≡ false
    → (location.event_id ≡ d.envelope.event_id)
      × (location.digest ≡ d.envelope_digest)
      × (location.acceptance_sequence ≡ acceptance)
agrees d acceptance location h k =
    ground (
      arith,
      eq_iff location.event_id d.envelope.event_id,
      eq_iff location.digest d.envelope_digest,
    )

abbrev pub differs_entry : {V : Type 0} → AdmissionDelivery V → ℕ → Entry V → Bool
differs_entry d acceptance entry = differs_from d acceptance (located ready entry)
