-- ===== src/Mailbox/Admit/Added.antt =====
-- What the last two loops of `admit_v1` in format1/v1.rs add to the mailboxes.
use determa_state_rust.Prelude.{
  ℕ, ◌+◌, ◌≢◌, Sum-cases, String, Bool, Option, none, some, List, [], ◌∷◌, ◌≡◌, refl, str_eq, arith,
  inl, inr,
}
use determa_state_rust.Checkpoint.ByKey.{count, count-append}
use determa_state_rust.Codes.Runtime.{DispatchRejectionCode}
use determa_state_rust.Mailbox.Records.{
  ok, Result-cases, AdmissionDelivery, Entry, RuntimeRecord, Document, NativeAggregate, Engine,
}
use determa_state_rust.Mailbox.Documents.{
  update_runtime, allocate_acceptance, allocate_queue, push_ready,
}
use determa_state_rust.Mailbox.Sources.{core_delivery}
use determa_state_rust.Mailbox.Copies.{one_if, is_event, in_runtime, copies, update_runtime_lem}
use determa_state_rust.Mailbox.Admit.{
  Accepted, worse, Checked, queued, append_deliveries, check_targets,
}

-- The test for deliveries of one event id.
abbrev pub requests : {V : Type 0} → String → AdmissionDelivery V → Bool
requests event_id delivery = str_eq delivery.envelope.event_id event_id

module _ {V M : Type 0} (p : Entry V → Bool) where
  in_runtime-push_ready :
      (e : Entry V) (r : RuntimeRecord V M)
      → in_runtime p (push_ready e r) ≡ in_runtime p r + one_if (p e)
  in_runtime-push_ready e r = ground (arith, count-append p r.ready_mailbox (e ∷ []))

  pub copies-push_ready :
      (id : String) (e : Entry V) (value next : Document V M)
      → update_runtime id (push_ready e) value ≡ ok next
      → copies p next ≡ copies p value + one_if (p e)
  copies-push_ready id e value next h =
      let (frame, (r, found, counted)) = update_runtime_lem p id (push_ready e) value next h in
      omega (arith, in_runtime-push_ready e r)

module _ {V : Type 0} where
  -- The entries that the last loop adds, in order.
  unfoldable pub added : ℕ → ℕ → List (Checked V) → List (Entry V)
  added acceptance queue [] = []
  added acceptance queue (c ∷ cs) =
      queued c.delivery acceptance queue ∷ added (acceptance + 1) (queue + 1) cs

module _ {V M : Type 0} where
  pub copies-append_deliveries :
      (p : Entry V → Bool) (cs : List (Checked V)) (value : Document V M)
      (done : Document V M × List Accepted)
      → append_deliveries value cs ≡ ok done
      → copies p done.0
        ≡ copies p value
          + count p (added value.next_acceptance_sequence value.next_queue_sequence cs)
  unfolding append_deliveries added
  copies-append_deliveries p [] value done h =
      let same : done.0 ≡ value = cc in rw same (omega arith)
  copies-append_deliveries p (c ∷ cs) value done h =
      let entry = queued c.delivery value.next_acceptance_sequence value.next_queue_sequence in
      let counted = allocate_queue (allocate_acceptance value) in
      elim (Result-cases (update_runtime c.runtime_id (push_ready entry) counted)) [
        | inr (x, e) ↦ cc
        | inl (next, e) ↦ elim (Result-cases (append_deliveries next cs)) [
          | inr (x, e') ↦ cc
          | inl (rest, e') ↦
              let same : done.0 ≡ rest.0 = cc in
              let frame = (update_runtime_lem p c.runtime_id (push_ready entry) counted next e).0 in
              let ih = copies-append_deliveries p cs next rest e' in
              let pushed = copies-push_ready p c.runtime_id entry counted next e in
              rw same (ground (arith, ih, pushed, frame.acceptance, frame.queue))
        ]
      ]

-- The added entries carry the deliveries' event ids.
pub count-added :
    {V : Type 0} (event_id : String) (acceptance queue : ℕ) (cs : List (Checked V))
    → count (is_event event_id) (added acceptance queue cs)
      ≡ count (λ (c : Checked V). requests event_id c.delivery) cs
unfolding added
count-added event_id acceptance queue [] = refl
count-added event_id acceptance queue (c ∷ cs) =
    ground (arith, count-added event_id (acceptance + 1) (queue + 1) cs)

worse-ne-none : (o : Option DispatchRejectionCode) (c : DispatchRejectionCode) → worse o c ≢ none
unfolding worse
worse-ne-none none c h = cc
worse-ne-none (some d) c h = ground (arith)

module _ {V P M F : Type 0} (engine : Engine V P M F) (event_id : String) where
  -- Without a failure, every fresh delivery was validated.
  pub check_targets_all :
      (aggregate : NativeAggregate V M) (failure : Option DispatchRejectionCode)
      (fresh : List (AdmissionDelivery V × String))
      (done : List (Checked V) × Option DispatchRejectionCode)
      → check_targets engine aggregate failure fresh ≡ ok done
      → done.1 ≡ none
      → (failure ≡ none)
        × (count (λ (c : Checked V). requests event_id c.delivery) done.0
            ≡ count (λ (f : AdmissionDelivery V × String). requests event_id f.0) fresh)
  unfolding check_targets
  check_targets_all aggregate failure [] done h n = (cc, let same : done.0 ≡ [] = cc in rw same)
  check_targets_all aggregate failure ((d, computed) ∷ fresh) done h n =
      elim (Result-cases (core_delivery engine d)) [
        | inr (x, e) ↦ cc
        | inl (core, e) ↦ elim (Sum-cases (engine.validate_delivery_for_admission aggregate core)) [
          | inl (code, e') ↦ absurd (
              worse-ne-none failure code
                (check_targets_all aggregate (worse failure code) fresh done (cc) n).0)
          | inr (id, e') ↦ elim (Result-cases (check_targets engine aggregate failure fresh)) [
            | inr (x, e'') ↦ cc
            | inl (rest, e'') ↦
                let ih = check_targets_all aggregate failure fresh rest e'' (cc) in
                let same : done.0
                    ≡ record { delivery = d; computed = computed; runtime_id = id } ∷ rest.0 =
                  cc in
                (ih.0, rw same (ground (arith, ih.1)))
          ]
        ]
      ]
