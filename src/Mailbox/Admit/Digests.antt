-- ===== src/Mailbox/Admit/Digests.antt =====
-- The digests of a batch that `admit_v1` of format1/v1.rs takes: each delivery carries the one that was computed.
use determa_state_rust.Prelude.{
  ℕ, ◌+◌, ◌≤◌, String, Bool, true, false, not, Option, List, [], ◌∷◌, ◌≡◌, refl, str_eq, eq_iff,
  length, arith, Bool-cases, Option-cases, Sum-cases, find, inl, inr,
}
use determa_state_rust.Checkpoint.ByKey.{count}
use determa_state_rust.Codes.Runtime.{DispatchRejectionCode}
use determa_state_rust.Mailbox.Records.{
  ok, err, Result-cases, AdmissionDelivery, Document, NativeAggregate, Engine,
}
use determa_state_rust.Mailbox.Sources.{core_delivery}
use determa_state_rust.Mailbox.Admit.{
  MailboxLocation, is_located, worse, Batch, Checked, queued, sort_deliveries, check_targets,
  check_digests,
}
use determa_state_rust.Mailbox.Admit.Added.{added}
use determa_state_rust.Mailbox.Integrity.Checked.{digest_matches, unfit}

module _ {V P M F : Type 0} (engine : Engine V P M F) (root_instance_id : String) where
  -- A digest that is not the one of the delivery's envelope.
  abbrev pub is_wrong : AdmissionDelivery V × String → Bool
  is_wrong fresh =
      elim (engine.envelope_digest root_instance_id fresh.0.delivery_mode fresh.0.envelope) [
        | ok expected ↦ not (str_eq fresh.1 expected)
        | err e ↦ true
      ]

  abbrev pub is_wrongly_checked : Checked V → Bool
  is_wrongly_checked c = is_wrong (c.delivery, c.computed)

  abbrev pub is_mislabelled : Checked V → Bool
  is_mislabelled c = not (digest_matches engine root_instance_id (queued c.delivery 0 0))

  pub fresh_right :
      (locations : List MailboxLocation) (ds : List (AdmissionDelivery V)) (done : Batch V)
      → sort_deliveries engine root_instance_id locations ds ≡ ok done
      → count is_wrong done.fresh ≡ 0
  unfolding sort_deliveries
  fresh_right locations [] done h = let same : done.fresh ≡ [] = cc in rw same refl
  fresh_right locations (d ∷ ds) done h =
      elim (Result-cases (engine.validate_admission_delivery_schema d)) [
        | inr (x, e) ↦ absurd (cc)
        | inl (u, e) ↦
            elim (Result-cases
              (engine.envelope_digest root_instance_id d.delivery_mode d.envelope)) [
                | inr (x, e₁) ↦ absurd (cc)
                | inl (computed, e₁) ↦
                    elim (Option-cases (find (is_located d.envelope.event_id) locations)) [
                      | inl e₂ ↦
                          elim (Result-cases
                            (sort_deliveries engine root_instance_id locations ds)) [
                              | inr (x, e₃) ↦ absurd (cc)
                              | inl (rest, e₃) ↦
                                  let same : done.fresh ≡ (d, computed) ∷ rest.fresh = cc in
                                  let right : is_wrong (d, computed) ≡ false =
                                    rw (e₁, is_wrong) (ground (arith, eq_iff computed computed)) in
                                  rw (same, right) (fresh_right locations ds rest e₃)
                            ]
                      | inr (existing, e₂) ↦ elim (Bool-cases (str_eq existing.digest computed)) [
                        | inr e₃ ↦ absurd (cc)
                        | inl e₃ ↦
                            elim (Result-cases
                              (sort_deliveries engine root_instance_id locations ds)) [
                                | inr (x, e₄) ↦ absurd (cc)
                                | inl (rest, e₄) ↦
                                    let same : done.fresh ≡ rest.fresh = cc in
                                    rw same (fresh_right locations ds rest e₄)
                              ]
                      ]
                    ]
              ]
      ]

  pub targets_right :
      (aggregate : NativeAggregate V M) (failure : Option DispatchRejectionCode)
      (fresh : List (AdmissionDelivery V × String))
      (done : List (Checked V) × Option DispatchRejectionCode)
      → check_targets engine aggregate failure fresh ≡ ok done
      → count is_wrong fresh ≡ 0
      → count is_wrongly_checked done.0 ≡ 0
  unfolding check_targets
  targets_right aggregate failure [] done h n = let same : done.0 ≡ [] = cc in rw same refl
  targets_right aggregate failure ((d, computed) ∷ fresh) done h n =
      elim (Result-cases (core_delivery engine d)) [
        | inr (x, e) ↦ absurd (cc)
        | inl (core, e) ↦ elim (Sum-cases (engine.validate_delivery_for_admission aggregate core)) [
          | inl (code, e₁) ↦
              targets_right aggregate (worse failure code) fresh done (cc) (ground (arith))
          | inr (id, e₁) ↦ elim (Result-cases (check_targets engine aggregate failure fresh)) [
            | inr (x, e₂) ↦ absurd (cc)
            | inl (rest, e₂) ↦
                let ih = targets_right aggregate failure fresh rest e₂ (ground (arith)) in
                let same : done.0
                    ≡ record { delivery = d; computed = computed; runtime_id = id } ∷ rest.0 =
                  cc in
                rw same (ground (arith, ih))
          ]
        ]
      ]

  one_labelled :
      (c : Checked V)
      → str_eq c.delivery.envelope_digest c.computed ≡ true
      → is_wrongly_checked c ≡ false
      → is_mislabelled c ≡ false
  one_labelled c h right =
      elim (Result-cases
        (engine.envelope_digest root_instance_id c.delivery.delivery_mode c.delivery.envelope)) [
          | inr (x, e) ↦
              absurd (let no : true ≡ false = rw (e, is_wrongly_checked, is_wrong) at right in cc)
          | inl (expected, e) ↦
              let own : not (str_eq c.computed expected) ≡ false =
                rw (e, is_wrongly_checked, is_wrong) at right in
              rw (e, is_mislabelled, digest_matches)
                (ground (
                  arith,
                  eq_iff c.delivery.envelope_digest c.computed,
                  eq_iff c.computed expected,
                  eq_iff c.delivery.envelope_digest expected,
                ))
        ]

  pub all_labelled :
      (cs : List (Checked V))
      → check_digests cs ≡ ok tt
      → count is_wrongly_checked cs ≡ 0
      → count is_mislabelled cs ≡ 0
  unfolding check_digests
  all_labelled [] h right = refl
  all_labelled (c ∷ cs) h right = elim (Bool-cases (str_eq c.delivery.envelope_digest c.computed)) [
    | inr e ↦ absurd (cc)
    | inl e ↦ ground (arith, one_labelled c e, all_labelled cs (cc))
  ]

module _ {V P M F : Type 0} (engine : Engine V P M F) (value : Document V M) where
  -- The added entries have numbers below the new counters, and right digests.
  pub fit-added :
      (acceptance queue : ℕ) (cs : List (Checked V))
      → count (is_mislabelled engine value.root_instance_id) cs ≡ 0
      → acceptance + length cs ≤ value.next_acceptance_sequence
      → queue + length cs ≤ value.next_queue_sequence
      → count (unfit engine value) (added acceptance queue cs) ≡ 0
  unfolding added
  fit-added acceptance queue [] h le le' = refl
  fit-added acceptance queue (c ∷ cs) h le le' =
      ground (arith, fit-added (acceptance + 1) (queue + 1) cs)
