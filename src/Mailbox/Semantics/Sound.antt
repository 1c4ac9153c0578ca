-- ===== src/Mailbox/Semantics/Sound.antt =====
-- What `validate_mailbox_semantics` of format1/v1.rs knows of the mailboxes that it accepts.
use determa_state_rust.Prelude.{
  eq_iff, ◌&&◌, Elem, Every, true, none, some, List, [], ◌∷◌, ◌≡◌, arith, Bool-cases, Option-cases,
  inl, inr,
}
use determa_state_rust.Mailbox.Records.{
  Delivery, ok, Result-cases, Entry, RuntimeRecord, Document, NativeAggregate, Engine,
}
use determa_state_rust.Mailbox.Documents.{find_runtime}
use determa_state_rust.Mailbox.Sources.{target_eq, source_is_valid, core_delivery}
use determa_state_rust.Mailbox.Step.Recall.{runtimes_of}
use determa_state_rust.Mailbox.Semantics.Sourced.{
  IsSourced, equal_of_target_eq, valid-IsSourced, held_of_find,
}
use determa_state_rust.Mailbox.Semantics.{
  str_eq, ResolvedDefinition, Definitions, delivery_of_entry, validate_restored_source,
  check_queued, check_mailbox, trusted_definition, check_records, validate_mailbox_semantics,
}

module _ {B V P M F : Type 0} (engine : Engine V P M F) (definitions : Definitions B V P M)
    (value : Document V M) (state : NativeAggregate V M) where
  -- An entry that names its runtime, has a known source, and has a form for the engine that the engine takes.
  abbrev pub IsAtHome : B → RuntimeRecord V M → Entry V → Type 0
  IsAtHome bundle runtime entry =
      (entry.envelope.target ≡ runtime.target_identity)
      × IsSourced entry.delivery_mode entry.envelope value.runtimes
      × (delivery : Delivery P) × (core_delivery engine (delivery_of_entry entry) ≡ ok delivery)
      × (definitions.validate_queued_event_for_migration bundle state delivery ≡ none)

  queued_lem :
      (bundle : B) (runtime : RuntimeRecord V M) (entry : Entry V)
      → check_queued engine definitions value state bundle runtime entry ≡ ok tt
      → IsAtHome bundle runtime entry
  unfolding check_queued validate_restored_source
  queued_lem bundle runtime entry h =
      let target = entry.envelope.target in
      let valid = source_is_valid entry.delivery_mode entry.envelope value.runtimes in
      elim (Result-cases (engine.check_target target)) [
        | inr (x, e) ↦ absurd (cc)
        | inl (tt, e) ↦ elim (Bool-cases (target_eq target runtime.target_identity)) [
          | inr e₁ ↦ absurd (cc)
          | inl e₁ ↦ elim (Bool-cases valid) [
            | inr e₂ ↦ absurd (cc)
            | inl e₂ ↦ elim (Result-cases (core_delivery engine (delivery_of_entry entry))) [
              | inr (x, e₃) ↦ absurd (cc)
              | inl (delivery, e₃) ↦
                  elim (Option-cases
                    (definitions.validate_queued_event_for_migration bundle state delivery)) [
                      | inr (code, e₄) ↦ absurd (cc)
                      | inl e₄ ↦ (
                        equal_of_target_eq target runtime.target_identity e₁,
                        valid-IsSourced entry.delivery_mode entry.envelope value.runtimes e₂,
                        delivery,
                        e₃,
                        e₄,
                      )
                    ]
            ]
          ]
        ]
      ]

  mailbox_lem :
      (bundle : B) (runtime : RuntimeRecord V M) (es : List (Entry V))
      → check_mailbox engine definitions value state bundle runtime es ≡ ok tt
      → Every (IsAtHome bundle runtime) es
  unfolding check_mailbox
  mailbox_lem bundle runtime [] h = tt
  mailbox_lem bundle runtime (e ∷ es) h =
      elim (Result-cases (check_queued engine definitions value state bundle runtime e)) [
        | inr (x, n) ↦ absurd (cc)
        | inl (tt, n) ↦ (queued_lem bundle runtime e n, mailbox_lem bundle runtime es (cc))
      ]

  -- The definition that the resolver gives for the runtime's fingerprint.
  abbrev pub IsTrusted : RuntimeRecord V M → ResolvedDefinition B → Type 0
  IsTrusted runtime resolved =
      (definitions.resolve_definition (definitions.current_fingerprint runtime) ≡ some resolved)
      × (resolved.trusted ≡ true)
      × (definitions.fingerprint resolved.bundle ≡ definitions.current_fingerprint runtime)

  trusted_lem :
      (runtime : RuntimeRecord V M) (bundle : B)
      → trusted_definition definitions runtime ≡ ok bundle
      → (resolved : ResolvedDefinition B) × (resolved.bundle ≡ bundle) × IsTrusted runtime resolved
  unfolding trusted_definition
  trusted_lem runtime bundle h =
      let fingerprint = definitions.current_fingerprint runtime in
      elim (Option-cases (definitions.resolve_definition fingerprint)) [
        | inl e ↦ absurd (cc)
        | inr (resolved, e) ↦
            elim (Bool-cases
              (resolved.trusted && str_eq (definitions.fingerprint resolved.bundle) fingerprint)) [
                | inr e₁ ↦ absurd (cc)
                | inl e₁ ↦ (
                  resolved,
                  cc,
                  (
                    e,
                    ground (arith),
                    (eq_iff (definitions.fingerprint resolved.bundle) fingerprint).0
                        (ground (arith)),
                  ),
                )
              ]
      ]

  -- The restored state has the runtime too, and the definition that it stands on is trusted and is the one that
  -- its fingerprint is of. All the entries are at home there.
  pub record IsPlaced (r : RuntimeRecord V M) : Type 0 where
    pub runtime : RuntimeRecord V M
    pub held : Elem runtime (runtimes_of state)
    pub same_id : runtime.runtime_id ≡ r.runtime_id
    pub resolved : ResolvedDefinition B
    pub definition : IsTrusted runtime resolved
    pub ready_at_home : Every (IsAtHome resolved.bundle runtime) r.ready_mailbox
    pub deferred_at_home : Every (IsAtHome resolved.bundle runtime) r.deferred_mailbox

  records_lem :
      (rs : List (RuntimeRecord V M))
      → check_records engine definitions value state rs ≡ ok tt
      → Every IsPlaced rs
  unfolding check_records
  records_lem [] h = tt
  records_lem (r ∷ rs) h = elim (Option-cases (find_runtime r.runtime_id (runtimes_of state))) [
    | inl e ↦ absurd (cc)
    | inr (runtime, e) ↦ elim (Result-cases (trusted_definition definitions runtime)) [
      | inr (x, e₁) ↦ absurd (cc)
      | inl (bundle, e₁) ↦
          let mailbox = check_mailbox engine definitions value state bundle runtime in
          elim (Result-cases (mailbox r.ready_mailbox)) [
            | inr (x, e₂) ↦ absurd (cc)
            | inl (tt, e₂) ↦ elim (Result-cases (mailbox r.deferred_mailbox)) [
              | inr (x, e₃) ↦ absurd (cc)
              | inl (tt, e₃) ↦
                  let found = held_of_find r.runtime_id (runtimes_of state) runtime e in
                  let (resolved, same, trusted) = trusted_lem runtime bundle e₁ in
                  (
                    record {
                      runtime = runtime;
                      held = found.0;
                      same_id = found.1;
                      resolved = resolved;
                      definition = trusted;
                      ready_at_home = rw same (mailbox_lem bundle runtime r.ready_mailbox e₂);
                      deferred_at_home = rw same (mailbox_lem bundle runtime r.deferred_mailbox e₃);
                    },
                    records_lem rs (cc),
                  )
            ]
          ]
    ]
  ]

  -- Of an accepted document, each runtime stands in the restored state under its id, on a definition that the
  -- resolver trusts and whose fingerprint is the runtime's. Each of its entries names that runtime as its
  -- target; it is a host's input that is its own cause, or an internal event sent by a runtime that the
  -- document holds or by the engine under a locator that sends such events; and the engine's check of a
  -- queued event takes it.
  pub semantics-ArePlaced :
      validate_mailbox_semantics engine definitions value state ≡ ok tt
      → Every IsPlaced value.runtimes
  unfolding validate_mailbox_semantics
  semantics-ArePlaced h = records_lem value.runtimes h
