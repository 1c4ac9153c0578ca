-- ===== src/Mailbox/Semantics/Sourced.antt =====
-- What the tests of targets and sources in format1/v1.rs say, without the tests.
use determa_state_rust.Prelude.{
  String, true, some, List, [], ◌∷◌, ◌≡◌, ◌⊎◌, inl, inr, refl, str_eq, eq_iff, any, Elem, arith,
  Bool-cases, ◌&&◌, ==_iff,
}
use determa_state_rust.Mailbox.Records.{
  Target, root, spawned_instance, component, external, Source, host, runtime, system, malformed,
  QueueEnvelope, RuntimeRecord,
}
use determa_state_rust.Mailbox.Documents.{find_runtime, has_id}
use determa_state_rust.Mailbox.Sources.{
  target_eq, system_locator_matches_event, is_internal_source, source_is_valid, is_host,
}

pub equal_of_target_eq : (a b : Target) → target_eq a b ≡ true → a ≡ b
unfolding target_eq
equal_of_target_eq (root a b) (root c d) h =
    let e = (eq_iff a c).0 (ground (arith)) in let f = (eq_iff b d).0 (ground (arith)) in cc
equal_of_target_eq (spawned_instance r) (spawned_instance s) h =
    let e = (eq_iff r.root_instance_id s.root_instance_id).0 (ground (arith)) in
    let f = (eq_iff r.instance_id s.instance_id).0 (ground (arith)) in
    let g = (eq_iff r.machine_id s.machine_id).0 (ground (arith)) in
    let k = (eq_iff r.machine_version s.machine_version).0 (ground (arith)) in cc
equal_of_target_eq (component a b c d n) (component a' b' c' d' n') h =
    let e = (eq_iff a a').0 (ground (arith)) in
    let f = (eq_iff b b').0 (ground (arith)) in
    let g = (eq_iff c c').0 (ground (arith)) in
    let k = (eq_iff d d').0 (ground (arith)) in let l = (==_iff n n').0 (ground (arith)) in cc
equal_of_target_eq external external h = refl
equal_of_target_eq (root a b) (spawned_instance s) h = cc
equal_of_target_eq (root a b) (component a' b' c' d' n') h = cc
equal_of_target_eq (root a b) external h = cc
equal_of_target_eq (spawned_instance r) (root c d) h = cc
equal_of_target_eq (spawned_instance r) (component a' b' c' d' n') h = cc
equal_of_target_eq (spawned_instance r) external h = cc
equal_of_target_eq (component a b c d n) (root c' d') h = cc
equal_of_target_eq (component a b c d n) (spawned_instance s) h = cc
equal_of_target_eq (component a b c d n) external h = cc
equal_of_target_eq external (root c d) h = cc
equal_of_target_eq external (spawned_instance s) h = cc
equal_of_target_eq external (component a' b' c' d' n') h = cc

pub record SystemEvent : Type 0 where
  pub locator : String
  pub event : String

abbrev pub sent_as : String → String → SystemEvent
sent_as locator event = record { locator = locator; event = event }

-- The locators that the engine sends events under, each with an event.
abbrev pub system_events : List SystemEvent
system_events =
    sent_as "system:component_completion" "determa.component_completed"
    ∷ sent_as "system:component_completion" "done"
    ∷ sent_as "system:spawned_completion" "done"
    ∷ sent_as "system:component_failure" "determa.component_failed"
    ∷ sent_as "system:spawned_failure" "determa.spawned_instance_failed"
    ∷ []

pair_is : (a b c d : String) → (str_eq a c && str_eq b d) ≡ true → sent_as a b ≡ sent_as c d
pair_is a b c d h =
    let e = (eq_iff a c).0 (ground (arith)) in let f = (eq_iff b d).0 (ground (arith)) in cc

system_event_known :
    (locator event : String)
    → system_locator_matches_event locator event ≡ true
    → Elem (sent_as locator event) system_events
unfolding system_locator_matches_event
system_event_known l e h =
    elim (Bool-cases
      (str_eq l "system:component_completion" && str_eq e "determa.component_completed")) [
        | inl a ↦ inl (pair_is l e _ _ a)
        | inr n ↦ elim (Bool-cases (str_eq l "system:component_completion" && str_eq e "done")) [
          | inl a ↦ inr (inl (pair_is l e _ _ a))
          | inr n₁ ↦ elim (Bool-cases (str_eq l "system:spawned_completion" && str_eq e "done")) [
            | inl a ↦ inr (inr (inl (pair_is l e _ _ a)))
            | inr n₂ ↦
                elim (Bool-cases
                  (str_eq l "system:component_failure" && str_eq e "determa.component_failed")) [
                    | inl a ↦ inr (inr (inr (inl (pair_is l e _ _ a))))
                    | inr n₃ ↦ inr (inr (inr (inr (inl (pair_is l e _ _ (ground (arith)))))))
                  ]
          ]
        ]
      ]

host_is : (s : Source) → is_host s ≡ true → s ≡ host
host_is host h = refl
host_is (runtime identity) h = cc
host_is (system locator) h = cc
host_is malformed h = cc

module _ {V M : Type 0} where
  -- A host's event, which is its own cause; an event of a runtime that the document holds; or an event of the
  -- engine.
  abbrev pub IsSourced : String → QueueEnvelope V → List (RuntimeRecord V M) → Type 0
  IsSourced mode envelope runtimes =
      ((mode ≡ "input") × (envelope.source ≡ host) × (envelope.cause_id ≡ envelope.event_id))
      ⊎ ((mode ≡ "internal")
          × (r : RuntimeRecord V M) × Elem r runtimes
          × (envelope.source ≡ runtime r.target_identity))
      ⊎ ((mode ≡ "internal")
          × (locator : String) × (envelope.source ≡ system locator)
          × Elem (sent_as locator envelope.event) system_events)

  sender_held :
      (identity : Target) (rs : List (RuntimeRecord V M))
      → any (λ (r : RuntimeRecord V M). target_eq r.target_identity identity) rs ≡ true
      → (r : RuntimeRecord V M) × Elem r rs × (r.target_identity ≡ identity)
  sender_held identity [] h = cc
  sender_held identity (r ∷ rs) h = elim (Bool-cases (target_eq r.target_identity identity)) [
    | inl e ↦ (r, inl refl, equal_of_target_eq r.target_identity identity e)
    | inr e ↦
        let (found, held, same) = sender_held identity rs (ground (arith)) in
        (found, inr held, same)
  ]

  internal_IsSourced :
      (mode : String) (envelope : QueueEnvelope V) (rs : List (RuntimeRecord V M)) (s : Source)
      → mode ≡ "internal"
      → envelope.source ≡ s
      → is_internal_source rs envelope s ≡ true
      → IsSourced mode envelope rs
  unfolding is_internal_source
  internal_IsSourced mode envelope rs (runtime identity) e same h =
      let (r, held, own) = sender_held identity rs h in inr (inl (e, r, held, cc))
  internal_IsSourced mode envelope rs (system locator) e same h =
      inr (inr (e, locator, same, system_event_known locator envelope.event h))
  internal_IsSourced mode envelope rs host e same h = cc
  internal_IsSourced mode envelope rs malformed e same h = cc

  pub valid-IsSourced :
      (mode : String) (envelope : QueueEnvelope V) (rs : List (RuntimeRecord V M))
      → source_is_valid mode envelope rs ≡ true
      → IsSourced mode envelope rs
  unfolding source_is_valid
  valid-IsSourced mode envelope rs h = elim (Bool-cases (str_eq mode "input")) [
    | inl e ↦ inl (
      (eq_iff mode "input").0 e,
      host_is envelope.source (ground (arith)),
      (eq_iff envelope.cause_id envelope.event_id).0 (ground (arith)),
    )
    | inr e ↦ elim (Bool-cases (str_eq mode "internal")) [
      | inl e₁ ↦
          internal_IsSourced mode envelope rs envelope.source ((eq_iff mode "internal").0 e₁) refl
            (ground (arith))
      | inr e₁ ↦ absurd (ground (arith))
    ]
  ]

  pub held_of_find :
      (id : String) (rs : List (RuntimeRecord V M)) (r : RuntimeRecord V M)
      → find_runtime id rs ≡ some r
      → Elem r rs × (r.runtime_id ≡ id)
  held_of_find id [] r h = cc
  held_of_find id (x ∷ rs) r h = elim (Bool-cases (has_id id x)) [
    | inl e ↦
        let found : some x ≡ some r = rw e at h in
        let same : r ≡ x = cc in (inl same, rw same ((eq_iff x.runtime_id id).0 e))
    | inr e ↦ let rest = held_of_find id rs r (rw e at h) in (inr rest.0, rest.1)
  ]
