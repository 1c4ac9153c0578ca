-- ===== src/Store/CompactPolicy/Calls.antt =====
-- The outbox operations of checkpoint/v1.rs keep what compact outbox retention demands.
use determa_state_rust.Prelude.{
  Option-cases, String, Bool, true, false, not, some, List, [], ◌∷◌, ◌++◌, ◌≡◌, ◌⊎◌, inl, inr, refl,
  sym, ap, ◌∙◌, ◌&&◌, eq_iff, any, find, Every, Bool-cases, arith,
}
use determa_state_rust.Store.Records.{ok}
use determa_state_rust.Checkpoint.Records.{
  Hashing, OutboxIntent, outcome_eq_refl, TerminalRecord, EffectTombstone, Unsigned,
  ExecutionCheckpoint, Artifact,
}
use determa_state_rust.Checkpoint.ByKey.{sort_by_key, any-sort_by_key, any-append}
use determa_state_rust.Checkpoint.Seal
use determa_state_rust.Store.CompactPolicy
use determa_state_rust.Checkpoint.Seal.{Sealing, with_sorted_receipts}
use determa_state_rust.Checkpoint.Outbox.{
  take_first, is_terminal_of, is_tombstone_of, updated, terminalized, compacted,
}
use determa_state_rust.Checkpoint.Outbox.Cases.{
  update_pending_cases, terminalize_cases, compact_cases,
}
use determa_state_rust.Checkpoint.Outbox.Taken.{taken}
use determa_state_rust.Checkpoint.Outbox.Replay.{compact_again}
use determa_state_rust.Checkpoint.Outbox.Effects.{
  OutboxCall, updating, terminalizing, compacting, run,
}
use determa_state_rust.Store.CompactPolicy.{
  JsonEquality, compact_tombstone_matches, is_matched, keep_tombstones, keep_terminals,
  validate_compact_retention_transition,
}

module _ {A : Type 0} (eq : JsonEquality A) where
  abbrev pub AreIn : List A → List A → Type 0
  AreIn ts l = Every (λ t. any (eq.equal t) l ≡ true) ts

  AreIn-of_any :
      (ts l : List A)
      → ((x : A) → any (eq.equal x) ts ≡ true → any (eq.equal x) l ≡ true)
      → AreIn ts l
  AreIn-of_any [] l f = tt
  AreIn-of_any (t ∷ ts) l f = (
    f t (ground (arith, (eq.equal_iff t t).1 refl)),
    AreIn-of_any ts l (λ x h. f x (ground arith)),
  )

  AreIn-self : (l : List A) → AreIn l l
  AreIn-self l = AreIn-of_any l l (λ x h. h)

module _ {V R M : Type 0} (tombstones : JsonEquality EffectTombstone) where
  tombstones_pass :
      (after : Unsigned V R M) (ts : List EffectTombstone)
      → AreIn tombstones ts after.outbox_effect_tombstones
      → keep_tombstones tombstones after ts ≡ ok tt
  unfolding keep_tombstones
  tombstones_pass after [] h = refl
  tombstones_pass after (t ∷ ts) h = ground (arith, h.0, tombstones_pass after ts h.1)

module _ {V R M : Type 0} (hashing : Hashing V) (terminals : JsonEquality (TerminalRecord V)) where
  -- The record stays, or a tombstone that is found for it matches it.
  abbrev IsCovered : Unsigned V R M → Unsigned V R M → TerminalRecord V → Type 0
  IsCovered before after t =
      (any (terminals.equal t) after.terminal_outbox_records ≡ true)
      ⊎ (is_matched hashing before t
            (find (is_tombstone_of t.intent.effect_id) after.outbox_effect_tombstones)
          ≡ true)

  terminals_pass :
      (before after : Unsigned V R M) (ts : List (TerminalRecord V))
      → Every (IsCovered before after) ts
      → keep_terminals hashing terminals before after ts ≡ ok tt
  unfolding keep_terminals
  terminals_pass before after [] h = refl
  terminals_pass before after (t ∷ ts) h = elim h.0 [
    | inl a ↦ ground (arith, a, terminals_pass before after ts h.1)
    | inr a ↦ ground (arith, a, terminals_pass before after ts h.1)
  ]

  Covered-of_AreIn :
      (before after : Unsigned V R M) (ts : List (TerminalRecord V))
      → AreIn terminals ts after.terminal_outbox_records
      → Every (IsCovered before after) ts
  Covered-of_AreIn before after [] h = tt
  Covered-of_AreIn before after (t ∷ ts) h = (inl h.0, Covered-of_AreIn before after ts h.1)

-- The only element that passes is the one that is found.
find_only :
    (q : EffectTombstone → Bool) (eq : JsonEquality EffectTombstone) (y : EffectTombstone)
    (l : List EffectTombstone)
    → any q l ≡ true
    → any (λ z. q z && not (eq.equal z y)) l ≡ false
    → find q l ≡ some y
find_only q eq y [] h n = cc
find_only q eq y (x ∷ l) h n = elim (Bool-cases (q x)) [
  | inl a ↦ let e : x ≡ y = (eq.equal_iff x y).0 (ground arith) in rw a (ap some e)
  | inr a ↦ rw a (find_only q eq y l (ground arith) (ground arith))
]

none_other :
    (q r : EffectTombstone → Bool) (l : List EffectTombstone)
    → any q l ≡ false
    → any (λ z. q z && r z) l ≡ false
none_other q r [] h = refl
none_other q r (x ∷ l) h = ground (arith, none_other q r l (ground arith))

-- The tombstone that compacting an effect leaves.
abbrev tombstone_for : {V : Type 0} → TerminalRecord V → String → String → EffectTombstone
tombstone_for x e d = record {
  terminal_sequence = x.terminal_sequence;
  effect_id = e;
  intent_digest = d;
  committed_revision = x.committed_revision;
  outcome = x.outcome;
}

module _ (eq : JsonEquality EffectTombstone) where
  find_added :
      (e : String) (new : EffectTombstone) (ts : List EffectTombstone)
      → new.effect_id ≡ e
      → any (is_tombstone_of e) ts ≡ false
      → find (is_tombstone_of e) (sort_by_key EffectTombstone.terminal_sequence (ts ++ (new ∷ [])))
        ≡ some new
  find_added e new ts same fresh =
      find_only (is_tombstone_of e) eq new _
        (any-sort_by_key EffectTombstone.terminal_sequence (is_tombstone_of e) _
          ∙ any-append (is_tombstone_of e) ts (new ∷ [])
          ∙ ground (arith, eq_iff new.effect_id e))
        (any-sort_by_key EffectTombstone.terminal_sequence
            (λ z. is_tombstone_of e z && not (eq.equal z new)) _
          ∙ any-append (λ z. is_tombstone_of e z && not (eq.equal z new)) ts (new ∷ [])
          ∙ ground (
            arith,
            eq.equal_iff new new,
            none_other (is_tombstone_of e) (λ z. not (eq.equal z new)) ts fresh,
          ))

-- The digest that a tombstone is given is the one that the store computes.
digests_agree :
    {V : Type 0} (hashing : Hashing V) (root_instance_id : String) (intent : OutboxIntent V)
    (d : String)
    → Seal.outbox_intent_digest hashing root_instance_id intent ≡ Artifact.ok d
    → CompactPolicy.outbox_intent_digest hashing root_instance_id intent ≡ ok d
unfolding Seal.outbox_intent_digest CompactPolicy.outbox_intent_digest
digests_agree hashing root_instance_id intent d h =
    elim (Option-cases (
      hashing.to_vec (record {
        tag = "determa-outbox-intent-digest-1";
        version = "1";
        root_instance_id = root_instance_id;
        intent = intent;
      }))) [ inl e ↦ absurd (cc) | inr (bytes, e) ↦ cc ]

module _ {V R M : Type 0} (hashing : Hashing V) where
  added_matches :
      (v : Unsigned V R M) (x : TerminalRecord V) (e d : String)
      → x.intent.effect_id ≡ e
      → Seal.outbox_intent_digest hashing v.root_instance_id x.intent ≡ Artifact.ok d
      → compact_tombstone_matches hashing v x (tombstone_for x e d) ≡ true
  unfolding compact_tombstone_matches
  added_matches v x e d same digested =
      let agrees = digests_agree hashing v.root_instance_id x.intent d digested in
      rw agrees (ground (arith, eq_iff x.intent.effect_id e, eq_iff d d, outcome_eq_refl x.outcome))

module _ {V R M : Type 0} (hashing : Hashing V) (terminals : JsonEquality (TerminalRecord V)) where
  Covered-of_any :
      (before after : Unsigned V R M) (ts : List (TerminalRecord V))
      → ((y : TerminalRecord V)
          → any (terminals.equal y) ts ≡ true
          → IsCovered hashing terminals before after y)
      → Every (IsCovered hashing terminals before after) ts
  Covered-of_any before after [] f = tt
  Covered-of_any before after (t ∷ ts) f = (
    f t (ground (arith, (terminals.equal_iff t t).1 refl)),
    Covered-of_any before after ts (λ y h. f y (ground arith)),
  )

pub validated :
    {V R M : Type 0} (hashing : Hashing V) (terminals : JsonEquality (TerminalRecord V))
    (tombstones : JsonEquality EffectTombstone) (before after : Unsigned V R M)
    → keep_tombstones tombstones after before.outbox_effect_tombstones ≡ ok tt
    → keep_terminals hashing terminals before after before.terminal_outbox_records ≡ ok tt
    → validate_compact_retention_transition hashing terminals tombstones before after ≡ ok tt
unfolding validate_compact_retention_transition
validated hashing terminals tombstones before after a b = rw a b

module _ {V R M : Type 0} (env : Sealing V R M) (terminals : JsonEquality (TerminalRecord V))
    (tombstones : JsonEquality EffectTombstone) where
  abbrev Passes : ExecutionCheckpoint V R M → Unsigned V R M → Type 0
  Passes c after =
      validate_compact_retention_transition env.hashing terminals tombstones c.value after ≡ ok tt

  unchanged-Passes :
      (c : ExecutionCheckpoint V R M) (after : Unsigned V R M)
      → after.outbox_effect_tombstones ≡ c.value.outbox_effect_tombstones
      → after.terminal_outbox_records ≡ c.value.terminal_outbox_records
      → Passes c after
  unchanged-Passes c after a b =
      validated env.hashing terminals tombstones c.value after
        (tombstones_pass tombstones after c.value.outbox_effect_tombstones
          (rw a (AreIn-self tombstones c.value.outbox_effect_tombstones)))
        (terminals_pass env.hashing terminals c.value after c.value.terminal_outbox_records (
          Covered-of_AreIn env.hashing terminals c.value after c.value.terminal_outbox_records
            (rw b (AreIn-self terminals c.value.terminal_outbox_records))))

  added-Passes :
      (c : ExecutionCheckpoint V R M) (after : Unsigned V R M) (x : TerminalRecord V)
      → after.outbox_effect_tombstones ≡ c.value.outbox_effect_tombstones
      → after.terminal_outbox_records ≡ c.value.terminal_outbox_records ++ (x ∷ [])
      → Passes c after
  added-Passes c after x a b =
      validated env.hashing terminals tombstones c.value after
        (tombstones_pass tombstones after c.value.outbox_effect_tombstones
          (rw a (AreIn-self tombstones c.value.outbox_effect_tombstones)))
        (terminals_pass env.hashing terminals c.value after c.value.terminal_outbox_records (
          Covered-of_AreIn env.hashing terminals c.value after c.value.terminal_outbox_records (
            rw b (
              AreIn-of_any terminals c.value.terminal_outbox_records _ (λ y h.
                any-append (terminals.equal y) c.value.terminal_outbox_records (x ∷ [])
                ∙ ground (arith, h))))))

  compacted-Passes :
      (c : ExecutionCheckpoint V R M) (e d : String) (x : TerminalRecord V)
      (others : List (TerminalRecord V))
      → any (is_tombstone_of e) c.value.outbox_effect_tombstones ≡ false
      → take_first (is_terminal_of e) c.value.terminal_outbox_records ≡ some (x, others)
      → Seal.outbox_intent_digest env.hashing c.value.root_instance_id x.intent ≡ Artifact.ok d
      → Passes c (with_sorted_receipts (compacted c e d x others))
  compacted-Passes c e d x others fresh t digested =
      let (passes, anys, counts) =
        taken (is_terminal_of e) c.value.terminal_outbox_records x others t in
      let after = with_sorted_receipts (compacted c e d x others) in
      let same : x.intent.effect_id ≡ e = (eq_iff x.intent.effect_id e).0 passes in
      let found : find (is_tombstone_of x.intent.effect_id) after.outbox_effect_tombstones
          ≡ some (tombstone_for x e d) =
        rw same (
          find_added tombstones e (tombstone_for x e d) c.value.outbox_effect_tombstones refl
            fresh) in
      validated env.hashing terminals tombstones c.value after
        (tombstones_pass tombstones after c.value.outbox_effect_tombstones (
          AreIn-of_any tombstones c.value.outbox_effect_tombstones _ (λ y h.
            any-sort_by_key EffectTombstone.terminal_sequence (tombstones.equal y) _
            ∙ any-append (tombstones.equal y) c.value.outbox_effect_tombstones _
            ∙ ground (arith, h))))
        (terminals_pass env.hashing terminals c.value after c.value.terminal_outbox_records (
          Covered-of_any env.hashing terminals c.value after c.value.terminal_outbox_records (λ y h.
            elim (Bool-cases (terminals.equal y x)) [
              | inl a ↦
                  rw ((terminals.equal_iff y x).0 a)
                    (inr (rw found (added_matches env.hashing c.value x e d same digested)))
              | inr a ↦ inl (ground (arith, anys (terminals.equal y), h))
            ])))

  -- What updating, terminalizing or compacting an effect makes of a checkpoint passes the store's test of
  -- compact outbox retention on a replacement, which computes an intent's digest by a function of its own.
  pub calls_pass :
      (c c' : ExecutionCheckpoint V R M) (call : OutboxCall)
      → run env c call ≡ Artifact.ok c'
      → Passes c c'.value
  calls_pass c c' (updating e state revision digest) h =
      elim (update_pending_cases env c c' e state revision digest h) [
        | inl (a, x, f, b) ↦ rw a (unchanged-Passes c c.value refl refl)
        | inr (a, (g, w)) ↦
            rw w (unchanged-Passes c (with_sorted_receipts (updated c e state)) refl refl)
      ]
  calls_pass c c' (terminalizing e outcome revision digest) h =
      elim (terminalize_cases env c c' e outcome revision digest h) [
        | inl (a, x, f, b) ↦ rw a (unchanged-Passes c c.value refl refl)
        | inr (f, x, others, t, (g, w)) ↦
            rw w
              (added-Passes c (with_sorted_receipts (terminalized c outcome x others)) _ refl refl)
      ]
  calls_pass c c' (compacting e revision digest) h =
      elim (Bool-cases (any (is_tombstone_of e) c.value.outbox_effect_tombstones)) [
        | inl there ↦
            let same : Artifact.ok c ≡ Artifact.ok c' =
              sym (compact_again env c e revision digest there) ∙ h in
            let same' : c ≡ c' = cc in rw (sym same') (unchanged-Passes c c.value refl refl)
        | inr fresh ↦ elim (compact_cases env c c' e revision digest h) [
          | inl (a, b) ↦ rw a (unchanged-Passes c c.value refl refl)
          | inr (d, x, others, t, digested, (g, w)) ↦
              rw w (compacted-Passes c e d x others fresh t digested)
        ]
      ]
