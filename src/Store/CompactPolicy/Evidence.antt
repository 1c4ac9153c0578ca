-- ===== src/Store/CompactPolicy/Evidence.antt =====
-- Compact outbox retention keeps the outcome of every effect that a receipt still names.
use determa_state_rust.Prelude.{
  String, Bool, true, false, not, Option, none, some, List, [], ◌∷◌, ◌≡◌, inl, inr, refl, sym, ◌∙◌,
  ◌&&◌, ◌||◌, str_eq, eq_iff, any, find, Bool-cases, if◌then◌else◌, arith,
}
use determa_state_rust.Store.Records.{StoreError, Stored, ok, err, store_failure}
use determa_state_rust.Checkpoint.Records.{
  Hashing, TerminalOutboxOutcome, outcome_eq, eq-of-outcome_eq, TerminalRecord, EffectTombstone,
  Unsigned,
}
use determa_state_rust.Checkpoint.Outbox.{is_terminal_of, is_tombstone_of}
use determa_state_rust.Checkpoint.Outbox.Effects.{has_outcome}
use determa_state_rust.Store.CompactPolicy.{
  JsonEquality, receipt_references_effect, compact_tombstone_matches, is_matched, keep_tombstones,
  keep_terminals, and_then, validate_compact_retention_transition,
}

pub any-of_member :
    {A : Type 0} (eq : JsonEquality A) (p : A → Bool) (x : A) (l : List A)
    → any (eq.equal x) l ≡ true
    → p x ≡ true
    → any p l ≡ true
any-of_member eq p x [] h px = cc
any-of_member eq p x (y ∷ l) h px = elim (Bool-cases (eq.equal x y)) [
  | inl a ↦
      let e : x ≡ y = (eq.equal_iff x y).0 a in let py : p y ≡ true = rw (sym e) px in ground arith
  | inr a ↦ ground (arith, any-of_member eq p x l (ground arith) px)
]

pub any-of_find :
    {A : Type 0} (q p : A → Bool) (x : A) (l : List A)
    → find q l ≡ some x
    → p x ≡ true
    → any p l ≡ true
any-of_find q p x [] h px = cc
any-of_find q p x (y ∷ l) h px = elim (Bool-cases (q y)) [
  | inl a ↦
      let found : some y ≡ some x = rw a at h in
      let e : y ≡ x = cc in let py : p y ≡ true = rw e px in ground arith
  | inr a ↦ ground (arith, any-of_find q p x l (rw a at h) px)
]

passed :
    (b : Bool) (e : StoreError) (x : Stored Unit)
    → (if b then err e else x) ≡ ok tt
    → (b ≡ false) × (x ≡ ok tt)
passed true e x h = cc
passed false e x h = (refl, h)

abbrev names_outcome : String → TerminalOutboxOutcome → EffectTombstone → Bool
names_outcome e o r = is_tombstone_of e r && outcome_eq r.outcome o

module _ {V R M : Type 0} (tombstones : JsonEquality EffectTombstone) where
  tombstone_stays :
      (after : Unsigned V R M) (ts : List EffectTombstone) (e : String) (o : TerminalOutboxOutcome)
      → keep_tombstones tombstones after ts ≡ ok tt
      → receipt_references_effect after e ≡ true
      → any (names_outcome e o) ts ≡ true
      → any (names_outcome e o) after.outbox_effect_tombstones ≡ true
  unfolding keep_tombstones
  tombstone_stays after [] e o h r a = cc
  tombstone_stays after (t ∷ ts) e o h r a =
      let (held, rest) = passed _ _ (keep_tombstones tombstones after ts) h in
      elim (Bool-cases (names_outcome e o t)) [
        | inl n ↦
            let same : t.effect_id ≡ e = (eq_iff t.effect_id e).0 (ground arith) in
            let named : receipt_references_effect after t.effect_id ≡ true = rw same r in
            any-of_member tombstones (names_outcome e o) t after.outbox_effect_tombstones
              (ground arith) n
        | inr n ↦ tombstone_stays after ts e o rest r (ground arith)
      ]

module _ {V R M : Type 0} (hashing : Hashing V) where
  matched_outcome :
      (before : Unsigned V R M) (t : TerminalRecord V) (e : String) (o : TerminalOutboxOutcome)
      (l : List EffectTombstone) (found : Option EffectTombstone)
      → find (is_tombstone_of t.intent.effect_id) l ≡ found
      → t.intent.effect_id ≡ e
      → outcome_eq t.outcome o ≡ true
      → is_matched hashing before t found ≡ true
      → any (names_outcome e o) l ≡ true
  unfolding compact_tombstone_matches
  matched_outcome before t e o l none f same out m = cc
  matched_outcome before t e o l (some x) f same out m =
      let outcomes : t.outcome ≡ x.outcome = eq-of-outcome_eq t.outcome x.outcome (ground arith) in
      let ids : t.intent.effect_id ≡ x.effect_id =
        (eq_iff t.intent.effect_id x.effect_id).0 (ground arith) in
      let named : str_eq x.effect_id e ≡ true = (eq_iff x.effect_id e).1 (sym ids ∙ same) in
      let final : outcome_eq x.outcome o ≡ true = rw (sym outcomes) out in
      any-of_find (is_tombstone_of t.intent.effect_id) (names_outcome e o) x l f (ground arith)

module _ {V R M : Type 0} (hashing : Hashing V) (terminals : JsonEquality (TerminalRecord V)) where
  terminal_case :
      (before after : Unsigned V R M) (t : TerminalRecord V) (rest : Stored Unit) (e : String)
      (o : TerminalOutboxOutcome)
      → (if not (receipt_references_effect after t.intent.effect_id)
            || any (terminals.equal t) after.terminal_outbox_records
          then rest
          else if is_matched hashing before t
              (find (is_tombstone_of t.intent.effect_id) after.outbox_effect_tombstones)
          then rest
          else err (
              store_failure
                "compact outbox retention requires full intent or matching tombstone evidence"))
        ≡ ok tt
      → receipt_references_effect after e ≡ true
      → t.intent.effect_id ≡ e
      → outcome_eq t.outcome o ≡ true
      → has_outcome after e o ≡ true
  terminal_case before after t rest e o h r same out =
      let named : receipt_references_effect after t.intent.effect_id ≡ true = rw same r in
      elim (Bool-cases (any (terminals.equal t) after.terminal_outbox_records)) [
        | inl a ↦ ground (
          arith,
          any-of_member terminals (λ x. is_terminal_of e x && outcome_eq x.outcome o) t
              after.terminal_outbox_records a (ground (arith, eq_iff t.intent.effect_id e)),
        )
        | inr a ↦ ground (
          arith,
          matched_outcome hashing before t e o after.outbox_effect_tombstones _ refl same out
              (ground arith),
        )
      ]

  terminal_stays :
      (before after : Unsigned V R M) (ts : List (TerminalRecord V)) (e : String)
      (o : TerminalOutboxOutcome)
      → keep_terminals hashing terminals before after ts ≡ ok tt
      → receipt_references_effect after e ≡ true
      → any (λ r. is_terminal_of e r && outcome_eq r.outcome o) ts ≡ true
      → has_outcome after e o ≡ true
  unfolding keep_terminals
  terminal_stays before after [] e o h r a = cc
  terminal_stays before after (t ∷ ts) e o h r a =
      elim (Bool-cases (is_terminal_of e t && outcome_eq t.outcome o)) [
        | inl n ↦
            terminal_case before after t (keep_terminals hashing terminals before after ts) e o h r
              ((eq_iff t.intent.effect_id e).0 (ground arith)) (ground arith)
        | inr n ↦ terminal_stays before after ts e o (ground arith) r (ground arith)
      ]

both_passed : (a b : Stored Unit) → and_then a b ≡ ok tt → (a ≡ ok tt) × (b ≡ ok tt)
both_passed (ok u) b h = (refl, h)
both_passed (err e) b h = cc

-- What compact retention is for: if a store with this policy accepts a replacement, then every effect that
-- a receipt of the replacement still names keeps the outcome it had, in a terminal record or a tombstone.
pub accepted_keeps_outcomes :
    {V R M : Type 0} (hashing : Hashing V) (terminals : JsonEquality (TerminalRecord V))
    (tombstones : JsonEquality EffectTombstone) (before after : Unsigned V R M) (e : String)
    (o : TerminalOutboxOutcome)
    → validate_compact_retention_transition hashing terminals tombstones before after ≡ ok tt
    → receipt_references_effect after e ≡ true
    → has_outcome before e o ≡ true
    → has_outcome after e o ≡ true
unfolding validate_compact_retention_transition
accepted_keeps_outcomes hashing terminals tombstones before after e o h r has =
    let (kept_tombstones, kept_terminals) =
      both_passed (keep_tombstones tombstones after before.outbox_effect_tombstones) _ h in
    elim (Bool-cases
      (any (λ x. is_terminal_of e x && outcome_eq x.outcome o) before.terminal_outbox_records)) [
        | inl a ↦
            terminal_stays hashing terminals before after before.terminal_outbox_records e o
              kept_terminals r a
        | inr a ↦ ground (
          arith,
          tombstone_stays tombstones after before.outbox_effect_tombstones e o kept_tombstones r
              (ground arith),
        )
      ]
