-- ===== src/Checkpoint/Retained/Once.antt =====
-- An outbox that checkpoint/v1.rs accepts holds each effect once.
use determa_state_rust.Prelude.{
  ℕ, suc, ◌+◌, ◌≤◌, String, Bool, true, false, Option, none, some, List, [], ◌∷◌, ◌≡◌, inl, inr,
  refl, sym, ap, str_eq, eq_iff, Bool-cases, if◌then◌else◌, arith,
}
use determa_state_rust.Checkpoint.Records.{
  PendingRecord, TerminalRecord, EffectTombstone, Unsigned, ExecutionCheckpoint, Artifact, ok,
  bind-ok,
}
use determa_state_rust.Checkpoint.ByKey.{count}
use determa_state_rust.Checkpoint.Seal.{Sealing}
use determa_state_rust.Checkpoint.Outbox.{is_pending_of, is_terminal_of, is_tombstone_of}
use determa_state_rust.Checkpoint.Outbox.Effects.{records_of, OutboxCall, run, effects_are_kept}
use determa_state_rust.Checkpoint.Retained.{
  Seen, has_text, invalid, refuses_pending, with_pending, refuses_terminal, refuses_allocation,
  with_terminal, refuses_tombstone, with_tombstone, check_pending, check_terminal, check_tombstones,
  check_outbox, nothing_seen,
}

abbrev times : String → List String → ℕ
times e l = count (λ d. str_eq d e) l

abbrev AllOnce : List String → Type 0
AllOnce l = (e : String) → times e l ≤ 1

absent : (e : String) (l : List String) → has_text e l ≡ false → times e l ≡ 0
absent e [] h = refl
absent e (d ∷ l) h = ground (arith, absent e l (ground arith))

once_more : (d : String) (l : List String) → has_text d l ≡ false → AllOnce l → AllOnce (d ∷ l)
once_more d l h once e = elim (Bool-cases (str_eq d e)) [
  | inl a ↦
      let same : d ≡ e = (eq_iff d e).0 a in
      let gone : times e l ≡ 0 = absent e l (rw same at h) in ground (arith, gone)
  | inr a ↦ ground (arith, once e)
]

-- The loop added the counted records to the effects, and each effect is still there once.
abbrev Adds : Seen → Seen → (String → ℕ) → Type 0
Adds seen seen' records =
    ((e : String) → times e seen'.effects ≡ times e seen.effects + records e)
    × (AllOnce seen.effects → AllOnce seen'.effects)

not_refused :
    (b : Bool) (message : String) (y : Artifact Seen) (z : Seen)
    → (if b then invalid message else y) ≡ ok z
    → (b ≡ false) × (y ≡ ok z)
not_refused true message y z h = cc
not_refused false message y z h = (refl, h)

-- One more effect, and what the rest of the loop adds.
Adds-step :
    (d : String) (l : List String) (next seen' : Seen) (records : String → ℕ)
    → next.effects ≡ d ∷ l
    → has_text d l ≡ false
    → Adds next seen' records
    → ((e : String)
        → times e seen'.effects ≡ times e l + (if str_eq d e then suc (records e) else records e))
      × (AllOnce l → AllOnce seen'.effects)
Adds-step d l next seen' records same new (sums, once) =
    (λ e. ground (arith, sums e, ap (times e) same), λ was. once (rw same (once_more d l new was)))

Adds-none : (seen seen' : Seen) → ok seen ≡ ok seen' → Adds seen seen' (λ e. 0)
Adds-none seen seen' h =
    let same : seen ≡ seen' = cc in (λ e. rw (sym same) (omega arith), λ once. rw (sym same) once)

module _ {V : Type 0} where
  pending-Adds :
      (revision : ℕ) (prior : Option ℕ) (seen seen' : Seen) (rs : List (PendingRecord V))
      → check_pending revision prior seen rs ≡ ok seen'
      → Adds seen seen' (λ e. count (is_pending_of e) rs)
  unfolding check_pending
  pending-Adds revision prior seen seen' [] h = Adds-none seen seen' h
  pending-Adds revision prior seen seen' (r ∷ rs) h =
      let (new, rest) = not_refused (refuses_pending revision prior seen r) _ _ seen' h in
      Adds-step r.intent.effect_id seen.effects (with_pending seen r) seen'
        (λ e. count (is_pending_of e) rs) refl (ground arith)
        (pending-Adds revision (some r.intent.sequence) (with_pending seen r) seen' rs rest)

  terminal-Adds :
      (revision next : ℕ) (prior : Option ℕ) (seen seen' : Seen) (rs : List (TerminalRecord V))
      → check_terminal revision next prior seen rs ≡ ok seen'
      → Adds seen seen' (λ e. count (is_terminal_of e) rs)
  unfolding check_terminal
  terminal-Adds revision next prior seen seen' [] h = Adds-none seen seen' h
  terminal-Adds revision next prior seen seen' (r ∷ rs) h =
      let (new, more) = not_refused (refuses_terminal revision seen r) _ _ seen' h in
      let (_, rest) = not_refused (refuses_allocation next prior seen r) _ _ seen' more in
      Adds-step r.intent.effect_id seen.effects (with_terminal seen r) seen'
        (λ e. count (is_terminal_of e) rs) refl (ground arith)
        (terminal-Adds revision next (some r.terminal_sequence) (with_terminal seen r) seen' rs
          rest)

tombstones-Adds :
    (next : ℕ) (prior : Option ℕ) (seen seen' : Seen) (rs : List EffectTombstone)
    → check_tombstones next prior seen rs ≡ ok seen'
    → Adds seen seen' (λ e. count (is_tombstone_of e) rs)
unfolding check_tombstones
tombstones-Adds next prior seen seen' [] h = Adds-none seen seen' h
tombstones-Adds next prior seen seen' (r ∷ rs) h =
    let (new, rest) = not_refused (refuses_tombstone next prior seen r) _ _ seen' h in
    Adds-step r.effect_id seen.effects (with_tombstone seen r) seen'
      (λ e. count (is_tombstone_of e) rs) refl (ground arith)
      (tombstones-Adds next (some r.terminal_sequence) (with_tombstone seen r) seen' rs rest)

nothing_seen-AllOnce : AllOnce nothing_seen.effects
nothing_seen-AllOnce e = omega arith

accepted_records :
    {V R M : Type 0} (v : Unsigned V R M) (seen : Seen) (e : String)
    → check_outbox v ≡ ok seen
    → records_of v e ≤ 1
unfolding check_outbox
accepted_records v seen e h =
    let (p, pending, more) =
      bind-ok (check_pending v.revision none nothing_seen v.pending_outbox_intents) _ seen h in
    let (t, terminal, rest) =
      bind-ok
        (check_terminal v.revision v.next_outbox_terminal_sequence none p v.terminal_outbox_records)
        _ seen more in
    let (sum_p, once_p) =
      pending-Adds v.revision none nothing_seen p v.pending_outbox_intents pending in
    let (sum_t, once_t) =
      terminal-Adds v.revision v.next_outbox_terminal_sequence none p t v.terminal_outbox_records
        terminal in
    let (sum_s, once_s) =
      tombstones-Adds v.next_outbox_terminal_sequence none t seen v.outbox_effect_tombstones rest in
    let last : times e seen.effects ≤ 1 = once_s (once_t (once_p nothing_seen-AllOnce)) e in
    ground (arith, last, sum_p e, sum_t e, sum_s e)

-- Each effect stands once in an outbox: if the checkpoint's outbox was accepted by the validation, then in
-- it and after an outbox call that succeeds each effect has at most one record, pending, terminal or
-- compacted.
pub each_effect_once :
    {V R M : Type 0} (env : Sealing V R M) (c c' : ExecutionCheckpoint V R M) (call : OutboxCall)
    (seen : Seen) (e : String)
    → check_outbox c.value ≡ ok seen
    → run env c call ≡ ok c'
    → (records_of c.value e ≤ 1) × (records_of c'.value e ≤ 1)
each_effect_once env c c' call seen e valid h =
    let once = accepted_records c.value seen e valid in
    (once, ground (arith, once, effects_are_kept env c c' call e h))
