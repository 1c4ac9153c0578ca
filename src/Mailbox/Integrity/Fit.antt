-- ===== src/Mailbox/Integrity/Fit.antt =====
-- The numbers, digests and runtime ids of a document that `validate_mailbox_integrity` of format1/v1.rs accepts.
use determa_state_rust.Prelude.{
  ℕ, String, true, Option, none, some, List, [], ◌∷◌, ◌≡◌, refl, arith, Bool-cases, inl, inr,
}
use determa_state_rust.Checkpoint.ByKey.{count}
use determa_state_rust.Mailbox.Records.{ok, Result-cases, Entry, RuntimeRecord, Document, Engine}
use determa_state_rust.Mailbox.Copies.{held}
use determa_state_rust.Mailbox.Integrity.{
  Seen, id_not_after, with_entry, check_entry, check_entries, check_runtimes,
}
use determa_state_rust.Mailbox.Integrity.Order.{ascending}
use determa_state_rust.Mailbox.Integrity.Checked.{unfit, rising, all_rising, check_entry_lem}

module _ {V P M F : Type 0} (engine : Engine V P M F) (value : Document V M) where
  entries_fit :
      (previous : Option ℕ) (es : List (Entry V)) (seen last : Seen)
      → check_entries engine value previous seen es ≡ ok last
      → (count (unfit engine value) es ≡ 0) × (rising previous es ≡ true)
  unfolding check_entries rising
  entries_fit previous [] seen last h = (refl, refl)
  entries_fit previous (e ∷ es) seen last h =
      elim (Result-cases (check_entry engine value previous seen e)) [
        | inr (x, n) ↦ absurd (cc)
        | inl (tt, n) ↦
            let passed = check_entry_lem engine value previous seen e n in
            let ih = entries_fit (some e.queue_sequence) es (with_entry seen e) last (cc) in
            (ground (arith, passed.2, ih.0), ground (arith, passed.0, ih.1))
      ]

  pub runtimes_fit :
      (previous : Option String) (rs : List (RuntimeRecord V M)) (seen last : Seen)
      → check_runtimes engine value previous seen rs ≡ ok last
      → (held (unfit engine value) rs ≡ 0) × (all_rising rs ≡ true)
  unfolding check_runtimes held all_rising
  runtimes_fit previous [] seen last h = (refl, refl)
  runtimes_fit previous (r ∷ rs) seen last h =
      elim (Bool-cases (id_not_after previous r.runtime_id)) [
        | inl n ↦ absurd (cc)
        | inr n ↦ elim (Result-cases (check_entries engine value none seen r.ready_mailbox)) [
          | inr (x, n₁) ↦ absurd (cc)
          | inl (a, n₁) ↦
              elim (Result-cases (check_entries engine value none a r.deferred_mailbox)) [
                | inr (x, n₂) ↦ absurd (cc)
                | inl (b, n₂) ↦
                    let ready = entries_fit none r.ready_mailbox seen a n₁ in
                    let deferred = entries_fit none r.deferred_mailbox a b n₂ in
                    let rest = runtimes_fit (some r.runtime_id) rs b last (cc) in
                    (omega (arith, ready.0, deferred.0, rest.0), rw (ready.1, deferred.1) rest.1)
              ]
        ]
      ]

  pub runtimes_ascend :
      (previous : Option String) (rs : List (RuntimeRecord V M)) (seen last : Seen)
      → check_runtimes engine value previous seen rs ≡ ok last
      → ascending previous rs ≡ true
  unfolding check_runtimes ascending
  runtimes_ascend previous [] seen last h = refl
  runtimes_ascend previous (r ∷ rs) seen last h =
      elim (Bool-cases (id_not_after previous r.runtime_id)) [
        | inl n ↦ cc
        | inr n ↦ elim (Result-cases (check_entries engine value none seen r.ready_mailbox)) [
          | inr (x, n₁) ↦ cc
          | inl (a, n₁) ↦
              elim (Result-cases (check_entries engine value none a r.deferred_mailbox)) [
                | inr (x, n₂) ↦ cc
                | inl (b, n₂) ↦
                    let ih = runtimes_ascend (some r.runtime_id) rs b last (cc) in
                    ground (arith, ih, n)
              ]
        ]
      ]
