-- ===== src/Mailbox/Integrity/Pushed.antt =====
-- A write to a ready mailbox by `admit_v1` of format1/v1.rs: the order of a document stays as it was.
use determa_state_rust.Prelude.{
  ◌⊎◌, ℕ, String, Bool, true, false, Option, none, some, List, [], ◌∷◌, ◌++◌, ◌≡◌, refl, leb, arith,
  Bool-cases, Option-cases, inl, inr,
}
use determa_state_rust.Checkpoint.ByKey.{count}
use determa_state_rust.Mailbox.Records.{Entry, RuntimeRecord}
use determa_state_rust.Mailbox.Documents.{has_id, modify, push_ready}
use determa_state_rust.Mailbox.Copies.{held}
use determa_state_rust.Mailbox.Integrity.{not_after}
use determa_state_rust.Mailbox.Integrity.Order.{ascending}
use determa_state_rust.Mailbox.Integrity.Checked.{rising, all_rising}

-- An entry whose queue sequence is `n` or more.
abbrev pub is_late : {V : Type 0} → ℕ → Entry V → Bool
is_late n entry = leb n entry.queue_sequence

module _ {V : Type 0} (entry : Entry V) where
  rising-append :
      (previous : Option ℕ) (es : List (Entry V))
      → rising previous es ≡ true
      → not_after previous entry.queue_sequence ≡ false
      → count (is_late entry.queue_sequence) es ≡ 0
      → rising previous (es ++ (entry ∷ [])) ≡ true
  unfolding rising
  rising-append previous [] h k n = ground (arith)
  rising-append previous (e ∷ es) h k n = ground (arith, rising-append (some e.queue_sequence) es)

module _ {V M : Type 0} (id : String) where
  -- The two branches of a write.
  modify_cases :
      (f : RuntimeRecord V M → RuntimeRecord V M) (r : RuntimeRecord V M)
      (rs written : List (RuntimeRecord V M))
      → modify id f (r ∷ rs) ≡ some written
      → (written ≡ f r ∷ rs)
        ⊎ ((rest : List (RuntimeRecord V M)) × (modify id f rs ≡ some rest) × (written ≡ r ∷ rest))
  unfolding modify
  modify_cases f r rs written h = elim (Bool-cases (has_id id r)) [
    | inl here ↦ inl (cc)
    | inr other ↦ elim (Option-cases (modify id f rs)) [
      | inl n ↦ absurd (cc)
      | inr (rest, n) ↦ inr (rest, n, cc)
    ]
  ]

  module _ (entry : Entry V) where
    pub all_rising-modify :
        (rs written : List (RuntimeRecord V M))
        → modify id (push_ready entry) rs ≡ some written
        → all_rising rs ≡ true
        → held (is_late entry.queue_sequence) rs ≡ 0
        → all_rising written ≡ true
    unfolding modify all_rising held
    all_rising-modify [] written h up none_late = cc
    all_rising-modify (r ∷ rs) written h up none_late =
        elim (modify_cases (push_ready entry) r rs written h) [
          | inl e ↦
              let pushed =
                rising-append entry none r.ready_mailbox (ground (arith)) refl
                  (omega (arith, none_late)) in
              rw e (ground (arith, pushed))
          | inr (rest, n, e) ↦
              let ih = all_rising-modify rs rest n (ground (arith)) (omega (arith, none_late)) in
              rw e (ground (arith, ih))
        ]

    pub ascending-modify :
        (previous : Option String) (rs written : List (RuntimeRecord V M))
        → modify id (push_ready entry) rs ≡ some written
        → ascending previous rs ≡ true
        → ascending previous written ≡ true
    unfolding modify ascending
    ascending-modify previous [] written h up = cc
    ascending-modify previous (r ∷ rs) written h up =
        elim (modify_cases (push_ready entry) r rs written h) [
          | inl e ↦ rw e up
          | inr (rest, n, e) ↦
              let ih = ascending-modify (some r.runtime_id) rs rest n (ground (arith)) in
              rw e (ground (arith, ih))
        ]
