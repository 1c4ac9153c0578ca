-- ===== src/Mailbox/Integrity/Counted.antt =====
-- The sets of `validate_mailbox_integrity` of format1/v1.rs against the mailboxes they were filled from.
use determa_state_rust.Prelude.{
  ℕ, ◌+◌, ◌≤◌, String, ==_iff, Bool, true, false, Option, none, some, List, [], ◌∷◌, ◌≡◌, refl, any,
  str_eq, eq_iff, ◌==◌, arith, Bool-cases, inl, inr,
}
use determa_state_rust.Checkpoint.ByKey.{count}
use determa_state_rust.Mailbox.Records.{ok, Result-cases, Entry, RuntimeRecord, Document, Engine}
use determa_state_rust.Mailbox.Copies.{one_if, is_event, held, copies}
use determa_state_rust.Mailbox.Integrity.{
  Seen, nothing_seen, id_not_after, seen_before, with_entry, check_entry, check_entries,
  check_runtimes,
}
use determa_state_rust.Mailbox.Integrity.Checked.{is_acceptance, is_queue, check_entry_lem}

none_counted :
    (k x : String) (l : List String)
    → x ≡ k
    → any (str_eq x) l ≡ false
    → count (λ (y : String). str_eq y k) l ≡ 0
none_counted k x [] e h = refl
none_counted k x (y ∷ l) e h =
    ground (arith, none_counted k x l e, eq_iff x y, eq_iff y k, eq_iff x k)

none_numbered :
    (k x : ℕ) (l : List ℕ)
    → x ≡ k
    → any (λ (n : ℕ). x == n) l ≡ false
    → count (λ (y : ℕ). y == k) l ≡ 0
none_numbered k x [] e h = refl
none_numbered k x (y ∷ l) e h = ground (arith, none_numbered k x l e)

module _ {V P M F : Type 0} (engine : Engine V P M F) (value : Document V M) where
  -- A test of entries that the sets count: an entry that passes is new to them.
  module _ (p : Entry V → Bool) (times : Seen → ℕ)
      (adds : (seen : Seen) (e : Entry V) → times (with_entry seen e) ≡ one_if (p e) + times seen)
      (is_new : (seen : Seen) (e : Entry V)
        → seen_before seen e ≡ false
        → p e ≡ true
        → times seen ≡ 0) where
    entries_once :
        (previous : Option ℕ) (es : List (Entry V)) (seen last : Seen)
        → check_entries engine value previous seen es ≡ ok last
        → times seen ≤ 1
        → (times last ≡ count p es + times seen) × (times last ≤ 1)
    unfolding check_entries
    entries_once previous [] seen last h le = let same : last ≡ seen = cc in rw same (omega arith)
    entries_once previous (e ∷ es) seen last h le =
        elim (Result-cases (check_entry engine value previous seen e)) [
          | inr (x, n) ↦ absurd (cc)
          | inl (tt, n) ↦
              let passed = check_entry_lem engine value previous seen e n in
              let ih = entries_once (some e.queue_sequence) es (with_entry seen e) last (cc) in
              ground (arith, ih, adds seen e, is_new seen e passed.1)
        ]

    runtimes_once :
        (previous : Option String) (rs : List (RuntimeRecord V M)) (seen last : Seen)
        → check_runtimes engine value previous seen rs ≡ ok last
        → times seen ≤ 1
        → (times last ≡ held p rs + times seen) × (times last ≤ 1)
    unfolding check_runtimes held
    runtimes_once previous [] seen last h le = let same : last ≡ seen = cc in rw same (omega arith)
    runtimes_once previous (r ∷ rs) seen last h le =
        elim (Bool-cases (id_not_after previous r.runtime_id)) [
          | inl n ↦ absurd (cc)
          | inr n ↦ elim (Result-cases (check_entries engine value none seen r.ready_mailbox)) [
            | inr (x, n₁) ↦ absurd (cc)
            | inl (a, n₁) ↦
                elim (Result-cases (check_entries engine value none a r.deferred_mailbox)) [
                  | inr (x, n₂) ↦ absurd (cc)
                  | inl (b, n₂) ↦
                      let ready = entries_once none r.ready_mailbox seen a n₁ le in
                      let deferred = entries_once none r.deferred_mailbox a b n₂ ready.1 in
                      let rest = runtimes_once (some r.runtime_id) rs b last (cc) deferred.1 in
                      (omega (arith, ready.0, deferred.0, rest.0), rest.1)
                ]
          ]
        ]

  pub once :
      (p : Entry V → Bool) (times : Seen → ℕ)
      → ((seen : Seen) (e : Entry V) → times (with_entry seen e) ≡ one_if (p e) + times seen)
      → ((seen : Seen) (e : Entry V) → seen_before seen e ≡ false → p e ≡ true → times seen ≡ 0)
      → (last : Seen) → check_runtimes engine value none nothing_seen value.runtimes ≡ ok last
      → times nothing_seen ≡ 0
      → copies p value ≤ 1
  once p times adds is_new last n zero =
      let counted =
        runtimes_once p times adds is_new none value.runtimes nothing_seen last n (omega arith) in
      omega (arith, counted.0, counted.1)

  pub seen_event :
      (k : String) (seen : Seen) (e : Entry V)
      → seen_before seen e ≡ false
      → is_event k e ≡ true
      → count (λ (x : String). str_eq x k) seen.event_ids ≡ 0
  seen_event k seen e h same =
      none_counted k e.envelope.event_id seen.event_ids ((eq_iff e.envelope.event_id k).0 same)
        (ground (arith))

  pub seen_acceptance :
      (k : ℕ) (seen : Seen) (e : Entry V)
      → seen_before seen e ≡ false
      → is_acceptance k e ≡ true
      → count (λ (x : ℕ). x == k) seen.acceptances ≡ 0
  seen_acceptance k seen e h same =
      none_numbered k e.acceptance_sequence seen.acceptances
        ((==_iff e.acceptance_sequence k).0 same) (ground (arith))

  pub seen_queue :
      (k : ℕ) (seen : Seen) (e : Entry V)
      → seen_before seen e ≡ false
      → is_queue k e ≡ true
      → count (λ (x : ℕ). x == k) seen.queues ≡ 0
  seen_queue k seen e h same =
      none_numbered k e.queue_sequence seen.queues ((==_iff e.queue_sequence k).0 same)
        (ground (arith))
