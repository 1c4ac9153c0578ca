-- ===== src/Mailbox/Integrity/Complete.antt =====
-- Which documents `validate_mailbox_integrity` of format1/v1.rs accepts.
use determa_state_rust.Prelude.{
  ℕ, ◌+◌, ◌≤◌, String, Bool, true, false, Option, none, some, List, [], ◌∷◌, ◌≡◌, refl, any, str_eq,
  eq_iff, ◌==◌, arith, inl, inr, ◌↔◌,
}
use determa_state_rust.Checkpoint.ByKey.{count}
use determa_state_rust.Mailbox.Records.{ok, Result-cases, Entry, RuntimeRecord, Document, Engine}
use determa_state_rust.Mailbox.Copies.{one_if, is_event, held, copies}
use determa_state_rust.Mailbox.Integrity.{
  Seen, nothing_seen, not_after, id_not_after, seen_before, with_entry, out_of_order, check_entry,
  check_entries, check_runtimes, validate_mailbox_integrity,
}
use determa_state_rust.Mailbox.Integrity.Order.{ascending}
use determa_state_rust.Mailbox.Integrity.Checked.{
  is_acceptance, is_queue, digest_matches, unfit, rising, all_rising,
}
use determa_state_rust.Mailbox.Integrity.Sound.{IsIntact, validate-IsIntact}

-- A set with no element of a test does not hold what the test is for.
any_of_count :
    (x : String) (l : List String)
    → count (λ (y : String). str_eq y x) l ≡ 0
    → any (str_eq x) l ≡ false
any_of_count x [] h = refl
any_of_count x (y ∷ l) h = ground (arith, any_of_count x l, eq_iff x y, eq_iff y x)

any_of_numbers :
    (x : ℕ) (l : List ℕ) → count (λ (y : ℕ). y == x) l ≡ 0 → any (λ (n : ℕ). x == n) l ≡ false
any_of_numbers x [] h = refl
any_of_numbers x (y ∷ l) h = ground (arith, any_of_numbers x l)

-- What the sets hold and what `left` counts are together each once.
pub record HasRoom {V : Type 0} (seen : Seen) (left : (Entry V → Bool) → ℕ) : Type 0 where
  pub events :
      (k : String) → count (λ (x : String). str_eq x k) seen.event_ids + left (is_event k) ≤ 1
  pub acceptances :
      (k : ℕ) → count (λ (x : ℕ). x == k) seen.acceptances + left (is_acceptance k) ≤ 1
  pub queues : (k : ℕ) → count (λ (x : ℕ). x == k) seen.queues + left (is_queue k) ≤ 1

module _ {V : Type 0} (e : Entry V) (seen : Seen) (left after : (Entry V → Bool) → ℕ)
    (takes : (p : Entry V → Bool) → left p ≡ one_if (p e) + after p) where
  new_of_room : HasRoom seen left → seen_before seen e ≡ false
  new_of_room room = ground (
    arith,
    room.events e.envelope.event_id,
    room.acceptances e.acceptance_sequence,
    room.queues e.queue_sequence,
    takes (is_event e.envelope.event_id),
    takes (is_acceptance e.acceptance_sequence),
    takes (is_queue e.queue_sequence),
    any_of_count e.envelope.event_id seen.event_ids,
    any_of_numbers e.acceptance_sequence seen.acceptances,
    any_of_numbers e.queue_sequence seen.queues,
    eq_iff e.envelope.event_id e.envelope.event_id,
  )

  room_after : HasRoom seen left → HasRoom (with_entry seen e) after
  room_after room = record {
    events = λ k. ground (arith, room.events k, takes (is_event k));
    acceptances = λ k. ground (arith, room.acceptances k, takes (is_acceptance k));
    queues = λ k. ground (arith, room.queues k, takes (is_queue k));
  }

module _ {V P M F : Type 0} (engine : Engine V P M F) (value : Document V M) where
  entry_passes :
      (previous : Option ℕ) (seen : Seen) (e : Entry V)
      → not_after previous e.queue_sequence ≡ false
      → seen_before seen e ≡ false
      → unfit engine value e ≡ false
      → check_entry engine value previous seen e ≡ ok tt
  unfolding check_entry
  entry_passes previous seen e h h₁ h₂ =
      let in_order : out_of_order engine value previous e ≡ false = ground (arith) in
      let matches : digest_matches engine value.root_instance_id e ≡ true = ground (arith) in
      elim (Result-cases
        (engine.envelope_digest value.root_instance_id e.delivery_mode e.envelope)) [
          | inr (x, n) ↦ absurd (let no : false ≡ true = rw (n, digest_matches) at matches in cc)
          | inl (expected, n) ↦
              let same : str_eq e.envelope_digest expected ≡ true =
                rw (n, digest_matches) at matches in
              rw (in_order, h₁, n, same)
        ]

  room_end :
      (seen : Seen) (after : (Entry V → Bool) → ℕ)
      → HasRoom seen (λ p. 0 + after p)
      → HasRoom seen after
  room_end seen after room = record {
    events = λ k. omega (arith, room.events k);
    acceptances = λ k. omega (arith, room.acceptances k);
    queues = λ k. omega (arith, room.queues k);
  }

  entries_pass :
      (previous : Option ℕ) (es : List (Entry V)) (seen : Seen) (after : (Entry V → Bool) → ℕ)
      → HasRoom seen (λ p. count p es + after p)
      → count (unfit engine value) es ≡ 0
      → rising previous es ≡ true
      → (last : Seen) × (check_entries engine value previous seen es ≡ ok last) × HasRoom last after
  unfolding check_entries rising
  entries_pass previous [] seen after room fit up = (seen, refl, room_end seen after room)
  entries_pass previous (e ∷ es) seen after room fit up =
      let left = λ (p : Entry V → Bool). count p (e ∷ es) + after p in
      let others = λ (p : Entry V → Bool). count p es + after p in
      let takes : (p : Entry V → Bool) → left p ≡ one_if (p e) + others p = λ p. ground (arith) in
      let passed =
        entry_passes previous seen e (ground (arith)) (new_of_room e seen left others takes room)
          (ground (arith)) in
      let (last, answered, rest) =
        entries_pass (some e.queue_sequence) es (with_entry seen e) after
          (room_after e seen left others takes room) (ground (arith)) (ground (arith)) in
      (last, rw passed answered, rest)

  room_split :
      (r : RuntimeRecord V M) (rs : List (RuntimeRecord V M)) (seen : Seen)
      → HasRoom seen (λ p. held p (r ∷ rs))
      → HasRoom seen (λ p. count p r.ready_mailbox + (count p r.deferred_mailbox + held p rs))
  unfolding held
  room_split r rs seen room = record {
    events = λ k. omega (arith, room.events k);
    acceptances = λ k. omega (arith, room.acceptances k);
    queues = λ k. omega (arith, room.queues k);
  }

  runtimes_pass :
      (previous : Option String) (rs : List (RuntimeRecord V M)) (seen : Seen)
      → HasRoom seen (λ p. held p rs)
      → held (unfit engine value) rs ≡ 0
      → all_rising rs ≡ true
      → ascending previous rs ≡ true
      → (last : Seen) × (check_runtimes engine value previous seen rs ≡ ok last)
  unfolding check_runtimes held all_rising ascending
  runtimes_pass previous [] seen room fit up order = (seen, refl)
  runtimes_pass previous (r ∷ rs) seen room fit up order =
      let (a, answered, room₁) =
        entries_pass none r.ready_mailbox seen
          (λ (p : Entry V → Bool). count p r.deferred_mailbox + held p rs)
          (room_split r rs seen room) (omega (arith, fit)) (ground (arith)) in
      let (b, answered₁, room₂) =
        entries_pass none r.deferred_mailbox a (λ (p : Entry V → Bool). held p rs) room₁
          (omega (arith, fit)) (ground (arith)) in
      let (last, answered₂) =
        runtimes_pass (some r.runtime_id) rs b room₂ (omega (arith, fit)) (ground (arith))
          (ground (arith)) in
      let next : id_not_after previous r.runtime_id ≡ false = ground (arith) in
      (last, rw (next, answered, answered₁) answered₂)

  pub intact-Validates : IsIntact engine value → validate_mailbox_integrity engine value ≡ ok tt
  unfolding validate_mailbox_integrity
  intact-Validates intact =
      let room : HasRoom nothing_seen (λ p. copies p value) = record {
        events = λ k. omega (arith, intact.event_once k);
        acceptances = λ k. omega (arith, intact.acceptance_once k);
        queues = λ k. omega (arith, intact.queue_once k);
      } in
      let (last, answered) =
        runtimes_pass none value.runtimes nothing_seen room intact.all_fit intact.queues_rise
          intact.runtimes_ascend in
      rw answered

  -- A document is accepted exactly when its runtimes stand in the order of their ids, no event id,
  -- acceptance sequence or queue sequence is held twice, every entry has numbers that were allocated
  -- and the digest of its envelope, and the queue sequences rise in each mailbox.
  pub validate_iff : (validate_mailbox_integrity engine value ≡ ok tt) ↔ IsIntact engine value
  validate_iff = (validate-IsIntact engine value, intact-Validates)
