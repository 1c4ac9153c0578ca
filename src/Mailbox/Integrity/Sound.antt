-- ===== src/Mailbox/Integrity/Sound.antt =====
-- What a document that `validate_mailbox_integrity` of format1/v1.rs accepts is known to be.
use determa_state_rust.Prelude.{
  ℕ, ◌≤◌, String, true, none, ◌≡◌, refl, str_eq, ◌==◌, arith, inl, inr,
}
use determa_state_rust.Checkpoint.ByKey.{count}
use determa_state_rust.Mailbox.Records.{ok, Result-cases, Document, Engine}
use determa_state_rust.Mailbox.Copies.{is_event, copies}
use determa_state_rust.Mailbox.Integrity.{
  Seen, nothing_seen, check_runtimes, validate_mailbox_integrity,
}
use determa_state_rust.Mailbox.Integrity.Checked.{is_acceptance, is_queue, unfit, all_rising}
use determa_state_rust.Mailbox.Integrity.Counted.{once, seen_event, seen_acceptance, seen_queue}
use determa_state_rust.Mailbox.Integrity.Order.{ascending}
use determa_state_rust.Mailbox.Integrity.Fit.{runtimes_fit, runtimes_ascend}

module _ {V P M F : Type 0} (engine : Engine V P M F) (value : Document V M) where
  -- The mailboxes are those of one aggregate that numbered them itself.
  pub record IsIntact : Type 0 where
    pub runtimes_ascend : ascending none value.runtimes ≡ true
    pub event_once : (event_id : String) → copies (is_event event_id) value ≤ 1
    pub acceptance_once : (n : ℕ) → copies (is_acceptance n) value ≤ 1
    pub queue_once : (n : ℕ) → copies (is_queue n) value ≤ 1
    pub all_fit : copies (unfit engine value) value ≡ 0
    pub queues_rise : all_rising value.runtimes ≡ true

  -- An accepted document has its runtimes in the order of their ids; it holds each event id, each acceptance sequence and each
  -- queue sequence at most once; every entry has numbers that were allocated and the digest of its
  -- envelope; and the queue sequences rise in each mailbox.
  pub validate-IsIntact : validate_mailbox_integrity engine value ≡ ok tt → IsIntact
  unfolding validate_mailbox_integrity
  validate-IsIntact h =
      elim (Result-cases (check_runtimes engine value none nothing_seen value.runtimes)) [
        | inr (x, n) ↦ absurd (cc)
        | inl (last, n) ↦
            let fit = runtimes_fit engine value none value.runtimes nothing_seen last n in
            record {
              runtimes_ascend =
                  runtimes_ascend engine value none value.runtimes nothing_seen last n;
              event_once = λ k.
                  once engine value (is_event k)
                    (λ (s : Seen). count (λ (x : String). str_eq x k) s.event_ids)
                    (λ seen e. ground (arith)) (seen_event engine value k) last n refl;
              acceptance_once = λ k.
                  once engine value (is_acceptance k)
                    (λ (s : Seen). count (λ (x : ℕ). x == k) s.acceptances)
                    (λ seen e. ground (arith)) (seen_acceptance engine value k) last n refl;
              queue_once = λ k.
                  once engine value (is_queue k) (λ (s : Seen). count (λ (x : ℕ). x == k) s.queues)
                    (λ seen e. ground (arith)) (seen_queue engine value k) last n refl;
              all_fit = fit.0;
              queues_rise = fit.1;
            }
      ]
