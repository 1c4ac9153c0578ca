-- ===== src/Mailbox/Integrity/Sorted.antt =====
-- `seal_aggregate` of format1/v1.rs on a document in order: the sorts leave the runtimes as they are.
use determa_state_rust.Prelude.{
  ℕ, String, true, Option, none, some, List, [], ◌∷◌, ◌≡◌, refl, arith,
}
use determa_state_rust.Checkpoint.ByKey.{insert_by_key, sort_by_key}
use determa_state_rust.Mailbox.Records.{Entry, RuntimeRecord}
use determa_state_rust.Mailbox.Documents.{
  by_queue_sequence, sort_mailboxes, insert_by_id, sort_runtimes,
}
use determa_state_rust.Mailbox.Integrity.Order.{ascending, id_le_total}
use determa_state_rust.Mailbox.Integrity.Checked.{rising, all_rising}

module _ {V : Type 0} where
  insert_first :
      (e : Entry V) (es : List (Entry V))
      → rising (some e.queue_sequence) es ≡ true
      → insert_by_key by_queue_sequence e es ≡ e ∷ es
  unfolding insert_by_key rising
  insert_first e [] h = refl
  insert_first e (f ∷ es) h = ground (arith)

  sort_rising :
      (previous : Option ℕ) (es : List (Entry V))
      → rising previous es ≡ true
      → sort_by_key by_queue_sequence es ≡ es
  unfolding sort_by_key rising
  sort_rising previous [] h = refl
  sort_rising previous (e ∷ es) h =
      let up : rising (some e.queue_sequence) es ≡ true = ground (arith) in
      rw (sort_rising (some e.queue_sequence) es up) (insert_first e es up)

module _ {V M : Type 0} where
  sort_mailboxes-rising :
      (r : RuntimeRecord V M)
      → rising none r.ready_mailbox ≡ true
      → rising none r.deferred_mailbox ≡ true
      → sort_mailboxes r ≡ r
  unfolding sort_mailboxes
  sort_mailboxes-rising r h k =
      rw (sort_rising none r.ready_mailbox h, sort_rising none r.deferred_mailbox k) refl

  insert_least :
      (r : RuntimeRecord V M) (rs : List (RuntimeRecord V M))
      → ascending (some r.runtime_id) rs ≡ true
      → insert_by_id r rs ≡ r ∷ rs
  unfolding insert_by_id ascending
  insert_least r [] h = refl
  insert_least r (s ∷ rs) h = ground (arith, id_le_total s.runtime_id r.runtime_id)

  pub sort_ascending :
      (previous : Option String) (rs : List (RuntimeRecord V M))
      → ascending previous rs ≡ true
      → all_rising rs ≡ true
      → sort_runtimes rs ≡ rs
  unfolding sort_runtimes ascending all_rising
  sort_ascending previous [] h k = refl
  sort_ascending previous (r ∷ rs) h k =
      let up : ascending (some r.runtime_id) rs ≡ true = ground (arith) in
      let rest = sort_ascending (some r.runtime_id) rs up (ground (arith)) in
      let own = sort_mailboxes-rising r (ground (arith)) (ground (arith)) in
      rw (own, rest) (insert_least r rs up)
