-- ===== src/Mailbox/Admit/Ordered.antt =====
-- The last loop of `admit_v1` in format1/v1.rs keeps a document in order, and numbers what it adds.
use determa_state_rust.Prelude.{
  ◌∙◌, ℕ, ◌+◌, ◌≤◌, String, true, none, some, List, [], ◌∷◌, ◌≡◌, refl, leb, length, arith,
  Option-cases, inl, inr,
}
use determa_state_rust.Checkpoint.ByKey.{count}
use determa_state_rust.Mailbox.Records.{ok, Result-cases, Entry, RuntimeRecord, Document}
use determa_state_rust.Mailbox.Documents.{
  modify, update_runtime, allocate_acceptance, allocate_queue, push_ready,
}
use determa_state_rust.Mailbox.Copies.{held-le, one_if, held, copies, update_runtime_lem}
use determa_state_rust.Mailbox.Admit.{Accepted, Checked, queued, append_deliveries}
use determa_state_rust.Mailbox.Admit.Added.{added, copies-push_ready}
use determa_state_rust.Mailbox.Integrity.Order.{ascending}
use determa_state_rust.Mailbox.Integrity.Checked.{is_acceptance, is_queue, all_rising}
use determa_state_rust.Mailbox.Integrity.Pushed.{is_late, all_rising-modify, ascending-modify}

-- The runtimes stand in order, and every queue sequence was allocated.
pub record IsOrdered {V M : Type 0} (value : Document V M) : Type 0 where
  pub ids_ascend : ascending none value.runtimes ≡ true
  pub queues_rise : all_rising value.runtimes ≡ true
  pub none_late : copies (is_late value.next_queue_sequence) value ≡ 0

-- The document after one delivery and after all.
pub record Numbered {V M : Type 0} (value next : Document V M) (number : ℕ) : Type 0 where
  pub instance_id : next.root_instance_id ≡ value.root_instance_id
  pub acceptance : next.next_acceptance_sequence ≡ value.next_acceptance_sequence + number
  pub queue : next.next_queue_sequence ≡ value.next_queue_sequence + number

module _ {V M : Type 0} where
  written_runtimes :
      (id : String) (f : RuntimeRecord V M → RuntimeRecord V M) (value next : Document V M)
      → update_runtime id f value ≡ ok next
      → modify id f value.runtimes ≡ some next.runtimes
  unfolding update_runtime
  written_runtimes id f value next h = elim (Option-cases (modify id f value.runtimes)) [
    | inl e ↦ absurd (cc)
    | inr (rs, e) ↦ let same : next.runtimes ≡ rs = cc in cc
  ]

  push-IsOrdered :
      (id : String) (entry : Entry V) (value next : Document V M)
      → entry.queue_sequence ≡ value.next_queue_sequence
      → update_runtime id (push_ready entry) (allocate_queue (allocate_acceptance value)) ≡ ok next
      → IsOrdered value
      → IsOrdered next
  push-IsOrdered id entry value next same h order =
      let counted = allocate_queue (allocate_acceptance value) in
      let frame = (update_runtime_lem (is_late 0) id (push_ready entry) counted next h).0 in
      let written = written_runtimes id (push_ready entry) counted next h in
      let late : held (is_late entry.queue_sequence) value.runtimes ≡ 0 = rw same order.none_late in
      let pushed =
        copies-push_ready (is_late (value.next_queue_sequence + 1)) id entry counted next h in
      let fewer =
        held-le (is_late (value.next_queue_sequence + 1)) (is_late value.next_queue_sequence)
          (λ e k. ground (arith)) value.runtimes in
      record {
        ids_ascend =
            ascending-modify id entry none value.runtimes next.runtimes written order.ids_ascend;
        queues_rise =
            all_rising-modify id entry value.runtimes next.runtimes written order.queues_rise late;
        none_late = rw frame.queue (ground (arith, pushed, fewer, order.none_late));
      }

  pub append_deliveries_lem :
      (cs : List (Checked V)) (value : Document V M) (done : Document V M × List Accepted)
      → append_deliveries value cs ≡ ok done
      → IsOrdered value
      → IsOrdered done.0 × Numbered value done.0 (length cs)
  unfolding append_deliveries
  append_deliveries_lem [] value done h order =
      let same : done.0 ≡ value = cc in
      rw same (order, record { instance_id = refl; acceptance = omega arith; queue = omega arith })
  append_deliveries_lem (c ∷ cs) value done h order =
      let entry = queued c.delivery value.next_acceptance_sequence value.next_queue_sequence in
      let counted = allocate_queue (allocate_acceptance value) in
      elim (Result-cases (update_runtime c.runtime_id (push_ready entry) counted)) [
        | inr (x, e) ↦ absurd (cc)
        | inl (next, e) ↦ elim (Result-cases (append_deliveries next cs)) [
          | inr (x, e₁) ↦ absurd (cc)
          | inl (rest, e₁) ↦
              let same : done.0 ≡ rest.0 = cc in
              let frame =
                (update_runtime_lem (is_late 0) c.runtime_id (push_ready entry) counted next e).0 in
              let (last, numbers) =
                append_deliveries_lem cs next rest e₁
                  (push-IsOrdered c.runtime_id entry value next refl e order) in
              rw same (
                last,
                record {
                  instance_id = numbers.instance_id ∙ frame.instance_id;
                  acceptance = omega (arith, numbers.acceptance, frame.acceptance);
                  queue = omega (arith, numbers.queue, frame.queue);
                },
              )
        ]
      ]

-- No number is given twice, and none below the first.
pub acceptance-added :
    {V : Type 0} (n acceptance queue : ℕ) (cs : List (Checked V))
    → count (is_acceptance n) (added acceptance queue cs) ≤ one_if (leb acceptance n)
unfolding added
acceptance-added n acceptance queue [] = omega arith
acceptance-added n acceptance queue (c ∷ cs) =
    ground (arith, acceptance-added n (acceptance + 1) (queue + 1) cs)

pub queue-added :
    {V : Type 0} (n acceptance queue : ℕ) (cs : List (Checked V))
    → count (is_queue n) (added acceptance queue cs) ≤ one_if (leb queue n)
unfolding added
queue-added n acceptance queue [] = omega arith
queue-added n acceptance queue (c ∷ cs) =
    ground (arith, queue-added n (acceptance + 1) (queue + 1) cs)
