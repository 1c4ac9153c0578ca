-- ===== src/Mailbox/Step/Recalled.antt =====
-- What `recall_deferred` and `remove_ready_head` of format1/v1.rs do to the number of entries.
use determa_state_rust.Prelude.{
  ℕ, ◌+◌, String, Bool, Option, none, some, List, [], ◌∷◌, ◌≡◌, refl, ap, ◌∙◌, arith, Bool-cases,
  Option-cases, inl, inr, map,
}
use determa_state_rust.Checkpoint.ByKey.{count, count-append}
use determa_state_rust.Mailbox.Records.{
  ok, Result-cases, Entry, RuntimeRecord, Document, NativeAggregate, Engine,
}
use determa_state_rust.State.Active.{is_running}
use determa_state_rust.Mailbox.Copies.{one_if, in_runtime, held, copies, update_runtime_lem}
use determa_state_rust.Mailbox.Documents.{find_runtime, update_runtime}
use determa_state_rust.Mailbox.Step.Recall.{
  runtimes_of, Sifted, sift, requeued, recalled_runtime, recall_runtime, recall_known, recall_all,
  recall_deferred, remove_ready_head, take_head, without_head,
}

-- A test that the queue sequence of an entry does not change.
abbrev pub IgnoresQueue : {V : Type 0} → (Entry V → Bool) → Type 0
IgnoresQueue {V} p = (e : Entry V) (queue : ℕ) → p (requeued e queue) ≡ p e

module _ {V : Type 0} (p : Entry V → Bool) (ignores : IgnoresQueue p)
    (eligible : String → Bool) where
  count-sift :
      (next : ℕ) (es : List (Entry V))
      → count p (sift eligible next es).retained + count p (sift eligible next es).recalled
        ≡ count p es
  unfolding sift
  count-sift next [] = refl
  count-sift next (e ∷ es) =
      ground (arith, count-sift (next + 1) es, count-sift next es, ignores e next)

module _ {V P M F : Type 0} (engine : Engine V P M F) (p : Entry V → Bool)
    (ignores : IgnoresQueue p) where
  copies-recall_runtime :
      (state : RuntimeRecord V M) (id : String) (value next : Document V M)
      → recall_runtime engine state id value ≡ ok next
      → copies p next ≡ copies p value
  unfolding recall_runtime
  copies-recall_runtime state id value next h =
      elim (Option-cases (find_runtime id value.runtimes)) [
        | inl e ↦ cc
        | inr (r, e) ↦
            let sifted : Sifted V =
              sift (engine.structural_recall_eligible state) value.next_queue_sequence
                r.deferred_mailbox in
            let counted : Document V M = record value {
              next_queue_sequence = sifted.next_queue_sequence;
            } in
            let (frame, (s, found, changed)) =
              update_runtime_lem p id (recalled_runtime sifted) counted next (cc) in
            let same : s ≡ r = cc in
            let here : held p next.runtimes + in_runtime p r
                ≡ held p value.runtimes + in_runtime p (recalled_runtime sifted r) =
              rw same at changed in
            omega (
              arith,
              count-append p r.ready_mailbox sifted.recalled,
              count-sift p ignores (engine.structural_recall_eligible state)
                  value.next_queue_sequence r.deferred_mailbox,
            )
      ]

  copies-recall_known :
      (o : Option (RuntimeRecord V M)) (id : String) (value next : Document V M)
      → recall_known engine o id value ≡ ok next
      → copies p next ≡ copies p value
  unfolding recall_known
  copies-recall_known none id value next h = let same : next ≡ value = cc in rw same
  copies-recall_known (some state) id value next h = elim (Bool-cases (is_running state.status)) [
    | inl e ↦ copies-recall_runtime state id value next (cc)
    | inr e ↦ let same : next ≡ value = cc in rw same
  ]

  copies-recall_all :
      (state : NativeAggregate V M) (ids : List String) (value next : Document V M)
      → recall_all engine state ids value ≡ ok next
      → copies p next ≡ copies p value
  unfolding recall_all
  copies-recall_all state [] value next h = let same : next ≡ value = cc in rw same
  copies-recall_all state (id ∷ ids) value next h =
      elim (Result-cases (recall_known engine (find_runtime id (runtimes_of state)) id value)) [
        | inr (x, e) ↦ cc
        | inl (mid, e) ↦
            copies-recall_all state ids mid next (cc)
            ∙ copies-recall_known (find_runtime id (runtimes_of state)) id value mid e
      ]

  -- A recall moves entries and renumbers them, and adds or drops none.
  pub copies-recall_deferred :
      (state : NativeAggregate V M) (value next : Document V M)
      → recall_deferred engine state value ≡ ok next
      → copies p next ≡ copies p value
  unfolding recall_deferred
  copies-recall_deferred state value next h =
      copies-recall_all state (map (λ (r : RuntimeRecord V M). r.runtime_id) value.runtimes) value
        next h

module _ {V M : Type 0} (p : Entry V → Bool) where
  -- The head of a queue that a step takes, and the document without it.
  pub record Removed (id : String) (value : Document V M) (taken : Entry V × Document V M)
      : Type 0 where
    pub holder : RuntimeRecord V M
    pub rest : List (Entry V)
    pub found : find_runtime id value.runtimes ≡ some holder
    pub queue : holder.ready_mailbox ≡ taken.0 ∷ rest
    pub written : update_runtime id (without_head rest) value ≡ ok taken.1
    pub counted : copies p taken.1 + one_if (p taken.0) ≡ copies p value

  take_head-Removed :
      (id : String) (value : Document V M) (taken : Entry V × Document V M) (r : RuntimeRecord V M)
      (queue : List (Entry V))
      → find_runtime id value.runtimes ≡ some r
      → r.ready_mailbox ≡ queue
      → take_head id value queue ≡ ok taken
      → Removed id value taken
  unfolding take_head
  take_head-Removed id value taken r [] found same h = absurd (cc)
  take_head-Removed id value taken r (entry ∷ rest) found same h =
      elim (Result-cases (update_runtime id (without_head rest) value)) [
        | inr (x, e) ↦ absurd (cc)
        | inl (next, e) ↦
            let (frame, (s, found', changed)) =
              update_runtime_lem p id (without_head rest) value next e in
            let who : s ≡ r = cc in
            let here : held p next.runtimes + in_runtime p r
                ≡ held p value.runtimes + in_runtime p (without_head rest r) =
              rw who at changed in
            let head : taken.0 ≡ entry = cc in
            let after : taken.1 ≡ next = cc in
            let ready : count p r.ready_mailbox ≡ count p (entry ∷ rest) = ap (count p) same in
            record {
              holder = r;
              rest = rest;
              found = found;
              queue = rw head same;
              written = rw after e;
              counted = rw (after, head) (ground arith);
            }
      ]

  pub remove_ready_head-Removed :
      (id : String) (value : Document V M) (taken : Entry V × Document V M)
      → remove_ready_head id value ≡ ok taken
      → Removed id value taken
  unfolding remove_ready_head
  remove_ready_head-Removed id value taken h =
      elim (Option-cases (find_runtime id value.runtimes)) [
        | inl e ↦ absurd (cc)
        | inr (r, e) ↦ take_head-Removed id value taken r r.ready_mailbox e refl (cc)
      ]
