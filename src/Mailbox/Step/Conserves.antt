-- ===== src/Mailbox/Step/Conserves.antt =====
-- No step of format1/v1.rs loses or duplicates a queued event: what a mailbox held, or the engine emitted to a
-- mailbox, is in a mailbox afterwards or in the report of the step. The entry that the step consumed is apart.
use determa_state_rust.Prelude.{
  ◌+◌, String, Bool, true, false, some, List, ◌∷◌, ◌≡◌, refl, ap, sym, ◌∙◌, str_eq, arith,
  Option-cases, inl, inr,
}
use determa_state_rust.Checkpoint.ByKey.{count}
use determa_state_rust.Mailbox.Records.{
  ok, Result-cases, Entry, RuntimeRecord, Document, NativeAggregate, Engine, CoreResult,
}
use determa_state_rust.Mailbox.Copies.{is_event, in_runtime, copies}
use determa_state_rust.Mailbox.Documents.{find_runtime, update_runtime, unique_ids, modify}
use determa_state_rust.Mailbox.Step.Recall.{runtimes_of, remove_ready_head, without_head}
use determa_state_rust.Mailbox.Step.Dispose.{
  LifecycleDisposition, merge_native_state, dispose_removed_mailboxes,
}
use determa_state_rust.Mailbox.Step.Emit.{EmissionResult, append_step_emissions}
use determa_state_rust.Mailbox.Step.Run.{Settled, settle}
use determa_state_rust.Mailbox.Step.Recalled.{Removed, remove_ready_head-Removed}
use determa_state_rust.Mailbox.Step.Reindex.{
  left_behind, gathered_or_left, left_behind-modify, unique_ids-modify,
}
use determa_state_rust.Mailbox.Step.Merged.{merge_lem}
use determa_state_rust.Mailbox.Step.Disposed.{reports, dispose_removed_lem, left_behind-same}
use determa_state_rust.Mailbox.Step.Emitted.{names_event, append_step_lem}

module _ {V M : Type 0} (p : Entry V → Bool) where
  -- The document without a head that fails the test has the same count in every runtime.
  pub record Untouched (value : Document V M) (next : Document V M) : Type 0 where
    pub same_count : copies p next ≡ copies p value
    pub same_left :
        (ns : List (RuntimeRecord V M))
        → left_behind p next.runtimes ns ≡ left_behind p value.runtimes ns
    pub still_unique : unique_ids value.runtimes ≡ true → unique_ids next.runtimes ≡ true

  Removed-Untouched :
      (id : String) (value : Document V M) (taken : Entry V × Document V M)
      → Removed p id value taken
      → p taken.0 ≡ false
      → Untouched value taken.1
  unfolding update_runtime
  Removed-Untouched id value taken removed other =
      let written = removed.written in
      elim (Option-cases (modify id (without_head removed.rest) value.runtimes)) [
        | inl e ↦ absurd (cc)
        | inr (rs, e) ↦
            let out : taken.1.runtimes ≡ rs = cc in
            let queue : count p removed.holder.ready_mailbox ≡ count p (taken.0 ∷ removed.rest) =
              ap (count p) removed.queue in
            let same : in_runtime p (without_head removed.rest removed.holder)
                ≡ in_runtime p removed.holder =
              ground (arith, queue, other) in
            record {
              same_count = ground (arith, removed.counted, other);
              same_left = λ ns. rw out (
                  left_behind-modify p id (without_head removed.rest) (λ r. refl) value.runtimes rs
                    ns removed.holder e removed.found same);
              still_unique = λ u. rw out (
                  unique_ids-modify p id (without_head removed.rest) (λ r. refl) value.runtimes rs e
                    u);
            }
      ]

module _ {V P M F : Type 0} (engine : Engine V P M F) (aggregate : NativeAggregate V M)
    (k : String) where
  -- What a settled document and its report hold of an event id, against what there was.
  abbrev pub Conserved : Document V M → List (EmissionResult V) → List LifecycleDisposition → Type 0
  Conserved value emissions lifecycle =
      copies (is_event k) value + count (reports k) lifecycle
      ≡ copies (is_event k) aggregate.document + count (names_event k) emissions

  pub settle-Conserved :
      (id causal : String) (state : NativeAggregate V M) (result : CoreResult V P M F)
      (head : Entry V) (queue : List (Entry V)) (r : RuntimeRecord V M) (settled : Settled V M)
      → unique_ids aggregate.document.runtimes ≡ true
      → find_runtime id aggregate.document.runtimes ≡ some r
      → r.ready_mailbox ≡ head ∷ queue
      → is_event k head ≡ false
      → str_eq k causal ≡ false
      → settle engine aggregate id causal state result ≡ ok settled
      → Conserved settled.value settled.emissions settled.lifecycle
  unfolding settle
  settle-Conserved id causal state result head queue r settled unique found ready other apart h =
      let p = is_event k in
      let document = aggregate.document in
      elim (Result-cases (remove_ready_head id document)) [
        | inr (x, e) ↦ cc
        | inl (taken, e) ↦ elim (Result-cases (merge_native_state engine taken.1 state)) [
          | inr (x, e₁) ↦ cc
          | inl (merged, e₁) ↦
              elim (Result-cases (
                dispose_removed_mailboxes result.emissions state.root.status causal
                  document.runtimes merged)) [
                    | inr (x, e₂) ↦ cc
                    | inl (kept, e₂) ↦
                        elim (Result-cases
                          (append_step_emissions engine document result.emissions kept.1 kept.0)) [
                            | inr (x, e₃) ↦ cc
                            | inl (done, e₃) ↦
                                let removed = remove_ready_head-Removed p id document taken e in
                                let holder : removed.holder ≡ r = cc (removed.found) in
                                let queues : taken.0 ∷ removed.rest ≡ head ∷ queue =
                                  sym removed.queue
                                  ∙ ap (λ (x : RuntimeRecord V M). x.ready_mailbox) holder
                                  ∙ ready in
                                let same_head : taken.0 ≡ head = cc in
                                let untouched =
                                  Removed-Untouched p id document taken removed
                                    (rw same_head other) in
                                let merge = merge_lem p engine taken.1 merged state e₁ in
                                let shared =
                                  gathered_or_left p taken.1.runtimes (runtimes_of state)
                                    (untouched.still_unique unique) merge.2 in
                                let left =
                                  left_behind-same p document.runtimes merged.runtimes
                                    (runtimes_of state) merge.1 in
                                let disposed =
                                  dispose_removed_lem k causal apart result.emissions
                                    state.root.status document.runtimes merged kept e₂ in
                                let emitted =
                                  append_step_lem engine document k result.emissions kept.1 kept.0
                                    done e₃ in
                                let out : settled ≡ record {
                                  value = done.0;
                                  emissions = done.2;
                                  lifecycle = done.1;
                                } =
                                  cc in
                                rw out (
                                  omega (
                                    arith,
                                    untouched.same_count,
                                    untouched.same_left (runtimes_of state),
                                    merge.0,
                                    shared,
                                    left,
                                    disposed,
                                    emitted,
                                  ))
                          ]
                  ]
        ]
      ]
