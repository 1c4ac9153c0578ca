-- ===== src/Mailbox/Step/Disposed.antt =====
-- What `dispose_removed_mailboxes` and `append_step_emissions` of format1/v1.rs report is what they take from
-- the mailboxes, or never put there.
use determa_state_rust.Prelude.{
  ◌+◌, String, Bool, false, Option, none, some, List, [], ◌∷◌, ◌++◌, ◌≡◌, refl, str_eq, eq_iff,
  arith, Bool-cases, inl, inr, if◌then◌else◌, any_of_find-none, any_of_find-some,
}
use determa_state_rust.Checkpoint.ByKey.{count, count-append}
use determa_state_rust.State.Machine.{RuntimeStatus}
use determa_state_rust.Mailbox.Records.{ok, Result-cases, Entry, RuntimeRecord, Document, Emission}
use determa_state_rust.Mailbox.Copies.{is_event, in_runtime, held, copies, update_runtime_lem}
use determa_state_rust.Mailbox.Documents.{find_runtime, has_id, update_runtime}
use determa_state_rust.Mailbox.Step.Dispose.{
  LifecycleReason, LifecycleDisposition, dispose_entries, disposed_runtime, clear_mailboxes,
  clear_and_dispose, dispose_runtime, dispose_removed_mailboxes, removal_reason, is_completed,
}
use determa_state_rust.Mailbox.Step.Reindex.{left_behind}
use determa_state_rust.Mailbox.Documents.{has_runtime}
use determa_state_rust.Mailbox.Step.Merged.{has_runtime-update}

-- The test for dispositions of one event id.
abbrev pub reports : String → LifecycleDisposition → Bool
reports event_id disposition = str_eq disposition.event_id event_id

pub left_behind-same :
    {V M : Type 0} (p : Entry V → Bool) (rs ns ms : List (RuntimeRecord V M))
    → ((id : String) → has_runtime id ns ≡ has_runtime id ms)
    → left_behind p rs ns ≡ left_behind p rs ms
unfolding left_behind
left_behind-same p [] ns ms k = refl
left_behind-same p (r ∷ rs) ns ms k = ground (arith, left_behind-same p rs ns ms k, k r.runtime_id)

module _ {V : Type 0} (k causal : String) (other : str_eq k causal ≡ false) where
  count-dispose_entries :
      (id : String) (reason : LifecycleReason) (es : List (Entry V))
      → count (reports k) (dispose_entries causal id reason es) ≡ count (is_event k) es
  unfolding dispose_entries
  count-dispose_entries id reason [] = refl
  count-dispose_entries id reason (e ∷ es) = ground (
    arith,
    count-dispose_entries id reason es,
    other,
    eq_iff k causal,
    eq_iff e.envelope.event_id k,
    eq_iff e.envelope.event_id causal,
  )

  count-disposed_runtime :
      {M : Type 0} (reason : LifecycleReason) (r : RuntimeRecord V M)
      → count (reports k) (disposed_runtime causal reason r) ≡ in_runtime (is_event k) r
  count-disposed_runtime reason r = omega (
    arith,
    count-append (reports k) (dispose_entries causal r.runtime_id reason r.ready_mailbox)
        (dispose_entries causal r.runtime_id reason r.deferred_mailbox),
    count-dispose_entries r.runtime_id reason r.ready_mailbox,
    count-dispose_entries r.runtime_id reason r.deferred_mailbox,
  )

  cleared_lem :
      {M : Type 0} (r : RuntimeRecord V M) (new : Document V M) (candidate : RuntimeRecord V M)
      (done : Document V M × List LifecycleDisposition) (reason : LifecycleReason)
      → find_runtime r.runtime_id new.runtimes ≡ some candidate
      → clear_and_dispose causal reason candidate r.runtime_id new ≡ ok done
      → (copies (is_event k) done.0 + count (reports k) done.1
          ≡ copies (is_event k) new
            + (if has_runtime r.runtime_id new.runtimes then 0 else in_runtime (is_event k) r))
        × ((id : String) → has_runtime id done.0.runtimes ≡ has_runtime id new.runtimes)
  unfolding clear_and_dispose clear_mailboxes
  cleared_lem r new candidate done reason f h =
      let present = any_of_find-some (has_id r.runtime_id) new.runtimes candidate f in
      elim (Result-cases (update_runtime r.runtime_id clear_mailboxes new)) [
        | inr (x, e) ↦ absurd (cc)
        | inl (next, e) ↦
            let after : done.0 ≡ next = cc in
            let out : done.1 ≡ disposed_runtime causal reason candidate = cc in
            let (frame, (s, found, changed)) =
              update_runtime_lem (is_event k) r.runtime_id clear_mailboxes new next e in
            let who : s ≡ candidate = cc in
            let here : held (is_event k) next.runtimes + in_runtime (is_event k) candidate
                ≡ held (is_event k) new.runtimes + 0 =
              rw who at changed in
            (
              rw (after, out)
                  (ground (arith, present, here, count-disposed_runtime reason candidate)),
              λ id.
                  rw after
                    (has_runtime-update id r.runtime_id clear_mailboxes new next (λ x. refl) e),
            )
      ]

  -- A round of the loop moves what it clears to the report, and reports a runtime that is gone.
  dispose_runtime_lem :
      {M P : Type 0} (emissions : List (Emission P)) (status : RuntimeStatus)
      (r : RuntimeRecord V M) (new : Document V M) (o : Option (RuntimeRecord V M))
      (done : Document V M × List LifecycleDisposition)
      → find_runtime r.runtime_id new.runtimes ≡ o
      → dispose_runtime emissions status causal r o new ≡ ok done
      → (copies (is_event k) done.0 + count (reports k) done.1
          ≡ copies (is_event k) new
            + (if has_runtime r.runtime_id new.runtimes then 0 else in_runtime (is_event k) r))
        × ((id : String) → has_runtime id done.0.runtimes ≡ has_runtime id new.runtimes)
  unfolding dispose_runtime
  dispose_runtime_lem emissions status r new none done f h =
      let after : done.0 ≡ new = cc in
      let out : done.1 ≡ disposed_runtime causal (removal_reason status emissions r.runtime_id) r =
        cc in
      let absent = any_of_find-none (has_id r.runtime_id) new.runtimes f in
      (
        rw (after, out)
            (ground (
              arith,
              absent,
              count-disposed_runtime (removal_reason status emissions r.runtime_id) r,
            )),
        λ id. rw after,
      )
  dispose_runtime_lem emissions status r new (some candidate) done f h =
      let present = any_of_find-some (has_id r.runtime_id) new.runtimes candidate f in
      elim (Bool-cases (is_completed status)) [
        | inr e ↦
            let after : done.0 ≡ new = cc in
            let out : done.1 ≡ [] = cc in
            (rw (after, out) (ground (arith, present)), λ id. rw after)
        | inl e ↦
            cleared_lem r new candidate done (removal_reason status emissions r.runtime_id) f (cc)
      ]

  -- The whole loop.
  pub dispose_removed_lem :
      {M P : Type 0} (emissions : List (Emission P)) (status : RuntimeStatus)
      (rs : List (RuntimeRecord V M)) (new : Document V M)
      (done : Document V M × List LifecycleDisposition)
      → dispose_removed_mailboxes emissions status causal rs new ≡ ok done
      → copies (is_event k) done.0 + count (reports k) done.1
        ≡ copies (is_event k) new + left_behind (is_event k) rs new.runtimes
  unfolding dispose_removed_mailboxes left_behind
  dispose_removed_lem emissions status [] new done h =
      let after : done.0 ≡ new = cc in let out : done.1 ≡ [] = cc in rw (after, out)
  dispose_removed_lem emissions status (r ∷ rs) new done h =
      elim (Result-cases
        (dispose_runtime emissions status causal r (find_runtime r.runtime_id new.runtimes) new)) [
          | inr (x, e) ↦ cc
          | inl (first, e) ↦
              elim (Result-cases (dispose_removed_mailboxes emissions status causal rs first.0)) [
                | inr (x, e') ↦ cc
                | inl (rest, e') ↦
                    let after : done.0 ≡ rest.0 = cc in
                    let out : done.1 ≡ first.1 ++ rest.1 = cc in
                    let one =
                      dispose_runtime_lem emissions status r new
                        (find_runtime r.runtime_id new.runtimes) first refl e in
                    let ih = dispose_removed_lem emissions status rs first.0 rest e' in
                    let same =
                      left_behind-same (is_event k) rs first.0.runtimes new.runtimes one.1 in
                    rw (after, out)
                      (ground (arith, one.0, ih, same, count-append (reports k) first.1 rest.1))
              ]
        ]
