-- ===== src/Mailbox/Step/Merged.antt =====
-- What `merge_native_state` of format1/v1.rs writes: the mailboxes of the old document under the engine's runtimes.
use determa_state_rust.Prelude.{
  String, Bool, true, Option, none, some, List, [], ◌∷◌, ◌≡◌, refl, ap, ◌∙◌, arith, Bool-cases,
  Option-cases, inl, inr, ◌&&◌, ◌||◌,
}
use determa_state_rust.Checkpoint.ByKey.{count}
use determa_state_rust.Mailbox.Records.{
  ok, Result-cases, Entry, RuntimeRecord, Document, NativeAggregate, Engine,
}
use determa_state_rust.Mailbox.Copies.{
  in_runtime, held, copies, copies-seal_aggregate, seal_aggregate_lem,
}
use determa_state_rust.Mailbox.Documents.{
  unique_ids, update_runtime, seal_aggregate, find_runtime, has_id, sort_runtimes, insert_by_id,
  sort_mailboxes, modify,
}
use determa_state_rust.Mailbox.Step.Recall.{runtimes_of}
use determa_state_rust.Mailbox.Step.Dispose.{
  copy_mailboxes, copy_wire_mailboxes, merge_native_state, has_no_entries,
}
use determa_state_rust.Mailbox.Step.Reindex.{has_runtime-modify, in_found, gathered}
use determa_state_rust.Mailbox.Documents.{has_runtime}

count-empty :
    {V : Type 0} (p : Entry V → Bool) (l : List (Entry V)) → has_no_entries l ≡ true → count p l ≡ 0
count-empty p [] h = refl
count-empty p (e ∷ l) h = cc

module _ {V M : Type 0} (p : Entry V → Bool) where
  copied_lem :
      (o : Option (RuntimeRecord V M)) (n copied : RuntimeRecord V M)
      → copy_mailboxes o n ≡ ok copied
      → (in_runtime p copied ≡ in_found p o) × (copied.runtime_id ≡ n.runtime_id)
  unfolding copy_mailboxes
  copied_lem (some wire) n copied h =
      let ready : copied.ready_mailbox ≡ wire.ready_mailbox = cc in
      let deferred : copied.deferred_mailbox ≡ wire.deferred_mailbox = cc in
      (rw (ready, deferred), cc)
  copied_lem none n copied h =
      elim (Bool-cases (has_no_entries n.ready_mailbox && has_no_entries n.deferred_mailbox)) [
        | inr e ↦ absurd (cc)
        | inl e ↦
            let same : copied ≡ n = cc in
            (
              rw same
                  (ground (arith, count-empty p n.ready_mailbox, count-empty p n.deferred_mailbox)),
              rw same,
            )
      ]

  pub copy_wire_lem :
      (retained ns out : List (RuntimeRecord V M))
      → copy_wire_mailboxes retained ns ≡ ok out
      → (held p out ≡ gathered p retained ns)
        × ((id : String) → has_runtime id out ≡ has_runtime id ns)
        × (unique_ids out ≡ unique_ids ns)
  unfolding copy_wire_mailboxes gathered held unique_ids
  copy_wire_lem retained [] out h = let same : out ≡ [] = cc in (rw same, λ id. rw same, rw same)
  copy_wire_lem retained (n ∷ ns) out h =
      elim (Result-cases (copy_mailboxes (find_runtime n.runtime_id retained) n)) [
        | inr (x, e) ↦ absurd (cc)
        | inl (copied, e) ↦ elim (Result-cases (copy_wire_mailboxes retained ns)) [
          | inr (x, e') ↦ absurd (cc)
          | inl (rest, e') ↦
              let same : out ≡ copied ∷ rest = cc in
              let one = copied_lem (find_runtime n.runtime_id retained) n copied e in
              let ih = copy_wire_lem retained ns rest e' in
              (
                rw same (omega (arith, one.0, ih.0)),
                λ id. rw (same, one.1, ih.1 id),
                rw (same, one.1, ih.1 n.runtime_id, ih.2),
              )
        ]
      ]

module _ {V M : Type 0} (id : String) where
  has_runtime-insert_by_id :
      (r : RuntimeRecord V M) (rs : List (RuntimeRecord V M))
      → has_runtime id (insert_by_id r rs) ≡ (has_id id r || has_runtime id rs)
  unfolding insert_by_id
  has_runtime-insert_by_id r [] = refl
  has_runtime-insert_by_id r (s ∷ rs) = ground (arith, has_runtime-insert_by_id r rs)

  pub has_runtime-sort_runtimes :
      (rs : List (RuntimeRecord V M)) → has_runtime id (sort_runtimes rs) ≡ has_runtime id rs
  unfolding sort_runtimes sort_mailboxes
  has_runtime-sort_runtimes [] = refl
  has_runtime-sort_runtimes (r ∷ rs) = ground (
    arith,
    has_runtime-insert_by_id (sort_mailboxes r) (sort_runtimes rs),
    has_runtime-sort_runtimes rs,
  )

pub has_runtime-update :
    {V M : Type 0} (id other : String) (f : RuntimeRecord V M → RuntimeRecord V M)
    (value next : Document V M)
    → ((r : RuntimeRecord V M) → (f r).runtime_id ≡ r.runtime_id)
    → update_runtime other f value ≡ ok next
    → has_runtime id next.runtimes ≡ has_runtime id value.runtimes
unfolding update_runtime
has_runtime-update id other f value next k h = elim (Option-cases (modify other f value.runtimes)) [
  | inl e ↦ cc
  | inr (rs, e) ↦
      let same : next.runtimes ≡ rs = cc in
      rw same (has_runtime-modify id other f value.runtimes rs k e)
]

-- The merged document: the engine's runtimes with the mailboxes that they had.
pub merge_lem :
    {V P M F : Type 0} (p : Entry V → Bool) (engine : Engine V P M F)
    (retained merged : Document V M) (state : NativeAggregate V M)
    → merge_native_state engine retained state ≡ ok merged
    → (copies p merged ≡ gathered p retained.runtimes (runtimes_of state))
      × ((id : String) → has_runtime id merged.runtimes ≡ has_runtime id (runtimes_of state))
      × (unique_ids (runtimes_of state) ≡ true)
unfolding merge_native_state
merge_lem p engine retained merged state h =
    elim (Result-cases (copy_wire_mailboxes retained.runtimes (runtimes_of state))) [
      | inr (x, e) ↦ absurd (cc)
      | inl (out, e) ↦
          let written : Document _ _ = record {
            validated_bundle_fingerprint = state.validated_bundle_fingerprint;
            root_instance_id = state.root_instance_id;
            root_runtime_id = state.root.runtime_id;
            next_acceptance_sequence = retained.next_acceptance_sequence;
            next_queue_sequence = retained.next_queue_sequence;
            runtimes = out;
            aggregate_state_digest = "";
          } in
          elim (Result-cases (engine.check_encoding state written)) [
            | inr (x, e') ↦ absurd (cc)
            | inl (u, e') ↦
                elim (Bool-cases (unique_ids out && has_runtime state.root.runtime_id out)) [
                  | inr e'' ↦ absurd (cc)
                  | inl e'' ↦
                      let sealed : seal_aggregate engine written ≡ ok merged = cc in
                      let copied = copy_wire_lem p retained.runtimes (runtimes_of state) out e in
                      (
                        copies-seal_aggregate p engine written merged sealed ∙ copied.0,
                        λ id.
                            ap (has_runtime id) (seal_aggregate_lem engine written merged sealed).0
                            ∙ has_runtime-sort_runtimes id out
                            ∙ copied.1 id,
                        ground (arith, copied.2, e''),
                      )
                ]
          ]
    ]
