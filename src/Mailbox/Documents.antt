-- ===== src/Mailbox/Documents.antt =====
-- Reading and writing a document as format1/v1.rs does: a runtime record by its id, the status of the root,
-- the counters, and the seal, which sorts mailboxes and runtime records and sets the digest.
use determa_state_rust.Prelude.{
  any, not, true, ◌&&◌, ℕ, ◌+◌, String, Bool, codes, Option, none, some, List, [], ◌∷◌, ◌++◌, find,
  str_eq, if◌then◌else◌,
}
use determa_state_rust.State.Config.{bytes_le}
use determa_state_rust.State.Machine.{RuntimeStatus}
use determa_state_rust.Checkpoint.ByKey.{sort_by_key}
use determa_state_rust.Mailbox.Records.{
  Result, ok, ◌>>=◌, ok_or, Entry, RuntimeRecord, Document, Engine,
}

-- `left.runtime_id <= right.runtime_id`, as bytes
abbrev pub id_le : String → String → Bool
id_le a b = bytes_le (codes a) (codes b)

abbrev pub by_queue_sequence : {V : Type 0} → Entry V → ℕ
by_queue_sequence entry = entry.queue_sequence

module _ {V M : Type 0} where
  -- `runtime["runtime_id"].as_str() == Some(runtime_id)`
  abbrev pub has_id : String → RuntimeRecord V M → Bool
  has_id runtime_id runtime = str_eq runtime.runtime_id runtime_id

  abbrev pub find_runtime : String → List (RuntimeRecord V M) → Option (RuntimeRecord V M)
  find_runtime runtime_id = find (has_id runtime_id)

  abbrev pub has_runtime : String → List (RuntimeRecord V M) → Bool
  has_runtime id = any (has_id id)

  -- No two records have one id.
  unfoldable pub unique_ids : List (RuntimeRecord V M) → Bool
  unique_ids [] = true
  unique_ids (r ∷ rs) = not (has_runtime r.runtime_id rs) && unique_ids rs

  -- A write through `runtime_object_mut`: the first record with the id.
  unfoldable pub modify :
      String
      → (RuntimeRecord V M → RuntimeRecord V M)
      → List (RuntimeRecord V M)
      → Option (List (RuntimeRecord V M))
  modify runtime_id f [] = none
  modify runtime_id f (r ∷ rs) =
      if has_id runtime_id r
      then some (f r ∷ rs)
      else elim (modify runtime_id f rs) [ none ↦ none | some rest ↦ some (r ∷ rest) ]

  unfoldable pub update_runtime :
      String → (RuntimeRecord V M → RuntimeRecord V M) → Document V M → Result (Document V M)
  unfolding modify
  update_runtime runtime_id f value = do
    runtimes ← ok_or (modify runtime_id f value.runtimes) "target runtime is absent"
    ok (record value { runtimes = runtimes })

  unfoldable pub aggregate_status : Document V M → Result RuntimeStatus
  aggregate_status value = do
    root ← ok_or (find_runtime value.root_runtime_id value.runtimes) "root runtime status is absent"
    ok root.status

  -- `runtime_status`
  abbrev pub runtime_status : Document V M → String → Option RuntimeStatus
  runtime_status value runtime_id = elim (find_runtime runtime_id value.runtimes) [
    | none ↦ none
    | some r ↦ some r.status
  ]

  -- `allocate_counter(value, "next_acceptance_sequence")`; what it returns is the old counter.
  abbrev pub allocate_acceptance : Document V M → Document V M
  allocate_acceptance value = record value {
    next_acceptance_sequence = value.next_acceptance_sequence + 1;
  }

  -- `allocate_counter(value, "next_queue_sequence")`
  abbrev pub allocate_queue : Document V M → Document V M
  allocate_queue value = record value { next_queue_sequence = value.next_queue_sequence + 1 }

  abbrev pub push_ready : Entry V → RuntimeRecord V M → RuntimeRecord V M
  push_ready entry r = record r { ready_mailbox = r.ready_mailbox ++ (entry ∷ []) }

  unfoldable pub sort_mailboxes : RuntimeRecord V M → RuntimeRecord V M
  sort_mailboxes r = record r {
    ready_mailbox = sort_by_key by_queue_sequence r.ready_mailbox;
    deferred_mailbox = sort_by_key by_queue_sequence r.deferred_mailbox;
  }

  unfoldable pub insert_by_id :
      RuntimeRecord V M → List (RuntimeRecord V M) → List (RuntimeRecord V M)
  insert_by_id r [] = r ∷ []
  insert_by_id r (s ∷ rs) =
      if id_le r.runtime_id s.runtime_id then r ∷ s ∷ rs else s ∷ insert_by_id r rs

  -- Both sorts of `seal_aggregate`, which are stable.
  unfoldable pub sort_runtimes : List (RuntimeRecord V M) → List (RuntimeRecord V M)
  unfolding sort_mailboxes insert_by_id bytes_le sort_by_key
  sort_runtimes [] = []
  sort_runtimes (r ∷ rs) = insert_by_id (sort_mailboxes r) (sort_runtimes rs)

  unfoldable pub seal_aggregate :
      {P F : Type 0} → Engine V P M F → Document V M → Result (Document V M)
  unfolding sort_runtimes
  seal_aggregate engine value = do
    let sorted = record value { runtimes = sort_runtimes value.runtimes }
    digest ← engine.aggregate_digest sorted
    ok (record sorted { aggregate_state_digest = digest })
