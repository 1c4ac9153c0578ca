-- ===== src/Mailbox/Copies.antt =====
-- How many entries of a document pass a test, and how the seal and a write to one runtime change that.
use determa_state_rust.Prelude.{
  ◌≤◌, true, if◌then◌else◌, ℕ, ◌+◌, String, Bool, false, Option, none, some, List, [], ◌∷◌, ◌≡◌,
  refl, ap, ◌∙◌, str_eq, arith, Bool-cases, inl, inr,
}
use determa_state_rust.Checkpoint.ByKey.{count, count-sort_by_key}
use determa_state_rust.Mailbox.Records.{
  Result, ok, err, ◌>>=◌, ok_or, Entry, RuntimeRecord, Document, Engine,
}
use determa_state_rust.Mailbox.Documents.{
  find_runtime, modify, update_runtime, by_queue_sequence, sort_mailboxes, insert_by_id,
  sort_runtimes, seal_aggregate, has_id,
}

-- The test for one event id.
abbrev pub is_event : {V : Type 0} → String → Entry V → Bool
is_event event_id entry = str_eq entry.envelope.event_id event_id

abbrev pub one_if : Bool → ℕ
one_if b = if b then 1 else 0

module _ {V M : Type 0} (p : Entry V → Bool) where
  abbrev pub in_runtime : RuntimeRecord V M → ℕ
  in_runtime r = count p r.ready_mailbox + count p r.deferred_mailbox

  unfoldable pub held : List (RuntimeRecord V M) → ℕ
  held [] = 0
  held (r ∷ rs) = in_runtime r + held rs

  abbrev pub copies : Document V M → ℕ
  copies value = held value.runtimes

  held-insert_by_id :
      (r : RuntimeRecord V M) (rs : List (RuntimeRecord V M))
      → held (insert_by_id r rs) ≡ in_runtime r + held rs
  unfolding held insert_by_id
  held-insert_by_id r [] = refl
  held-insert_by_id r (s ∷ rs) = ground (arith, held-insert_by_id r rs)

  in_runtime-sort : (r : RuntimeRecord V M) → in_runtime (sort_mailboxes r) ≡ in_runtime r
  unfolding sort_mailboxes
  in_runtime-sort r = omega (
    arith,
    count-sort_by_key by_queue_sequence p r.ready_mailbox,
    count-sort_by_key by_queue_sequence p r.deferred_mailbox,
  )

  pub held-sort_runtimes : (rs : List (RuntimeRecord V M)) → held (sort_runtimes rs) ≡ held rs
  unfolding held sort_runtimes
  held-sort_runtimes [] = refl
  held-sort_runtimes (r ∷ rs) = omega (
    arith,
    held-insert_by_id (sort_mailboxes r) (sort_runtimes rs),
    in_runtime-sort r,
    held-sort_runtimes rs,
  )

-- A test that asks for more counts less.
module _ {V : Type 0} (p q : Entry V → Bool)
    (weaker : (e : Entry V) → p e ≡ true → q e ≡ true) where
  count-le : (es : List (Entry V)) → count p es ≤ count q es
  count-le [] = omega arith
  count-le (e ∷ es) = ground (arith, count-le es, weaker e)

  pub held-le : {M : Type 0} (rs : List (RuntimeRecord V M)) → held p rs ≤ held q rs
  unfolding held
  held-le [] = omega arith
  held-le (r ∷ rs) =
      omega (arith, count-le r.ready_mailbox, count-le r.deferred_mailbox, held-le rs)

-- A write to a runtime and the seal touch nothing but the runtimes and the digest.
pub record SameFrame {V M : Type 0} (value next : Document V M) : Type 0 where
  pub bundle : next.validated_bundle_fingerprint ≡ value.validated_bundle_fingerprint
  pub instance_id : next.root_instance_id ≡ value.root_instance_id
  pub runtime_id : next.root_runtime_id ≡ value.root_runtime_id
  pub acceptance : next.next_acceptance_sequence ≡ value.next_acceptance_sequence
  pub queue : next.next_queue_sequence ≡ value.next_queue_sequence

module _ {V M : Type 0} where
  seal_with :
      (value sealed : Document V M) (digest : Result String)
      → (digest >>= λ (d : String).
          ok (record value { runtimes = sort_runtimes value.runtimes; aggregate_state_digest = d }))
        ≡ ok sealed
      → (sealed.runtimes ≡ sort_runtimes value.runtimes) × SameFrame value sealed
  seal_with value sealed (err e) h = cc
  seal_with value sealed (ok d) h =
      (cc, record { bundle = cc; instance_id = cc; runtime_id = cc; acceptance = cc; queue = cc })

  pub seal_aggregate_lem :
      {P F : Type 0} (engine : Engine V P M F) (value sealed : Document V M)
      → seal_aggregate engine value ≡ ok sealed
      → (sealed.runtimes ≡ sort_runtimes value.runtimes) × SameFrame value sealed
  unfolding seal_aggregate
  seal_aggregate_lem engine value sealed h = seal_with value sealed _ h

  pub copies-seal_aggregate :
      {P F : Type 0} (p : Entry V → Bool) (engine : Engine V P M F) (value sealed : Document V M)
      → seal_aggregate engine value ≡ ok sealed
      → copies p sealed ≡ copies p value
  copies-seal_aggregate p engine value sealed h =
      ap (held p) (seal_aggregate_lem engine value sealed h).0 ∙ held-sort_runtimes p value.runtimes

-- A write to a runtime finds it, and changes the count by what it does to that runtime.
module _ {V M : Type 0} (p : Entry V → Bool) (id : String)
    (f : RuntimeRecord V M → RuntimeRecord V M) where
  abbrev pub Modified : List (RuntimeRecord V M) → List (RuntimeRecord V M) → Type 0
  Modified rs rs' =
      (r : RuntimeRecord V M) × (find_runtime id rs ≡ some r)
      × (held p rs' + in_runtime p r ≡ held p rs + in_runtime p (f r))

  modify_rest :
      (r : RuntimeRecord V M) (rs rs' : List (RuntimeRecord V M))
      (o : Option (List (RuntimeRecord V M)))
      → has_id id r ≡ false
      → elim o [ none ↦ none | some rest ↦ some (r ∷ rest) ] ≡ some rs'
      → ((rest : List (RuntimeRecord V M)) → o ≡ some rest → Modified rs rest)
      → Modified (r ∷ rs) rs'
  unfolding held
  modify_rest r rs rs' none other h ih = cc
  modify_rest r rs rs' (some rest) other h ih =
      let (s, found, counted) = ih rest refl in
      let e : rs' ≡ r ∷ rest = cc in
      let same : held p rs' ≡ in_runtime p r + held p rest = ap (held p) e in
      (s, rw other found, omega arith)

  pub modify_lem : (rs rs' : List (RuntimeRecord V M)) → modify id f rs ≡ some rs' → Modified rs rs'
  unfolding modify held
  modify_lem [] rs' h = cc
  modify_lem (r ∷ rs) rs' h = elim (Bool-cases (has_id id r)) [
    | inl here ↦
        let written : some (f r ∷ rs) ≡ some rs' = rw here at h in
        let same : rs' ≡ f r ∷ rs = cc in
        let counted : held p rs' ≡ in_runtime p (f r) + held p rs = ap (held p) same in
        (r, ground arith, omega arith)
    | inr other ↦
        modify_rest r rs rs' (modify id f rs) other (rw other at h) (λ rest. modify_lem rs rest)
  ]

  written_lem :
      (value next : Document V M) (o : Option (List (RuntimeRecord V M)))
      → ((rs : List (RuntimeRecord V M)) → o ≡ some rs → Modified value.runtimes rs)
      → (ok_or o "target runtime is absent" >>= λ (rs : List (RuntimeRecord V M)).
          ok (record value { runtimes = rs }))
        ≡ ok next
      → SameFrame value next × Modified value.runtimes next.runtimes
  written_lem value next none k h = cc
  written_lem value next (some rs) k h =
      let same : next.runtimes ≡ rs = cc in
      (
        record { bundle = cc; instance_id = cc; runtime_id = cc; acceptance = cc; queue = cc },
        rw same (k rs refl),
      )

  -- The whole of a write through `runtime_object_mut`.
  pub update_runtime_lem :
      (value next : Document V M)
      → update_runtime id f value ≡ ok next
      → SameFrame value next × Modified value.runtimes next.runtimes
  unfolding update_runtime
  update_runtime_lem value next h =
      written_lem value next (modify id f value.runtimes) (modify_lem value.runtimes) h
