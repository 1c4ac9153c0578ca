-- ===== src/Mailbox/Step/Reindex.antt =====
-- What `merge_native_state` of format1/v1.rs keeps and what it leaves behind: every entry of the old document
-- either moves to the runtime of that id in the engine's state, or belongs to a runtime that is gone.
use determa_state_rust.Prelude.{
  ℕ, ◌+◌, String, Bool, true, false, Option, none, some, List, [], ◌∷◌, ◌≡◌, refl, ap, sym, str_eq,
  eq_iff, arith, Bool-cases, Option-cases, inl, inr, if◌then◌else◌,
}
use determa_state_rust.Mailbox.Records.{Entry, RuntimeRecord}
use determa_state_rust.Mailbox.Copies.{in_runtime, held}
use determa_state_rust.Mailbox.Documents.{has_runtime, unique_ids, find_runtime, has_id, modify}

module _ {V M : Type 0} (p : Entry V → Bool) where
  abbrev pub in_found : Option (RuntimeRecord V M) → ℕ
  in_found none = 0
  in_found (some r) = in_runtime p r

  -- What the runtimes `ns` find under their ids in `rs`.
  unfoldable pub gathered : List (RuntimeRecord V M) → List (RuntimeRecord V M) → ℕ
  gathered rs [] = 0
  gathered rs (n ∷ ns) = in_found (find_runtime n.runtime_id rs) + gathered rs ns

  -- What stands in `rs` under an id that no runtime of `ns` has.
  unfoldable pub left_behind : List (RuntimeRecord V M) → List (RuntimeRecord V M) → ℕ
  left_behind [] ns = 0
  left_behind (r ∷ rs) ns =
      (if has_runtime r.runtime_id ns then 0 else in_runtime p r) + left_behind rs ns

  find-none_of_absent :
      (id : String) (rs : List (RuntimeRecord V M))
      → has_runtime id rs ≡ false
      → find_runtime id rs ≡ none
  find-none_of_absent id [] h = refl
  find-none_of_absent id (r ∷ rs) h = ground (arith, find-none_of_absent id rs)

  -- A record whose id nobody else has is found by the runtime of that id, if there is one.
  gathered-cons :
      (r : RuntimeRecord V M) (rs ns : List (RuntimeRecord V M))
      → has_runtime r.runtime_id rs ≡ false
      → unique_ids ns ≡ true
      → gathered (r ∷ rs) ns
        ≡ gathered rs ns + (if has_runtime r.runtime_id ns then in_runtime p r else 0)
  unfolding gathered unique_ids
  gathered-cons r rs [] h u = refl
  gathered-cons r rs (n ∷ ns) h u =
      let ih = gathered-cons r rs ns h in
      elim (Bool-cases (str_eq r.runtime_id n.runtime_id)) [
        | inl e ↦
            let same : r.runtime_id ≡ n.runtime_id = (eq_iff r.runtime_id n.runtime_id).0 e in
            let absent = find-none_of_absent r.runtime_id rs h in
            let absent' : find_runtime n.runtime_id rs ≡ none = rw (sym same) absent in
            let alone : has_runtime r.runtime_id ns ≡ has_runtime n.runtime_id ns =
              ap (λ (x : String). has_runtime x ns) same in
            ground (arith, ih, absent', alone, eq_iff n.runtime_id r.runtime_id)
        | inr e ↦
            ground (arith, ih, eq_iff n.runtime_id r.runtime_id, eq_iff r.runtime_id n.runtime_id)
      ]

  gathered-nil : (ns : List (RuntimeRecord V M)) → gathered [] ns ≡ 0
  unfolding gathered
  gathered-nil [] = refl
  gathered-nil (n ∷ ns) = omega (arith, gathered-nil ns)

  -- Every entry of `rs` is found or left behind.
  pub gathered_or_left :
      (rs ns : List (RuntimeRecord V M))
      → unique_ids rs ≡ true
      → unique_ids ns ≡ true
      → gathered rs ns + left_behind rs ns ≡ held p rs
  unfolding left_behind held unique_ids
  gathered_or_left [] ns u v = omega (arith, gathered-nil ns)
  gathered_or_left (r ∷ rs) ns u v =
      ground (arith, gathered_or_left rs ns, gathered-cons r rs ns, v)

module _ {V M : Type 0} (id : String) where
  -- A write that keeps the record's id keeps who is there.
  pub has_runtime-modify :
      (other : String) (f : RuntimeRecord V M → RuntimeRecord V M)
      (rs rs' : List (RuntimeRecord V M))
      → ((r : RuntimeRecord V M) → (f r).runtime_id ≡ r.runtime_id)
      → modify other f rs ≡ some rs'
      → has_runtime id rs' ≡ has_runtime id rs
  unfolding modify
  has_runtime-modify other f [] rs' k h = cc
  has_runtime-modify other f (r ∷ rs) rs' k h = elim (Bool-cases (has_id other r)) [
    | inl e ↦
        let written : some (f r ∷ rs) ≡ some rs' = rw e at h in
        let same : rs' ≡ f r ∷ rs = cc in rw (same, k r)
    | inr e ↦ elim (Option-cases (modify other f rs)) [
      | inl e' ↦ cc
      | inr (rest, e') ↦
          let same : rs' ≡ r ∷ rest = cc in
          rw same (ground (arith, has_runtime-modify other f rs rest k e'))
    ]
  ]

-- A write that keeps a record's id and its count.
module _ {V M : Type 0} (p : Entry V → Bool) (id : String)
    (f : RuntimeRecord V M → RuntimeRecord V M)
    (keeps : (r : RuntimeRecord V M) → (f r).runtime_id ≡ r.runtime_id) where
  pub left_behind-modify :
      (rs rs' ns : List (RuntimeRecord V M)) (r : RuntimeRecord V M)
      → modify id f rs ≡ some rs'
      → find_runtime id rs ≡ some r
      → in_runtime p (f r) ≡ in_runtime p r
      → left_behind p rs' ns ≡ left_behind p rs ns
  unfolding modify left_behind
  left_behind-modify [] rs' ns r h found same = cc
  left_behind-modify (s ∷ rs) rs' ns r h found same = elim (Bool-cases (has_id id s)) [
    | inl e ↦
        let written : some (f s ∷ rs) ≡ some rs' = rw e at h in
        let out : rs' ≡ f s ∷ rs = cc in
        let here : some s ≡ some r = rw e at found in
        let who : s ≡ r = cc in
        let same' : in_runtime p (f s) ≡ in_runtime p s = rw who same in rw (out, keeps s, same')
    | inr e ↦ elim (Option-cases (modify id f rs)) [
      | inl e' ↦ cc
      | inr (rest, e') ↦
          let out : rs' ≡ s ∷ rest = cc in
          let ih = left_behind-modify rs rest ns r e' (rw e at found) same in
          rw out (ground (arith, ih))
    ]
  ]

  pub unique_ids-modify :
      (rs rs' : List (RuntimeRecord V M))
      → modify id f rs ≡ some rs'
      → unique_ids rs ≡ true
      → unique_ids rs' ≡ true
  unfolding modify unique_ids
  unique_ids-modify [] rs' h u = cc
  unique_ids-modify (s ∷ rs) rs' h u = elim (Bool-cases (has_id id s)) [
    | inl e ↦
        let written : some (f s ∷ rs) ≡ some rs' = rw e at h in
        let out : rs' ≡ f s ∷ rs = cc in rw (out, keeps s) u
    | inr e ↦ elim (Option-cases (modify id f rs)) [
      | inl e' ↦ cc
      | inr (rest, e') ↦
          let out : rs' ≡ s ∷ rest = cc in
          let ih = unique_ids-modify rs rest e' in
          let kept = has_runtime-modify s.runtime_id id f rs rest keeps e' in
          rw out (ground (arith, ih, kept))
    ]
  ]
