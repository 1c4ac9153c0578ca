-- ===== src/State/Config/Active.antt =====
-- What holds of every active path holds of every candidate of the search.
use determa_state_rust.Prelude.{Bool, true, List, [], ◌∷◌, filter, Every, Bool-cases, inl, inr, ◌≡◌}
use determa_state_rust.State.Paths.{StatePath, root, path_eq}
use determa_state_rust.State.Paths.Prefix.{path_eq_iff}
use determa_state_rust.State.Machine.{RuntimeState}
use determa_state_rust.State.ByDepth.{Every-sort_by_depth}
use determa_state_rust.State.Search.{contains}
use determa_state_rust.State.Config.{
  bytes_le, insert_by_bytes, sort_by_bytes, is_leaf, candidates_from, candidates,
}

module _ (P : StatePath → Type 0) where
  Every-filter : (f : StatePath → Bool) (l : List StatePath) → Every P l → Every P (filter f l)
  Every-filter f [] e = tt
  Every-filter f (p ∷ l) e = elim (Bool-cases (f p)) [
    | inl a ↦ rw a (e.0, Every-filter f l e.1)
    | inr a ↦ rw a (Every-filter f l e.1)
  ]

  Every-insert :
      (q : StatePath) (l : List StatePath) → P q → Every P l → Every P (insert_by_bytes q l)
  unfolding insert_by_bytes
  Every-insert q [] h e = (h, tt)
  Every-insert q (r ∷ l) h e = elim (Bool-cases (bytes_le q r)) [
    | inl a ↦ rw a (h, (e.0, e.1))
    | inr a ↦ rw a (e.0, Every-insert q l h e.1)
  ]

  Every-sort : (l : List StatePath) → Every P l → Every P (sort_by_bytes l)
  unfolding sort_by_bytes
  Every-sort [] e = tt
  Every-sort (p ∷ l) e = Every-insert p (sort_by_bytes l) e.0 (Every-sort l e.1)

  of_contains : (p : StatePath) (l : List StatePath) → contains p l ≡ true → Every P l → P p
  of_contains p [] h e = cc
  of_contains p (q ∷ l) h e = elim (Bool-cases (path_eq p q)) [
    | inl same ↦ rw ((path_eq_iff p q).0 same) e.0
    | inr other ↦ of_contains p l (rw other at h) e.1
  ]

  Every-candidates_from :
      (active leaves : List StatePath)
      → Every P active
      → Every P leaves
      → Every P (candidates_from active leaves)
  unfolding candidates_from
  Every-candidates_from active [] a e = elim (Bool-cases (contains root active)) [
    | inl h ↦ rw h (of_contains root active h a, tt)
    | inr h ↦ rw h tt
  ]
  Every-candidates_from active (p ∷ l) a e = e

  pub Every-candidates :
      {J : Type 0} (rt : RuntimeState J) → Every P rt.active → Every P (candidates rt)
  unfolding candidates
  Every-candidates rt e = Every-sort_by_depth P _ (
      Every-candidates_from rt.active _ e
        (Every-sort _ (Every-filter _ _ (Every-filter (is_leaf rt.active) rt.active e))))
