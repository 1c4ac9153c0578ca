-- ===== src/State/Config.antt =====
-- `RuntimeState::config` of format1/runtime.rs: the active leaves, the root left out, and the
-- candidates from which `select_handler` and `structural_recall_eligible` start.
pub mod Leaves
pub mod Active
use Prim.Native.Nat.{Ordering, compare}
use determa_state_rust.Prelude.{
  Bool, true, false, not, List, [], ◌∷◌, ◌&&◌, any, filter, if◌then◌else◌,
}
use determa_state_rust.State.Paths.{StatePath, root, path_eq, is_descendant}
use determa_state_rust.State.Machine.{RuntimeState}
use determa_state_rust.State.ByDepth.{sort_by_depth}
use determa_state_rust.State.Search.{contains}

-- `left.as_bytes().cmp(right.as_bytes())` is not `Greater`
unfoldable pub bytes_le : StatePath → StatePath → Bool
bytes_le [] q = true
bytes_le (c ∷ p) [] = false
bytes_le (c ∷ p) (d ∷ q) =
    let rest = bytes_le p q in
    elim (compare c d) [ Ordering.lt ↦ true | Ordering.eq ↦ rest | Ordering.gt ↦ false ]

insert_by_bytes : StatePath → List StatePath → List StatePath
insert_by_bytes p [] = p ∷ []
insert_by_bytes p (q ∷ l) = if bytes_le p q then p ∷ q ∷ l else q ∷ insert_by_bytes p l

unfoldable pub sort_by_bytes : List StatePath → List StatePath
unfolding insert_by_bytes
sort_by_bytes [] = []
sort_by_bytes (p ∷ l) = insert_by_bytes p (sort_by_bytes l)

-- `candidate != *path && is_descendant(candidate, path)`
abbrev pub shadows : StatePath → StatePath → Bool
shadows path candidate = not (path_eq candidate path) && is_descendant candidate path

-- No other active path lies below `path`.
unfoldable pub is_leaf : List StatePath → StatePath → Bool
is_leaf active path = not (any (shadows path) active)

config_of : List StatePath → List StatePath
config_of active =
    sort_by_bytes (filter (λ p. not (path_eq p root)) (filter (is_leaf active) active))

-- A machine whose root alone is active has the root for its candidate.
candidates_from : List StatePath → List StatePath → List StatePath
candidates_from active [] = if contains root active then root ∷ [] else []
candidates_from active (p ∷ l) = p ∷ l

module _ {J : Type 0} where
  unfoldable pub config : RuntimeState J → List StatePath
  unfolding config_of
  config rt = config_of rt.active

  unfoldable pub candidates : RuntimeState J → List StatePath
  unfolding config candidates_from
  candidates rt = sort_by_depth (candidates_from rt.active (config rt))
