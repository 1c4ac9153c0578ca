-- ===== src/Tests/Selecting.antt =====
-- Paths, the configuration and handler selection at concrete inputs.
use mathlib.Core.List.{Perm}
use determa_state_rust.Prelude.{
  Bool, ◌+◌, ◌<◌, String, true, false, Option, some, [], ◌∷◌, ◌≡◌, ◌≢◌, ◌↔◌, ◌⊎◌, refl, arith, Elem,
  Every,
}
use determa_state_rust.State.Paths.{
  StatePath, root, is_descendant, path_depth, direct_child_path, strip_prefix, path_eq,
}
use determa_state_rust.State.Paths.Order.{descendant_iff, depth-lt_of_descendant, Below}
use determa_state_rust.State.Paths.Child.{IsChildToward, direct_child_lem}
use determa_state_rust.State.Machine.{Guard}
use determa_state_rust.State.Outcome.{ok, Returns}
use determa_state_rust.State.ByDepth.{sort_by_depth, LeavesFirst, sort_by_depth-LeavesFirst}
use determa_state_rust.State.Config.{config, candidates, is_leaf, sort_by_bytes, bytes_le}
use determa_state_rust.State.Config.Leaves.{config_iff}
use determa_state_rust.State.Search.{lookup, scan, climb, state_at, parent_of}
use determa_state_rust.State.Search.Total.{IsTree, IsKnown}
use determa_state_rust.State.Search.Unvisited.{scan_all, scan-eq-scan_all}
use determa_state_rust.State.Select.{
  deferred, handled, unhandled, get, decide_at, select_handler, structural_recall_eligible,
}
use determa_state_rust.State.Select.Recall.{HasTransition, recall_refused_iff}
use determa_state_rust.State.Select.Sound.{IsSelected, select_handler-IsSelected}
use determa_state_rust.State.Search.Innermost.{NothingUp, IsFirstOf}
use determa_state_rust.State.Select.Innermost.{select_handler-IsFirstOf}
use determa_state_rust.State.Select.Total.{select_handler-Returns}
use determa_state_rust.Tests.Machines.{path_a, path_ab, guarded, small, in_leaf, ready}

below_a : is_descendant path_ab path_a ≡ true
unfolding is_descendant strip_prefix path_eq
below_a = refl

descendant_iff_example : (is_descendant path_ab path_a ≡ true) ↔ Below path_ab path_a
descendant_iff_example = descendant_iff path_ab path_a

depth-lt_of_descendant_example : path_depth path_a < path_depth path_ab
depth-lt_of_descendant_example = depth-lt_of_descendant path_ab path_a below_a

direct_child_lem_example :
    (child : StatePath) × (direct_child_path path_ab path_a ≡ some child)
    × IsChildToward path_a path_ab child
direct_child_lem_example = direct_child_lem path_a path_ab below_a (λ e. ground arith)

sort_by_depth-LeavesFirst_example :
    Perm (sort_by_depth (root ∷ path_a ∷ path_ab ∷ [])) (root ∷ path_a ∷ path_ab ∷ [])
    × LeavesFirst (sort_by_depth (root ∷ path_a ∷ path_ab ∷ []))
sort_by_depth-LeavesFirst_example = sort_by_depth-LeavesFirst (root ∷ path_a ∷ path_ab ∷ [])

config_runs : config in_leaf ≡ path_ab ∷ []
unfolding config is_leaf sort_by_bytes bytes_le is_descendant strip_prefix path_eq
config_runs = refl

config_iff_example : Elem path_ab (config in_leaf) ↔ (
    Elem path_ab in_leaf.active
    × (path_ab ≢ root)
    × ((q : StatePath) → Elem q in_leaf.active → q ≢ path_ab → is_descendant q path_ab ≢ true))
config_iff_example = config_iff in_leaf path_ab

-- The leaf's second transition handles the event: the guard of its first one refuses.
go_is_handled : select_handler ready 4 in_leaf "go" ≡ ok (handled path_ab (guarded "ready"))
unfolding select_handler candidates sort_by_depth sort_by_bytes is_leaf bytes_le is_descendant
    strip_prefix path_eq path_depth scan climb state_at parent_of get
go_is_handled = refl

wait_is_refused : structural_recall_eligible 4 in_leaf "wait" ≡ ok false
unfolding structural_recall_eligible candidates sort_by_depth sort_by_bytes is_leaf bytes_le
    is_descendant strip_prefix path_eq path_depth scan climb state_at parent_of get
wait_is_refused = refl

pub small-IsTree : IsTree small
unfolding lookup is_descendant strip_prefix path_eq
small-IsTree = record {
  entries = ((refl, refl), ((refl, (refl, (_, refl))), ((refl, (refl, (_, refl))), tt)));
  rooted = (_, refl);
}

active-IsKnown : Every (λ p. IsKnown small p × (path_depth p + 1 < 4)) in_leaf.active
unfolding lookup path_depth path_eq
active-IsKnown =
    ((((_, refl), omega arith)), ((((_, refl), omega arith)), (((_, refl), omega arith), tt)))

select_handler-Returns_example : Returns (select_handler ready 4 in_leaf "go")
select_handler-Returns_example =
    select_handler-Returns ready 4 in_leaf "go" small-IsTree (omega arith) active-IsKnown

select_handler-IsSelected_example : IsSelected ready in_leaf "go" path_ab (guarded "ready")
select_handler-IsSelected_example =
    select_handler-IsSelected ready 4 in_leaf "go" path_ab (guarded "ready") go_is_handled

wait_has_transitions : Every (HasTransition "wait") in_leaf.definition.states
unfolding get
wait_has_transitions = ((λ e. cc), ((λ e. cc), ((λ e. cc), tt)))

recall_refused_iff_example : (structural_recall_eligible 4 in_leaf "wait" ≡ ok false) ↔ (
    (ask : StatePath → Guard String → Option Bool)
    → select_handler ask 4 in_leaf "wait" ≡ ok deferred)
recall_refused_iff_example = recall_refused_iff 4 in_leaf "wait" wait_has_transitions

scan-eq-scan_all_example :
    scan small (decide_at ready in_leaf "go") 4 [] (path_ab ∷ path_a ∷ [])
    ≡ scan_all small (decide_at ready in_leaf "go") 4 (path_ab ∷ path_a ∷ [])
scan-eq-scan_all_example =
    scan-eq-scan_all small (decide_at ready in_leaf "go") 4 (path_ab ∷ path_a ∷ [])

select_handler-IsFirstOf_example :
    ((handled path_ab (guarded "ready") ≡ unhandled)
      × Every
          (λ leaf. NothingUp small (decide_at ready in_leaf "go") (some leaf))
          (candidates in_leaf))
    ⊎ ((p : StatePath) × IsFirstOf small
          (decide_at ready in_leaf "go")
          (handled path_ab (guarded "ready"))
          (candidates in_leaf)
          p)
select_handler-IsFirstOf_example =
    select_handler-IsFirstOf ready 4 in_leaf "go" (handled path_ab (guarded "ready")) go_is_handled
