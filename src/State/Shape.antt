-- ===== src/State/Shape.antt =====
-- `validate_machine_shape` of format1/runtime.rs: the root, and the links between states and children.
pub mod Linked
use determa_state_rust.Prelude.{
  String, Bool, true, false, not, Option, none, some, List, ◌&&◌, ◌||◌, any, all, str_eq,
  if◌then◌else◌,
}
use determa_state_rust.State.Paths.{StatePath, root, path_eq}
use determa_state_rust.State.Machine.{State, Machine}
use determa_state_rust.State.Search.{lookup}

abbrev pub has_parent : Option StatePath → Bool
has_parent none = false
has_parent (some q) = true

-- `child.parent.as_deref() == Some(path)`
abbrev pub parent_is : StatePath → Option StatePath → Bool
parent_is path none = false
parent_is path (some q) = path_eq q path

module _ {J : Type 0} where
  abbrev pub lists_child : StatePath → Option (State J) → Bool
  lists_child path none = false
  lists_child path (some s) = any (λ c. path_eq c path) s.children

  abbrev pub is_child_of : StatePath → Option (State J) → Bool
  is_child_of path none = false
  is_child_of path (some c) = parent_is path c.parent

  abbrev pub parent_links : Machine J → StatePath → Option StatePath → Bool
  parent_links m path none = true
  parent_links m path (some q) = lists_child path (lookup q m.states)

  -- The body of `machine.states.iter().all(…)`
  abbrev pub entry_fits : Machine J → StatePath × State J → Bool
  entry_fits m (path, s) =
      path_eq path s.path
      && not (str_eq s.pointer "")
      && parent_links m path s.parent
      && all (λ child. is_child_of path (lookup child m.states)) s.children

  abbrev pub root_fits : Machine J → Option (State J) → Bool
  root_fits m none = false
  root_fits m (some r) =
      if has_parent r.parent || not (path_eq r.path root) || not (str_eq m.root_pointer r.pointer)
      then false
      else all (entry_fits m) m.states

  unfoldable pub validate_machine_shape : Machine J → Bool
  validate_machine_shape m = root_fits m (lookup root m.states)
