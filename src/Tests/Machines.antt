-- ===== src/Tests/Machines.antt =====
-- A small machine: `root` with a state `a`, which has a leaf `a.b`. `J` is instantiated by texts.
use determa_state_rust.Prelude.{String, Bool, false, Option, none, some, List, [], ◌∷◌, str_eq}
use determa_state_rust.State.Paths.{StatePath, root}
use determa_state_rust.State.Machine.{
  HistoryKind, CompiledStateKind, simple, composite, Guard, cel, CompiledTarget, CompiledTransition,
  State, Machine, RuntimeState, running,
}

abbrev pub path_a : StatePath
path_a = b'a' ∷ []

abbrev pub path_ab : StatePath
path_ab = b'a' ∷ b'.' ∷ b'b' ∷ []

abbrev pub guarded : String → CompiledTransition String
guarded source = record {
  target = some (CompiledTarget.state path_a);
  guard = some (cel source);
  guard_pointer = some "/guard";
  action = [];
  local = false;
  pointer = "/transition";
}

abbrev state_of :
    StatePath
    → Option StatePath
    → CompiledStateKind
    → List StatePath
    → List (String × List (CompiledTransition String))
    → List String
    → State String
state_of path parent kind children handlers deferred_events = record {
  path = path;
  pointer = "/state";
  parent = parent;
  kind = kind;
  entry = [];
  exit = [];
  initial = none;
  children = children;
  handlers = handlers;
  deferred_events = deferred_events;
  history = HistoryKind.none;
  choice = none;
}

abbrev pub small : Machine String
small = record {
  machine_id = "small";
  version = 1;
  root_pointer = "/state";
  states =
      (root, state_of root none composite (path_a ∷ []) (("go", guarded "ready" ∷ []) ∷ []) [])
      ∷ (path_a, state_of path_a (some root) composite (path_ab ∷ []) [] ("wait" ∷ []))
      ∷ (
        path_ab,
        state_of path_ab (some path_a) simple []
            (("go", guarded "never" ∷ guarded "ready" ∷ []) ∷ []) [],
      )
      ∷ [];
}

abbrev pub in_leaf : RuntimeState String
in_leaf = record {
  runtime_id = "runtime";
  definition = small;
  status = running;
  active = path_a ∷ path_ab ∷ root ∷ [];
  history = [];
}

-- Guards that pass exactly if they read `ready`.
abbrev pub ready : StatePath → Guard String → Option Bool
ready p (cel source) = some (str_eq source "ready")
ready p (Guard.provider j) = none
