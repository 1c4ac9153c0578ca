-- ===== src/State/Machine.antt =====
-- The compiled machine of format1/compile.rs and the part of `RuntimeState` of format1/runtime.rs
-- that holds the configuration. `J` stands for `serde_json::Value`. A `BTreeMap` is an association
-- list, a `BTreeSet` of paths the list of its elements in order.
use determa_state_rust.Prelude.{ℕ, String, Bool, Option, List}
use determa_state_rust.State.Paths.{StatePath}

-- `HistoryKind` of format1/model.rs
pub data HistoryKind : Type 0 where
  none shallow deep : HistoryKind

pub data CompiledStateKind : Type 0 where
  simple composite parallel final choice : CompiledStateKind

-- `Guard` of format1/model.rs
pub data Guard (J : Type 0) : Type 0 where
  cel : String → Guard J
  provider : J → Guard J

pub data CompiledTarget : Type 0 where
  state history : StatePath → CompiledTarget

pub data CompiledSendTarget : Type 0 where
  self_target owner external : CompiledSendTarget
  component instance_of : String → CompiledSendTarget

-- `BindingExpressions` of format1/model.rs
pub record BindingExpressions : Type 0 where
  pub input : List (String × String)
  pub external : List (String × String)

pub data CompiledActionKind (J : Type 0) : Type 0 where
  assign : String → String → CompiledActionKind J
  send :
      String
      → List CompiledSendTarget
      → List (String × String)
      → Option String
      → CompiledActionKind J
  refresh : Option (List String) → CompiledActionKind J
  spawn : String → BindingExpressions → Option String → CompiledActionKind J
  cancel : String → CompiledActionKind J
  stop : CompiledActionKind J
  provider_actions : J → CompiledActionKind J

pub record CompiledAction (J : Type 0) : Type 0 where
  pub kind : CompiledActionKind J
  pub pointer : String

pub record CompiledInitial (J : Type 0) : Type 0 where
  pub target : StatePath
  pub action : List (CompiledAction J)
  pub pointer : String

pub record CompiledChoice (J : Type 0) : Type 0 where
  pub target : CompiledTarget
  pub guard : Option (Guard J)
  pub guard_pointer : Option String
  pub action : List (CompiledAction J)
  pub pointer : String

pub record CompiledTransition (J : Type 0) : Type 0 where
  pub target : Option CompiledTarget
  pub guard : Option (Guard J)
  pub guard_pointer : Option String
  pub action : List (CompiledAction J)
  pub local : Bool
  pub pointer : String

-- `State`, without `variables`, `components` and `deferred_event_capacity`.
pub record State (J : Type 0) : Type 0 where
  pub path : StatePath
  pub pointer : String
  pub parent : Option StatePath
  pub kind : CompiledStateKind
  pub entry : List (CompiledAction J)
  pub exit : List (CompiledAction J)
  pub initial : Option (CompiledInitial J)
  pub children : List StatePath
  pub handlers : List (String × List (CompiledTransition J))
  pub deferred_events : List String
  pub history : HistoryKind
  pub choice : Option (List (CompiledChoice J))

-- `Machine`, without its index, events, meta and providers.
pub record Machine (J : Type 0) : Type 0 where
  pub machine_id : String
  pub version : ℕ
  pub states : List (StatePath × State J)
  pub root_pointer : String

pub data RuntimeStatus : Type 0 where
  running completed faulted : RuntimeStatus

-- The configuration of a `RuntimeState`.
pub record RuntimeState (J : Type 0) : Type 0 where
  pub runtime_id : String
  pub definition : Machine J
  pub status : RuntimeStatus
  pub active : List StatePath
  pub history : List (StatePath × Option (List StatePath))
