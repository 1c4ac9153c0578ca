-- ===== src/Tests/Validating.antt =====
-- The validation of an active configuration at a concrete one.
use determa_state_rust.Prelude.{true, false, [], ◌∷◌, ◌≡◌, refl, arith}
use determa_state_rust.State.Paths.{path_eq, path_depth}
use determa_state_rust.State.Outcome.{ok, Returns}
use determa_state_rust.State.Search.{lookup, state_at, parent_of}
use determa_state_rust.State.Active.{
  validate_active_configuration, orphan_up, any_orphan, kinds_fit,
}
use determa_state_rust.State.Active.Sound.{IsConfiguration, validate-IsConfiguration}
use determa_state_rust.State.Active.Total.{AreShallow, validate-Returns}
use determa_state_rust.State.Shape.{validate_machine_shape}
use determa_state_rust.State.Shape.Linked.{IsLinked, validate_machine_shape-IsLinked}
use determa_state_rust.Tests.Machines.{path_ab, small, in_leaf}
use determa_state_rust.Tests.Selecting.{small-IsTree}

in_leaf_is_valid : validate_active_configuration 4 in_leaf ≡ ok true
unfolding validate_active_configuration orphan_up any_orphan kinds_fit lookup state_at parent_of
    path_eq
in_leaf_is_valid = refl

-- A leaf without its parents is refused.
lone_leaf_is_refused :
    validate_active_configuration 4 (record in_leaf { active = path_ab ∷ [] }) ≡ ok false
unfolding validate_active_configuration orphan_up any_orphan kinds_fit lookup state_at parent_of
    path_eq
lone_leaf_is_refused = refl

validate-IsConfiguration_example : IsConfiguration in_leaf
validate-IsConfiguration_example = validate-IsConfiguration 4 in_leaf in_leaf_is_valid

in_leaf_is_shallow : AreShallow small in_leaf.active 4 in_leaf.active
unfolding path_depth path_eq
in_leaf_is_shallow = (omega arith, (omega arith, (omega arith, tt)))

validate-Returns_example : Returns (validate_active_configuration 4 in_leaf)
validate-Returns_example = validate-Returns 4 in_leaf small-IsTree in_leaf_is_shallow

small_is_valid : validate_machine_shape small ≡ true
unfolding validate_machine_shape lookup path_eq
small_is_valid = refl

validate_machine_shape-IsLinked_example : IsLinked small
validate_machine_shape-IsLinked_example = validate_machine_shape-IsLinked small small_is_valid
