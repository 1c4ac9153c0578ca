-- ===== src/State/Outcome.antt =====
-- What a step of format1/runtime.rs comes to: a value, an `Err(StepFault)`, a panic (an index
-- `states[&path]` or an `expect` that fails), or, in a loop on fuel, no more fuel.
use determa_state_rust.Prelude.{String, ◌≡◌, refl}

pub data EngineFaultCode : Type 0 where
  action_fault binding_not_empty cascade_fault contained_runtime_fault : EngineFaultCode
  deferred_event_capacity_exceeded guard_fault inactive_component_target : EngineFaultCode
  invalid_instance_target invariant_fault : EngineFaultCode

pub record StepFault : Type 0 where
  pub code : EngineFaultCode
  pub source_locator : String

pub data Outcome {ℓ} (A : Type ℓ) : Type ℓ where
  ok : A → Outcome A
  fault : StepFault → Outcome A
  panic : Outcome A
  out_of_fuel : Outcome A

infixl 5 ◌>>=◌
abbrev pub ◌>>=◌ {ℓ κ} : {A : Type ℓ} {B : Type κ} → Outcome A → (A → Outcome B) → Outcome B
ok a >>= f = f a
fault e >>= f = fault e
panic >>= f = panic
out_of_fuel >>= f = out_of_fuel

-- The code returned: a value or a fault.
abbrev pub Returns {ℓ} : {A : Type ℓ} → Outcome A → Type 0
Returns (ok a) = Unit
Returns (fault e) = Unit
Returns panic = ⊥
Returns out_of_fuel = ⊥

pub Returns-bind {ℓ κ} :
    {A : Type ℓ} {B : Type κ} (m : Outcome A) (f : A → Outcome B)
    → Returns m
    → ((a : A) → m ≡ ok a → Returns (f a))
    → Returns (m >>= f)
Returns-bind (ok a) f h k = k a refl
Returns-bind (fault e) f h k = tt
Returns-bind panic f h k = h
Returns-bind out_of_fuel f h k = h

-- The code returned a value with the property.
abbrev pub Yields {ℓ} : {A : Type ℓ} → (A → Type 0) → Outcome A → Type 0
Yields P (ok a) = P a
Yields P (fault e) = ⊥
Yields P panic = ⊥
Yields P out_of_fuel = ⊥

pub Yields-bind {ℓ κ} :
    {A : Type ℓ} {B : Type κ} (Q : A → Type 0) (P : B → Type 0) (m : Outcome A) (f : A → Outcome B)
    → Yields Q m
    → ((a : A) → Q a → Yields P (f a))
    → Yields P (m >>= f)
Yields-bind Q P (ok a) f h k = k a h
Yields-bind Q P (fault e) f h k = absurd h
Yields-bind Q P panic f h k = absurd h
Yields-bind Q P out_of_fuel f h k = absurd h

pub Yields-weaken {ℓ} :
    {A : Type ℓ} (P Q : A → Type 0) (m : Outcome A)
    → ((a : A) → P a → Q a)
    → Yields P m
    → Yields Q m
Yields-weaken P Q (ok a) f h = f a h
Yields-weaken P Q (fault e) f h = h
Yields-weaken P Q panic f h = h
Yields-weaken P Q out_of_fuel f h = h
