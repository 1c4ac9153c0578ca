-- ===== src/State/Boundary/Closed.antt =====
-- The exits of format1/runtime.rs leave the configuration closed: an active state's parent is active, as
-- `validate_active_configuration` demands.
use determa_state_rust.Prelude.{
  refl, ◌⊎◌, true, Option, none, some, List, [], ◌∷◌, ◌≡◌, ◌≢◌, ◌↔◌, inl, inr, Elem, arith, sym,
}
use determa_state_rust.State.Paths.{StatePath, is_descendant}
use determa_state_rust.State.Paths.Prefix.{path_eq_iff}
use determa_state_rust.State.Paths.Order.{descendant_strict_order}
use determa_state_rust.State.Machine.{State, Machine, RuntimeState}
use determa_state_rust.State.Search.{lookup}
use determa_state_rust.State.Search.Total.{IsTree, ParentFits, parent_fits}
use determa_state_rust.State.Config.Leaves.{Elem-filter}
use determa_state_rust.State.Outcome.{StepFault, Outcome, ok, fault, panic, out_of_fuel, Returns}
use determa_state_rust.State.Boundary.{exits, remove_active, exit_state, exit_states}
use determa_state_rust.State.Boundary.Exits.{exits_iff}

Elem-remove :
    (x p : StatePath) (l : List StatePath) → Elem x (remove_active p l) ↔ (Elem x l × (x ≢ p))
Elem-remove x p l = (
  λ h. let (a, b) = (Elem-filter _ x l).0 h in (a, λ e. ground (arith, path_eq_iff x p)),
  λ h. (Elem-filter _ x l).1 (h.0, ground (arith, path_eq_iff x p, h.1)),
)

-- The active states less those of a list, one after the other.
pub after_exits : List StatePath → List StatePath → List StatePath
after_exits [] active = active
after_exits (p ∷ paths) active = after_exits paths (remove_active p active)

Elem-after_exits :
    (x : StatePath) (ps l : List StatePath) → Elem x (after_exits ps l) ↔ (Elem x l × (¬ Elem x ps))
unfolding after_exits
Elem-after_exits x [] l = (λ h. (h, λ e. e), λ h. h.0)
Elem-after_exits x (p ∷ ps) l = (
  λ h.
      let (a, b) = (Elem-after_exits x ps (remove_active p l)).0 h in
      let (c, d) = (Elem-remove x p l).0 a in (c, λ e. elim e [ inl s ↦ d s | inr t ↦ b t ]),
  λ h.
      (Elem-after_exits x ps (remove_active p l)).1
        ((Elem-remove x p l).1 (h.0, λ e. h.1 (inl e)), λ t. h.1 (inr t)),
)

module _ {J : Type 0} (m : Machine J) where
  -- The parent of an active state is active.
  abbrev pub IsClosed : List StatePath → Type 0
  IsClosed active =
      (p : StatePath) (s : State J) (q : StatePath)
      → Elem p active
      → lookup p m.states ≡ some s
      → s.parent ≡ some q
      → Elem q active

  below_parent :
      (p q : StatePath) (parent : Option StatePath)
      → parent ≡ some q
      → ParentFits m p parent
      → is_descendant p q ≡ true
  below_parent p q none e fits = cc
  below_parent p q (some x) e fits = let same : x ≡ q = cc in rw (sym same) fits.0

after_exits-IsClosed :
    {J : Type 0} (rt : RuntimeState J) (boundary : StatePath)
    → IsTree rt.definition
    → IsClosed rt.definition rt.active
    → IsClosed rt.definition (after_exits (exits rt boundary) rt.active)
after_exits-IsClosed rt boundary t closed p s q h found up =
    let (active, stays) = (Elem-after_exits p (exits rt boundary) rt.active).0 h in
    let iff = exits_iff rt boundary in
    let below : is_descendant p q ≡ true =
      below_parent rt.definition p q s.parent up (parent_fits rt.definition p s t found).1 in
    (Elem-after_exits q (exits rt boundary) rt.active).1 (
      closed p s q active found up,
      λ gone.
          stays (
            (iff.0 p).1
              (active, descendant_strict_order.1 p q boundary below ((iff.0 q).0 gone).1)),
    )

module _ (leave : StatePath → Outcome (Unit {0})) where
  -- Leaving a state of the list faulted, and that is the outcome.
  abbrev pub IsFaulted : List StatePath → Outcome (List StatePath) → Type 0
  IsFaulted ps outcome =
      (p : StatePath) × Elem p ps × (e : StepFault) × (leave p ≡ fault e) × (outcome ≡ fault e)

  exit_first :
      (p : StatePath) (ps active : List StatePath) (o : Outcome (Unit {0}))
      → leave p ≡ o
      → Returns o
      → (IsFaulted ps (exit_states leave ps (remove_active p active))
          ⊎ (exit_states leave ps (remove_active p active) ≡ ok (after_exits (p ∷ ps) active)))
      → IsFaulted (p ∷ ps) (exit_states leave (p ∷ ps) active)
        ⊎ (exit_states leave (p ∷ ps) active ≡ ok (after_exits (p ∷ ps) active))
  unfolding exit_states exit_state
  exit_first p ps active (ok tt) e r (inl (q, held, x, left, out)) =
      inl (q, inr held, x, left, rw e out)
  exit_first p ps active (ok tt) e r (inr out) = inr (rw e out)
  exit_first p ps active (fault x) e r rest = inl (p, inl refl, x, e, rw e refl)
  exit_first p ps active panic e r rest = absurd r
  exit_first p ps active out_of_fuel e r rest = absurd r

  exit_states_lem :
      (ps active : List StatePath)
      → ((p : StatePath) → Returns (leave p))
      → IsFaulted ps (exit_states leave ps active)
        ⊎ (exit_states leave ps active ≡ ok (after_exits ps active))
  unfolding exit_states after_exits
  exit_states_lem [] active r = inr refl
  exit_states_lem (p ∷ ps) active r =
      exit_first p ps active (leave p) refl (r p) (exit_states_lem ps (remove_active p active) r)

-- In a tree of states, where every active state's parent is active and leaving a state comes to an end, the
-- exits of a transition end with every active state's parent active, wherever the boundary lies, unless
-- leaving one of the exited states faults, which is then the outcome.
pub exits-IsClosed :
    {J : Type 0} (rt : RuntimeState J) (boundary : StatePath)
    (leave : StatePath → Outcome (Unit {0}))
    → ((p : StatePath) → Returns (leave p))
    → IsTree rt.definition
    → IsClosed rt.definition rt.active
    → IsFaulted leave (exits rt boundary) (exit_states leave (exits rt boundary) rt.active)
      ⊎ ((left : List StatePath) × (exit_states leave (exits rt boundary) rt.active ≡ ok left)
          × IsClosed rt.definition left)
exits-IsClosed rt boundary leave r t closed =
    elim (exit_states_lem leave (exits rt boundary) rt.active r) [
      | inl faulted ↦ inl faulted
      | inr e ↦
          inr (
            after_exits (exits rt boundary) rt.active,
            e,
            after_exits-IsClosed rt boundary t closed,
          )
    ]
