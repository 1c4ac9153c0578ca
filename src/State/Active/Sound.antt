-- ===== src/State/Active/Sound.antt =====
-- What `validate_active_configuration` of format1/runtime.rs accepts.
use determa_state_rust.Prelude.{
  ℕ, zero, suc, Bool, true, false, not, Option, none, some, List, [], ◌∷◌, ◌≡◌, inl, inr, refl,
  ◌&&◌, any, Every, Elem, if◌then◌else◌, Bool-cases, arith, sym, ◌∙◌,
}
use determa_state_rust.State.Paths.{StatePath, root, path_eq}
use determa_state_rust.State.Paths.Prefix.{path_eq_iff}
use determa_state_rust.State.Machine.{
  State, Machine, RuntimeState, RuntimeStatus, running, completed, faulted,
}
use determa_state_rust.State.Outcome.{Outcome, ok, fault, panic, out_of_fuel, ◌>>=◌}
use determa_state_rust.State.Search.{lookup, contains, state_at, parent_of}
use determa_state_rust.State.Search.Total.{IsKnown, state_at_known}
use determa_state_rust.State.Search.Innermost.{bind-ok}
use determa_state_rust.State.Boundary.Closed.{IsClosed}
use determa_state_rust.State.Active.{
  is_found, is_running, fits_kind, or_then, orphan_up, any_orphan, active_children, kinds_fit,
  validate_active_configuration,
}

Elem-of_contains : (p : StatePath) (l : List StatePath) → contains p l ≡ true → Elem p l
Elem-of_contains p [] h = cc
Elem-of_contains p (q ∷ l) h = elim (Bool-cases (path_eq p q)) [
  | inl a ↦ inl ((path_eq_iff p q).0 a)
  | inr a ↦ inr (Elem-of_contains p l (ground arith))
]

or_then-false : (a b : Outcome Bool) → or_then a b ≡ ok false → (a ≡ ok false) × (b ≡ ok false)
or_then-false (ok true) b h = cc
or_then-false (ok false) b h = (refl, h)
or_then-false (fault e) b h = cc
or_then-false panic b h = cc
or_then-false out_of_fuel b h = cc

module _ {J : Type 0} (m : Machine J) (active : List StatePath) where
  parent_active :
      (fuel : ℕ) (q : StatePath)
      → orphan_up m active fuel (some q) ≡ ok false
      → contains q active ≡ true
  unfolding orphan_up
  parent_active zero q h = cc
  parent_active (suc fuel) q h = ground arith

  parent_known :
      (p : StatePath) (s : State J) → lookup p m.states ≡ some s → parent_of m p ≡ ok s.parent
  unfolding parent_of
  parent_known p s h = rw (state_at_known m p s h) refl

  first_active :
      (fuel : ℕ) (p q : StatePath) (s : State J)
      → (parent_of m p >>= orphan_up m active fuel) ≡ ok false
      → lookup p m.states ≡ some s
      → s.parent ≡ some q
      → Elem q active
  first_active fuel p q s h found up =
      let climbed : orphan_up m active fuel s.parent ≡ ok false =
        rw (parent_known p s found) at h in
      Elem-of_contains q active (parent_active fuel q (rw up at climbed))

  -- The parent of each listed state is active.
  no_orphan :
      (fuel : ℕ) (paths : List StatePath) (p q : StatePath) (s : State J)
      → any_orphan m active fuel paths ≡ ok false
      → Elem p paths
      → lookup p m.states ≡ some s
      → s.parent ≡ some q
      → Elem q active
  unfolding any_orphan
  no_orphan fuel [] p q s h e found up = elim e [ ]
  no_orphan fuel (x ∷ paths) p q s h e found up =
      let (first, rest) = or_then-false _ (any_orphan m active fuel paths) h in
      elim e [
        | inl same ↦ first_active fuel p q s (rw same first) found up
        | inr later ↦ no_orphan fuel paths p q s rest later found up
      ]

  abbrev pub FitsKind : State J → Type 0
  FitsKind s = fits_kind s.kind s.children (active_children active s) ≡ true

  kept_if :
      (b : Bool) (rest : Outcome Bool)
      → (if b then rest else ok false) ≡ ok true
      → (b ≡ true) × (rest ≡ ok true)
  kept_if true rest h = (refl, h)
  kept_if false rest h = cc

  all_fit :
      (paths : List StatePath) (p : StatePath) (s : State J)
      → kinds_fit m active paths ≡ ok true
      → Elem p paths
      → lookup p m.states ≡ some s
      → FitsKind s
  unfolding kinds_fit
  all_fit [] p s h e found = elim e [ ]
  all_fit (x ∷ paths) p s h e found =
      let (t, at_x, kept) = bind-ok (state_at m x) _ true h in
      let (fits, rest) =
        kept_if (fits_kind t.kind t.children (active_children active t)) (kinds_fit m active paths)
          kept in
      elim e [
        | inl same ↦
            let at_p : state_at m x ≡ ok s = rw (sym same) (state_at_known m p s found) in
            let t_is_s : t ≡ s = ok_injective (sym at_x ∙ at_p) in rw (sym t_is_s) fits
        | inr later ↦ all_fit paths p s rest later found
      ]
    where
      ok_injective : {a b : State J} → ok a ≡ ok b → a ≡ b
      ok_injective h = cc

  pub all-IsKnown :
      (paths : List StatePath)
      → any (λ p. not (is_found (lookup p m.states))) paths ≡ false
      → Every (IsKnown m) paths
  all-IsKnown [] h = tt
  all-IsKnown (p ∷ paths) h =
      (found_known (lookup p m.states) (ground arith), all-IsKnown paths (ground arith))
    where
      found_known : (o : Option (State J)) → is_found o ≡ true → (s : State J) × (o ≡ some s)
      found_known none h = cc
      found_known (some s) h = (s, refl)

-- What the active states of a runtime are to be: known states, each with its parent, with the root if the
-- runtime is running, and each with as many active children as its kind has.
pub record IsConfiguration {J : Type 0} (rt : RuntimeState J) : Type 0 where
  pub known : Every (IsKnown rt.definition) rt.active
  pub closed : IsClosed rt.definition rt.active
  pub rooted : rt.status ≡ running → Elem root rt.active
  pub kinds :
      (p : StatePath) (s : State J)
      → Elem p rt.active
      → lookup p rt.definition.states ≡ some s
      → fits_kind s.kind s.children (active_children rt.active s) ≡ true

refused_if :
    (b : Bool) (rest : Outcome Bool)
    → (if b then ok false else rest) ≡ ok true
    → (b ≡ false) × (rest ≡ ok true)
refused_if true rest h = cc
refused_if false rest h = (refl, h)

-- A configuration that the validation accepts is one: all its states are known, each state's parent is
-- active, a running runtime has its root active, and every active state has exactly the active children
-- that its kind allows.
pub validate-IsConfiguration :
    {J : Type 0} (fuel : ℕ) (rt : RuntimeState J)
    → validate_active_configuration fuel rt ≡ ok true
    → IsConfiguration rt
unfolding validate_active_configuration
validate-IsConfiguration fuel rt h =
    let (known, more) = refused_if _ _ h in
    let (orphan, searched, kept) =
      bind-ok (any_orphan rt.definition rt.active fuel rt.active) _ true more in
    let (no_orphans, kept') = refused_if orphan _ kept in
    let (rooted, fits) =
      refused_if (is_running rt.status && not (contains root rt.active)) _ kept' in
    record {
      known = all-IsKnown rt.definition rt.active rt.active known;
      closed = λ p s q e found up.
          no_orphan rt.definition rt.active fuel rt.active p q s (cc) e found up;
      rooted = λ run. Elem-of_contains root rt.active (root_active rt.status _ run rooted);
      kinds = λ p s e found. all_fit rt.definition rt.active rt.active p s fits e found;
    }
  where
    root_active :
        (status : RuntimeStatus) (b : Bool)
        → status ≡ running
        → (is_running status && not b) ≡ false
        → b ≡ true
    root_active running b run h = ground arith
    root_active completed b run h = cc
    root_active faulted b run h = cc
