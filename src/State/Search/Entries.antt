-- ===== src/State/Search/Entries.antt =====
-- What holds of every entry of a machine's states holds of the state that a lookup finds.
use mathlib.Core.Path.{subst}
use determa_state_rust.Prelude.{some, List, [], ◌∷◌, ◌≡◌, Every, arith, Bool-cases, inl, inr}
use determa_state_rust.State.Paths.{StatePath, path_eq}
use determa_state_rust.State.Paths.Prefix.{path_eq_iff}
use determa_state_rust.State.Machine.{State, Machine}
use determa_state_rust.State.Outcome.{ok}
use determa_state_rust.State.Search.{lookup, state_at}

module _ {V : Type 0} (P : StatePath × V → Type 0) where
  pub every_lookup :
      (l : List (StatePath × V)) (p : StatePath) (v : V)
      → Every P l
      → lookup p l ≡ some v
      → P (p, v)
  unfolding lookup
  every_lookup [] p v e h = cc
  every_lookup ((q, w) ∷ l) p v e h = elim (Bool-cases (path_eq p q)) [
    | inl same ↦
        let found : some w ≡ some v = rw same at h in
        let w_is_v : w ≡ v = cc in
        subst (λ (x : V). P (p, x)) w_is_v (rw ((path_eq_iff p q).0 same) e.0)
    | inr other ↦ every_lookup l p v e.1 (rw other at h)
  ]

pub lookup_of_state_at :
    {J : Type 0} (m : Machine J) (p : StatePath) (s : State J)
    → state_at m p ≡ ok s
    → lookup p m.states ≡ some s
unfolding state_at
lookup_of_state_at m p s h = ground arith
