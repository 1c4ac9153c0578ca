-- ===== src/State/Search/Simulates.antt =====
-- Two searches of one tree, compared by what they decide at one state.
use determa_state_rust.Prelude.{ℕ, zero, suc, Option, none, some, List, [], ◌∷◌, ◌≡◌, refl}
use determa_state_rust.State.Paths.{StatePath}
use determa_state_rust.State.Machine.{Machine}
use determa_state_rust.State.Outcome.{Outcome, ok, fault, panic, out_of_fuel, ◌>>=◌}
use determa_state_rust.State.Search.{parent_of, scan}
use determa_state_rust.State.Search.Unvisited.{or_else, climb_all, scan_all, scan-eq-scan_all}

-- `y` stands to `x` as `Rel` says where `x` decides, and comes to the same where it does not.
abbrev pub Sim :
    {D E : Type 0}
    → (D → Outcome (Option E) → Type 0)
    → Outcome (Option D)
    → Outcome (Option E)
    → Type 0
Sim Rel (ok (some d)) y = Rel d y
Sim Rel (ok none) y = y ≡ ok none
Sim Rel (fault e) y = y ≡ fault e
Sim Rel panic y = y ≡ panic
Sim Rel out_of_fuel y = y ≡ out_of_fuel

module _ {D E : Type 0} (Rel : D → Outcome (Option E) → Type 0)
    (kept : (d : D) (y : Outcome (Option E)) (k : Unit {0} → Outcome (Option E))
      → Rel d y
      → Rel d (y >>= or_else k)) where
  Sim-or_else :
      (x : Outcome (Option D)) (y : Outcome (Option E)) (n : Outcome (Option D))
      (n' : Outcome (Option E))
      → Sim Rel x y
      → Sim Rel n n'
      → Sim Rel (x >>= or_else (λ _. n)) (y >>= or_else (λ _. n'))
  Sim-or_else (ok (some d)) y n n' h next = kept d y (λ _. n') h
  Sim-or_else (ok none) y n n' h next = rw h next
  Sim-or_else (fault e) y n n' h next = rw h
  Sim-or_else panic y n n' h next = rw h
  Sim-or_else out_of_fuel y n n' h next = rw h

  pub Sim-bind :
      {A : Type 0} (o : Outcome A) (k : A → Outcome (Option D)) (k' : A → Outcome (Option E))
      → ((a : A) → o ≡ ok a → Sim Rel (k a) (k' a))
      → Sim Rel (o >>= k) (o >>= k')
  Sim-bind (ok a) k k' h = h a refl
  Sim-bind (fault e) k k' h = refl
  Sim-bind panic k k' h = refl
  Sim-bind out_of_fuel k k' h = refl

  module _ {J : Type 0} (m : Machine J) (left : StatePath → Outcome (Option D))
      (right : StatePath → Outcome (Option E))
      (each : (p : StatePath) → Sim Rel (left p) (right p)) where
    Sim-climb :
        (fuel : ℕ) (c : Option StatePath)
        → Sim Rel (climb_all m left fuel c) (climb_all m right fuel c)
    unfolding climb_all
    Sim-climb zero c = refl
    Sim-climb (suc fuel) none = refl
    Sim-climb (suc fuel) (some p) =
        Sim-or_else (left p) (right p) (parent_of m p >>= climb_all m left fuel)
          (parent_of m p >>= climb_all m right fuel) (each p)
          (Sim-bind (parent_of m p) _ _ (λ c _. Sim-climb fuel c))

    Sim-scan_all :
        (fuel : ℕ) (leaves : List StatePath)
        → Sim Rel (scan_all m left fuel leaves) (scan_all m right fuel leaves)
    unfolding scan_all
    Sim-scan_all fuel [] = refl
    Sim-scan_all fuel (p ∷ leaves) =
        Sim-or_else (climb_all m left fuel (some p)) (climb_all m right fuel (some p))
          (scan_all m left fuel leaves) (scan_all m right fuel leaves) (Sim-climb fuel (some p))
          (Sim-scan_all fuel leaves)

    -- A relation that holds at every state holds of what the two searches find.
    pub Sim-scan :
        (fuel : ℕ) (leaves : List StatePath)
        → Sim Rel (scan m left fuel [] leaves) (scan m right fuel [] leaves)
    Sim-scan fuel leaves =
        rw (scan-eq-scan_all m left fuel leaves, scan-eq-scan_all m right fuel leaves)
          (Sim-scan_all fuel leaves)
