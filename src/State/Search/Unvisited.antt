-- ===== src/State/Search/Unvisited.antt =====
-- The visited set of the search of format1/runtime.rs only saves work.
use determa_state_rust.Prelude.{
  ℕ, zero, suc, Bool, true, false, Option, none, some, List, [], ◌∷◌, ◌≡◌, refl, Every, Bool-cases,
  inl, inr,
}
use determa_state_rust.State.Paths.{StatePath, path_eq}
use determa_state_rust.State.Paths.Prefix.{path_eq_iff}
use determa_state_rust.State.Machine.{Machine}
use determa_state_rust.State.Outcome.{Outcome, ok, fault, panic, out_of_fuel, ◌>>=◌}
use determa_state_rust.State.Search.{contains, parent_of, visit, climb, scan}

-- A decision, or what is tried next.
abbrev pub or_else : {D : Type 0} → (Unit {0} → Outcome (Option D)) → Option D → Outcome (Option D)
or_else next (some x) = ok (some x)
or_else next none = next tt

module _ {J D : Type 0} (m : Machine J) (decide : StatePath → Outcome (Option D)) where
  -- The search with no visited set: every candidate's whole chain is asked again.
  unfoldable pub climb_all : ℕ → Option StatePath → Outcome (Option D)
  climb_all zero current = out_of_fuel
  climb_all (suc fuel) none = ok none
  climb_all (suc fuel) (some p) = decide p >>= or_else (λ _. parent_of m p >>= climb_all fuel)

  unfoldable pub scan_all : ℕ → List StatePath → Outcome (Option D)
  scan_all fuel [] = ok none
  scan_all fuel (leaf ∷ leaves) = climb_all fuel (some leaf) >>= or_else (λ _. scan_all fuel leaves)

  abbrev Undecided : List StatePath → Type 0
  Undecided visited = Every (λ p. decide p ≡ ok none) visited

  abbrev Agrees : Outcome (Option D × List StatePath) → Outcome (Option D) → Type 0
  Agrees (ok (some x, v)) y = y ≡ ok (some x)
  Agrees (ok (none, v)) y = (y ≡ ok none) × Undecided v
  Agrees (fault e) y = y ≡ fault e
  Agrees panic y = y ≡ panic
  Agrees out_of_fuel y = y ≡ out_of_fuel

  Undecided-of_contains :
      (p : StatePath) (v : List StatePath) → contains p v ≡ true → Undecided v → decide p ≡ ok none
  Undecided-of_contains p [] h u = cc
  Undecided-of_contains p (q ∷ v) h u = elim (Bool-cases (path_eq p q)) [
    | inl same ↦ rw ((path_eq_iff p q).0 same) u.0
    | inr other ↦ Undecided-of_contains p v (rw other at h) u.1
  ]

  Agrees-bind :
      (o : Outcome (Option StatePath)) (k : Option StatePath → Outcome (Option D × List StatePath))
      (k' : Option StatePath → Outcome (Option D))
      → ((c : Option StatePath) → Agrees (k c) (k' c))
      → Agrees (o >>= k) (o >>= k')
  Agrees-bind (ok c) k k' h = h c
  Agrees-bind (fault e) k k' h = refl
  Agrees-bind panic k k' h = refl
  Agrees-bind out_of_fuel k k' h = refl

  Agrees-visit :
      (b : Bool) (d : Outcome (Option D)) (p : StatePath) (v : List StatePath)
      (up : List StatePath → Outcome (Option D × List StatePath)) (up' : Outcome (Option D))
      → decide p ≡ d
      → (b ≡ true → d ≡ ok none)
      → Undecided v
      → ((w : List StatePath) → Undecided w → Agrees (up w) up')
      → Agrees (visit b d p v up) (d >>= or_else (λ _. up'))
  unfolding visit
  Agrees-visit true d p v up up' e seen u k = rw (seen refl) (k v u)
  Agrees-visit false (ok (some x)) p v up up' e seen u k = refl
  Agrees-visit false (ok none) p v up up' e seen u k = k (p ∷ v) (e, u)
  Agrees-visit false (fault x) p v up up' e seen u k = refl
  Agrees-visit false panic p v up up' e seen u k = refl
  Agrees-visit false out_of_fuel p v up up' e seen u k = refl

  climb-Agrees :
      (fuel : ℕ) (v : List StatePath) (c : Option StatePath)
      → Undecided v
      → Agrees (climb m decide fuel v c) (climb_all fuel c)
  unfolding climb climb_all
  climb-Agrees zero v c u = refl
  climb-Agrees (suc fuel) v none u = (refl, u)
  climb-Agrees (suc fuel) v (some p) u =
      Agrees-visit (contains p v) (decide p) p v
        (λ seen. parent_of m p >>= climb m decide fuel seen) (parent_of m p >>= climb_all fuel) refl
        (λ h. Undecided-of_contains p v h u) u
        (λ w h. Agrees-bind (parent_of m p) _ _ (λ c. climb-Agrees fuel w c h))

  scan-go :
      (x : Outcome (Option D × List StatePath)) (y : Outcome (Option D))
      (next : List StatePath → Outcome (Option D)) (next' : Outcome (Option D))
      → Agrees x y
      → ((w : List StatePath) → Undecided w → next w ≡ next')
      → (x >>= λ r. elim r.0 [ some d ↦ ok (some d) | none ↦ next r.1 ])
        ≡ (y >>= or_else (λ _. next'))
  scan-go (ok (some x, v)) y next next' a k = rw a
  scan-go (ok (none, v)) y next next' a k = rw a.0 (k v a.1)
  scan-go (fault e) y next next' a k = rw a
  scan-go panic y next next' a k = rw a
  scan-go out_of_fuel y next next' a k = rw a

  scan-Undecided :
      (fuel : ℕ) (v leaves : List StatePath)
      → Undecided v
      → scan m decide fuel v leaves ≡ scan_all fuel leaves
  unfolding scan scan_all
  scan-Undecided fuel v [] u = refl
  scan-Undecided fuel v (leaf ∷ leaves) u =
      scan-go (climb m decide fuel v (some leaf)) (climb_all fuel (some leaf))
        (λ w. scan m decide fuel w leaves) (scan_all fuel leaves)
        (climb-Agrees fuel v (some leaf) u) (λ w h. scan-Undecided fuel w leaves h)

  -- Whatever decides at one state, the search that skips visited states finds what the search
  -- that asks every ancestor of every candidate again finds, on the same fuel.
  pub scan-eq-scan_all :
      (fuel : ℕ) (leaves : List StatePath) → scan m decide fuel [] leaves ≡ scan_all fuel leaves
  scan-eq-scan_all fuel leaves = scan-Undecided fuel [] leaves tt
