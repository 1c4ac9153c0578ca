-- ===== src/State/Search/Innermost.antt =====
-- Where the search of format1/runtime.rs stops: at the first state, from the leaf up, that decides.
use determa_state_rust.Prelude.{
  ℕ, zero, suc, Option, none, some, List, [], ◌∷◌, ◌≡◌, ◌⊎◌, inl, inr, refl, Every, ◌∙◌, sym,
}
use determa_state_rust.State.Paths.{StatePath}
use determa_state_rust.State.Machine.{Machine}
use determa_state_rust.State.Outcome.{Outcome, ok, fault, panic, out_of_fuel, ◌>>=◌}
use determa_state_rust.State.Search.{parent_of, scan}
use determa_state_rust.State.Search.Unvisited.{or_else, climb_all, scan_all, scan-eq-scan_all}

pub bind-ok {ℓ κ} :
    {A : Type ℓ} {B : Type κ} (m : Outcome A) (f : A → Outcome B) (b : B)
    → (m >>= f) ≡ ok b
    → (a : A) × (m ≡ ok a) × (f a ≡ ok b)
bind-ok (ok a) f b h = (a, refl, h)
bind-ok (fault e) f b h = cc
bind-ok panic f b h = cc
bind-ok out_of_fuel f b h = cc

module _ {J D : Type 0} (m : Machine J) (decide : StatePath → Outcome (Option D)) where
  -- From the state up to the root nothing is decided.
  pub data NothingUp : Option StatePath → Type 0 where
    past_root : NothingUp none
    passed :
        (q : StatePath) (parent : Option StatePath)
        → decide q ≡ ok none
        → parent_of m q ≡ ok parent
        → NothingUp parent
        → NothingUp (some q)

  -- From the first state up, the second is the first that decides, for `d`.
  pub data IsFirstUp (d : D) : StatePath → StatePath → Type 0 where
    here : (p : StatePath) → decide p ≡ ok (some d) → IsFirstUp d p p
    above :
        (q r p : StatePath)
        → decide q ≡ ok none
        → parent_of m q ≡ ok (some r)
        → IsFirstUp d r p
        → IsFirstUp d q p

  -- Some leaf of the list decides for `d` at a state above it, and the leaves before it decide nothing.
  pub data IsFirstOf (d : D) : List StatePath → StatePath → Type 0 where
    from :
        (leaf : StatePath) (leaves : List StatePath) (p : StatePath)
        → IsFirstUp d leaf p
        → IsFirstOf d (leaf ∷ leaves) p
    after :
        (leaf : StatePath) (leaves : List StatePath) (p : StatePath)
        → NothingUp (some leaf)
        → IsFirstOf d leaves p
        → IsFirstOf d (leaf ∷ leaves) p

  or_else_cases :
      (c : Option D) (next : Unit {0} → Outcome (Option D)) (b : Option D)
      → or_else next c ≡ ok b
      → ((x : D) × (c ≡ some x) × (b ≡ some x)) ⊎ ((c ≡ none) × (next tt ≡ ok b))
  or_else_cases (some x) next b h = inl (x, refl, cc)
  or_else_cases none next b h = inr (refl, h)

  climb_cases :
      (fuel : ℕ) (q : StatePath) (b : Option D)
      → climb_all m decide (suc fuel) (some q) ≡ ok b
      → ((x : D) × (decide q ≡ ok (some x)) × (b ≡ some x))
        ⊎ ((decide q ≡ ok none)
            × (parent : Option StatePath) × (parent_of m q ≡ ok parent)
            × (climb_all m decide fuel parent ≡ ok b))
  unfolding climb_all
  climb_cases fuel q b h =
      let (c, decided, rest) = bind-ok (decide q) _ b h in
      elim (or_else_cases c (λ _. parent_of m q >>= climb_all m decide fuel) b rest) [
        | inl (x, some_c, same) ↦ inl (x, rw some_c at decided, same)
        | inr (no_c, more) ↦
            let (parent, up, climbed) = bind-ok (parent_of m q) _ b more in
            inr (rw no_c at decided, parent, up, climbed)
      ]

  climb-NothingUp :
      (fuel : ℕ) (current : Option StatePath)
      → climb_all m decide fuel current ≡ ok none
      → NothingUp current
  unfolding climb_all
  climb-NothingUp zero current h = cc
  climb-NothingUp (suc fuel) none h = past_root
  climb-NothingUp (suc fuel) (some q) h = elim (climb_cases fuel q none h) [
    | inl (x, decided, same) ↦ cc
    | inr (decided, parent, up, climbed) ↦
        passed q parent decided up (climb-NothingUp fuel parent climbed)
  ]

  -- What a climb from the parent found, if it found something.
  climb-IsFirstUp :
      (d : D) (fuel : ℕ) (current : Option StatePath)
      → climb_all m decide fuel current ≡ ok (some d)
      → (q : StatePath) × (p : StatePath) × (current ≡ some q) × IsFirstUp d q p
  unfolding climb_all
  climb-IsFirstUp d zero current h = cc
  climb-IsFirstUp d (suc fuel) none h = cc
  climb-IsFirstUp d (suc fuel) (some q) h = elim (climb_cases fuel q (some d) h) [
    | inl (x, decided, same) ↦ (q, q, refl, here q (cc))
    | inr (decided, parent, up, climbed) ↦
        let (r, p, is_r, first) = climb-IsFirstUp d fuel parent climbed in
        (q, p, refl, above q r p decided (rw is_r at up) first)
  ]

  leaf_first :
      (d : D) (leaf : StatePath) (leaves : List StatePath) (fuel : ℕ)
      → climb_all m decide fuel (some leaf) ≡ ok (some d)
      → (p : StatePath) × IsFirstOf d (leaf ∷ leaves) p
  leaf_first d leaf leaves fuel h =
      let (q, p, is_q, first) = climb-IsFirstUp d fuel (some leaf) h in
      let same : leaf ≡ q = cc in (p, from leaf leaves p (rw same first))

  scan_all-IsFirstOf :
      (d : D) (fuel : ℕ) (leaves : List StatePath)
      → scan_all m decide fuel leaves ≡ ok (some d)
      → (p : StatePath) × IsFirstOf d leaves p
  unfolding scan_all
  scan_all-IsFirstOf d fuel [] h = cc
  scan_all-IsFirstOf d fuel (leaf ∷ leaves) h =
      let (c, climbed, rest) = bind-ok (climb_all m decide fuel (some leaf)) _ (some d) h in
      elim (or_else_cases c (λ _. scan_all m decide fuel leaves) (some d) rest) [
        | inl (x, some_c, same) ↦ leaf_first d leaf leaves fuel (cc)
        | inr (no_c, more) ↦
            let (p, first) = scan_all-IsFirstOf d fuel leaves more in
            (p, after leaf leaves p (climb-NothingUp fuel (some leaf) (cc)) first)
      ]

  scan_all-NothingUp :
      (fuel : ℕ) (leaves : List StatePath)
      → scan_all m decide fuel leaves ≡ ok none
      → Every (λ leaf. NothingUp (some leaf)) leaves
  unfolding scan_all
  scan_all-NothingUp fuel [] h = tt
  scan_all-NothingUp fuel (leaf ∷ leaves) h =
      let (c, climbed, rest) = bind-ok (climb_all m decide fuel (some leaf)) _ none h in
      elim (or_else_cases c (λ _. scan_all m decide fuel leaves) none rest) [
        | inl (x, some_c, same) ↦ cc
        | inr (no_c, more) ↦
            (climb-NothingUp fuel (some leaf) (cc), scan_all-NothingUp fuel leaves more)
      ]

  -- The search ends at the first state that decides, or nowhere.
  pub scan_cases :
      (fuel : ℕ) (leaves : List StatePath) (c : Option D)
      → scan m decide fuel [] leaves ≡ ok c
      → ((c ≡ none) × Every (λ leaf. NothingUp (some leaf)) leaves)
        ⊎ ((d : D) × (p : StatePath) × (c ≡ some d) × IsFirstOf d leaves p)
  scan_cases fuel leaves none h =
      inl (refl, scan_all-NothingUp fuel leaves (sym (scan-eq-scan_all m decide fuel leaves) ∙ h))
  scan_cases fuel leaves (some d) h =
      let (p, first) =
        scan_all-IsFirstOf d fuel leaves (sym (scan-eq-scan_all m decide fuel leaves) ∙ h) in
      inr (d, p, refl, first)
