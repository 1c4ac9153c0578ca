-- ===== src/Codes.antt =====
-- The closed sets of codes that the engine and the checkpoint host answer with, each with the texts that
-- its codes are written as and the list that the portable registry knows.
pub mod Runtime
pub mod Checkpoint
pub mod Loading
pub mod Persisting
pub mod Inspecting
pub mod Registry
use determa_state_rust.Prelude.{String, List, Option, some, ◌≡◌, ◌↔◌, Elem, ap, sym, ◌∙◌}

-- The list holds exactly the codes that are portable, and the texts tell the codes apart.
abbrev pub IsRegistry : {A : Type 0} → (A → String) → List A → (A → Type 0) → Type 0
IsRegistry as_str codes IsPortable =
    ((c : _) → Elem c codes ↔ IsPortable c) × ((c d : _) → as_str c ≡ as_str d → c ≡ d)

-- A function that reads the texts back tells them apart.
pub distinct_of_inverse :
    {A : Type 0} (as_str : A → String) (inverse : String → Option A)
    → ((c : A) → inverse (as_str c) ≡ some c)
    → (c d : A) → as_str c ≡ as_str d
    → c ≡ d
distinct_of_inverse as_str inverse h c d e =
    let same : some c ≡ some d = sym (h c) ∙ ap inverse e ∙ h d in cc
