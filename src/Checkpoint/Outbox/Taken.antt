-- ===== src/Checkpoint/Outbox/Taken.antt =====
-- What the list helpers of the outbox operations keep.
use mathlib.Core.Path.{subst}
use determa_state_rust.Prelude.{
  ℕ, String, Bool, true, false, Option, none, some, List, [], ◌∷◌, ◌++◌, ◌≡◌, inl, inr, refl, any,
  find, Bool-cases, arith, ◌||◌,
}
use determa_state_rust.Checkpoint.Records.{PendingOutboxState, PendingRecord}
use determa_state_rust.Checkpoint.ByKey.{count}
use determa_state_rust.Checkpoint.Outbox.{kept, take_first, is_pending_of, set_state}

-- What holds of a list and of the element and the list that `take_first` makes of it.
abbrev pub IsTaken : {A : Type 0} → (A → Bool) → List A → Option (A × List A) → Type 0
IsTaken q xs none = any q xs ≡ false
IsTaken q xs (some (x, rest)) =
    (q x ≡ true)
    × ((p : _ → Bool) → any p xs ≡ (p x || any p rest))
    × ((p : _ → Bool) → count p xs ≡ count p (x ∷ rest))

kept-IsTaken :
    {A : Type 0} (q : A → Bool) (y : A) (xs : List A) (o : Option (A × List A))
    → q y ≡ false
    → IsTaken q xs o
    → IsTaken q (y ∷ xs) (kept y o)
kept-IsTaken q y xs none n t = ground arith
kept-IsTaken q y xs (some (x, rest)) n (a, b, c) =
    (a, λ p. ground (arith, b p), λ p. ground (arith, c p))

pub take_first-IsTaken : {A : Type 0} (q : A → Bool) (xs : List A) → IsTaken q xs (take_first q xs)
unfolding take_first
take_first-IsTaken q [] = refl
take_first-IsTaken q (x ∷ xs) = elim (Bool-cases (q x)) [
  | inl a ↦ rw a (a, λ p. refl, λ p. refl)
  | inr a ↦ rw a (kept-IsTaken q x xs (take_first q xs) a (take_first-IsTaken q xs))
]

pub taken :
    {A : Type 0} (q : A → Bool) (xs : List A) (x : A) (rest : List A)
    → take_first q xs ≡ some (x, rest)
    → IsTaken q xs (some (x, rest))
taken q xs x rest e = subst (IsTaken q xs) e (take_first-IsTaken q xs)

-- A test that does not read the state and its revision.
pub count-set_state :
    {V : Type 0} (p : String → Bool) (e : String) (state : PendingOutboxState) (revision : ℕ)
    (rs : List (PendingRecord V))
    → count (λ r. p r.intent.effect_id) (set_state e state revision rs)
      ≡ count (λ r. p r.intent.effect_id) rs
unfolding set_state
count-set_state p e state revision [] = refl
count-set_state p e state revision (r ∷ rs) = ground (arith, count-set_state p e state revision rs)

pub find-append :
    {A : Type 0} (p : A → Bool) (xs : List A) (y : A)
    → find p xs ≡ none
    → p y ≡ true
    → find p (xs ++ (y ∷ [])) ≡ some y
find-append p [] y n h = ground arith
find-append p (x ∷ xs) y n h = ground (arith, find-append p xs y)

-- The first record of the effect has the state that was set.
pub find-set_state :
    {V : Type 0} (e : String) (state : PendingOutboxState) (revision : ℕ)
    (rs : List (PendingRecord V)) (x : PendingRecord V)
    → find (is_pending_of e) rs ≡ some x
    → (y : PendingRecord V) × (find (is_pending_of e) (set_state e state revision rs) ≡ some y)
      × (y.delivery_state ≡ state)
unfolding set_state
find-set_state e state revision [] x h = cc
find-set_state e state revision (r ∷ rs) x h = elim (Bool-cases (is_pending_of e r)) [
  | inl a ↦ (record r { delivery_state = state; state_revision = revision }, ground arith, refl)
  | inr a ↦
      let (y, f, d) = find-set_state e state revision rs x (ground arith) in (y, ground arith, d)
]
