-- ===== src/State/Shape/Linked.antt =====
-- What `validate_machine_shape` of format1/runtime.rs accepts.
use determa_state_rust.Prelude.{
  Bool, true, false, Option, none, some, List, [], ◌∷◌, ◌≡◌, ◌↔◌, inl, inr, refl, sym, ap, any, all,
  Every, Elem, Bool-cases, arith,
}
use determa_state_rust.State.Paths.{StatePath, root, path_eq}
use determa_state_rust.State.Paths.Prefix.{path_eq_iff}
use determa_state_rust.State.Machine.{State, Machine}
use determa_state_rust.State.Search.{lookup}
use determa_state_rust.State.Search.Entries.{every_lookup}
use determa_state_rust.State.Shape.{
  has_parent, parent_is, lists_child, is_child_of, parent_links, entry_fits, root_fits,
  validate_machine_shape,
}

Every-of_all : {A : Type 0} (f : A → Bool) (l : List A) → all f l ≡ true → Every (λ x. f x ≡ true) l
Every-of_all f [] h = tt
Every-of_all f (x ∷ l) h = (ground arith, Every-of_all f l (ground arith))

all_holds :
    (f : StatePath → Bool) (l : List StatePath) (x : StatePath)
    → all f l ≡ true
    → Elem x l
    → f x ≡ true
all_holds f [] x h e = elim e [ ]
all_holds f (y ∷ l) x h e = elim e [
  | inl same ↦ rw same (ground arith)
  | inr later ↦ all_holds f l x (ground arith) later
]

Elem-of_any : (x : StatePath) (l : List StatePath) → any (λ c. path_eq c x) l ≡ true → Elem x l
Elem-of_any x [] h = cc
Elem-of_any x (y ∷ l) h = elim (Bool-cases (path_eq y x)) [
  | inl a ↦ inl (sym ((path_eq_iff y x).0 a))
  | inr a ↦ inr (Elem-of_any x l (ground arith))
]

parent_of_is : (p : StatePath) (o : Option StatePath) → parent_is p o ≡ true → o ≡ some p
parent_of_is p none h = cc
parent_of_is p (some q) h = ap some ((path_eq_iff q p).0 h)

module _ {J : Type 0} (m : Machine J) where
  entries_fit :
      (o : Option (State J))
      → root_fits m o ≡ true
      → (r : State J) × (o ≡ some r)
        × (r.parent ≡ none)
        × Every (λ e. entry_fits m e ≡ true) m.states
  entries_fit none h = cc
  entries_fit (some r) h = (
    r,
    refl,
    no_parent r.parent (ground arith),
    Every-of_all (entry_fits m) m.states (ground arith),
  )
    where
      no_parent : (o : Option StatePath) → has_parent o ≡ false → o ≡ none
      no_parent none k = refl
      no_parent (some q) k = cc

  -- The links between states agree in both directions, and the root has no parent.
  abbrev pub IsLinked : Type 0
  IsLinked =
      ((r : State J) × (lookup root m.states ≡ some r) × (r.parent ≡ none))
      × ((p q : StatePath) (s c : State J)
          → lookup p m.states ≡ some s
          → lookup q m.states ≡ some c
          → Elem q s.children ↔ (c.parent ≡ some p))

  child_has_parent :
      (p q : StatePath) (s c : State J)
      → entry_fits m (p, s) ≡ true
      → lookup q m.states ≡ some c
      → Elem q s.children
      → c.parent ≡ some p
  child_has_parent p q s c fits found e =
      let links : is_child_of p (lookup q m.states) ≡ true =
        all_holds (λ child. is_child_of p (lookup child m.states)) s.children q (ground arith) e in
      parent_of_is p c.parent (rw found at links)

  parent_has_child :
      (p q : StatePath) (s c : State J)
      → entry_fits m (q, c) ≡ true
      → lookup p m.states ≡ some s
      → c.parent ≡ some p
      → Elem q s.children
  parent_has_child p q s c fits found up =
      let links : parent_links m q c.parent ≡ true = ground arith in
      let listed : lists_child q (lookup p m.states) ≡ true = rw up at links in
      Elem-of_any q s.children (rw found at listed)

-- A machine whose shape is accepted has its links in order: the root is a state without a parent, and of
-- any two states the one lists the other as a child exactly if the other names it as its parent.
pub validate_machine_shape-IsLinked :
    {J : Type 0} (m : Machine J) → validate_machine_shape m ≡ true → IsLinked m
unfolding validate_machine_shape
validate_machine_shape-IsLinked m h =
    let (r, found, top, fits) = entries_fit m (lookup root m.states) h in
    (
      (r, found, top),
      λ p q s c at_p at_q. (
        child_has_parent m p q s c
            (every_lookup (λ e. entry_fits m e ≡ true) m.states p s fits at_p) at_q,
        parent_has_child m p q s c
            (every_lookup (λ e. entry_fits m e ≡ true) m.states q c fits at_q) at_p,
      ),
    )
