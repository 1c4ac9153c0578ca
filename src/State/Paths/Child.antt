-- ===== src/State/Paths/Child.antt =====
-- `direct_child_path` of format1/runtime.rs: the child of a state on the way to a leaf.
use mathlib.Core.List.{append_assoc}
use determa_state_rust.Prelude.{
  ℕ, ◌+◌, ◌++◌, ◌≡◌, refl, ap, true, some, [], ◌∷◌, Bool-cases, inl, inr, ◌⊎◌, ==_iff, arith, ◌≢◌,
  sym, ◌∙◌, ◌==◌,
}
use determa_state_rust.State.Paths.{
  StatePath, root, path_eq, is_descendant, split_count, path_depth, first_segment,
  direct_child_path,
}
use determa_state_rust.State.Paths.Prefix.{path_eq_iff, strip_prefix-append, split_count-append_dot}
use determa_state_rust.State.Paths.Order.{Below, descendant_iff, root-ne-append_dot}

first_segment-split :
    (p : StatePath)
    → (first_segment p ≡ p) ⊎ ((s : StatePath) × (p ≡ first_segment p ++ (b'.' ∷ s)))
first_segment-split [] = inl refl
first_segment-split (c ∷ p) = elim (Bool-cases (c == b'.')) [
  | inl e ↦ inr (p, rw (e, ◌++◌) (ap (λ (d : ℕ). d ∷ p) ((==_iff c b'.').0 e)))
  | inr e ↦ elim (first_segment-split p) [
    | inl whole ↦ inl (rw e (ap (λ (q : StatePath). c ∷ q) whole))
    | inr (s, more) ↦ inr (s, rw e (ap (λ (q : StatePath). c ∷ q) more))
  ]
]

split_count-first_segment : (p : StatePath) → split_count (first_segment p) ≡ 1
split_count-first_segment [] = refl
split_count-first_segment (c ∷ p) = ground (arith, split_count-first_segment p)

direct_child-append :
    (parent rest : StatePath)
    → parent ≢ root
    → direct_child_path (parent ++ (b'.' ∷ rest)) parent
      ≡ some (parent ++ (b'.' ∷ first_segment rest))
unfolding direct_child_path
direct_child-append parent rest n =
    ground (arith, path_eq_iff parent root, strip_prefix-append parent (b'.' ∷ rest))

direct_child-root : (leaf : StatePath) → direct_child_path leaf root ≡ some (first_segment leaf)
unfolding direct_child_path
direct_child-root leaf = ground (arith, path_eq_iff root root)

-- What a direct child on the way from `parent` to `leaf` is.
pub record IsChildToward (parent leaf child : StatePath) : Type 0 where
  pub below : is_descendant child parent ≡ true
  pub toward : (leaf ≡ child) ⊎ (is_descendant leaf child ≡ true)
  pub one_deeper : path_depth child ≡ path_depth parent + 1

IsChildToward-root :
    (leaf : StatePath) → first_segment leaf ≢ root → IsChildToward root leaf (first_segment leaf)
unfolding path_depth
IsChildToward-root leaf n = record {
  below = (descendant_iff (first_segment leaf) root).1 (inl (refl, n));
  toward = elim (first_segment-split leaf) [
    | inl whole ↦ inl (sym whole)
    | inr longer ↦ inr ((descendant_iff leaf (first_segment leaf)).1 (inr longer))
  ];
  one_deeper = ground (
    arith,
    path_eq_iff (first_segment leaf) root,
    path_eq_iff root root,
    split_count-first_segment leaf,
  );
}

extend_split :
    (parent rest : StatePath)
    → (let child = parent ++ (b'.' ∷ first_segment rest) in
        (parent ++ (b'.' ∷ rest) ≡ child) ⊎ (is_descendant (parent ++ (b'.' ∷ rest)) child ≡ true))
extend_split parent rest = elim (first_segment-split rest) [
  | inl whole ↦ inl (ap (λ (q : StatePath). parent ++ (b'.' ∷ q)) (sym whole))
  | inr (s, longer) ↦ inr (
      (descendant_iff _ _).1 (
        inr (
          s,
          ap (λ (q : StatePath). parent ++ (b'.' ∷ q)) longer
              ∙ sym (append_assoc parent (b'.' ∷ first_segment rest) (b'.' ∷ s)),
        )))
]

IsChildToward-append :
    (parent rest : StatePath)
    → parent ≢ root
    → IsChildToward parent (parent ++ (b'.' ∷ rest)) (parent ++ (b'.' ∷ first_segment rest))
unfolding path_depth
IsChildToward-append parent rest n = record {
  below = (descendant_iff _ parent).1 (inr (first_segment rest, refl));
  toward = extend_split parent rest;
  one_deeper = ground (
    arith,
    path_eq_iff (parent ++ (b'.' ∷ first_segment rest)) root,
    path_eq_iff parent root,
    root-ne-append_dot parent (first_segment rest),
    split_count-append_dot parent (first_segment rest),
    split_count-first_segment rest,
  );
}

direct_child_of_Below :
    (parent leaf : StatePath)
    → Below leaf parent
    → first_segment leaf ≢ root
    → (child : StatePath) × (direct_child_path leaf parent ≡ some child)
      × IsChildToward parent leaf child
direct_child_of_Below parent leaf (inl (e, n)) top =
    (first_segment leaf, rw e (direct_child-root leaf), rw e (IsChildToward-root leaf top))
direct_child_of_Below parent leaf (inr (s, e)) top = elim (Bool-cases (path_eq parent root)) [
  | inl at_root ↦ (
    first_segment leaf,
    rw ((path_eq_iff parent root).0 at_root) (direct_child-root leaf),
    rw ((path_eq_iff parent root).0 at_root) (IsChildToward-root leaf top),
  )
  | inr inner ↦
      let n : parent ≢ root = λ r. cc (inner, (path_eq_iff parent root).1 r) in
      (
        parent ++ (b'.' ∷ first_segment s),
        rw e (direct_child-append parent s n),
        rw e (IsChildToward-append parent s n),
      )
]

-- For a leaf below a state, where no top-level state is itself named root, `direct_child_path`
-- finds a path: it lies below the state, exactly one level deeper, and it is the leaf or an
-- ancestor of the leaf.
pub direct_child_lem :
    (parent leaf : StatePath)
    → is_descendant leaf parent ≡ true
    → first_segment leaf ≢ root
    → (child : StatePath) × (direct_child_path leaf parent ≡ some child)
      × IsChildToward parent leaf child
direct_child_lem parent leaf h top =
    direct_child_of_Below parent leaf ((descendant_iff leaf parent).0 h) top
