-- ===== src/State/Paths.antt =====
-- State paths as format1/runtime.rs reads them: `is_descendant`, `path_depth` and
-- `direct_child_path`. A path is the list of its bytes; `root` is the root, `a.b` a child of `a`.
pub mod Prefix
pub mod Order
pub mod Child
use determa_state_rust.Prelude.{
  ℕ, suc, ◌++◌, Bool, true, false, not, ◌&&◌, ◌||◌, Option, none, some, List, [], ◌∷◌, ◌==◌,
  if◌then◌else◌,
}

abbrev pub StatePath : Type 0
StatePath = List ℕ

abbrev pub root : StatePath
root = b'r' ∷ b'o' ∷ b'o' ∷ b't' ∷ []

unfoldable pub path_eq : StatePath → StatePath → Bool
path_eq [] [] = true
path_eq [] (c ∷ q) = false
path_eq (c ∷ p) [] = false
path_eq (c ∷ p) (d ∷ q) = c == d && path_eq p q

-- `path.strip_prefix(ancestor)`
unfoldable pub strip_prefix : StatePath → StatePath → Option StatePath
strip_prefix p [] = some p
strip_prefix [] (d ∷ q) = none
strip_prefix (c ∷ p) (d ∷ q) = if c == d then strip_prefix p q else none

-- `suffix.starts_with('.')`
abbrev pub starts_with_dot : StatePath → Bool
starts_with_dot [] = false
starts_with_dot (c ∷ s) = c == b'.'

-- `is_some_and(|suffix| suffix.starts_with('.'))`
abbrev pub is_below : Option StatePath → Bool
is_below none = false
is_below (some s) = starts_with_dot s

unfoldable pub is_descendant : StatePath → StatePath → Bool
is_descendant path ancestor =
    (path_eq ancestor root && not (path_eq path root)) || is_below (strip_prefix path ancestor)

-- `path.split('.').count()`
abbrev pub split_count : StatePath → ℕ
split_count [] = 1
split_count (c ∷ p) = let rest = split_count p in if c == b'.' then suc rest else rest

unfoldable pub path_depth : StatePath → ℕ
path_depth path = if path_eq path root then 0 else split_count path

-- `path.split('.').next()`, which is never absent
abbrev pub first_segment : StatePath → StatePath
first_segment [] = []
first_segment (c ∷ p) = if c == b'.' then [] else c ∷ first_segment p

-- The child of `parent` whose path goes on by `rest`, where `rest` is what stands after the dot.
abbrev pub child_after : StatePath → Option StatePath → Option StatePath
child_after parent none = none
child_after parent (some []) = none
child_after parent (some (c ∷ rest)) =
    if c == b'.' then some (parent ++ (b'.' ∷ first_segment rest)) else none

pub direct_child_path : StatePath → StatePath → Option StatePath
direct_child_path leaf parent =
    if path_eq parent root
    then some (first_segment leaf)
    else child_after parent (strip_prefix leaf parent)
