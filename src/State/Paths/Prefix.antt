-- ===== src/State/Paths/Prefix.antt =====
-- What the byte tests on paths say: equality, prefixes, and the count of segments.
use determa_state_rust.Prelude.{ℕ, ◌+◌, ◌≤◌, ◌++◌, ◌≡◌, refl, true, some, [], ◌∷◌, ◌↔◌, arith, ◌≢◌}
use determa_state_rust.State.Paths.{StatePath, path_eq, strip_prefix, split_count}

pub eq_of_path_eq : (p q : StatePath) → path_eq p q ≡ true → p ≡ q
unfolding path_eq
eq_of_path_eq [] [] h = refl
eq_of_path_eq [] (c ∷ q) h = ground arith
eq_of_path_eq (c ∷ p) [] h = ground arith
eq_of_path_eq (c ∷ p) (d ∷ q) h = ground (arith, eq_of_path_eq p q)

pub path_eq_refl : (p : StatePath) → path_eq p p ≡ true
unfolding path_eq
path_eq_refl [] = refl
path_eq_refl (c ∷ p) = ground (arith, path_eq_refl p)

pub path_eq_iff : (p q : StatePath) → (path_eq p q ≡ true) ↔ (p ≡ q)
path_eq_iff p q = (eq_of_path_eq p q, λ e. rw e (path_eq_refl q))

pub append_of_strip : (p q s : StatePath) → strip_prefix p q ≡ some s → p ≡ q ++ s
unfolding strip_prefix
append_of_strip p [] s h = ground arith
append_of_strip [] (d ∷ q) s h = ground arith
append_of_strip (c ∷ p) (d ∷ q) s h = ground (arith, append_of_strip p q s)

pub strip_prefix-append : (q s : StatePath) → strip_prefix (q ++ s) q ≡ some s
unfolding strip_prefix
strip_prefix-append [] s = refl
strip_prefix-append (d ∷ q) s = ground (arith, strip_prefix-append q s)

pub split_count_pos : (p : StatePath) → 1 ≤ split_count p
split_count_pos [] = omega arith
split_count_pos (c ∷ p) = ground (arith, split_count_pos p)

-- A dot between two paths adds their segments up.
pub split_count-append_dot :
    (q s : StatePath) → split_count (q ++ (b'.' ∷ s)) ≡ split_count q + split_count s
split_count-append_dot [] s = omega arith
split_count-append_dot (d ∷ q) s = ground (arith, split_count-append_dot q s)

-- No suffix brings a path back to itself.
pub append_cons-ne_self : (p : StatePath) (c : ℕ) (s : StatePath) → p ≢ p ++ (c ∷ s)
append_cons-ne_self [] c s h = ground arith
append_cons-ne_self (d ∷ p) c s h = append_cons-ne_self p c s (ground arith)
