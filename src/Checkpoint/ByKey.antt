-- ===== src/Checkpoint/ByKey.antt =====
-- `sort_by_key` with a number as the key, and `position` with `remove`.
use determa_state_rust.Prelude.{
  ℕ, suc, ◌+◌, ◌++◌, Bool, List, [], ◌∷◌, leb, if◌then◌else◌, ◌||◌, any, ◌≡◌, refl, arith,
}

-- How many elements pass.
abbrev pub count : {A : Type 0} → (A → Bool) → List A → ℕ
count p [] = 0
count p (x ∷ xs) = let rest = count p xs in if p x then suc rest else rest

module _ {A : Type 0} (key : A → ℕ) where
  unfoldable pub insert_by_key : A → List A → List A
  insert_by_key x [] = x ∷ []
  insert_by_key x (y ∷ ys) = if leb (key x) (key y) then x ∷ y ∷ ys else y ∷ insert_by_key x ys

  -- Stable, as the source's sort is.
  unfoldable pub sort_by_key : List A → List A
  unfolding insert_by_key
  sort_by_key [] = []
  sort_by_key (x ∷ xs) = insert_by_key x (sort_by_key xs)

  any-insert_by_key :
      (p : A → Bool) (x : A) (xs : List A) → any p (insert_by_key x xs) ≡ (p x || any p xs)
  unfolding insert_by_key
  any-insert_by_key p x [] = refl
  any-insert_by_key p x (y ∷ ys) = ground (arith, any-insert_by_key p x ys)

  pub any-sort_by_key : (p : A → Bool) (xs : List A) → any p (sort_by_key xs) ≡ any p xs
  unfolding sort_by_key
  any-sort_by_key p [] = refl
  any-sort_by_key p (x ∷ xs) =
      ground (arith, any-insert_by_key p x (sort_by_key xs), any-sort_by_key p xs)

  count-insert_by_key :
      (p : A → Bool) (x : A) (xs : List A) → count p (insert_by_key x xs) ≡ count p (x ∷ xs)
  unfolding insert_by_key
  count-insert_by_key p x [] = refl
  count-insert_by_key p x (y ∷ ys) = ground (arith, count-insert_by_key p x ys)

  pub count-sort_by_key : (p : A → Bool) (xs : List A) → count p (sort_by_key xs) ≡ count p xs
  unfolding sort_by_key
  count-sort_by_key p [] = refl
  count-sort_by_key p (x ∷ xs) =
      ground (arith, count-insert_by_key p x (sort_by_key xs), count-sort_by_key p xs)

module _ {A : Type 0} (p : A → Bool) where
  pub count-append : (xs ys : List A) → count p (xs ++ ys) ≡ count p xs + count p ys
  count-append [] ys = omega arith
  count-append (x ∷ xs) ys = ground (arith, count-append xs ys)

  pub any-append : (xs ys : List A) → any p (xs ++ ys) ≡ (any p xs || any p ys)
  any-append [] ys = refl
  any-append (x ∷ xs) ys = ground (arith, any-append xs ys)
