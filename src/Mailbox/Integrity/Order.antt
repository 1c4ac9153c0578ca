-- ===== src/Mailbox/Integrity/Order.antt =====
-- The order of runtime ids in `validate_mailbox_integrity` of format1/v1.rs.
use determa_state_rust.Prelude.{
  ℕ, String, Bool, true, false, not, List, [], ◌∷◌, ◌≡◌, refl, ap, arith, eq_iff, codes, ◌&&◌,
}
use determa_state_rust.State.Config.{bytes_le}
use determa_state_rust.Mailbox.Records.{RuntimeRecord}
use determa_state_rust.Mailbox.Integrity.{some, Option, id_not_after}
use determa_state_rust.Mailbox.Documents.{id_le, has_runtime, unique_ids}

bytes_le_refl : (a : List ℕ) → bytes_le a a ≡ true
unfolding bytes_le
bytes_le_refl [] = refl
bytes_le_refl (c ∷ a) = ground (arith, bytes_le_refl a)

bytes_le_total : (a b : List ℕ) → bytes_le a b ≡ false → bytes_le b a ≡ true
unfolding bytes_le
bytes_le_total [] b h = cc
bytes_le_total (c ∷ a) [] h = refl
bytes_le_total (c ∷ a) (d ∷ b) h = ground (arith, bytes_le_total a b)

bytes_le_trans : (a b c : List ℕ) → bytes_le a b ≡ true → bytes_le b c ≡ true → bytes_le a c ≡ true
unfolding bytes_le
bytes_le_trans [] b c h k = refl
bytes_le_trans (x ∷ a) [] c h k = cc
bytes_le_trans (x ∷ a) (y ∷ b) [] h k = cc
bytes_le_trans (x ∷ a) (y ∷ b) (z ∷ c) h k = ground (arith, bytes_le_trans a b c)

pub id_le_total : (a b : String) → id_le a b ≡ false → id_le b a ≡ true
id_le_total a b h = bytes_le_total (codes a) (codes b) h

-- Ids that each come after the one before come after every one before.
id_after_trans : (a b c : String) → id_le b a ≡ false → id_le c b ≡ false → id_le c a ≡ false
id_after_trans a b c h k =
    ground (arith, bytes_le_total (codes b) (codes a), bytes_le_trans (codes c) (codes a) (codes b))

module _ {V M : Type 0} where
  -- The first id comes after `previous`, and each one after the one before it.
  unfoldable pub ascending : Option String → List (RuntimeRecord V M) → Bool
  ascending previous [] = true
  ascending previous (r ∷ rs) =
      not (id_not_after previous r.runtime_id) && ascending (some r.runtime_id) rs

  ascending_before :
      (a b : String) (rs : List (RuntimeRecord V M))
      → id_le b a ≡ false
      → ascending (some b) rs ≡ true
      → ascending (some a) rs ≡ true
  unfolding ascending
  ascending_before a b [] h k = refl
  ascending_before a b (r ∷ rs) h k = ground (arith, id_after_trans a b r.runtime_id h)

  pub absent_of_ascending :
      (a : String) (rs : List (RuntimeRecord V M))
      → ascending (some a) rs ≡ true
      → has_runtime a rs ≡ false
  unfolding ascending
  absent_of_ascending a [] h = refl
  absent_of_ascending a (r ∷ rs) h = ground (
    arith,
    absent_of_ascending a rs,
    ascending_before a r.runtime_id rs,
    eq_iff r.runtime_id a,
    bytes_le_refl (codes a),
    λ (e : r.runtime_id ≡ a). ap (λ (x : String). id_le x a) e,
  )

  pub unique_of_ascending :
      (previous : Option String) (rs : List (RuntimeRecord V M))
      → ascending previous rs ≡ true
      → unique_ids rs ≡ true
  unfolding ascending unique_ids
  unique_of_ascending previous [] h = refl
  unique_of_ascending previous (r ∷ rs) h =
      ground
        (arith, absent_of_ascending r.runtime_id rs, unique_of_ascending (some r.runtime_id) rs)
