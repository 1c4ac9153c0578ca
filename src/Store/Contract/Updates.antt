-- ===== src/Store/Contract/Updates.antt =====
-- What a client of `ExecutionStore` in checkpoint/store.rs may rely on, from a contract that it keeps.
use determa_state_rust.Prelude.{
  Bool, String, true, Option, none, some, List, [], ◌∷◌, ◌≡◌, ◌≢◌, inl, inr, refl, str_eq, eq_iff,
  arith, Bool-cases, ◌∙◌, ap,
}
use determa_state_rust.Store.Records.{StoreRecord, committed, conflict, ok}
use determa_state_rust.Store.Contract.{
  matches, swap_spec, insert_spec, at_key, StoreOperations, KeepsContract,
}

abbrev pub IsHeld : Option StoreRecord → Type 0
IsHeld o = (r : StoreRecord) × (o ≡ some r)

committed_matches :
    (o : Option StoreRecord) (revision digest : String) (r : StoreRecord)
    → (swap_spec o revision digest r).0 ≡ committed
    → (swap_spec o revision digest r).1 ≡ some r
unfolding swap_spec
committed_matches none revision digest r h = cc
committed_matches (some current) revision digest r h = ground arith

stale_conflicts :
    (current : StoreRecord) (revision digest : String) (r : StoreRecord)
    → current.revision ≢ revision
    → (swap_spec (some current) revision digest r).0 ≡ conflict (some current)
unfolding swap_spec
stale_conflicts current revision digest r n = ground (arith, eq_iff current.revision revision)

insert_keeps : (o : Option StoreRecord) (r : StoreRecord) → IsHeld (insert_spec o r).1
unfolding insert_spec
insert_keeps none r = (r, refl)
insert_keeps (some current) r = (current, refl)

swap_keeps :
    (o : Option StoreRecord) (revision digest : String) (r : StoreRecord)
    → IsHeld o
    → IsHeld (swap_spec o revision digest r).1
unfolding swap_spec
swap_keeps none revision digest r (x, h) = cc
swap_keeps (some current) revision digest r h =
    elim (Bool-cases (matches current revision digest)) [
      | inl a ↦ rw a (r, refl)
      | inr a ↦ rw a (current, refl)
    ]

at_key_keeps :
    (v : String → Option StoreRecord) (k : String) (o : Option StoreRecord) (j : String)
    → IsHeld (v j)
    → (k ≡ j → IsHeld o)
    → IsHeld (at_key v k o j)
at_key_keeps v k o j h new = elim (Bool-cases (str_eq k j)) [
  | inl a ↦ rw a (new ((eq_iff k j).0 a))
  | inr a ↦ rw a h
]

-- A call that writes, as a client makes it.
pub data WriteCall : Type 0 where
  inserting : StoreRecord → WriteCall
  swapping : String → String → String → StoreRecord → WriteCall

module _ {S : Type 0} (c : StoreOperations S) where
  abbrev pub after_call : S → WriteCall → S
  after_call s (inserting r) = (c.insert_if_absent s r).1
  after_call s (swapping root revision digest r) = (c.compare_and_swap s root revision digest r).1

  -- The calls of any number of clients, in the order in which the store took them.
  abbrev pub after_calls : S → List WriteCall → S
  after_calls s [] = s
  after_calls s (w ∷ ws) = after_calls (after_call s w) ws

module _ {S : Type 0} (c : StoreOperations S) (usable : S → Bool)
    (view : S → String → Option StoreRecord) (laws : KeepsContract c usable view) where
  open c use {insert_if_absent, compare_and_swap}
  open laws use {
    insert_stores, insert_keeps_usable, swap_answers, swap_stores, swap_foreign, swap_keeps_usable,
  }

  swap-view_self :
      (s : S) (root revision digest : String) (r : StoreRecord)
      → usable s ≡ true
      → r.root_instance_id ≡ root
      → view (compare_and_swap s root revision digest r).1 root
        ≡ (swap_spec (view s root) revision digest r).1
  swap-view_self s root revision digest r u e =
      swap_stores s root revision digest r root u e ∙ ground (arith, eq_iff root root)

  committed-view :
      (s : S) (root revision digest : String) (r : StoreRecord)
      → usable s ≡ true
      → r.root_instance_id ≡ root
      → (compare_and_swap s root revision digest r).0 ≡ ok committed
      → view (compare_and_swap s root revision digest r).1 root ≡ some r
  committed-view s root revision digest r u e done =
      swap-view_self s root revision digest r u e
      ∙ committed_matches (view s root) revision digest r
          (cc (swap_answers s root revision digest r u e))

  pub no_lost_update :
      (s : S) (root revision digest digest' : String) (r r' : StoreRecord)
      → usable s ≡ true
      → r.root_instance_id ≡ root
      → r'.root_instance_id ≡ root
      → r.revision ≢ revision
      → (compare_and_swap s root revision digest r).0 ≡ ok committed
      → (compare_and_swap (compare_and_swap s root revision digest r).1 root revision digest' r').0
        ≡ ok (conflict (some r))
  no_lost_update s root revision digest digest' r r' u e e' moved done =
      swap_answers _ root revision digest' r' (swap_keeps_usable s root revision digest r ∙ u) e'
      ∙ rw (committed-view s root revision digest r u e done)
          (ap ok (stale_conflicts r revision digest' r' moved))

  call_keeps :
      (s : S) (w : WriteCall) (k : String)
      → usable s ≡ true
      → IsHeld (view s k)
      → IsHeld (view (after_call c s w) k)
  call_keeps s (inserting r) k u h =
      rw (insert_stores s r k u)
        (at_key_keeps (view s) r.root_instance_id _ k h (λ _. insert_keeps _ r))
  call_keeps s (swapping root revision digest r) k u h =
      elim (Bool-cases (str_eq r.root_instance_id root)) [
        | inl a ↦
            rw (swap_stores s root revision digest r k u ((eq_iff r.root_instance_id root).0 a)) (
              at_key_keeps (view s) root _ k h
                (λ e. swap_keeps (view s root) revision digest r (rw e h)))
        | inr a ↦
            rw
              (swap_foreign s root revision digest r
                (λ e. cc (a, (eq_iff r.root_instance_id root).1 e))).1
              h
      ]

  call_keeps_usable : (s : S) (w : WriteCall) → usable s ≡ true → usable (after_call c s w) ≡ true
  call_keeps_usable s (inserting r) u = insert_keeps_usable s r ∙ u
  call_keeps_usable s (swapping root revision digest r) u =
      swap_keeps_usable s root revision digest r ∙ u

  pub root_is_kept :
      (s : S) (ws : List WriteCall) (k : String)
      → usable s ≡ true
      → IsHeld (view s k)
      → IsHeld (view (after_calls c s ws) k)
  root_is_kept s [] k u h = h
  root_is_kept s (w ∷ ws) k u h =
      root_is_kept (after_call c s w) ws k (call_keeps_usable s w u) (call_keeps s w k u h)
