-- ===== src/Mailbox/Admit/Fresh.antt =====
-- Which deliveries the first loop of `admit_v1` in format1/v1.rs takes for fresh.
use determa_state_rust.Prelude.{
  any_of_find-none, any_of_find-some, ◌≤◌, String, Bool, true, false, List, [], ◌∷◌, ◌≡◌, refl, ap,
  str_eq, eq_iff, arith, any, find, ltb, Bool-cases, Option-cases, inl, inr, if◌then◌else◌, ◌||◌,
}
use determa_state_rust.Checkpoint.ByKey.{count}
use determa_state_rust.Mailbox.Records.{
  ok, Result-cases, AdmissionDelivery, Entry, RuntimeRecord, Engine,
}
use determa_state_rust.Mailbox.Copies.{held}
use determa_state_rust.Mailbox.Admit.{
  Place, ready, deferred, MailboxLocation, has_duplicate, locate_in, mailbox_locations, Batch,
  sort_deliveries, is_located, located,
}
use determa_state_rust.Mailbox.Admit.Added.{requests}

pub any-eq_count : {A : Type 0} (q : A → Bool) (l : List A) → any q l ≡ ltb 0 (count q l)
any-eq_count q [] = refl
any-eq_count q (x ∷ l) = ground (arith, any-eq_count q l)

-- Both sides ask for one event id.
same_requests :
    {V : Type 0} (event_id : String) (d : AdmissionDelivery V) (locations : List MailboxLocation)
    → requests event_id d ≡ true
    → any (is_located d.envelope.event_id) locations ≡ any (is_located event_id) locations
same_requests event_id d locations h =
    ap (λ (x : String). any (is_located x) locations) ((eq_iff d.envelope.event_id event_id).0 h)

module _ {V P M F : Type 0} (engine : Engine V P M F) (event_id : String) where
  -- The fresh deliveries are those whose event id no mailbox holds.
  pub fresh_lem :
      (root_instance_id : String) (locations : List MailboxLocation)
      (ds : List (AdmissionDelivery V)) (done : Batch V)
      → sort_deliveries engine root_instance_id locations ds ≡ ok done
      → count (λ (f : AdmissionDelivery V × String). requests event_id f.0) done.fresh
        ≡ (if any (is_located event_id) locations then 0 else count (requests event_id) ds)
  unfolding sort_deliveries
  fresh_lem root_instance_id locations [] done h =
      let same : done.fresh ≡ [] = cc in rw same (ground arith)
  fresh_lem root_instance_id locations (d ∷ ds) done h =
      let q = is_located d.envelope.event_id in
      elim (Result-cases (engine.validate_admission_delivery_schema d)) [
        | inr (x, e) ↦ cc
        | inl (u, e) ↦
            elim (Result-cases
              (engine.envelope_digest root_instance_id d.delivery_mode d.envelope)) [
                | inr (x, e₁) ↦ cc
                | inl (computed, e₁) ↦ elim (Option-cases (find q locations)) [
                  | inl e₂ ↦
                      elim (Result-cases (sort_deliveries engine root_instance_id locations ds)) [
                        | inr (x, e₃) ↦ cc
                        | inl (rest, e₃) ↦
                            let same : done.fresh ≡ (d, computed) ∷ rest.fresh = cc in
                            let ih = fresh_lem root_instance_id locations ds rest e₃ in
                            let absent = any_of_find-none q locations e₂ in
                            let joined = same_requests event_id d locations in
                            rw same (ground (arith, ih, absent, joined))
                      ]
                  | inr (existing, e₂) ↦ elim (Bool-cases (str_eq existing.digest computed)) [
                    | inr e₃ ↦ cc
                    | inl e₃ ↦
                        elim (Result-cases (sort_deliveries engine root_instance_id locations ds)) [
                          | inr (x, e₄) ↦ cc
                          | inl (rest, e₄) ↦
                              let same : done.fresh ≡ rest.fresh = cc in
                              let ih = fresh_lem root_instance_id locations ds rest e₄ in
                              let present = any_of_find-some q locations existing e₂ in
                              let joined = same_requests event_id d locations in
                              rw same (ground (arith, ih, present, joined))
                        ]
                  ]
                ]
              ]
      ]

any_flip :
    (event_id : String) (seen : List String)
    → any (str_eq event_id) seen ≡ any (λ (x : String). str_eq x event_id) seen
any_flip event_id [] = refl
any_flip event_id (x ∷ seen) =
    ground (arith, eq_iff event_id x, eq_iff x event_id, any_flip event_id seen)

-- A test of locations that is a test `p` of the entries.
module _ {V : Type 0} (q : MailboxLocation → Bool) (p : Entry V → Bool) where
  any-locate_in :
      (place : Place) (es : List (Entry V)) (locations : List MailboxLocation)
      → ((e : Entry V) → q (located place e) ≡ p e)
      → any q (locate_in place es locations) ≡ (ltb 0 (count p es) || any q locations)
  unfolding locate_in
  any-locate_in place [] locations k = refl
  any-locate_in place (e ∷ es) locations k =
      ground (arith, any-locate_in place es (located place e ∷ locations) k, k e)

  -- Whether a location passes is whether an entry of a mailbox does.
  pub any-mailbox_locations :
      {M : Type 0} (rs : List (RuntimeRecord V M)) (locations : List MailboxLocation)
      → ((place : Place) (e : Entry V) → q (located place e) ≡ p e)
      → any q (mailbox_locations rs locations) ≡ (ltb 0 (held p rs) || any q locations)
  unfolding mailbox_locations held
  any-mailbox_locations [] locations k = refl
  any-mailbox_locations (r ∷ rs) locations k = ground (
    arith,
    any-mailbox_locations rs
        (locate_in deferred r.deferred_mailbox (locate_in ready r.ready_mailbox locations)) k,
    any-locate_in deferred r.deferred_mailbox (locate_in ready r.ready_mailbox locations)
        (k deferred),
    any-locate_in ready r.ready_mailbox locations (k ready),
  )

module _ {V : Type 0} (event_id : String) where
  duplicate_of_seen :
      (seen : List String) (ds : List (AdmissionDelivery V))
      → has_duplicate seen ds ≡ false
      → any (λ (x : String). str_eq x event_id) seen ≡ true
      → count (requests event_id) ds ≡ 0
  unfolding has_duplicate
  duplicate_of_seen seen [] h k = refl
  duplicate_of_seen seen (d ∷ ds) h k = ground (
    arith,
    duplicate_of_seen (d.envelope.event_id ∷ seen) ds,
    any_flip event_id seen,
    λ (same : requests event_id d ≡ true).
        ap (λ (x : String). any (str_eq x) seen) ((eq_iff d.envelope.event_id event_id).0 same),
  )

  pub count-le_one :
      (seen : List String) (ds : List (AdmissionDelivery V))
      → has_duplicate seen ds ≡ false
      → count (requests event_id) ds ≤ 1
  unfolding has_duplicate
  count-le_one seen [] h = omega arith
  count-le_one seen (d ∷ ds) h = ground (
    arith,
    count-le_one (d.envelope.event_id ∷ seen) ds,
    duplicate_of_seen (d.envelope.event_id ∷ seen) ds,
  )
