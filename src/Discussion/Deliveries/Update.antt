-- ===== src/Discussion/Deliveries/Update.antt =====
-- What an update of one delivery leaves of all of them.
use agent_community.Common.{
  ◌≡◌, refl, sym, ap, ◌∙◌, String, true, false, none, some, List, [], ◌∷◌, ◌==◌, eq_iff, arith,
  Bool-cases, Option-cases, inl, inr, find,
}
use mathlib.Core.Path.{subst}
use agent_community.Discussion.Model.{DeliveryRecord}
use agent_community.Discussion.Exec.{ok, Dir}
use agent_community.Discussion.Deliveries.{Store, update_outbox, update_delivery, find_delivery}

module _ (id : String) (f : DeliveryRecord → DeliveryRecord)
    (same_id : (d : DeliveryRecord) → (f d).id ≡ d.id) where
  update_outbox-none :
      (outbox : List DeliveryRecord)
      → find (λ (e : DeliveryRecord). e.id == id) outbox ≡ none
      → update_outbox id f outbox ≡ none
  unfolding update_outbox
  update_outbox-none [] h = refl
  update_outbox-none (d ∷ outbox) h = ground (arith, update_outbox-none outbox)

  -- What an update of the outbox leaves under each id.
  record IsUpdated (outbox after : List DeliveryRecord) (d : DeliveryRecord) : Type 0 where
    own : find (λ (e : DeliveryRecord). e.id == id) after ≡ some (f d)
    others :
        (other : String)
        → (id == other) ≡ false
        → find (λ (e : DeliveryRecord). e.id == other) after
          ≡ find (λ (e : DeliveryRecord). e.id == other) outbox

  found_first :
      (e : DeliveryRecord) (outbox : List DeliveryRecord) (d : DeliveryRecord)
      → find (λ (x : DeliveryRecord). x.id == id) (e ∷ outbox) ≡ some d
      → (e.id == id) ≡ true
      → e ≡ d
  found_first e outbox d h hit =
      let first : find (λ (x : DeliveryRecord). x.id == id) (e ∷ outbox) ≡ some e =
        ground (arith, hit) in
      ap (λ o. elim o [ none ↦ e | some x ↦ x ]) (sym first ∙ h)

  own_first :
      (e d : DeliveryRecord) (outbox : List DeliveryRecord)
      → e ≡ d
      → (e.id == id) ≡ true
      → find (λ (x : DeliveryRecord). x.id == id) (f e ∷ outbox) ≡ some (f d)
  own_first e d outbox same hit =
      let kept : ((f e).id == id) ≡ true = subst (λ i. (i == id) ≡ true) (sym (same_id e)) hit in
      let first : find (λ (x : DeliveryRecord). x.id == id) (f e ∷ outbox) ≡ some (f e) =
        ground (arith, kept) in
      first ∙ ap (λ x. some (f x)) same

  other_first :
      (e : DeliveryRecord) (outbox : List DeliveryRecord) (other : String)
      → (e.id == id) ≡ true
      → (id == other) ≡ false
      → find (λ (x : DeliveryRecord). x.id == other) (f e ∷ outbox)
        ≡ find (λ (x : DeliveryRecord). x.id == other) (e ∷ outbox)
  other_first e outbox other hit differ =
      let old : (e.id == other) ≡ false =
        subst (λ i. (i == other) ≡ false) (sym ((eq_iff e.id id).0 hit)) differ in
      let new : ((f e).id == other) ≡ false =
        subst (λ i. (i == other) ≡ false) (sym (same_id e)) old in
      ground (arith, old, new)

  update_outbox-some :
      (outbox : List DeliveryRecord) (d : DeliveryRecord)
      → find (λ (e : DeliveryRecord). e.id == id) outbox ≡ some d
      → (after : List DeliveryRecord) × (update_outbox id f outbox ≡ some after)
        × IsUpdated outbox after d
  unfolding update_outbox
  update_outbox-some [] d h = absurd (ground (arith, h))
  update_outbox-some (e ∷ outbox) d h = elim (Bool-cases (e.id == id)) [
    | inl hit ↦
        let same = found_first e outbox d h hit in
        (
          f e ∷ outbox,
          ground (arith, hit),
          record {
            own = own_first e d outbox same hit;
            others = λ other differ. other_first e outbox other hit differ;
          },
        )
    | inr miss ↦
        let (after, done, up) = update_outbox-some outbox d (ground (arith, h, miss)) in
        (
          e ∷ after,
          rw (miss, done) refl,
          record {
            own = ground (arith, miss, up.own);
            others = λ other differ. ground (arith, up.others other differ);
          },
        )
  ]

  -- An update of a delivery that is there succeeds, gives it the new value, and changes no other.
  pub record IsStored (store after : Store) (d : DeliveryRecord) : Type 0 where
    pub own : find_delivery id after ≡ some (f d)
    pub others :
        (other : String)
        → (id == other) ≡ false
        → find_delivery other after ≡ find_delivery other store

  pub update_delivery-IsStored :
      (store : Store) (d : DeliveryRecord)
      → find_delivery id store ≡ some d
      → ((update_delivery id f store).0 ≡ ok tt) × IsStored store (update_delivery id f store).1 d
  unfolding update_delivery find_delivery
  update_delivery-IsStored [] d h = absurd (ground (arith, h))
  update_delivery-IsStored ((name, dir) ∷ store) d h =
      elim (Option-cases (find (λ (x : DeliveryRecord). x.id == id) dir.outbox)) [
        | inl missing ↦
            let unchanged = update_outbox-none dir.outbox missing in
            let (done, up) = update_delivery-IsStored store d (ground (arith, h, missing)) in
            (
              ground (arith, unchanged, done),
              record {
                own = ground (arith, unchanged, missing, up.own);
                others = λ other differ. ground (arith, unchanged, up.others other differ);
              },
            )
        | inr (e, found) ↦
            let (after, done, up) = update_outbox-some dir.outbox e found in
            let same =
              ap (λ o. elim o [ none ↦ e | some x ↦ x ]) (sym (found_here dir store e found) ∙ h) in
            (
              ground (arith, done),
              record {
                own = ground (arith, done, up.own) ∙ ap (λ x. some (f x)) same;
                others = λ other differ. ground (arith, done, up.others other differ);
              },
            )
      ]
    where
      found_here :
          (dir : Dir) (store : Store) (e : DeliveryRecord)
          → find (λ (x : DeliveryRecord). x.id == id) dir.outbox ≡ some e
          → find_delivery id ((name, dir) ∷ store) ≡ some e
      found_here dir store e found = ground (arith, found)
