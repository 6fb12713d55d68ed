-- ===== src/Discussion/Outbox/Complete.antt =====
-- Reconciliation makes one delivery of an event for each subscription that takes it, and no second.
use agent_community.Common.{
  suc, ◌≡◌, refl, sym, ◌∙◌, ap, String, Bool, true, false, some, List, [], ◌∷◌, ◌++◌, append-nil,
  append_assoc, any, all, ◌==◌, arith,
}
use mathlib.Core.Path.{subst}
use native.Mathlib.Nat.{le_refl}
use agent_community.Discussion.Model.{Time, SubscriptionRecord, DeliveryRecord, Event, pending}
use agent_community.Discussion.Exec.{
  Host, Error, ok, internal, Session, ◌>>=◌, ◌>>◌, pure, guard, gets, now, new_ulid,
}
use agent_community.Discussion.Exec.Hoare.{
  Hoare, Hoare_intro, Hoare-bind, Hoare-guard, Hoare_given, Hoare_post,
}
use agent_community.Discussion.Validate.{valid_subscriptions, valid_delivery}
use agent_community.Discussion.Outbox.{
  put_delivery, write_delivery, delivers, skips, new_delivery, reconcile_loop, read_subscriptions,
  read_delivery_records, reconcile_deliveries,
}
use agent_community.Discussion.Outbox.Delivered.{
  FreshFrom, DistinctDraws, put_delivery-new, FreshFrom-next, IsDelivered, nothing_to_do, skipped,
  made,
}

ulid_of :
    (host : Host) (t : Time) (s : Session) {id : String}
    → (new_ulid host t s).0 ≡ ok id
    → host.ulid t s.draws ≡ some id
unfolding new_ulid
ulid_of host t s h = ground arith

draws_of : (host : Host) (t : Time) (s : Session) → (new_ulid host t s).1.draws ≡ suc s.draws
unfolding new_ulid
draws_of host t s = ground arith

dir_of : (host : Host) (t : Time) (s : Session) → (new_ulid host t s).1.dir ≡ s.dir
unfolding new_ulid
dir_of host t s = ground arith

-- The event is one that a delivery of it is recognised by: a message or an end.
abbrev pub IsKnown : Event → Type 0
IsKnown event = (d : DeliveryRecord) → d.event ≡ event → delivers d.subscription_id event d ≡ true

module _ (host : Host) (distinct : DistinctDraws host) (discussion_id : String) (event : Event)
    (known : IsKnown event) where
  -- The outbox, as the loop's own list of the deliveries so far says.
  abbrev At : List DeliveryRecord → Session → Type 0
  At ex s = (s.dir.outbox ≡ ex) × FreshFrom host s.draws ex

  -- An error comes after some deliveries, each of its own subscription.
  abbrev pub Extended : List DeliveryRecord → Error → Session → Type 0
  Extended ex e s = (added : List DeliveryRecord) × (s.dir.outbox ≡ ex ++ added)

  record IsDrawn (ex : List DeliveryRecord) (id : String) (s : Session) : Type 0 where
    same : s.dir.outbox ≡ ex
    unused : any (λ (d : DeliveryRecord). d.id == id) ex ≡ false
    fresh : (d : DeliveryRecord) → d.id ≡ id → FreshFrom host s.draws (ex ++ d ∷ [])

  record IsMade (sub : SubscriptionRecord) (ex : List DeliveryRecord) (d : DeliveryRecord)
      (s : Session) : Type 0 where
    same : s.dir.outbox ≡ ex
    unused : any (λ (e : DeliveryRecord). e.id == d.id) ex ≡ false
    fresh : FreshFrom host s.draws (ex ++ d ∷ [])
    own : d.subscription_id ≡ sub.id
    there : delivers sub.id event d ≡ true

  unchanged :
      (ex : List DeliveryRecord) (e : Error) (s : Session) → s.dir.outbox ≡ ex → Extended ex e s
  unchanged ex e s h = ([], h ∙ sym (append-nil ex))

  ulid-IsDrawn :
      (ex : List DeliveryRecord) (t : Time) (s : Session) {id : String}
      → At ex s
      → (new_ulid host t s).0 ≡ ok id
      → IsDrawn ex id (new_ulid host t s).1
  ulid-IsDrawn ex t s {id} h e =
      let drawn = ulid_of host t s e in
      record {
        same = rw (dir_of host t s) h.0;
        unused = h.1 t s.draws id (le_refl s.draws) drawn;
        fresh = λ d same. rw (draws_of host t s) (
            FreshFrom-next host s.draws s.draws t d ex distinct (le_refl s.draws)
              (subst (λ i. host.ulid t s.draws ≡ some i) (sym same) drawn) h.1);
      }

  drawing-Hoare :
      (ex : List DeliveryRecord) (t : Time)
      → Hoare (At ex) (new_ulid host t) (IsDrawn ex) (Extended ex)
  drawing-Hoare ex t =
      Hoare_intro (new_ulid host t) (λ s h id e. ulid-IsDrawn ex t s h e)
        (λ s h e _. unchanged ex e (new_ulid host t s).1 (rw (dir_of host t s) h.0))

  abbrev built : SubscriptionRecord → String → Time → DeliveryRecord
  built sub id due = record {
    id = id;
    discussion_id = discussion_id;
    subscription_id = sub.id;
    event = event;
    status = pending;
    attempts = 0;
    next_attempt_at = due;
    last_error = "";
  }

  building-Hoare :
      (sub : SubscriptionRecord) (ex : List DeliveryRecord) (id : String)
      → Hoare
          (IsDrawn ex id)
          (now host >>= λ due. pure (built sub id due))
          (IsMade sub ex)
          (Extended ex)
  unfolding now
  building-Hoare sub ex id = record {
    at = λ s h. record {
      same = h.same;
      unused = h.unused;
      fresh = h.fresh (built sub id (host.clock s.readings)) refl;
      own = refl;
      there = known (built sub id (host.clock s.readings)) refl;
    };
  }

  new_delivery-Hoare :
      (sub : SubscriptionRecord) (ex : List DeliveryRecord)
      → Hoare (At ex) (new_delivery host discussion_id event sub) (IsMade sub ex) (Extended ex)
  unfolding new_delivery now
  new_delivery-Hoare sub ex =
      Hoare-bind {Q = λ _ s. At ex s} (now host)
        (λ stamp. new_ulid host stamp >>= λ id. now host >>= λ due. pure (built sub id due))
        (record { at = λ s h. h })
        (λ stamp.
          Hoare-bind (new_ulid host stamp) (λ id. now host >>= λ due. pure (built sub id due))
            (drawing-Hoare ex stamp) (building-Hoare sub ex))

  write_delivery-Hoare :
      (sub : SubscriptionRecord) (ex : List DeliveryRecord) (d : DeliveryRecord)
      → Hoare
          (IsMade sub ex d)
          (write_delivery d)
          (λ _ s.
            At (ex ++ d ∷ []) s × ((d.subscription_id ≡ sub.id) × (delivers sub.id event d ≡ true)))
          (Extended ex)
  unfolding write_delivery
  write_delivery-Hoare sub ex d = record {
    at = λ s h.
        ((ap (put_delivery d) h.same ∙ put_delivery-new d ex h.unused, h.fresh), (h.own, h.there));
  }

  Extended-more :
      (ex : List DeliveryRecord) (d : DeliveryRecord) (e : Error) (s : Session)
      → Extended (ex ++ d ∷ []) e s
      → Extended ex e s
  Extended-more ex d e s (added, h) = (d ∷ added, h ∙ append_assoc ex (d ∷ []) added)

  -- One turn of the loop.
  turn-Hoare :
      (s : SubscriptionRecord) (rest : List SubscriptionRecord) (ex : List DeliveryRecord)
      (b : Bool)
      → skips ex event s ≡ b
      → ((ex' : List DeliveryRecord)
          → Hoare
              (At ex')
              (reconcile_loop host discussion_id event rest ex')
              (λ _ t. IsDelivered event rest ex' t.dir.outbox)
              (Extended ex'))
      → Hoare
          (At ex)
          (elim b [
            | true ↦ reconcile_loop host discussion_id event rest ex
            | false ↦ new_delivery host discussion_id event s >>= λ d.
                write_delivery d >> reconcile_loop host discussion_id event rest (ex ++ d ∷ [])
          ])
          (λ _ t. IsDelivered event (s ∷ rest) ex t.dir.outbox)
          (Extended ex)
  turn-Hoare s rest ex true e loop =
      Hoare_post _ (λ _ t q. skipped event s rest ex t.dir.outbox e q) (λ x t h. h) (loop ex)
  turn-Hoare s rest ex false e loop =
      Hoare-bind (new_delivery host discussion_id event s) _ (new_delivery-Hoare s ex) (λ d.
        Hoare-bind (write_delivery d) _ (write_delivery-Hoare s ex d) (λ _. Hoare_given _ (λ facts.
          Hoare_post _ (λ _ t q. made event s rest ex t.dir.outbox d e facts.0 facts.1 q)
            (Extended-more ex d) (loop (ex ++ d ∷ [])))))

  reconcile_loop-Hoare :
      (subs : List SubscriptionRecord) (ex : List DeliveryRecord)
      → Hoare
          (At ex)
          (reconcile_loop host discussion_id event subs ex)
          (λ _ t. IsDelivered event subs ex t.dir.outbox)
          (Extended ex)
  unfolding reconcile_loop
  reconcile_loop-Hoare [] ex = record { at = λ s h. rw h.0 (nothing_to_do event ex) }
  reconcile_loop-Hoare (s ∷ rest) ex =
      turn-Hoare s rest ex (skips ex event s) refl (reconcile_loop-Hoare rest)

  read_subscriptions-Hoare :
      {P : Session → Type 0} (ex : List DeliveryRecord)
      → ((s : Session) → P s → s.dir.outbox ≡ ex)
      → Hoare P read_subscriptions (λ subs s. P s × (subs ≡ s.dir.subscriptions)) (Extended ex)
  unfolding read_subscriptions
  read_subscriptions-Hoare {P} ex same =
      Hoare-bind {Q = λ subs s. P s × (subs ≡ s.dir.subscriptions)} (gets (λ d. d.subscriptions)) _
        (record { at = λ s h. (h, refl) })
        (λ subs.
          Hoare-bind (guard (valid_subscriptions subs) internal) _
            (Hoare-guard _ internal (λ s h. unchanged ex internal s (same s h.0)))
            (λ _. record { at = λ s h. h.0 }))

  read_delivery_records-Hoare :
      {P : Session → Type 0} (ex : List DeliveryRecord)
      → ((s : Session) → P s → s.dir.outbox ≡ ex)
      → Hoare P
          (read_delivery_records discussion_id)
          (λ records s. P s × (records ≡ ex))
          (Extended ex)
  unfolding read_delivery_records
  read_delivery_records-Hoare {P} ex same =
      Hoare-bind {Q = λ records s. P s × (records ≡ ex)} (gets (λ d. d.outbox)) _
        (record { at = λ s h. (h, same s h) })
        (λ records.
          Hoare-bind (guard (all (valid_delivery discussion_id) records) internal) _
            (Hoare-guard _ internal (λ s h. unchanged ex internal s (same s h.0)))
            (λ _. record { at = λ s h. h.0 }))

  abbrev Found : List SubscriptionRecord → List DeliveryRecord → Session → Type 0
  Found subs ex s = At ex s × (s.dir.subscriptions ≡ subs)

  looping-Hoare :
      (subs subs' : List SubscriptionRecord) (ex ex' : List DeliveryRecord)
      → subs' ≡ subs
      → ex' ≡ ex
      → Hoare
          (At ex)
          (reconcile_loop host discussion_id event subs' ex')
          (λ _ t. IsDelivered event subs ex t.dir.outbox)
          (Extended ex)
  looping-Hoare subs subs' ex ex' e f =
      subst
        (λ x.
          Hoare (At ex) (reconcile_loop host discussion_id event x ex')
            (λ _ t. IsDelivered event subs ex t.dir.outbox) (Extended ex))
        (sym e)
        (subst
          (λ x.
            Hoare (At ex) (reconcile_loop host discussion_id event subs x)
              (λ _ t. IsDelivered event subs ex t.dir.outbox) (Extended ex))
          (sym f) (reconcile_loop-Hoare subs ex))

  pub reconcile_deliveries-Hoare :
      (subs : List SubscriptionRecord) (ex : List DeliveryRecord)
      → Hoare
          (Found subs ex)
          (reconcile_deliveries host discussion_id event)
          (λ _ t. IsDelivered event subs ex t.dir.outbox)
          (Extended ex)
  unfolding reconcile_deliveries
  reconcile_deliveries-Hoare subs ex =
      Hoare-bind read_subscriptions _
        (read_subscriptions-Hoare {P = Found subs ex} ex (λ s h. h.0.0))
        (λ subs'.
          Hoare-bind (read_delivery_records discussion_id) _
            (read_delivery_records-Hoare {P = λ s. Found subs ex s × (subs' ≡ s.dir.subscriptions)}
              ex (λ s h. h.0.0.0))
            (λ ex'. record {
              at = λ s h. (looping-Hoare subs subs' ex ex' (h.0.1 ∙ h.0.0.1) h.1).at s h.0.0.0;
            }))
