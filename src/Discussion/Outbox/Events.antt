-- ===== src/Discussion/Outbox/Events.antt =====
-- Reconciliation of the two events of a discussion: a message, and its end.
use agent_community.Common.{
  ◌≡◌, refl, sym, String, true, List, [], ◌∷◌, ◌++◌, all, any, ℕ, ◌+◌, ◌≤◌, ◌∙◌, ap, Bool, false,
  not, ◌&&◌, ◌||◌, ◌==◌, Option, some, none, inl, inr, Option-cases, if◌then◌else◌, eq_refl, arith,
}
use mathlib.Core.Path.{subst, fun_ext}
use native.Mathlib.Nat.{le_refl}
use agent_community.Discussion.Model.{
  DiscussionRecord, Message, SubscriptionRecord, DeliveryRecord, Event, event_message_created,
}
use agent_community.Discussion.Exec.{Host, ok, Session}
use agent_community.Discussion.Exec.Hoare.{Ensures, Ensures_ok, Ensures_map}
use agent_community.Discussion.Outbox.{
  delivers, same_message, both_ended, own_message, subscription_accepts, delivery_exists, skips,
  reconcile_loop, read_subscriptions, read_delivery_records, reconcile_deliveries, message_event,
  reconcile_message_deliveries,
}
use agent_community.Discussion.Outbox.Frame.{reconcile_message_deliveries-Keeps}
use agent_community.Discussion.Outbox.Delivered.{
  FreshFrom, DistinctDraws, IsDelivered, deliveries_of,
}
use agent_community.Discussion.Outbox.Complete.{IsKnown, reconcile_deliveries-Hoare}

message_event-IsKnown :
    (host : Host) (r : DiscussionRecord) (m : Message) → IsKnown (message_event host r m)
unfolding delivers
message_event-IsKnown host r m d e =
    subst
      (λ ev. delivers d.subscription_id (message_event host r m) (record d { event = ev }) ≡ true)
      (sym e) (ground (arith, eq_refl d.subscription_id, eq_refl m.id))

reconcile_message-IsDelivered :
    (host : Host) (r : DiscussionRecord) (m : Message) (s : Session)
    → DistinctDraws host
    → FreshFrom host s.draws s.dir.outbox
    → Ensures
        (reconcile_message_deliveries host r m s).0
        (reconcile_message_deliveries host r m s).1
        (λ _ t. IsDelivered (message_event host r m) s.dir.subscriptions s.dir.outbox t.dir.outbox)
        (λ e t. (added : List DeliveryRecord) × (t.dir.outbox ≡ s.dir.outbox ++ added))
unfolding reconcile_message_deliveries
reconcile_message-IsDelivered host r m s distinct fresh =
    (reconcile_deliveries-Hoare host distinct r.id (message_event host r m)
        (message_event-IsKnown host r m) s.dir.subscriptions s.dir.outbox).at
      s ((refl, fresh), refl)

module _ (m : Message) where
  -- The message that an event carries, if any, has the id of `m`.
  abbrev pub carries : Option Message → Bool
  carries none = false
  carries (some stored) = stored.id == m.id

  -- A delivery of the message to the subscription of an id.
  abbrev pub is_delivery_to : String → DeliveryRecord → Bool
  is_delivery_to id d =
      d.subscription_id == id && d.event.type == event_message_created && carries d.event.message

  -- A subscription, not removed, to new messages, whose participant has not asked to be spared its
  -- own messages, or has not written this one.
  abbrev pub is_recipient : SubscriptionRecord → Bool
  is_recipient sub =
      elim sub.removed_at [ none ↦ true | some _ ↦ false ]
      && any (λ e. e == event_message_created) sub.events
      && not (sub.ignore_self && m.author == sub.participant_id)

  abbrev pub deliveries_to : String → List DeliveryRecord → ℕ
  deliveries_to id [] = 0
  deliveries_to id (d ∷ outbox) = (if is_delivery_to id d then 1 else 0) + deliveries_to id outbox

  -- Each recipient has a delivery of the message, and none has two where none had.
  pub record IsSentOut (subs : List SubscriptionRecord) (before after : List DeliveryRecord)
      : Type 0 where
    pub added : List DeliveryRecord
    pub extends : after ≡ before ++ added
    pub complete :
        all
          (λ (sub : SubscriptionRecord).
            not (is_recipient sub) || any (is_delivery_to sub.id) after)
          subs
        ≡ true
    pub at_most_once : (id : String) → deliveries_to id before ≤ 1 → deliveries_to id after ≤ 1

  module _ (host : Host) (r : DiscussionRecord) where
    delivers-is_delivery_to :
        (id : String) (d : DeliveryRecord)
        → delivers id (message_event host r m) d ≡ is_delivery_to id d
    unfolding delivers same_message both_ended
    delivers-is_delivery_to id d = elim (Option-cases d.event.message) [
      | inl e ↦ rw e (ground arith)
      | inr (stored, e) ↦ rw e (ground arith)
    ]

    skips-is_recipient :
        (outbox : List DeliveryRecord) (sub : SubscriptionRecord)
        → skips outbox (message_event host r m) sub
          ≡ (not (is_recipient sub) || any (is_delivery_to sub.id) outbox)
    unfolding skips subscription_accepts own_message delivery_exists
    skips-is_recipient outbox sub =
        let same = ap (λ f. any f outbox) (fun_ext (delivers-is_delivery_to sub.id)) in
        elim (Option-cases sub.removed_at) [
          | inl e ↦ rw (e, same) (ground arith)
          | inr (at, e) ↦ rw e refl
        ]

    deliveries_of-deliveries_to :
        (id : String) (outbox : List DeliveryRecord)
        → deliveries_of (message_event host r m) id outbox ≡ deliveries_to id outbox
    deliveries_of-deliveries_to id [] = refl
    deliveries_of-deliveries_to id (d ∷ outbox) =
        rw (delivers-is_delivery_to id d, deliveries_of-deliveries_to id outbox) refl

    sent_out :
        (subs : List SubscriptionRecord) (before after : List DeliveryRecord)
        → IsDelivered (message_event host r m) subs before after
        → IsSentOut subs before after
    sent_out subs before after q = record {
      added = q.added;
      extends = q.extends;
      complete = ap (λ f. all f subs) (sym (fun_ext (skips-is_recipient after))) ∙ q.complete;
      at_most_once = λ id h.
          subst (λ n. n ≤ 1) (deliveries_of-deliveries_to id after)
            (q.at_most_once id
              (subst (λ n. n ≤ 1) (sym (deliveries_of-deliveries_to id before)) h));
    }

-- Reconciliation of a message. If it succeeds, every subscription that is not removed, names new
-- messages among its events and is not spared its own has a delivery that carries the id of the
-- message, the deliveries that were there are kept, and none has two where none had; if it fails,
-- what was there is kept too.
pub reconcile_message_outcome :
    (host : Host) (r : DiscussionRecord) (m : Message) (s : Session)
    → DistinctDraws host
    → FreshFrom host s.draws s.dir.outbox
    → Ensures
        (reconcile_message_deliveries host r m s).0
        (reconcile_message_deliveries host r m s).1
        (λ _ t. IsSentOut m s.dir.subscriptions s.dir.outbox t.dir.outbox)
        (λ e t. (added : List DeliveryRecord) × (t.dir.outbox ≡ s.dir.outbox ++ added))
reconcile_message_outcome host r m s distinct fresh =
    Ensures_map _ _ _ (reconcile_message_deliveries host r m s).0
      (reconcile_message_deliveries host r m s).1
      (λ _ q. sent_out m host r s.dir.subscriptions s.dir.outbox _ q)
      (reconcile_message-IsDelivered host r m s distinct fresh)

-- Where every subscription is skipped, the loop does nothing.
reconcile_loop-idle :
    (host : Host) (id : String) (event : Event) (subs : List SubscriptionRecord)
    (ex : List DeliveryRecord) (s : Session)
    → all (skips ex event) subs ≡ true
    → reconcile_loop host id event subs ex s ≡ (ok tt, s)
unfolding reconcile_loop
reconcile_loop-idle host id event [] ex s h = refl
reconcile_loop-idle host id event (x ∷ subs) ex s h =
    ground (arith, reconcile_loop-idle host id event subs ex s)

reconcile_deliveries-idle :
    (host : Host) (id : String) (event : Event) (s : Session)
    → all (skips s.dir.outbox event) s.dir.subscriptions ≡ true
    → (reconcile_deliveries host id event s).1 ≡ s
unfolding reconcile_deliveries read_subscriptions read_delivery_records
reconcile_deliveries-idle host id event s h =
    ground (arith, reconcile_loop-idle host id event s.dir.subscriptions s.dir.outbox s h)

-- Reconciling a message again, as an idempotent replay and a restart of the server do, changes nothing.
pub reconcile_message_again :
    (host : Host) (r : DiscussionRecord) (m : Message) (s : Session)
    → DistinctDraws host
    → FreshFrom host s.draws s.dir.outbox
    → (reconcile_message_deliveries host r m s).0 ≡ ok tt
    → let t = (reconcile_message_deliveries host r m s).1 in
      (reconcile_message_deliveries host r m t).1 ≡ t
unfolding reconcile_message_deliveries
reconcile_message_again host r m s distinct fresh done =
    let (res, t) = reconcile_message_deliveries host r m s in
    let delivered =
      Ensures_ok
        (λ _ u. IsDelivered (message_event host r m) s.dir.subscriptions s.dir.outbox u.dir.outbox)
        (λ e u. (added : List DeliveryRecord) × (u.dir.outbox ≡ s.dir.outbox ++ added)) res t
        (reconcile_message-IsDelivered host r m s distinct fresh) done in
    let kept : t.dir.subscriptions ≡ s.dir.subscriptions =
      ((reconcile_message_deliveries-Keeps (λ r' ms' subs'. subs' ≡ s.dir.subscriptions) s.draws
          host r m).at
        s (refl, le_refl s.draws)).0 in
    reconcile_deliveries-idle host r.id (message_event host r m) t (
      subst (λ subs. all (skips t.dir.outbox (message_event host r m)) subs ≡ true) (sym kept)
        delivered.complete)
