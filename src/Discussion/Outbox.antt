-- ===== src/Discussion/Outbox.antt =====
-- The outbox of a discussion: the reads, the writes and the reconciliation of subscription.go.
pub mod Frame
pub mod Delivered
pub mod Complete
pub mod Events
use agent_community.Common.{
  ℕ, zero, suc, String, Bool, true, false, ◌&&◌, ◌||◌, not, Option, none, some, List, [], ◌∷◌, ◌++◌,
  all, any, ◌==◌, if◌then◌else◌,
}
use agent_community.Discussion.Model.{
  Time, DiscussionRecord, Message, SubscriptionRecord, DeliveryRecord, DeliveryStatus, pending,
  Event, EventType, event_message_created, event_discussion_ended, EndReason, DiscussionEnded,
}
use agent_community.Discussion.Exec.{
  Host, Result, ok, err, internal, Exec, Dir, Session, ◌>>=◌, ◌>>◌, pure, raise, guard, gets,
  modify, now, new_ulid,
}
use agent_community.Discussion.Validate.{valid_subscriptions, valid_delivery}

unfoldable pub read_subscriptions : Exec (List SubscriptionRecord)
read_subscriptions = do
  subscriptions ← gets (λ d. d.subscriptions)
  guard (valid_subscriptions subscriptions) internal
  pure subscriptions

unfoldable pub write_subscriptions : List SubscriptionRecord → Exec (Unit {0})
write_subscriptions subscriptions = modify (λ d. record d { subscriptions = subscriptions })

unfoldable pub read_delivery_records : String → Exec (List DeliveryRecord)
read_delivery_records discussion_id = do
  records ← gets (λ d. d.outbox)
  guard (all (valid_delivery discussion_id) records) internal
  pure records

-- The file of a delivery is named by its id, so a write replaces the delivery of that id.
unfoldable pub put_delivery : DeliveryRecord → List DeliveryRecord → List DeliveryRecord
put_delivery d [] = d ∷ []
put_delivery d (e ∷ outbox) = if e.id == d.id then d ∷ outbox else e ∷ put_delivery d outbox

unfoldable pub write_delivery : DeliveryRecord → Exec (Unit {0})
write_delivery delivery = modify (λ d. record d { outbox = put_delivery delivery d.outbox })

unfoldable pub own_message : SubscriptionRecord → Option Message → Bool
own_message subscription none = false
own_message subscription (some m) =
    subscription.ignore_self && m.author == subscription.participant_id

unfoldable pub subscription_accepts : SubscriptionRecord → Event → Bool
unfolding own_message
subscription_accepts subscription event =
    not (own_message subscription event.message)
    && any (λ candidate. candidate == event.type) subscription.events

unfoldable pub same_message : Option Message → Option Message → Bool
same_message (some m) (some stored) = stored.id == m.id
same_message _ _ = false

unfoldable pub both_ended : Option DiscussionEnded → Option DiscussionEnded → Bool
both_ended (some e) (some stored) = true
both_ended _ _ = false

-- A record is the delivery of an event to a subscription.
unfoldable pub delivers : String → Event → DeliveryRecord → Bool
unfolding same_message both_ended
delivers subscription_id event stored =
    stored.subscription_id == subscription_id
    && stored.event.type == event.type
    && (same_message event.message stored.event.message
        || both_ended event.ended stored.event.ended)

unfoldable pub delivery_exists : List DeliveryRecord → String → Event → Bool
delivery_exists records subscription_id event = any (delivers subscription_id event) records

-- The `continue` of the loop over the subscriptions.
unfoldable pub skips : List DeliveryRecord → Event → SubscriptionRecord → Bool
unfolding subscription_accepts delivery_exists
skips existing event subscription =
    elim subscription.removed_at [ none ↦ false | some _ ↦ true ]
    || not (subscription_accepts subscription event)
    || delivery_exists existing subscription.id event

module _ (host : Host) (discussion_id : String) (event : Event) where
  unfoldable pub new_delivery : SubscriptionRecord → Exec DeliveryRecord
  new_delivery subscription = do
    stamp ← now host
    id ← new_ulid host stamp
    due ← now host
    pure (record {
      id = id;
      discussion_id = discussion_id;
      subscription_id = subscription.id;
      event = event;
      status = pending;
      attempts = 0;
      next_attempt_at = due;
      last_error = "";
    })

  unfoldable pub reconcile_loop : List SubscriptionRecord → List DeliveryRecord → Exec (Unit {0})
  reconcile_loop [] existing = pure tt
  reconcile_loop (subscription ∷ rest) existing = elim (skips existing event subscription) [
    | true ↦ reconcile_loop rest existing
    | false ↦ do
      delivery ← new_delivery subscription
      write_delivery delivery
      reconcile_loop rest (existing ++ delivery ∷ [])
  ]

  unfoldable pub reconcile_deliveries : Exec (Unit {0})
  reconcile_deliveries = do
    subscriptions ← read_subscriptions
    existing ← read_delivery_records discussion_id
    reconcile_loop subscriptions existing

module _ (host : Host) (r : DiscussionRecord) where
  abbrev pub message_event : Message → Event
  message_event m = record {
    type = event_message_created;
    created_at = m.created_at;
    discussion_id = r.id;
    message = some m;
    ended = none;
  }

  unfoldable pub reconcile_message_deliveries : Message → Exec (Unit {0})
  reconcile_message_deliveries m = reconcile_deliveries host r.id (message_event m)

  abbrev pub end_event : EndReason → Time → Event
  end_event reason at = record {
    type = event_discussion_ended;
    created_at = at;
    discussion_id = r.id;
    message = none;
    ended = some (record { status = r.status; reason = reason });
  }

  unfoldable pub reconcile_end_deliveries : EndReason → Exec (Unit {0})
  reconcile_end_deliveries reason = do
    at ← now host
    reconcile_deliveries host r.id (end_event reason at)
