-- ===== src/Tests/Delivering.antt =====
-- Deliveries of a message to two subscriptions, one of which ignores its own participant's messages.
use agent_community.Common.{◌≡◌, refl, String, true, Bool, none, List, [], ◌∷◌, ◌++◌}
use agent_community.Discussion.Model.{
  Message, SubscriptionRecord, DeliveryRecord, event_message_created, event_discussion_ended,
}
use agent_community.Discussion.Exec.{ok, Session}
use agent_community.Discussion.Exec.Hoare.{Ensures}
use agent_community.Discussion.Outbox.{reconcile_message_deliveries}
use agent_community.Discussion.Outbox.Events.{
  IsSentOut, reconcile_message_outcome, reconcile_message_again,
}
use agent_community.Tests.Run.{run_reconcile}
use agent_community.Tests.Draws.{host-DistinctDraws, host-FreshFrom}
use agent_community.Tests.Fixture.{host, discussion}

abbrev subscription : String → String → Bool → SubscriptionRecord
subscription id participant_id ignore_self = record {
  id = id;
  participant_id = participant_id;
  callback_url = "https://goat.example/hook";
  signing_secret = "0123456789abcdef0123456789abcdef";
  events = event_message_created ∷ event_discussion_ended ∷ [];
  ignore_self = ignore_self;
  created_at = 950;
  removed_at = none;
}

abbrev answer : Message
answer = record {
  id = "M1";
  discussion_id = "DISCUSSION";
  sequence = 1;
  created_at = 990;
  author = "bob";
  body = "It is simpler.";
  reply_to = "";
}

abbrev subscribed : Session
subscribed = record {
  dir = record {
    record_file = discussion;
    messages = [];
    subscriptions = subscription "S1" "alice" true ∷ subscription "S2" "bob" true ∷ [];
    outbox = [];
  };
  readings = 0;
  draws = 0;
}

abbrev delivered : Session
delivered = (reconcile_message_deliveries host discussion answer subscribed).1

delivered_once : (reconcile_message_deliveries host discussion answer subscribed).0 ≡ ok tt
unfolding run_reconcile
delivered_once = refl

abbrev delivered_to : List DeliveryRecord → List String
delivered_to [] = []
delivered_to (d ∷ outbox) = d.subscription_id ∷ delivered_to outbox

-- Only alice's subscription takes bob's message.
to_alice : delivered_to delivered.dir.outbox ≡ "S1" ∷ []
unfolding run_reconcile
to_alice = refl

reconcile_message_outcome_example :
    Ensures
      (reconcile_message_deliveries host discussion answer subscribed).0
      delivered
      (λ _ t. IsSentOut answer subscribed.dir.subscriptions subscribed.dir.outbox t.dir.outbox)
      (λ e t. (added : List DeliveryRecord) × (t.dir.outbox ≡ subscribed.dir.outbox ++ added))
reconcile_message_outcome_example =
    reconcile_message_outcome host discussion answer subscribed host-DistinctDraws host-FreshFrom

reconcile_message_again_example :
    (reconcile_message_deliveries host discussion answer delivered).1 ≡ delivered
reconcile_message_again_example =
    reconcile_message_again host discussion answer subscribed host-DistinctDraws host-FreshFrom
      delivered_once
