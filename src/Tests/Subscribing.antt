-- ===== src/Tests/Subscribing.antt =====
-- Subscriptions to a discussion.
use agent_community.Common.{◌≡◌, refl, ◌≤◌, String, true, [], ◌∷◌, arith}
use agent_community.Discussion.Model.{SubscribeInput, event_message_created, event_discussion_ended}
use agent_community.Discussion.Exec.{ok, Session}
use agent_community.Discussion.Exec.Hoare.{Ensures}
use agent_community.Discussion.Subscribe.{subscribe, unsubscribe}
use agent_community.Discussion.Subscribe.Single.{active_count, subscribe_one_active}
use agent_community.Discussion.Subscribe.Removal.{
  Unsubscribed, NotUnsubscribed, unsubscribe_outcome, unsubscribe_again,
}
use agent_community.Tests.Run.{run_subscribe, run_unsubscribe}
use agent_community.Tests.Fixture.{host, start, alice_token}

abbrev webhook : SubscribeInput
webhook = record {
  callback_url = "https://goat.example/hook";
  signing_secret = "0123456789abcdef0123456789abcdef";
  events = event_message_created ∷ event_discussion_ended ∷ [];
  ignore_self = true;
}

abbrev subscribed : Session
subscribed = (subscribe host "DISCUSSION" alice_token webhook start).1

subscribes :
    (subscribe host "DISCUSSION" alice_token webhook start).0
    ≡ ok (record {
      id = "A0";
      participant_id = "alice";
      events = event_message_created ∷ event_discussion_ended ∷ [];
      ignore_self = true;
      created_at = 1001;
    })
unfolding run_subscribe
subscribes = refl

none_active_at_start : (q : String) → active_count q start.dir.subscriptions ≤ 1
none_active_at_start q = omega arith

subscribe_one_active_example : active_count "alice" subscribed.dir.subscriptions ≤ 1
subscribe_one_active_example =
    subscribe_one_active host "DISCUSSION" alice_token webhook start none_active_at_start "alice"

abbrev unsubscribed : Session
unsubscribed = (unsubscribe host "DISCUSSION" alice_token "A0" subscribed).1

unsubscribes : (unsubscribe host "DISCUSSION" alice_token "A0" subscribed).0 ≡ ok tt
unfolding run_subscribe run_unsubscribe
unsubscribes = refl

unsubscribe_outcome_example :
    Ensures
      (unsubscribe host "DISCUSSION" alice_token "A0" subscribed).0
      unsubscribed
      (Unsubscribed host "DISCUSSION" alice_token "A0" subscribed.dir)
      (NotUnsubscribed host "DISCUSSION" alice_token "A0" subscribed.dir)
unsubscribe_outcome_example = unsubscribe_outcome host "DISCUSSION" alice_token "A0" subscribed

unsubscribe_again_example :
    (unsubscribe host "DISCUSSION" alice_token "A0" unsubscribed).1.dir ≡ unsubscribed.dir
unsubscribe_again_example =
    unsubscribe_again host "DISCUSSION" alice_token "A0" subscribed unsubscribes
