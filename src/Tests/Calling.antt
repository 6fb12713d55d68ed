-- ===== src/Tests/Calling.antt =====
-- An attempt to deliver an event that the callback asks to try again later.
use agent_community.Common.{length, ◌≤◌, List, false, ◌≡◌, refl, some, none, [], ◌∷◌}
use agent_community.Common.Int.{pos}
use agent_community.Discussion.Model.{
  Delivery, DeliveryRecord, pending, event_discussion_ended, ended, explicit,
}
use agent_community.Discussion.Exec.{ok}
use agent_community.Discussion.Deliveries.{Store, find_delivery}
use agent_community.Webhook.{Parsing, answered, deliver}
use agent_community.Webhook.Attempt.{Attempted, deliver_outcome}
use agent_community.Discussion.Validate.{valid_subscriptions, valid_delivery}
use agent_community.Discussion.Deliveries.Due.{
  list_due_deliveries, collect_due, due_in, sort, insert, is_pending,
}
use agent_community.Discussion.Deliveries.Due.Ordering.{Every, Ordered}
use agent_community.Discussion.Deliveries.Due.Listed.{IsDue, list_due_deliveries-IsDue}
use agent_community.Tests.Fixture.{discussion}

abbrev parsing : Parsing
parsing = record {
  trim_space = λ s. s;
  atoi = λ s. some (pos 7);
  parse_time = λ s. none;
  status_text = λ n. "HTTP 429";
}

abbrev due : DeliveryRecord
due = record {
  id = "E1";
  discussion_id = "DISCUSSION";
  subscription_id = "S1";
  event = record {
    type = event_discussion_ended;
    created_at = 1000;
    discussion_id = "DISCUSSION";
    message = none;
    ended = some (record { status = ended; reason = explicit });
  };
  status = pending;
  attempts = 0;
  next_attempt_at = 1000;
  last_error = "";
}

abbrev store : Store
store =
    (
      "DISCUSSION",
      record { record_file = discussion; messages = []; subscriptions = []; outbox = due ∷ [] },
    )
    ∷ []

due_there : find_delivery "E1" store ≡ some due
unfolding find_delivery
due_there = refl

deliver_outcome_example :
    ((deliver parsing due (answered 429 "7") 2000 2001 store).0 ≡ ok tt)
    × Attempted "E1" due
        (answered 429 "7")
        2001
        store
        (deliver parsing due (answered 429 "7") 2000 2001 store).1
deliver_outcome_example =
    deliver_outcome parsing due due (answered 429 "7") 2000 2001 store due_there

abbrev subscribed_store : Store
subscribed_store =
    (
      "DISCUSSION",
      record {
        record_file = discussion;
        messages = [];
        subscriptions =
            record {
              id = "S1";
              participant_id = "alice";
              callback_url = "https://goat.example/hook";
              signing_secret = "0123456789abcdef0123456789abcdef";
              events = event_discussion_ended ∷ [];
              ignore_self = false;
              created_at = 950;
              removed_at = none;
            }
            ∷ [];
        outbox = due ∷ [];
      },
    )
    ∷ []

abbrev listed : List Delivery
listed =
    record {
      id = "E1";
      subscription_id = "S1";
      callback_url = "https://goat.example/hook";
      signing_secret = "0123456789abcdef0123456789abcdef";
      event = due.event;
      attempts = 0;
      next_attempt_at = 1000;
    }
    ∷ []

lists_due : list_due_deliveries 1500 (pos 10) subscribed_store ≡ ok listed
unfolding list_due_deliveries collect_due due_in sort insert is_pending valid_subscriptions
    valid_delivery
lists_due = refl

list_due_deliveries-IsDue_example :
    Every (IsDue 1500 subscribed_store) listed × Ordered listed × (length listed ≤ 10)
list_due_deliveries-IsDue_example =
    list_due_deliveries-IsDue 1500 (pos 10) subscribed_store lists_due
