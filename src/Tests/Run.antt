-- ===== src/Tests/Run.antt =====
-- The operations on the concrete host, opened for evaluation.
use agent_community.Common.{ℕ, String, Bool, List, strip_prefix, cut, all_chars}
use agent_community.Discussion.Model.{
  CreateInput, Message, PostInput, Discussion, DiscussionRecord, MessageRecord, ParticipantRecord,
  Subscription, SubscribeInput,
}
use agent_community.Discussion.Exec.{Dir, new_secret, Exec, Result, now, new_ulid}
use agent_community.Discussion.Capability.{
  new_capability, hex_encode, bytes_equal, capability_key_id, capability_matches, has_permission,
  hex_decode,
}
use agent_community.Discussion.Validate.{
  validate_create_input, no_duplicates, validate_record, validate_post_input,
  contains_earlier_message, validate_stored_message, validate_subscribe_input, valid_subscriptions,
  valid_delivery,
}
use agent_community.Discussion.Messages.{read_line, read_lines, read_messages, line_length}
use agent_community.Discussion.Outbox.{
  read_subscriptions, write_subscriptions, read_delivery_records, put_delivery, write_delivery,
  delivers, skips, new_delivery, reconcile_loop, reconcile_deliveries, reconcile_message_deliveries,
  reconcile_end_deliveries,
}
use agent_community.Discussion.Access.{
  read_record, find_participant, holds_token, authorize, is_active, is_ended, write_record, expire,
  refresh_status, open_as, guard_open, public_discussion,
}
use agent_community.Discussion.Deliveries.{Store}
use agent_community.Discussion.Expiry.{Walk, expire_record, visit, expire_due}
use agent_community.Discussion.Post.{
  find_posted, same_content, append_message, valid_reply_to, replay, append_new, post_to, post,
}
use agent_community.Discussion.Read.{messages_of, close, announce_end, end_discussion}
use agent_community.Discussion.Subscribe.{subscribe, add_subscription, unsubscribe, remove_by_id}
use agent_community.Discussion.Create.{Capabilities, create, enroll}
use agent_community.Tests.Fixture.{host}

-- Authorization and the refresh of the status.
unfoldable pub run_open : String → String → String → Exec (DiscussionRecord × ParticipantRecord)
unfolding open_as authorize read_record find_participant holds_token refresh_status is_active expire
    write_record now new_ulid validate_record no_duplicates capability_key_id capability_matches
    strip_prefix cut all_chars bytes_equal hex_decode has_permission
run_open permission = open_as host permission

-- Reconciliation of the outbox.
unfoldable pub run_reconcile : DiscussionRecord → Message → Exec (Unit {0})
unfolding reconcile_message_deliveries reconcile_end_deliveries reconcile_deliveries reconcile_loop
    read_subscriptions read_delivery_records valid_subscriptions valid_delivery no_duplicates skips
    delivers new_delivery write_delivery put_delivery now new_ulid
run_reconcile = reconcile_message_deliveries host

unfoldable pub run_read_messages :
    DiscussionRecord → List MessageRecord → Result (List MessageRecord)
unfolding read_messages read_lines read_line line_length validate_stored_message validate_post_input
    all_chars
run_read_messages = read_messages host

unfoldable pub run_post : String → String → PostInput → Exec (Message × Bool)
unfolding run_open run_reconcile run_read_messages post guard_open post_to find_posted same_content
    replay append_new append_message valid_reply_to contains_earlier_message
run_post = post host

unfoldable pub run_end : String → String → Exec Discussion
unfolding run_open run_reconcile run_read_messages end_discussion close announce_end is_ended
    messages_of public_discussion
run_end = end_discussion host

unfoldable pub run_subscribe : String → String → SubscribeInput → Exec Subscription
unfolding run_open subscribe add_subscription guard_open read_subscriptions write_subscriptions
    valid_subscriptions no_duplicates validate_subscribe_input all_chars
run_subscribe = subscribe host

unfoldable pub run_unsubscribe : String → String → String → Exec (Unit {0})
unfolding run_open unsubscribe remove_by_id read_subscriptions write_subscriptions
    valid_subscriptions no_duplicates
run_unsubscribe = unsubscribe host

unfoldable pub run_create : CreateInput → Exec (Dir × Discussion × Capabilities)
unfolding create enroll new_capability now new_ulid new_secret hex_encode validate_create_input
    all_chars public_discussion
run_create = create host

unfoldable pub run_expire_due : Store → ℕ → ℕ → Result (List String) × Walk
unfolding run_open run_reconcile expire_due visit expire_record
run_expire_due = expire_due host
