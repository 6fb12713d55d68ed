-- ===== src/Discussion/Validate.antt =====
-- The validation of store.go and subscription.go. A `Bool` result is true where the source returns a nil error.
use agent_community.Common.{
  ℕ, String, len, Bool, true, false, ◌&&◌, ◌||◌, not, none, some, List, [], ◌∷◌, ltb, leb, eqb, any,
  all, map, ◌==◌, if◌then◌else◌, all_chars,
}
use agent_community.Common.Int.{exceeds}
use agent_community.Discussion.Model.{
  Status, other, Permission, permission_read, permission_post, permission_subscribe,
  permission_manage, DiscussionRecord, ParticipantRecord, ParticipantInput, CreateInput,
  MessageRecord, PostInput, SubscriptionRecord, DeliveryRecord, DeliveryStatus, max_ttl,
  max_body_bytes, SubscribeInput, EventType, event_message_created, event_discussion_ended,
}
use agent_community.Discussion.Exec.{Host, Result, ok, err, invalid_input, internal}
use agent_community.Discussion.Capability.{hex_decode}

-- A loop over a list that fails at an entry seen before: no entry stands twice.
unfoldable pub no_duplicates : List String → Bool
no_duplicates [] = true
no_duplicates (x ∷ xs) = not (any (λ y. y == x) xs) && no_duplicates xs

unfoldable pub valid_participant_id : Host → String → Bool
valid_participant_id host id =
    not (id == "")
    && leb (len id) 64
    && all_chars (λ c. host.is_letter c || host.is_digit c || eqb c b'-' || eqb c b'_') id

unfoldable pub valid_permission : Permission → Bool
valid_permission permission =
    permission == permission_read
    || permission == permission_post
    || permission == permission_subscribe
    || permission == permission_manage

unfoldable pub valid_permissions : List Permission → Bool
unfolding valid_permission no_duplicates
valid_permissions permissions = all valid_permission permissions && no_duplicates permissions

unfoldable pub validate_create_input : Host → CreateInput → Bool
unfolding valid_participant_id valid_permissions no_duplicates
validate_create_input host input =
    exceeds input.ttl 0
    && not (exceeds input.ttl max_ttl)
    && elim input.participants [ [] ↦ false | _ ∷ _ ↦ true ]
    && all
        (λ (p : ParticipantInput).
          valid_participant_id host p.id && valid_permissions p.permissions)
        input.participants
    && no_duplicates (map (λ (p : ParticipantInput). p.id) input.participants)

unfoldable pub validate_post_input : PostInput → Bool
validate_post_input input =
    not (input.body == "")
    && leb (len input.body) max_body_bytes
    && leb 1 (len input.idempotency_key)
    && leb (len input.idempotency_key) 128
    && all_chars (λ c. leb 0x20 c && leb c 0x7e) input.idempotency_key

unfoldable pub valid_status : Status → Bool
valid_status (other s) = false
valid_status s = true

unfoldable pub valid_digest : String → Bool
valid_digest digest =
    elim (hex_decode digest) [ none ↦ false | some _ ↦ true ] && eqb (len digest) 64

unfoldable pub valid_participant : Host → ParticipantRecord → Bool
unfolding valid_participant_id valid_digest valid_permissions
valid_participant host p =
    valid_participant_id host p.id
    && not (p.capability.key_id == "")
    && not (p.capability.token_digest == "")
    && valid_digest p.capability.token_digest
    && not (eqb p.capability.created_at 0)
    && valid_permissions p.capability.permissions

unfoldable pub validate_record : Host → DiscussionRecord → String → Bool
unfolding valid_status valid_participant no_duplicates
validate_record host r expected_id =
    r.id == expected_id
    && valid_status r.status
    && not (eqb r.created_at 0)
    && not (eqb r.expires_at 0)
    && ltb r.created_at r.expires_at
    && elim r.participants [ [] ↦ false | _ ∷ _ ↦ true ]
    && all (valid_participant host) r.participants
    && no_duplicates (map (λ (p : ParticipantRecord). p.id) r.participants)
    && no_duplicates (map (λ (p : ParticipantRecord). p.capability.key_id) r.participants)

unfoldable pub contains_earlier_message : List MessageRecord → String → Bool
contains_earlier_message messages id = any (λ (m : MessageRecord). m.message.id == id) messages

-- Another message has the id, or its author has used the idempotency key.
unfoldable pub clashes : MessageRecord → MessageRecord → Bool
clashes m prior =
    prior.message.id == m.message.id
    || (prior.message.author == m.message.author && prior.idempotency_key == m.idempotency_key)

unfoldable pub stored_input : MessageRecord → PostInput
stored_input m = record {
  idempotency_key = m.idempotency_key;
  body = m.message.body;
  reply_to = m.message.reply_to;
}

unfoldable pub valid_identity : MessageRecord → String → Bool
valid_identity m discussion_id =
    not (m.message.id == "") && m.message.discussion_id == discussion_id

unfoldable pub valid_reply : String → List MessageRecord → Bool
unfolding contains_earlier_message
valid_reply reply_to earlier = reply_to == "" || contains_earlier_message earlier reply_to

-- The checks in front of `validatePostInput`, and those behind it.
unfoldable pub valid_place : MessageRecord → String → ℕ → List String → Bool
unfolding valid_identity
valid_place m discussion_id line_number participants =
    valid_identity m discussion_id
    && eqb m.message.sequence line_number
    && not (eqb m.message.created_at 0)
    && any (λ id. id == m.message.author) participants

unfoldable pub fits_earlier : MessageRecord → List MessageRecord → Bool
unfolding valid_reply clashes
fits_earlier m earlier = valid_reply m.message.reply_to earlier && not (any (clashes m) earlier)

-- An error of `validatePostInput` is passed on, so that `errors.Is` finds `ErrInvalidInput` in it.
unfoldable pub validate_stored_message :
    MessageRecord → String → ℕ → List String → List MessageRecord → Result (Unit {0})
unfolding stored_input validate_post_input valid_place fits_earlier
validate_stored_message m discussion_id line_number participants earlier =
    if valid_place m discussion_id line_number participants
    then if validate_post_input (stored_input m)
      then if fits_earlier m earlier then ok tt else err internal
      else err invalid_input
    else err internal

unfoldable pub safe_callback : Host → String → Bool
safe_callback host callback_url = elim (host.parse_url callback_url) [
  | none ↦ false
  | some url ↦
      url.scheme == "https" && not (url.host == "") && not url.has_user && url.fragment == ""
]

unfoldable pub validate_subscribe_input : Host → SubscribeInput → Bool
unfolding safe_callback no_duplicates
validate_subscribe_input host input =
    safe_callback host input.callback_url
    && leb 32 (len input.signing_secret)
    && elim input.events [ [] ↦ false | _ ∷ _ ↦ true ]
    && all (λ (e : EventType). e == event_message_created || e == event_discussion_ended)
        input.events
    && no_duplicates input.events

-- The loop of `readSubscriptions`.
unfoldable pub valid_subscription : SubscriptionRecord → Bool
valid_subscription s = not (
    s.id == ""
    || s.participant_id == ""
    || s.callback_url == ""
    || s.signing_secret == ""
    || eqb s.created_at 0)

unfoldable pub valid_subscriptions : List SubscriptionRecord → Bool
unfolding valid_subscription no_duplicates
valid_subscriptions subscriptions =
    all valid_subscription subscriptions
    && no_duplicates (map (λ (s : SubscriptionRecord). s.id) subscriptions)

unfoldable pub valid_delivery_status : DeliveryStatus → Bool
valid_delivery_status (DeliveryStatus.unknown s) = false
valid_delivery_status s = true

-- The test of `readDeliveryRecords`.
unfoldable pub valid_delivery : String → DeliveryRecord → Bool
unfolding valid_delivery_status
valid_delivery discussion_id d =
    not (d.id == "" || d.subscription_id == "")
    && d.discussion_id == discussion_id
    && valid_delivery_status d.status
