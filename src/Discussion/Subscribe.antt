-- ===== src/Discussion/Subscribe.antt =====
-- `Subscribe` and `Unsubscribe` of subscription.go.
pub mod Outcome
pub mod Single
pub mod Removal
use agent_community.Common.{
  ℕ, String, Bool, true, false, ◌&&◌, ◌||◌, not, Option, none, some, List, [], ◌∷◌, ◌++◌, any, all,
  map, ◌==◌, if◌then◌else◌,
}
use agent_community.Discussion.Model.{
  Time, SubscriptionRecord, Subscription, SubscribeInput, permission_subscribe,
}
use agent_community.Discussion.Exec.{
  Host, forbidden, invalid_input, subscription_exists, Exec, ◌>>=◌, ◌>>◌, pure, raise, guard, now,
  new_ulid,
}
use agent_community.Discussion.Capability.{has_permission}
use agent_community.Discussion.Validate.{validate_subscribe_input}
use agent_community.Discussion.Outbox.{read_subscriptions, write_subscriptions}
use agent_community.Discussion.Access.{authorize, open_as, guard_open}

abbrev pub is_current : SubscriptionRecord → Bool
is_current s = elim s.removed_at [ none ↦ true | some _ ↦ false ]

-- An active subscription of a participant.
abbrev pub active_for : String → SubscriptionRecord → Bool
active_for participant_id s = s.participant_id == participant_id && is_current s

-- `RemovedAt` is set once.
abbrev pub mark_removed : Time → SubscriptionRecord → SubscriptionRecord
mark_removed at s = elim s.removed_at [ none ↦ record s { removed_at = some at } | some _ ↦ s ]

unfoldable pub remove_by_id : Time → String → List SubscriptionRecord → List SubscriptionRecord
remove_by_id at id [] = []
remove_by_id at id (s ∷ rest) =
    (if s.id == id then mark_removed at s else s) ∷ remove_by_id at id rest

abbrev pub new_subscription : String → SubscribeInput → Time → String → SubscriptionRecord
new_subscription participant_id input t id = record {
  id = id;
  participant_id = participant_id;
  callback_url = input.callback_url;
  signing_secret = input.signing_secret;
  events = input.events;
  ignore_self = input.ignore_self;
  created_at = t;
  removed_at = none;
}

abbrev pub public_subscription : SubscriptionRecord → Subscription
public_subscription s = record {
  id = s.id;
  participant_id = s.participant_id;
  events = s.events;
  ignore_self = s.ignore_self;
  created_at = s.created_at;
}

-- A subscription of that id belongs to somebody else.
abbrev pub foreign : String → String → SubscriptionRecord → Bool
foreign id participant_id s = s.id == id && not (s.participant_id == participant_id)

abbrev pub removable : String → SubscriptionRecord → Bool
removable id s = s.id == id && is_current s

module _ (host : Host) where
  unfoldable pub add_subscription :
      String → SubscribeInput → List SubscriptionRecord → Exec Subscription
  add_subscription participant_id input subscriptions = do
    guard (not (any (active_for participant_id) subscriptions)) subscription_exists
    t ← now host
    id ← new_ulid host t
    let stored = new_subscription participant_id input t id
    write_subscriptions (subscriptions ++ stored ∷ [])
    pure (public_subscription stored)

  unfoldable pub subscribe : String → String → SubscribeInput → Exec Subscription
  subscribe discussion_id token input = do
    guard (validate_subscribe_input host input) invalid_input
    (r, p) ← open_as host permission_subscribe discussion_id token
    guard_open r.status
    subscriptions ← read_subscriptions
    add_subscription p.id input subscriptions

  -- The source looks for a foreign subscription in the loop that marks; it returns before a write.
  unfoldable pub unsubscribe : String → String → String → Exec (Unit {0})
  unsubscribe discussion_id token subscription_id = do
    (r, p) ← authorize host discussion_id token
    guard (has_permission p.capability permission_subscribe) forbidden
    subscriptions ← read_subscriptions
    t ← now host
    guard (not (any (foreign subscription_id p.id) subscriptions)) forbidden
    elim (any (removable subscription_id) subscriptions) [
      | true ↦ write_subscriptions (remove_by_id t subscription_id subscriptions)
      | false ↦ pure tt
    ]
