-- ===== src/Discussion/Model.antt =====
-- The data of internal/discussion: model.go, and the stored records of store.go, capability.go
-- and subscription.go.
use agent_community.Common.{ℕ, ◌*◌, ◌^◌, String, Option, List, Bool}
use agent_community.Common.Int.{ℤ}

-- `time.Time` as nanoseconds since Go's zero time, so that `IsZero` is `≡ 0`.
abbrev pub Time : Type 0
Time = ℕ

abbrev pub max_body_bytes : ℕ
max_body_bytes = 64 * 1024

abbrev pub max_messages : ℕ
max_messages = 1000

abbrev pub max_read_limit : ℕ
max_read_limit = 100

-- two hours in nanoseconds
abbrev pub max_ttl : ℕ
max_ttl = 7200 * 10 ^ 9

-- A stored status is a text; `other` is one that is none of the three constants.
pub data Status : Type 0 where
  active ended expired : Status
  other : String → Status

abbrev pub Permission : Type 0
Permission = String

abbrev pub permission_read : Permission
permission_read = "read"

abbrev pub permission_post : Permission
permission_post = "post"

abbrev pub permission_subscribe : Permission
permission_subscribe = "subscribe"

abbrev pub permission_manage : Permission
permission_manage = "manage"

abbrev pub EventType : Type 0
EventType = String

abbrev pub event_message_created : EventType
event_message_created = "message.created"

abbrev pub event_discussion_ended : EventType
event_discussion_ended = "discussion.ended"

pub record AuthenticatedParticipant : Type 0 where
  pub id : String
  pub permissions : List Permission

pub record CapabilityRecord : Type 0 where
  pub key_id : String
  pub token_digest : String
  pub permissions : List Permission
  pub created_at : Time

pub record ParticipantRecord : Type 0 where
  pub id : String
  pub capability : CapabilityRecord

pub record DiscussionRecord : Type 0 where
  pub id : String
  pub status : Status
  pub created_at : Time
  pub expires_at : Time
  pub participants : List ParticipantRecord

-- The public view of a discussion.
pub record Discussion : Type 0 where
  pub id : String
  pub status : Status
  pub created_at : Time
  pub expires_at : Time
  pub last_sequence : ℕ
  pub participants : List String

pub record ParticipantInput : Type 0 where
  pub id : String
  pub permissions : List Permission

pub record CreateInput : Type 0 where
  pub ttl : ℤ
  pub participants : List ParticipantInput

pub record Message : Type 0 where
  pub id : String
  pub discussion_id : String
  pub sequence : ℕ
  pub created_at : Time
  pub author : String
  pub body : String
  pub reply_to : String

pub record MessageRecord : Type 0 where
  pub message : Message
  pub idempotency_key : String

pub record PostInput : Type 0 where
  pub idempotency_key : String
  pub body : String
  pub reply_to : String

pub record ReadOptions : Type 0 where
  pub after_sequence : ℤ
  pub limit : ℤ

pub data EndReason : Type 0 where
  explicit by_expiry : EndReason

pub record SubscriptionRecord : Type 0 where
  pub id : String
  pub participant_id : String
  pub callback_url : String
  pub signing_secret : String
  pub events : List EventType
  pub ignore_self : Bool
  pub created_at : Time
  pub removed_at : Option Time

-- The public view of a subscription.
pub record Subscription : Type 0 where
  pub id : String
  pub participant_id : String
  pub events : List EventType
  pub ignore_self : Bool
  pub created_at : Time

pub record SubscribeInput : Type 0 where
  pub callback_url : String
  pub signing_secret : String
  pub events : List EventType
  pub ignore_self : Bool

pub record DiscussionEnded : Type 0 where
  pub status : Status
  pub reason : EndReason

pub record Event : Type 0 where
  pub type : EventType
  pub created_at : Time
  pub discussion_id : String
  pub message : Option Message
  pub ended : Option DiscussionEnded

-- `unknown` is a stored status that is none of the three that the reader accepts.
pub data DeliveryStatus : Type 0 where
  pending completed failed : DeliveryStatus
  unknown : String → DeliveryStatus

pub record DeliveryRecord : Type 0 where
  pub id : String
  pub discussion_id : String
  pub subscription_id : String
  pub event : Event
  pub status : DeliveryStatus
  pub attempts : ℕ
  pub next_attempt_at : Time
  pub last_error : String

-- A delivery that is due, with what its subscription says of the callback.
pub record Delivery : Type 0 where
  pub id : String
  pub subscription_id : String
  pub callback_url : String
  pub signing_secret : String
  pub event : Event
  pub attempts : ℕ
  pub next_attempt_at : Time
