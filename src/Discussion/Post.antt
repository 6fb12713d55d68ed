-- ===== src/Discussion/Post.antt =====
-- `Post` of store.go.
pub mod Outcome
pub mod Allowed
pub mod Readback
use agent_community.Common.{
  ℕ, ◌+◌, String, Bool, true, false, ◌&&◌, ◌||◌, Option, none, some, List, [], ◌∷◌, ◌++◌, find,
  length, ltb, ◌==◌,
}
use agent_community.Discussion.Model.{
  DiscussionRecord, ParticipantRecord, Message, MessageRecord, PostInput, permission_post,
  max_messages,
}
use agent_community.Discussion.Exec.{
  Host, invalid_input, idempotency_conflict, message_limit, Exec, ◌>>=◌, ◌>>◌, pure, lift, guard,
  gets, modify, now, new_ulid,
}
use agent_community.Discussion.Validate.{validate_post_input, contains_earlier_message}
use agent_community.Discussion.Messages.{read_messages}
use agent_community.Discussion.Outbox.{reconcile_message_deliveries}
use agent_community.Discussion.Access.{open_as, guard_open}

-- The first message of an author under an idempotency key.
unfoldable pub find_posted : String → String → List MessageRecord → Option MessageRecord
find_posted author key messages =
    find (λ (m : MessageRecord). m.message.author == author && m.idempotency_key == key) messages

unfoldable pub same_content : MessageRecord → PostInput → Bool
same_content m input = m.message.body == input.body && m.message.reply_to == input.reply_to

unfoldable pub append_message : MessageRecord → Exec (Unit {0})
append_message m = modify (λ d. record d { messages = d.messages ++ m ∷ [] })

unfoldable pub valid_reply_to : PostInput → List MessageRecord → Bool
valid_reply_to input messages =
    input.reply_to == "" || contains_earlier_message messages input.reply_to

module _ (host : Host) where
  unfoldable pub replay : DiscussionRecord → PostInput → MessageRecord → Exec (Message × Bool)
  replay r input m = do
    guard (same_content m input) idempotency_conflict
    reconcile_message_deliveries host r m.message
    pure (m.message, true)

  unfoldable pub append_new :
      DiscussionRecord → ParticipantRecord → PostInput → List MessageRecord → Exec (Message × Bool)
  append_new r p input messages = do
    guard (ltb (length messages) max_messages) message_limit
    guard (valid_reply_to input messages) invalid_input
    t ← now host
    id ← new_ulid host t
    let message : Message = record {
      id = id;
      discussion_id = r.id;
      sequence = length messages + 1;
      created_at = t;
      author = p.id;
      body = input.body;
      reply_to = input.reply_to;
    }
    append_message (record { message = message; idempotency_key = input.idempotency_key })
    reconcile_message_deliveries host r message
    pure (message, false)

  unfoldable pub post_to : DiscussionRecord → ParticipantRecord → PostInput → Exec (Message × Bool)
  post_to r p input = do
    file ← gets (λ d. d.messages)
    messages ← lift (read_messages host r file)
    elim (find_posted p.id input.idempotency_key messages) [
      | some m ↦ replay r input m
      | none ↦ append_new r p input messages
    ]

  unfoldable pub post : String → String → PostInput → Exec (Message × Bool)
  post discussion_id token input = do
    guard (validate_post_input input) invalid_input
    (r, p) ← open_as host permission_post discussion_id token
    guard_open r.status
    post_to r p input
