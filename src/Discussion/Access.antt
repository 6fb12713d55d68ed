-- ===== src/Discussion/Access.antt =====
-- What the operations on a discussion share (store.go): reading the record, authorization, the
-- refresh of the status, and the public view.
pub mod Authorize
pub mod Opened
pub mod Open
use agent_community.Common.{
  ℕ, String, Bool, true, false, ◌&&◌, Option, none, some, List, map, find, ltb, ◌==◌,
}
use agent_community.Discussion.Model.{
  Status, active, ended, expired, DiscussionRecord, Discussion, ParticipantRecord, Permission,
  by_expiry,
}
use agent_community.Discussion.Exec.{
  Host, unauthorized, forbidden, internal, discussion_ended, discussion_expired, Exec, ◌>>=◌, ◌>>◌,
  pure, raise, guard, gets, modify, now,
}
use agent_community.Discussion.Capability.{capability_key_id, capability_matches, has_permission}
use agent_community.Discussion.Validate.{validate_record}
use agent_community.Discussion.Outbox.{reconcile_end_deliveries}

unfoldable pub public_discussion : DiscussionRecord → ℕ → Discussion
public_discussion r last_sequence = record {
  id = r.id;
  status = r.status;
  created_at = r.created_at;
  expires_at = r.expires_at;
  last_sequence = last_sequence;
  participants = map (λ (p : ParticipantRecord). p.id) r.participants;
}

-- The source writes to the directory that is named by the record's id. It is the one that was read,
-- since `validate_record` has compared the id with its name, and no operation changes the id.
unfoldable pub write_record : DiscussionRecord → Exec (Unit {0})
write_record r = modify (λ d. record d { record_file = r })

unfoldable pub is_active : Status → Bool
is_active active = true
is_active _ = false

unfoldable pub is_ended : Status → Bool
is_ended ended = true
is_ended _ = false

unfoldable pub guard_open : Status → Exec (Unit {0})
guard_open ended = raise discussion_ended
guard_open expired = raise discussion_expired
guard_open _ = pure tt

module _ (host : Host) where
  -- `readRecord`, for a directory that is there.
  unfoldable pub read_record : String → Exec DiscussionRecord
  read_record discussion_id = do
    guard (host.parse_ulid discussion_id) unauthorized
    r ← gets (λ d. d.record_file)
    guard (validate_record host r discussion_id) internal
    pure r

  -- A participant's capability has the token's key id and matches the token.
  unfoldable pub holds_token : String → String → ParticipantRecord → Bool
  holds_token key_id token p =
      p.capability.key_id == key_id && capability_matches host token p.capability

  unfoldable pub find_participant :
      DiscussionRecord → String → Option String → Exec ParticipantRecord
  find_participant r token none = raise unauthorized
  find_participant r token (some key_id) = elim (find (holds_token key_id token) r.participants) [
    | none ↦ raise unauthorized
    | some p ↦ pure p
  ]

  unfoldable pub authorize : String → String → Exec (DiscussionRecord × ParticipantRecord)
  authorize discussion_id token = do
    r ← read_record discussion_id
    p ← find_participant r token (capability_key_id token)
    pure (r, p)

  unfoldable pub expire : DiscussionRecord → Exec DiscussionRecord
  expire r = do
    let r' = record r { status = expired }
    write_record r'
    reconcile_end_deliveries host r' by_expiry
    pure r'

  -- The record comes back as the source leaves it behind its pointer. The clock is read only for an
  -- active discussion.
  unfoldable pub refresh_status : DiscussionRecord → Exec DiscussionRecord
  refresh_status r = elim (is_active r.status) [
    | false ↦ pure r
    | true ↦ do t ← now host; elim (ltb t r.expires_at) [ true ↦ pure r | false ↦ expire r ]
  ]

  -- The steps that Post, Read, Get, End and Subscribe share: authorization, the permission and the
  -- refresh of the status.
  unfoldable pub open_as :
      Permission → String → String → Exec (DiscussionRecord × ParticipantRecord)
  open_as permission discussion_id token = do
    (r, p) ← authorize discussion_id token
    guard (has_permission p.capability permission) forbidden
    r' ← refresh_status r
    pure (r', p)
