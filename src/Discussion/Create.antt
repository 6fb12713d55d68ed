-- ===== src/Discussion/Create.antt =====
-- `Store.Create` of store.go. The directory that it makes comes back beside its results; the
-- directory of the session is not touched.
pub mod Enrolled
pub mod Admission
pub mod Outcome
use agent_community.Common.{◌+◌, String, List, [], ◌∷◌}
use agent_community.Common.Int.{to_nat}
use agent_community.Discussion.Model.{
  Time, active, DiscussionRecord, Discussion, ParticipantRecord, ParticipantInput, CreateInput,
}
use agent_community.Discussion.Exec.{
  Host, invalid_input, Exec, Dir, ◌>>=◌, ◌>>◌, pure, guard, now, new_ulid,
}
use agent_community.Discussion.Capability.{new_capability}
use agent_community.Discussion.Validate.{validate_create_input}
use agent_community.Discussion.Access.{public_discussion}

-- The capabilities handed out: a participant's id and its token.
abbrev pub Capabilities : Type 0
Capabilities = List (String × String)

abbrev pub new_dir : DiscussionRecord → Dir
new_dir r = record { record_file = r; messages = []; subscriptions = []; outbox = [] }

module _ (host : Host) where
  -- The loop over the participants.
  unfoldable pub enroll :
      Time → List ParticipantInput → Exec (List ParticipantRecord × Capabilities)
  enroll t [] = pure ([], [])
  enroll t (p ∷ rest) = do
    (token, capability) ← new_capability host t p.permissions
    (records, capabilities) ← enroll t rest
    pure (record { id = p.id; capability = capability } ∷ records, (p.id, token) ∷ capabilities)

  unfoldable pub create : CreateInput → Exec (Dir × Discussion × Capabilities)
  create input = do
    guard (validate_create_input host input) invalid_input
    t ← now host
    id ← new_ulid host t
    (records, capabilities) ← enroll t input.participants
    let r : DiscussionRecord = record {
      id = id;
      status = active;
      created_at = t;
      expires_at = t + to_nat input.ttl;
      participants = records;
    }
    pure (new_dir r, public_discussion r 0, capabilities)
