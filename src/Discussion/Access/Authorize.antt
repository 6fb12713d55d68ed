-- ===== src/Discussion/Access/Authorize.antt =====
-- What `authorize` grants, and that it writes nothing.
use agent_community.Common.{String, ◌≡◌, true, some, find, arith}
use agent_community.Discussion.Model.{DiscussionRecord, ParticipantRecord}
use agent_community.Discussion.Exec.{Host, ok, Session}
use agent_community.Discussion.Capability.{capability_key_id}
use agent_community.Discussion.Validate.{validate_record}
use agent_community.Discussion.Access.{read_record, find_participant, authorize, holds_token}

-- The participant `p` of the record `r` is the first whose capability the token matches.
pub record IsBearer (host : Host) (token : String) (r : DiscussionRecord) (p : ParticipantRecord)
    : Type 0 where
  pub key_id : String
  pub parsed : capability_key_id token ≡ some key_id
  pub found : find (holds_token host key_id token) r.participants ≡ some p

module _ (host : Host) (id token : String) where
  -- Authorization writes nothing, also where it fails.
  pub authorize-state : (s : Session) → (authorize host id token s).1 ≡ s
  unfolding authorize read_record find_participant
  authorize-state s = ground arith

  pub authorize-record :
      (s : Session) {r : DiscussionRecord} {p : ParticipantRecord}
      → (authorize host id token s).0 ≡ ok (r, p)
      → (r ≡ s.dir.record_file) × (validate_record host s.dir.record_file id ≡ true)
  unfolding authorize read_record find_participant
  authorize-record s h = ground arith

  pub authorize-IsBearer :
      (s : Session) {r : DiscussionRecord} {p : ParticipantRecord}
      → (authorize host id token s).0 ≡ ok (r, p)
      → IsBearer host token r p
  unfolding authorize read_record find_participant
  authorize-IsBearer s h = ground arith
