-- ===== src/Tests/Fixture.antt =====
-- A host and a discussion between two participants, for the tests.
use agent_community.Common.{
  any, ℕ, zero, suc, ◌+◌, String, len, Bool, false, Option, none, some, List, [], ◌∷◌, leb, ◌&&◌,
  ◌||◌, ◌%◌, ◌==◌,
}
use agent_community.Discussion.Model.{
  active, DiscussionRecord, ParticipantRecord, permission_read, permission_post, permission_manage,
  permission_subscribe, PostInput,
}
use agent_community.Discussion.Exec.{Host, Dir, Session}

abbrev pub repeat_byte : ℕ → ℕ → List ℕ
repeat_byte zero b = []
repeat_byte (suc n) b = b ∷ repeat_byte n b

-- Ids for the first draws; later draws fail.
abbrev pub ids : ℕ → Option String
ids zero = some "A0"
ids (suc zero) = some "B1"
ids (suc (suc zero)) = some "C2"
ids (suc (suc (suc zero))) = some "D3"
ids (suc (suc (suc (suc n)))) = none

abbrev pub ascii_letter : ℕ → Bool
ascii_letter c = leb b'a' c && leb c b'z' || leb b'A' c && leb c b'Z'

abbrev pub host : Host
host = record {
  clock = λ n. 1000 + n;
  ulid = λ t n. ids n;
  secret = λ n. some "c2VjcmV0";
  parse_ulid = λ s. any (λ id. id == s) ("DISCUSSION" ∷ "A0" ∷ "B1" ∷ "C2" ∷ "D3" ∷ []);
  sha256 = λ token. repeat_byte 32 (len token % 256);
  time_length = λ t. 22;
  parse_url = λ raw.
      some (record { scheme = "https"; host = "goat.example"; has_user = false; fragment = "" });
  is_letter = ascii_letter;
  is_digit = λ c. leb b'0' c && leb c b'9';
}

abbrev pub alice_token : String
alice_token = "acp_KEYA.c2VjcmV0"

abbrev pub bob_token : String
bob_token = "acp_KEYB.c2VjcmV0"

-- The SHA-256 of every text of 17 bytes here, in hex.
abbrev pub digest : String
digest = "1111111111111111111111111111111111111111111111111111111111111111"

abbrev pub alice : ParticipantRecord
alice = record {
  id = "alice";
  capability = record {
    key_id = "KEYA";
    token_digest = digest;
    permissions = permission_read ∷ permission_post ∷ permission_manage ∷ permission_subscribe ∷ [];
    created_at = 900;
  };
}

abbrev pub bob : ParticipantRecord
bob = record {
  id = "bob";
  capability = record {
    key_id = "KEYB";
    token_digest = digest;
    permissions = permission_read ∷ [];
    created_at = 900;
  };
}

abbrev pub discussion : DiscussionRecord
discussion = record {
  id = "DISCUSSION";
  status = active;
  created_at = 900;
  expires_at = 2000;
  participants = alice ∷ bob ∷ [];
}

abbrev pub empty_dir : Dir
empty_dir = record { record_file = discussion; messages = []; subscriptions = []; outbox = [] }

abbrev pub start : Session
start = record { dir = empty_dir; readings = 0; draws = 0 }

abbrev pub question : PostInput
question = record { idempotency_key = "q-1"; body = "Why this design?"; reply_to = "" }
