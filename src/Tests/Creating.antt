-- ===== src/Tests/Creating.antt =====
-- The creation of a discussion between two participants.
use agent_community.Common.{
  ℕ, zero, suc, ◌+◌, ◌*◌, ◌^◌, ◌≡◌, refl, sym, ap, ◌∙◌, String, Bool, true, Option, some, none, [],
  ◌∷◌, arith,
}
use agent_community.Common.Int.{pos}
use agent_community.Discussion.Model.{
  active, CreateInput, Discussion, DiscussionRecord, permission_read, permission_post,
  permission_manage,
}
use agent_community.Discussion.Exec.{ok}
use agent_community.Discussion.Create.{Capabilities, new_dir, create}
use agent_community.Discussion.Create.Admission.{IsClocked}
use agent_community.Discussion.Create.Outcome.{Created, create_outcome}
use agent_community.Tests.Run.{run_create}
use agent_community.Tests.Draws.{host-DistinctDraws}
use agent_community.Tests.Minting.{host-MintsWell}
use agent_community.Tests.Fixture.{host, ids, start}

abbrev pub interview : CreateInput
interview = record {
  ttl = pos (3600 * 10 ^ 9);
  participants =
      record { id = "alice"; permissions = permission_read ∷ permission_post ∷ [] }
      ∷ record { id = "bob"; permissions = permission_read ∷ permission_manage ∷ [] }
      ∷ [];
}

abbrev created_record : DiscussionRecord
created_record = record {
  id = "A0";
  status = active;
  created_at = 1000;
  expires_at = 1000 + 3600 * 10 ^ 9;
  participants =
      record {
        id = "alice";
        capability = record {
          key_id = "B1";
          token_digest = "0f0f0f0f0f0f0f0f0f0f0f0f0f0f0f0f0f0f0f0f0f0f0f0f0f0f0f0f0f0f0f0f";
          permissions = permission_read ∷ permission_post ∷ [];
          created_at = 1000;
        };
      }
      ∷ record {
        id = "bob";
        capability = record {
          key_id = "D3";
          token_digest = "0f0f0f0f0f0f0f0f0f0f0f0f0f0f0f0f0f0f0f0f0f0f0f0f0f0f0f0f0f0f0f0f";
          permissions = permission_read ∷ permission_manage ∷ [];
          created_at = 1000;
        };
      }
      ∷ [];
}

abbrev pub created_view : Discussion
created_view = record {
  id = "A0";
  status = active;
  created_at = 1000;
  expires_at = 1000 + 3600 * 10 ^ 9;
  last_sequence = 0;
  participants = "alice" ∷ "bob" ∷ [];
}

abbrev pub handed_out : Capabilities
handed_out = ("alice", "acp_B1.c2VjcmV0") ∷ ("bob", "acp_D3.c2VjcmV0") ∷ []

pub creates :
    (create host interview start).0 ≡ ok (new_dir created_record, created_view, handed_out)
unfolding run_create
creates = refl

abbrev parses : Option String → Bool
parses none = true
parses (some id) = host.parse_ulid id

drawn_parses : (j : ℕ) → parses (ids j) ≡ true
drawn_parses zero = refl
drawn_parses (suc zero) = refl
drawn_parses (suc (suc zero)) = refl
drawn_parses (suc (suc (suc zero))) = refl
drawn_parses (suc (suc (suc (suc n)))) = refl

host-IsClocked : IsClocked host
host-IsClocked = record {
  ticking = λ n. ground arith;
  parsed = λ t n id h. sym (ap parses h) ∙ drawn_parses n;
}

create_outcome_example : Created host interview (new_dir created_record, created_view, handed_out)
create_outcome_example =
    create_outcome host interview start host-DistinctDraws host-MintsWell host-IsClocked creates
