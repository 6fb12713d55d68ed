-- ===== src/Tests/Minting.antt =====
-- The capability of a new participant.
use agent_community.Common.{
  ℕ, zero, suc, ◌≡◌, refl, sym, ap, ◌∙◌, String, len, ◌%◌, true, Option, some, none, [], ◌∷◌, all,
  ltb, cut, arith,
}
use agent_community.Discussion.Model.{CapabilityRecord, permission_read, permission_post}
use agent_community.Discussion.Exec.{ok, new_ulid, new_secret}
use agent_community.Discussion.Capability.{
  new_capability, capability_matches, capability_key_id, hex_encode,
}
use agent_community.Discussion.Capability.Roundtrip.{MintsWell, new_capability-capability_matches}
use agent_community.Tests.Draws.{drawn_nonempty, is_empty}
use agent_community.Tests.Fixture.{host, start, ids, repeat_byte}

abbrev dotted : Option String → Option (String × String)
dotted none = none
dotted (some a) = cut b'.' a

drawn_undotted : (j : ℕ) → dotted (ids j) ≡ none
unfolding cut
drawn_undotted zero = refl
drawn_undotted (suc zero) = refl
drawn_undotted (suc (suc zero)) = refl
drawn_undotted (suc (suc (suc zero))) = refl
drawn_undotted (suc (suc (suc (suc n)))) = refl

repeated_below : (n b : ℕ) → ltb b 256 ≡ true → all (λ x. ltb x 256) (repeat_byte n b) ≡ true
repeated_below zero b h = refl
repeated_below (suc n) b h = ground (arith, repeated_below n b h)

byte_below : (n : ℕ) → ltb (n % 256) 256 ≡ true
byte_below n = ground arith

pub host-MintsWell : MintsWell host
host-MintsWell = record {
  key_nonempty = λ t n id h. sym (ap is_empty h) ∙ drawn_nonempty n;
  key_undotted = λ t n id h. sym (ap dotted h) ∙ drawn_undotted n;
  secret_nonempty = λ n x h. sym (ap is_empty h);
  digest_length = λ text. refl;
  digest_bytes = λ text. repeated_below 32 (len text % 256) (byte_below (len text));
}

abbrev minted : CapabilityRecord
minted = record {
  key_id = "A0";
  token_digest = "0f0f0f0f0f0f0f0f0f0f0f0f0f0f0f0f0f0f0f0f0f0f0f0f0f0f0f0f0f0f0f0f";
  permissions = permission_read ∷ permission_post ∷ [];
  created_at = 1000;
}

mints :
    (new_capability host 1000 (permission_read ∷ permission_post ∷ []) start).0
    ≡ ok ("acp_A0.c2VjcmV0", minted)
unfolding new_capability new_ulid new_secret hex_encode
mints = refl

new_capability-capability_matches_example :
    (capability_matches host "acp_A0.c2VjcmV0" minted ≡ true)
    × (capability_key_id "acp_A0.c2VjcmV0" ≡ some "A0")
    × (minted.permissions ≡ permission_read ∷ permission_post ∷ [])
new_capability-capability_matches_example =
    new_capability-capability_matches host 1000 (permission_read ∷ permission_post ∷ []) start
      host-MintsWell mints
