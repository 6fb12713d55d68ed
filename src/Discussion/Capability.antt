-- ===== src/Discussion/Capability.antt =====
-- internal/discussion/capability.go
pub mod Hex
pub mod Roundtrip
use agent_community.Common.{
  ℕ, String, len, code, Bool, true, false, ◌&&◌, ◌||◌, not, Option, none, some, List, [], ◌∷◌, any,
  ltb, eqb, ◌==◌, if◌then◌else◌, strip_prefix, cut, ◌+◌, ◌-◌, ◌*◌, ◌/◌, ◌%◌, leb, length, zero, suc,
  String,
}
use Prim.Native.String.{◌++◌ as ◌<>◌}
use Prim.Native.Char.{Char}
use agent_community.Discussion.Model.{Time, Permission, CapabilityRecord}
use agent_community.Discussion.Exec.{Host, Exec, ◌>>=◌, pure, new_ulid, new_secret}

abbrev pub capability_prefix : String
capability_prefix = "acp_"

-- `hex.EncodeToString` and `hex.DecodeString`.
unfoldable pub hex_digit : ℕ → Char
hex_digit zero = "0"
hex_digit (suc zero) = "1"
hex_digit (suc (suc zero)) = "2"
hex_digit (suc (suc (suc n))) =
    if eqb n 0
    then "3"
    else if eqb n 1
    then "4"
    else if eqb n 2
    then "5"
    else if eqb n 3
    then "6"
    else if eqb n 4
    then "7"
    else if eqb n 5
    then "8"
    else if eqb n 6
    then "9"
    else if eqb n 7
    then "a"
    else if eqb n 8
    then "b"
    else if eqb n 9
    then "c"
    else if eqb n 10
    then "d"
    else if eqb n 11
    then "e"
    else "f"

unfoldable pub hex_encode : List ℕ → String
unfolding hex_digit
hex_encode [] = ""
hex_encode (b ∷ bs) =
    String.◌∷◌ (hex_digit (b / 16)) (String.◌∷◌ (hex_digit (b % 16)) (hex_encode bs))

unfoldable pub hex_value : ℕ → Option ℕ
hex_value c =
    if leb b'0' c && leb c b'9'
    then some (c - b'0')
    else if leb b'a' c && leb c b'f'
    then some (c - b'a' + 10)
    else if leb b'A' c && leb c b'F'
    then some (c - b'A' + 10)
    else none

abbrev byte_onto : Option ℕ → Option ℕ → Option (List ℕ) → Option (List ℕ)
byte_onto (some h) (some l) (some bs) = some ((h * 16 + l) ∷ bs)
byte_onto _ _ _ = none

-- `none` is an odd length or a character that is no hex digit.
unfoldable pub hex_decode : String → Option (List ℕ)
unfolding hex_value
hex_decode String.[] = some []
hex_decode (String.◌∷◌ c String.[]) = none
hex_decode (String.◌∷◌ c (String.◌∷◌ d s)) =
    byte_onto (hex_value (code c)) (hex_value (code d)) (hex_decode s)

-- `subtle.ConstantTimeCompare(a, b) == 1`
unfoldable pub bytes_equal : List ℕ → List ℕ → Bool
bytes_equal [] [] = true
bytes_equal (a ∷ xs) (b ∷ ys) = eqb a b && bytes_equal xs ys
bytes_equal _ _ = false

abbrev key_of_parts : Option (String × String) → Option String
key_of_parts none = none
key_of_parts (some (key_id, secret)) = if key_id == "" || secret == "" then none else some key_id

abbrev key_of_rest : Option String → Option String
key_of_rest none = none
key_of_rest (some rest) = key_of_parts (cut b'.' rest)

-- `none` for the result `("", false)`.
unfoldable pub capability_key_id : String → Option String
capability_key_id token = key_of_rest (strip_prefix capability_prefix token)

abbrev digest_matches : List ℕ → Option (List ℕ) → Bool
digest_matches got none = false
digest_matches got (some want) = eqb (length want) 32 && bytes_equal got want

unfoldable pub capability_matches : Host → String → CapabilityRecord → Bool
unfolding capability_key_id
capability_matches host token record_ = elim (capability_key_id token) [
  | none ↦ false
  | some key_id ↦
      key_id == record_.key_id
      && digest_matches (host.sha256 token) (hex_decode record_.token_digest)
]

unfoldable pub has_permission : CapabilityRecord → Permission → Bool
has_permission capability permission =
    any (λ candidate. candidate == permission) capability.permissions

-- The token and the record of a new capability.
unfoldable pub new_capability : Host → Time → List Permission → Exec (String × CapabilityRecord)
new_capability host now permissions = do
  key_id ← new_ulid host now
  secret ← new_secret host
  let token = capability_prefix <> (key_id <> ("." <> secret))
  pure (
    token,
    record {
      key_id = key_id;
      token_digest = hex_encode (host.sha256 token);
      permissions = permissions;
      created_at = now;
    },
  )
