-- ===== src/Identity.antt =====
-- The names of agents: internal/identity/identity.go.
pub mod Owner
pub mod Claiming
use agent_community.Common.{
  ℕ, String, len, Bool, true, false, ◌&&◌, ◌||◌, not, Option, none, some, List, [], ◌∷◌, ◌++◌, find,
  ltb, leb, eqb, ◌==◌, all_chars, trim_space, if◌then◌else◌,
}
use Prim.Native.String.{◌++◌ as ◌<>◌}
use agent_community.Common.Int.{ℤ, exceeds, to_nat}
use agent_community.Discussion.Model.{Time}
use agent_community.Colony.{Message}

pub record Claim : Type 0 where
  pub name : String
  pub workspace : String
  pub timestamp : Time

-- The errors of the package, by where they come from.
pub data ClaimError : Type 0 where
  invalid_name claimed_elsewhere other_name unreadable_log : ClaimError

-- What the files hold: identities.jsonl of the community, line by line, with `none` for a line that
-- is not decoded; what `message.ReadAll` makes of its log, `none` for an error; and the identity file
-- of each workspace.
pub record Files : Type 0 where
  pub claims : List (Option Claim)
  pub messages : Option (List Message)
  pub identity : String → Option String

abbrev pub nonempty : String → Option String
nonempty name = if name == "" then none else some name

-- `none` for `ErrNoIdentity`.
unfoldable pub whoami : Option String → Option String
unfolding trim_space
whoami none = none
whoami (some text) = nonempty (trim_space text)

-- The characters of `" \t\r\n|"`.
unfoldable pub reserved : ℕ → Bool
reserved c = eqb c 32 || eqb c 9 || eqb c 13 || eqb c 10 || eqb c b'|'

unfoldable pub validate_agent_name : String → ℤ → Bool
unfolding reserved
validate_agent_name name max_length =
    not (name == "")
    && all_chars (λ c. not (reserved c)) name
    && not (exceeds max_length 0 && ltb (to_nat max_length) (len name))
    && all_chars (λ c. not (ltb c 0x20 || eqb c 0x7f)) name

abbrev pub names : String → Option Claim → Bool
names name none = false
names name (some c) = c.name == name

-- The first entry of a name in identities.jsonl.
unfoldable pub first_claim : String → List (Option Claim) → Option Claim
first_claim name [] = none
first_claim name (none ∷ lines) = first_claim name lines
first_claim name (some c ∷ lines) =
    let rest = first_claim name lines in if c.name == name then some c else rest

pub data Found : Type 0 where
  unreadable nobody : Found
  claimed : Claim → Found

-- The backstop for old logs.
abbrev pub historical : String
historical = "(historical; pre-identities.jsonl)"

abbrev pub as_author : String → Option Message → Found
as_author name none = nobody
as_author name (some m) =
    claimed (record { name = name; workspace = historical; timestamp = m.timestamp })

abbrev pub among_messages : String → Option (List Message) → Found
among_messages name none = unreadable
among_messages name (some ms) = as_author name (find (λ (m : Message). m.author == name) ms)

abbrev pub found_or : String → Option (List Message) → Option Claim → Found
found_or name messages (some c) = claimed c
found_or name messages none = among_messages name messages

unfoldable pub find_claim : Files → String → Found
unfolding first_claim
find_claim files name = found_or name files.messages (first_claim name files.claims)

-- The identity file names somebody else.
abbrev pub other_identity : String → Option String → Bool
other_identity name none = false
other_identity name (some text) = not (trim_space text == "") && not (trim_space text == name)

unfoldable pub write_identity : String → String → Files → Files
write_identity workspace name files = record files {
  identity = λ w. if w == workspace then some (name <> "\n") else files.identity w;
}

unfoldable pub append_claim : Claim → Files → Files
append_claim c files = record files { claims = files.claims ++ some c ∷ [] }

-- The error of a claim, if it has one.
unfoldable pub refusal : String → String → ℤ → Files → Found → Option ClaimError
unfolding validate_agent_name
refusal workspace name max_length files unreadable = some unreadable_log
refusal workspace name max_length files nobody =
    if other_identity name (files.identity workspace) then some other_name else none
refusal workspace name max_length files (claimed c) =
    if not (c.workspace == workspace)
    then some claimed_elsewhere
    else if other_identity name (files.identity workspace)
    then some other_name
    else none

abbrev pub recorded : Claim → Found → Files → Files
recorded c nobody files = append_claim c files
recorded c _ files = files

-- The files behind the checks, or the error that one of them gives.
abbrev pub claim_found : Time → String → String → ℤ → Files → Found → Option ClaimError × Files
claim_found now workspace name max_length files found =
    elim (refusal workspace name max_length files found) [
      | some e ↦ (some e, files)
      | none ↦ (
        none,
        recorded (record { name = name; workspace = workspace; timestamp = now }) found
            (write_identity workspace name files),
      )
    ]

-- `ClaimName` for an absolute workspace path, with the reading of the clock.
unfoldable pub claim_name : Time → String → String → ℤ → Files → Option ClaimError × Files
unfolding find_claim
claim_name now workspace name max_length files =
    if validate_agent_name name max_length
    then claim_found now workspace name max_length files (find_claim files name)
    else (some invalid_name, files)
