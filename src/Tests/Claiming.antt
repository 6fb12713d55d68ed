-- ===== src/Tests/Claiming.antt =====
-- A name that a workspace claims, and that another one cannot have.
use agent_community.Common.{
  ◌≡◌, refl, ◌⊎◌, String, none, some, List, [], ◌∷◌, trim_space, all_chars, is_space,
}
use agent_community.Common.Int.{pos}
use agent_community.Identity.{
  ClaimError, Files, whoami, nonempty, reserved, validate_agent_name, first_claim, find_claim,
  write_identity, append_claim, refusal, claim_name,
}
use agent_community.Identity.Claiming.{
  IsWritten, Step, claims, posts, run, claim_name_outcome, claim_name-exclusive,
}

abbrev files : Files
files = record { claims = none ∷ []; messages = some []; identity = λ w. none }

claim_name_outcome_example :
    let a = claim_name 100 "/home/a" "gouda" (pos 12) files in
    ((a.0 ≡ none)
      × IsWritten 100 "/home/a" "gouda" files a.1
      × (whoami (a.1.identity "/home/a") ≡ nonempty (trim_space "gouda")))
    ⊎ ((e : ClaimError) × (a.0 ≡ some e) × (a.1 ≡ files))
claim_name_outcome_example = claim_name_outcome 100 "/home/a" "gouda" (pos 12) files

abbrev between : List Step
between = claims 200 "/home/b" "gouda" (pos 0) ∷ posts (some []) ∷ []

first_claims : (claim_name 100 "/home/a" "gouda" (pos 12) files).0 ≡ none
unfolding claim_name validate_agent_name reserved find_claim first_claim refusal all_chars
first_claims = refl

again :
    (claim_name 300 "/home/a" "gouda"
      (pos 0)
      (run (claim_name 100 "/home/a" "gouda" (pos 12) files).1 between)).0
    ≡ none
unfolding claim_name validate_agent_name reserved find_claim first_claim refusal write_identity
    append_claim all_chars trim_space is_space
again = refl

claim_name-exclusive_example : ◌≡◌ {A = String} "/home/a" "/home/a"
claim_name-exclusive_example =
    claim_name-exclusive 100 300 "/home/a" "/home/a" "gouda" (pos 12) (pos 0) files between refl
      refl first_claims again
