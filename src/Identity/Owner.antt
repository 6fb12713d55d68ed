-- ===== src/Identity/Owner.antt =====
-- Who a name belongs to, and that it stays so.
use agent_community.Common.{
  ◌≡◌, refl, sym, ap, ◌∙◌, String, false, Option, none, some, List, [], ◌∷◌, ◌++◌, find, ◌==◌,
  eq_iff, arith, Bool-cases, inl, inr,
}
use mathlib.Core.Bool.{false≢true}
use agent_community.Common.Int.{ℤ}
use agent_community.Discussion.Model.{Time}
use agent_community.Colony.{Message}
use agent_community.Identity.{
  Claim, ClaimError, Files, Found, nobody, claimed, first_claim, find_claim, found_or, as_author,
  among_messages, historical, validate_agent_name, other_identity, write_identity, append_claim,
  refusal, claim_found, claim_name,
}

-- The workspace of the first claim of a name.
abbrev pub claim_workspace : Option Claim → Option String
claim_workspace none = none
claim_workspace (some c) = some c.workspace

abbrev pub owner : String → Files → Option String
owner name files = claim_workspace (first_claim name files.claims)

pub first_claim-kept :
    (name : String) (c d : Claim) (lines : List (Option Claim))
    → first_claim name lines ≡ some d
    → first_claim name (lines ++ some c ∷ []) ≡ some d
unfolding first_claim
first_claim-kept name c d [] h = absurd (ground (arith, h))
first_claim-kept name c d (none ∷ lines) h = first_claim-kept name c d lines h
first_claim-kept name c d (some e ∷ lines) h = elim (Bool-cases (e.name == name)) [
  | inl hit ↦ ground (arith, h, hit)
  | inr miss ↦ rw miss (first_claim-kept name c d lines (ground (arith, h, miss)))
]

first_claim-new :
    (name : String) (c : Claim) (lines : List (Option Claim))
    → first_claim name lines ≡ none
    → c.name ≡ name
    → first_claim name (lines ++ some c ∷ []) ≡ some c
unfolding first_claim
first_claim-new name c [] h e = rw ((eq_iff c.name name).1 e) refl
first_claim-new name c (none ∷ lines) h e = first_claim-new name c lines h e
first_claim-new name c (some d ∷ lines) h e = elim (Bool-cases (d.name == name)) [
  | inl hit ↦ absurd (ground (arith, h, hit))
  | inr miss ↦ rw miss (first_claim-new name c lines (ground (arith, h, miss)) e)
]

first_claim-other :
    (name : String) (c : Claim) (lines : List (Option Claim))
    → (c.name == name) ≡ false
    → first_claim name (lines ++ some c ∷ []) ≡ first_claim name lines
unfolding first_claim
first_claim-other name c [] e = rw e refl
first_claim-other name c (none ∷ lines) e = first_claim-other name c lines e
first_claim-other name c (some d ∷ lines) e = elim (Bool-cases (d.name == name)) [
  | inl hit ↦ rw hit refl
  | inr miss ↦ rw miss (first_claim-other name c lines e)
]

module _ (now : Time) (workspace name : String) (max_length : ℤ) (files : Files) where
  abbrev claiming : Found → Option ClaimError × Files
  claiming found = claim_found now workspace name max_length files found

  -- A claim that is there is the claimer's own.
  own_claim :
      (c : Claim)
      → (claiming (claimed c)).0 ≡ none
      → (c.workspace ≡ workspace) × ((claiming (claimed c)).1.claims ≡ files.claims)
  unfolding refusal write_identity
  own_claim c h = elim (Bool-cases (c.workspace == workspace)) [
    | inl same ↦ elim (Bool-cases (other_identity name (files.identity workspace))) [
      | inl other ↦ absurd (ground (arith, h, same, other))
      | inr own ↦ ((eq_iff c.workspace workspace).0 same, ground (arith, same, own))
    ]
    | inr differ ↦ absurd (ground (arith, h, differ))
  ]

  abbrev new_claim : Claim
  new_claim = record { name = name; workspace = workspace; timestamp = now }

  nobody-appends :
      (claiming nobody).0 ≡ none → (claiming nobody).1.claims ≡ files.claims ++ some new_claim ∷ []
  unfolding refusal write_identity append_claim
  nobody-appends h = elim (Bool-cases (other_identity name (files.identity workspace))) [
    | inl other ↦ absurd (ground (arith, h, other))
    | inr own ↦ ground (arith, own)
  ]

  author-owner :
      (o : Option Message)
      → (historical == workspace) ≡ false
      → first_claim name files.claims ≡ none
      → (claiming (as_author name o)).0 ≡ none
      → owner name (claiming (as_author name o)).1 ≡ some workspace
  author-owner none elsewhere missing h =
      ap (λ lines. claim_workspace (first_claim name lines)) (nobody-appends h)
      ∙ ap claim_workspace (first_claim-new name new_claim files.claims missing refl)
  author-owner (some m) elsewhere missing h =
      let (same, _) =
        own_claim (record { name = name; workspace = historical; timestamp = m.timestamp }) h in
      absurd (false≢true (sym elsewhere ∙ (eq_iff historical workspace).1 same))

  found-owner :
      (o : Option Claim)
      → (historical == workspace) ≡ false
      → first_claim name files.claims ≡ o
      → (claiming (found_or name files.messages o)).0 ≡ none
      → owner name (claiming (found_or name files.messages o)).1 ≡ some workspace
  found-owner (some c) elsewhere e h =
      let (same, kept) = own_claim c h in
      ap (λ lines. claim_workspace (first_claim name lines)) kept
      ∙ ap claim_workspace e
      ∙ ap some same
  found-owner none elsewhere e h = by_messages files.messages refl h
    where
      by_messages :
          (ms : Option (List Message))
          → files.messages ≡ ms
          → (claiming (among_messages name ms)).0 ≡ none
          → owner name (claiming (among_messages name ms)).1 ≡ some workspace
      by_messages none same h = unfold refusal in absurd (ground (arith, h))
      by_messages (some ms) same h =
          author-owner (find (λ (m : Message). m.author == name) ms) elsewhere e h

  -- A name that is claimed belongs to the claimer's workspace.
  pub claim_name-owner :
      (historical == workspace) ≡ false
      → (claim_name now workspace name max_length files).0 ≡ none
      → owner name (claim_name now workspace name max_length files).1 ≡ some workspace
  unfolding claim_name find_claim
  claim_name-owner elsewhere h = elim (Bool-cases (validate_agent_name name max_length)) [
    | inl valid ↦
        let done : (claiming (found_or name files.messages (first_claim name files.claims))).0
            ≡ none =
          ground (arith, h, valid) in
        rw (valid, claim_name) (found-owner (first_claim name files.claims) elsewhere refl done)
    | inr invalid ↦ absurd (ground (arith, h, invalid))
  ]
