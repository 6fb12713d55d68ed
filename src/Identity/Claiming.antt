-- ===== src/Identity/Claiming.antt =====
-- The outcomes of `ClaimName`, and that no two workspaces come to hold one name.
use agent_community.Common.{
  ◌≡◌, refl, sym, ap, ◌∙◌, ◌⊎◌, inl, inr, String, true, false, Option, none, some, List, [], ◌∷◌,
  ◌++◌, ◌==◌, eq_refl, eq_iff, arith, trim_space, trim_space-newline, if◌then◌else◌,
}
use Prim.Native.String.{◌++◌ as ◌<>◌}
use agent_community.Common.Int.{ℤ}
use agent_community.Discussion.Model.{Time}
use agent_community.Colony.{Message}
use agent_community.Identity.{
  Claim, ClaimError, Files, Found, unreadable, nobody, claimed, nonempty, whoami, first_claim,
  find_claim, historical, validate_agent_name, write_identity, append_claim, refusal, recorded,
  claim_found, claim_name,
}
use agent_community.Identity.Owner.{claim_workspace, owner, first_claim-kept, claim_name-owner}

-- What a claim leaves of the files: the identity file is written, and an entry is added just where
-- nobody holds the name yet.
pub record IsWritten (now : Time) (workspace name : String) (before after : Files) : Type 0 where
  pub identity :
      (w : String)
      → after.identity w ≡ (if w == workspace then some (name <> "\n") else before.identity w)
  pub messages : after.messages ≡ before.messages
  pub claims :
      ((c : Claim) × (find_claim before name ≡ claimed c)
        × (c.workspace ≡ workspace)
        × (after.claims ≡ before.claims))
      ⊎ ((find_claim before name ≡ nobody)
          × (after.claims
              ≡ before.claims
                ++ some (record { name = name; workspace = workspace; timestamp = now }) ∷ []))

module _ (now : Time) (workspace name : String) (max_length : ℤ) (files : Files) where
  abbrev Outcome : Option ClaimError × Files → Type 0
  Outcome a =
      ((a.0 ≡ none) × IsWritten now workspace name files a.1)
      ⊎ ((e : ClaimError) × (a.0 ≡ some e) × (a.1 ≡ files))

  written-Outcome :
      (found : Found)
      → find_claim files name ≡ found
      → refusal workspace name max_length files found ≡ none
      → Outcome (
        none,
        recorded
            (record { name = name; workspace = workspace; timestamp = now })
            found
            (write_identity workspace name files),
      )
  unfolding write_identity append_claim refusal
  written-Outcome unreadable e h = absurd (ground (arith, h))
  written-Outcome nobody e h =
      inl (refl, record { identity = λ w. refl; messages = refl; claims = inr (e, refl) })
  written-Outcome (claimed c) e h =
      let own : c.workspace ≡ workspace = ground (arith, h, eq_iff c.workspace workspace) in
      inl (refl, record { identity = λ w. refl; messages = refl; claims = inl (c, e, own, refl) })

  found-Outcome :
      (found : Found)
      → find_claim files name ≡ found
      → Outcome (claim_found now workspace name max_length files found)
  found-Outcome found e =
      elim (refusal workspace name max_length files found)
          as (λ r.
            refusal workspace name max_length files found ≡ r
            → Outcome (elim r [
              | some e ↦ (some e, files)
              | none ↦ (
                none,
                recorded (record { name = name; workspace = workspace; timestamp = now }) found
                    (write_identity workspace name files),
              )
            ])) [ some x ↦ λ h. inr (x, refl, refl) | none ↦ λ h. written-Outcome found e h ]
        refl

  claim_name-Outcome : Outcome (claim_name now workspace name max_length files)
  unfolding claim_name
  claim_name-Outcome =
      elim (validate_agent_name name max_length)
        as (λ b. Outcome (
          if b
          then claim_found now workspace name max_length files (find_claim files name)
          else (some ClaimError.invalid_name, files))) [
            | true ↦ found-Outcome (find_claim files name) refl
            | false ↦ inr (ClaimError.invalid_name, refl, refl)
          ]

-- Every outcome of `ClaimName`. An error changes nothing. A success writes the identity file, so
-- that `Whoami` answers the name as it is without the space around it, and changes no other
-- workspace's identity; it adds an entry with the reading of the clock if nobody holds the name, and
-- otherwise comes only to the workspace that holds it and adds none.
pub claim_name_outcome :
    (now : Time) (workspace name : String) (max_length : ℤ) (files : Files)
    → let a = claim_name now workspace name max_length files in
      ((a.0 ≡ none)
        × IsWritten now workspace name files a.1
        × (whoami (a.1.identity workspace) ≡ nonempty (trim_space name)))
      ⊎ ((e : ClaimError) × (a.0 ≡ some e) × (a.1 ≡ files))
unfolding whoami
claim_name_outcome now workspace name max_length files =
    go (claim_name now workspace name max_length files)
      (claim_name-Outcome now workspace name max_length files)
  where
    go :
        (a : Option ClaimError × Files)
        → Outcome now workspace name max_length files a
        → ((a.0 ≡ none)
            × IsWritten now workspace name files a.1
            × (whoami (a.1.identity workspace) ≡ nonempty (trim_space name)))
          ⊎ ((e : ClaimError) × (a.0 ≡ some e) × (a.1 ≡ files))
    go a (inr (e, h, same)) = inr (e, h, same)
    go a (inl (h, w)) =
        let file =
          w.identity workspace
          ∙ ap (λ b. if b then some (name <> "\n") else files.identity workspace)
              (eq_refl workspace) in
        inl (h, w, ap whoami file ∙ ap nonempty (trim_space-newline name))

-- What happens in a community: a claim from a workspace, or a change of the log of messages.
pub data Step : Type 0 where
  claims : Time → String → String → ℤ → Step
  posts : Option (List Message) → Step

abbrev pub step : Files → Step → Files
step files (claims now workspace name max_length) =
    (claim_name now workspace name max_length files).1
step files (posts messages) = record files { messages = messages }

abbrev pub run : Files → List Step → Files
run files [] = files
run files (s ∷ steps) = run (step files s) steps

written-owner :
    (now : Time) (workspace name n w : String) (before after : Files)
    → IsWritten now workspace name before after
    → owner n before ≡ some w
    → owner n after ≡ some w
written-owner now workspace name n w before after h o =
    kept (first_claim n before.claims) refl h.claims
  where
    kept :
        (c : Option Claim)
        → first_claim n before.claims ≡ c
        → ((d : Claim) × (find_claim before name ≡ claimed d)
            × (d.workspace ≡ workspace)
            × (after.claims ≡ before.claims))
          ⊎ ((find_claim before name ≡ nobody)
              × (after.claims
                  ≡ before.claims
                    ++ some (record { name = name; workspace = workspace; timestamp = now }) ∷ []))
        → owner n after ≡ some w
    kept c e (inl (d, _, _, same)) = ap (λ lines. claim_workspace (first_claim n lines)) same ∙ o
    kept none e (inr (_, more)) = absurd (ground (arith, sym (ap claim_workspace e) ∙ o))
    kept (some c) e (inr (_, more)) =
        ap (λ lines. claim_workspace (first_claim n lines)) more
        ∙ ap claim_workspace (
            first_claim-kept n (record { name = name; workspace = workspace; timestamp = now }) c
              before.claims e)
        ∙ sym (ap claim_workspace e)
        ∙ o

step-owner :
    (files : Files) (s : Step) (n w : String)
    → owner n files ≡ some w
    → owner n (step files s) ≡ some w
step-owner files (posts messages) n w o = o
step-owner files (claims now workspace name max_length) n w o =
    go (claim_name now workspace name max_length files)
      (claim_name-Outcome now workspace name max_length files)
  where
    go :
        (a : Option ClaimError × Files)
        → Outcome now workspace name max_length files a
        → owner n a.1 ≡ some w
    go a (inl (h, written)) = written-owner now workspace name n w files a.1 written o
    go a (inr (e, h, same)) = ap (owner n) same ∙ o

run-owner :
    (files : Files) (steps : List Step) (n w : String)
    → owner n files ≡ some w
    → owner n (run files steps) ≡ some w
run-owner files [] n w o = o
run-owner files (s ∷ steps) n w o = run-owner (step files s) steps n w (step-owner files s n w o)

-- Once a workspace has claimed a name, and whatever claims and messages follow, a claim of the name
-- succeeds only from the same workspace. A workspace is a path, so not the text that stands for
-- the author of an old message.
pub claim_name-exclusive :
    (first second : Time) (workspace other name : String) (max_length limit : ℤ) (files : Files)
    (steps : List Step)
    → (historical == workspace) ≡ false
    → (historical == other) ≡ false
    → (claim_name first workspace name max_length files).0 ≡ none
    → (claim_name second other name limit
        (run (claim_name first workspace name max_length files).1 steps)).0
      ≡ none
    → other ≡ workspace
claim_name-exclusive first second workspace other name max_length limit files steps p q done again =
    let now_owned = claim_name-owner first workspace name max_length files p done in
    let between = run (claim_name first workspace name max_length files).1 steps in
    let still =
      run-owner (claim_name first workspace name max_length files).1 steps name workspace
        now_owned in
    let kept = step-owner between (claims second other name limit) name workspace still in
    let owned = claim_name-owner second other name limit between q again in
    ap (λ (o : Option String). elim o [ none ↦ other | some w ↦ w ]) (sym owned ∙ kept)
