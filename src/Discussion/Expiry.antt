-- ===== src/Discussion/Expiry.antt =====
-- `ExpireDue` of subscription.go, a walk over the directories of all discussions.
pub mod Visits
use agent_community.Common.{ℕ, ◌+◌, String, Bool, true, false, List, [], ◌∷◌, ltb}
use agent_community.Discussion.Model.{DiscussionRecord}
use agent_community.Discussion.Exec.{Host, Result, ok, err, Session, Exec, ◌>>=◌, ◌>>◌, pure, now}
use agent_community.Discussion.Access.{read_record, is_active, expire}
use agent_community.Discussion.Deliveries.{Store}

-- A state of the walk: the directories, and the readings of the clock and the draws so far.
pub record Walk : Type 0 where
  pub store : Store
  pub readings : ℕ
  pub draws : ℕ

abbrev pub onto_expired : String → Bool → Result (List String) → Result (List String)
onto_expired name false names = names
onto_expired name true (ok names) = ok (name ∷ names)
onto_expired name true (err e) = err e

module _ (host : Host) where
  unfoldable pub expire_record : DiscussionRecord → Exec Bool
  expire_record r = elim (is_active r.status) [
    | false ↦ pure false
    | true ↦ do
      t ← now host
      elim (ltb t r.expires_at) [ true ↦ pure false | false ↦ do expire host r; pure true ]
  ]

  -- A turn of the loop: whether the discussion was expired by it.
  unfoldable pub visit : String → Exec Bool
  visit name = do r ← read_record host name; expire_record r

  abbrev pub walked_on :
      String
      → Result Bool × Session
      → Store
      → Result (List String) × Walk
      → Result (List String) × Walk
  walked_on name (err e, s) rest behind =
      (err e, record { store = (name, s.dir) ∷ rest; readings = s.readings; draws = s.draws })
  walked_on name (ok b, s) rest (names, w) =
      (onto_expired name b names, record w { store = (name, s.dir) ∷ w.store })

  -- The names of the discussions that the walk has expired, unless an error has stopped it.
  unfoldable pub expire_due : Store → ℕ → ℕ → Result (List String) × Walk
  unfolding visit
  expire_due [] readings draws = (ok [], record { store = []; readings = readings; draws = draws })
  expire_due ((name, d) ∷ rest) readings draws =
      let a = visit name (record { dir = d; readings = readings; draws = draws }) in
      walked_on name a rest (expire_due rest a.1.readings a.1.draws)
