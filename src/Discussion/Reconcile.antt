-- ===== src/Discussion/Reconcile.antt =====
-- `ReconcileDeliveries` of subscription.go, a walk over the directories of all discussions.
pub mod Kept
use agent_community.Common.{ℕ, String, List, [], ◌∷◌}
use agent_community.Discussion.Model.{
  Status, active, ended, expired, other, DiscussionRecord, MessageRecord, explicit, by_expiry,
}
use agent_community.Discussion.Exec.{
  Host, Result, ok, err, Session, Exec, ◌>>=◌, ◌>>◌, pure, lift, gets,
}
use agent_community.Discussion.Messages.{read_messages}
use agent_community.Discussion.Access.{read_record}
use agent_community.Discussion.Outbox.{reconcile_message_deliveries, reconcile_end_deliveries}
use agent_community.Discussion.Deliveries.{Store}
use agent_community.Discussion.Expiry.{Walk}

module _ (host : Host) where
  unfoldable pub reconcile_each : DiscussionRecord → List MessageRecord → Exec (Unit {0})
  reconcile_each r [] = pure tt
  reconcile_each r (m ∷ rest) = do
    reconcile_message_deliveries host r m.message
    reconcile_each r rest

  unfoldable pub reconcile_status : DiscussionRecord → Exec (Unit {0})
  reconcile_status r = elim r.status [
    | ended ↦ reconcile_end_deliveries host r explicit
    | expired ↦ reconcile_end_deliveries host r by_expiry
    | active ↦ pure tt
    | other s ↦ pure tt
  ]

  -- A turn of the loop.
  unfoldable pub reconcile_discussion : String → Exec (Unit {0})
  reconcile_discussion name = do
    r ← read_record host name
    file ← gets (λ d. d.messages)
    messages ← lift (read_messages host r file)
    reconcile_each r messages
    reconcile_status r

  abbrev pub reconciled_on :
      String
      → Result (Unit {0}) × Session
      → Store
      → Result (Unit {0}) × Walk
      → Result (Unit {0}) × Walk
  reconciled_on name (err e, s) rest behind =
      (err e, record { store = (name, s.dir) ∷ rest; readings = s.readings; draws = s.draws })
  reconciled_on name (ok u, s) rest (r, w) = (r, record w { store = (name, s.dir) ∷ w.store })

  unfoldable pub reconcile_all : Store → ℕ → ℕ → Result (Unit {0}) × Walk
  unfolding reconcile_discussion
  reconcile_all [] readings draws =
      (ok tt, record { store = []; readings = readings; draws = draws })
  reconcile_all ((name, d) ∷ rest) readings draws =
      let a = reconcile_discussion name (record { dir = d; readings = readings; draws = draws }) in
      reconciled_on name a rest (reconcile_all rest a.1.readings a.1.draws)
