-- ===== src/Discussion/Reconcile/Kept.antt =====
-- What a walk of `ReconcileDeliveries` leaves alone.
use agent_community.Common.{ℕ, ◌≡◌, refl, arith, String, List, [], ◌∷◌}
use agent_community.Discussion.Model.{
  active, ended, expired, other, DiscussionRecord, MessageRecord, SubscriptionRecord, explicit,
  by_expiry,
}
use agent_community.Discussion.Exec.{Host, Dir, Session, Result, ok, err, pure}
use agent_community.Discussion.Exec.Hoare.{Keeps, Keeps-bind, Keeps-pure, keeps_rules}
use agent_community.Discussion.Outbox.{reconcile_message_deliveries, reconcile_end_deliveries}
use agent_community.Discussion.Outbox.Frame.{
  Apart, reconcile_message_deliveries-Keeps, reconcile_end_deliveries-Keeps,
}
use agent_community.Discussion.Access.{read_record}
use agent_community.Discussion.Deliveries.{Store}
use agent_community.Discussion.Expiry.{Walk}
use agent_community.Discussion.Reconcile.{
  reconcile_each, reconcile_status, reconcile_discussion, reconciled_on, reconcile_all,
}

module _ (P : DiscussionRecord → List MessageRecord → List SubscriptionRecord → Type 0)
    (host : Host) where
  reconcile_each-Keeps :
      (r : DiscussionRecord) (ms : List MessageRecord)
      → Keeps (Apart P 0) (reconcile_each host r ms)
  unfolding reconcile_each
  reconcile_each-Keeps r [] = Keeps-pure tt
  reconcile_each-Keeps r (m ∷ rest) =
      Keeps-bind (reconcile_message_deliveries host r m.message) _
        (reconcile_message_deliveries-Keeps P 0 host r m.message) (λ _. reconcile_each-Keeps r rest)

  reconcile_status-Keeps : (r : DiscussionRecord) → Keeps (Apart P 0) (reconcile_status host r)
  unfolding reconcile_status
  reconcile_status-Keeps r =
      elim r.status
        as (λ st. Keeps (Apart P 0) (elim st [
          | ended ↦ reconcile_end_deliveries host r explicit
          | expired ↦ reconcile_end_deliveries host r by_expiry
          | active ↦ pure tt
          | other s ↦ pure tt
        ])) [
          | ended ↦ reconcile_end_deliveries-Keeps P 0 host r explicit
          | expired ↦ reconcile_end_deliveries-Keeps P 0 host r by_expiry
          | active ↦ Keeps-pure tt
          | other s ↦ Keeps-pure tt
        ]

  reconcile_discussion-Keeps : (name : String) → Keeps (Apart P 0) (reconcile_discussion host name)
  unfolding reconcile_discussion read_record
  reconcile_discussion-Keeps name =
      search (keeps_rules, reconcile_each-Keeps, reconcile_status-Keeps)

-- The same discussions, with the same records, messages and subscriptions.
pub data SameButOutbox : Store → Store → Type 0 where
  none_left : SameButOutbox [] []
  one_more :
      (name : String) (d d' : Dir) {before after : Store}
      → d'.record_file ≡ d.record_file
      → d'.messages ≡ d.messages
      → d'.subscriptions ≡ d.subscriptions
      → SameButOutbox before after
      → SameButOutbox ((name, d) ∷ before) ((name, d') ∷ after)

unchanged : (store : Store) → SameButOutbox store store
unchanged [] = none_left
unchanged ((name, d) ∷ rest) = one_more name d d refl refl refl (unchanged rest)

-- `ReconcileDeliveries` changes nothing but outboxes, whether it goes through all discussions or an
-- error stops it.
pub reconcile_all-SameButOutbox :
    (host : Host) (store : Store) (readings draws : ℕ)
    → SameButOutbox store (reconcile_all host store readings draws).1.store
unfolding reconcile_all
reconcile_all-SameButOutbox host [] readings draws = none_left
reconcile_all-SameButOutbox host ((name, d) ∷ rest) readings draws =
    let s : Session = record { dir = d; readings = readings; draws = draws } in
    let a = reconcile_discussion host name s in
    let kept =
      (reconcile_discussion-Keeps
          (λ r ms subs. (r ≡ d.record_file) × (ms ≡ d.messages) × (subs ≡ d.subscriptions)) host
          name).at
        s ((refl, refl, refl), omega arith) in
    onto a.0 a.1 kept.0 (reconcile_all host rest a.1.readings a.1.draws)
      (reconcile_all-SameButOutbox host rest a.1.readings a.1.draws)
  where
    onto :
        (r : Result (Unit {0})) (t : Session)
        → (t.dir.record_file ≡ d.record_file)
          × (t.dir.messages ≡ d.messages)
          × (t.dir.subscriptions ≡ d.subscriptions)
        → (b : Result (Unit {0}) × Walk) → SameButOutbox rest b.1.store
        → SameButOutbox ((name, d) ∷ rest) (reconciled_on host name (r, t) rest b).1.store
    onto (err e) t (same, messages, subscriptions) b h =
        one_more name d t.dir same messages subscriptions (unchanged rest)
    onto (ok u) t (same, messages, subscriptions) (r, w) h =
        one_more name d t.dir same messages subscriptions h
