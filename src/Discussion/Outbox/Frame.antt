-- ===== src/Discussion/Outbox/Frame.antt =====
-- What the reconciliation of the outbox leaves alone: everything but the outbox.
use agent_community.Common.{ℕ, suc, ◌≤◌, arith, String, true, false, List, [], ◌∷◌, ◌++◌}
use agent_community.Discussion.Model.{
  DiscussionRecord, Message, MessageRecord, SubscriptionRecord, DeliveryRecord, Event, EndReason,
}
use agent_community.Discussion.Exec.{Host, Dir, ◌>>=◌, ◌>>◌}
use agent_community.Discussion.Exec.Hoare.{Keeps, Keeps-modify, Keeps-bind, keeps_rules}
use agent_community.Discussion.Outbox.{
  read_subscriptions, read_delivery_records, write_delivery, new_delivery, reconcile_loop,
  reconcile_deliveries, skips, reconcile_message_deliveries, reconcile_end_deliveries,
  message_event,
}

-- A property of the record, the messages and the subscriptions, with a bound for the draws from below.
abbrev pub Apart :
    (DiscussionRecord → List MessageRecord → List SubscriptionRecord → Type 0)
    → ℕ
    → Dir
    → ℕ
    → Type 0
Apart P k d n = P d.record_file d.messages d.subscriptions × (k ≤ n)

pub Apart-suc :
    (P : DiscussionRecord → List MessageRecord → List SubscriptionRecord → Type 0) (k : ℕ) (d : Dir)
    (n : ℕ)
    → Apart P k d n
    → Apart P k d (suc n)
Apart-suc P k d n h = (h.0, omega arith)

module _ (P : DiscussionRecord → List MessageRecord → List SubscriptionRecord → Type 0) (k : ℕ)
    (host : Host) (id : String) (event : Event) where
  new_delivery-Keeps : (s : SubscriptionRecord) → Keeps (Apart P k) (new_delivery host id event s)
  unfolding new_delivery
  new_delivery-Keeps s = search (keeps_rules, Apart-suc)

  write_delivery-Keeps : (d : DeliveryRecord) → Keeps (Apart P k) (write_delivery d)
  unfolding write_delivery
  write_delivery-Keeps d = Keeps-modify _ (λ _ _ h. h)

  reconcile_loop-Keeps :
      (subs : List SubscriptionRecord) (existing : List DeliveryRecord)
      → Keeps (Apart P k) (reconcile_loop host id event subs existing)
  unfolding reconcile_loop
  reconcile_loop-Keeps [] existing = search keeps_rules
  reconcile_loop-Keeps (s ∷ rest) existing =
      elim (skips existing event s)
        as (λ b. Keeps (Apart P k) (elim b [
          | true ↦ reconcile_loop host id event rest existing
          | false ↦ new_delivery host id event s >>= λ d.
              write_delivery d >> reconcile_loop host id event rest (existing ++ d ∷ [])
        ])) [
          | true ↦ reconcile_loop-Keeps rest existing
          | false ↦ Keeps-bind _ _ (new_delivery-Keeps s) (λ d.
              Keeps-bind _ _ (write_delivery-Keeps d)
                (λ _. reconcile_loop-Keeps rest (existing ++ d ∷ [])))
        ]

  pub reconcile_deliveries-Keeps : Keeps (Apart P k) (reconcile_deliveries host id event)
  unfolding reconcile_deliveries read_subscriptions read_delivery_records
  reconcile_deliveries-Keeps = search (keeps_rules, reconcile_loop-Keeps)

module _ (P : DiscussionRecord → List MessageRecord → List SubscriptionRecord → Type 0) (k : ℕ)
    (host : Host) (r : DiscussionRecord) where
  pub reconcile_message_deliveries-Keeps :
      (m : Message) → Keeps (Apart P k) (reconcile_message_deliveries host r m)
  unfolding reconcile_message_deliveries
  reconcile_message_deliveries-Keeps m =
      reconcile_deliveries-Keeps P k host r.id (message_event host r m)

  pub reconcile_end_deliveries-Keeps :
      (reason : EndReason) → Keeps (Apart P k) (reconcile_end_deliveries host r reason)
  unfolding reconcile_end_deliveries
  reconcile_end_deliveries-Keeps reason = search (keeps_rules, reconcile_deliveries-Keeps)
