-- ===== src/Discussion/Deliveries/Due.antt =====
-- `ListDueDeliveries` of subscription.go.
pub mod Ordering
pub mod Listed
use agent_community.Common.{
  ℕ, zero, String, Bool, true, false, ◌&&◌, ◌||◌, not, Option, none, some, List, [], ◌∷◌, ◌++◌, all,
  find, take, ltb, eqb, leb, ◌==◌, text_lt, if◌then◌else◌,
}
use agent_community.Common.Int.{ℤ, exceeds, to_nat}
use agent_community.Discussion.Model.{
  Time, SubscriptionRecord, DeliveryRecord, DeliveryStatus, pending, Delivery,
}
use agent_community.Discussion.Exec.{Result, ok, err, internal, Dir}
use agent_community.Discussion.Validate.{valid_subscriptions, valid_delivery}
use agent_community.Discussion.Deliveries.{Store}

unfoldable pub is_pending : DeliveryStatus → Bool
is_pending pending = true
is_pending _ = false

abbrev pub delivery_of : DeliveryRecord → SubscriptionRecord → Delivery
delivery_of record_ subscription = record {
  id = record_.id;
  subscription_id = record_.subscription_id;
  callback_url = subscription.callback_url;
  signing_secret = subscription.signing_secret;
  event = record_.event;
  attempts = record_.attempts;
  next_attempt_at = record_.next_attempt_at;
}

abbrev pub is_removed : SubscriptionRecord → Bool
is_removed s = elim s.removed_at [ none ↦ false | some _ ↦ true ]

-- The entry of the map `byID`; the ids have been found to be distinct.
abbrev pub by_id : String → List SubscriptionRecord → Option SubscriptionRecord
by_id id subscriptions = find (λ (s : SubscriptionRecord). s.id == id) subscriptions

abbrev pub due_with :
    Time → DeliveryRecord → Option SubscriptionRecord → List Delivery → List Delivery
due_with at r none rest = rest
due_with at r (some s) rest =
    if is_removed s || not (is_pending r.status) || ltb at r.next_attempt_at
    then rest
    else delivery_of r s ∷ rest

-- The loop over the records of one discussion.
unfoldable pub due_in : Time → List SubscriptionRecord → List DeliveryRecord → List Delivery
due_in at subscriptions [] = []
due_in at subscriptions (r ∷ records) =
    let rest = due_in at subscriptions records in
    due_with at r (by_id r.subscription_id subscriptions) rest

abbrev pub ahead : List Delivery → Result (List Delivery) → Result (List Delivery)
ahead found (err e) = err e
ahead found (ok rest) = ok (found ++ rest)

-- The loop over the discussions.
unfoldable pub collect_due : Time → Store → Result (List Delivery)
collect_due at [] = ok []
collect_due at ((name, d) ∷ store) =
    let rest = collect_due at store in
    if valid_subscriptions d.subscriptions && all (valid_delivery name) d.outbox
    then ahead (due_in at d.subscriptions d.outbox) rest
    else err internal

-- The order of `sort.Slice`.
unfoldable pub sooner : Delivery → Delivery → Bool
sooner a b =
    ltb a.next_attempt_at b.next_attempt_at
    || eqb a.next_attempt_at b.next_attempt_at && text_lt a.id b.id

unfoldable pub insert : Delivery → List Delivery → List Delivery
insert x [] = x ∷ []
insert x (y ∷ ys) = let rest = insert x ys in if sooner y x then y ∷ rest else x ∷ y ∷ ys

unfoldable pub sort : List Delivery → List Delivery
sort [] = []
sort (x ∷ xs) = insert x (sort xs)

abbrev pub first_of : ℕ → Result (List Delivery) → Result (List Delivery)
first_of limit (err e) = err e
first_of limit (ok due) = ok (take limit (sort due))

unfoldable pub list_due_deliveries : Time → ℤ → Store → Result (List Delivery)
list_due_deliveries at limit store =
    if exceeds limit 0 then first_of (to_nat limit) (collect_due at store) else ok []
