-- ===== src/Discussion/Deliveries/Due/Listed.antt =====
-- What `ListDueDeliveries` lists, and in which order.
use agent_community.Common.{
  ℕ, ◌≤◌, ◌≡◌, refl, ap, String, true, false, ◌&&◌, ◌||◌, not, inl, inr, Option, none, some, List,
  [], ◌∷◌, length, all, ltb, arith, Bool-cases, if◌then◌else◌,
}
use mathlib.Core.Path.{subst}
use agent_community.Common.Int.{ℤ, exceeds, to_nat}
use agent_community.Discussion.Model.{Time, SubscriptionRecord, DeliveryRecord, Delivery}
use agent_community.Discussion.Exec.{Result, ok, err, internal, Dir}
use agent_community.Discussion.Validate.{valid_subscriptions, valid_delivery}
use agent_community.Discussion.Deliveries.{Store}
use agent_community.Discussion.Deliveries.Due.Ordering.{
  Every, Ordered, Every-append, Every-sort, Every-take, Ordered-sort, Ordered-take, length-take,
}
use agent_community.Discussion.Deliveries.Due.{
  is_pending, delivery_of, is_removed, by_id, due_with, due_in, ahead, collect_due, sort, first_of,
  list_due_deliveries,
}

-- A discussion of the store, and a record of its outbox.
pub data Among (d : Dir) : Store → Type 0 where
  here : (name : String) (store : Store) → Among d ((name, d) ∷ store)
  later : (entry : String × Dir) (store : Store) → Among d store → Among d (entry ∷ store)

pub data Lists (r : DeliveryRecord) : List DeliveryRecord → Type 0 where
  first : (rs : List DeliveryRecord) → Lists r (r ∷ rs)
  next : (e : DeliveryRecord) (rs : List DeliveryRecord) → Lists r rs → Lists r (e ∷ rs)

-- A delivery is due: its record is pending and its time has come, and its subscription is there and
-- not removed.
pub record IsDue (at : Time) (store : Store) (x : Delivery) : Type 0 where
  pub dir : Dir
  pub among : Among dir store
  pub stored : DeliveryRecord
  pub listed : Lists stored dir.outbox
  pub subscription : SubscriptionRecord
  pub subscribed : by_id stored.subscription_id dir.subscriptions ≡ some subscription
  pub current : is_removed subscription ≡ false
  pub still_pending : is_pending stored.status ≡ true
  pub has_come : stored.next_attempt_at ≤ at
  pub same : x ≡ delivery_of stored subscription

module _ (at : Time) (store : Store) (d : Dir) (among : Among d store) where
  with-IsDue :
      (r : DeliveryRecord) (o : Option SubscriptionRecord) (rest : List Delivery)
      → by_id r.subscription_id d.subscriptions ≡ o
      → Lists r d.outbox
      → Every (IsDue at store) rest
      → Every (IsDue at store) (due_with at r o rest)
  with-IsDue r none rest e l h = h
  with-IsDue r (some s) rest e l h =
      elim (Bool-cases (is_removed s || not (is_pending r.status) || ltb at r.next_attempt_at)) [
        | inl skip ↦ rw skip h
        | inr go ↦ rw go (
          record {
            dir = d;
            among = among;
            stored = r;
            listed = l;
            subscription = s;
            subscribed = e;
            current = ground (arith, go);
            still_pending = ground (arith, go);
            has_come = ground (arith, go);
            same = refl;
          },
          h,
        )
      ]

  in-IsDue :
      (records : List DeliveryRecord)
      → ((r : DeliveryRecord) → Lists r records → Lists r d.outbox)
      → Every (IsDue at store) (due_in at d.subscriptions records)
  unfolding due_in
  in-IsDue [] within = tt
  in-IsDue (r ∷ records) within =
      with-IsDue r (by_id r.subscription_id d.subscriptions) (due_in at d.subscriptions records)
        refl (within r (first records)) (in-IsDue records (λ e l. within e (next r records l)))

-- All that a success lists is due.
abbrev GoodAt : Time → Store → Result (List Delivery) → Type 0
GoodAt at store (ok xs) = Every (IsDue at store) xs
GoodAt at store (err e) = Unit {0}

ahead-GoodAt :
    (at : Time) (store : Store) (found : List Delivery) (rest : Result (List Delivery))
    → Every (IsDue at store) found
    → GoodAt at store rest
    → GoodAt at store (ahead found rest)
ahead-GoodAt at store found (err e) h k = tt
ahead-GoodAt at store found (ok xs) h k = Every-append (IsDue at store) found xs h k

collect_due-GoodAt :
    (at : Time) (store part : Store)
    → ((d : Dir) → Among d part → Among d store)
    → GoodAt at store (collect_due at part)
unfolding collect_due
collect_due-GoodAt at store [] within = tt
collect_due-GoodAt at store ((name, d) ∷ part) within =
    elim (valid_subscriptions d.subscriptions && all (valid_delivery name) d.outbox)
      as (λ b. GoodAt at store (
        if b
        then ahead (due_in at d.subscriptions d.outbox) (collect_due at part)
        else err internal)) [
          | true ↦
              ahead-GoodAt at store (due_in at d.subscriptions d.outbox) (collect_due at part)
                (in-IsDue at store d (within d (here name part)) d.outbox (λ r l. l))
                (collect_due-GoodAt at store part (λ e a. within e (later (name, d) part a)))
          | false ↦ tt
        ]

abbrev listed_of : Result (List Delivery) → List Delivery
listed_of (ok xs) = xs
listed_of (err e) = []

first_of-ok :
    (at : Time) (store : Store) (limit : ℕ) (r : Result (List Delivery)) {due : List Delivery}
    → GoodAt at store r
    → first_of limit r ≡ ok due
    → Every (IsDue at store) due × Ordered due × (length due ≤ limit)
first_of-ok at store limit (err e) g h = absurd (ground (arith, h))
first_of-ok at store limit (ok xs) g h =
    let same = ap listed_of h in
    subst (λ ys. Every (IsDue at store) ys × Ordered ys × (length ys ≤ limit)) same
      (
        Every-take (IsDue at store) limit (sort xs) (Every-sort (IsDue at store) xs g),
        Ordered-take limit (sort xs) (Ordered-sort xs),
        length-take limit (sort xs),
      )

-- What is listed is due: its record is pending in the outbox of a discussion, its time has come,
-- and its subscription is there and not removed. The list is ordered by the times and then the ids,
-- and no longer than the limit, so empty for a limit of 0 or less.
pub list_due_deliveries-IsDue :
    (at : Time) (limit : ℤ) (store : Store) {due : List Delivery}
    → list_due_deliveries at limit store ≡ ok due
    → Every (IsDue at store) due × Ordered due × (length due ≤ to_nat limit)
unfolding list_due_deliveries
list_due_deliveries-IsDue at limit store {due} h = elim (Bool-cases (exceeds limit 0)) [
  | inl positive ↦
      first_of-ok at store (to_nat limit) (collect_due at store)
        (collect_due-GoodAt at store store (λ d a. a)) (ground (arith, h, positive))
  | inr none_ ↦
      let empty : [] ≡ due = ap listed_of (
        subst (λ b. (if b then first_of (to_nat limit) (collect_due at store) else ok []) ≡ ok due)
          none_ h) in
      subst (λ ys. Every (IsDue at store) ys × Ordered ys × (length ys ≤ to_nat limit)) empty
        (tt, tt, omega arith)
]
