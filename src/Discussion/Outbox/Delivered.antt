-- ===== src/Discussion/Outbox/Delivered.antt =====
-- What it means that each subscription has its delivery of an event, and no second.
use agent_community.Common.{
  ℕ, suc, ◌+◌, ◌≤◌, ◌<◌, ◌≡◌, refl, sym, ◌∙◌, String, true, false, some, List, [], ◌∷◌, ◌++◌,
  append-nil, append_assoc, any, all, any-append, ◌==◌, eq_iff, arith, Bool-cases, inl, inr,
  if◌then◌else◌,
}
use mathlib.Core.Path.{subst}
use agent_community.Discussion.Model.{Time, SubscriptionRecord, DeliveryRecord, Event}
use agent_community.Discussion.Exec.{Host}
use agent_community.Discussion.Outbox.{put_delivery, delivers, delivery_exists, skips}

-- An id drawn from now on is that of no delivery in the outbox.
abbrev pub FreshFrom : Host → ℕ → List DeliveryRecord → Type 0
FreshFrom host n outbox =
    (t : Time) (j : ℕ) (id : String)
    → n ≤ j
    → host.ulid t j ≡ some id
    → any (λ (d : DeliveryRecord). d.id == id) outbox ≡ false

-- Different draws give different ids.
abbrev pub DistinctDraws : Host → Type 0
DistinctDraws host =
    (t u : Time) (i j : ℕ) (a b : String)
    → i < j
    → host.ulid t i ≡ some a
    → host.ulid u j ≡ some b
    → (a == b) ≡ false

-- The file of a new id stands beside the others.
pub put_delivery-new :
    (d : DeliveryRecord) (outbox : List DeliveryRecord)
    → any (λ (e : DeliveryRecord). e.id == d.id) outbox ≡ false
    → put_delivery d outbox ≡ outbox ++ d ∷ []
unfolding put_delivery
put_delivery-new d [] h = refl
put_delivery-new d (e ∷ outbox) h = ground (arith, put_delivery-new d outbox)

-- How many deliveries of the event a subscription has.
abbrev pub deliveries_of : Event → String → List DeliveryRecord → ℕ
deliveries_of event id [] = 0
deliveries_of event id (d ∷ outbox) =
    (if delivers id event d then 1 else 0) + deliveries_of event id outbox

deliveries_of-append :
    (event : Event) (id : String) (xs ys : List DeliveryRecord)
    → deliveries_of event id (xs ++ ys) ≡ deliveries_of event id xs + deliveries_of event id ys
deliveries_of-append event id [] ys = omega arith
deliveries_of-append event id (d ∷ xs) ys = omega (arith, deliveries_of-append event id xs ys)

none_delivered :
    (event : Event) (id : String) (outbox : List DeliveryRecord)
    → delivery_exists outbox id event ≡ false
    → deliveries_of event id outbox ≡ 0
unfolding delivery_exists
none_delivered event id [] h = refl
none_delivered event id (d ∷ outbox) h = ground (arith, none_delivered event id outbox)

exists-append :
    (event : Event) (id : String) (xs ys : List DeliveryRecord)
    → delivery_exists xs id event ≡ true
    → delivery_exists (xs ++ ys) id event ≡ true
unfolding delivery_exists
exists-append event id xs ys h = ground (arith, any-append (delivers id event) xs ys)

skips-append :
    (event : Event) (s : SubscriptionRecord) (xs ys : List DeliveryRecord)
    → skips xs event s ≡ true
    → skips (xs ++ ys) event s ≡ true
unfolding skips
skips-append event s xs ys h = ground (arith, exists-append event s.id xs ys)

pub FreshFrom-next :
    (host : Host) (n j : ℕ) (t : Time) (d : DeliveryRecord) (outbox : List DeliveryRecord)
    → DistinctDraws host
    → n ≤ j
    → host.ulid t j ≡ some d.id
    → FreshFrom host n outbox
    → FreshFrom host (suc j) (outbox ++ d ∷ [])
FreshFrom-next host n j t d outbox distinct le drawn fresh u i id lt e = ground (
  arith,
  any-append (λ (x : DeliveryRecord). x.id == id) outbox (d ∷ []),
  fresh u i id (omega arith) e,
  distinct t u j i d.id id lt drawn e,
)

not_skipped :
    (event : Event) (s : SubscriptionRecord) (outbox : List DeliveryRecord)
    → skips outbox event s ≡ false
    → delivery_exists outbox s.id event ≡ false
unfolding skips
not_skipped event s outbox h = ground arith

skips_delivered :
    (event : Event) (s : SubscriptionRecord) (outbox : List DeliveryRecord) (d : DeliveryRecord)
    → delivers s.id event d ≡ true
    → skips (outbox ++ d ∷ []) event s ≡ true
unfolding skips delivery_exists
skips_delivered event s outbox d h =
    ground (arith, any-append (delivers s.id event) outbox (d ∷ []))

delivers-subscription :
    (event : Event) (id : String) (d : DeliveryRecord)
    → delivers id event d ≡ true
    → d.subscription_id ≡ id
unfolding delivers
delivers-subscription event id d h = ground (arith, eq_iff d.subscription_id id)

module _ (event : Event) where
  -- What a successful reconciliation of `event` has done for the subscriptions.
  pub record IsDelivered (subs : List SubscriptionRecord) (before after : List DeliveryRecord)
      : Type 0 where
    pub added : List DeliveryRecord
    pub extends : after ≡ before ++ added
    pub complete : all (skips after event) subs ≡ true
    pub at_most_once :
        (id : String) → deliveries_of event id before ≤ 1 → deliveries_of event id after ≤ 1

  pub nothing_to_do : (ex : List DeliveryRecord) → IsDelivered [] ex ex
  nothing_to_do ex = record {
    added = [];
    extends = sym (append-nil ex);
    complete = refl;
    at_most_once = λ _ h. h;
  }

  still_skipped :
      (s : SubscriptionRecord) (rest : List SubscriptionRecord) (ex added out : List DeliveryRecord)
      → out ≡ ex ++ added
      → skips ex event s ≡ true
      → all (skips out event) rest ≡ true
      → all (skips out event) (s ∷ rest) ≡ true
  still_skipped s rest ex added out e h c =
      let there = subst (λ o. skips o event s ≡ true) (sym e) (skips-append event s ex added h) in
      rw there c

  pub skipped :
      (s : SubscriptionRecord) (rest : List SubscriptionRecord) (ex out : List DeliveryRecord)
      → skips ex event s ≡ true
      → IsDelivered rest ex out
      → IsDelivered (s ∷ rest) ex out
  skipped s rest ex out h q = record {
    added = q.added;
    extends = q.extends;
    complete = still_skipped s rest ex q.added out q.extends h q.complete;
    at_most_once = q.at_most_once;
  }

  one_more :
      (s : SubscriptionRecord) (ex : List DeliveryRecord) (d : DeliveryRecord) (id : String)
      → skips ex event s ≡ false
      → d.subscription_id ≡ s.id
      → deliveries_of event id ex ≤ 1
      → deliveries_of event id (ex ++ d ∷ []) ≤ 1
  one_more s ex d id h own le =
      let split = deliveries_of-append event id ex (d ∷ []) in
      elim (Bool-cases (delivers id event d)) [
        | inl hit ↦
            let same = sym own ∙ delivers-subscription event id d hit in
            let fresh =
              subst (λ i. deliveries_of event i ex ≡ 0) same
                (none_delivered event s.id ex (not_skipped event s ex h)) in
            ground (arith, split, fresh, hit)
        | inr miss ↦ ground (arith, split, miss)
      ]

  pub made :
      (s : SubscriptionRecord) (rest : List SubscriptionRecord) (ex out : List DeliveryRecord)
      (d : DeliveryRecord)
      → skips ex event s ≡ false
      → d.subscription_id ≡ s.id
      → delivers s.id event d ≡ true
      → IsDelivered rest (ex ++ d ∷ []) out
      → IsDelivered (s ∷ rest) ex out
  made s rest ex out d h own there q = record {
    added = d ∷ q.added;
    extends = q.extends ∙ append_assoc ex (d ∷ []) q.added;
    complete =
        still_skipped s rest (ex ++ d ∷ []) q.added out q.extends
          (skips_delivered event s ex d there) q.complete;
    at_most_once = λ id le. q.at_most_once id (one_more s ex d id h own le);
  }
