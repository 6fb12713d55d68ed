-- ===== src/Discussion/Subscribe/Single.antt =====
-- No participant comes to have two active subscriptions.
use agent_community.Common.{
  ℕ, ◌+◌, ◌≤◌, ◌≡◌, refl, sym, inl, inr, String, false, List, [], ◌∷◌, ◌++◌, any, ◌==◌, eq_iff,
  arith, Bool-cases, if◌then◌else◌,
}
use mathlib.Core.Path.{subst}
use agent_community.Discussion.Model.{Time, SubscriptionRecord, Subscription, SubscribeInput}
use agent_community.Discussion.Exec.{Host, Result, ok, err, Session}
use agent_community.Discussion.Exec.Hoare.{Ensures}
use agent_community.Discussion.Subscribe.{active_for, new_subscription, subscribe}
use agent_community.Discussion.Subscribe.Outcome.{Subscribed, NotSubscribed, subscribe_outcome}

-- How many active subscriptions a participant has.
abbrev pub active_count : String → List SubscriptionRecord → ℕ
active_count participant_id [] = 0
active_count participant_id (s ∷ rest) =
    (if active_for participant_id s then 1 else 0) + active_count participant_id rest

none_active :
    (participant_id : String) (subs : List SubscriptionRecord)
    → any (active_for participant_id) subs ≡ false
    → active_count participant_id subs ≡ 0
none_active participant_id [] h = refl
none_active participant_id (s ∷ subs) h = ground (arith, none_active participant_id subs)

active_count-append :
    (participant_id : String) (xs ys : List SubscriptionRecord)
    → active_count participant_id (xs ++ ys)
      ≡ active_count participant_id xs + active_count participant_id ys
active_count-append participant_id [] ys = omega arith
active_count-append participant_id (x ∷ xs) ys =
    omega (arith, active_count-append participant_id xs ys)

-- The new subscription counts for its own participant, who had none.
one_active_more :
    (participant_id q : String) (subs : List SubscriptionRecord) (input : SubscribeInput) (t : Time)
    (new_id : String)
    → any (active_for participant_id) subs ≡ false
    → active_count q subs ≤ 1
    → active_count q (subs ++ new_subscription participant_id input t new_id ∷ []) ≤ 1
one_active_more participant_id q subs input t new_id free le =
    let split = active_count-append q subs (new_subscription participant_id input t new_id ∷ []) in
    elim (Bool-cases (participant_id == q)) [
      | inl same ↦
          let fresh =
            subst (λ i. active_count i subs ≡ 0) ((eq_iff participant_id q).0 same)
              (none_active participant_id subs free) in
          ground (arith, split, fresh, same)
      | inr differ ↦ ground (arith, split, differ)
    ]

-- No participant comes to have two active subscriptions by `Subscribe`, whatever its outcome.
pub subscribe_one_active :
    (host : Host) (id token : String) (input : SubscribeInput) (s : Session)
    → ((q : String) → active_count q s.dir.subscriptions ≤ 1)
    → (q : String) → active_count q (subscribe host id token input s).1.dir.subscriptions ≤ 1
subscribe_one_active host id token input s one q =
    go (subscribe host id token input s).0 (subscribe host id token input s).1
      (subscribe_outcome host id token input s)
  where
    go :
        (r : Result Subscription) (t : Session)
        → Ensures r t
            (Subscribed host id token input s.dir s.draws s.readings)
            (NotSubscribed host id token input s.dir s.draws s.readings)
        → active_count q t.dir.subscriptions ≤ 1
    go (ok a) t g =
        subst (λ subs. active_count q subs ≤ 1) (sym g.holds.0.2)
          (one_active_more g.subscriber.id q s.dir.subscriptions input g.stamp g.new_id
            g.none_before (one q))
    go (err e) t g = subst (λ subs. active_count q subs ≤ 1) (sym g.holds.0.2) (one q)
