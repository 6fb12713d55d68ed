-- ===== src/Discussion/Subscribe/Removal.antt =====
-- The outcomes of `Unsubscribe`.
use agent_community.Common.{
  ◌≡◌, refl, sym, ◌∙◌, ap, String, Bool, true, false, not, ◌&&◌, some, List, [], ◌∷◌, any, map,
  ◌==◌, arith, if◌then◌else◌,
}
use mathlib.Core.Path.{subst}
use agent_community.Discussion.Model.{
  Time, DiscussionRecord, ParticipantRecord, SubscriptionRecord, permission_subscribe,
}
use agent_community.Discussion.Exec.{
  Host, Error, Result, ok, err, Session, Dir, Exec, ◌>>=◌, ◌>>◌, now, forbidden, internal, pure,
  guard, gets,
}
use agent_community.Discussion.Exec.Hoare.{
  Hoare, Ensures, Hoare_intro, Ensures_ok, Hoare-bind, Hoare-guard, Hoare_given,
}
use agent_community.Discussion.Capability.{has_permission}
use agent_community.Discussion.Validate.{valid_subscriptions}
use agent_community.Discussion.Outbox.{read_subscriptions, write_subscriptions}
use agent_community.Discussion.Access.{authorize}
use agent_community.Discussion.Access.Authorize.{
  IsBearer, authorize-state, authorize-record, authorize-IsBearer,
}
use agent_community.Discussion.Subscribe.{foreign, removable, remove_by_id, unsubscribe, is_current}

-- The participant's subscription of that id is marked, and no other.
abbrev pub removed : Time → String → String → SubscriptionRecord → SubscriptionRecord
removed t id participant_id s =
    if s.id == id && s.participant_id == participant_id && is_current s
    then record s { removed_at = some t }
    else s

removes-own :
    (t : Time) (id participant_id : String) (subs : List SubscriptionRecord)
    → any (foreign id participant_id) subs ≡ false
    → remove_by_id t id subs ≡ map (removed t id participant_id) subs
unfolding remove_by_id
removes-own t id participant_id [] h = refl
removes-own t id participant_id (s ∷ subs) h = ground (arith, removes-own t id participant_id subs)

removes-none :
    (t : Time) (id participant_id : String) (subs : List SubscriptionRecord)
    → any (removable id) subs ≡ false
    → map (removed t id participant_id) subs ≡ subs
removes-none t id participant_id [] h = refl
removes-none t id participant_id (s ∷ subs) h =
    ground (arith, removes-none t id participant_id subs)

none_left :
    (t : Time) (id participant_id : String) (subs : List SubscriptionRecord)
    → any (foreign id participant_id) subs ≡ false
    → any (removable id) (map (removed t id participant_id) subs) ≡ false
none_left t id participant_id [] h = refl
none_left t id participant_id (s ∷ subs) h = ground (arith, none_left t id participant_id subs)

module _ (host : Host) (discussion_id token id : String) (d : Dir) where
  -- Only subscriptions of the participant have been marked, and none of that id is active any more.
  pub record Unsubscribed (a : Unit {0}) (t : Session) : Type 0 where
    pub subscriber : ParticipantRecord
    pub bearer : IsBearer host token d.record_file subscriber
    pub permitted : has_permission subscriber.capability permission_subscribe ≡ true
    pub stamp : Time
    pub same_but :
        t.dir ≡ record d { subscriptions = map (removed stamp id subscriber.id) d.subscriptions }
    pub gone : any (removable id) t.dir.subscriptions ≡ false

  abbrev pub NotUnsubscribed : Error → Session → Type 0
  NotUnsubscribed e t = t.dir ≡ d

  abbrev Here : Session → Type 0
  Here s = s.dir ≡ d

  abbrev Bearing : DiscussionRecord × ParticipantRecord → Session → Type 0
  Bearing a s = Here s × IsBearer host token d.record_file a.1

  authorize-Hoare : Hoare Here (authorize host discussion_id token) Bearing NotUnsubscribed
  authorize-Hoare =
      Hoare_intro (authorize host discussion_id token)
        (λ s h a e. (
          ap (λ (u : Session). u.dir) (authorize-state host discussion_id token s) ∙ h,
          subst (λ r. IsBearer host token r a.1)
              ((authorize-record host discussion_id token s e).0
                ∙ ap (λ (u : Dir). u.record_file) h)
              (authorize-IsBearer host discussion_id token s e),
        ))
        (λ s h e _. ap (λ (u : Session). u.dir) (authorize-state host discussion_id token s) ∙ h)

  reading-Hoare :
      Hoare Here read_subscriptions (λ subs s. Here s × (subs ≡ d.subscriptions)) NotUnsubscribed
  unfolding read_subscriptions
  reading-Hoare =
      Hoare-bind {Q = λ subs s. Here s × (subs ≡ d.subscriptions)} (gets (λ d. d.subscriptions)) _
        (record { at = λ s h. (h, ap (λ (u : Dir). u.subscriptions) h) })
        (λ subs.
          Hoare-bind (guard (valid_subscriptions subs) internal) _
            (Hoare-guard _ internal (λ s h. h.0)) (λ _. record { at = λ s h. h.0 }))

  -- The loop and the write behind it.
  abbrev marking : Time → Bool → Exec (Unit {0})
  marking t changed = elim changed [
    | true ↦ write_subscriptions (remove_by_id t id d.subscriptions)
    | false ↦ pure tt
  ]

  module _ (p : ParticipantRecord) (bearer : IsBearer host token d.record_file p)
      (permitted : has_permission p.capability permission_subscribe ≡ true) (t : Time)
      (own : any (foreign id p.id) d.subscriptions ≡ false) where
    marking-Hoare :
        (changed : Bool)
        → any (removable id) d.subscriptions ≡ changed
        → Hoare Here (marking t changed) Unsubscribed NotUnsubscribed
    unfolding write_subscriptions
    marking-Hoare true e = record {
      at = λ s h. record {
        subscriber = p;
        bearer = bearer;
        permitted = permitted;
        stamp = t;
        same_but =
            λ i. record (h i) { subscriptions = removes-own t id p.id d.subscriptions own i };
        gone =
            rw (removes-own t id p.id d.subscriptions own)
              (none_left t id p.id d.subscriptions own);
      };
    }
    marking-Hoare false e = record {
      at = λ s h. record {
        subscriber = p;
        bearer = bearer;
        permitted = permitted;
        stamp = t;
        same_but =
            h
            ∙ (λ i. record d { subscriptions = sym (removes-none t id p.id d.subscriptions e) i });
        gone = rw h e;
      };
    }

  own_of :
      (p : ParticipantRecord)
      → not (any (foreign id p.id) d.subscriptions) ≡ true
      → any (foreign id p.id) d.subscriptions ≡ false
  own_of p h = ground arith

  abbrev removing : ParticipantRecord → List SubscriptionRecord → Exec (Unit {0})
  removing p subs = do
    t ← now host
    guard (not (any (foreign id p.id) subs)) forbidden
    elim (any (removable id) subs) [
      | true ↦ write_subscriptions (remove_by_id t id subs)
      | false ↦ pure tt
    ]

  removing-Hoare :
      (p : ParticipantRecord)
      → IsBearer host token d.record_file p
      → has_permission p.capability permission_subscribe ≡ true
      → Hoare Here (removing p d.subscriptions) Unsubscribed NotUnsubscribed
  unfolding now
  removing-Hoare p bearer permitted =
      Hoare-bind {Q = λ _ s. Here s} (now host) _ (record { at = λ s h. h })
        (λ t.
          Hoare-bind (guard (not (any (foreign id p.id) d.subscriptions)) forbidden) _
            (Hoare-guard _ forbidden (λ s h. h))
            (λ _. Hoare_given _ (λ own.
              marking-Hoare p bearer permitted t (own_of p own) (any (removable id) d.subscriptions)
                refl)))

  unsubscribe-Hoare :
      Hoare Here (unsubscribe host discussion_id token id) Unsubscribed NotUnsubscribed
  unfolding unsubscribe
  unsubscribe-Hoare = Hoare-bind (authorize host discussion_id token) _ authorize-Hoare (λ a.
      Hoare_given _ (λ bearer.
        Hoare-bind (guard (has_permission a.1.capability permission_subscribe) forbidden) _
          (Hoare-guard _ forbidden (λ s h. h))
          (λ _. Hoare_given _ (λ permitted.
            Hoare-bind read_subscriptions (removing a.1) reading-Hoare (λ subs.
              Hoare_given _ (λ same.
                subst (λ x. Hoare Here (removing a.1 x) Unsubscribed NotUnsubscribed) (sym same)
                  (removing-Hoare a.1 bearer permitted)))))))

-- Every outcome of `Unsubscribe`. A success comes only to a participant with the permission: the
-- participant's own subscription of that id is marked as removed, every other one stays as it is,
-- nothing else changes, and none of that id is active. An error changes nothing.
pub unsubscribe_outcome :
    (host : Host) (discussion_id token id : String) (s : Session)
    → Ensures
        (unsubscribe host discussion_id token id s).0
        (unsubscribe host discussion_id token id s).1
        (Unsubscribed host discussion_id token id s.dir)
        (NotUnsubscribed host discussion_id token id s.dir)
unsubscribe_outcome host discussion_id token id s =
    (unsubscribe-Hoare host discussion_id token id s.dir).at s refl

-- To unsubscribe a second time changes nothing.
pub unsubscribe_again :
    (host : Host) (discussion_id token id : String) (s : Session)
    → (unsubscribe host discussion_id token id s).0 ≡ ok tt
    → let t = (unsubscribe host discussion_id token id s).1 in
      (unsubscribe host discussion_id token id t).1.dir ≡ t.dir
unsubscribe_again host discussion_id token id s done =
    let (first, t) = unsubscribe host discussion_id token id s in
    let (second, u) = unsubscribe host discussion_id token id t in
    let gone =
      (Ensures_ok (Unsubscribed host discussion_id token id s.dir)
        (NotUnsubscribed host discussion_id token id s.dir) first t
        (unsubscribe_outcome host discussion_id token id s) done).gone in
    go t gone second u (unsubscribe_outcome host discussion_id token id t)
  where
    go :
        (t : Session)
        → any (removable id) t.dir.subscriptions ≡ false
        → (r : Result (Unit {0})) (u : Session)
        → Ensures r u
            (Unsubscribed host discussion_id token id t.dir)
            (NotUnsubscribed host discussion_id token id t.dir)
        → u.dir ≡ t.dir
    go t gone (ok a) u g = g.same_but ∙ (λ i. record t.dir {
      subscriptions = removes-none g.stamp id g.subscriber.id t.dir.subscriptions gone i;
    })
    go t gone (err e) u g = g
