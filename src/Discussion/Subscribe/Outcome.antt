-- ===== src/Discussion/Subscribe/Outcome.antt =====
-- The outcomes of `Subscribe`.
use agent_community.Common.{
  ℕ, ◌≡◌, ◌<◌, refl, sym, inl, String, true, false, not, [], ◌∷◌, ◌++◌, any, arith,
}
use mathlib.Core.Path.{subst}
use native.Mathlib.Nat.{le_refl}
use agent_community.Discussion.Model.{
  Time, active, DiscussionRecord, ParticipantRecord, Subscription, SubscribeInput,
  permission_subscribe,
}
use agent_community.Discussion.Exec.{
  Host, Error, internal, invalid_input, subscription_exists, Session, Dir, Exec, ◌>>=◌, ◌>>◌, pure,
  guard, gets, now, new_ulid,
}
use agent_community.Discussion.Exec.Hoare.{
  Hoare, Ensures, Hoare-bind, Hoare-guard, Hoare_given, Hoare_pre, Hoare_post, Hoare_of_Keeps,
  Keeps-new_ulid,
}
use agent_community.Discussion.Validate.{validate_subscribe_input, valid_subscriptions}
use agent_community.Discussion.Outbox.{read_subscriptions, write_subscriptions}
use agent_community.Discussion.Outbox.Frame.{Apart-suc}
use agent_community.Discussion.Access.{open_as, guard_open}
use agent_community.Discussion.Access.Opened.{
  Holds, Stopped, IsOpened, IsAt, left_of, Stopped-at_once, open_as-Hoare,
}
use agent_community.Discussion.Access.Open.{is_open, guard_open-Hoare, valid-status, still_active}
use agent_community.Discussion.Subscribe.{
  active_for, new_subscription, public_subscription, add_subscription, subscribe,
}

module _ (host : Host) (id token : String) (input : SubscribeInput) (d : Dir) (k n : ℕ) where
  -- One subscription of the participant is added, where it had no active one.
  pub record Subscribed (a : Subscription) (t : Session) : Type 0 where
    pub current : DiscussionRecord
    pub subscriber : ParticipantRecord
    pub opened : IsOpened host permission_subscribe id token d n current subscriber
    pub was_active : d.record_file.status ≡ active
    pub in_time : host.clock n < d.record_file.expires_at
    pub valid_input : validate_subscribe_input host input ≡ true
    pub none_before : any (active_for subscriber.id) d.subscriptions ≡ false
    pub stamp : Time
    pub new_id : String
    pub view : a ≡ public_subscription (new_subscription subscriber.id input stamp new_id)
    pub holds :
        Holds d.record_file d.messages
          (d.subscriptions ++ new_subscription subscriber.id input stamp new_id ∷ [])
          k
          t

  abbrev pub NotSubscribed : Error → Session → Type 0
  NotSubscribed e t = Stopped (host.clock n) d.record_file d.messages d.subscriptions k t

  abbrev Added : String → Subscription → Session → Type 0
  Added participant_id a t =
      (stamp : Time) × (new_id : String) × (any (active_for participant_id) d.subscriptions ≡ false)
      × (a ≡ public_subscription (new_subscription participant_id input stamp new_id))
      × Holds d.record_file d.messages
          (d.subscriptions ++ new_subscription participant_id input stamp new_id ∷ []) k t

  abbrev Kept : Session → Type 0
  Kept s = Holds d.record_file d.messages d.subscriptions k s

  stopped : (e : Error) (s : Session) → Kept s → NotSubscribed e s
  stopped e s h = record { current = d.record_file; left = inl refl; holds = h }

  drawing-Hoare : (t : Time) → Hoare Kept (new_ulid host t) (λ _ s. Kept s) NotSubscribed
  drawing-Hoare t =
      Hoare_post (new_ulid host t) (λ _ s h. h) stopped
        (Hoare_of_Keeps (new_ulid host t) (
          Keeps-new_ulid host t (
            Apart-suc
              (λ r' ms' subs'.
                (r' ≡ d.record_file) × (ms' ≡ d.messages) × (subs' ≡ d.subscriptions))
              k)))

  abbrev storing : String → Time → String → Exec Subscription
  storing participant_id t new_id = do
    let stored = new_subscription participant_id input t new_id
    write_subscriptions (d.subscriptions ++ stored ∷ [])
    pure (public_subscription stored)

  add_subscription-Hoare :
      (participant_id : String)
      → Hoare Kept
          (add_subscription host participant_id input d.subscriptions)
          (Added participant_id)
          NotSubscribed
  unfolding add_subscription write_subscriptions now
  add_subscription-Hoare participant_id =
      Hoare-bind (guard (not (any (active_for participant_id) d.subscriptions)) subscription_exists)
        _ (Hoare-guard _ _ (stopped subscription_exists))
        (λ _. Hoare_given _ (λ free.
          Hoare-bind {Q = λ _ s. Kept s} (now host) _ (record { at = λ s h. h })
            (λ t.
              Hoare-bind {R = Added participant_id} (new_ulid host t) (storing participant_id t)
                (drawing-Hoare t)
                (λ new_id. record {
                  at = λ s h. (t, new_id, none_found free, refl, ((h.0.0, h.0.1, refl), h.1));
                }))))
    where
      none_found :
          not (any (active_for participant_id) d.subscriptions) ≡ true
          → any (active_for participant_id) d.subscriptions ≡ false
      none_found free = ground arith

  reading-Hoare :
      Hoare Kept read_subscriptions (λ subs s. Kept s × (subs ≡ d.subscriptions)) NotSubscribed
  unfolding read_subscriptions
  reading-Hoare =
      Hoare-bind {Q = λ subs s. Kept s × (subs ≡ d.subscriptions)} (gets (λ d. d.subscriptions)) _
        (record { at = λ s h. (h, h.0.2) })
        (λ subs.
          Hoare-bind (guard (valid_subscriptions subs) internal) _
            (Hoare-guard _ internal (λ s h. stopped internal s h.0))
            (λ _. record { at = λ s h. h.0 }))

  -- The block of `Subscribe` behind the status guard.
  subscribing-Hoare :
      (participant_id : String)
      → Hoare Kept
          (read_subscriptions >>= λ subs. add_subscription host participant_id input subs)
          (Added participant_id)
          NotSubscribed
  subscribing-Hoare participant_id = Hoare-bind read_subscriptions _ reading-Hoare (λ subs.
      Hoare_given _ (λ same.
        subst
          (λ x.
            Hoare Kept (add_subscription host participant_id input x) (Added participant_id)
              NotSubscribed)
          (sym same) (add_subscription-Hoare participant_id)))

  subscribing_as :
      (r : DiscussionRecord) (p : ParticipantRecord)
      → validate_subscribe_input host input ≡ true
      → IsOpened host permission_subscribe id token d n r p
      → is_open r.status ≡ true
      → Hoare
          (λ s. Holds r d.messages d.subscriptions k s)
          (read_subscriptions >>= λ subs. add_subscription host p.id input subs)
          Subscribed
          NotSubscribed
  subscribing_as r p fine o open_ =
      let valid = valid-status host d.record_file id o.valid in
      let (same, was_active, in_time) =
        still_active (host.clock n) d.record_file r valid o.refreshed open_ in
      Hoare_pre _ (λ s h. subst (λ q. Holds q d.messages d.subscriptions k s) same h)
        (Hoare_post _
          (λ a s g. record {
            current = r;
            subscriber = p;
            opened = o;
            was_active = was_active;
            in_time = in_time;
            valid_input = fine;
            none_before = g.2;
            stamp = g.0;
            new_id = g.1;
            view = g.3;
            holds = g.4;
          })
          (λ e s h. h) (subscribing-Hoare p.id))

  subscribe-Hoare : Hoare (IsAt d k n) (subscribe host id token input) Subscribed NotSubscribed
  unfolding subscribe
  subscribe-Hoare =
      Hoare-bind (guard (validate_subscribe_input host input) invalid_input) _
        (Hoare-guard _ _ (λ s h. Stopped-at_once host permission_subscribe id token d k n s h))
        (λ _. Hoare_given _ (λ fine.
          Hoare-bind (open_as host permission_subscribe id token) _
            (open_as-Hoare host permission_subscribe id token d k n)
            (λ a.
              Hoare-bind (guard_open a.0.status) _
                (guard_open-Hoare a.0.status (λ e s h. record {
                  current = a.0;
                  left = left_of (host.clock n) d.record_file a.0 h.0.refreshed;
                  holds = h.1;
                }))
                (λ _. record { at = λ s h. (subscribing_as a.0 a.1 fine h.0.0 h.1).at s h.0.1 }))))

pub subscribe_outcome :
    (host : Host) (id token : String) (input : SubscribeInput) (s : Session)
    → Ensures
        (subscribe host id token input s).0
        (subscribe host id token input s).1
        (Subscribed host id token input s.dir s.draws s.readings)
        (NotSubscribed host id token input s.dir s.draws s.readings)
subscribe_outcome host id token input s =
    (subscribe-Hoare host id token input s.dir s.draws s.readings).at s
      (refl, le_refl s.draws, refl)
