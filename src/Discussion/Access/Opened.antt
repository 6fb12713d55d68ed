-- ===== src/Discussion/Access/Opened.antt =====
-- The state in which an operation goes on once it is let in: `open_as` may have written the
-- expiry of the discussion and filled its outbox, and nothing else.
use agent_community.Common.{
  ℕ, ◌≤◌, ◌<◌, String, ◌≡◌, refl, sym, ◌∙◌, ap, ◌⊎◌, inl, inr, Bool, true, false, List, arith, ltb,
  eq_iff,
}
use mathlib.Core.Path.{subst}
use agent_community.Discussion.Model.{
  Status, active, expired, DiscussionRecord, ParticipantRecord, MessageRecord, SubscriptionRecord,
  Permission, Time,
}
use agent_community.Discussion.Exec.{
  Host, Error, forbidden, ok, Session, Dir, ◌>>=◌, pure, guard, now,
}
use agent_community.Discussion.Exec.Hoare.{
  Hoare, Hoare-bind, Hoare_intro, Hoare-guard, Hoare_given, Hoare_pre, Keeps-bind, Keeps-pure,
}
use agent_community.Discussion.Capability.{has_permission}
use agent_community.Discussion.Validate.{validate_record}
use agent_community.Discussion.Outbox.Frame.{Apart, reconcile_end_deliveries-Keeps}
use agent_community.Discussion.Access.{
  authorize, is_active, write_record, expire, refresh_status, open_as,
}
use agent_community.Discussion.Access.Authorize.{
  IsBearer, authorize-state, authorize-record, authorize-IsBearer,
}

-- The three files, whatever the outbox holds, after at least `k` draws.
abbrev pub Holds :
    DiscussionRecord → List MessageRecord → List SubscriptionRecord → ℕ → Session → Type 0
Holds r ms subs k s = Apart (λ r' ms' subs'. (r' ≡ r) × (ms' ≡ ms) × (subs' ≡ subs)) k s.dir s.draws

-- An active record whose time has come, marked as expired.
abbrev pub Expired : Time → DiscussionRecord → DiscussionRecord → Type 0
Expired at r r' = (r.status ≡ active) × (r.expires_at ≤ at) × (r' ≡ record r { status = expired })

-- What the refresh of the status makes of a record at some time: a record that is not active, or
-- whose time has not come, is as it was, and one that is active and whose time has come is expired.
abbrev pub Refreshed : Time → DiscussionRecord → DiscussionRecord → Type 0
Refreshed at r r' =
    ((r' ≡ r) × ((is_active r.status ≡ false) ⊎ (at < r.expires_at))) ⊎ Expired at r r'

-- What an error leaves, which may come before the refresh.
pub record Stopped (at : Time) (r : DiscussionRecord) (ms : List MessageRecord)
    (subs : List SubscriptionRecord) (k : ℕ) (s : Session) : Type 0 where
  pub current : DiscussionRecord
  pub left : (current ≡ r) ⊎ Expired at r current
  pub holds : Holds current ms subs k s

pub left_of : (at : Time) (r r' : DiscussionRecord) → Refreshed at r r' → (r' ≡ r) ⊎ Expired at r r'
left_of at r r' (inl (same, _)) = inl same
left_of at r r' (inr due) = inr due

module _ (host : Host) (r : DiscussionRecord) (ms : List MessageRecord)
    (subs : List SubscriptionRecord) (k n : ℕ) where
  pub expire-Holds :
      (s : Session)
      → Holds r ms subs k s
      → Holds (record r { status = expired }) ms subs k (expire host r s).1
  unfolding expire write_record
  expire-Holds s h =
      (Keeps-bind _ _
          (reconcile_end_deliveries-Keeps
            (λ r' ms' subs'. (r' ≡ record r { status = expired }) × (ms' ≡ ms) × (subs' ≡ subs)) k
            host _ _)
          (λ _. Keeps-pure (record r { status = expired }))).at
        _ ((refl, h.0.1, h.0.2), h.1)

  expire-ok :
      (s : Session) {r' : DiscussionRecord}
      → (expire host r s).0 ≡ ok r'
      → r' ≡ record r { status = expired }
  unfolding expire write_record
  expire-ok s h = ground arith

  pub is_active→eq : (st : Status) → is_active st ≡ true → st ≡ active
  unfolding is_active
  is_active→eq st h = ground arith

  -- What the refresh of the status, and all that follows it, leaves of the three files.
  abbrev RefreshedTo : DiscussionRecord → Session → Type 0
  RefreshedTo r' t = Refreshed (host.clock n) r r' × Holds r' ms subs k t

  abbrev StoppedBy : Error → Session → Type 0
  StoppedBy e t = Stopped (host.clock n) r ms subs k t

  expire-Hoare :
      r.status ≡ active
      → r.expires_at ≤ host.clock n
      → Hoare (λ s. Holds r ms subs k s) (expire host r) RefreshedTo StoppedBy
  expire-Hoare a late =
      Hoare_intro (expire host r)
        (λ s h r' e. let due = expire-ok s e in (inr (a, late, due), rw due (expire-Holds s h)))
        (λ s h _ _. record {
          current = record r { status = expired };
          left = inr (a, late, refl);
          holds = expire-Holds s h;
        })

  if_due-Hoare :
      (early : Bool)
      → ltb (host.clock n) r.expires_at ≡ early
      → r.status ≡ active
      → Hoare
          (λ s. Holds r ms subs k s)
          (elim early [ true ↦ pure r | false ↦ expire host r ])
          RefreshedTo
          StoppedBy
  if_due-Hoare true e a = record { at = λ s h. (inl (refl, inr (ground (arith, e))), h) }
  if_due-Hoare false e a = expire-Hoare a (ground (arith, e))

  -- The clock is to give its reading of number `n`.
  abbrev Waiting : Session → Type 0
  Waiting s = Holds r ms subs k s × (s.readings ≡ n)

  refresh_as :
      (b : Bool)
      → is_active r.status ≡ b
      → Hoare Waiting
          (elim b [
            | false ↦ pure r
            | true ↦ now host >>= λ t. elim (ltb t r.expires_at) [
              | true ↦ pure r
              | false ↦ expire host r
            ]
          ])
          RefreshedTo
          StoppedBy
  unfolding now
  refresh_as false e = record { at = λ s h. (inl (refl, inl e), h.0) }
  refresh_as true e =
      Hoare-bind {Q = λ t s. Holds r ms subs k s × (t ≡ host.clock n)} (now host)
        (λ t. elim (ltb t r.expires_at) [ true ↦ pure r | false ↦ expire host r ])
        (record { at = λ s h. (h.0, ap host.clock h.1) })
        (λ t. Hoare_given _ (λ read.
          subst
            (λ u.
              Hoare (λ s. Holds r ms subs k s)
                (elim (ltb u r.expires_at) [ true ↦ pure r | false ↦ expire host r ]) RefreshedTo
                StoppedBy)
            (sym read)
            (if_due-Hoare (ltb (host.clock n) r.expires_at) refl (is_active→eq r.status e))))

  pub refresh_status-Hoare : Hoare Waiting (refresh_status host r) RefreshedTo StoppedBy
  unfolding refresh_status
  refresh_status-Hoare = refresh_as (is_active r.status) refl

-- The record is that of its directory, which `writeRecord` derives from the record's id.
pub validate_record-id :
    (host : Host) (r : DiscussionRecord) (id : String)
    → validate_record host r id ≡ true
    → r.id ≡ id
unfolding validate_record
validate_record-id host r id h = ground (arith, h, eq_iff r.id id)

-- The operation goes on as participant `p`, with the record `r`, in a directory that was `d`.
pub record IsOpened (host : Host) (permission : Permission) (id token : String) (d : Dir) (n : ℕ)
    (r : DiscussionRecord) (p : ParticipantRecord) : Type 0 where
  pub valid : validate_record host d.record_file id ≡ true
  pub own_id : d.record_file.id ≡ id
  pub bearer : IsBearer host token d.record_file p
  pub permitted : has_permission p.capability permission ≡ true
  pub refreshed : Refreshed (host.clock n) d.record_file r

record Granted (host : Host) (id token : String) (d : Dir) (r : DiscussionRecord)
    (p : ParticipantRecord) : Type 0 where
  same : r ≡ d.record_file
  valid : validate_record host d.record_file id ≡ true
  bearer : IsBearer host token d.record_file p

-- The directory is `d`, after at least `k` draws and `n` readings of the clock.
abbrev pub IsAt : Dir → ℕ → ℕ → Session → Type 0
IsAt d k n t = (t.dir ≡ d) × (k ≤ t.draws) × (t.readings ≡ n)

module _ (host : Host) (permission : Permission) (id token : String) (d : Dir) (k n : ℕ) where
  abbrev GrantedTo : DiscussionRecord × ParticipantRecord → Session → Type 0
  GrantedTo a t = IsAt d k n t × Granted host id token d a.0 a.1

  abbrev pub OpenedTo : DiscussionRecord × ParticipantRecord → Session → Type 0
  OpenedTo a t =
      IsOpened host permission id token d n a.0 a.1 × Holds a.0 d.messages d.subscriptions k t

  abbrev pub StoppedAt : Error → Session → Type 0
  StoppedAt e t = Stopped (host.clock n) d.record_file d.messages d.subscriptions k t

  pub Stopped-at_once :
      (t : Session)
      → IsAt d k n t
      → Stopped (host.clock n) d.record_file d.messages d.subscriptions k t
  Stopped-at_once t h = record {
    current = d.record_file;
    left = inl refl;
    holds = (rw h.0 (refl, refl, refl), h.1);
  }

  authorize-IsAt : (s : Session) → IsAt d k n s → IsAt d k n (authorize host id token s).1
  authorize-IsAt s h = rw (authorize-state host id token s) h

  authorize-Hoare : Hoare (IsAt d k n) (authorize host id token) GrantedTo StoppedAt
  authorize-Hoare =
      Hoare_intro (authorize host id token)
        (λ s h a e.
          let (same, valid) = authorize-record host id token s e in
          let here = ap (λ (u : Dir). u.record_file) h.0 in
          (
            authorize-IsAt s h,
            record {
              same = same ∙ here;
              valid = subst (λ r. validate_record host r id ≡ true) here valid;
              bearer =
                  subst (λ r. IsBearer host token r a.1) (same ∙ here)
                    (authorize-IsBearer host id token s e);
            },
          ))
        (λ s h _ _. Stopped-at_once (authorize host id token s).1 (authorize-IsAt s h))

  refreshed_own :
      (p : ParticipantRecord)
      → Granted host id token d d.record_file p
      → has_permission p.capability permission ≡ true
      → Hoare
          (IsAt d k n)
          (refresh_status host d.record_file >>= λ r'. pure (r', p))
          OpenedTo
          StoppedAt
  refreshed_own p g permitted =
      Hoare_pre _ (λ s h. ((rw h.0 (refl, refl, refl), h.1), h.2))
        (Hoare-bind (refresh_status host d.record_file) (λ r'. pure (r', p))
          (refresh_status-Hoare host d.record_file d.messages d.subscriptions k n)
          (λ r'. record {
            at = λ t h. (
              record {
                valid = g.valid;
                own_id = validate_record-id host d.record_file id g.valid;
                bearer = g.bearer;
                permitted = permitted;
                refreshed = h.0;
              },
              h.1,
            );
          }))

  refreshed_as :
      (r : DiscussionRecord) (p : ParticipantRecord)
      → Granted host id token d r p
      → has_permission p.capability permission ≡ true
      → Hoare (IsAt d k n) (refresh_status host r >>= λ r'. pure (r', p)) OpenedTo StoppedAt
  refreshed_as r p g permitted =
      subst
        (λ r. Hoare (IsAt d k n) (refresh_status host r >>= λ r'. pure (r', p)) OpenedTo StoppedAt)
        (sym g.same)
        (refreshed_own p (record { same = refl; valid = g.valid; bearer = g.bearer }) permitted)

  -- What `open_as` establishes, and what it leaves where it fails.
  pub open_as-Hoare : Hoare (IsAt d k n) (open_as host permission id token) OpenedTo StoppedAt
  unfolding open_as
  open_as-Hoare = Hoare-bind (authorize host id token) _ authorize-Hoare (λ a. Hoare_given _ (λ g.
      Hoare-bind (guard (has_permission a.1.capability permission) forbidden) _
        (Hoare-guard _ _ Stopped-at_once) (λ _. Hoare_given _ (refreshed_as a.0 a.1 g))))
