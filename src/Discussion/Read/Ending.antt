-- ===== src/Discussion/Read/Ending.antt =====
-- The outcomes of `End`, and what follows for later posts.
use agent_community.Common.{
  ℕ, ◌≡◌, ◌≢◌, refl, sym, ◌∙◌, ap, ◌⊎◌, inl, inr, String, Bool, true, false, List, length, arith,
}
use mathlib.Core.Bool.{false≢true}
use mathlib.Core.Path.{subst}
use native.Mathlib.Nat.{le_refl}
use agent_community.Discussion.Model.{
  Status, active, ended, DiscussionRecord, Discussion, ParticipantRecord, Message, MessageRecord,
  SubscriptionRecord, PostInput, permission_manage, explicit,
}
use agent_community.Discussion.Exec.{Host, Error, ok, Session, Dir, Exec, ◌>>=◌, ◌>>◌, pure}
use agent_community.Discussion.Exec.Hoare.{
  Hoare, Ensures, Ensures_ok, Hoare_intro, Hoare-bind, Hoare_given, Hoare_post,
}
use agent_community.Discussion.Messages.{read_messages}
use agent_community.Discussion.Outbox.{reconcile_end_deliveries}
use agent_community.Discussion.Outbox.Frame.{reconcile_end_deliveries-Keeps}
use agent_community.Discussion.Access.{
  open_as, public_discussion, is_active, is_ended, write_record,
}
use agent_community.Discussion.Access.Opened.{Holds, Stopped, IsOpened, IsAt, open_as-Hoare}
use agent_community.Discussion.Post.{post}
use agent_community.Discussion.Post.Allowed.{Posted, Refused, post_outcome}
use agent_community.Discussion.Read.{messages_of, close, announce_end, end_discussion}
use agent_community.Discussion.Read.Outcome.{messages_of-Hoare}

-- The record that `End` leaves of a record: an active one is ended, any other is as it was.
abbrev pub closed : DiscussionRecord → DiscussionRecord
closed r = elim (is_active r.status) [ true ↦ record r { status = ended } | false ↦ r ]

closed_not_active : (r : DiscussionRecord) → is_active (closed r).status ≡ false
unfolding is_active
closed_not_active r = ground arith

module _ (host : Host) (ms : List MessageRecord) (subs : List SubscriptionRecord) (k : ℕ) where
  close-Hoare :
      (r : DiscussionRecord) {E : Error → Session → Type 0}
      → Hoare
          (λ s. Holds r ms subs k s)
          (close host r)
          (λ r' s. Holds (closed r) ms subs k s × (r' ≡ closed r))
          E
  unfolding close write_record
  close-Hoare r {E} =
      elim (is_active r.status)
        as (λ b.
          Hoare (λ s. Holds r ms subs k s)
            (elim b [
              | false ↦ pure r
              | true ↦
                  write_record (record r { status = ended }) >> pure (record r { status = ended })
            ])
            (λ r' s.
              Holds (elim b [ true ↦ record r { status = ended } | false ↦ r ]) ms subs k s
              × (r' ≡ (elim b [ true ↦ record r { status = ended } | false ↦ r ])))
            E) [
              | false ↦ record { at = λ s h. (h, refl) }
              | true ↦ record { at = λ s h. (((refl, h.0.1, h.0.2), h.1), refl) }
            ]

  announce_as-Hoare :
      (r : DiscussionRecord) {E : Error → Session → Type 0}
      → ((e : Error) (s : Session) → Holds r ms subs k s → E e s)
      → (b : Bool)
      → Hoare
          (λ s. Holds r ms subs k s)
          (elim b [ true ↦ reconcile_end_deliveries host r explicit | false ↦ pure tt ])
          (λ _ s. Holds r ms subs k s)
          E
  announce_as-Hoare r broken false = record { at = λ s h. h }
  announce_as-Hoare r broken true =
      Hoare_intro (reconcile_end_deliveries host r explicit) (λ s h _ _. kept s h)
        (λ s h e _. broken e _ (kept s h))
    where
      kept :
          (s : Session)
          → Holds r ms subs k s
          → Holds r ms subs k (reconcile_end_deliveries host r explicit s).1
      kept s h =
          (reconcile_end_deliveries-Keeps (λ r' ms' subs'. (r' ≡ r) × (ms' ≡ ms) × (subs' ≡ subs)) k
              host r explicit).at
            s h

  -- The block of `End` behind the authorization.
  abbrev ending : DiscussionRecord → Exec Discussion
  ending r = do
    r' ← close host r
    announce_end host r'
    messages ← messages_of host r'
    pure (public_discussion r' (length messages))

  closing-Hoare :
      (r : DiscussionRecord) {E : Error → Session → Type 0}
      → ((e : Error) (s : Session) → Holds r ms subs k s → E e s)
      → Hoare
          (λ s. Holds r ms subs k s)
          (announce_end host r
            >> (messages_of host r >>= λ messages. pure (public_discussion r (length messages))))
          (λ a s.
            Holds r ms subs k s
            × (a ≡ public_discussion r (length ms))
            × (read_messages host r ms ≡ ok ms))
          E
  unfolding announce_end
  closing-Hoare r broken =
      Hoare-bind {Q = λ _ s. Holds r ms subs k s} (announce_end host r) _
        (announce_as-Hoare r broken (is_ended r.status))
        (λ _.
          Hoare-bind (messages_of host r) _ (messages_of-Hoare host r ms subs k broken) (λ messages.
            record {
              at = λ s g. (
                g.0,
                ap (λ (log : List MessageRecord). public_discussion r (length log)) g.1.0,
                g.1.1,
              );
            }))

  ending-Hoare :
      (r : DiscussionRecord) {E : Error → Session → Type 0}
      → ((e : Error) (s : Session) → Holds (closed r) ms subs k s → E e s)
      → Hoare
          (λ s. Holds r ms subs k s)
          (ending r)
          (λ a s.
            Holds (closed r) ms subs k s
            × (a ≡ public_discussion (closed r) (length ms))
            × (read_messages host (closed r) ms ≡ ok ms))
          E
  ending-Hoare r {E} broken = Hoare-bind (close host r) _ (close-Hoare r {E = E}) (λ r'.
      Hoare_given _ (λ same.
        subst
          (λ q.
            Hoare (λ s. Holds (closed r) ms subs k s)
              (announce_end host q
                >> (messages_of host q >>= λ messages.
                    pure (public_discussion q (length messages))))
              (λ a s.
                Holds (closed r) ms subs k s
                × (a ≡ public_discussion (closed r) (length ms))
                × (read_messages host (closed r) ms ≡ ok ms))
              E)
          (sym same) (closing-Hoare (closed r) broken)))

module _ (host : Host) (id token : String) (d : Dir) (k n : ℕ) where
  -- A manager has ended the discussion, or found it ended or expired.
  pub record EndedTo (a : Discussion) (t : Session) : Type 0 where
    pub found : DiscussionRecord
    pub manager : ParticipantRecord
    pub opened : IsOpened host permission_manage id token d n found manager
    pub readable : read_messages host (closed found) d.messages ≡ ok d.messages
    pub holds : Holds (closed found) d.messages d.subscriptions k t
    pub view : a ≡ public_discussion (closed found) (length d.messages)
    pub not_active : is_active t.dir.record_file.status ≡ false

  -- An error comes before the end is written, or after it, from the outbox or the log.
  abbrev pub NotEnded : Error → Session → Type 0
  NotEnded e t =
      Stopped (host.clock n) d.record_file d.messages d.subscriptions k t
      ⊎ ((r : DiscussionRecord) × (p : ParticipantRecord) × IsOpened host permission_manage id token
            d n r p
          × Holds (closed r) d.messages d.subscriptions k t)

  ending_as :
      (r : DiscussionRecord) (p : ParticipantRecord)
      → IsOpened host permission_manage id token d n r p
      → Hoare
          (λ s. Holds r d.messages d.subscriptions k s)
          (ending host d.messages d.subscriptions k r)
          EndedTo
          NotEnded
  ending_as r p o =
      Hoare_post (ending host d.messages d.subscriptions k r)
        (λ a s g. record {
          found = r;
          manager = p;
          opened = o;
          readable = g.2;
          holds = g.0;
          view = g.1;
          not_active =
              subst (λ (q : DiscussionRecord). is_active q.status ≡ false) (sym g.0.0.0)
                (closed_not_active r);
        })
        (λ e s g. g) (ending-Hoare host d.messages d.subscriptions k r (λ e s h. inr (r, p, o, h)))

  end-Hoare : Hoare (IsAt d k n) (end_discussion host id token) EndedTo NotEnded
  unfolding end_discussion
  end-Hoare =
      Hoare-bind (open_as host permission_manage id token) _
        (Hoare_post _ (λ a s h. h) (λ e s h. inl h)
          (open_as-Hoare host permission_manage id token d k n))
        (λ a. record { at = λ s h. (ending_as a.0 a.1 h.0).at s h.1 })

-- Every outcome of `End`. A success comes only to a participant with the permission to manage: an
-- active discussion whose time has not come is ended, one whose time has come is expired, an ended
-- or expired one stays as it is, and the messages and the subscriptions do not change.
pub end_outcome :
    (host : Host) (id token : String) (s : Session)
    → Ensures
        (end_discussion host id token s).0
        (end_discussion host id token s).1
        (EndedTo host id token s.dir s.draws s.readings)
        (NotEnded host id token s.dir s.draws s.readings)
end_outcome host id token s =
    (end-Hoare host id token s.dir s.draws s.readings).at s (refl, le_refl s.draws, refl)

active_is_active : (st : Status) → st ≡ active → is_active st ≡ true
unfolding is_active
active_is_active st h = ground arith

-- Once `End` has succeeded, no post to the discussion succeeds, whoever makes it.
pub no_post_after_end :
    (host : Host) (id token : String) (s : Session) {view : Discussion}
    → (end_discussion host id token s).0 ≡ ok view
    → (token' : String) (input : PostInput) (a : Message × Bool)
    → (post host id token' input (end_discussion host id token s).1).0 ≢ ok a
no_post_after_end host id token s {view} done token' input a posted =
    let (r, t) = end_discussion host id token s in
    let closed_ =
      Ensures_ok (EndedTo host id token s.dir s.draws s.readings)
        (NotEnded host id token s.dir s.draws s.readings) r t (end_outcome host id token s) done in
    let (r', u) = post host id token' input t in
    let q =
      Ensures_ok (Posted host id token' input t.dir t.draws t.readings)
        (Refused host id token' input t.dir t.draws t.readings) r' u
        (post_outcome host id token' input t) posted in
    false≢true
      (sym closed_.not_active ∙ active_is_active t.dir.record_file.status q.allowed.is_still_active)
