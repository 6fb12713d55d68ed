-- ===== src/Discussion/Read/Outcome.antt =====
-- The outcomes of `Read` and `Get`.
use agent_community.Common.{ℕ, ◌≡◌, sym, ◌∙◌, ap, String, true, List, drop, length}
use mathlib.Core.Path.{subst}
use agent_community.Common.Int.{to_nat}
use agent_community.Discussion.Model.{
  DiscussionRecord, Discussion, ParticipantRecord, AuthenticatedParticipant, Message, MessageRecord,
  SubscriptionRecord, ReadOptions, Permission, permission_read,
}
use agent_community.Discussion.Exec.{Host, Error, Result, ok, Session, Dir, lift, gets}
use agent_community.Discussion.Exec.Hoare.{Hoare, Hoare_intro, Hoare-bind, Hoare_given}
use agent_community.Discussion.Messages.{read_messages}
use agent_community.Discussion.Messages.Log.{read_messages-eq-file}
use agent_community.Discussion.Access.{public_discussion}
use agent_community.Discussion.Access.Opened.{Holds, Stopped, IsOpened}
use agent_community.Discussion.Read.{valid_read_options, messages_of}
use agent_community.Discussion.Read.Window.{messages_in, at_most}

module _ (host : Host) (r : DiscussionRecord) (ms : List MessageRecord)
    (subs : List SubscriptionRecord) (k : ℕ) {E : Error → Session → Type 0}
    (broken : (e : Error) (s : Session) → Holds r ms subs k s → E e s) where
  abbrev AsIs : Session → Type 0
  AsIs s = Holds r ms subs k s

  abbrev Readable : List MessageRecord → Session → Type 0
  Readable messages s = AsIs s × ((messages ≡ ms) × (read_messages host r ms ≡ ok ms))

  lift-Hoare :
      (file : List MessageRecord)
      → file ≡ ms
      → Hoare AsIs (lift (read_messages host r file)) Readable E
  lift-Hoare file e =
      subst (λ log. Hoare AsIs (lift (read_messages host r log)) Readable E) (sym e)
        (Hoare_intro (lift (read_messages host r ms))
          (λ s h messages q.
            let same = read_messages-eq-file host r ms q in
            (h, (same, q ∙ ap {B = Result (List MessageRecord)} ok same)))
          (λ s h e _. broken e s h))

  -- The log as the reader accepts it.
  pub messages_of-Hoare : Hoare AsIs (messages_of host r) Readable E
  unfolding messages_of
  messages_of-Hoare =
      Hoare-bind {Q = λ file s. AsIs s × (file ≡ ms)} (gets (λ d. d.messages)) _
        (record { at = λ s h. (h, h.0.1) }) (λ file. Hoare_given _ (lift-Hoare file))

module _ (host : Host) (id token : String) (d : Dir) (k n : ℕ) where
  -- A reader that was let in, with the record as it then stood in the file, and a readable log.
  pub record HasRead (permission : Permission) (r : DiscussionRecord) (p : ParticipantRecord)
      (t : Session) : Type 0 where
    pub opened : IsOpened host permission id token d n r p
    pub readable : read_messages host r d.messages ≡ ok d.messages
    pub holds : Holds r d.messages d.subscriptions k t

  pub record ReadTo (opts : ReadOptions) (a : List Message × Discussion) (t : Session)
      : Type 0 where
    pub current : DiscussionRecord
    pub reader : ParticipantRecord
    pub has_read : HasRead permission_read current reader t
    pub valid_options : valid_read_options opts ≡ true
    pub window :
        a.0
        ≡ messages_in (at_most (to_nat opts.limit) (drop (to_nat opts.after_sequence) d.messages))
    pub view : a.1 ≡ public_discussion current (length d.messages)

  pub record GotTo (a : Discussion × AuthenticatedParticipant) (t : Session) : Type 0 where
    pub current : DiscussionRecord
    pub reader : ParticipantRecord
    pub has_read : HasRead permission_read current reader t
    pub view : a.0 ≡ public_discussion current (length d.messages)
    pub self : a.1 ≡ record { id = reader.id; permissions = reader.capability.permissions }

  abbrev pub Gone : Error → Session → Type 0
  Gone e t = Stopped (host.clock n) d.record_file d.messages d.subscriptions k t
