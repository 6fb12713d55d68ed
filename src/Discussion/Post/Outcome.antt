-- ===== src/Discussion/Post/Outcome.antt =====
-- The outcomes of `Post` for a participant that may post: what a success says of the log, and what
-- an error leaves of it.
use agent_community.Common.{
  ℕ, ◌+◌, ◌≤◌, ◌<◌, ◌≡◌, refl, sym, ◌∙◌, ap, ◌⊎◌, inl, inr, String, Bool, true, false, Option, none,
  some, List, [], ◌∷◌, ◌++◌, length, ltb, ltb→lt, arith,
}
use mathlib.Core.Path.{subst}
use agent_community.Discussion.Model.{
  Time, DiscussionRecord, ParticipantRecord, Message, MessageRecord, SubscriptionRecord, PostInput,
  max_messages,
}
use agent_community.Discussion.Exec.{
  Host, Error, invalid_input, message_limit, idempotency_conflict, Result, ok, Session, Exec, ◌>>=◌,
  ◌>>◌, pure, guard, gets, lift, now, new_ulid,
}
use agent_community.Discussion.Exec.Hoare.{Hoare, Hoare_intro, Hoare-bind, Hoare-guard, Hoare_given}
use agent_community.Discussion.Messages.{read_messages}
use agent_community.Discussion.Messages.Log.{read_messages-eq-file}
use agent_community.Discussion.Outbox.{reconcile_message_deliveries}
use agent_community.Discussion.Outbox.Frame.{reconcile_message_deliveries-Keeps}
use agent_community.Discussion.Access.Opened.{Holds}
use agent_community.Discussion.Post.{
  find_posted, same_content, replay, append_message, valid_reply_to, append_new, post_to,
}

-- `m` is the record that a post of `input` by `p` appends to the log, once.
pub record IsAppended (host : Host) (k : ℕ) (r : DiscussionRecord) (p : ParticipantRecord)
    (input : PostInput) (log : List MessageRecord) (m : MessageRecord) : Type 0 where
  pub readable : read_messages host r log ≡ ok log
  pub unused : find_posted p.id input.idempotency_key log ≡ none
  pub room : length log < max_messages
  pub answers : valid_reply_to input log ≡ true
  pub reading : ℕ
  pub draw : ℕ
  pub draw_new : k ≤ draw
  pub id_drawn : host.ulid (host.clock reading) draw ≡ some m.message.id
  pub created : m.message.created_at ≡ host.clock reading
  pub key : m.idempotency_key ≡ input.idempotency_key
  pub discussion : m.message.discussion_id ≡ r.id
  pub sequence : m.message.sequence ≡ length log + 1
  pub author : m.message.author ≡ p.id
  pub body : m.message.body ≡ input.body
  pub reply_to : m.message.reply_to ≡ input.reply_to

module _ (host : Host) (k : ℕ) (r : DiscussionRecord) (p : ParticipantRecord) (input : PostInput)
    (ms : List MessageRecord) (subs : List SubscriptionRecord) where
  -- The log is as it was, or holds the new message behind it.
  abbrev pub Failed : Error → Session → Type 0
  Failed e t =
      Holds r ms subs k t
      ⊎ ((m : MessageRecord) × IsAppended host k r p input ms m × Holds r (ms ++ m ∷ []) subs k t)

  -- A success is a replay of a stored message, or has appended the message.
  abbrev pub Succeeded : Message × Bool → Session → Type 0
  Succeeded a t =
      ((m : MessageRecord) × (a ≡ (m.message, true))
        × (find_posted p.id input.idempotency_key ms ≡ some m)
        × (same_content m input ≡ true)
        × Holds r ms subs k t)
      ⊎ ((m : MessageRecord) × (a ≡ (m.message, false))
          × IsAppended host k r p input ms m
          × Holds r (ms ++ m ∷ []) subs k t)

  abbrev pub Same : Session → Type 0
  Same t = Holds r ms subs k t

  reconcile_Holds :
      (log : List MessageRecord) (m : Message) (s : Session)
      → Holds r log subs k s
      → Holds r log subs k (reconcile_message_deliveries host r m s).1
  reconcile_Holds log m s h =
      (reconcile_message_deliveries-Keeps (λ r' ms' subs'. (r' ≡ r) × (ms' ≡ log) × (subs' ≡ subs))
          k host r m).at
        s h

  replay-Hoare :
      (m : MessageRecord)
      → find_posted p.id input.idempotency_key ms ≡ some m
      → Hoare Same (replay host r input m) Succeeded Failed
  unfolding replay
  replay-Hoare m found =
      Hoare-bind (guard (same_content m input) idempotency_conflict) _
        (Hoare-guard _ _ (λ s h. inl h))
        (λ _. Hoare_given _ (λ same.
          Hoare-bind {Q = λ _ t. Same t} (reconcile_message_deliveries host r m.message) _
            (Hoare_intro _ (λ s h _ _. reconcile_Holds ms m.message s h)
              (λ s h _ _. inl (reconcile_Holds ms m.message s h)))
            (λ _. record { at = λ s h. inl (m, refl, found, same, h) })))

  -- What is known when the id of the new message is drawn.
  abbrev Stamped : Time → Session → Type 0
  Stamped t s = Same s × ((n : ℕ) × (t ≡ host.clock n))

  now-Hoare : Hoare Same (now host) Stamped Failed
  unfolding now
  now-Hoare = record { at = λ s h. (h, (s.readings, refl)) }

  abbrev Drawn : Time → String → Session → Type 0
  Drawn t id s = Stamped t s × ((n : ℕ) × (k ≤ n) × (host.ulid t n ≡ some id))

  new_ulid-ok :
      (t : Time) (s : Session) {id : String}
      → (new_ulid host t s).0 ≡ ok id
      → host.ulid t s.draws ≡ some id
  unfolding new_ulid
  new_ulid-ok t s h = ground arith

  new_ulid-Same : (t : Time) (s : Session) → Same s → Same (new_ulid host t s).1
  unfolding new_ulid
  new_ulid-Same t s h = ground arith

  new_ulid-Hoare : (t : Time) → Hoare (Stamped t) (new_ulid host t) (Drawn t) Failed
  new_ulid-Hoare t =
      Hoare_intro (new_ulid host t)
        (λ s h id e. ((new_ulid-Same t s h.0, h.1), (s.draws, h.0.1, new_ulid-ok t s e)))
        (λ s h _ _. inl (new_ulid-Same t s h.0))

  append_message-Hoare :
      (m : MessageRecord)
      → Hoare Same (append_message m) (λ _ t. Holds r (ms ++ m ∷ []) subs k t) Failed
  unfolding append_message
  append_message-Hoare m = record {
    at = λ s h. ((h.0.0, ap (λ (log : List MessageRecord). log ++ m ∷ []) h.0.1, h.0.2), h.1);
  }

  appended-Hoare :
      (m : MessageRecord)
      → IsAppended host k r p input ms m
      → Hoare Same
          (append_message m
            >> (reconcile_message_deliveries host r m.message >> pure (m.message, false)))
          Succeeded
          Failed
  appended-Hoare m new = Hoare-bind (append_message m) _ (append_message-Hoare m) (λ _.
      Hoare-bind {Q = λ _ t. Holds r (ms ++ m ∷ []) subs k t}
        (reconcile_message_deliveries host r m.message) _
        (Hoare_intro _ (λ s h _ _. reconcile_Holds (ms ++ m ∷ []) m.message s h)
          (λ s h _ _. inr (m, new, reconcile_Holds (ms ++ m ∷ []) m.message s h)))
        (λ _. record { at = λ s h. inr (m, refl, new, h) }))

  -- The record that is written, from the reading of the clock and the id.
  abbrev stored : Time → String → MessageRecord
  stored t id = record {
    message = record {
      id = id;
      discussion_id = r.id;
      sequence = length ms + 1;
      created_at = t;
      author = p.id;
      body = input.body;
      reply_to = input.reply_to;
    };
    idempotency_key = input.idempotency_key;
  }

  module _ (readable : read_messages host r ms ≡ ok ms)
      (unused : find_posted p.id input.idempotency_key ms ≡ none) where
    stored-IsAppended :
        (t : Time) (id : String) (s : Session)
        → length ms < max_messages
        → valid_reply_to input ms ≡ true
        → Drawn t id s
        → IsAppended host k r p input ms (stored t id)
    stored-IsAppended t id s room answers ((same, (n, clock)), (draw, new, drawn)) = record {
      readable = readable;
      unused = unused;
      room = room;
      answers = answers;
      reading = n;
      draw = draw;
      draw_new = new;
      id_drawn = subst (λ u. host.ulid u draw ≡ some id) clock drawn;
      created = clock;
      key = refl;
      discussion = refl;
      sequence = refl;
      author = refl;
      body = refl;
      reply_to = refl;
    }

    append_new-Hoare : Hoare Same (append_new host r p input ms) Succeeded Failed
    unfolding append_new
    append_new-Hoare =
        Hoare-bind (guard (ltb (length ms) max_messages) message_limit) _
          (Hoare-guard _ _ (λ s h. inl h))
          (λ _. Hoare_given _ (λ room.
            Hoare-bind (guard (valid_reply_to input ms) invalid_input) _
              (Hoare-guard _ _ (λ s h. inl h))
              (λ _. Hoare_given _ (λ answers. Hoare-bind (now host) _ now-Hoare (λ t.
                Hoare-bind (new_ulid host t) _ (new_ulid-Hoare t) (λ id. record {
                  at = λ s h.
                      (appended-Hoare (stored t id) (
                          stored-IsAppended t id s (ltb→lt (length ms) max_messages room) answers
                            h)).at
                        s h.0.0;
                }))))))

  posted_as :
      read_messages host r ms ≡ ok ms
      → (o : Option MessageRecord) → find_posted p.id input.idempotency_key ms ≡ o
      → Hoare Same
          (elim o [ some m ↦ replay host r input m | none ↦ append_new host r p input ms ])
          Succeeded
          Failed
  posted_as readable none e = append_new-Hoare readable e
  posted_as readable (some m) e = replay-Hoare m e

  -- The part of the block behind the read of the log.
  abbrev posting : List MessageRecord → Exec (Message × Bool)
  posting messages = elim (find_posted p.id input.idempotency_key messages) [
    | some m ↦ replay host r input m
    | none ↦ append_new host r p input messages
  ]

  posting-Hoare :
      (messages : List MessageRecord)
      → read_messages host r ms ≡ ok messages
      → Hoare Same (posting messages) Succeeded Failed
  posting-Hoare messages e =
      let same = read_messages-eq-file host r ms e in
      subst (λ log. Hoare Same (posting log) Succeeded Failed) (sym same)
        (posted_as (e ∙ ap {B = Result (List MessageRecord)} ok same) _ refl)

  reading-Hoare :
      (file : List MessageRecord)
      → file ≡ ms
      → Hoare Same (lift (read_messages host r file) >>= posting) Succeeded Failed
  reading-Hoare file e =
      subst (λ log. Hoare Same (lift (read_messages host r log) >>= posting) Succeeded Failed)
        (sym e)
        (Hoare-bind {Q = λ messages t. Same t × (read_messages host r ms ≡ ok messages)}
          (lift (read_messages host r ms)) posting
          (Hoare_intro _ (λ s h _ q. (h, q)) (λ s h _ _. inl h))
          (λ messages. Hoare_given _ (posting-Hoare messages)))

  pub post_to-Hoare : Hoare Same (post_to host r p input) Succeeded Failed
  unfolding post_to
  post_to-Hoare =
      Hoare-bind {Q = λ file t. Same t × (file ≡ ms)} (gets (λ d. d.messages)) _
        (record { at = λ s h. (h, h.0.1) }) (λ file. Hoare_given _ (reading-Hoare file))
