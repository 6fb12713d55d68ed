-- ===== src/Discussion/Post/Readback.antt =====
-- Whether the log can be read again after a post.
use agent_community.Common.{
  ℕ, ◌+◌, ◌≤◌, ◌≡◌, refl, sym, ◌∙◌, ap, inl, inr, String, Bool, true, false, ◌||◌, none, some, List,
  [], ◌∷◌, ◌++◌, map, length, find, any, eqb, eqb_iff, ◌==◌, eq_iff, eq_refl, arith, if◌then◌else◌,
}
use mathlib.Core.Bool.{false≢true}
use mathlib.Core.Path.{subst}
use agent_community.Discussion.Model.{
  DiscussionRecord, ParticipantRecord, Message, MessageRecord, SubscriptionRecord, PostInput,
}
use agent_community.Discussion.Exec.{Host, ok, err, internal, Session}
use agent_community.Discussion.Exec.Hoare.{Ensures_ok}
use agent_community.Discussion.Validate.{
  validate_post_input, validate_stored_message, valid_place, valid_identity, stored_input,
  fits_earlier, valid_reply, clashes, contains_earlier_message,
}
use agent_community.Discussion.Messages.{
  read_messages, read_lines, read_line, fits_scanner, participant_ids,
}
use agent_community.Discussion.Messages.Log.{read_messages-append}
use agent_community.Discussion.Access.{holds_token}
use agent_community.Discussion.Access.Authorize.{IsBearer}
use agent_community.Discussion.Post.{find_posted, valid_reply_to, post}
use agent_community.Discussion.Post.Outcome.{IsAppended, Succeeded}
use agent_community.Discussion.Post.Allowed.{Posted, Refused, post_outcome}

-- What is relied on of the clock and of the ULID package: readings are not Go's zero time, and an
-- id drawn from now on is a text that no message of the log has.
pub record IsFresh (host : Host) (k : ℕ) (log : List MessageRecord) : Type 0 where
  pub ticking : (n : ℕ) → eqb (host.clock n) 0 ≡ false
  pub nonempty :
      (n j : ℕ) (id : String) → k ≤ j → host.ulid (host.clock n) j ≡ some id → (id == "") ≡ false
  pub unused :
      (n j : ℕ) (id : String)
      → k ≤ j
      → host.ulid (host.clock n) j ≡ some id
      → any (λ (m : MessageRecord). m.message.id == id) log ≡ false

-- A participant that is found is one of the participants.
find-participant :
    (test : ParticipantRecord → Bool) (ps : List ParticipantRecord) {p : ParticipantRecord}
    → find test ps ≡ some p
    → any (λ id. id == p.id) (map (λ (q : ParticipantRecord). q.id) ps) ≡ true
find-participant test [] {p} h = cc
find-participant test (q ∷ ps) {p} h =
    ground (arith, find-participant test ps {p = p}, eq_refl q.id)

-- Neither the id nor the key clashes with an earlier message.
no_clash :
    (m : MessageRecord) (log : List MessageRecord)
    → any (λ (e : MessageRecord). e.message.id == m.message.id) log ≡ false
    → find_posted m.message.author m.idempotency_key log ≡ none
    → any (clashes m) log ≡ false
unfolding clashes find_posted
no_clash m [] h f = refl
no_clash m (e ∷ log) h f = ground (arith, no_clash m log)

module _ (host : Host) (k : ℕ) (r : DiscussionRecord) (p : ParticipantRecord) (input : PostInput)
    (log : List MessageRecord) (m : MessageRecord) (new : IsAppended host k r p input log m)
    (fresh : IsFresh host k log) where
  place_parts :
      (m.message.id == "" ≡ false)
      × (m.message.discussion_id == r.id ≡ true)
      × (eqb m.message.sequence (1 + length log) ≡ true)
      × (eqb m.message.created_at 0 ≡ false)
  place_parts = (
    fresh.nonempty new.reading new.draw m.message.id new.draw_new new.id_drawn,
    (eq_iff m.message.discussion_id r.id).1 new.discussion,
    (eqb_iff m.message.sequence (1 + length log)).1 (omega (arith, new.sequence)),
    subst (λ t. eqb t 0 ≡ false) (sym new.created) (fresh.ticking new.reading),
  )

  place :
      any (λ id. id == p.id) (participant_ids r) ≡ true
      → valid_place m r.id (1 + length log) (participant_ids r) ≡ true
  unfolding valid_place valid_identity
  place known =
      let (f1, f2, f3, f4) = place_parts in
      let f5 = subst (λ a. any (λ id. id == a) (participant_ids r) ≡ true) (sym new.author) known in
      rw (f1, f2, f3, f4) f5

  -- The stored fields are the input.
  stored_input-eq : stored_input m ≡ input
  unfolding stored_input
  stored_input-eq =
      λ i. record { idempotency_key = new.key i; body = new.body i; reply_to = new.reply_to i }

  fits : fits_earlier m log ≡ true
  unfolding fits_earlier valid_reply valid_reply_to
  fits =
      let answers =
        subst (λ t. (t == "" || contains_earlier_message log t) ≡ true) (sym new.reply_to)
          new.answers in
      let unused = subst (λ key. find_posted p.id key log ≡ none) (sym new.key) new.unused in
      let unposted =
        subst (λ a. find_posted a m.idempotency_key log ≡ none) (sym new.author) unused in
      let id_new = fresh.unused new.reading new.draw m.message.id new.draw_new new.id_drawn in
      rw (answers, no_clash m log id_new unposted)

  validated :
      any (λ id. id == p.id) (participant_ids r) ≡ true
      → validate_post_input input ≡ true
      → validate_stored_message m r.id (1 + length log) (participant_ids r) log ≡ ok tt
  unfolding validate_stored_message
  validated known valid =
      let valid_input = subst (λ i. validate_post_input i ≡ true) (sym stored_input-eq) valid in
      rw (place known, valid_input, fits)

  -- The reader's verdict on the log with the new line is the scanner's verdict on the line.
  appended_read :
      any (λ id. id == p.id) (participant_ids r) ≡ true
      → validate_post_input input ≡ true
      → read_messages host r (log ++ m ∷ [])
        ≡ (if fits_scanner host m then ok (log ++ m ∷ []) else err internal)
  unfolding read_line read_lines
  appended_read known valid =
      read_messages-append host r log m new.readable ∙ ground (arith, validated known valid)

-- The log record of a message that was posted.
abbrev pub posted_record : PostInput → Message → MessageRecord
posted_record input m = record { message = m; idempotency_key = input.idempotency_key }

bearer_known :
    (host : Host) (token : String) (r : DiscussionRecord) (p : ParticipantRecord)
    → IsBearer host token r p
    → any (λ id. id == p.id) (participant_ids r) ≡ true
bearer_known host token r p b =
    find-participant (holds_token host b.key_id token) r.participants b.found

outcome_read :
    (host : Host) (k : ℕ) (r : DiscussionRecord) (p : ParticipantRecord) (input : PostInput)
    (log : List MessageRecord) (subs : List SubscriptionRecord) (m : Message) (t : Session)
    → any (λ id. id == p.id) (participant_ids r) ≡ true
    → validate_post_input input ≡ true
    → IsFresh host k log
    → Succeeded host k r p input log subs (m, false) t
    → read_messages host t.dir.record_file t.dir.messages
      ≡ (if fits_scanner host (posted_record input m) then ok t.dir.messages else err internal)
outcome_read host k r p input log subs m t known valid fresh (inl (m', e, _, _, _)) =
    absurd (false≢true (ap (λ (x : Message × Bool). x.1) e))
outcome_read host k r p input log subs m t known valid fresh (inr (m', e, new, holds)) =
    let same_message = ap (λ (x : Message × Bool). x.0) e in
    let same : posted_record input m ≡ m' =
      λ i. record { message = same_message i; idempotency_key = sym new.key i } in
    rw (holds.0.0, holds.0.1, same) (appended_read host k r p input log m' new fresh known valid)

-- Behind a post that has appended its message, the log is read whole if the line of the message
-- fits the scanner's buffer, and every read of it fails if not.
pub post_then_read :
    (host : Host) (id token : String) (input : PostInput) (s : Session) (m : Message)
    → IsFresh host s.draws s.dir.messages
    → (post host id token input s).0 ≡ ok (m, false)
    → let t = (post host id token input s).1 in
      read_messages host t.dir.record_file t.dir.messages
      ≡ (if fits_scanner host (posted_record input m) then ok t.dir.messages else err internal)
post_then_read host id token input s m fresh done =
    let (r, t) = post host id token input s in
    let q =
      Ensures_ok (Posted host id token input s.dir s.draws s.readings)
        (Refused host id token input s.dir s.draws s.readings) r t
        (post_outcome host id token input s) done in
    outcome_read host s.draws s.dir.record_file q.poster input s.dir.messages s.dir.subscriptions m
      t (bearer_known host token s.dir.record_file q.poster q.allowed.bearer) q.allowed.valid_input
      fresh q.outcome
