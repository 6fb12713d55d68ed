-- ===== src/Discussion/Read.antt =====
-- `Read`, `Get` and `End` of store.go.
pub mod Window
pub mod Outcome
pub mod Ending
use agent_community.Common.{
  ℕ, String, Bool, true, false, ◌&&◌, ◌||◌, not, List, [], ◌∷◌, ◌++◌, length, ltb, leb, eqb,
}
use agent_community.Common.Int.{ℤ, is_negative, to_nat, exceeds}
use agent_community.Discussion.Model.{
  DiscussionRecord, Discussion, ended, AuthenticatedParticipant, Message, MessageRecord,
  ReadOptions, permission_read, permission_manage, max_read_limit, explicit,
}
use agent_community.Discussion.Exec.{
  Host, invalid_input, Exec, ◌>>=◌, ◌>>◌, pure, lift, guard, gets,
}
use agent_community.Discussion.Messages.{read_messages}
use agent_community.Discussion.Outbox.{reconcile_end_deliveries}
use agent_community.Discussion.Access.{
  authorize, open_as, is_active, is_ended, public_discussion, write_record,
}

-- The loop of `Read`, which stops when a positive limit is reached.
unfoldable pub read_loop : ℕ → ℕ → List Message → List MessageRecord → List Message
read_loop cursor limit filtered [] = filtered
read_loop cursor limit filtered (m ∷ rest) = elim (leb m.message.sequence cursor) [
  | true ↦ read_loop cursor limit filtered rest
  | false ↦
      let more = filtered ++ m.message ∷ [] in
      elim (ltb 0 limit && eqb (length more) limit) [
        | true ↦ more
        | false ↦ read_loop cursor limit more rest
      ]
]

unfoldable pub valid_read_options : ReadOptions → Bool
valid_read_options opts =
    not (
      is_negative opts.after_sequence
      || is_negative opts.limit
      || exceeds opts.limit max_read_limit)

module _ (host : Host) where
  unfoldable pub messages_of : DiscussionRecord → Exec (List MessageRecord)
  messages_of r = do file ← gets (λ d. d.messages); lift (read_messages host r file)

  unfoldable pub read : String → String → ReadOptions → Exec (List Message × Discussion)
  read discussion_id token opts = do
    guard (valid_read_options opts) invalid_input
    (r, p) ← open_as host permission_read discussion_id token
    messages ← messages_of r
    pure (
      read_loop (to_nat opts.after_sequence) (to_nat opts.limit) [] messages,
      public_discussion r (length messages),
    )

  unfoldable pub get : String → String → Exec (Discussion × AuthenticatedParticipant)
  get discussion_id token = do
    (r, p) ← open_as host permission_read discussion_id token
    messages ← messages_of r
    pure (
      public_discussion r (length messages),
      record { id = p.id; permissions = p.capability.permissions },
    )

  -- `if record.Status == StatusActive { … }`
  unfoldable pub close : DiscussionRecord → Exec DiscussionRecord
  close r = elim (is_active r.status) [
    | false ↦ pure r
    | true ↦ do let r' = record r { status = ended }; write_record r'; pure r'
  ]

  unfoldable pub announce_end : DiscussionRecord → Exec (Unit {0})
  announce_end r = elim (is_ended r.status) [
    | true ↦ reconcile_end_deliveries host r explicit
    | false ↦ pure tt
  ]

  unfoldable pub end_discussion : String → String → Exec Discussion
  end_discussion discussion_id token = do
    (r, p) ← open_as host permission_manage discussion_id token
    r' ← close r
    announce_end r'
    messages ← messages_of r'
    pure (public_discussion r' (length messages))
