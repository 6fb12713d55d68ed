-- ===== src/Discussion/Messages.antt =====
-- The message log of a discussion: `readMessages` of store.go, with the length that a record takes
-- as a line of messages.jsonl.
pub mod Log
use agent_community.Common.{
  ℕ, zero, suc, ◌+◌, ◌*◌, ◌/◌, String, len, code, Bool, true, false, ◌&&◌, ◌||◌, List, [], ◌∷◌,
  ◌++◌, map, ltb, leb, eqb, ◌==◌, if◌then◌else◌,
}
use Prim.Native.Char.{Char, len_utf8}
use agent_community.Discussion.Model.{
  DiscussionRecord, ParticipantRecord, Message, MessageRecord, max_body_bytes,
}
use agent_community.Discussion.Exec.{Host, Result, ok, err, internal}
use agent_community.Discussion.Validate.{validate_stored_message}

abbrev pub max_encoded_line : ℕ
max_encoded_line = max_body_bytes + 8 * 1024

-- The bytes that `json.Marshal` writes for a character: two for an escape by a letter, six for
-- `\u` escapes, which it uses for the other control characters and, by its default, for `<`, `>`
-- and `&`.
unfoldable pub short_escape : ℕ → Bool
short_escape c = eqb c 0x22 || eqb c 0x5c || leb 8 c && leb c 10 || eqb c 12 || eqb c 13

unfoldable pub long_escape : ℕ → Bool
long_escape c = ltb c 0x20 || eqb c b'<' || eqb c b'>' || eqb c b'&' || eqb c 0x2028 || eqb c 0x2029

unfoldable pub escaped_length : Char → ℕ
unfolding short_escape long_escape
escaped_length c =
    if short_escape (code c) then 2 else if long_escape (code c) then 6 else len_utf8 c

unfoldable pub content_length : String → ℕ
unfolding escaped_length
content_length String.[] = 0
content_length (String.◌∷◌ c s) = escaped_length c + content_length s

-- A text between its quotes.
abbrev pub quoted_length : String → ℕ
quoted_length s = 2 + content_length s

-- The digits of a number, with fuel that a number below 10 ^ fuel does not use up.
unfoldable pub decimal_length : ℕ → ℕ → ℕ
decimal_length zero n = 1
decimal_length (suc fuel) n = elim (ltb n 10) [
  | true ↦ 1
  | false ↦ 1 + decimal_length fuel (n / 10)
]

-- `reply_to` has the option `omitempty`.
unfoldable pub reply_length : String → ℕ
reply_length reply_to = if reply_to == "" then 0 else 12 + quoted_length reply_to

-- The bytes of `json.Marshal` for a record: braces, names, colons and commas, and the values.
unfoldable pub line_length : Host → MessageRecord → ℕ
unfolding content_length decimal_length reply_length
line_length host m =
    6
    + quoted_length m.message.id
    + (17 + quoted_length m.message.discussion_id)
    + (12 + decimal_length 20 m.message.sequence)
    + (14 + host.time_length m.message.created_at)
    + (10 + quoted_length m.message.author)
    + (8 + quoted_length m.message.body)
    + reply_length m.message.reply_to
    + (19 + quoted_length m.idempotency_key + 1)

-- The scanner's buffer holds the line with its newline.
unfoldable pub fits_scanner : Host → MessageRecord → Bool
fits_scanner host m = ltb (line_length host m) max_encoded_line

abbrev pub participant_ids : DiscussionRecord → List String
participant_ids r = map (λ (p : ParticipantRecord). p.id) r.participants

-- One turn of the scanner's loop; `line_number` is the line's, and `earlier` the messages so far.
unfoldable pub read_line :
    Host → DiscussionRecord → ℕ → List MessageRecord → MessageRecord → Result (Unit {0})
unfolding fits_scanner
read_line host r line_number earlier m =
    if fits_scanner host m
    then validate_stored_message m r.id line_number (participant_ids r) earlier
    else err internal

unfoldable pub read_lines :
    Host
    → DiscussionRecord
    → ℕ
    → List MessageRecord
    → List MessageRecord
    → Result (List MessageRecord)
read_lines host r line_number earlier [] = ok earlier
read_lines host r line_number earlier (m ∷ rest) = elim (read_line host r line_number earlier m) [
  | ok _ ↦ read_lines host r (suc line_number) (earlier ++ m ∷ []) rest
  | err e ↦ err e
]

-- `readMessages` over the records of the file.
unfoldable pub read_messages :
    Host → DiscussionRecord → List MessageRecord → Result (List MessageRecord)
unfolding read_lines
read_messages host r file = read_lines host r 1 [] file
