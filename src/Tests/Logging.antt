-- ===== src/Tests/Logging.antt =====
-- A log of a colony with a message that is appended and read again.
use agent_community.Common.{
  ◌≡◌, refl, String, Option, none, some, [], ◌∷◌, eqb, ◌==◌, all_chars, length, if◌then◌else◌,
}
use agent_community.Common.Int.{pos}
use agent_community.Watch.{Bytes, newline}
use agent_community.Watch.Lines.{split_lines}
use agent_community.Colony.{
  Message, Codec, ColonyOptions, default_urgency, valid_texts, one_line, colony_urgency, new_colony,
  drop_return, tokens, read_tokens, read_all, append,
}
use agent_community.Colony.Urgency.{IsUrgent, new_colony-IsUrgent}
use agent_community.Colony.Log.{
  IsEncoded, IsEnded, appended, everything, append-read_all, AreLast, read_all-AreLast,
}

abbrev with_id : String → Message
with_id id = record {
  id = id;
  timestamp = 50;
  author = "ann";
  body = "stuck";
  context = "";
  type = "blocker";
  urgency = pos 5;
  to = "";
}

-- An encoding that keeps the identifier only, of a log with these two messages.
abbrev codec : Codec
codec = record {
  encode = λ m. if m.id == "M1" then 123 ∷ 49 ∷ 125 ∷ [] else 123 ∷ 125 ∷ [];
  decode = λ bs.
      if eqb (length bs) 3
      then some (with_id "M1")
      else if eqb (length bs) 2
      then some (with_id "M2")
      else none;
}

abbrev log : Option Bytes
log = some (123 ∷ 49 ∷ 125 ∷ newline ∷ [])

second-IsEncoded : IsEncoded codec (with_id "M2")
unfolding split_lines drop_return
second-IsEncoded = record {
  decoded = refl;
  whole = refl;
  kept = refl;
  first = 123;
  more = 125 ∷ [];
  nonempty = refl;
  fits = refl;
}

log-IsEnded : IsEnded log
unfolding split_lines
log-IsEnded = refl

append-read_all_example :
    (read_all codec (append codec log (with_id "M2")) everything
      ≡ appended (with_id "M2") (read_all codec log everything))
    × IsEnded (append codec log (with_id "M2"))
append-read_all_example = append-read_all codec (with_id "M2") log second-IsEncoded log-IsEnded

abbrev longer : Option Bytes
longer = some (123 ∷ 49 ∷ 125 ∷ newline ∷ 123 ∷ 125 ∷ newline ∷ [])

reads_both :
    read_all codec longer (record { since = 10; limit = pos 0 })
    ≡ some (with_id "M1" ∷ with_id "M2" ∷ [])
unfolding read_all tokens read_tokens split_lines drop_return
reads_both = refl

reads_last : read_all codec longer (record { since = 10; limit = pos 1 }) ≡ some (with_id "M2" ∷ [])
unfolding read_all tokens read_tokens split_lines drop_return
reads_last = refl

read_all-AreLast_example : AreLast 1 (with_id "M1" ∷ with_id "M2" ∷ []) (with_id "M2" ∷ [])
read_all-AreLast_example = read_all-AreLast codec longer 10 1 refl reads_both reads_last

abbrev blocked : ColonyOptions
blocked = record { type = "blocker"; urgency = pos 0; to = "" }

makes_blocker : new_colony 50 (some "M1") "ann" "stuck" "" blocked ≡ some (with_id "M1")
unfolding new_colony valid_texts one_line all_chars colony_urgency default_urgency
makes_blocker = refl

new_colony-IsUrgent_example : IsUrgent blocked (with_id "M1")
new_colony-IsUrgent_example =
    new_colony-IsUrgent 50 (some "M1") "ann" "stuck" "" blocked makes_blocker
