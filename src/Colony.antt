-- ===== src/Colony.antt =====
-- The messages of a community and their log: internal/message/message.go and store.go.
pub mod Urgency
pub mod Log
use agent_community.Common.{
  ℕ, zero, suc, ◌+◌, ◌-◌, ◌*◌, String, Bool, true, false, ◌&&◌, ◌||◌, not, Option, none, some, List,
  [], ◌∷◌, ◌++◌, all, length, drop, ltb, leb, eqb, ◌==◌, all_chars, if◌then◌else◌,
}
use agent_community.Common.Int.{is_zero, ℤ, pos, negsuc, is_negative, exceeds, to_nat}
use agent_community.Discussion.Model.{Time}
use agent_community.Watch.{Bytes, newline}
use agent_community.Watch.Lines.{split_lines}

-- A text, empty for a message without the fields of a colony.
abbrev pub MessageType : Type 0
MessageType = String

pub record Message : Type 0 where
  pub id : String
  pub timestamp : Time
  pub author : String
  pub body : String
  pub context : String
  pub type : MessageType
  pub urgency : ℤ
  pub to : String

-- The entry of the map, if there is one.
unfoldable pub default_urgency : MessageType → Option ℕ
default_urgency type =
    if type == "heartbeat"
    then some 1
    else if type == "progress"
    then some 2
    else if type == "question"
    then some 3
    else if type == "pr_ready"
    then some 4
    else if type == "blocker"
    then some 5
    else if type == "completed"
    then some 3
    else if type == "failed"
    then some 5
    else if type == "steering"
    then some 0
    else none

-- `!strings.ContainsRune(text, '\n')`
unfoldable pub one_line : String → Bool
one_line text = all_chars (λ c. not (eqb c newline)) text

unfoldable pub valid_texts : String → String → String → Bool
valid_texts author body context =
    not (author == "") && not (body == "") && one_line body && one_line context

pub record ColonyOptions : Type 0 where
  pub type : MessageType
  pub urgency : ℤ
  pub to : String

-- `none` is an error. The reading of the clock and what the ULID package draws are given.
unfoldable pub new : Time → Option String → String → String → String → Option Message
new now ulid author body context =
    if valid_texts author body context
    then elim ulid [
      | none ↦ none
      | some id ↦ some (record {
        id = id;
        timestamp = now;
        author = author;
        body = body;
        context = context;
        type = "";
        urgency = pos 0;
        to = "";
      })
    ]
    else none

abbrev pub or_default : ℤ → Option ℕ → ℤ
or_default urgency none = urgency
or_default urgency (some d) = pos d

unfoldable pub colony_urgency : ColonyOptions → ℤ
colony_urgency opts =
    if is_zero opts.urgency
    then or_default opts.urgency (default_urgency opts.type)
    else opts.urgency

unfoldable pub new_colony :
    Time → Option String → String → String → String → ColonyOptions → Option Message
new_colony now ulid author body context opts =
    if valid_texts author body context && not (is_negative opts.urgency || exceeds opts.urgency 5)
    then elim ulid [
      | none ↦ none
      | some id ↦ some (record {
        id = id;
        timestamp = now;
        author = author;
        body = body;
        context = context;
        type = opts.type;
        urgency = colony_urgency opts;
        to = opts.to;
      })
    ]
    else none

-- `json.Marshal` and `json.Unmarshal` for a message.
pub record Codec : Type 0 where
  pub encode : Message → Bytes
  pub decode : Bytes → Option Message

abbrev pub max_line : ℕ
max_line = 16 * 1024 * 1024

-- `bufio.ScanLines` takes off one carriage return.
unfoldable pub drop_return : Bytes → Bytes
drop_return [] = []
drop_return (b ∷ []) = if eqb b 13 then [] else b ∷ []
drop_return (b ∷ (c ∷ bs)) = b ∷ drop_return (c ∷ bs)

-- The tokens of the scanner: the lines, and the bytes behind the last newline if there are any.
abbrev pub with_last : List Bytes → Bytes → List Bytes
with_last lines [] = lines
with_last lines (b ∷ bs) = lines ++ (b ∷ bs) ∷ []

unfoldable pub tokens : Bytes → List Bytes
tokens file = with_last (split_lines file).0 (split_lines file).1

pub record ReadOptions : Type 0 where
  -- 0 for no lower bound
  pub since : Time
  pub limit : ℤ

abbrev pub kept_after : Time → Message → List Message → List Message
kept_after since m rest = if not (eqb since 0) && ltb m.timestamp since then rest else m ∷ rest

abbrev pub decoded_onto : Time → Option Message → Option (List Message) → Option (List Message)
decoded_onto since none rest = none
decoded_onto since (some m) none = none
decoded_onto since (some m) (some rest) = some (kept_after since m rest)

-- A file that is not there has no bytes.
abbrev pub contents : Option Bytes → Bytes
contents none = []
contents (some file) = file

abbrev pub last_of : ℤ → List Message → List Message
last_of limit out =
    if exceeds limit 0 && ltb (to_nat limit) (length out)
    then drop (length out - to_nat limit) out
    else out

abbrev pub limited : ℤ → Option (List Message) → Option (List Message)
limited limit none = none
limited limit (some out) = some (last_of limit out)

module _ (codec : Codec) where
  -- One turn of the loop, in front of those behind it.
  abbrev pub read_token : Time → Bytes → Option (List Message) → Option (List Message)
  read_token since [] rest = rest
  read_token since (b ∷ bs) rest = decoded_onto since (codec.decode (b ∷ bs)) rest

  unfoldable pub read_tokens : Time → List Bytes → Option (List Message)
  read_tokens since [] = some []
  read_tokens since (token ∷ rest) =
      let behind = read_tokens since rest in
      if ltb (length token) max_line then read_token since (drop_return token) behind else none

  -- `ReadAll`; a file that is not there is `none`, and so is the result of an error.
  unfoldable pub read_all : Option Bytes → ReadOptions → Option (List Message)
  read_all none opts = some []
  read_all (some file) opts = limited opts.limit (read_tokens opts.since (tokens file))

  -- `Append`, which makes the file where there is none.
  unfoldable pub append : Option Bytes → Message → Option Bytes
  append file m = some (contents file ++ (codec.encode m ++ newline ∷ []))
