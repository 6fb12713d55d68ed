-- ===== src/Server.antt =====
-- What the server of discussions takes and answers: internal/communityserver/server.go.
pub mod Notifications
pub mod World
pub mod Handlers
use agent_community.Common.{
  ℕ, ◌*◌, ◌^◌, String, Bool, true, false, ◌&&◌, ◌||◌, not, Option, none, some, List, [], ◌∷◌, all,
  length, eqb, ltb, ◌==◌, strip_prefix, split, ends_in, all_chars, if◌then◌else◌,
}
use agent_community.Common.Int.{ℤ, pos, is_negative, exceeds, to_nat}
use agent_community.Discussion.Model.{
  Status, Discussion, AuthenticatedParticipant, Message, PostInput, Subscription, SubscribeInput,
  max_read_limit, Time,
}
use agent_community.Webhook.Resolve.{Network}
use agent_community.Discussion.Exec.{
  Error, unauthorized, forbidden, invalid_input, idempotency_conflict, discussion_ended,
  discussion_expired, message_limit, subscription_exists, not_exist, internal,
}

-- What `readBoundedBody` makes of a body.
pub data Body : Type 0 where
  too_large broken : Body
  whole : String → Body

-- The path is the decoded one; the query is in the order in which its map is ranged over.
pub record Request : Type 0 where
  pub method : String
  pub path : String
  pub authorization : String
  pub query : List (String × List String)
  pub body : Body

pub data Content : Type 0 where
  failure : String → Content
  healthy : String → Content
  metadata : Discussion → AuthenticatedParticipant → Content
  ended_discussion : Discussion → Content
  page : List Message → ℕ → Status → Content
  posted : Message → Content
  subscribed : Subscription → Content
  done : Content

pub record Response : Type 0 where
  pub status : ℕ
  pub content : Content

-- What the handlers take from elsewhere: `strconv.Atoi`, `time.ParseDuration` in nanoseconds,
-- `decodeStrict` for the two bodies, what the check of callbacks takes, and the clock of the process,
-- as it stands after so many readings of the store's.
pub record Outside : Type 0 where
  pub atoi : String → Option ℤ
  pub parse_duration : String → Option ℤ
  pub decode_post : String → Option PostInput
  pub decode_subscribe : String → Option SubscribeInput
  pub network : Network
  pub clock : ℕ → Time

abbrev pub write_error : ℕ → String → Response
write_error status error_code = record { status = status; content = failure error_code }

unfoldable pub write_store_error : Error → Response
write_store_error unauthorized = write_error 401 "unauthorized"
write_store_error forbidden = write_error 403 "forbidden"
write_store_error invalid_input = write_error 400 "invalid_input"
write_store_error idempotency_conflict = write_error 409 "idempotency_conflict"
write_store_error discussion_ended = write_error 409 "discussion_ended"
write_store_error discussion_expired = write_error 409 "discussion_expired"
write_store_error message_limit = write_error 409 "message_limit_reached"
write_store_error subscription_exists = write_error 409 "subscription_exists"
write_store_error not_exist = write_error 500 "internal_error"
write_store_error internal = write_error 500 "internal_error"

abbrev pub discussions_prefix : String
discussions_prefix = "/v1/discussions/"

-- The discussion, the resource and the child.
abbrev pub Target : Type 0
Target = String × String × String

abbrev pub target_of : String × List String → Option Target
target_of (id, []) = some (id, "", "")
target_of (id, resource ∷ []) = some (id, resource, "")
target_of (id, resource ∷ (child ∷ [])) =
    if resource == "subscriptions" then some (id, resource, child) else none
target_of (id, resource ∷ (child ∷ (more ∷ rest))) = none

abbrev pub parse_remainder : Option String → Option Target
parse_remainder none = none
parse_remainder (some remainder) =
    if remainder == "" || ends_in b'/' remainder then none else target_of (split b'/' remainder)

unfoldable pub parse_discussion_path : String → Option Target
parse_discussion_path path = parse_remainder (strip_prefix discussions_prefix path)

-- `!strings.ContainsAny(token, " \t\r\n")`
abbrev pub unbroken : String → Bool
unbroken token = all_chars (λ c. not (eqb c 32 || eqb c 9 || eqb c 13 || eqb c 10)) token

abbrev pub checked_token : Option String → Option String
checked_token none = none
checked_token (some token) = if token == "" || not (unbroken token) then none else some token

unfoldable pub bearer_token : String → Option String
bearer_token header = checked_token (strip_prefix "Bearer " header)

pub record ReadQuery : Type 0 where
  pub after_sequence : ℤ
  pub limit : ℤ
  -- in nanoseconds
  pub wait : ℕ

abbrev pub one_value : List String → Bool
one_value (value ∷ []) = true
one_value _ = false

abbrev pub known_key : String → Bool
known_key key = key == "after_sequence" || key == "limit" || key == "wait"

-- The check of all keys.
abbrev pub valid_query : List (String × List String) → Bool
valid_query query =
    all (λ (entry : String × List String). known_key entry.0 && one_value entry.1) query

abbrev pub first_value : List String → String
first_value [] = ""
first_value (value ∷ rest) = value

-- `query.Get`
unfoldable pub query_get : String → List (String × List String) → String
query_get key [] = ""
query_get key ((name, values) ∷ rest) =
    let behind = query_get key rest in if name == key then first_value values else behind

abbrev pub max_long_poll_wait : ℕ
max_long_poll_wait = 25 * 10 ^ 9

abbrev pub checked_sequence : Option ℤ → Option ℤ
checked_sequence none = none
checked_sequence (some value) = if is_negative value then none else some value

abbrev pub checked_limit : Option ℤ → Option ℤ
checked_limit none = none
checked_limit (some value) =
    if exceeds value 0 && not (exceeds value max_read_limit) then some value else none

abbrev pub checked_wait : Option ℤ → Option ℕ
checked_wait none = none
checked_wait (some value) =
    if exceeds value 0 && not (exceeds value max_long_poll_wait) then some (to_nat value) else none

abbrev pub read_query : Option ℤ → Option ℤ → Option ℕ → Option ReadQuery
read_query (some after_sequence) (some limit) (some wait) =
    some (record { after_sequence = after_sequence; limit = limit; wait = wait })
read_query _ _ _ = none

-- A parameter that is left out, or empty, has its default.
abbrev pub or_else : {A : Type 0} → A → String → Option A → Option A
or_else default raw value = if raw == "" then some default else value

unfoldable pub parse_read_query : Outside → List (String × List String) → Option ReadQuery
unfolding query_get
parse_read_query outside query =
    let sequence = query_get "after_sequence" query in
    let limit = query_get "limit" query in
    let wait = query_get "wait" query in
    if valid_query query
    then read_query (or_else (pos 0) sequence (checked_sequence (outside.atoi sequence)))
        (or_else (pos 50) limit (checked_limit (outside.atoi limit)))
        (or_else 0 wait (checked_wait (outside.parse_duration wait)))
    else none
