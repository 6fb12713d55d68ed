-- ===== src/Server/Handlers.antt =====
-- The handlers of the server, `ServeHTTP` and what it calls, over the directories of all discussions.
pub mod Polling
pub mod Posting
use agent_community.Common.{
  ℕ, zero, suc, ◌-◌, String, len, Bool, true, false, ◌&&◌, ◌||◌, not, Option, none, some, List, [],
  ◌∷◌, eqb, ltb, leb, ◌==◌, if◌then◌else◌,
}
use agent_community.Common.Int.{pos, is_negative, exceeds, to_nat}
use agent_community.Discussion.Model.{
  Discussion, AuthenticatedParticipant, Message, Subscription, PostInput, SubscribeInput,
  ReadOptions, max_body_bytes,
}
use agent_community.Discussion.Exec.{
  Error, unauthorized, invalid_input, Result, ok, err, Host, Dir, Session, Exec,
}
use agent_community.Discussion.Validate.{validate_post_input, validate_subscribe_input}
use agent_community.Discussion.Access.{is_active}
use agent_community.Discussion.Deliveries.{Store}
use agent_community.Discussion.Post.{post}
use agent_community.Discussion.Read.{valid_read_options, read, get, end_discussion}
use agent_community.Discussion.Subscribe.{subscribe, unsubscribe}
use agent_community.Server.{
  Body, Request, Content, Response, Outside, Target, ReadQuery, write_error, write_store_error,
  parse_discussion_path, bearer_token, parse_read_query,
}
use agent_community.Webhook.Resolve.{resolve_webhook_url, validate_webhook_url}
use agent_community.Server.World.{
  World, find_dir, put_dir, missing, with_session, ran_in, within, notified, registered,
}
use agent_community.Server.Notifications.{Registry, notification, notify}

-- `none` is a request that was given up by its sender, and is not answered.
abbrev pub Answer : Type 0
Answer = Option Response × World

abbrev pub answer : ℕ → Content → World → Answer
answer status content w = (some (record { status = status; content = content }), w)

abbrev pub refuse : ℕ → String → World → Answer
refuse status error_code w = (some (write_error status error_code), w)

-- How a wait ends.
pub data Wake : Type 0 where
  woken timed_out cancelled : Wake

-- What happens in a wait of some nanoseconds, in other requests and to this one.
abbrev pub Meanwhile : Type 0
Meanwhile = ℕ → World → Wake × World

abbrev pub post_answer : String → Result (Message × Bool) × World → Answer
post_answer id (err e, w) = (some (write_store_error e), w)
post_answer id (ok (m, true), w) = answer 200 (Content.posted m) w
post_answer id (ok (m, false), w) = answer 201 (Content.posted m) (notified id w)

abbrev pub subscribe_answer : Result Subscription × World → Answer
subscribe_answer (err e, w) = (some (write_store_error e), w)
subscribe_answer (ok s, w) = answer 201 (Content.subscribed s) w

abbrev pub unsubscribe_answer : Result (Unit {0}) × World → Answer
unsubscribe_answer (err e, w) = (some (write_store_error e), w)
unsubscribe_answer (ok _, w) = answer 200 Content.done w

abbrev pub get_answer : Result (Discussion × AuthenticatedParticipant) × World → Answer
get_answer (err e, w) = (some (write_store_error e), w)
get_answer (ok (d, self), w) = answer 200 (Content.metadata d self) w

abbrev pub end_answer : String → Result Discussion × World → Answer
end_answer id (err e, w) = (some (write_store_error e), w)
end_answer id (ok d, w) = answer 200 (Content.ended_discussion d) (notified id w)

abbrev pub nonempty : List Message → Bool
nonempty [] = false
nonempty (m ∷ ms) = true

abbrev pub page_answer : List Message → Discussion → World → Answer
page_answer messages d w = answer 200 (Content.page messages d.last_sequence d.status) w

abbrev pub after_wait : (World → Option Answer) → Wake × World → Option Answer
after_wait next (cancelled, w) = some (none, w)
after_wait next (_, w) = next w

abbrev pub polled : World → Option Answer → Answer
polled w none = (none, w)
polled w (some a) = a

module _ (host : Host) (outside : Outside) where
  abbrev pub post_decoded : String → String → World → Option PostInput → Answer
  post_decoded id token w none = refuse 400 "invalid_body" w
  post_decoded id token w (some input) =
      if ltb max_body_bytes (len input.body)
      then refuse 413 "message_too_large" w
      else post_answer id (within id (validate_post_input input) (post host id token input) w)

  unfoldable pub handle_post_message : String → String → Body → World → Answer
  unfolding within
  handle_post_message id token Body.too_large w = refuse 413 "request_too_large" w
  handle_post_message id token Body.broken w = refuse 400 "invalid_body" w
  handle_post_message id token (Body.whole data_) w =
      post_decoded id token w (outside.decode_post data_)

  abbrev pub subscribe_decoded : String → String → World → Option SubscribeInput → Answer
  subscribe_decoded id token w none = refuse 400 "invalid_body" w
  subscribe_decoded id token w (some input) =
      if validate_webhook_url outside.network input.callback_url
      then subscribe_answer
          (within id (validate_subscribe_input host input) (subscribe host id token input) w)
      else refuse 400 "unsafe_callback_url" w

  abbrev pub subscribe_body : String → String → Body → World → Answer
  subscribe_body id token (Body.whole data_) w =
      subscribe_decoded id token w (outside.decode_subscribe data_)
  subscribe_body id token _ w = refuse 400 "invalid_body" w

  unfoldable pub handle_subscriptions : String → String → String → Request → World → Answer
  unfolding within
  handle_subscriptions id child token r w =
      if child == ""
      then if r.method == "POST"
        then subscribe_body id token r.body w
        else refuse 405 "method_not_allowed" w
      else if r.method == "DELETE"
      then unsubscribe_answer (within id true (unsubscribe host id token child) w)
      else refuse 405 "method_not_allowed" w

  unfoldable pub handle_discussion : String → String → Request → World → Answer
  unfolding within
  handle_discussion id token r w =
      if r.method == "GET"
      then get_answer (within id true (get host id token) w)
      else if r.method == "DELETE"
      then end_answer id (within id true (end_discussion host id token) w)
      else refuse 405 "method_not_allowed" w

  abbrev pub read_once :
      String → String → ReadQuery → World → Result (List Message × Discussion) × World
  read_once id token q w =
      let opts : ReadOptions = record { after_sequence = q.after_sequence; limit = q.limit } in
      within id (valid_read_options opts) (read host id token opts) (registered id w)

  -- The duration of a wait, 0 for one that is over.
  abbrev pub wait_duration : ℕ → Discussion → World → ℕ
  wait_duration wait d w =
      let until_expiry = d.expires_at - outside.clock w.readings in
      if ltb until_expiry wait then until_expiry else wait

  -- A turn behind its read, with the next turn, which does not wait.
  abbrev pub turn :
      Meanwhile
      → ℕ
      → (World → Option Answer)
      → Result (List Message × Discussion) × World
      → Option Answer
  turn meanwhile wait next (err e, w) = some (some (write_store_error e), w)
  turn meanwhile wait next (ok (messages, d), w) =
      if nonempty messages || not (is_active d.status) || eqb wait 0
      then some (page_answer messages d w)
      else if eqb (wait_duration wait d w) 0
      then next w
      else after_wait next (meanwhile (wait_duration wait d w) w)

  -- The loop of `handleReadMessages`, on fuel.
  unfoldable pub poll : Meanwhile → String → String → ReadQuery → ℕ → ℕ → World → Option Answer
  unfolding within
  poll meanwhile id token q wait zero w = none
  poll meanwhile id token q wait (suc fuel) w =
      turn meanwhile wait (poll meanwhile id token q 0 fuel) (read_once id token q w)

  abbrev pub read_queried : Meanwhile → String → String → World → Option ReadQuery → Answer
  read_queried meanwhile id token w none = refuse 400 "invalid_query" w
  read_queried meanwhile id token w (some q) = polled w (poll meanwhile id token q q.wait 2 w)

  unfoldable pub handle_read_messages : Meanwhile → String → String → Request → World → Answer
  unfolding poll
  handle_read_messages meanwhile id token r w =
      read_queried meanwhile id token w (parse_read_query outside r.query)

  unfoldable pub handle_messages : Meanwhile → String → String → Request → World → Answer
  unfolding handle_read_messages handle_post_message
  handle_messages meanwhile id token r w =
      if r.method == "GET"
      then handle_read_messages meanwhile id token r w
      else if r.method == "POST"
      then handle_post_message id token r.body w
      else refuse 405 "method_not_allowed" w

  abbrev pub by_resource : Meanwhile → String → Request → World → Target → Answer
  by_resource meanwhile token r w (id, resource, child) =
      if resource == ""
      then handle_discussion id token r w
      else if resource == "messages"
      then handle_messages meanwhile id token r w
      else if resource == "subscriptions"
      then handle_subscriptions id child token r w
      else refuse 404 "not_found" w

  abbrev pub with_token : Meanwhile → Request → World → Target → Option String → Answer
  with_token meanwhile r w target none = refuse 401 "unauthorized" w
  with_token meanwhile r w target (some token) = by_resource meanwhile token r w target

  abbrev pub with_target : Meanwhile → Request → World → Option Target → Answer
  with_target meanwhile r w none = refuse 404 "not_found" w
  with_target meanwhile r w (some target) =
      with_token meanwhile r w target (bearer_token r.authorization)

  -- `ServeHTTP`, less the headers.
  unfoldable pub serve : Meanwhile → String → Request → World → Answer
  unfolding handle_discussion handle_messages handle_subscriptions
  serve meanwhile instance_id r w =
      if r.path == "/healthz"
      then if r.method == "GET"
        then answer 200 (Content.healthy instance_id) w
        else refuse 405 "method_not_allowed" w
      else with_target meanwhile r w (parse_discussion_path r.path)
