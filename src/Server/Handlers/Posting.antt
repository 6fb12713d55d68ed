-- ===== src/Server/Handlers/Posting.antt =====
-- What the server answers to a post.
use agent_community.Common.{◌≡◌, ◌≤◌, ◌<◌, ◌⊎◌, String, len, true, false, Option, none, some}
use agent_community.Discussion.Model.{Message, PostInput, max_body_bytes}
use agent_community.Discussion.Exec.{Error, Host, Dir, Session}
use agent_community.Discussion.Validate.{validate_post_input}
use agent_community.Discussion.Post.Allowed.{Posted, Refused}
use agent_community.Server.{Body, Content, Outside, write_store_error}
use agent_community.Server.World.{World, notified, missing, with_session, find_dir}
use agent_community.Server.Handlers.{Answer, answer, refuse}

-- The post that a body holds.
abbrev pub input_of : Outside → Body → Option PostInput
input_of outside (Body.whole text) = outside.decode_post text
input_of outside _ = none

module _ (host : Host) (outside : Outside) (id token : String) (w : World) (body : Body) where
  -- The state in which the store is called.
  abbrev called : Dir → Session
  called d = record { dir = d; readings = w.readings; draws = w.draws }

  -- The body holds a post whose text is within the limit.
  abbrev IsSent : PostInput → Type 0
  IsSent input = (input_of outside body ≡ some input) × (len input.body ≤ max_body_bytes)

  -- What the handler answers, and what it leaves.
  pub data Answered : Answer → Type 0 where
    over_limit : body ≡ Body.too_large → Answered (refuse 413 "request_too_large" w)
    no_post :
        (body ≡ Body.broken)
          ⊎ ((text : String) × (body ≡ Body.whole text) × (outside.decode_post text ≡ none))
        → Answered (refuse 400 "invalid_body" w)
    too_long :
        (input : PostInput)
        → input_of outside body ≡ some input
        → max_body_bytes < len input.body
        → Answered (refuse 413 "message_too_large" w)
    -- a name that is no discussion's, for which an input that is not valid is refused first
    nowhere :
        (input : PostInput)
        → IsSent input
        → find_dir id w.store ≡ none
        → Answered (some (write_store_error (missing (validate_post_input input))), w)
    -- a new message, of which the readers that wait are notified
    created :
        (d : Dir) (input : PostInput) (m : Message) (t : Session)
        → IsSent input
        → find_dir id w.store ≡ some d
        → Posted host id token input d w.draws w.readings (m, false) t
        → Answered (answer 201 (Content.posted m) (notified id (with_session id w t)))
    -- the message that was posted before
    replayed :
        (d : Dir) (input : PostInput) (m : Message) (t : Session)
        → IsSent input
        → find_dir id w.store ≡ some d
        → Posted host id token input d w.draws w.readings (m, true) t
        → Answered (answer 200 (Content.posted m) (with_session id w t))
    -- an error of the store
    failed :
        (d : Dir) (input : PostInput) (e : Error) (t : Session)
        → IsSent input
        → find_dir id w.store ≡ some d
        → Refused host id token input d w.draws w.readings e t
        → Answered (some (write_store_error e), with_session id w t)
