-- ===== src/Discussion/Post/Allowed.antt =====
-- `Post` as a whole: every outcome, with the conditions under which it comes.
use agent_community.Common.{ℕ, ◌≡◌, ◌<◌, refl, sym, ◌⊎◌, inl, inr, String, Bool, true}
use native.Mathlib.Nat.{le_refl}
use mathlib.Core.Path.{subst}
use agent_community.Discussion.Model.{
  active, DiscussionRecord, ParticipantRecord, Message, PostInput, permission_post,
}
use agent_community.Discussion.Exec.{Host, Error, invalid_input, Session, Dir, guard}
use agent_community.Discussion.Exec.Hoare.{
  Hoare, Ensures, Hoare-bind, Hoare-guard, Hoare_given, Hoare_post,
}
use agent_community.Discussion.Capability.{has_permission}
use agent_community.Discussion.Validate.{validate_post_input, validate_record}
use agent_community.Discussion.Access.{open_as, guard_open}
use agent_community.Discussion.Access.Authorize.{IsBearer}
use agent_community.Discussion.Access.Open.{is_open, guard_open-Hoare, valid-status, still_active}
use agent_community.Discussion.Access.Opened.{
  Holds, Stopped, IsOpened, OpenedTo, IsAt, left_of, Stopped-at_once, open_as-Hoare,
}
use agent_community.Discussion.Post.{post_to, post}
use agent_community.Discussion.Post.Outcome.{Succeeded, Failed, post_to-Hoare}

-- The discussion is active and its time has not come at the reading `n` of the clock, and the token is that of a participant with the permission to post.
pub record MayPost (host : Host) (id token : String) (input : PostInput) (n : ℕ)
    (r : DiscussionRecord) (p : ParticipantRecord) : Type 0 where
  pub valid_input : validate_post_input input ≡ true
  pub valid_record : validate_record host r id ≡ true
  pub own_id : r.id ≡ id
  pub bearer : IsBearer host token r p
  pub permitted : has_permission p.capability permission_post ≡ true
  pub is_still_active : r.status ≡ active
  pub in_time : host.clock n < r.expires_at

module _ (host : Host) (id token : String) (input : PostInput) (d : Dir) (k n : ℕ) where
  -- The outcomes that `Outcome` describes, in a discussion that is as it was.
  pub record Posted (a : Message × Bool) (t : Session) : Type 0 where
    pub poster : ParticipantRecord
    pub allowed : MayPost host id token input n d.record_file poster
    pub outcome : Succeeded host k d.record_file poster input d.messages d.subscriptions a t

  -- An error leaves the directory but for an expiry that was due, or fails behind the append.
  abbrev pub Refused : Error → Session → Type 0
  Refused e t =
      Stopped (host.clock n) d.record_file d.messages d.subscriptions k t
      ⊎ ((p : ParticipantRecord) × MayPost host id token input n d.record_file p
          × Failed host k d.record_file p input d.messages d.subscriptions e t)

  posting_own :
      (p : ParticipantRecord)
      → MayPost host id token input n d.record_file p
      → Hoare
          (λ s. Holds d.record_file d.messages d.subscriptions k s)
          (post_to host d.record_file p input)
          Posted
          Refused
  posting_own p may =
      Hoare_post (post_to host d.record_file p input)
        (λ a s q. record { poster = p; allowed = may; outcome = q }) (λ e s f. inr (p, may, f))
        (post_to-Hoare host k d.record_file p input d.messages d.subscriptions)

  posting_as :
      (r : DiscussionRecord) (p : ParticipantRecord)
      → validate_post_input input ≡ true
      → IsOpened host permission_post id token d n r p
      → is_open r.status ≡ true
      → Hoare (λ s. Holds r d.messages d.subscriptions k s) (post_to host r p input) Posted Refused
  posting_as r p fine opened o =
      let valid = valid-status host d.record_file id opened.valid in
      let (same, is_still_active, in_time) =
        still_active (host.clock n) d.record_file r valid opened.refreshed o in
      subst
        (λ q.
          Hoare (λ s. Holds q d.messages d.subscriptions k s) (post_to host q p input) Posted
            Refused)
        (sym same)
        (posting_own p (record {
          valid_input = fine;
          valid_record = opened.valid;
          own_id = opened.own_id;
          bearer = opened.bearer;
          permitted = opened.permitted;
          is_still_active = is_still_active;
          in_time = in_time;
        }))

  stopped_open :
      (r : DiscussionRecord) (p : ParticipantRecord) (e : Error) (s : Session)
      → OpenedTo host permission_post id token d k n (r, p) s
      → Refused e s
  stopped_open r p e s h = inl (record {
    current = r;
    left = left_of (host.clock n) d.record_file r h.0.refreshed;
    holds = h.1;
  })

  post-Hoare : Hoare (IsAt d k n) (post host id token input) Posted Refused
  unfolding post
  post-Hoare =
      Hoare-bind (guard (validate_post_input input) invalid_input) _
        (Hoare-guard _ _ (λ s h. inl (Stopped-at_once host permission_post id token d k n s h)))
        (λ _. Hoare_given _ (λ fine.
          Hoare-bind (open_as host permission_post id token) _
            (Hoare_post _ (λ a s h. h) (λ e s h. inl h)
              (open_as-Hoare host permission_post id token d k n))
            (λ a.
              Hoare-bind (guard_open a.0.status) _
                (guard_open-Hoare a.0.status (stopped_open a.0 a.1))
                (λ _. record { at = λ s h. (posting_as a.0 a.1 fine h.0.0 h.1).at s h.0.1 }))))

pub post_outcome :
    (host : Host) (id token : String) (input : PostInput) (s : Session)
    → Ensures
        (post host id token input s).0
        (post host id token input s).1
        (Posted host id token input s.dir s.draws s.readings)
        (Refused host id token input s.dir s.draws s.readings)
post_outcome host id token input s =
    (post-Hoare host id token input s.dir s.draws s.readings).at s (refl, le_refl s.draws, refl)
