-- ===== src/Discussion/Access/Open.antt =====
-- An operation that needs an open discussion goes on only in an active one.
use agent_community.Common.{◌<◌, ◌≡◌, inl, inr, String, Bool, true, false, refl, arith}
use mathlib.Core.Bool.{false≢true}
use mathlib.Core.Path.{subst}
use agent_community.Discussion.Model.{Time, Status, active, ended, expired, other, DiscussionRecord}
use agent_community.Discussion.Exec.{Host, Error, discussion_ended, discussion_expired, Session}
use agent_community.Discussion.Exec.Hoare.{Hoare}
use agent_community.Discussion.Validate.{validate_record, valid_status}
use agent_community.Discussion.Access.{guard_open, is_active}
use agent_community.Discussion.Access.Opened.{Refreshed}

unfoldable pub is_open : Status → Bool
is_open ended = false
is_open expired = false
is_open _ = true

-- An operation goes on behind the status guard only if neither end nor expiry is written.
pub guard_open-Hoare :
    {P : Session → Type 0} {E : Error → Session → Type 0} (st : Status)
    → ((e : Error) (s : Session) → P s → E e s)
    → Hoare P (guard_open st) (λ _ s. P s × (is_open st ≡ true)) E
unfolding guard_open is_open
guard_open-Hoare active k = record { at = λ s h. (h, refl) }
guard_open-Hoare (other x) k = record { at = λ s h. (h, refl) }
guard_open-Hoare ended k = record { at = λ s h. k discussion_ended s h }
guard_open-Hoare expired k = record { at = λ s h. k discussion_expired s h }

pub valid-status :
    (host : Host) (r : DiscussionRecord) (id : String)
    → validate_record host r id ≡ true
    → valid_status r.status ≡ true
unfolding validate_record
valid-status host r id h = ground arith

active_of : (st : Status) → valid_status st ≡ true → is_open st ≡ true → st ≡ active
unfolding valid_status is_open
active_of st v o = ground arith

-- What is refreshed and still open has not been changed, is active, and its time has not come.
pub still_active :
    (at : Time) (r r' : DiscussionRecord)
    → valid_status r.status ≡ true
    → Refreshed at r r'
    → is_open r'.status ≡ true
    → (r' ≡ r) × (r.status ≡ active) × (at < r.expires_at)
unfolding is_active
still_active at r r' v (inl (same, early)) o =
    let a =
      active_of r.status v (subst (λ (q : DiscussionRecord). is_open q.status ≡ true) same o) in
    (
      same,
      a,
      elim early [ inl not_active ↦ absurd (ground (arith, not_active, a)) | inr before ↦ before ],
    )
still_active at r r' v (inr (a, late, due)) o =
    let closed : is_open expired ≡ true =
      subst (λ (q : DiscussionRecord). is_open q.status ≡ true) due o in
    absurd (unfold is_open in false≢true closed)
