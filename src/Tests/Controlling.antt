-- ===== src/Tests/Controlling.antt =====
-- A discussion that is made through the control socket, and a walk that expires one.
use agent_community.Common.{
  some, none, true, sym, ap, ◌∙◌, ◌==◌, if◌then◌else◌, ◌+◌, ◌*◌, ◌^◌, ◌≡◌, refl, [], ◌∷◌, all_chars,
  arith,
}
use agent_community.Common.Int.{pos}
use agent_community.Discussion.Model.{Discussion, DiscussionRecord}
use agent_community.Discussion.Exec.{Dir, Result, ok, err}
use agent_community.Discussion.Create.{create, Capabilities}
use agent_community.Discussion.Deliveries.{Store}
use agent_community.Discussion.Expiry.{expire_due}
use agent_community.Discussion.Expiry.Visits.{Visits, expire_due-Visits}
use agent_community.Discussion.Reconcile.{reconcile_all}
use agent_community.Discussion.Reconcile.Kept.{SameButOutbox, reconcile_all-SameButOutbox}
use agent_community.Webhook.{second}
use agent_community.Control.{Process, Registration, Wire, ttl_of, create_through_control}
use agent_community.Control.Creating.{
  IsComplete, IsFaithful, payload, from_create, create_through_control_outcome,
}
use agent_community.Control.Ttl.{ttl_of_bounds}
use agent_community.Tests.Run.{run_expire_due}
use agent_community.Tests.Creating.{interview, creates, created_view, handed_out}
use agent_community.Tests.Fixture.{host, start, discussion}

abbrev process : Process
process = record { instance_id = "I1"; control_secret = "s3cret" }

abbrev registration : Registration
registration = record {
  community_name = "cheeses";
  community_root = "/srv/cheeses";
  local_url = "http://127.0.0.1:7337";
  public_url = "https://goat.example";
  control_socket = "/run/cheeses.sock";
  control_secret = "s3cret";
  instance_id = "I1";
  pid = 42;
  started_at = 900;
}

registration-IsComplete : IsComplete registration
unfolding all_chars
registration-IsComplete = record {
  has_socket = refl;
  has_secret = refl;
  plain_secret = refl;
  has_instance = refl;
}

-- An encoding of the one request and of its one result.
abbrev wire : Wire
wire = record {
  encode_input = λ i. "asks";
  decode_input = λ s. if s == "asks" then some (payload (3600 * 10 ^ 9) interview) else none;
  encode_result = λ d c. "made";
  decode_result = λ s. if s == "made" then some (created_view, handed_out) else none;
  encode_health = λ id. id;
  decode_health = λ s. some s;
  valid_header = λ s. true;
}

wire-IsFaithful :
    IsFaithful wire process registration
      (payload (3600 * 10 ^ 9) interview)
      (create host interview start).0
wire-IsFaithful = record {
  input_decoded = refl;
  result_decoded = λ d view c e.
      let same = sym creates ∙ e in
      ap
        (λ (r : Result (Dir × Discussion × Capabilities)). elim r [
          | ok a ↦ some (a.1, a.2)
          | err x ↦ none
        ])
        same;
  health_decoded = refl;
  health_fits = omega arith;
  header_fits = refl;
}

create_through_control_outcome_example :
    create_through_control host wire process registration interview start
    ≡ from_create wire (create host interview start)
create_through_control_outcome_example =
    create_through_control_outcome host wire process registration interview start (3600 * 10 ^ 9)
      registration-IsComplete wire-IsFaithful refl (omega arith)

ttl_of_bounds_example :
    (ttl_of (pos 7) ≡ pos (7 * second)) × (ttl_of (pos (7 + 2 ^ 55)) ≡ pos (7 * second))
ttl_of_bounds_example = ttl_of_bounds 7 (omega arith)

abbrev dir_of_record : DiscussionRecord → Dir
dir_of_record r = record { record_file = r; messages = []; subscriptions = []; outbox = [] }

-- One discussion whose time has come at the clock's 1000, and one whose time has not.
abbrev store : Store
store =
    ("A0", dir_of_record (record discussion { id = "A0"; expires_at = 950 }))
    ∷ ("DISCUSSION", dir_of_record discussion)
    ∷ []

expires_first : (expire_due host store 0 0).0 ≡ ok ("A0" ∷ [])
unfolding run_expire_due
expires_first = refl

expire_due-Visits_example : Visits host store ("A0" ∷ []) (expire_due host store 0 0).1.store
expire_due-Visits_example = expire_due-Visits host store 0 0 expires_first

reconcile_all-SameButOutbox_example : SameButOutbox store (reconcile_all host store 0 0).1.store
reconcile_all-SameButOutbox_example = reconcile_all-SameButOutbox host store 0 0
