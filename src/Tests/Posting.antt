-- ===== src/Tests/Posting.antt =====
-- Posts to a discussion, and what is read of them.
use agent_community.Common.{◌≡◌, ◌≢◌, refl, false, [], ◌∷◌, if◌then◌else◌}
use agent_community.Common.Int.{pos}
use agent_community.Discussion.Model.{Message, Discussion, ReadOptions, ended}
use agent_community.Discussion.Exec.{ok, err, internal, Session}
use agent_community.Discussion.Exec.Hoare.{Ensures}
use agent_community.Discussion.Messages.{read_messages, fits_scanner}
use agent_community.Discussion.Post.{post}
use agent_community.Discussion.Post.Readback.{posted_record, post_then_read}
use agent_community.Discussion.Read.{end_discussion}
use agent_community.Discussion.Read.Ending.{EndedTo, NotEnded, end_outcome, no_post_after_end}
use agent_community.Tests.Run.{run_post, run_end}
use agent_community.Tests.Draws.{host-IsFresh}
use agent_community.Tests.Fixture.{host, start, alice_token, question}

abbrev first_message : Message
first_message = record {
  id = "A0";
  discussion_id = "DISCUSSION";
  sequence = 1;
  created_at = 1001;
  author = "alice";
  body = "Why this design?";
  reply_to = "";
}

first_post : (post host "DISCUSSION" alice_token question start).0 ≡ ok (first_message, false)
unfolding run_post
first_post = refl

abbrev posted : Session
posted = (post host "DISCUSSION" alice_token question start).1

post_then_read_example : read_messages host posted.dir.record_file posted.dir.messages ≡ (
    if fits_scanner host (posted_record question first_message)
    then ok posted.dir.messages
    else err internal)
post_then_read_example =
    post_then_read host "DISCUSSION" alice_token question start first_message host-IsFresh
      first_post

abbrev first_page : ReadOptions
first_page = record { after_sequence = pos 0; limit = pos 10 }

end_outcome_example :
    Ensures
      (end_discussion host "DISCUSSION" alice_token start).0
      (end_discussion host "DISCUSSION" alice_token start).1
      (EndedTo host "DISCUSSION" alice_token start.dir start.draws start.readings)
      (NotEnded host "DISCUSSION" alice_token start.dir start.draws start.readings)
end_outcome_example = end_outcome host "DISCUSSION" alice_token start

abbrev ended_view : Discussion
ended_view = record {
  id = "DISCUSSION";
  status = ended;
  created_at = 900;
  expires_at = 2000;
  last_sequence = 0;
  participants = "alice" ∷ "bob" ∷ [];
}

ended_by_alice : (end_discussion host "DISCUSSION" alice_token start).0 ≡ ok ended_view
unfolding run_end
ended_by_alice = refl

no_post_after_end_example :
    (post host "DISCUSSION" alice_token question
      (end_discussion host "DISCUSSION" alice_token start).1).0
    ≢ ok (first_message, false)
no_post_after_end_example =
    no_post_after_end host "DISCUSSION" alice_token start ended_by_alice alice_token question
      (first_message, false)
