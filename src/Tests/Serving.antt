-- ===== src/Tests/Serving.antt =====
-- Requests of a client to a server with two discussions.
use agent_community.Common.{
  ℕ, suc, ◌≡◌, refl, ap, String, true, false, Option, none, some, List, [], ◌∷◌, ◌==◌, eqb, zero,
  code, if◌then◌else◌,
}
use agent_community.Common.Int.{ℤ, pos, negsuc}
use agent_community.Server.{Body, Outside, ReadQuery, parse_read_query}
use agent_community.Server.Notifications.{
  Call, waits, notifies, run, notification, notify, no_channels,
}
use agent_community.Server.Notifications.Sound.{run-unclosed}
use agent_community.Server.Notifications.Wakes.{notification-closed}
use agent_community.Server.World.{World}
use agent_community.Server.Handlers.{Answer, Meanwhile, woken, handle_post_message, poll}
use agent_community.Server.Handlers.Polling.{IsPolled, poll_answers}
use agent_community.Client.{ReadOptions, query_of}
use agent_community.Client.Routing.{cons_nonempty}
use agent_community.Client.Query.{AreInverse, AreAcceptable, query_roundtrip}
use agent_community.Tests.Guarding.{network}
use agent_community.Tests.Fixture.{host, alice_token, bob_token, empty_dir, question}

abbrev outside : Outside
outside = record {
  atoi = λ s. some (pos (if s == "7" then 7 else 0));
  parse_duration = λ s. some (pos 1000);
  decode_post = λ s. some question;
  decode_subscribe = λ s. none;
  network = network;
  clock = λ n. 1000;
}

abbrev world : World
world = record {
  store = ("DISCUSSION", empty_dir) ∷ ("OTHER", empty_dir) ∷ [];
  readings = 0;
  draws = 0;
  registry = no_channels;
}

-- Somebody posts while a reader waits, and wakes it up.
abbrev meanwhile : Meanwhile
meanwhile n w =
    (woken, (handle_post_message host outside "DISCUSSION" alice_token (Body.whole "{}") w).1)

abbrev first_page : ReadQuery
first_page = record { after_sequence = pos 0; limit = pos 50; wait = 500 }

poll_answers_example :
    (a : Answer) × ((fuel : ℕ)
      → poll host outside meanwhile "DISCUSSION" bob_token first_page 500 (suc (suc fuel)) world
        ≡ some a)
    × IsPolled host outside meanwhile "DISCUSSION" bob_token first_page 500 world a
poll_answers_example =
    poll_answers host outside meanwhile "DISCUSSION" bob_token first_page 500 world

abbrev calls : List Call
calls = waits "A" ∷ notifies "A" ∷ waits "B" ∷ notifies "A" ∷ []

stored_channel : (run calls no_channels).channel_of "A" ≡ some 3
unfolding notification notify
stored_channel = refl

run-unclosed_example : (run calls no_channels).is_closed 3 ≡ false
run-unclosed_example = run-unclosed calls "A" 3 stored_channel

notification-closed_example :
    let (c, registered) = notification "B" (run calls no_channels) in
    (run (notifies "A" ∷ notifies "B" ∷ []) registered).is_closed c ≡ true
notification-closed_example = notification-closed calls (notifies "A" ∷ notifies "B" ∷ []) "B"

-- Numbers in unary, behind a sign.
abbrev strokes : ℕ → String
strokes zero = String.[]
strokes (suc n) = String.◌∷◌ "1" (strokes n)

abbrev count : String → ℕ
count String.[] = 0
count (String.◌∷◌ c s) = suc (count s)

abbrev print : ℤ → String
print (pos n) = String.◌∷◌ "+" (strokes n)
print (negsuc n) = String.◌∷◌ "-" (strokes n)

abbrev parse : String → Option ℤ
parse String.[] = none
parse (String.◌∷◌ c s) = some (if eqb (code c) b'+' then pos (count s) else negsuc (count s))

count-strokes : (n : ℕ) → count (strokes n) ≡ n
count-strokes zero = refl
count-strokes (suc n) = ap (λ m. suc m) (count-strokes n)

parse-print : (z : ℤ) → parse (print z) ≡ some z
parse-print (pos n) = ap (λ m. some (pos m)) (count-strokes n)
parse-print (negsuc n) = ap (λ m. some (negsuc m)) (count-strokes n)

print_nonempty : (z : ℤ) → (print z == "") ≡ false
print_nonempty (pos n) = cons_nonempty "+" (strokes n)
print_nonempty (negsuc n) = cons_nonempty "-" (strokes n)

abbrev unary : Outside
unary = record outside { atoi = parse; parse_duration = parse }

unary-AreInverse : AreInverse unary print print
unary-AreInverse = record {
  atoi_itoa = parse-print;
  itoa_nonempty = print_nonempty;
  parse_text = parse-print;
  text_nonempty = print_nonempty;
}

abbrev next_page : ReadOptions
next_page = record { after_sequence = pos 3; limit = pos 0; wait = pos 9 }

next_page-AreAcceptable : AreAcceptable next_page
next_page-AreAcceptable = record { sequence_fits = refl; limit_fits = refl; wait_fits = refl }

query_roundtrip_example :
    parse_read_query unary (query_of print print next_page)
    ≡ some (record { after_sequence = pos 3; limit = pos 50; wait = 9 })
query_roundtrip_example =
    query_roundtrip unary print print next_page unary-AreInverse next_page-AreAcceptable
