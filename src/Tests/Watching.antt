-- ===== src/Tests/Watching.antt =====
-- A log that arrives in pieces: a line is cut by the end of a read, another by the end of a drain.
use agent_community.Common.{
  ℕ, ◌+◌, ◌≡◌, refl, ◌⊎◌, inl, inr, String, Option, none, some, List, [], ◌∷◌, eqb, if◌then◌else◌,
}
use agent_community.Colony.{Message}
use agent_community.Common.Int.{pos}
use agent_community.Watch.{Bytes, drained, drain_events}
use agent_community.Watch.Lines.{split_lines}
use agent_community.Watch.Drain.{emit_text, drain_events-eq}
use agent_community.Watch.Emit.{Options, emit, keep_line, passed_over, texts, drain_events-texts}

-- Lines of one byte, `a` by ann and `b` by bob; any other line is not decoded.
abbrev by : String → Message
by name = record {
  id = "M";
  timestamp = 50;
  author = name;
  body = "hi";
  context = "";
  type = "";
  urgency = pos 0;
  to = "";
}

abbrev decode : Bytes → Option Message
decode (b ∷ []) = if eqb b 97 then some (by "ann") else if eqb b 98 then some (by "bob") else none
decode _ = none

abbrev opts : Options
opts = record { exclude_author = "bob"; from = 20; format = λ m. m.author }

abbrev events : List (List Bytes)
events = ((97 ∷ []) ∷ (10 ∷ 98 ∷ []) ∷ []) ∷ ((10 ∷ 10 ∷ 97 ∷ []) ∷ []) ∷ ((10 ∷ 99 ∷ []) ∷ []) ∷ []

abbrev arrived : Bytes
arrived = 97 ∷ 10 ∷ 98 ∷ 10 ∷ 10 ∷ 97 ∷ 10 ∷ 99 ∷ []

-- An emitter that counts, and stops at the third line.
abbrev counting : Bytes → ℕ → (String × ℕ) ⊎ ℕ
counting line n = if eqb n 2 then inl ("full", n) else inr (n + 1)

drain_events-eq_example : drain_events counting events [] 0 ≡ emit_text counting arrived 0
drain_events-eq_example = drain_events-eq counting events 0

drain_events-texts_example :
    drain_events (emit {E = String} decode opts keep_line) events [] []
    ≡ drained (texts decode opts (split_lines arrived).0) (split_lines arrived).1
drain_events-texts_example = drain_events-texts {E = String} decode opts events

written : texts decode opts (split_lines arrived).0 ≡ "ann" ∷ "ann" ∷ []
unfolding texts split_lines passed_over
written = refl
