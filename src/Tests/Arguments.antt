-- ===== src/Tests/Arguments.antt =====
-- Command lines with a flag behind a positional argument, and with a terminator.
use agent_community.Common.{
  ◌≡◌, refl, String, none, some, true, false, List, [], ◌∷◌, ◌++◌, ◌==◌, if◌then◌else◌,
}
use agent_community.Args.{FlagSet, is_flag_token, split_args, trim_dashes, takes_next, reorder_args}
use agent_community.Args.Reorder.{
  Merged, no_flags, unterminated, reorder_args-Merged, reorder_args-terminator,
}

abbrev flags : FlagSet
flags name = if name == "theme" then some false else if name == "force" then some true else none

abbrev init_args : List String
init_args = "my-community" ∷ "--theme" ∷ "cheeses" ∷ "--force" ∷ "now" ∷ []

reordered :
    reorder_args flags init_args ≡ "--theme" ∷ "cheeses" ∷ "--force" ∷ "my-community" ∷ "now" ∷ []
unfolding reorder_args split_args is_flag_token trim_dashes takes_next
reordered = refl

init_unterminated : unterminated init_args ≡ true
init_unterminated = refl

reorder_args-Merged_example :
    (flags_out : List String) × (others : List String) × (reorder_args flags init_args
      ≡ flags_out ++ others)
    × Merged flags flags_out others init_args
    × (no_flags others ≡ true)
reorder_args-Merged_example = reorder_args-Merged flags init_args init_unterminated

send_unterminated : unterminated ("send" ∷ []) ≡ true
send_unterminated = refl

send_no_flags : no_flags ("send" ∷ []) ≡ true
unfolding is_flag_token
send_no_flags = refl

reorder_args-terminator_example :
    reorder_args flags ("send" ∷ "--" ∷ "--force" ∷ []) ≡ "send" ∷ "--force" ∷ []
reorder_args-terminator_example =
    reorder_args-terminator flags ("send" ∷ []) ("--force" ∷ []) send_unterminated send_no_flags
