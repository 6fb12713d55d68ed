-- ===== src/Args.antt =====
-- The order of command-line arguments: cmd/agent-community/args.go.
pub mod Reorder
use agent_community.Common.{
  ℕ, String, len, code, Bool, true, false, ◌&&◌, ◌||◌, not, Option, none, some, List, [], ◌∷◌, ◌++◌,
  leb, eqb, ◌==◌, cut, if◌then◌else◌,
}

-- A flag that the set has: whether it is a Boolean one.
abbrev pub FlagSet : Type 0
FlagSet = String → Option Bool

abbrev pub starts_with_dash : String → Bool
starts_with_dash String.[] = false
starts_with_dash (String.◌∷◌ c s) = eqb (code c) b'-'

unfoldable pub is_flag_token : String → Bool
is_flag_token a = leb 2 (len a) && starts_with_dash a

-- `strings.TrimLeft(a, "-")`
unfoldable pub trim_dashes : String → String
trim_dashes String.[] = String.[]
trim_dashes (String.◌∷◌ c s) =
    let rest = trim_dashes s in if eqb (code c) b'-' then rest else String.◌∷◌ c s

abbrev pub name_of : String → Option (String × String) → String × Bool
name_of s none = (s, false)
name_of s (some (name, value)) = (name, true)

unfoldable pub parse_flag_name : String → String × Bool
unfolding trim_dashes cut
parse_flag_name a = name_of (trim_dashes a) (cut b'=' (trim_dashes a))

abbrev pub expects_value : FlagSet → String → Bool
expects_value flags name = elim (flags name) [ none ↦ false | some is_bool ↦ not is_bool ]

-- The flag's value is the next argument.
unfoldable pub takes_next : FlagSet → String → Bool
unfolding parse_flag_name
takes_next flags a = not (parse_flag_name a).1 && expects_value flags (parse_flag_name a).0

abbrev pub Split : Type 0
Split = List String × List String

abbrev pub flag_first : String → Split → Split
flag_first a (flags_out, positional) = (a ∷ flags_out, positional)

abbrev pub positional_first : String → Split → Split
positional_first a (flags_out, positional) = (flags_out, a ∷ positional)

-- The loop: the flags and the positional arguments.
unfoldable pub split_args : FlagSet → List String → Split
split_args flags [] = ([], [])
split_args flags (a ∷ []) =
    if a == "--" then ([], []) else if is_flag_token a then (a ∷ [], []) else ([], a ∷ [])
split_args flags (a ∷ (b ∷ rest)) =
    let behind = split_args flags (b ∷ rest) in
    let behind_value = split_args flags rest in
    if a == "--"
    then ([], b ∷ rest)
    else if is_flag_token a
    then if takes_next flags a
      then flag_first a (flag_first b behind_value)
      else flag_first a behind
    else positional_first a behind

unfoldable pub reorder_args : FlagSet → List String → List String
reorder_args flags args =
    let (flags_out, positional) = split_args flags args in flags_out ++ positional
