-- ===== src/Community.antt =====
-- The communities of a machine, and which of them a directory belongs to: internal/community.
pub mod Resolution
use agent_community.Common.{
  ℕ, String, Bool, true, false, ◌&&◌, ◌||◌, not, Option, none, some, List, [], ◌∷◌, ◌++◌, any, map,
  leb, eqb, ◌==◌, all_chars, trim_space, if◌then◌else◌,
}
use Prim.Native.String.{◌++◌ as ◌<>◌}

-- An absolute path by its components, the last one first; `[]` is the root.
abbrev pub Directory : Type 0
Directory = List String

pub record RegistryEntry : Type 0 where
  pub path : String
  pub created : String

abbrev pub Registry : Type 0
Registry = List (String × RegistryEntry)

abbrev pub in_community_name : ℕ → Bool
in_community_name c =
    leb b'a' c && leb c b'z'
    || leb b'A' c && leb c b'Z'
    || leb b'0' c && leb c b'9'
    || (eqb c b'-' || eqb c b'_')

unfoldable pub validate_name : String → Bool
validate_name name = not (name == "") && all_chars in_community_name name

-- A map has one entry for a name.
unfoldable pub lookup : String → Registry → Option RegistryEntry
lookup name [] = none
lookup name ((n, e) ∷ rest) = let behind = lookup name rest in if n == name then some e else behind

-- `Registry.Add`; `none` is an error.
unfoldable pub add : String → RegistryEntry → Registry → Option Registry
unfolding lookup
add name entry registry = elim (lookup name registry) [
  | none ↦ some (registry ++ (name, entry) ∷ [])
  | some _ ↦ none
]

-- What is at the place of a marker file.
pub data MarkerFile : Type 0 where
  absent unreadable : MarkerFile
  holds : String → MarkerFile

pub data Found : Type 0 where
  failed nowhere : Found
  found : Directory → String → Found

-- The loop of `findMarker`, up to the root.
unfoldable pub find_marker : (Directory → MarkerFile) → Directory → Found
find_marker marker [] = elim (marker []) [
  | absent ↦ nowhere
  | unreadable ↦ failed
  | holds text ↦ found [] (trim_space text)
]
find_marker marker (c ∷ parent) = elim (marker (c ∷ parent)) [
  | absent ↦ find_marker marker parent
  | unreadable ↦ failed
  | holds text ↦ found (c ∷ parent) (trim_space text)
]

-- What the machine holds: the environment variable, empty where it is not set; the registry, `none`
-- where it is not read; the marker files.
pub record Machine : Type 0 where
  pub env : String
  pub registry : Option Registry
  pub marker : Directory → MarkerFile

pub data Source : Type 0 where
  source_env source_marker : Source

pub record Resolved : Type 0 where
  pub name : String
  pub root : String
  pub workspace : Option Directory
  pub source : Source

pub data ResolveError : Type 0 where
  no_community unregistered unread : ResolveError

pub data Resolving : Type 0 where
  unresolved : ResolveError → Resolving
  resolved : Resolved → Resolving

abbrev pub root_of : Option Directory → Source → String → Option RegistryEntry → Resolving
root_of workspace source name none = unresolved unregistered
root_of workspace source name (some e) =
    resolved (record { name = name; root = e.path; workspace = workspace; source = source })

-- `lookupRoot`, with the rest of the result.
abbrev pub lookup_root : Option Directory → Source → String → Option Registry → Resolving
lookup_root workspace source name none = unresolved unread
lookup_root workspace source name (some registry) =
    root_of workspace source name (lookup name registry)

abbrev pub resolve_found : Option Registry → Found → Resolving
resolve_found registry failed = unresolved unread
resolve_found registry nowhere = unresolved no_community
resolve_found registry (found workspace name) =
    if name == ""
    then unresolved no_community
    else lookup_root (some workspace) source_marker name registry

-- `Resolve` for a workspace that is given.
unfoldable pub resolve : Machine → Directory → Resolving
unfolding lookup find_marker
resolve machine workspace =
    let name = trim_space machine.env in
    if not (name == "")
    then lookup_root none source_env name machine.registry
    else resolve_found machine.registry (find_marker machine.marker workspace)

abbrev pub same_path : Directory → Directory → Bool
same_path [] [] = true
same_path [] (b ∷ bs) = false
same_path (a ∷ others) [] = false
same_path (a ∷ others) (b ∷ bs) = a == b && same_path others bs

-- A marker file names another community. One that is not read counts as none.
abbrev pub other_community : String → MarkerFile → Bool
other_community name (holds text) = not (trim_space text == "") && not (trim_space text == name)
other_community name _ = false

abbrev pub is_registered : String → Option Registry → Bool
is_registered name none = false
is_registered name (some registry) = elim (lookup name registry) [ none ↦ false | some _ ↦ true ]

-- `Join` for an absolute workspace, up to the entry for the .gitignore; `none` is an error.
unfoldable pub join : Machine → String → Directory → Option Machine
unfolding validate_name lookup
join machine name workspace =
    if not (validate_name name) || not (is_registered name machine.registry)
    then none
    else if other_community name (machine.marker workspace)
    then none
    else some (record machine {
      marker = λ p. if same_path p workspace then holds (name <> "\n") else machine.marker p;
    })
