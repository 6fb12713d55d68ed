-- ===== src/Tests/Placing.antt =====
-- A workspace that joins a community, and a connection that is saved.
use agent_community.Common.{
  ◌≡◌, refl, ◌⊎◌, true, false, none, some, [], ◌∷◌, ◌==◌, all_chars, trim_space, if◌then◌else◌,
}
use agent_community.Community.{
  Directory, RegistryEntry, Registry, absent, Machine, resolved, source_marker, validate_name,
  lookup, resolve, join,
}
use agent_community.Community.Resolution.{joined, join-resolve}
use agent_community.Connection.{
  Connection, Network, Files, ConnectionError, valid_name, validate, save,
}
use agent_community.Connection.Saving.{IsSaved, save_outcome}

abbrev entry : RegistryEntry
entry = record { path = "/srv/cheeses"; created = "2026-01-01T00:00:00Z" }

abbrev machine : Machine
machine = record { env = ""; registry = some (("cheeses", entry) ∷ []); marker = λ p. absent }

abbrev workspace : Directory
workspace = "goat" ∷ "home" ∷ []

abbrev after : Machine
after = record machine { marker = joined machine "cheeses" workspace }

joins : join machine "cheeses" workspace ≡ some after
unfolding join validate_name all_chars lookup
joins = refl

unset : (trim_space machine.env == "") ≡ true
unfolding trim_space
unset = refl

join-resolve_example :
    (r : Registry) × (e : RegistryEntry) × (machine.registry ≡ some r)
    × (lookup "cheeses" r ≡ some e)
    × (resolve after ("src" ∷ workspace)
        ≡ resolved (record {
          name = "cheeses";
          root = e.path;
          workspace = some workspace;
          source = source_marker;
        }))
join-resolve_example = join-resolve machine "cheeses" workspace ("src" ∷ []) joins unset (refl, tt)

abbrev network : Network
network = record {
  parse_url = λ raw. some (record {
    scheme = if raw == "http://127.0.0.1:7337" then "http" else "https";
    host = "127.0.0.1:7337";
    hostname = "127.0.0.1";
    has_user = false;
    raw_query = "";
    fragment = "";
    path = "";
  });
  is_localhost = λ host. false;
  is_loopback_ip = λ host. host == "127.0.0.1";
}

abbrev connection : Connection
connection = record {
  name = "interview-abc";
  community_name = "cheeses";
  local_url = "http://127.0.0.1:7337";
  public_url = "https://goat.example";
  discussion_id = "DISCUSSION";
  participant_id = "alice";
  capability = "acp_KEYA.c2VjcmV0";
  expires_at = 2000;
}

abbrev no_files : Files
no_files community_name name = none

saves : (save network connection no_files).0 ≡ none
unfolding save validate valid_name all_chars
saves = refl

save_outcome_example :
    ((((save network connection no_files).0 ≡ none)
      × IsSaved network connection no_files (save network connection no_files).1))
    ⊎ ((e : ConnectionError) × ((save network connection no_files).0 ≡ some e)
        × ((save network connection no_files).1 ≡ no_files))
save_outcome_example = save_outcome network connection no_files
