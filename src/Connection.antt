-- ===== src/Connection.antt =====
-- The stored connections to discussions: internal/connection/store.go.
pub mod Saving
use agent_community.Common.{
  ℕ, String, len, Bool, true, false, ◌&&◌, ◌||◌, not, Option, none, some, leb, ltb, eqb, ◌==◌,
  all_chars, if◌then◌else◌,
}
use agent_community.Discussion.Model.{Time}

pub record Connection : Type 0 where
  pub name : String
  pub community_name : String
  pub local_url : String
  pub public_url : String
  pub discussion_id : String
  pub participant_id : String
  pub capability : String
  pub expires_at : Time

-- What the checks read off a parsed URL.
pub record Url : Type 0 where
  pub scheme : String
  pub host : String
  pub hostname : String
  pub has_user : Bool
  pub raw_query : String
  pub fragment : String
  pub path : String

-- `url.Parse`, `strings.EqualFold` with "localhost", and whether `net.ParseIP` gives a loopback
-- address.
pub record Network : Type 0 where
  pub parse_url : String → Option Url
  pub is_localhost : String → Bool
  pub is_loopback_ip : String → Bool

abbrev pub in_valid_name : ℕ → Bool
in_valid_name c =
    leb b'a' c && leb c b'z'
    || leb b'A' c && leb c b'Z'
    || leb b'0' c && leb c b'9'
    || eqb c b'-'
    || eqb c b'_'

unfoldable pub valid_name : String → Bool
valid_name value = not (value == "" || ltb 128 (len value)) && all_chars in_valid_name value

abbrev pub is_loopback : Network → String → Bool
is_loopback network host = network.is_localhost host || network.is_loopback_ip host

-- No credentials, query, fragment or path.
abbrev pub is_bare : Url → Bool
is_bare u = not (
    u.has_user
    || not (u.raw_query == "")
    || not (u.fragment == "")
    || not (u.path == "") && not (u.path == "/"))

abbrev pub valid_local_url : Network → Option Url → Bool
valid_local_url network none = false
valid_local_url network (some u) = u.scheme == "http" && is_loopback network u.hostname && is_bare u

abbrev pub valid_public_url : Network → Option Url → Bool
valid_public_url network none = false
valid_public_url network (some u) =
    (u.scheme == "https" || u.scheme == "http" && is_loopback network u.hostname)
    && not (u.host == "")
    && is_bare u

unfoldable pub validate : Network → Connection → Bool
unfolding valid_name
validate network c =
    valid_name c.name
    && valid_name c.community_name
    && not (
        c.discussion_id == ""
        || not (valid_name c.discussion_id)
        || not (valid_name c.participant_id)
        || c.capability == ""
        || eqb c.expires_at 0)
    && valid_local_url network (network.parse_url c.local_url)
    && valid_public_url network (network.parse_url c.public_url)

-- A file of a connection: one that is not decoded, or what it holds.
pub data File : Type 0 where
  undecoded : File
  stored : Connection → File

-- The files, by community and name.
abbrev pub Files : Type 0
Files = String → String → Option File

pub data ConnectionError : Type 0 where
  already_exists invalid_connection not_exist bad_file mismatched : ConnectionError

abbrev pub is_at : String → String → String → String → Bool
is_at community_name name c n = c == community_name && n == name

abbrev pub put_file : String → String → Option File → Files → Files
put_file community_name name f files c n = if is_at community_name name c n then f else files c n

-- `Save`; `none` where there is no error. A file is made only where there is none.
abbrev pub save_at : Connection → Files → Option File → Option ConnectionError × Files
save_at c files (some _) = (some already_exists, files)
save_at c files none = (none, put_file c.community_name c.name (some (stored c)) files)

unfoldable pub save : Network → Connection → Files → Option ConnectionError × Files
unfolding validate
save network c files =
    if validate network c
    then save_at c files (files c.community_name c.name)
    else (some invalid_connection, files)

pub data Loaded : Type 0 where
  not_loaded : ConnectionError → Loaded
  loaded : Connection → Loaded

abbrev pub loaded_from : Network → String → String → Option File → Loaded
loaded_from network community_name name none = not_loaded not_exist
loaded_from network community_name name (some undecoded) = not_loaded bad_file
loaded_from network community_name name (some (stored c)) =
    if not (validate network c)
    then not_loaded bad_file
    else if not (c.community_name == community_name) || not (c.name == name)
    then not_loaded mismatched
    else loaded c

unfoldable pub load : Network → String → String → Files → Loaded
unfolding valid_name validate
load network community_name name files =
    if not (valid_name community_name) || not (valid_name name)
    then not_loaded invalid_connection
    else loaded_from network community_name name (files community_name name)

-- `Delete`, of a file that may not be there.
unfoldable pub delete : String → String → Files → Option ConnectionError × Files
unfolding valid_name
delete community_name name files =
    if not (valid_name community_name) || not (valid_name name)
    then (some invalid_connection, files)
    else (none, put_file community_name name none files)
