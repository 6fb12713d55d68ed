-- ===== src/Control.antt =====
-- The control requests that make discussions, and the checks of the process's options:
-- internal/communityserver/runtime.go.
pub mod Ttl
pub mod Creating
use agent_community.Common.{
  ℕ, len, ◌+◌, ◌-◌, ◌*◌, ◌/◌, ◌%◌, ◌^◌, String, Bool, true, false, ◌&&◌, ◌||◌, not, Option, none,
  some, List, ltb, leb, eqb, ◌==◌, all_chars, if◌then◌else◌, zero, suc,
}
use Prim.Native.String.{◌++◌ as ◌<>◌}
use agent_community.Common.Int.{ℤ, pos, negsuc}
use agent_community.Discussion.Model.{Time, Discussion, ParticipantInput, CreateInput}
use agent_community.Discussion.Exec.{Host, Dir, Session, Result, ok, err}
use agent_community.Discussion.Create.{Capabilities, create}
use agent_community.Server.{bearer_token}
use agent_community.Webhook.{second, duration_bits}

pub record RuntimeOptions : Type 0 where
  pub community_name : String
  pub community_root : String
  pub state_root : String
  pub listen_address : String
  pub public_url : String
  pub socket_path : String
  pub allow_loopback_http : Bool

abbrev pub in_name : ℕ → Bool
in_name c =
    leb b'a' c && leb c b'z'
    || leb b'A' c && leb c b'Z'
    || leb b'0' c && leb c b'9'
    || eqb c b'-'
    || eqb c b'_'

unfoldable pub valid_community_name : String → Bool
valid_community_name name = not (name == "") && all_chars in_name name

-- The options with the default address, unless they are refused.
unfoldable pub validate_runtime_options : RuntimeOptions → Option RuntimeOptions
unfolding valid_community_name
validate_runtime_options opts =
    if not (valid_community_name opts.community_name)
    then none
    else if opts.community_root == ""
        || opts.state_root == ""
        || opts.public_url == ""
        || opts.socket_path == ""
    then none
    else if opts.listen_address == ""
    then some (record opts { listen_address = "127.0.0.1:7337" })
    else some opts

pub record Registration : Type 0 where
  pub community_name : String
  pub community_root : String
  pub local_url : String
  pub public_url : String
  pub control_socket : String
  pub control_secret : String
  pub instance_id : String
  pub pid : ℕ
  pub started_at : Time

-- `LoadRegistration` of the file, decoded, that is there under a name.
unfoldable pub load_registration : (String → Option Registration) → String → Option Registration
unfolding valid_community_name
load_registration files name = if not (valid_community_name name) then none else elim (files name) [
  | none ↦ none
  | some r ↦
      if not (r.community_name == name)
        || r.instance_id == ""
        || r.control_secret == ""
        || r.control_socket == ""
      then none
      else some r
]

-- The body of a control request.
pub record ControlInput : Type 0 where
  pub ttl_seconds : ℤ
  pub participants : List ParticipantInput

-- The signed number of 64 bits.
abbrev pub signed : ℕ → ℤ
signed bits = if ltb bits (2 ^ 63) then pos bits else negsuc (2 ^ 64 - 1 - bits)

-- `time.Duration(seconds) * time.Second`
unfoldable pub ttl_of : ℤ → ℤ
unfolding duration_bits
ttl_of seconds = signed (duration_bits seconds)

-- `int64(ttl / time.Second)`
unfoldable pub seconds_of : ℤ → ℤ
seconds_of (pos n) = pos (n / second)
seconds_of (negsuc n) = elim ((n + 1) / second) [ zero ↦ pos 0 | suc k ↦ negsuc k ]

pub data ControlAnswer : Type 0 where
  refused : ℕ → String → ControlAnswer
  made : Dir → Discussion → Capabilities → ControlAnswer

abbrev pub made_answer :
    Result (Dir × Discussion × Capabilities) × Session → ControlAnswer × Session
made_answer (err e, s) = (refused 400 "invalid_input", s)
made_answer (ok (d, view, capabilities), s) = (made d view capabilities, s)

abbrev pub holds_secret : String → Option String → Bool
holds_secret secret none = false
holds_secret secret (some token) = token == secret

-- `controlBodyMax`, in bytes.
abbrev pub control_body_max : ℕ
control_body_max = 32 * 1024

-- What the two sides take from elsewhere: `json.Marshal` and `decodeStrict` for the request, and
-- for the two responses with the newline that the encoder adds; and what net/http accepts as the
-- value of a header.
pub record Wire : Type 0 where
  pub encode_input : ControlInput → String
  pub decode_input : String → Option ControlInput
  pub encode_result : Discussion → Capabilities → String
  pub decode_result : String → Option (Discussion × Capabilities)
  pub encode_health : String → String
  pub decode_health : String → Option String
  pub valid_header : String → Bool

-- A body that is read up to the limit, and decoded.
abbrev pub read_limited : {A : Type 0} → (String → Option A) → String → Option A
read_limited decode text = if ltb control_body_max (len text) then none else decode text

module _ (host : Host) (wire : Wire) where
  abbrev pub create_decoded : Option ControlInput → Session → ControlAnswer × Session
  create_decoded none s = (refused 400 "invalid_body", s)
  create_decoded (some input) s =
      made_answer (
        create host (record { ttl = ttl_of input.ttl_seconds; participants = input.participants })
          s)

  -- `controlCreateHandler`
  unfoldable pub control_create :
      String → String → String → String → Session → ControlAnswer × Session
  unfolding ttl_of
  control_create secret method authorization body s =
      if not (method == "POST")
      then (refused 405 "method_not_allowed", s)
      else if not (holds_secret secret (bearer_token authorization))
      then (refused 401 "unauthorized", s)
      else create_decoded (read_limited wire.decode_input body) s

-- The process behind the control socket.
pub record Process : Type 0 where
  pub instance_id : String
  pub control_secret : String

pub data ControlError : Type 0 where
  invalid_registration health_failed instance_mismatch control_unauthorized : ControlError
  create_failed : ControlError

-- What the caller gets, with the directory that the process has made: none, one with the result of
-- the request, or one whose result does not reach the caller, who gets an error.
pub data Created : Type 0 where
  not_created : ControlError → Created
  created : Dir → Discussion → Capabilities → Created
  lost : Dir → Created

-- `decodeHTTPResponse` of the result.
abbrev pub result_read : Dir → Option (Discussion × Capabilities) → Created
result_read d none = lost d
result_read d (some (view, capabilities)) = created d view capabilities

abbrev pub created_of : Wire → ControlAnswer × Session → Created × Session
created_of wire (refused status error_code, s) =
    (not_created (if eqb status 401 then control_unauthorized else create_failed), s)
created_of wire (made d view capabilities, s) =
    (result_read d (read_limited wire.decode_result (wire.encode_result view capabilities)), s)

abbrev pub authorized_by : Registration → String
authorized_by registration = "Bearer " <> registration.control_secret

-- `CreateThroughControl` behind the check of the health, for a process that answers.
abbrev pub create_request :
    Host → Wire → Process → Registration → CreateInput → Session → Created × Session
create_request host wire process registration input s =
    if not (wire.valid_header (authorized_by registration))
    then (not_created create_failed, s)
    else created_of wire (
        control_create host wire process.control_secret "POST" (authorized_by registration)
          (wire.encode_input
            (record { ttl_seconds = seconds_of input.ttl; participants = input.participants }))
          s)

-- The instance that the health names is compared.
abbrev pub health_checked :
    Host → Wire → Process → Registration → CreateInput → Session → Option String → Created × Session
health_checked host wire process registration input s none = (not_created health_failed, s)
health_checked host wire process registration input s (some instance_id) =
    if not (instance_id == registration.instance_id)
    then (not_created instance_mismatch, s)
    else create_request host wire process registration input s

unfoldable pub create_through_control :
    Host → Wire → Process → Registration → CreateInput → Session → Created × Session
unfolding control_create seconds_of
create_through_control host wire process registration input s =
    if registration.control_socket == ""
      || registration.control_secret == ""
      || registration.instance_id == ""
    then (not_created invalid_registration, s)
    else health_checked host wire process registration input s
        (read_limited wire.decode_health (wire.encode_health process.instance_id))
