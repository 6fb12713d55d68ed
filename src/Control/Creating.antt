-- ===== src/Control/Creating.antt =====
-- What `CreateThroughControl` comes to at the process that it asks.
use agent_community.Common.{
  ℕ, ◌*◌, ◌/◌, ◌^◌, ◌<◌, ◌≤◌, ◌≡◌, refl, ap, arith, len, ltb, none, some, Bool, true, false, not,
  ◌==◌, if◌then◌else◌,
}
use agent_community.Common.Int.{pos}
use agent_community.Discussion.Model.{Discussion, CreateInput}
use agent_community.Discussion.Exec.{Host, Dir, Session, Result, ok, err}
use agent_community.Discussion.Create.{Capabilities, create}
use agent_community.Server.{unbroken}
use agent_community.Client.Routing.{bearer_token-own}
use agent_community.Webhook.{second}
use agent_community.Control.{
  Registration, Process, Wire, ControlInput, control_body_max, read_limited, create_decoded, lost,
  result_read, authorized_by, ttl_of, seconds_of, made_answer, refused, control_create, Created,
  not_created, created, instance_mismatch, control_unauthorized, create_failed, created_of,
  create_through_control,
}
use agent_community.Control.Ttl.{ttl_of-seconds_of}

-- A registration with all that a control request needs, and a secret that a header can carry.
pub record IsComplete (r : Registration) : Type 0 where
  pub has_socket : (r.control_socket == "") ≡ false
  pub has_secret : (r.control_secret == "") ≡ false
  pub plain_secret : unbroken r.control_secret ≡ true
  pub has_instance : (r.instance_id == "") ≡ false

-- What the two sides need of the encodings and of the header: the texts of the input, of the result
-- and of the health are decoded to what they were made of, the health fits the limit, and a header
-- can carry the secret.
pub record IsFaithful (wire : Wire) (process : Process) (r : Registration) (input : ControlInput)
    (made : Result (Dir × Discussion × Capabilities)) : Type 0 where
  pub input_decoded : wire.decode_input (wire.encode_input input) ≡ some input
  pub result_decoded :
      (d : Dir) (view : Discussion) (c : Capabilities)
      → made ≡ ok (d, view, c)
      → wire.decode_result (wire.encode_result view c) ≡ some (view, c)
  pub health_decoded :
      wire.decode_health (wire.encode_health process.instance_id) ≡ some process.instance_id
  pub health_fits : len (wire.encode_health process.instance_id) ≤ control_body_max
  pub header_fits : wire.valid_header (authorized_by r) ≡ true

-- The result for the outcome of `Store.Create`, which is lost where it is over the limit.
abbrev pub from_create :
    Wire → Result (Dir × Discussion × Capabilities) × Session → Created × Session
from_create wire (err e, s) = (not_created create_failed, s)
from_create wire (ok (d, view, capabilities), s) =
    if ltb control_body_max (len (wire.encode_result view capabilities))
    then (lost d, s)
    else (created d view capabilities, s)

-- The body of the request.
abbrev pub payload : ℕ → CreateInput → ControlInput
payload n input = record { ttl_seconds = pos (n / second); participants = input.participants }

made-from_create :
    (wire : Wire) (a : Result (Dir × Discussion × Capabilities) × Session)
    → ((d : Dir) (view : Discussion) (c : Capabilities)
        → a.0 ≡ ok (d, view, c)
        → wire.decode_result (wire.encode_result view c) ≡ some (view, c))
    → created_of wire (made_answer a) ≡ from_create wire a
made-from_create wire (err e, s) decoded = refl
made-from_create wire (ok (d, view, capabilities), s) decoded =
    over (ltb control_body_max (len (wire.encode_result view capabilities)))
      (decoded d view capabilities refl)
  where
    over :
        (b : Bool)
        → wire.decode_result (wire.encode_result view capabilities) ≡ some (view, capabilities)
        → let a : Created × Session = (
          result_read d
              (if b then none else wire.decode_result (wire.encode_result view capabilities)),
          s,
        ) in
          a ≡ (if b then (lost d, s) else (created d view capabilities, s))
    over true e = refl
    over false e = ap {B = Created × Session} (λ o. (result_read d o, s)) e

module _ (host : Host) (wire : Wire) (process : Process) (r : Registration)
    (complete : IsComplete r) (input : CreateInput) (s : Session) (n : ℕ)
    (faithful : IsFaithful wire process r
      (payload n input)
      (create host
        (record { ttl = pos (n / second * second); participants = input.participants })
        s).0) where
  abbrev requested : Result (Dir × Discussion × Capabilities) × Session
  requested =
      create host (record { ttl = pos (n / second * second); participants = input.participants }) s

  abbrev specified : Created × Session
  specified =
      if not (process.instance_id == r.instance_id)
      then (not_created instance_mismatch, s)
      else if not (r.control_secret == process.control_secret)
      then (not_created control_unauthorized, s)
      else if ltb control_body_max (len (wire.encode_input (payload n input)))
      then (not_created create_failed, s)
      else from_create wire requested

  branches :
      (a b c : Bool)
      → (if a
          then (not_created instance_mismatch, s)
          else created_of wire (
              if b
              then (refused 401 "unauthorized", s)
              else if c
              then (refused 400 "invalid_body", s)
              else made_answer requested))
        ≡ (if a
            then (not_created instance_mismatch, s)
            else if b
            then (not_created control_unauthorized, s)
            else if c
            then (not_created create_failed, s)
            else from_create wire requested)
  branches true b c = refl
  branches false true c = refl
  branches false false true = refl
  branches false false false = made-from_create wire requested faithful.result_decoded

  body_read :
      n < 2 ^ 63
      → create_decoded host wire
          (read_limited wire.decode_input (wire.encode_input (payload n input)))
          s
        ≡ (if ltb control_body_max (len (wire.encode_input (payload n input)))
            then (refused 400 "invalid_body", s)
            else made_answer requested)
  body_read fits =
      elim (ltb control_body_max (len (wire.encode_input (payload n input))))
        as (λ b.
          create_decoded host wire
            (if b then none else wire.decode_input (wire.encode_input (payload n input))) s
          ≡ (if b then (refused 400 "invalid_body", s) else made_answer requested)) [
            | true ↦ refl
            | false ↦
                let ttl : ttl_of (pos (n / second)) ≡ pos (n / second * second) =
                  unfold seconds_of in ttl_of-seconds_of n fits in
                rw (faithful.input_decoded, ttl) refl
          ]

  as_specified :
      input.ttl ≡ pos n
      → n < 2 ^ 63
      → create_through_control host wire process r input s ≡ specified
  unfolding create_through_control control_create seconds_of
  as_specified asked fits =
      let token = bearer_token-own r.control_secret complete.has_secret complete.plain_secret in
      let small : ltb control_body_max (len (wire.encode_health process.instance_id)) ≡ false =
        ground (arith, faithful.health_fits) in
      rw
        (
          complete.has_socket,
          complete.has_secret,
          complete.has_instance,
          small,
          faithful.health_decoded,
          faithful.header_fits,
          token,
          asked,
          body_read fits,
        )
        (branches (not (process.instance_id == r.instance_id))
          (not (r.control_secret == process.control_secret))
          (ltb control_body_max (len (wire.encode_input (payload n input)))))

-- A request to create a discussion, through a complete registration and with a time to live that is
-- not negative, where what is encoded on the way is decoded again: nothing is created if another instance of
-- the server answers, or one with another secret, and the latter is told apart, or if the body of
-- the request is longer than 32 KiB; else the outcome is that of `Store.Create`, with the time to
-- live cut to whole seconds, but a discussion whose result is longer than 32 KiB is created and the
-- caller gets an error instead of its capabilities.
pub create_through_control_outcome :
    (host : Host) (wire : Wire) (process : Process) (r : Registration) (input : CreateInput)
    (s : Session) (n : ℕ)
    → IsComplete r
    → IsFaithful wire process r
        (payload n input)
        (create host
          (record { ttl = pos (n / second * second); participants = input.participants })
          s).0
    → input.ttl ≡ pos n
    → n < 2 ^ 63
    → create_through_control host wire process r input s ≡ (
        if not (process.instance_id == r.instance_id)
        then (not_created instance_mismatch, s)
        else if not (r.control_secret == process.control_secret)
        then (not_created control_unauthorized, s)
        else if ltb control_body_max (len (wire.encode_input (payload n input)))
        then (not_created create_failed, s)
        else from_create wire (
            create host
              (record { ttl = pos (n / second * second); participants = input.participants })
              s))
create_through_control_outcome host wire process r input s n complete faithful asked fits =
    as_specified host wire process r complete input s n faithful asked fits
