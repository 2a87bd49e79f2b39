-- ===== src/Connect/Endpoint.antt =====
-- connect/endpoint.go
use micromdm.Base.{
  ℕ, zero, suc, String, ◌==◌, Option, none, some, Error, Result, ok, err, panic, Action, pure,
  return, attempt, respond, ◌>>=◌, if◌then◌else◌,
}
use micromdm.Mdm.{Response}
use micromdm.Connect.Service.{Service}

pub record ConnectResponse : Type 0 where
  pub payload : String
  pub error : Option Error

abbrev pub nothing : ConnectResponse
nothing = record { payload = ""; error = none }

abbrev pub sent : String → ConnectResponse
sent next = record { payload = next; error = none }

abbrev pub failed : Error → ConnectResponse
failed e = record { payload = ""; error = some e }

module _ {W : Type 0} (svc : Service W) where
  abbrev pub send_next : Response → Action W ConnectResponse
  send_next req = respond (λ r. sent r.0) failed (svc.next_command req)

  -- After an acknowledgement or a failure: the next command, if any waits.
  abbrev pub send_rest : Response → ℕ → Action W ConnectResponse
  send_rest req zero = pure nothing
  send_rest req (suc n) = send_next req

  abbrev pub after_acknowledge : Response → Result ℕ → Action W ConnectResponse
  after_acknowledge req (ok total) =
      if req.request_type == "DeviceConfigured" then pure nothing else send_rest req total
  after_acknowledge req (err e) = pure (failed e)
  after_acknowledge req panic = return panic

  abbrev pub after_fail : Response → Result ℕ → Action W ConnectResponse
  after_fail req (ok total) = send_rest req total
  after_fail req (err e) = pure (failed e)
  after_fail req panic = return panic

  -- An idle device gets nothing where the total is 0.
  abbrev pub idle_reply : String → ℕ → ConnectResponse
  idle_reply next zero = nothing
  idle_reply next (suc n) = sent next

  abbrev pub handle : Response → Action W ConnectResponse
  handle req =
      if req.status == "Acknowledged"
      then attempt (svc.acknowledge req) >>= after_acknowledge req
      else if req.status == "Idle"
      then respond (λ r. idle_reply r.0 r.1) failed (svc.next_command req)
      else if req.status == "Error"
      then attempt (svc.fail_command req) >>= after_fail req
      else pure (failed Error.connect_invalid_message_type)

  -- Requests of a user are not handled.
  abbrev pub for_user : Option String → Action W ConnectResponse → Action W ConnectResponse
  for_user (some _) m = pure nothing
  for_user none m = m

  unfoldable pub connect_endpoint : Response → Action W ConnectResponse
  connect_endpoint req = for_user req.user_id (handle req)
