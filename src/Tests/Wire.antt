-- ===== src/Tests/Wire.antt =====
-- A conversation over HTTP at the server of the fixture.
use micromdm.Base.{String, string_dec, ◌==◌, [], ◌∷◌, Result, ok, ◌≡◌, refl, none, if◌then◌else◌}
use micromdm.Mdm.{Response}
use micromdm.Http.Server.{Request}
use micromdm.Connect.Transport.{connect_handler, decode_mdm_connect_request}
use micromdm.Command.Queue.{waiting}
use micromdm.Main.Server.{connect_svc}
use micromdm.Main.Wire.{exchange, AllSend, drain_over_http}
use micromdm.Tests.Data.{
  library, environment, server, world, model-IsEnvironment, build, lock, request, device_row,
}
use micromdm.Tests.Queue.{plain, no_type}
use micromdm.Tests.Web.{kit, kit-IsKit, status, status-IsStatus, json, message}

-- The property list of a report is its UUID, and empty where the device is idle.
abbrev decode : String → Result Response
decode s = ok (if s == "" then request "Idle" "" else request "Acknowledged" s)

abbrev put : String → Request
put s = record { vars = λ v. none; body = ok s }

drain_over_http_example :
    let (xs, w') =
      exchange
        (connect_handler json message kit (connect_svc library environment) decode (λ e. ""))
        (put "" ∷ put "lock-2" ∷ put "lock-1" ∷ [])
        server in
    AllSend status ("lock-2" ∷ "lock-1" ∷ "" ∷ []) xs × (waiting w' "udid-1" ≡ ok [])
unfolding string_dec decode_mdm_connect_request
drain_over_http_example =
    drain_over_http kit kit-IsKit json message status status-IsStatus decode (λ e. "") library build
      [] (request "" "") (λ x. x) lock world environment model-IsEnvironment "lock-2"
      ("lock-1" ∷ []) device_row server (put "" ∷ put "lock-2" ∷ put "lock-1" ∷ []) refl refl
      no_type refl (refl, (refl, tt)) (refl, refl, plain, (refl, refl, plain, tt)) (refl, refl)
      (refl, (refl, (refl, tt)))
