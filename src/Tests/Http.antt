-- ===== src/Tests/Http.antt =====
-- The theorems on HTTP replies at a server over the reference model.
use package.text.Mathlib.TextEquality.{eq_iff}
use micromdm.Base.{
  List, Result, false, ◌==◌, if◌then◌else◌, string_dec, none, some, [], ◌∷◌, Error, ok, err, ◌≡◌,
  ◌≢◌, refl, arith,
}
use mathlib.Core.List.{Mem, mem-cons_self, mem-cons_of_mem}
use micromdm.Services.Sql.{Row, text, null}
use micromdm.Services.Backend.{Backend, tables, exists_same}
use micromdm.Device.Columns.{scan_devices}
use micromdm.Command.Datastore as CommandStore
use micromdm.Command.Service as CommandService
use micromdm.Command.Endpoint.{
  next_command_endpoint, delete_command_endpoint, get_commands_endpoint,
}
use micromdm.Checkin.Service.{new_service, initial_setup}
use micromdm.Device.Datastore as DeviceStore
use micromdm.Workflow.Datastore as WorkflowStore
use micromdm.Application.Datastore as ApplicationStore
use micromdm.Certificate.Datastore as CertificateStore
use micromdm.Http.Reply.{Answers, Sends}
use micromdm.Http.Server.{Request, Route}
use micromdm.Management.Service.{Service, installed_apps}
use micromdm.Management.Routes.{
  show_profile_handler, delete_profile_handler, show_device_handler, installed_apps_handler,
  add_profile_handler, push_handler, service_handler, on, device_push_path,
}
use micromdm.Management.Missing.{missing_is_404}
use micromdm.Management.Matching.{decoding, routes_have_their_variables}
use micromdm.Management.Inventory.{IsListing, installed_apps_are_hidden}
use micromdm.Management.Conflict.{existing_profile_is_409}
use micromdm.Main.Server.{apps_db, mgmt_svc, command_svc}
use micromdm.Command.Transport.{next_command_handler, delete_command_handler, get_commands_handler}
use micromdm.Command.Replies.{responses_are_sent_as_200}
use micromdm.Checkin.Transport.{Decoders, dep_enrollment_handler, decode_mdm_enrollment_request}
use micromdm.Checkin.Replies.{enrollment_replies}
use micromdm.Tests.Data.{library, environment, lock, server, checkin}
use micromdm.Tests.Web.{
  kit, kit-IsKit, status, status-IsStatus, json, message, bodies, uuid, web_request, wifi,
}

-- Every WHERE clause is understood, and selects nothing.
abbrev empty_handed : Backend
empty_handed = record server { reads = λ s. some [] }

abbrev svc : Service Backend
svc = mgmt_svc library environment

missing_is_404_example :
    let (shown, x) = show_profile_handler kit json message bodies svc web_request empty_handed in
    let (deleted, y) =
      delete_profile_handler kit json message bodies svc web_request empty_handed in
    let (seen, z) = show_device_handler kit json message bodies svc web_request empty_handed in
    (Answers status 404 shown × (x ≡ empty_handed))
    × (Answers status 404 deleted × (y ≡ empty_handed))
    × (Answers status 404 seen × (z ≡ empty_handed))
unfolding string_dec WorkflowStore.profiles DeviceStore.devices scan_devices
missing_is_404_example =
    missing_is_404 kit kit-IsKit json message bodies status status-IsStatus
      (DeviceStore.pg_store tables) (WorkflowStore.pg_store tables) library.is_device_token_valid
      environment.apple (apps_db library environment) (CertificateStore.pg_store tables) web_request
      uuid empty_handed empty_handed empty_handed refl refl refl refl

-- The route of a notification, the fifth of the table.
abbrev push_route : Route Backend
push_route =
    on decoding json message bodies svc "POST" device_push_path
      (push_handler decoding json message bodies svc)

abbrev management_routes : List (Route Backend)
management_routes = service_handler decoding json message bodies svc

json_error : none ≢ some Error.management_bad_routing
json_error h = ground (arith, h)

eof_error : some Error.eof ≢ some Error.management_bad_routing
eof_error h = ground (arith, h)

known : some uuid ≢ none
known h = ground (arith, h)

push_route-Mem : Mem push_route management_routes
push_route-Mem =
    mem-cons_of_mem _ (mem-cons_of_mem _ (mem-cons_of_mem _ (mem-cons_of_mem _ mem-cons_self)))

routes_have_their_variables_example :
    (push_route.handler web_request server).0 ≢ err Error.management_bad_routing
routes_have_their_variables_example =
    routes_have_their_variables json message bodies svc (λ b. json_error) (λ b. eof_error)
      push_route push_route-Mem web_request server (known, tt)

installed_apps_are_hidden_example :
    let (y, z) = installed_apps_handler kit json message bodies svc web_request server in
    IsListing kit kit-IsKit json message bodies status status-IsStatus svc false "{}" server server
      y z
unfolding installed_apps string_dec ApplicationStore.get_applications_by_device_uuid
installed_apps_are_hidden_example =
    installed_apps_are_hidden kit kit-IsKit json message bodies status status-IsStatus svc
      web_request uuid server server
      (err (
        Error.wrap "management: installed apps"
          (Error.fault "column reference \"name\" is ambiguous")))
      "{}" refl refl (λ h. ground (arith, h)) refl

-- The same server with a profile.
abbrev profile_row : Row
profile_row c = if c == "payload_identifier" then text "wifi" else null

abbrev with_profile : Backend
with_profile = record server { rows = λ t. if t == "profiles" then profile_row ∷ [] else [] }

existing_profile_is_409_example :
    let (x, b') = add_profile_handler kit json message bodies svc web_request with_profile in
    Answers status 409 x × (b'.rows ≡ with_profile.rows)
unfolding string_dec exists_same
existing_profile_is_409_example =
    existing_profile_is_409 kit kit-IsKit json message bodies status status-IsStatus
      library.is_device_token_valid environment.apple (apps_db library environment) web_request wifi
      with_profile refl (ground (arith, eq_iff "wifi" "")) refl

-- The commands of the device of the fixture.
abbrev queue_request : Request
queue_request = record {
  vars = λ v. some (if v == "udid" then "udid-1" else "lock-1");
  body = ok "body";
}

abbrev commands_svc : CommandService.Service Backend
commands_svc = command_svc library environment

abbrev rotated : Backend
rotated = (next_command_endpoint commands_svc (record { udid = "udid-1" }) server).1

abbrev deleted : Backend
deleted =
    (delete_command_endpoint commands_svc (record { udid = "udid-1"; uuid = "lock-1" }) server).1

responses_are_sent_as_200_example :
    let (x, x') = next_command_handler json message kit commands_svc queue_request server in
    let (y, y') = delete_command_handler json message kit commands_svc queue_request server in
    let (z, z') = get_commands_handler json message kit commands_svc queue_request server in
    ((x' ≡ rotated) × Sends status 200 "{}" x)
    × ((y' ≡ deleted) × Sends status 200 "{}" y)
    × ((z' ≡ server) × Sends status 200 "{}" z)
unfolding string_dec next_command_endpoint delete_command_endpoint get_commands_endpoint
    CommandStore.next_command CommandStore.delete_command CommandStore.commands CommandStore.load
responses_are_sent_as_200_example =
    responses_are_sent_as_200 kit kit-IsKit json message status status-IsStatus commands_svc
      queue_request "udid-1" "lock-1" server rotated deleted server
      (record { payload = "lock-2"; total = 2; error = none }) (record { total = 1; error = none })
      (record { commands = lock "lock-2" ∷ lock "lock-1" ∷ []; error = none }) "{}" "{}" "{}" refl
      refl refl refl refl refl refl refl

abbrev decoders : Decoders
decoders = record {
  content = λ s. ok s;
  checkin = λ s. ok (checkin "CheckOut");
  enrollment = λ s. ok (record { udid = "udid-1"; serial = "serial-1" });
}

-- The world after the setup, and its result: the device of the fixture has no workflow.
abbrev setup : Result (Unit {0}) × Backend
setup =
    initial_setup (DeviceStore.pg_store tables) svc.push commands_svc library.profile
      environment.now "udid-1" "serial-1" server

enrollment_replies_example :
    let (x, z) =
      dep_enrollment_handler json message kit
        (new_service
          (DeviceStore.pg_store tables)
          svc.push
          commands_svc
          library.profile
          environment.now)
        decoders
        web_request
        server in
    (z ≡ setup.1) × Sends status 200 library.profile x
unfolding string_dec decode_mdm_enrollment_request initial_setup DeviceStore.devices
enrollment_replies_example =
    enrollment_replies kit kit-IsKit json message status status-IsStatus decoders
      (DeviceStore.pg_store tables) svc.push commands_svc library.profile environment.now
      web_request (record { udid = "udid-1"; serial = "serial-1" }) setup.0 server setup.1 refl refl
      (λ h. ground (arith, h))
