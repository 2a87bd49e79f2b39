-- ===== src/Management/Routes.antt =====
-- `ServiceHandler` of management/transport.go: the handler of each request, and the routes.
use micromdm.Base.{String, List, [], ◌∷◌, Error, Action}
use micromdm.Http.Reply.{Json, Call}
use micromdm.Http.Server.{Request, Segment, part, hole, Kit, Route}
use micromdm.Management.Service.{Service}
use micromdm.Management.Endpoint.{
  add_profile_endpoint, list_profiles_endpoint, show_profile_endpoint, delete_profile_endpoint,
  add_workflow_endpoint, list_workflows_endpoint, list_devices_endpoint, show_device_endpoint,
  update_device_endpoint, push_endpoint, fetch_devices_endpoint, installed_apps_endpoint,
  certificates_endpoint,
}
use micromdm.Management.Shape.{
  add_profile_shape, list_profiles_shape, show_profile_shape, delete_profile_shape,
  add_workflow_shape, list_workflows_shape, list_devices_shape, show_device_shape,
  update_device_shape, push_shape, fetch_devices_shape, installed_apps_shape, certificates_shape,
}
use micromdm.Management.Transport.{
  Bodies, decode_add_profile_request, decode_add_workflow_request, decode_update_device_request,
  decode_installed_apps_request, decode_nothing, decode_show_profile_request,
  decode_delete_profile_request, decode_show_device_request, decode_push_request,
  decode_certificates_request, server,
}

-- "/management/v1/" and what follows.
abbrev pub under : List Segment → List Segment
under p = part "management" ∷ part "v1" ∷ p

abbrev pub devices_fetch_path : List Segment
devices_fetch_path = under (part "devices" ∷ part "fetch" ∷ [])

abbrev pub devices_path : List Segment
devices_path = under (part "devices" ∷ [])

abbrev pub device_path : List Segment
device_path = under (part "devices" ∷ hole "uuid" ∷ [])

abbrev pub device_push_path : List Segment
device_push_path = under (part "devices" ∷ hole "udid" ∷ part "push" ∷ [])

abbrev pub device_applications_path : List Segment
device_applications_path = under (part "devices" ∷ hole "uuid" ∷ part "applications" ∷ [])

abbrev pub device_certificates_path : List Segment
device_certificates_path = under (part "devices" ∷ hole "uuid" ∷ part "certificates" ∷ [])

abbrev pub profiles_path : List Segment
profiles_path = under (part "profiles" ∷ [])

abbrev pub profile_path : List Segment
profile_path = under (part "profiles" ∷ hole "uuid" ∷ [])

abbrev pub workflows_path : List Segment
workflows_path = under (part "workflows" ∷ [])

-- `message` is the method `Error` of errors.
module _ {W : Type 0} (kit : Kit W) (json : Json) (message : Error → String) (bodies : Bodies)
    (svc : Service W) where
  abbrev pub fetch_dep_handler : Request → Action W (List Call)
  fetch_dep_handler =
      server json message kit (fetch_devices_endpoint svc) decode_nothing (fetch_devices_shape json)

  abbrev pub add_profile_handler : Request → Action W (List Call)
  add_profile_handler =
      server json message kit (add_profile_endpoint svc) (decode_add_profile_request bodies)
        (add_profile_shape json)

  abbrev pub list_profiles_handler : Request → Action W (List Call)
  list_profiles_handler =
      server json message kit (list_profiles_endpoint svc) decode_nothing (list_profiles_shape json)

  abbrev pub show_profile_handler : Request → Action W (List Call)
  show_profile_handler =
      server json message kit (show_profile_endpoint svc) decode_show_profile_request
        (show_profile_shape json)

  abbrev pub delete_profile_handler : Request → Action W (List Call)
  delete_profile_handler =
      server json message kit (delete_profile_endpoint svc) decode_delete_profile_request
        (delete_profile_shape json)

  abbrev pub add_workflow_handler : Request → Action W (List Call)
  add_workflow_handler =
      server json message kit (add_workflow_endpoint svc) (decode_add_workflow_request bodies)
        (add_workflow_shape json)

  abbrev pub list_workflows_handler : Request → Action W (List Call)
  list_workflows_handler =
      server json message kit (list_workflows_endpoint svc) decode_nothing
        (list_workflows_shape json)

  abbrev pub list_devices_handler : Request → Action W (List Call)
  list_devices_handler =
      server json message kit (list_devices_endpoint svc) decode_nothing (list_devices_shape json)

  abbrev pub show_device_handler : Request → Action W (List Call)
  show_device_handler =
      server json message kit (show_device_endpoint svc) decode_show_device_request
        (show_device_shape json)

  abbrev pub update_device_handler : Request → Action W (List Call)
  update_device_handler =
      server json message kit (update_device_endpoint svc) (decode_update_device_request bodies)
        (update_device_shape json)

  abbrev pub push_handler : Request → Action W (List Call)
  push_handler = server json message kit (push_endpoint svc) decode_push_request (push_shape json)

  abbrev pub installed_apps_handler : Request → Action W (List Call)
  installed_apps_handler =
      server json message kit (installed_apps_endpoint svc) (decode_installed_apps_request bodies)
        (installed_apps_shape json)

  abbrev pub certificates_handler : Request → Action W (List Call)
  certificates_handler =
      server json message kit (certificates_endpoint svc) decode_certificates_request
        (certificates_shape json)

  abbrev pub on : String → List Segment → (Request → Action W (List Call)) → Route W
  on method pattern handler = record { method = method; pattern = pattern; handler = handler }

  abbrev pub service_handler : List (Route W)
  service_handler =
      on "POST" devices_fetch_path fetch_dep_handler
      ∷ on "GET" devices_path list_devices_handler
      ∷ on "GET" device_path show_device_handler
      ∷ on "PATCH" device_path update_device_handler
      ∷ on "POST" device_push_path push_handler
      ∷ on "GET" device_applications_path installed_apps_handler
      ∷ on "GET" device_certificates_path certificates_handler
      ∷ on "POST" profiles_path add_profile_handler
      ∷ on "GET" profiles_path list_profiles_handler
      ∷ on "GET" profile_path show_profile_handler
      ∷ on "DELETE" profile_path delete_profile_handler
      ∷ on "POST" workflows_path add_workflow_handler
      ∷ on "GET" workflows_path list_workflows_handler
      ∷ []
