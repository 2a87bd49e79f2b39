-- ===== src/Management/Transport.antt =====
-- management/transport.go: how requests are decoded and responses encoded, and the routes.
use micromdm.Base.{
  ℕ, String, ◌==◌, Option, none, some, List, [], ◌∷◌, Error, Result, ok, err, panic, Action, eqb,
  if◌then◌else◌,
}
use Prim.Native.String.{len}
use micromdm.Workflow.Model.{Profile, Workflow}
use micromdm.Http.Reply.{
  Json, ErrorBody, Call, write_header, json_type, Written, Shape, failing, encode_dropping,
  encode_list, encode_value, respond_with, unwrap,
}
use micromdm.Http.Server.{Request, Decoded, is_eof, Kit}
use micromdm.Management.Endpoint.{
  AddProfileRequest, ShowProfileRequest, DeleteProfileRequest, AddWorkflowRequest,
  ShowDeviceRequest, UpdateDeviceRequest, PushRequest, InstalledAppsRequest,
  ListCertificatesRequest,
}

-- The decodings of a body. An embedded pointer is nil unless a key of the body belongs to it. The
-- last takes the UUID that is in the request before.
pub record Bodies : Type 0 where
  pub profile : Result String → Decoded (Option Profile)
  pub workflow : Result String → Decoded (Option Workflow)
  pub workflow_uuid : Result String → Decoded (Option String)
  pub uuid : String → Result String → Decoded String

-- `vars[name]`
abbrev pub variable : {A : Type 0} → Option String → (String → Result A) → Result A
variable none f = err Error.management_bad_routing
variable (some s) f = f s

-- `return request, err`
abbrev pub unless : {A : Type 0} → Option Error → A → Result A
unless none a = ok a
unless (some e) a = err e

-- The fields of the embedded profile are read through its pointer, which may be nil.
abbrev pub with_identifier : Option Profile → Option Error → Result AddProfileRequest
with_identifier none error = panic
with_identifier (some p) error =
    if p.payload_identifier == ""
    then err Error.management_empty_request
    else unless error (record { profile = p })

abbrev pub with_name : Option Workflow → Option Error → Result AddWorkflowRequest
with_name none error = panic
with_name (some wf) error =
    if wf.name == ""
    then err Error.management_empty_request
    else unless error (record { workflow = wf })

module _ (bodies : Bodies) where
  unfoldable pub decode_add_profile_request : Request → Result AddProfileRequest
  decode_add_profile_request r =
      let d = bodies.profile r.body in
      if is_eof d.error then err Error.management_empty_request else with_identifier d.value d.error

  unfoldable pub decode_add_workflow_request : Request → Result AddWorkflowRequest
  decode_add_workflow_request r =
      let d = bodies.workflow r.body in
      if is_eof d.error then err Error.management_empty_request else with_name d.value d.error

  -- Only an empty body is an error here, and in the next decoder.
  unfoldable pub decode_update_device_request : Request → Result UpdateDeviceRequest
  decode_update_device_request r = variable (r.vars "uuid") (λ device_uuid.
      let d = bodies.workflow_uuid r.body in
      if is_eof d.error
      then err Error.management_empty_request
      else ok (record { device_uuid = device_uuid; workflow = d.value }))

  unfoldable pub decode_installed_apps_request : Request → Result InstalledAppsRequest
  decode_installed_apps_request r = variable (r.vars "uuid") (λ device_uuid.
      let d = bodies.uuid device_uuid r.body in
      if is_eof d.error then err Error.management_empty_request else ok (record { uuid = d.value }))

-- The decoders of requests without content.
unfoldable pub decode_nothing : Request → Result (Unit {0})
decode_nothing r = ok tt

unfoldable pub decode_show_profile_request : Request → Result ShowProfileRequest
decode_show_profile_request r = variable (r.vars "uuid") (λ uuid. ok (record { uuid = uuid }))

unfoldable pub decode_delete_profile_request : Request → Result DeleteProfileRequest
decode_delete_profile_request r =
    variable (r.vars "uuid")
      (λ uuid. if eqb (len uuid) 36 then ok (record { uuid = uuid }) else err Error.bad_uuid)

unfoldable pub decode_show_device_request : Request → Result ShowDeviceRequest
decode_show_device_request r = variable (r.vars "uuid") (λ uuid. ok (record { uuid = uuid }))

unfoldable pub decode_push_request : Request → Result PushRequest
decode_push_request r = variable (r.vars "udid") (λ udid. ok (record { udid = udid }))

unfoldable pub decode_certificates_request : Request → Result ListCertificatesRequest
decode_certificates_request r = variable (r.vars "uuid") (λ uuid. ok (record { uuid = uuid }))

-- The `switch` of `encodeError`.
abbrev pub error_status : Error → ℕ
error_status Error.not_found = 404
error_status Error.management_empty_request = 400
error_status Error.bad_uuid = 400
error_status Error.exists = 409
error_status _ = 500

module _ (json : Json) (message : Error → String) where
  -- `encodeError`. The header is set after the status has been sent; a failure to encode is dropped.
  abbrev pub encode_error : Error → List Call
  encode_error e =
      write_header (error_status (unwrap e))
      ∷ json_type
      ∷ encode_dropping (json.encode ErrorBody (record { error = message (unwrap e) }))

  -- `encodeResponse`
  abbrev pub encode_response : Shape → Written
  encode_response s =
      respond_with encode_error (json_type ∷ []) s (encode_value encode_list s.list_encoder s.whole)
        (failing s.errorer)

  -- `kithttp.NewServer` with these encoders.
  abbrev pub server :
      {W A B : Type 0}
      → Kit W
      → (A → Action W B)
      → (Request → Result A)
      → (B → Shape)
      → Request
      → Action W (List Call)
  server {W} {A} {B} kit f d shape = kit.serve A B f d (λ b. encode_response (shape b)) encode_error
