-- ===== src/Command/Transport.antt =====
-- command/transport.go: how requests are decoded and responses encoded, and the routes. Only the
-- response of newCommand has a method `error`, and none has `status` or `encodeList`.
use micromdm.Base.{
  String, Option, none, some, List, [], ◌∷◌, Error, Result, ok, err, panic, Action, return,
}
use micromdm.Mdm.{CommandRequest}
use micromdm.Http.Reply.{
  Json, ErrorBody, Call, write_header, json_type, Written, Shape, failing, encode_dropping,
  encode_list, encode_value, respond_with, unwrap,
}
use micromdm.Http.Server.{Request, Decoded, Segment, part, hole, Kit, Route}
use micromdm.Command.Service.{Service}
use micromdm.Command.Endpoint.{
  NewCommandResponse, NextCommandRequest, NextCommandResponse, DeleteCommandRequest,
  DeleteCommandResponse, GetCommandsRequest, GetCommandsResponse, new_command_endpoint,
  next_command_endpoint, delete_command_endpoint, get_commands_endpoint,
}

-- `vars[name]`
abbrev pub variable : {A : Type 0} → Option String → (String → Result A) → Result A
variable none f = err Error.command_bad_routing
variable (some s) f = f s

-- `return request, err`
abbrev pub decoded : {A : Type 0} → Decoded A → Result A
decoded d = elim d.error [ none ↦ ok d.value | some e ↦ err e ]

-- `body` decodes the JSON of a request; the pointer is nil where that is `null`.
unfoldable pub decode_new_command_request :
    (Result String → Decoded (Option CommandRequest)) → Request → Result (Option CommandRequest)
decode_new_command_request body r = decoded (body r.body)

unfoldable pub decode_next_command_request : Request → Result NextCommandRequest
decode_next_command_request r = variable (r.vars "udid") (λ udid. ok (record { udid = udid }))

unfoldable pub decode_delete_command_request : Request → Result DeleteCommandRequest
decode_delete_command_request r =
    variable (r.vars "udid")
      (λ udid. variable (r.vars "uuid") (λ uuid. ok (record { udid = udid; uuid = uuid })))

unfoldable pub decode_get_commands_request : Request → Result GetCommandsRequest
decode_get_commands_request r = variable (r.vars "udid") (λ udid. ok (record { udid = udid }))

-- The fields of the embedded request are read through its pointer.
abbrev pub new_command_of :
    {W : Type 0} → Service W → Option CommandRequest → Action W NewCommandResponse
new_command_of svc none = return panic
new_command_of svc (some req) = new_command_endpoint svc req

module _ (json : Json) where
  -- A response of the type `A` without methods.
  abbrev pub plain_shape : (A : Type 0) → A → Shape
  plain_shape A r = record {
    errorer = none;
    statuser = none;
    list_encoder = none;
    whole = json.encode A r;
  }

  abbrev pub new_command_shape : NewCommandResponse → Shape
  new_command_shape r = record (plain_shape NewCommandResponse r) { errorer = some r.error }

  module _ (message : Error → String) where
    -- `encodeError`, which sets the header after the status has been sent.
    abbrev pub encode_error : Error → List Call
    encode_error e =
        write_header 500
        ∷ json_type
        ∷ encode_dropping (json.encode ErrorBody (record { error = message (unwrap e) }))

    -- `encodeResponse`
    abbrev pub encode_response : Shape → Written
    encode_response s =
        respond_with encode_error (json_type ∷ []) s
          (encode_value encode_list s.list_encoder s.whole) (failing s.errorer)

    abbrev pub server :
        {W A B : Type 0}
        → Kit W
        → (A → Action W B)
        → (Request → Result A)
        → (B → Shape)
        → Request
        → Action W (List Call)
    server {W} {A} {B} kit f d shape =
        kit.serve A B f d (λ b. encode_response (shape b)) encode_error

    module _ {W : Type 0} (kit : Kit W) (svc : Service W) where
      abbrev pub new_command_handler :
          (Result String → Decoded (Option CommandRequest)) → Request → Action W (List Call)
      new_command_handler body =
          server kit (new_command_of svc) (decode_new_command_request body) new_command_shape

      abbrev pub next_command_handler : Request → Action W (List Call)
      next_command_handler =
          server kit (next_command_endpoint svc) decode_next_command_request
            (plain_shape NextCommandResponse)

      abbrev pub delete_command_handler : Request → Action W (List Call)
      delete_command_handler =
          server kit (delete_command_endpoint svc) decode_delete_command_request
            (plain_shape DeleteCommandResponse)

      abbrev pub get_commands_handler : Request → Action W (List Call)
      get_commands_handler =
          server kit (get_commands_endpoint svc) decode_get_commands_request
            (plain_shape GetCommandsResponse)

      -- "/mdm/commands" and what follows.
      abbrev under : List Segment → List Segment
      under p = part "mdm" ∷ part "commands" ∷ p

      abbrev pub service_handler :
          (Result String → Decoded (Option CommandRequest)) → List (Route W)
      service_handler body =
          record {
            method = "GET";
            pattern = under (hole "udid" ∷ []);
            handler = get_commands_handler;
          }
          ∷ record { method = "POST"; pattern = under []; handler = new_command_handler body }
          ∷ record {
            method = "GET";
            pattern = under (hole "udid" ∷ part "next" ∷ []);
            handler = next_command_handler;
          }
          ∷ record {
            method = "DELETE";
            pattern = under (hole "udid" ∷ hole "uuid" ∷ []);
            handler = delete_command_handler;
          }
          ∷ []
