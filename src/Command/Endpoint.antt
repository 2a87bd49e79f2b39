-- ===== src/Command/Endpoint.antt =====
-- command/endpoint.go: the checks of a request before the service is called. An endpoint returns
-- its response and no error of its own.
use micromdm.Base.{
  ℕ, String, ◌==◌, ◌||◌, Option, none, some, List, [], Error, Action, pure, respond, if◌then◌else◌,
}
use micromdm.Mdm.{CommandRequest, Payload}
use micromdm.Command.Service.{Service}

pub record NewCommandResponse : Type 0 where
  pub payload : Option Payload
  pub error : Option Error

pub record NextCommandRequest : Type 0 where
  pub udid : String

pub record NextCommandResponse : Type 0 where
  pub payload : String
  pub total : ℕ
  pub error : Option Error

pub record DeleteCommandRequest : Type 0 where
  pub udid : String
  pub uuid : String

pub record DeleteCommandResponse : Type 0 where
  pub total : ℕ
  pub error : Option Error

pub record GetCommandsRequest : Type 0 where
  pub udid : String

pub record GetCommandsResponse : Type 0 where
  pub commands : List Payload
  pub error : Option Error

abbrev new_command_error : Error → NewCommandResponse
new_command_error e = record { payload = none; error = some e }

abbrev next_command_error : Error → NextCommandResponse
next_command_error e = record { payload = ""; total = 0; error = some e }

abbrev delete_command_error : Error → DeleteCommandResponse
delete_command_error e = record { total = 0; error = some e }

abbrev get_commands_error : Error → GetCommandsResponse
get_commands_error e = record { commands = []; error = some e }

module _ {W : Type 0} (svc : Service W) where
  unfoldable pub new_command_endpoint : CommandRequest → Action W NewCommandResponse
  new_command_endpoint req =
      if req.udid == "" || req.request_type == ""
      then pure (new_command_error Error.command_empty_request)
      else respond (λ payload. record { payload = some payload; error = none }) new_command_error
          (svc.new_command req)

  unfoldable pub next_command_endpoint : NextCommandRequest → Action W NextCommandResponse
  next_command_endpoint req =
      if req.udid == ""
      then pure (next_command_error Error.command_empty_request)
      else respond (λ r. record { payload = r.0; total = r.1; error = none }) next_command_error
          (svc.next_command req.udid)

  unfoldable pub delete_command_endpoint : DeleteCommandRequest → Action W DeleteCommandResponse
  delete_command_endpoint req =
      if req.udid == ""
      then pure (delete_command_error Error.command_empty_request)
      else if req.uuid == ""
      then pure (delete_command_error Error.command_empty_request)
      else respond (λ total. record { total = total; error = none }) delete_command_error
          (svc.delete_command req.udid req.uuid)

  unfoldable pub get_commands_endpoint : GetCommandsRequest → Action W GetCommandsResponse
  get_commands_endpoint req =
      if req.udid == ""
      then pure (get_commands_error Error.command_empty_request)
      else respond (λ commands. record { commands = commands; error = none }) get_commands_error
          (svc.commands req.udid)
