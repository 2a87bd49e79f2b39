-- ===== src/Command/Service.antt =====
-- command/service.go
use micromdm.Base.{ℕ, String, List, Action, pure, ◌>>=◌, ◌>>◌}
use micromdm.Mdm.{CommandRequest, Payload, NewPayload}
use micromdm.Command.Datastore.{Datastore}

-- The interface `Service`.
pub record Service (W : Type 0) : Type 0 where
  pub new_command : CommandRequest → Action W Payload
  pub next_command : String → Action W (String × ℕ)
  pub delete_command : String → String → Action W ℕ
  pub commands : String → Action W (List Payload)
  pub find : String → Action W Payload

module _ {W : Type 0} (db : Datastore W) (new_payload : NewPayload W) where
  unfoldable pub new_command : CommandRequest → Action W Payload
  new_command request = do
    payload ← new_payload request
    db.save_payload payload
    db.queue_command request.udid payload.command_uuid
    pure payload

  abbrev pub new_service : Service W
  new_service = record {
    new_command = new_command;
    next_command = db.next_command;
    delete_command = db.delete_command;
    commands = db.commands;
    find = db.find;
  }
