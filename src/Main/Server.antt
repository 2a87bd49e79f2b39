-- ===== src/Main/Server.antt =====
-- main.go, lines 159 to 225: the datastores and services of a running server.
use micromdm.Base.{ℕ, String, Bool, List, ◌∷◌, Result, ok, err, Error, Action}
use micromdm.Mdm.{CommandRequest, Payload, Plist, NewPayload, QueryResponses, DepDevice}
use micromdm.Services.Redis.{Redis}
use micromdm.Services.Sql.{Postgres, Row}
use micromdm.Services.Backend.{Backend, cache, tables}
use micromdm.Command.Datastore as CommandStore
use micromdm.Command.Service as Command
use micromdm.Command.Queue.{issue}
use micromdm.Device.Datastore as DeviceStore
use micromdm.Workflow.Datastore as WorkflowStore
use micromdm.Application.Datastore as ApplicationStore
use micromdm.Certificate.Datastore as CertificateStore
use micromdm.Management.Service as Management
use micromdm.Management.Service.{Apple}
use micromdm.Checkin.Service as Checkin
use micromdm.Connect.Service as Connect

-- The libraries as functions, and the enrollment profile that is read from disk.
pub record Library : Type 0 where
  pub plist : Plist
  pub marshal : QueryResponses → Result String
  pub is_device_token_valid : String → Bool
  pub profile : String

-- What a server calls.
pub record Environment (W : Type 0) : Type 0 where
  pub redis : Redis W
  pub postgres : Postgres W
  -- the RIGHT JOIN of `GetApplicationsByDeviceUUID`
  pub applications_of : String → Action W (List Row)
  pub apple : Apple W
  pub new_payload : NewPayload W
  pub now : Action W ℕ

module _ {W : Type 0} (l : Library) (e : Environment W) where
  abbrev pub device_db : DeviceStore.Datastore W
  device_db = DeviceStore.pg_store e.postgres

  abbrev pub workflow_db : WorkflowStore.Datastore W
  workflow_db = WorkflowStore.pg_store e.postgres

  abbrev pub apps_db : ApplicationStore.Datastore W
  apps_db = ApplicationStore.pg_store e.postgres e.applications_of

  abbrev pub certs_db : CertificateStore.Datastore W
  certs_db = CertificateStore.pg_store e.postgres

  abbrev pub mgmt_svc : Management.Service W
  mgmt_svc =
      Management.new_service device_db workflow_db l.is_device_token_valid e.apple apps_db certs_db

  abbrev pub command_svc : Command.Service W
  command_svc = Command.new_service (CommandStore.redis_db e.redis l.plist) e.new_payload

  abbrev pub checkin_svc : Checkin.Service W
  checkin_svc = Checkin.new_service device_db mgmt_svc.push command_svc l.profile e.now

  abbrev pub connect_svc : Connect.Service W
  connect_svc = Connect.new_service device_db apps_db certs_db command_svc l.marshal e.now

-- The environment of the reference model: `build` makes a payload from a fresh identifier, Apple's
-- service accepts every notification, and DEP lists `fetched`.
abbrev pub model : (String → CommandRequest → Result Payload) → List DepDevice → Environment Backend
model build fetched = record {
  redis = cache;
  postgres = tables;
  applications_of = λ id b. (err (Error.fault "column reference \"name\" is ambiguous"), b);
  apple = record {
    send = λ token magic b. (ok token, record b { pushed = (token, magic) ∷ b.pushed });
    fetch_devices = λ b. (ok fetched, b);
  };
  new_payload = issue build;
  now = λ b. (ok b.now, b);
}
