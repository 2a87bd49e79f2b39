-- ===== src/Main/Refinement.antt =====
-- A server whose environment behaves like the reference model answers every request of a device
-- as the server over the model does.
use micromdm.Base.{String, List, Result}
use micromdm.Mdm.{CommandRequest, Payload, DepDevice, Response, CheckinCommand}
use micromdm.Services.Backend.{Backend}
use micromdm.Services.Lawful.{
  World, Behaves, IsRedis, IsPostgres, bind-Behaves, wrapping-Behaves, if-Behaves, raise-Behaves,
}
use micromdm.Command.Refinement as CommandRefinement
use micromdm.Device.Refinement.{pg_store-IsDatastore}
use micromdm.Application.Datastore.{new_device_app, delete_device_applications}
use micromdm.Management.Service.{push}
use micromdm.Checkin.Refinement.{authenticate-Behaves, token_update-Behaves, checkout-Behaves}
use micromdm.Connect.Service.{ack_installed_application_list}
use micromdm.Connect.Endpoint.{connect_endpoint}
use micromdm.Connect.Refinement.{
  IsInventory, replace_certificates-Behaves, connect_endpoint-Behaves,
  ack_installed_application_list-Behaves,
}
use micromdm.Main.Server.{
  device_db, Library, Environment, model, apps_db, certs_db, mgmt_svc, command_svc, checkin_svc,
  connect_svc,
}

-- What the program relies on of its environment.
pub record IsEnvironment {W : Type 0} (o : World W) (e : Environment W) (e' : Environment Backend)
    : Type 0 where
  pub redis : IsRedis o e.redis
  pub postgres : IsPostgres o e.postgres
  pub new_payload : (q : CommandRequest) → Behaves o (e.new_payload q) (e'.new_payload q)
  pub now : Behaves o e.now e'.now
  pub send :
      (token magic : String) → Behaves o (e.apple.send token magic) (e'.apple.send token magic)

module _ {W : Type 0} {o : World W} {e : Environment W}
    (build : String → CommandRequest → Result Payload) (fetched : List DepDevice)
    (lawful : IsEnvironment o e (model build fetched)) (l : Library) where
  push-Behaves :
      (u : String) → Behaves o ((mgmt_svc l e).push u) ((mgmt_svc l (model build fetched)).push u)
  unfolding push
  push-Behaves u =
      bind-Behaves
        (wrapping-Behaves "retrieving device by UDID"
          ((pg_store-IsDatastore lawful.postgres).get_device_by_udid u _))
        (λ d.
          if-Behaves (l.is_device_token_valid d.token) (lawful.send d.token d.push_magic)
            (raise-Behaves _))

  command_svc-IsService :
      CommandRefinement.IsService o (command_svc l e) (command_svc l (model build fetched))
  command_svc-IsService =
      CommandRefinement.new_service-IsService lawful.redis l.plist lawful.new_payload

  inventory :
      IsInventory o
        (apps_db l e)
        (apps_db l (model build fetched))
        (certs_db l e)
        (certs_db l (model build fetched))
  unfolding new_device_app delete_device_applications
  inventory = record {
    new_device_app = λ a. wrapping-Behaves "inserting application" (lawful.postgres.query_row _ _);
    delete_device_applications = λ id. lawful.postgres.delete _ _;
    replace_certificates = replace_certificates-Behaves lawful.postgres;
  }

  -- Every request to the connect endpoint ends in the same reply, and in the same change of what
  -- can be seen of the world, as over the reference model, and leaves the services answering:
  -- where the environment behaves like the model, and the services answer.
  pub connect_refines :
      (req : Response)
      → Behaves o
          (connect_endpoint (connect_svc l e) req)
          (connect_endpoint (connect_svc l (model build fetched)) req)
  connect_refines =
      connect_endpoint-Behaves l.marshal (pg_store-IsDatastore lawful.postgres) inventory
        command_svc-IsService lawful.now

  pub token_update_refines :
      (cmd : CheckinCommand)
      → Behaves o
          ((checkin_svc l e).token_update cmd)
          ((checkin_svc l (model build fetched)).token_update cmd)
  token_update_refines =
      token_update-Behaves l.profile (pg_store-IsDatastore lawful.postgres) push-Behaves
        command_svc-IsService lawful.now

  pub checkout_refines :
      (cmd : CheckinCommand)
      → Behaves o
          ((checkin_svc l e).checkout cmd)
          ((checkin_svc l (model build fetched)).checkout cmd)
  checkout_refines =
      checkout-Behaves l.profile (pg_store-IsDatastore lawful.postgres) push-Behaves
        command_svc-IsService lawful.now

  pub authenticate_refines :
      (cmd : CheckinCommand)
      → Behaves o
          ((checkin_svc l e).authenticate cmd)
          ((checkin_svc l (model build fetched)).authenticate cmd)
  authenticate_refines =
      authenticate-Behaves l.profile (pg_store-IsDatastore lawful.postgres) push-Behaves
        command_svc-IsService lawful.now

  pub ack_applications_refines :
      (req : Response)
      → Behaves o
          (ack_installed_application_list
            (device_db l e)
            (apps_db l e)
            (certs_db l e)
            (command_svc l e)
            l.marshal
            e.now
            req)
          (ack_installed_application_list
            (device_db l (model build fetched))
            (apps_db l (model build fetched))
            (certs_db l (model build fetched))
            (command_svc l (model build fetched))
            l.marshal
            (model build fetched).now
            req)
  ack_applications_refines =
      ack_installed_application_list-Behaves l.marshal (pg_store-IsDatastore lawful.postgres)
        inventory command_svc-IsService lawful.now
