-- ===== src/Device/Refinement.antt =====
-- The device datastore in any world that behaves like the reference model.
use micromdm.Base.{String, List, ◌==◌}
use micromdm.Services.Sql.{Postgres}
use micromdm.Services.Backend.{Backend, tables}
use micromdm.Services.Lawful.{
  World, Behaves, return-Behaves, raise-Behaves, bind-Behaves, if-Behaves, wrapping-Behaves,
  IsPostgres,
}
use micromdm.Device.Model.{Device}
use micromdm.Device.Columns.{named, scan_device, scan_devices}
use micromdm.Device.Datastore.{
  Param, Datastore, select_devices, add_where_filters, save_statement, get_device_by_udid,
  get_device_by_uuid, new, devices, save, pg_store,
}

pub record IsDatastore {W : Type 0} (o : World W) (d : Datastore W) (d' : Datastore Backend)
    : Type 0 where
  pub new : (src : String) (dev : Device) → Behaves o (d.new src dev) (d'.new src dev)
  pub get_device_by_udid :
      (id : String) (fields : List String)
      → Behaves o (d.get_device_by_udid id fields) (d'.get_device_by_udid id fields)
  pub get_device_by_uuid :
      (id : String) (fields : List String)
      → Behaves o (d.get_device_by_uuid id fields) (d'.get_device_by_uuid id fields)
  pub devices : (ps : List Param) → Behaves o (d.devices ps) (d'.devices ps)
  pub save : (msg : String) (dev : Device) → Behaves o (d.save msg dev) (d'.save msg dev)

module _ {W : Type 0} {o : World W} {store : Postgres W} (lawful : IsPostgres o store) where
  -- The device datastore over a PostgreSQL that behaves like the reference model behaves,
  -- operation by operation, like the datastore over the model.
  pub pg_store-IsDatastore : IsDatastore o (pg_store store) (pg_store tables)
  unfolding new get_device_by_udid get_device_by_uuid devices save
  pg_store-IsDatastore = record {
    new = λ src d.
        if-Behaves (src == "fetch") (lawful.query_row _ _)
          (if-Behaves (src == "authenticate") (lawful.query_row _ _) (raise-Behaves _));
    get_device_by_udid =
        λ id fields. bind-Behaves (lawful.get _ _) (λ r. return-Behaves (scan_device fields r));
    get_device_by_uuid =
        λ id fields. bind-Behaves (lawful.get _ _) (λ r. return-Behaves (scan_device fields r));
    devices = λ ps. wrapping-Behaves "pgStore Devices" (
        bind-Behaves (lawful.select select_devices (add_where_filters "OR" ps))
          (λ rs. return-Behaves (scan_devices select_devices.columns rs)));
    save = λ msg d.
        bind-Behaves (return-Behaves (save_statement msg)) (λ q. lawful.named_exec q (named d));
  }
