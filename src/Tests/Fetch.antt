-- ===== src/Tests/Fetch.antt =====
-- A device of the fixture that DEP lists.
use micromdm.Base.{string_dec, refl}
use micromdm.Mdm.{DepDevice}
use micromdm.Services.Backend.{tables}
use micromdm.Device.Model.{new_from_dep}
use micromdm.Device.Datastore.{pg_store}
use micromdm.Main.Fetch.{IsFetched, fetch-IsFetched}
use micromdm.Tests.Data.{world, tables-IsPostgres, server, device_row}

abbrev listed : DepDevice
listed = record {
  serial_number = "serial-1";
  model = "MacBook";
  description = "";
  color = "";
  asset_tag = "tag";
  profile_status = "";
  profile_uuid = "";
  profile_assign_time = 0;
  profile_push_time = 0;
  device_assigned_date = 3;
  device_assigned_by = "admin";
}

fetch-IsFetched_example :
    let (r, w) = (pg_store tables).new "fetch" (new_from_dep listed) server in
    IsFetched listed "id-1" device_row server r w
unfolding string_dec
fetch-IsFetched_example =
    fetch-IsFetched world tables tables-IsPostgres listed "id-1" device_row server refl refl refl
