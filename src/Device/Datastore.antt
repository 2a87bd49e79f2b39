-- ===== src/Device/Datastore.antt =====
-- device/datastore.go: the devices in PostgreSQL.
use micromdm.Base.{
  String, ◌<>◌, ◌==◌, Bool, some, List, [], ◌∷◌, Error, Result, ok, err, Action, raise, return,
  wrapping, ◌>>=◌, if◌then◌else◌, join,
}
use micromdm.Services.Sql.{text, bool, time, do_update, Insert, Update, Select, Postgres}
use micromdm.Device.Model.{null_string_value, Device, status_value}
use micromdm.Device.Columns.{named, scan_device, scan_devices}

-- The interface `Datastore`. The parameters of `Devices` are filters, or values of other types,
-- which the code passes over.
pub data Param : Type 0 where
  uuid : String → Param
  serial_number : String → Param
  udid : String → Param
  other : Param

pub record Datastore (W : Type 0) : Type 0 where
  pub new : String → Device → Action W String
  pub get_device_by_udid : String → List String → Action W Device
  pub get_device_by_uuid : String → List String → Action W Device
  pub devices : List Param → Action W (List Device)
  pub save : String → Device → Action W (Unit {0})

-- `fetchDevicesDEP`
abbrev pub fetch_devices_dep : Insert
fetch_devices_dep = record {
  table = "devices";
  columns =
      "serial_number" ∷ "model" ∷ "description" ∷ "color" ∷ "asset_tag" ∷ "dep_profile_status"
      ∷ "dep_profile_uuid" ∷ "dep_profile_assign_time" ∷ "dep_profile_push_time"
      ∷ "dep_profile_assigned_date" ∷ "dep_profile_assigned_by" ∷ "dep_device" ∷ "last_checkin"
      ∷ [];
  on_conflict = do_update "serial_number" (
      ("model", 2)
      ∷ ("description", 3)
      ∷ ("color", 4)
      ∷ ("asset_tag", 5)
      ∷ ("dep_profile_status", 6)
      ∷ ("dep_profile_uuid", 7)
      ∷ ("dep_profile_assign_time", 8)
      ∷ ("dep_profile_push_time", 9)
      ∷ ("dep_profile_assigned_date", 10)
      ∷ ("dep_profile_assigned_by", 11)
      ∷ ("dep_device", 12)
      ∷ ("last_checkin", 13)
      ∷ []);
  returning = some "device_uuid";
}

-- `authenticateMDM`
abbrev pub authenticate_mdm : Insert
authenticate_mdm = record {
  table = "devices";
  columns =
      "udid" ∷ "apple_mdm_topic" ∷ "os_version" ∷ "build_version" ∷ "product_name" ∷ "serial_number"
      ∷ "imei" ∷ "meid" ∷ "model" ∷ "last_checkin" ∷ [];
  on_conflict = do_update "serial_number" (
      ("udid", 1)
      ∷ ("apple_mdm_topic", 2)
      ∷ ("os_version", 3)
      ∷ ("build_version", 4)
      ∷ ("product_name", 5)
      ∷ ("serial_number", 6)
      ∷ ("imei", 7)
      ∷ ("meid", 8)
      ∷ ("model", 9)
      ∷ ("last_checkin", 10)
      ∷ []);
  returning = some "device_uuid";
}

-- `selectDevicesStmt`
abbrev pub select_devices : Select
select_devices = record {
  table = "devices";
  columns =
      "device_uuid" ∷ "udid" ∷ "serial_number" ∷ "os_version" ∷ "product_name" ∷ "last_checkin"
      ∷ "dep_profile_status" ∷ "model" ∷ "workflow_uuid" ∷ "device_name" ∷ [];
}

-- The `where` methods of the filters.
abbrev pub wheres : List Param → List String
wheres [] = []
wheres (uuid s ∷ ps) = ("device_uuid = '" <> (s <> "'")) ∷ wheres ps
wheres (serial_number s ∷ ps) = ("serial_number = '" <> (s <> "'")) ∷ wheres ps
wheres (udid s ∷ ps) = ("udid = '" <> (s <> "'")) ∷ wheres ps
wheres (other ∷ ps) = wheres ps

-- `addWhereFilters`: the text after WHERE, "" where the statement gets no WHERE.
abbrev pub add_where_filters : String → List Param → String
add_where_filters separator params = join (" " <> (separator <> " ")) (wheres params)

-- The UPDATE that each message of `Save` stands for.
unfoldable pub save_statement : String → Result Update
save_statement msg =
    if msg == "assignWorkflow"
    then ok (record { table = "devices"; columns = "workflow_uuid" ∷ []; key = "device_uuid" })
    else if msg == "tokenUpdate"
    then ok (record {
      table = "devices";
      columns =
          "awaiting_configuration" ∷ "apple_push_magic" ∷ "apple_mdm_token" ∷ "mdm_enrolled"
          ∷ "unlock_token" ∷ "last_checkin" ∷ [];
      key = "device_uuid";
    })
    else if msg == "checkout"
    then ok (record { table = "devices"; columns = "mdm_enrolled" ∷ []; key = "device_uuid" })
    else if msg == "queryResponses"
    then ok (record {
      table = "devices";
      columns =
          "last_query_response" ∷ "device_name" ∷ "serial_number" ∷ "model" ∷ "product_name"
          ∷ "imei" ∷ "meid" ∷ "os_version" ∷ "build_version" ∷ "last_checkin" ∷ [];
      key = "device_uuid";
    })
    else err (Error.new "device: unsupported update msg")

module _ {W : Type 0} (store : Postgres W) where
  unfoldable pub get_device_by_udid : String → List String → Action W Device
  get_device_by_udid id fields = do
    row ←
        store.get (record { table = "devices"; columns = fields })
          (record { column = "udid"; value = text id })
    return (scan_device fields row)

  unfoldable pub get_device_by_uuid : String → List String → Action W Device
  get_device_by_uuid id fields = do
    row ←
        store.get (record { table = "devices"; columns = fields })
          (record { column = "device_uuid"; value = text id })
    return (scan_device fields row)

  unfoldable pub new : String → Device → Action W String
  new src d =
      if src == "fetch"
      then store.query_row fetch_devices_dep (
          null_string_value d.serial_number
          ∷ text d.model
          ∷ text d.description
          ∷ text d.color
          ∷ text d.asset_tag
          ∷ status_value d.dep_profile_status
          ∷ text d.dep_profile_uuid
          ∷ time d.dep_profile_assign_time
          ∷ time d.dep_profile_push_time
          ∷ time d.dep_profile_assigned_date
          ∷ text d.dep_profile_assigned_by
          ∷ bool Bool.true
          ∷ time 0
          ∷ [])
      else if src == "authenticate"
      then store.query_row authenticate_mdm (
          null_string_value d.udid
          ∷ text d.mdm_topic
          ∷ text d.os_version
          ∷ text d.build_version
          ∷ text d.product_name
          ∷ null_string_value d.serial_number
          ∷ text d.imei
          ∷ text d.meid
          ∷ text d.model
          ∷ time d.last_checkin
          ∷ [])
      else raise (Error.new ("datastore command not supported \"" <> (src <> "\"")))

  unfoldable pub devices : List Param → Action W (List Device)
  devices params = wrapping "pgStore Devices" (do
    rows ← store.select select_devices (add_where_filters "OR" params)
    return (scan_devices select_devices.columns rows))

  unfoldable pub save : String → Device → Action W (Unit {0})
  save msg dev = do stmt ← return (save_statement msg); store.named_exec stmt (named dev)

  -- `pgStore`
  abbrev pub pg_store : Datastore W
  pg_store = record {
    new = new;
    get_device_by_udid = get_device_by_udid;
    get_device_by_uuid = get_device_by_uuid;
    devices = devices;
    save = save;
  }
