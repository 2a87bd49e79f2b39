-- ===== src/Device/Model.antt =====
-- device/device.go: a device, and the device that DEP describes.
use micromdm.Base.{ℕ, String, ◌<>◌, ◌==◌, Bool, true, false, Error, Result, ok, err, if◌then◌else◌}
use micromdm.Mdm.{DepDevice}
use micromdm.Services.Sql.{Value, null, text}

-- JsonNullString: `sql.NullString`, a text or NULL.
pub record JsonNullString : Type 0 where
  pub string : String
  pub valid : Bool

-- `ns.Scan(s)` of a Go string, which is valid also where it is empty.
abbrev pub scan_string : String → JsonNullString
scan_string s = record { string = s; valid = true }

abbrev pub null_string : JsonNullString
null_string = record { string = ""; valid = false }

-- `MarshalJSON`
pub marshal_json : JsonNullString → String
marshal_json ns = if ns.valid then "\"" <> (ns.string <> "\"") else "null"

-- `Value` of `sql.NullString`
abbrev pub null_string_value : JsonNullString → Value
null_string_value ns = if ns.valid then text ns.string else null

pub record Device : Type 0 where
  pub uuid : String
  pub udid : JsonNullString
  pub serial_number : JsonNullString
  pub os_version : String
  pub build_version : String
  pub product_name : String
  pub imei : String
  pub meid : String
  pub mdm_topic : String
  pub push_magic : String
  pub awaiting_configuration : Bool
  pub token : String
  pub unlock_token : String
  pub enrolled : Bool
  pub workflow : String
  pub dep_device : Bool
  pub description : String
  pub model : String
  pub color : String
  pub asset_tag : String
  pub dep_profile_status : String
  pub dep_profile_uuid : String
  pub dep_profile_assign_time : ℕ
  pub dep_profile_push_time : ℕ
  pub dep_profile_assigned_date : ℕ
  pub dep_profile_assigned_by : String
  pub last_checkin : ℕ
  pub device_name : String
  pub last_query_response : String

-- `Device{}`
abbrev pub zero_device : Device
zero_device = record {
  uuid = "";
  udid = null_string;
  serial_number = null_string;
  os_version = "";
  build_version = "";
  product_name = "";
  imei = "";
  meid = "";
  mdm_topic = "";
  push_magic = "";
  awaiting_configuration = false;
  token = "";
  unlock_token = "";
  enrolled = false;
  workflow = "";
  dep_device = false;
  description = "";
  model = "";
  color = "";
  asset_tag = "";
  dep_profile_status = "";
  dep_profile_uuid = "";
  dep_profile_assign_time = 0;
  dep_profile_push_time = 0;
  dep_profile_assigned_date = 0;
  dep_profile_assigned_by = "";
  last_checkin = 0;
  device_name = "";
  last_query_response = "";
}

-- `DEPProfileStatus.Value`
abbrev pub status_value : String → Value
status_value status = if status == "" then text "empty" else text status

-- `DEPProfileStatus.Scan`
abbrev pub status_scan : Value → Result String
status_scan null = ok "empty"
status_scan (text s) = ok s
status_scan _ = err (Error.new "failed to scan DEPProfileStatus")

unfoldable pub new_from_dep : DepDevice → Device
new_from_dep dd = record zero_device {
  serial_number = scan_string dd.serial_number;
  model = dd.model;
  description = dd.description;
  color = dd.color;
  asset_tag = dd.asset_tag;
  dep_profile_status = dd.profile_status;
  dep_profile_uuid = dd.profile_uuid;
  dep_profile_assign_time = dd.profile_assign_time;
  dep_profile_push_time = dd.profile_push_time;
  dep_profile_assigned_date = dd.device_assigned_date;
  dep_profile_assigned_by = dd.device_assigned_by;
}
