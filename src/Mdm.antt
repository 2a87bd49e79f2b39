-- ===== src/Mdm.antt =====
-- What the repository uses of github.com/micromdm/mdm, github.com/micromdm/dep and
-- github.com/groob/plist, which it does not contain: the fields that it reads or writes of their
-- structs, and their functions as parameters.
use micromdm.Base.{ℕ, String, Bool, Option, List, Result, Action}

-- mdm.CommandRequest: a payload's own settings are `settings`, which the code passes on unread.
pub record CommandRequest : Type 0 where
  pub udid : String
  pub request_type : String
  pub settings : String

-- mdm.Payload, with `Command.RequestType` as `request_type`
pub record Payload : Type 0 where
  pub command_uuid : String
  pub request_type : String
  pub settings : String

pub record QueryResponses : Type 0 where
  pub serial_number : String
  pub product_name : String
  pub build_version : String
  pub device_name : String
  pub imei : String
  pub meid : String
  pub model : String
  pub os_version : String

pub record InstalledApplication : Type 0 where
  pub name : String
  pub identifier : String
  pub short_version : String
  pub version : String
  pub bundle_size : ℕ
  pub dynamic_size : ℕ

pub record CertificateItem : Type 0 where
  pub common_name : String
  pub is_identity : Bool
  pub contents : String

-- mdm.Response: what a device sends to /mdm/connect
pub record Response : Type 0 where
  pub udid : String
  pub user_id : Option String
  pub status : String
  pub request_type : String
  pub command_uuid : String
  pub query_responses : QueryResponses
  pub installed_applications : List InstalledApplication
  pub certificate_list : List CertificateItem

-- mdm.CheckinCommand, with the tokens in the text form that their `String` method gives
pub record CheckinCommand : Type 0 where
  pub message_type : String
  pub udid : String
  pub user_id : String
  pub serial_number : String
  pub os_version : String
  pub build_version : String
  pub product_name : String
  pub imei : String
  pub meid : String
  pub topic : String
  pub model : String
  pub device_name : String
  pub token : String
  pub push_magic : String
  pub unlock_token : String
  pub awaiting_configuration : Bool

-- dep.Device
pub record DepDevice : Type 0 where
  pub serial_number : String
  pub model : String
  pub description : String
  pub color : String
  pub asset_tag : String
  pub profile_status : String
  pub profile_uuid : String
  pub profile_assign_time : ℕ
  pub profile_push_time : ℕ
  pub device_assigned_date : ℕ
  pub device_assigned_by : String

-- plist.NewEncoder(…).Encode and plist.NewDecoder(…).Decode on payloads
pub record Plist : Type 0 where
  pub encode : Payload → Result String
  pub decode : String → Result Payload

-- mdm.NewPayload, which generates the payload's identifier
abbrev pub NewPayload : Type 0 → Type 0
NewPayload W = CommandRequest → Action W Payload
