-- ===== src/Checkin/Service.antt =====
-- checkin/service.go
use micromdm.Base.{
  ℕ, String, ◌==◌, true, false, not, List, [], ◌∷◌, Error, Action, pure, raise, attempt, ◌>>=◌,
  ◌>>◌, if◌then◌else◌,
}
use micromdm.Mdm.{CheckinCommand, CommandRequest}
use micromdm.Device.Model.{Device, zero_device, scan_string}
use micromdm.Device.Datastore.{Datastore, serial_number}
use micromdm.Command.Service as Command

pub record Service (W : Type 0) : Type 0 where
  pub authenticate : CheckinCommand → Action W (Unit {0})
  pub token_update : CheckinCommand → Action W (Unit {0})
  pub checkout : CheckinCommand → Action W (Unit {0})
  pub enroll_dep : String → String → Action W String

-- `Scan` of a Go string never fails.
abbrev pub authenticated : CheckinCommand → ℕ → Device
authenticated cmd now = record zero_device {
  udid = scan_string cmd.udid;
  serial_number = scan_string cmd.serial_number;
  os_version = cmd.os_version;
  build_version = cmd.build_version;
  product_name = cmd.product_name;
  imei = cmd.imei;
  meid = cmd.meid;
  mdm_topic = cmd.topic;
  model = cmd.model;
  device_name = cmd.device_name;
  last_checkin = now;
}

-- The fields that `TokenUpdate` sets.
abbrev pub with_tokens : CheckinCommand → ℕ → Device → Device
with_tokens cmd now existing = record existing {
  token = cmd.token;
  mdm_topic = cmd.topic;
  push_magic = cmd.push_magic;
  unlock_token = cmd.unlock_token;
  awaiting_configuration = cmd.awaiting_configuration;
  enrolled = true;
  last_checkin = now;
}

abbrev pub device_configured : String → CommandRequest
device_configured device_udid = record {
  udid = device_udid;
  request_type = "DeviceConfigured";
  settings = "";
}

-- `push` is `Push` of the management service, `now` is `time.Now`, `profile` the profile on disk.
module _ {W : Type 0} (devices : Datastore W) (push : String → Action W String)
    (commands : Command.Service W) (profile : String) (now : Action W ℕ) where
  unfoldable pub authenticate : CheckinCommand → Action W (Unit {0})
  authenticate cmd = do t ← now; devices.new "authenticate" (authenticated cmd t); pure tt

  -- The result of the push is dropped.
  unfoldable pub token_update : CheckinCommand → Action W (Unit {0})
  token_update cmd = if not (cmd.user_id == "") then pure tt else do
    existing ← devices.get_device_by_udid cmd.udid ("device_uuid" ∷ [])
    t ← now
    devices.save "tokenUpdate" (with_tokens cmd t existing)
    attempt (push cmd.udid)
    pure tt

  unfoldable pub checkout : CheckinCommand → Action W (Unit {0})
  checkout cmd = do
    existing ← devices.get_device_by_udid cmd.udid ("device_uuid" ∷ [])
    devices.save "checkout" (record existing { enrolled = false })

  unfoldable pub send_configured : String → Action W (Unit {0})
  send_configured device_udid = do commands.new_command (device_configured device_udid); pure tt

  abbrev pub setup : String → List Device → Action W (Unit {0})
  setup device_udid [] = raise (Error.new "device not found")
  setup device_udid (dev ∷ _) = if dev.workflow == "" then send_configured device_udid else pure tt

  unfoldable pub initial_setup : String → String → Action W (Unit {0})
  unfolding send_configured
  initial_setup device_udid serial =
      devices.devices (serial_number serial ∷ []) >>= setup device_udid

  -- An error of the setup is printed and dropped.
  unfoldable pub enroll_dep : String → String → Action W String
  unfolding initial_setup
  enroll_dep udid serial = attempt (initial_setup udid serial) >>= λ _. pure profile

  -- `NewService`
  abbrev pub new_service : Service W
  new_service = record {
    authenticate = authenticate;
    token_update = token_update;
    checkout = checkout;
    enroll_dep = enroll_dep;
  }
