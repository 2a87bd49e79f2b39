-- ===== src/Connect/Service.antt =====
-- connect/service.go
use micromdm.Base.{
  ℕ, zero, suc, String, ◌<>◌, ◌==◌, true, false, not, List, [], ◌∷◌, Error, Result, ok, err, panic,
  Action, pure, raise, return, attempt, wrapping, ◌>>=◌, ◌>>◌, if◌then◌else◌,
}
use micromdm.Mdm.{Response, Payload, QueryResponses, InstalledApplication, CertificateItem}
use micromdm.Device.Model.{Device, scan_string}
use micromdm.Device.Datastore as DeviceStore
use micromdm.Application.Datastore as ApplicationStore
use micromdm.Application.Datastore.{DeviceApplication, NullString, NullInt64}
use micromdm.Certificate.Datastore as CertificateStore
use micromdm.Certificate.Datastore.{Certificate}
use micromdm.Command.Service as Command

pub record Service (W : Type 0) : Type 0 where
  pub acknowledge : Response → Action W ℕ
  pub next_command : Response → Action W (String × ℕ)
  pub fail_command : Response → Action W ℕ

-- `sql.NullString{s, s != ""}`
abbrev pub non_empty : String → NullString
non_empty s = record { string = s; valid = not (s == "") }

-- `Scan` of an int
abbrev pub scan_int : ℕ → NullInt64
scan_int n = record { int64 = n; valid = true }

abbrev pub reported_application : String → InstalledApplication → DeviceApplication
reported_application device_uuid app = record {
  device_uuid = device_uuid;
  application_uuid = "";
  identifier = non_empty app.identifier;
  version = non_empty app.version;
  short_version = non_empty app.short_version;
  name = app.name;
  bundle_size = scan_int app.bundle_size;
  dynamic_size = scan_int app.dynamic_size;
  is_validated = record { boolean = false; valid = false };
}

abbrev pub reported_certificates : String → List CertificateItem → List Certificate
reported_certificates device_uuid [] = []
reported_certificates device_uuid (c ∷ cs) =
    record {
      uuid = "";
      device_uuid = device_uuid;
      contents = c.contents;
      common_name = c.common_name;
      is_identity = c.is_identity;
    }
    ∷ reported_certificates device_uuid cs

-- The fields that `ackQueryResponses` sets; `report` is the JSON text of the responses.
abbrev pub with_responses : QueryResponses → String → ℕ → Device → Device
with_responses q report now existing = record existing {
  last_checkin = now;
  last_query_response = report;
  product_name = q.product_name;
  build_version = q.build_version;
  device_name = q.device_name;
  imei = q.imei;
  meid = q.meid;
  model = q.model;
  os_version = q.os_version;
  serial_number = scan_string q.serial_number;
}

-- `marshal` is `json.Marshal` of the query responses, `now` is `time.Now`.
module _ {W : Type 0} (devices : DeviceStore.Datastore W) (apps : ApplicationStore.Datastore W)
    (certs : CertificateStore.Datastore W) (commands : Command.Service W)
    (marshal : QueryResponses → Result String) (now : Action W ℕ) where
  abbrev pub requeue : String → Device → Action W ℕ
  requeue device_udid existing =
      if existing.awaiting_configuration
      then (do
        commands.new_command
            (record { udid = device_udid; request_type = "DeviceConfigured"; settings = "" })
        pure 1)
      else pure 0

  unfoldable pub check_requeue : String → Action W ℕ
  check_requeue device_udid =
      wrapping "check and requeue"
        (devices.get_device_by_udid device_udid ("awaiting_configuration" ∷ []))
      >>= requeue device_udid

  abbrev pub save_responses : Response → List Device → Action W (Unit {0})
  save_responses req [] = raise (Error.new "no enrolled device matches the one responding")
  save_responses req (existing ∷ []) = do
    t ← now
    report ← return (marshal req.query_responses)
    devices.save "queryResponses" (with_responses req.query_responses report t existing)
  save_responses req (_ ∷ _ ∷ _) = raise (
      Error.new (
        "expected a single device for udid: "
        <> (req.udid
            <> (", serial number: "
                <> (req.query_responses.serial_number <> ", but got more than one.")))))

  unfoldable pub ack_query_responses : Response → Action W (Unit {0})
  ack_query_responses req =
      wrapping "ackQueryResponses fetching device" (
        devices.devices (
          DeviceStore.serial_number req.query_responses.serial_number
          ∷ DeviceStore.udid req.udid
          ∷ []))
      >>= save_responses req

  -- The loop of `ackInstalledApplicationList`
  abbrev pub insert_applications : String → List InstalledApplication → Action W (Unit {0})
  insert_applications device_uuid [] = pure tt
  insert_applications device_uuid (a ∷ as_) =
      wrapping "inserting an application for device"
        (apps.new_device_app (reported_application device_uuid a))
      >>= λ _. insert_applications device_uuid as_

  unfoldable pub ack_installed_application_list : Response → Action W (Unit {0})
  ack_installed_application_list req = do
    dev ←
        wrapping "getting a device record by udid"
          (devices.get_device_by_udid req.udid ("device_uuid" ∷ []))
    wrapping "clearing applications for device" (apps.delete_device_applications dev.uuid)
    insert_applications dev.uuid req.installed_applications

  unfoldable pub ack_certificate_list : Response → Action W (Unit {0})
  ack_certificate_list req = do
    dev ←
        wrapping "getting a device record by udid"
          (devices.get_device_by_udid req.udid ("device_uuid" ∷ []))
    certs.replace_certificates_by_device_uuid dev.uuid
        (reported_certificates dev.uuid req.certificate_list)

  -- The `switch` of `Acknowledge`. The error of `Find` is not looked at: without a payload the
  -- switch reads a field of a nil pointer, which panics.
  unfoldable pub dispatch : Response → Result Payload → Action W (Unit {0})
  unfolding ack_query_responses ack_installed_application_list ack_certificate_list
  dispatch req (ok payload) =
      if payload.request_type == "DeviceInformation"
      then ack_query_responses req
      else if payload.request_type == "InstalledApplicationList"
      then ack_installed_application_list req
      else if payload.request_type == "CertificateList"
      then ack_certificate_list req
      else pure tt
  dispatch req (err e) = return panic
  dispatch req panic = return panic

  abbrev pub when_empty : String → ℕ → Action W ℕ
  when_empty device_udid zero = check_requeue device_udid
  when_empty device_udid (suc n) = pure (suc n)

  unfoldable pub acknowledge : Response → Action W ℕ
  unfolding check_requeue dispatch
  acknowledge req = do
    request_payload ← attempt (commands.find req.command_uuid)
    dispatch req request_payload
    total ← commands.delete_command req.udid req.command_uuid
    when_empty req.udid total

  unfoldable pub next_command : Response → Action W (String × ℕ)
  next_command req = commands.next_command req.udid

  unfoldable pub fail_command : Response → Action W ℕ
  fail_command req = commands.delete_command req.udid req.command_uuid

  -- `NewService`
  abbrev pub new_service : Service W
  new_service = record {
    acknowledge = acknowledge;
    next_command = next_command;
    fail_command = fail_command;
  }
