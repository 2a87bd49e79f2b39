-- ===== src/Main/Configuration.antt =====
-- connect/service.go, `checkRequeue`: a device that awaits its configuration, and for which no
-- command is left, is told that it is configured.
use micromdm.Base.{
  String, List, [], ◌∷◌, some, Result, ok, ◌≡◌, ◌≢◌, true, ap, ◌∙◌, arith, length, string_dec,
}
use micromdm.Mdm.{CommandRequest, Payload, DepDevice, Response}
use micromdm.Services.Sql.{Row, text, bool, same}
use micromdm.Services.Backend.{Backend, list, str, cache, without, first}
use micromdm.Services.Lawful.{World, transfer}
use micromdm.Command.Datastore.{delete_command, redis_db}
use micromdm.Command.Service.{new_command}
use micromdm.Command.Queue.{
  waiting, issue, next_command-Rotated, delete_command-Deleted, delete_command-rows,
  new_command-Queued,
}
use micromdm.Command.Cycle.{elements-eq-ok}
use micromdm.Device.Datastore.{get_device_by_udid}
use micromdm.Device.Columns.{scan_device}
use micromdm.Checkin.Service.{device_configured}
use micromdm.Connect.Service.{check_requeue}
use micromdm.Connect.Endpoint.{ConnectResponse, sent, connect_endpoint}
use micromdm.Main.Server.{
  Library, Environment, model, connect_svc, command_svc, device_db, apps_db, certs_db,
}
use micromdm.Main.Refinement.{IsEnvironment, connect_refines}
use micromdm.Main.Queue.{IsAck, IsPlain, ack_plain, resume_ok, endpoint_ack}

module _ (l : Library) (build : String → CommandRequest → Result Payload)
    (fetched : List DepDevice) where
  abbrev e : Environment Backend
  e = model build fetched

  requeue_awaiting :
      (u : String) (r : Row) (p : Payload) (b : Backend)
      → first (λ q. same (q "udid") (text u)) (b.rows "devices") ≡ some r
      → r "awaiting_configuration" ≡ bool true
      → (new_command (redis_db cache l.plist) (issue build) (device_configured u) b).0 ≡ ok p
      → check_requeue
          (device_db l e)
          (apps_db l e)
          (certs_db l e)
          (command_svc l e)
          l.marshal
          e.now
          u
          b
        ≡ (ok 1, (new_command (redis_db cache l.plist) (issue build) (device_configured u) b).1)
  unfolding check_requeue get_device_by_udid scan_device string_dec
  requeue_awaiting u r p b found awaits made = ground arith

delete_command_left_fresh :
    (l : Library) (u c : String) (xs ys : List String) (b : Backend)
    → b.entry u ≡ some (list xs)
    → without c xs ≡ ys
    → let d = (delete_command cache l.plist u c b).1 in d.uuids d.issued ≡ b.uuids b.issued
unfolding delete_command
delete_command_left_fresh l u c xs [] b e left = ground arith
delete_command_left_fresh l u c xs (y ∷ ys) b e left = ground arith

-- The reply is the command that tells a device that it is configured, and only that waits.
abbrev pub ConfigurationSent : String → Payload → String → Result ConnectResponse → Backend → Type 0
ConfigurationSent u p t r c = (r ≡ ok (sent t)) × (waiting c u ≡ ok (p.command_uuid ∷ []))

configure_model :
    (l : Library) (build : String → CommandRequest → Result Payload) (fetched : List DepDevice)
    (req : Response) (s t : String) (qs : List String) (done p : Payload) (row : Row) (b : Backend)
    → IsAck req
    → b.entry req.udid ≡ some (list qs)
    → without req.command_uuid qs ≡ []
    → b.entry req.command_uuid ≡ some (str s)
    → l.plist.decode s ≡ ok done
    → IsPlain done
    → first (λ q. same (q "udid") (text req.udid)) (b.rows "devices") ≡ some row
    → row "awaiting_configuration" ≡ bool true
    → build (b.uuids b.issued) (device_configured req.udid) ≡ ok p
    → l.plist.encode p ≡ ok t
    → req.udid ≢ p.command_uuid
    → let (r, c) = connect_endpoint (connect_svc l (model build fetched)) req b in
      ConfigurationSent req.udid p t r c
configure_model l build fetched req s t qs done p row b acked queue left stored decoded plain found
      awaits built coded ne =
    let u = req.udid in
    let (n, w, _, _) = delete_command-Deleted l.plist u req.command_uuid qs b queue in
    let d = (delete_command cache l.plist u req.command_uuid b).1 in
    let (r, front, kept, _, _) =
      new_command-Queued l.plist build (device_configured u) p t [] d
        (ap (λ i. build i (device_configured u))
            (delete_command_left_fresh l u req.command_uuid qs [] b queue left)
          ∙ built)
        coded (w ∙ ap ok left) ne in
    let m = (new_command (redis_db cache l.plist) (issue build) (device_configured u) d).1 in
    let (r', back, _) =
      next_command-Rotated l.plist u p.command_uuid t [] m
        (elements-eq-ok _ p.command_uuid [] front) kept in
    let a =
      ack_plain l build fetched req s done b stored decoded plain
      ∙ resume_ok l build fetched _ _ d (n ∙ ap ok (ap length left))
      ∙ requeue_awaiting l build fetched u row p d
          (ap (λ ts. first (λ q. same (q "udid") (text u)) (ts "devices"))
              (delete_command-rows l.plist u req.command_uuid qs b queue)
            ∙ found)
          awaits r in
    let eq = endpoint_ack l build fetched req 0 1 t b m acked a r' in
    (ap (λ z. z.0) eq, ap (λ z. waiting z.1 u) eq ∙ back)

-- The acknowledgement of the last command that waits for a device that awaits its configuration:
-- the reply is the payload of the DeviceConfigured command that is made for it, and that command
-- alone waits. The world behaves like the reference model and its services answer, the request has
-- no user and is not of type DeviceConfigured, the acknowledged command's payload is found and is
-- of a type whose result is not stored, and the new payload can be made and encoded and has a UUID
-- other than the device's UDID.
pub last_acknowledgement_configures :
    {W : Type 0} (o : World W) (e : Environment W) (l : Library)
    (build : String → CommandRequest → Result Payload) (fetched : List DepDevice)
    → IsEnvironment o e (model build fetched)
    → (req : Response) (s t : String) (qs : List String) (done p : Payload) (row : Row) (w : W)
    → o.up w ≡ true
    → IsAck req
    → (o.view w).entry req.udid ≡ some (list qs)
    → without req.command_uuid qs ≡ []
    → (o.view w).entry req.command_uuid ≡ some (str s)
    → l.plist.decode s ≡ ok done
    → IsPlain done
    → first (λ q. same (q "udid") (text req.udid)) ((o.view w).rows "devices") ≡ some row
    → row "awaiting_configuration" ≡ bool true
    → build ((o.view w).uuids (o.view w).issued) (device_configured req.udid) ≡ ok p
    → l.plist.encode p ≡ ok t
    → req.udid ≢ p.command_uuid
    → let (r, w') = connect_endpoint (connect_svc l e) req w in
      ConfigurationSent req.udid p t r (o.view w')
last_acknowledgement_configures o e l build fetched lawful req s t qs done p row w up acked queue
      left stored decoded plain found awaits built coded ne =
    transfer (ConfigurationSent req.udid p t) (connect_refines build fetched lawful l req) w up (
      configure_model l build fetched req s t qs done p row (o.view w) acked queue left stored
        decoded plain found awaits built coded ne)
