-- ===== src/Startup/Main.antt =====
-- `main` of main.go, with `pushService`, `depClient` and `serve`.
use micromdm.Base.{
  String, ◌<>◌, ◌==◌, ◌&&◌, Bool, true, false, not, Option, none, some, List, [], ◌∷◌, ◌++◌, Error,
  Result, ok, err, panic, Action, if◌then◌else◌,
}
use micromdm.Mdm.{DepDevice}
use micromdm.Command.Datastore as CommandStore
use micromdm.Command.Service as Command
use micromdm.Command.Transport as CommandTransport
use micromdm.Device.Datastore as DeviceStore
use micromdm.Workflow.Datastore as WorkflowStore
use micromdm.Application.Datastore as ApplicationStore
use micromdm.Certificate.Datastore as CertificateStore
use micromdm.Management.Service as Management
use micromdm.Management.Routes as ManagementRoutes
use micromdm.Checkin.Service as Checkin
use micromdm.Checkin.Transport as CheckinTransport
use micromdm.Connect.Service as Connect
use micromdm.Connect.Transport as ConnectTransport
use micromdm.Enroll.Service as Enroll
use micromdm.Enroll.Transport as EnrollTransport
use micromdm.Startup.Outcome.{Start, Outcome, ◌>>=◌, go, exit, exit_if, must}
use micromdm.Startup.Flags.{
  Flags, flags, check_empty_args, check_tls_flags, default_port, get_pg_conn_from_env,
  get_redis_conn_from_env,
}
use micromdm.Startup.Stores.{
  wait_for, device_new_db, workflow_new_db, application_new_db, certificate_new_db, command_new_db,
}
use micromdm.Startup.System.{System, DepConfig, PushService, Handler, Listening}

-- The credentials of depsim.
abbrev pub depsim_default : DepConfig
depsim_default = record {
  consumer_key =
      "CK_48dd68d198350f51258e885ce9a5c37ab7f98543c4a697323d75682a6c10a32501cb247e3db08105db868f73f2c972bdb6ae77112aea803b9219eb52689d42e6";
  consumer_secret =
      "CS_34c7b2b531a600d99a0e4edcf4a78ded79b86ef318118c2f5bcfee1b011108c32d5302df801adbe29d446eb78f02b13144e323eb9aad51c79f01e50cb45c3a68";
  access_token =
      "AT_927696831c59ba510cfe4ec1a69e5267c19881257d4bca2906a99d0785b785a6f6fdeb09774954fdd5e2d0ad952e3af52c6d8d2f21c924ba0caf4a031c158b89";
  access_secret =
      "AS_c31afd7a09691d83548489336e8ff1cb11b82b6bca13f793344496a556b1f4972eaff4dde6deb5ac9cf076fdfa97ec97699c34d515947b9cf9ed31c99dded6ba";
}

-- Lines 80 to 84: the default port.
abbrev pub with_port : Flags → Flags
with_port fl = record fl { port = if fl.port == "" then default_port fl.tls else fl.port }

abbrev pub listening :
    {W : Type 0}
    → Flags
    → Option (String × String)
    → List (String × Handler W)
    → Option String
    → Listening W
listening fl tls mux cors = record {
  address = ":" <> fl.port;
  tls = tls;
  mux = mux;
  cors_origin = cors;
}

module _ {W Identity Client : Type 0} (s : System W Identity Client) where
  -- Lines 104 to 107, and 178 to 181: the addresses of linked containers.
  abbrev pub with_pg : Flags → Flags
  with_pg fl =
      let host = s.getenv "POSTGRES_PORT_5432_TCP_ADDR" in
      if fl.pg_conn == "" && not (host == "")
      then record fl { pg_conn = get_pg_conn_from_env s.getenv host }
      else fl

  abbrev pub with_redis : Flags → Flags
  with_redis fl =
      let host = s.getenv "REDIS_PORT_6379_TCP_ADDR" in
      if fl.redis_conn == "" && not (host == "")
      then record fl { redis_conn = get_redis_conn_from_env s.getenv host }
      else fl

  abbrev pub of_result : {A : Type 0} → Result A → Action W A
  of_result r w = (r, w)

  abbrev pub is_some : Option Error → Bool
  is_some none = false
  is_some (some e) = true

  unfoldable pub push_service : (cert_path password : String) → Start W (PushService Client)
  push_service cert_path password = do
    identity ← must (s.load cert_path password)
    client ← must (of_result (s.new_client identity))
    go (record { client = client; host = s.production })

  abbrev pub dep_config : Flags → DepConfig
  dep_config fl = record {
    consumer_key = fl.dep_ck;
    consumer_secret = fl.dep_cs;
    access_token = fl.dep_at;
    access_secret = fl.dep_as;
  }

  unfoldable pub dep_client : Flags → Start W (Action W (List DepDevice))
  dep_client fl = do
    _ ←
        exit_if
          (not fl.dep_sim && check_empty_args (fl.dep_ck ∷ fl.dep_cs ∷ fl.dep_at ∷ fl.dep_as ∷ []))
    must (
        of_result (
          s.new_dep_client (if fl.dep_sim then depsim_default else dep_config fl)
            (if fl.dep_server_url == "" then none else some fl.dep_server_url)))

  -- Lines 127 to 156.
  unfoldable pub migrate_database : Flags → Start W (Unit {0})
  migrate_database fl = do
    db ← must (s.open_sql "postgres" fl.pg_conn)
    _ ← must (wait_for s.sleep db.ping)
    must (s.migrate db)

  -- The services and the handlers of lines 217 to 232.
  module _ (device_db : DeviceStore.Datastore W) (workflow_db : WorkflowStore.Datastore W)
      (command_db : CommandStore.Datastore W) (apps_db : ApplicationStore.Datastore W)
      (certs_db : CertificateStore.Datastore W) (fetch_devices : Action W (List DepDevice))
      (push : PushService Client) (profile : String) where
    abbrev pub mgmt_svc : Management.Service W
    mgmt_svc =
        Management.new_service device_db workflow_db s.is_device_token_valid
          (record { send = s.push push; fetch_devices = fetch_devices }) apps_db certs_db

    abbrev pub command_svc : Command.Service W
    command_svc = Command.new_service command_db s.new_payload

    abbrev pub checkin_svc : Checkin.Service W
    checkin_svc = Checkin.new_service device_db mgmt_svc.push command_svc profile s.now

    abbrev pub connect_svc : Connect.Service W
    connect_svc = Connect.new_service device_db apps_db certs_db command_svc s.marshal s.now

    abbrev pub command_routes : Handler W
    command_routes =
        Handler.routes
          (CommandTransport.service_handler s.json s.message s.kit command_svc s.command_body)

    abbrev pub handlers : List (String × Handler W)
    handlers =
        (
          "/management/v1/",
          Handler.routes
              (ManagementRoutes.service_handler s.kit s.json s.message s.bodies mgmt_svc),
        )
        ∷ ("/mdm/commands", command_routes)
        ∷ ("/mdm/commands/", command_routes)
        ∷ (
          "/mdm/checkin",
          Handler.routes (
              CheckinTransport.service_handler s.encode_plist s.message s.kit checkin_svc
                s.checkin_decoders),
        )
        ∷ (
          "/mdm/connect",
          Handler.routes (
              ConnectTransport.service_handler s.encode_plist s.message s.kit connect_svc s.report
                s.partial),
        )
        ∷ []

  -- A service whose error is dropped is nil.
  abbrev pub kept : {A : Type 0} → Result A → Outcome (Option A)
  kept (ok a) = Outcome.went_on (some a)
  kept (err e) = Outcome.went_on none
  kept panic = Outcome.crashed

  abbrev pub dropping : {A : Type 0} → Action W A → Start W (Option A)
  dropping m w = (kept (m w).0, (m w).1)

  -- Lines 234 to 247: /mdm/enroll.
  unfoldable pub enroll_handlers : Flags → Start W (List (String × Handler W))
  enroll_handlers fl = if check_empty_args (fl.url ∷ fl.scep_url ∷ []) then go [] else (do
    svc ← dropping (
        Enroll.new_service s.new_v4 s.read_file s.pkcs12 fl.push_cert fl.push_pass fl.tls_ca_cert
          fl.scep_url fl.scep_challenge fl.url fl.tls_cert)
    go (
        (
          "/mdm/enroll",
          Handler.routes
              (EnrollTransport.make_http_handler s.encode_plist s.kit s.default_error_encoder svc),
        )
        ∷ []))

  abbrev pub repo_handlers : Flags → List (String × Handler W)
  repo_handlers fl = if fl.pkg_repo == "" then [] else ("/repo/", Handler.files fl.pkg_repo) ∷ []

  -- `serve`, up to `ListenAndServe`.
  unfoldable pub serve : Flags → List (String × Handler W) → Option String → Start W (Listening W)
  serve fl mux cors =
      if fl.tls
      then (do
        leaf ← must (s.load_key_pair fl.tls_cert fl.tls_key)
        cert ← must (of_result (s.parse_certificate leaf))
        _ ← exit_if (is_some (s.verify cert))
        go (listening fl (some (fl.tls_cert, fl.tls_key)) mux cors))
      else go (listening fl none mux cors)

  -- From line 210 on, with the datastores but for those that are opened last.
  unfoldable pub start_services :
      Flags
      → String
      → PushService Client
      → DeviceStore.Datastore W
      → WorkflowStore.Datastore W
      → CommandStore.Datastore W
      → Start W (Listening W)
  start_services fl profile push device_db workflow_db command_db = do
    apps_db ← must (application_new_db s.sleep s.open_sqlx "postgres" fl.pg_conn)
    certs_db ← must (certificate_new_db s.sleep s.open_sqlx "postgres" fl.pg_conn)
    fetch_devices ← dep_client fl
    enroll ← enroll_handlers fl
    serve fl
        (handlers device_db workflow_db command_db apps_db certs_db fetch_devices push profile
          ++ (enroll ++ repo_handlers fl))
        (if fl.cors_origin == "" then none else some fl.cors_origin)

  -- From the check of the flags to the Redis pool.
  unfoldable pub start_stores : Flags → String → PushService Client → Start W (Listening W)
  start_stores fl profile push = do
    _ ← migrate_database fl
    workflow_db ← must (workflow_new_db s.sleep s.open_sqlx "postgres" fl.pg_conn)
    device_db ← must (device_new_db s.sleep s.open_sqlx "postgres" fl.pg_conn)
    _ ← exit_if ((with_redis fl).redis_conn == "")
    command_db ← command_new_db s.sleep s.pool s.plist "redis" (with_redis fl).redis_conn
    command_db' ← must (of_result command_db)
    start_services (with_redis fl) profile push device_db workflow_db command_db'

  unfoldable pub start : Flags → Start W (Listening W)
  start fl = do
    _ ← exit_if (fl.enrollment == "")
    profile ← must (s.read_file fl.enrollment)
    _ ← exit_if (fl.tls && is_some (check_tls_flags fl.tls_key fl.tls_cert))
    _ ← exit_if ((with_pg fl).pg_conn == "")
    _ ← exit_if (check_empty_args (fl.push_cert ∷ fl.push_pass ∷ []))
    push ← push_service fl.push_cert fl.push_pass
    start_stores (with_pg fl) profile push

  unfoldable pub main : Start W (Listening W)
  main = let fl = flags s.getenv s.parse in if fl.version then exit 0 else start (with_port fl)
