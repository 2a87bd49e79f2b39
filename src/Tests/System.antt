-- ===== src/Tests/System.antt =====
-- A system whose stores answer at the second ping, and another whose stores never do.
use micromdm.Base.{
  ℕ, zero, suc, ◌<◌, String, string_dec, ◌==◌, Option, none, some, [], ◌∷◌, Error, ok, err, Action,
  ◌≡◌, refl, arith, ltb, if◌then◌else◌,
}
use micromdm.Services.Backend.{Backend, cache, tables}
use micromdm.Device.Datastore as DeviceStore
use micromdm.Workflow.Datastore as WorkflowStore
use micromdm.Application.Datastore as ApplicationStore
use micromdm.Certificate.Datastore as CertificateStore
use micromdm.Enroll.Topic.{push_topic_asn1, find_topic, get_push_topic_from_pkcs12}
use micromdm.Enroll.Service.{configure, new_service}
use micromdm.Startup.Outcome.{Outcome, next}
use micromdm.Startup.Flags.{
  Flags, flags, check_empty_args, env_string, env_bool, check_tls_flags, default_port,
}
use micromdm.Startup.Retry.{retry, after, Fails, attempt_from}
use micromdm.Startup.Stores.{
  Db, wait_for, device_new_db, workflow_new_db, application_new_db, certificate_new_db,
  check_redis_conn, command_new_db,
}
use micromdm.Startup.Unreachable.{store, new_db_connects, new_db_gives_up, unreachable_stores_exit}
use micromdm.Startup.System.{System, PushService, Listening}
use micromdm.Startup.Main.{
  main, start, start_stores, start_services, migrate_database, push_service, dep_client,
  enroll_handlers, serve,
}
use micromdm.Startup.Ready.{IsReady, main-IsReady}
use micromdm.Tests.Data.{library, environment, server, request, checkin}
use micromdm.Tests.Web.{kit, json, message, bodies}

-- The clock counts the pings.
abbrev ping : ℕ → Backend → Option Error × Backend
ping needed b = (if ltb b.now needed then some Error.eof else none, record b { now = suc b.now })

abbrev sleep : ℕ → Backend → Backend
sleep n b = b

abbrev db : ℕ → Db Backend
db needed = record {
  ping = ping needed;
  postgres = tables;
  applications_of = environment.applications_of;
}

abbrev system : ℕ → System Backend String String
system needed = record {
  getenv = λ k. if k == "MICROMDM_USE_TLS" then "" else "set";
  parse = λ fl. fl;
  read_file = λ path b. (ok "file", b);
  sleep = sleep;
  now = environment.now;
  open_sql = λ driver conn b. (ok (db needed), b);
  open_sqlx = λ driver conn b. (ok (db needed), b);
  pool = λ address. record { ping = ping needed; redis = cache };
  migrate = λ d b. (ok tt, b);
  load = λ path pass b. (ok "identity", b);
  new_client = λ identity. ok "client";
  production = "production";
  is_device_token_valid = library.is_device_token_valid;
  push = λ service. environment.apple.send;
  new_dep_client = λ config url. ok environment.apple.fetch_devices;
  load_key_pair = λ cert key b. (ok "leaf", b);
  parse_certificate = λ leaf. ok "certificate";
  verify = λ certificate. none;
  pkcs12 = λ data_ pass. ok (record { type = push_topic_asn1; value = some "topic" } ∷ []);
  new_v4 = λ b. ("uuid", b);
  new_payload = environment.new_payload;
  plist = library.plist;
  marshal = library.marshal;
  kit = kit;
  default_error_encoder = λ e. [];
  message = message;
  json = json;
  encode_plist = json;
  bodies = bodies;
  command_body = λ b. record { value = none; error = some Error.eof };
  report = λ s. ok (request "Idle" "");
  partial = λ e. "";
  checkin_decoders = record {
    content = λ s. ok s;
    checkin = λ s. ok (checkin "CheckOut");
    enrollment = λ s. ok (record { udid = "udid-1"; serial = "serial-1" });
  };
}

-- The clock of the fixture is at 7.
refused_once : (j : ℕ) → j < 1 → Fails (store sleep (ping 8)) server j
unfolding after
refused_once zero lt h = ground (arith, h)
refused_once (suc j) lt h = omega (arith, lt)

never : (j : ℕ) → j < 20 → Fails (store sleep (λ b. (some Error.eof, b))) server j
never j lt h = ground (arith, h)

new_db_connects_example :
    let w' = record server { now = 9 } in
    (device_new_db sleep (system 8).open_sqlx "postgres" "" server
      ≡ (ok (DeviceStore.pg_store tables), w'))
    × (workflow_new_db sleep (system 8).open_sqlx "postgres" "" server
        ≡ (ok (WorkflowStore.pg_store tables), w'))
    × (application_new_db sleep (system 8).open_sqlx "postgres" "" server
        ≡ (ok (ApplicationStore.pg_store tables environment.applications_of), w'))
    × (certificate_new_db sleep (system 8).open_sqlx "postgres" "" server
        ≡ (ok (CertificateStore.pg_store tables), w'))
unfolding after
new_db_connects_example =
    new_db_connects sleep (system 8).open_sqlx "" (db 8) server server refl 1 (omega arith)
      refused_once refl

abbrev silent : Db Backend
silent = record (db 8) { ping = λ b. (some Error.eof, b) }

abbrev open_silent : String → String → Action Backend (Db Backend)
open_silent driver conn b = (ok silent, b)

new_db_gives_up_example :
    (device_new_db sleep open_silent "postgres" "" server
      ≡ (err (Error.wrap "device datastore" Error.eof), server))
    × (workflow_new_db sleep open_silent "postgres" "" server
        ≡ (err (Error.wrap "workflow datastore" Error.eof), server))
    × (application_new_db sleep open_silent "postgres" "" server
        ≡ (err (Error.wrap "applications datastore" Error.eof), server))
    × (certificate_new_db sleep open_silent "postgres" "" server
        ≡ (err (Error.wrap "applications datastore" Error.eof), server))
unfolding after
new_db_gives_up_example =
    new_db_gives_up sleep open_silent "" silent server server refl Error.eof never refl

-- A system whose stores never answer.
abbrev cut_off : System Backend String String
cut_off = record (system 8) {
  open_sql = open_silent;
  pool = λ address. record { ping = silent.ping; redis = cache };
}

abbrev configured : Flags
configured = flags (system 8).getenv (system 8).parse

abbrev push : PushService String
push = record { client = "client"; host = "production" }

unreachable_stores_exit_example :
    (start_stores cut_off configured "profile" push server ≡ (Outcome.exited 1, server))
    × (command_new_db cut_off.sleep cut_off.pool cut_off.plist "redis" "address" server
        ≡ (Outcome.exited 1, server))
unfolding after
unreachable_stores_exit_example =
    unreachable_stores_exit cut_off configured "profile" push silent "address" server server server
      Error.eof Error.eof refl never refl never refl

abbrev no_server : Listening Backend
no_server = record { address = ""; tls = none; mux = []; cors_origin = none }

-- What listens after a start.
abbrev listening_of : Outcome (Listening Backend) → Listening Backend
listening_of (Outcome.went_on l) = l
listening_of _ = no_server

abbrev started : Outcome (Listening Backend) × Backend
started = main (system 8) server

main-IsReady_example : IsReady (system 8) configured (listening_of started.0)
unfolding string_dec main start start_stores start_services migrate_database push_service dep_client
    enroll_handlers serve next flags env_string env_bool check_empty_args check_tls_flags
    default_port wait_for retry attempt_from device_new_db workflow_new_db application_new_db
    certificate_new_db check_redis_conn command_new_db configure new_service find_topic
    get_push_topic_from_pkcs12
main-IsReady_example = main-IsReady (system 8) server started.1 (listening_of started.0) refl
