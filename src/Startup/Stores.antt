-- ===== src/Startup/Stores.antt =====
-- `NewDB` of device, workflow, application, certificate and command: how a datastore is opened.
use micromdm.Base.{
  ℕ, String, ◌==◌, Option, none, some, List, Error, Result, ok, err, panic, Action, raise, pure,
  wrapping, ◌>>=◌, if◌then◌else◌,
}
use micromdm.Mdm.{Plist}
use micromdm.Services.Redis.{Redis}
use micromdm.Services.Sql.{Postgres, Row}
use micromdm.Command.Datastore as CommandStore
use micromdm.Device.Datastore as DeviceStore
use micromdm.Workflow.Datastore as WorkflowStore
use micromdm.Application.Datastore as ApplicationStore
use micromdm.Certificate.Datastore as CertificateStore
use micromdm.Startup.Retry.{retry}
use micromdm.Startup.Outcome.{Outcome, Start, going, or_exit}

-- A handle of `sql.Open` or `sqlx.Open`: its ping, its queries, and the RIGHT JOIN of application/.
pub record Db (W : Type 0) : Type 0 where
  pub ping : W → Option Error × W
  pub postgres : Postgres W
  pub applications_of : String → Action W (List Row)

-- A pool of connections to Redis, and the PING of `conn.Do`.
pub record Pool (W : Type 0) : Type 0 where
  pub ping : W → Option Error × W
  pub redis : Redis W

-- What the loop has left in `dbError`; there is fuel enough for the first case not to arise.
abbrev pub waited : Option (Option Error) → Result (Unit {0})
waited none = panic
waited (some none) = ok tt
waited (some (some e)) = err e

module _ {W : Type 0} (sleep : ℕ → W → W) where
  unfoldable pub wait_for : (W → Option Error × W) → Action W (Unit {0})
  wait_for ping w = let (x, w') = retry (record { ping = ping; sleep = sleep }) w in (waited x, w')

  -- `NewDB` of a package that wraps an error of `sqlx.Open` in `opening`, and one of the ping in `pinging`.
  abbrev pub new_db :
      {D : Type 0} (open_db : String → String → Action W (Db W)) (opening pinging : String)
      → (Db W → D)
      → (driver conn : String) → Action W D
  new_db open_db opening pinging make driver conn =
      if driver == "postgres"
      then (do
        db ← wrapping opening (open_db driver conn)
        _ ← wrapping pinging (wait_for db.ping)
        pure (make db))
      else raise (Error.new "unknown driver")

  module _ (open_db : String → String → Action W (Db W)) where
    unfoldable pub device_new_db : (driver conn : String) → Action W (DeviceStore.Datastore W)
    device_new_db =
        new_db open_db "device datastore" "device datastore"
          (λ db. DeviceStore.pg_store db.postgres)

    unfoldable pub workflow_new_db : (driver conn : String) → Action W (WorkflowStore.Datastore W)
    workflow_new_db =
        new_db open_db "workflow datastore" "workflow datastore"
          (λ db. WorkflowStore.pg_store db.postgres)

    unfoldable pub application_new_db :
        (driver conn : String) → Action W (ApplicationStore.Datastore W)
    application_new_db =
        new_db open_db "applications datastore" "applications datastore"
          (λ db. ApplicationStore.pg_store db.postgres db.applications_of)

    unfoldable pub certificate_new_db :
        (driver conn : String) → Action W (CertificateStore.Datastore W)
    certificate_new_db =
        new_db open_db "certificates datastore" "applications datastore"
          (λ db. CertificateStore.pg_store db.postgres)

  -- `checkRedisConn`, which exits where Redis does not answer.
  unfoldable pub check_redis_conn : Pool W → Start W (Unit {0})
  check_redis_conn pool w = let (x, w') = wait_for pool.ping w in (or_exit x, w')

  -- `command.NewDB`: `pool` makes the pool of an address.
  unfoldable pub command_new_db :
      (pool : String → Pool W) (plist : Plist) (driver conn : String)
      → Start W (Result (CommandStore.Datastore W))
  command_new_db pool plist driver conn w =
      if driver == "redis"
      then (let (x, w') = check_redis_conn (pool conn) w in
          (going x (λ _. ok (CommandStore.redis_db (pool conn).redis plist)), w'))
      else (Outcome.went_on (err (Error.new "unknown driver")), w)
