-- ===== src/Startup/Unreachable.antt =====
-- Stores that do or do not answer while a server starts.
use micromdm.Base.{string_dec, ℕ, String, Option, none, some, Error, ok, err, Action, ◌<◌, ◌≡◌}
use micromdm.Device.Datastore as DeviceStore
use micromdm.Workflow.Datastore as WorkflowStore
use micromdm.Application.Datastore as ApplicationStore
use micromdm.Certificate.Datastore as CertificateStore
use micromdm.Startup.Outcome.{Outcome, next}
use micromdm.Startup.Flags.{Flags}
use micromdm.Startup.Retry.{Store, after, Fails, retry_connects, retry_gives_up}
use micromdm.Startup.Stores.{
  Db, wait_for, new_db, device_new_db, workflow_new_db, application_new_db, certificate_new_db,
  check_redis_conn, command_new_db,
}
use micromdm.Startup.System.{System, PushService}
use micromdm.Startup.Main.{migrate_database, start_stores}

module _ {W : Type 0} (sleep : ℕ → W → W) where
  abbrev pub store : (W → Option Error × W) → Store W
  store ping = record { ping = ping; sleep = sleep }

  answered :
      (ping : W → Option Error × W) (w : W) (k : ℕ)
      → k < 20
      → ((j : ℕ) → j < k → Fails (store ping) w j)
      → (ping (after (store ping) k w)).0 ≡ none
      → wait_for sleep ping w ≡ (ok tt, (ping (after (store ping) k w)).1)
  unfolding wait_for
  answered ping w k small fails h = rw (retry_connects (store ping) w k small fails h)

  unanswered :
      (ping : W → Option Error × W) (w : W) (e : Error)
      → ((j : ℕ) → j < 20 → Fails (store ping) w j)
      → (ping (after (store ping) 19 w)).0 ≡ some e
      → wait_for sleep ping w ≡ (err e, after (store ping) 20 w)
  unfolding wait_for
  unanswered ping w e fails h = rw (retry_gives_up (store ping) w fails, h)

  module _ (open_db : String → String → Action W (Db W)) (conn : String) (db : Db W) (w w1 : W)
      (opened : open_db "postgres" conn w ≡ (ok db, w1)) where
    made :
        {D : Type 0} (opening pinging : String) (make : Db W → D) (w' : W)
        → wait_for sleep db.ping w1 ≡ (ok tt, w')
        → new_db sleep open_db opening pinging make "postgres" conn w ≡ (ok (make db), w')
    unfolding string_dec
    made opening pinging make w' h = rw (opened, h)

    lost :
        {D : Type 0} (opening pinging : String) (make : Db W → D) (w' : W) (e : Error)
        → wait_for sleep db.ping w1 ≡ (err e, w')
        → new_db sleep open_db opening pinging make "postgres" conn w
          ≡ (err (Error.wrap pinging e), w')
    unfolding string_dec
    lost opening pinging make w' e h = rw (opened, h)

    -- NewDB of device, workflow, application and certificate, where the handle opens and the first
    -- ping that succeeds is the one after k failures, k below 20: each returns its datastore over
    -- the handle, and the world is the one after that ping, with the k failed pings and the pauses
    -- of 1 to k seconds before it.
    pub new_db_connects :
        (k : ℕ)
        → k < 20
        → ((j : ℕ) → j < k → Fails (store db.ping) w1 j)
        → (db.ping (after (store db.ping) k w1)).0 ≡ none
        → let w' = (db.ping (after (store db.ping) k w1)).1 in
          (device_new_db sleep open_db "postgres" conn w
            ≡ (ok (DeviceStore.pg_store db.postgres), w'))
          × (workflow_new_db sleep open_db "postgres" conn w
              ≡ (ok (WorkflowStore.pg_store db.postgres), w'))
          × (application_new_db sleep open_db "postgres" conn w
              ≡ (ok (ApplicationStore.pg_store db.postgres db.applications_of), w'))
          × (certificate_new_db sleep open_db "postgres" conn w
              ≡ (ok (CertificateStore.pg_store db.postgres), w'))
    unfolding device_new_db workflow_new_db application_new_db certificate_new_db
    new_db_connects k small fails h =
        let up = answered db.ping w1 k small fails h in
        (made _ _ _ _ up, made _ _ _ _ up, made _ _ _ _ up, made _ _ _ _ up)

    -- NewDB of device, workflow, application and certificate, where the handle opens and the first
    -- twenty pings fail: each returns the error of the twentieth, wrapped in the package's
    -- message, which for certificate is that of application; the world is the one after twenty
    -- pings and the pauses of 1 to 20 seconds after them.
    pub new_db_gives_up :
        (e : Error)
        → ((j : ℕ) → j < 20 → Fails (store db.ping) w1 j)
        → (db.ping (after (store db.ping) 19 w1)).0 ≡ some e
        → let w' = after (store db.ping) 20 w1 in
          (device_new_db sleep open_db "postgres" conn w
            ≡ (err (Error.wrap "device datastore" e), w'))
          × (workflow_new_db sleep open_db "postgres" conn w
              ≡ (err (Error.wrap "workflow datastore" e), w'))
          × (application_new_db sleep open_db "postgres" conn w
              ≡ (err (Error.wrap "applications datastore" e), w'))
          × (certificate_new_db sleep open_db "postgres" conn w
              ≡ (err (Error.wrap "applications datastore" e), w'))
    unfolding device_new_db workflow_new_db application_new_db certificate_new_db
    new_db_gives_up e fails h =
        let down = unanswered db.ping w1 e fails h in
        (lost _ _ _ _ e down, lost _ _ _ _ e down, lost _ _ _ _ e down, lost _ _ _ _ e down)

-- Where the handle for the migrations opens and its first twenty pings fail, the start exits with
-- status 1 in the world after them, so that no migration is run and no datastore opened; and where
-- the first twenty pings of the Redis pool fail, NewDB of command exits with status 1 in the world
-- after them.
pub unreachable_stores_exit :
    {W Identity Client : Type 0} (s : System W Identity Client) (fl : Flags) (profile : String)
    (push : PushService Client) (db : Db W) (address : String) (w w1 v : W) (e e' : Error)
    → s.open_sql "postgres" fl.pg_conn w ≡ (ok db, w1)
    → ((j : ℕ) → j < 20 → Fails (store s.sleep db.ping) w1 j)
    → (db.ping (after (store s.sleep db.ping) 19 w1)).0 ≡ some e
    → ((j : ℕ) → j < 20 → Fails (store s.sleep (s.pool address).ping) v j)
    → ((s.pool address).ping (after (store s.sleep (s.pool address).ping) 19 v)).0 ≡ some e'
    → (start_stores s fl profile push w ≡ (Outcome.exited 1, after (store s.sleep db.ping) 20 w1))
      × (command_new_db s.sleep s.pool s.plist "redis" address v
          ≡ (Outcome.exited 1, after (store s.sleep (s.pool address).ping) 20 v))
unfolding start_stores migrate_database next command_new_db check_redis_conn string_dec
unreachable_stores_exit s fl profile push db address w w1 v e e' opened fails h fails' h' = (
  rw (opened, unanswered s.sleep db.ping w1 e fails h),
  rw (unanswered s.sleep (s.pool address).ping v e' fails' h'),
)
