-- ===== src/Tests/Queue.antt =====
-- The queue of one device, at the two commands of the fixture.
use micromdm.Base.{String, string_dec, [], ◌∷◌, ok, panic, ◌≡◌, refl, arith, ◌≢◌}
use package.text.Mathlib.TextEquality.{eq_iff}
use micromdm.Services.Backend.{cache}
use micromdm.Command.Queue.{waiting, Rotated, Orphaned, Deleted}
use micromdm.Command.Cycle.{repeat}
use micromdm.Command.Datastore.{redis_db, next_command, delete_command}
use micromdm.Command.Service.{new_service}
use micromdm.Command.Laws.{
  next_command_rotates, next_command_orphan, next_command_cycle, delete_command_removes,
  new_command_next, new_command_find,
}
use micromdm.Connect.Endpoint.{nothing, sent, connect_endpoint}
use micromdm.Main.Server.{connect_svc}
use micromdm.Main.Drain.{talk, drain}
use micromdm.Main.Failure.{failure_skips}
use micromdm.Main.Configuration.{last_acknowledgement_configures}
use micromdm.Main.Unknown.{acknowledge_unknown}
use micromdm.Tests.Data.{
  world, plist, library, build, environment, cache-IsRedis, model-IsEnvironment, server,
  awaiting_server, awaiting_row, request, lock, device_row,
}

next_command_rotates_example :
    let (r, w) = next_command cache plist "udid-1" server in
    Rotated plist "udid-1" server "lock-2" ("lock-1" ∷ []) "lock-2" r w
unfolding string_dec
next_command_rotates_example =
    next_command_rotates world cache cache-IsRedis plist server refl "udid-1" "lock-2" "lock-2"
      ("lock-1" ∷ []) refl refl

next_command_orphan_example :
    let (r, w) = next_command cache plist "udid-2" server in
    Orphaned plist "udid-2" server "gone" ("lock-1" ∷ []) r w
unfolding string_dec
next_command_orphan_example =
    next_command_orphan world cache cache-IsRedis plist server refl "udid-2" "gone" ("lock-1" ∷ [])
      refl refl

next_command_cycle_example :
    let (rs, w) = repeat 2 (next_command cache plist "udid-1") server in
    (rs ≡ ok ("lock-2", 2) ∷ ok ("lock-1", 2) ∷ [])
    × (waiting w "udid-1" ≡ ok ("lock-2" ∷ "lock-1" ∷ []))
unfolding string_dec
next_command_cycle_example =
    next_command_cycle world cache cache-IsRedis plist server refl "udid-1" (λ x. x)
      ("lock-2" ∷ "lock-1" ∷ []) refl (refl, (refl, tt))

delete_command_removes_example :
    let (r, w) = delete_command cache plist "udid-1" "lock-1" server in
    Deleted plist "udid-1" server "lock-1" ("lock-2" ∷ "lock-1" ∷ []) r w
unfolding string_dec
delete_command_removes_example =
    delete_command_removes world cache cache-IsRedis plist server refl "udid-1" "lock-1"
      ("lock-2" ∷ "lock-1" ∷ []) refl

different : ◌≢◌ {A = String} "udid-1" "fresh"
different = ground (arith, eq_iff "udid-1" "fresh")

new_command_next_example :
    let commands = new_service (redis_db cache plist) environment.new_payload in
    let (r, w) =
      commands.new_command
        (record { udid = "udid-1"; request_type = "DeviceLock"; settings = "" })
        server in
    let (r', w') = commands.next_command "udid-1" w in
    (r ≡ ok (lock "fresh"))
    × (r' ≡ ok ("fresh", 3))
    × (waiting w' "udid-1" ≡ ok ("lock-2" ∷ "lock-1" ∷ "fresh" ∷ []))
unfolding string_dec
new_command_next_example =
    new_command_next world cache cache-IsRedis plist environment.new_payload build
      model-IsEnvironment.new_payload server
      (record { udid = "udid-1"; request_type = "DeviceLock"; settings = "" }) (lock "fresh")
      "fresh" ("lock-2" ∷ "lock-1" ∷ []) refl refl refl refl different

new_command_find_example :
    let commands = new_service (redis_db cache plist) environment.new_payload in
    let (r, w) =
      commands.new_command
        (record { udid = "udid-1"; request_type = "DeviceLock"; settings = "" })
        server in
    (r ≡ ok (lock "fresh")) × ((commands.find "fresh" w).0 ≡ ok (lock "fresh"))
unfolding string_dec
new_command_find_example =
    new_command_find world cache cache-IsRedis plist environment.new_payload build
      model-IsEnvironment.new_payload server
      (record { udid = "udid-1"; request_type = "DeviceLock"; settings = "" }) (lock "fresh")
      "fresh" ("lock-2" ∷ "lock-1" ∷ []) refl refl refl refl refl different

pub no_type : ◌≢◌ {A = String} "" "DeviceConfigured"
no_type = ground (arith, eq_iff "" "DeviceConfigured")

pub plain :
    (◌≢◌ {A = String} "DeviceLock" "DeviceInformation")
    × (◌≢◌ {A = String} "DeviceLock" "InstalledApplicationList")
    × (◌≢◌ {A = String} "DeviceLock" "CertificateList")
plain = (
  ground (arith, eq_iff "DeviceLock" "DeviceInformation"),
  ground (arith, eq_iff "DeviceLock" "InstalledApplicationList"),
  ground (arith, eq_iff "DeviceLock" "CertificateList"),
)

drain_example :
    let endpoint = connect_endpoint (connect_svc library environment) in
    let (rs, w) =
      talk endpoint
        (request "Idle" "" ∷ request "Acknowledged" "lock-2" ∷ request "Acknowledged" "lock-1" ∷ [])
        server in
    (rs ≡ ok (sent "lock-2") ∷ ok (sent "lock-1") ∷ ok nothing ∷ []) × (waiting w "udid-1" ≡ ok [])
unfolding string_dec
drain_example =
    drain library build [] (request "" "") (λ x. x) lock world environment model-IsEnvironment
      "lock-2" ("lock-1" ∷ []) device_row server refl refl no_type refl (refl, (refl, tt))
      (refl, refl, plain, (refl, refl, plain, tt)) (refl, refl)

acknowledge_unknown_example :
    let (r, w) =
      connect_endpoint (connect_svc library environment) (request "Acknowledged" "gone") server in
    (r ≡ panic) × (w ≡ server)
unfolding string_dec
acknowledge_unknown_example =
    acknowledge_unknown world environment library build [] model-IsEnvironment
      (request "Acknowledged" "gone") server refl refl refl refl

failure_skips_example :
    let (r, w) =
      connect_endpoint (connect_svc library environment) (request "Error" "lock-2") server in
    (r ≡ ok (sent "lock-1")) × (waiting w "udid-1" ≡ ok ("lock-1" ∷ []))
unfolding string_dec
failure_skips_example =
    failure_skips world environment library build [] model-IsEnvironment (request "Error" "lock-2")
      (λ x. x) ("lock-2" ∷ "lock-1" ∷ []) server refl refl refl refl refl

last_acknowledgement_configures_example :
    let (r, w) =
      connect_endpoint
        (connect_svc library environment)
        (request "Acknowledged" "lock-1")
        awaiting_server in
    (r ≡ ok (sent "fresh")) × (waiting w "udid-1" ≡ ok ("fresh" ∷ []))
unfolding string_dec
last_acknowledgement_configures_example =
    last_acknowledgement_configures world environment library build [] model-IsEnvironment
      (request "Acknowledged" "lock-1") "lock-1" "fresh" ("lock-1" ∷ []) (lock "lock-1")
      (lock "fresh") awaiting_row awaiting_server refl (refl, refl, no_type) refl refl refl refl
      plain refl refl refl refl different
