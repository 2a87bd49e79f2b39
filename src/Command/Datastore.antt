-- ===== src/Command/Datastore.antt =====
-- command/datastore.go: the queues in Redis. A device's UDID is the key of the list of its
-- commands' UUIDs, and a command's UUID is the key of its payload, as a plist.
use micromdm.Base.{
  ℕ, String, Bool, true, false, List, [], ◌∷◌, Error, Result, ok, err, panic, Action, pure, raise,
  return, attempt, ◌>>=◌, ◌>>◌, if◌then◌else◌,
}
use micromdm.Mdm.{Payload, Plist}
use micromdm.Services.Redis.{Redis}

-- The interface `Datastore`.
pub record Datastore (W : Type 0) : Type 0 where
  pub save_payload : Payload → Action W (Unit {0})
  pub queue_command : String → String → Action W (Unit {0})
  pub next_command : String → Action W (String × ℕ)
  pub delete_command : String → String → Action W ℕ
  pub commands : String → Action W (List Payload)
  pub find : String → Action W Payload

-- `err == redis.ErrNil`
abbrev pub is_nil_reply : Error → Bool
is_nil_reply Error.nil_reply = true
is_nil_reply _ = false

module _ {W : Type 0} (redis : Redis W) (plist : Plist) where
  unfoldable pub save_payload : Payload → Action W (Unit {0})
  save_payload payload = do
    encoded ← return (plist.encode payload)
    redis.set payload.command_uuid encoded

  unfoldable pub queue_command : String → String → Action W (Unit {0})
  queue_command device_udid command_uuid = redis.lpush device_udid command_uuid

  -- The end of `NextCommand`: the length of the list with the payload that was read.
  abbrev pub with_total : String → String → Action W (String × ℕ)
  with_total device_udid command = do total ← redis.llen device_udid; pure (command, total)

  -- A missing key is reported; any other error of `get` is dropped, with an empty command.
  abbrev pub after_get : String → Result String → Action W (String × ℕ)
  after_get device_udid (ok command) = with_total device_udid command
  after_get device_udid (err e) =
      if is_nil_reply e then raise Error.no_key else with_total device_udid ""
  after_get device_udid panic = return panic

  -- The popped command goes to the other end of the list; an error of `rpush` is dropped.
  abbrev pub after_pop : String → Result String → Action W (String × ℕ)
  after_pop device_udid (ok command_uuid) = attempt (redis.rpush device_udid command_uuid) >>= λ _.
      attempt (redis.get command_uuid) >>= after_get device_udid
  after_pop device_udid (err e) = if is_nil_reply e then pure ("", 0) else raise e
  after_pop device_udid panic = return panic

  unfoldable pub next_command : String → Action W (String × ℕ)
  next_command device_udid = attempt (redis.lpop device_udid) >>= after_pop device_udid

  unfoldable pub delete_command : String → String → Action W ℕ
  delete_command device_udid command_uuid = do
    redis.lrem device_udid command_uuid
    redis.expire command_uuid 3600
    redis.llen device_udid

  unfoldable pub find : String → Action W Payload
  find command_uuid = do payload_data ← redis.get command_uuid; return (plist.decode payload_data)

  -- The loop of `Commands`.
  unfoldable pub load : List String → Action W (List Payload)
  load [] = pure []
  load (command_uuid ∷ rest) = do
    payload_data ← redis.get command_uuid
    payload ← return (plist.decode payload_data)
    payloads ← load rest
    pure (payload ∷ payloads)

  unfoldable pub commands : String → Action W (List Payload)
  unfolding load
  commands device_udid = do command_uuids ← redis.lrange device_udid; load command_uuids

  -- `redisDB`
  abbrev pub redis_db : Datastore W
  redis_db = record {
    save_payload = save_payload;
    queue_command = queue_command;
    next_command = next_command;
    delete_command = delete_command;
    commands = commands;
    find = find;
  }
