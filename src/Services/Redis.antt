-- ===== src/Services/Redis.antt =====
-- The Redis commands that command/datastore.go sends through `conn.Do`, with the reply converted
-- by `redis.String`, `redis.Int` or `redis.Values` where the code converts it.
use micromdm.Base.{Action, String, ℕ, List}

pub record Redis (W : Type 0) : Type 0 where
  -- `set key value`
  pub set : String → String → Action W (Unit {0})
  -- `get key`, with `nil_reply` on a missing key
  pub get : String → Action W String
  -- `lpush key value`, `rpush key value`
  pub lpush : String → String → Action W (Unit {0})
  pub rpush : String → String → Action W (Unit {0})
  -- `lpop key`, with `nil_reply` on an empty list
  pub lpop : String → Action W String
  -- `lrem key 0 value`
  pub lrem : String → String → Action W (Unit {0})
  pub llen : String → Action W ℕ
  -- `lrange key 0 -1`
  pub lrange : String → Action W (List String)
  -- `expire key seconds`
  pub expire : String → ℕ → Action W (Unit {0})
