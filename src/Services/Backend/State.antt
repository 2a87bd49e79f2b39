-- ===== src/Services/Backend/State.antt =====
-- What the services hold.
use micromdm.Base.{String, ℕ, ◌==◌, Option, List, if◌then◌else◌}
use micromdm.Services.Sql.{Row, Condition}

pub data Entry : Type 0 where
  str : String → Entry
  list : List String → Entry

pub record Backend : Type 0 where
  -- the keys of Redis, and the seconds after which a key expires
  pub entry : String → Option Entry
  pub ttl : String → Option ℕ
  -- the tables of PostgreSQL
  pub rows : String → List Row
  -- the tables as they were when the open transaction began
  pub before : Option (String → List Row)
  -- how PostgreSQL reads the text of a WHERE clause, as conditions joined by OR
  pub reads : String → Option (List Condition)
  -- the identifiers that are still to be generated, and how many have been
  pub uuids : ℕ → String
  pub issued : ℕ
  -- the clock, in Go's `time.Time`
  pub now : ℕ
  -- the push notifications that Apple's service accepted, the last one first
  pub pushed : List (String × String)

abbrev pub put {ℓ} : {A : Type ℓ} → String → A → (String → A) → String → A
put k v f j = if j == k then v else f j
