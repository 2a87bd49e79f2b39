-- ===== src/Command/Queue.antt =====
-- command/datastore.go and command/service.go over the reference model.
use micromdm.Base.{
  ℕ, String, List, [], ◌∷◌, ◌++◌, Error, Result, ok, err, ◌≡◌, ◌≢◌, refl, arith, length, some, none,
  length-append, ◌+◌,
}
use micromdm.Mdm.{CommandRequest, Payload, Plist, NewPayload}
use micromdm.Services.Backend.{Backend, list, str, cache, elements, without}
use micromdm.Command.Service.{new_command}
use micromdm.Command.Datastore.{
  save_payload, queue_command, next_command, delete_command, find, redis_db,
}

-- The UUIDs that wait for a device, the next one first.
abbrev pub waiting : Backend → String → Result (List String)
waiting b u = elements (b.entry u)

-- `mdm.NewPayload` over the model: the payload has the next identifier.
abbrev pub issue : (String → CommandRequest → Result Payload) → NewPayload Backend
issue build q b = (build (b.uuids b.issued) q, record b { issued = b.issued + 1 })

module _ (plist : Plist) (u : String) where
  pub next_command_empty :
      (b : Backend) → b.entry u ≡ none → next_command cache plist u b ≡ (ok ("", 0), b)
  unfolding next_command
  next_command_empty b e = ground arith

  -- One call with a payload found: the first UUID has gone to the end of the list.
  abbrev pub Rotated :
      Backend → String → List String → String → Result (String × ℕ) → Backend → Type 0
  Rotated b x xs s r c =
      (r ≡ ok (s, length (x ∷ xs)))
      × (waiting c u ≡ ok (xs ++ (x ∷ [])))
      × ((k : String) → k ≢ u → c.entry k ≡ b.entry k)

  pub next_command-Rotated :
      (x s : String) (xs : List String) (b : Backend)
      → b.entry u ≡ some (list (x ∷ xs))
      → b.entry x ≡ some (str s)
      → Rotated b x xs s (next_command cache plist u b).0 (next_command cache plist u b).1
  unfolding next_command
  next_command-Rotated x s [] b e f = (ground arith, ground arith, λ k h. ground arith)
  next_command-Rotated x s (y ∷ ys) b e f =
      (ground (arith, length-append ys (x ∷ [])), ground arith, λ k h. ground arith)

  -- One call with the payload expired.
  abbrev pub Orphaned : Backend → String → List String → Result (String × ℕ) → Backend → Type 0
  Orphaned b x xs r c =
      (r ≡ err Error.no_key)
      × (waiting c u ≡ ok (xs ++ (x ∷ [])))
      × ((k : String) → k ≢ u → c.entry k ≡ b.entry k)

  pub next_command-Orphaned :
      (x : String) (xs : List String) (b : Backend)
      → b.entry u ≡ some (list (x ∷ xs))
      → b.entry x ≡ none
      → Orphaned b x xs (next_command cache plist u b).0 (next_command cache plist u b).1
  unfolding next_command
  next_command-Orphaned x [] b e f = (ground arith, ground arith, λ k h. ground arith)
  next_command-Orphaned x (y ∷ ys) b e f = (ground arith, ground arith, λ k h. ground arith)

  -- What a deletion leaves: no `c` waits any more, the count is of those that do, the payload's
  -- key expires in an hour, and no other key has changed.
  abbrev pub Deleted : Backend → String → List String → Result ℕ → Backend → Type 0
  Deleted b c xs r d =
      (r ≡ ok (length (without c xs)))
      × (waiting d u ≡ ok (without c xs))
      × ((s : String) → b.entry c ≡ some (str s) → d.ttl c ≡ some 3600)
      × ((k : String) → k ≢ u → d.entry k ≡ b.entry k)

  delete_command_left :
      (c : String) (xs ys : List String) (b : Backend)
      → b.entry u ≡ some (list xs)
      → without c xs ≡ ys
      → Deleted b c xs (delete_command cache plist u c b).0 (delete_command cache plist u c b).1
  unfolding delete_command
  delete_command_left c xs [] b e l =
      (ground arith, ground arith, λ s h. ground arith, λ k h. ground arith)
  delete_command_left c xs (y ∷ ys) b e l =
      (ground arith, ground arith, λ s h. ground arith, λ k h. ground arith)

  pub delete_command-Deleted :
      (c : String) (xs : List String) (b : Backend)
      → b.entry u ≡ some (list xs)
      → Deleted b c xs (delete_command cache plist u c b).0 (delete_command cache plist u c b).1
  delete_command-Deleted c xs b e = delete_command_left c xs (without c xs) b e refl

-- The queue commands leave the tables alone.
module _ (plist : Plist) (u : String) where
  delete_command_left_rows :
      (c : String) (xs ys : List String) (b : Backend)
      → b.entry u ≡ some (list xs)
      → without c xs ≡ ys
      → (delete_command cache plist u c b).1.rows ≡ b.rows
  unfolding delete_command
  delete_command_left_rows c xs [] b e l = ground arith
  delete_command_left_rows c xs (y ∷ ys) b e l = ground arith

  pub delete_command-rows :
      (c : String) (xs : List String) (b : Backend)
      → b.entry u ≡ some (list xs)
      → (delete_command cache plist u c b).1.rows ≡ b.rows
  delete_command-rows c xs b e = delete_command_left_rows c xs (without c xs) b e refl

  pub next_command-rows :
      (x : String) (xs : List String) (b : Backend)
      → b.entry u ≡ some (list (x ∷ xs))
      → (next_command cache plist u b).1.rows ≡ b.rows
  unfolding next_command
  next_command-rows x [] b e = ground arith
  next_command-rows x (y ∷ ys) b e = ground arith

module _ (plist : Plist) where
  -- A new command waits in front of the others, and its payload is kept under its UUID.
  abbrev pub Queued :
      String → Backend → List String → Payload → String → Result Payload → Backend → Type 0
  Queued u b xs p s r c =
      (r ≡ ok p)
      × (waiting c u ≡ ok (p.command_uuid ∷ xs))
      × (c.entry p.command_uuid ≡ some (str s))
      × (c.ttl p.command_uuid ≡ none)
      × ((k : String) → k ≢ u → k ≢ p.command_uuid → c.entry k ≡ b.entry k)

  pub new_command-Queued :
      (build : String → CommandRequest → Result Payload) (q : CommandRequest) (p : Payload)
      (s : String) (xs : List String) (b : Backend)
      → build (b.uuids b.issued) q ≡ ok p
      → plist.encode p ≡ ok s
      → waiting b q.udid ≡ ok xs
      → q.udid ≢ p.command_uuid
      → let m = new_command (redis_db cache plist) (issue build) q b in
        Queued q.udid b xs p s m.0 m.1
  unfolding new_command save_payload queue_command
  new_command-Queued build q p s xs b e f g h =
      (ground arith, ground arith, ground arith, ground arith, λ k i j. ground arith)

  pub find_kept :
      (c s : String) (p : Payload) (b : Backend)
      → b.entry c ≡ some (str s)
      → plist.decode s ≡ ok p
      → (find cache plist c b).0 ≡ ok p
  unfolding find
  find_kept c s p b e f = ground arith
