-- ===== src/Command/Laws.antt =====
-- command/datastore.go and command/service.go over any Redis that behaves like the reference model.
use micromdm.Base.{
  String, List, [], ◌∷◌, ◌++◌, map, Result, ok, ◌≡◌, ◌≢◌, true, sym, ap, ◌∙◌, length, some, none,
}
use mathlib.Core.List.{append-nil}
use micromdm.Mdm.{CommandRequest, Payload, Plist, NewPayload}
use micromdm.Services.Redis.{Redis}
use micromdm.Services.Backend.{list, str}
use micromdm.Services.Lawful.{World, Behaves, IsRedis, transfer}
use micromdm.Command.Service.{Service, new_service}
use micromdm.Command.Datastore.{redis_db, next_command, delete_command}
use micromdm.Command.Refinement.{
  next_command-Behaves, delete_command-Behaves, new_service-IsService,
}
use micromdm.Command.Queue.{
  waiting, Rotated, next_command-Rotated, Orphaned, next_command-Orphaned, Deleted,
  delete_command-Deleted, new_command-Queued, issue, find_kept,
}
use micromdm.Command.Cycle.{elements-eq-ok, repeat, repeat-Behaves, Kept, rotate_all}

module _ {W : Type 0} (o : World W) (redis : Redis W) (lawful : IsRedis o redis) (plist : Plist)
    (w : W) (up : o.up w ≡ true) (u : String) where
  -- `NextCommand` on a queue whose first command has its payload in Redis: the payload is returned
  -- with the number of commands that wait, that command goes to the end of the queue, and the
  -- entry of no other key has changed. The world's Redis behaves like the reference model and
  -- answers.
  pub next_command_rotates :
      (x s : String) (xs : List String)
      → (o.view w).entry u ≡ some (list (x ∷ xs))
      → (o.view w).entry x ≡ some (str s)
      → let (r, w') = next_command redis plist u w in
        Rotated plist u (o.view w) x xs s r (o.view w')
  next_command_rotates x s xs e f =
      transfer (Rotated plist u (o.view w) x xs s) (next_command-Behaves lawful plist u) w up
        (next_command-Rotated plist u x s xs (o.view w) e f)

  -- `NextCommand` on a queue whose first command has no payload in Redis returns `ErrNoKey`; the
  -- command stays in the queue, at its end, and the entry of no other key has changed. The world's
  -- Redis behaves like the reference model and answers.
  pub next_command_orphan :
      (x : String) (xs : List String)
      → (o.view w).entry u ≡ some (list (x ∷ xs))
      → (o.view w).entry x ≡ none
      → let (r, w') = next_command redis plist u w in Orphaned plist u (o.view w) x xs r (o.view w')
  next_command_orphan x xs e f =
      transfer (Orphaned plist u (o.view w) x xs) (next_command-Behaves lawful plist u) w up
        (next_command-Orphaned plist u x xs (o.view w) e f)

  -- As many calls of `NextCommand` as commands wait: each payload is returned once, in the order
  -- of the queue, with the length of the queue, and the queue is as it was. The world's Redis
  -- behaves like the reference model and answers, and every waiting command has its payload in
  -- Redis.
  pub next_command_cycle :
      (payload : String → String) (xs : List String)
      → waiting (o.view w) u ≡ ok xs
      → Kept plist u payload (o.view w) xs
      → let (rs, w') = repeat (length xs) (next_command redis plist u) w in
        (rs ≡ map (λ x. ok (payload x, length xs)) xs) × (waiting (o.view w') u ≡ ok xs)
  next_command_cycle payload xs e h =
      let (p, q) = repeat-Behaves (length xs) (next_command-Behaves lawful plist u) w up in
      let (rs, l) =
        rotate_all plist u payload xs [] (length xs) (o.view w) (e ∙ ap ok (sym (append-nil xs))) h
          (ap length (append-nil xs)) in
      (p ∙ rs, ap (λ b. waiting b u) q ∙ l)

  -- `DeleteCommand` on a device with a queue: the command waits no more, the number of those that
  -- do is returned, a payload under the command's key expires in an hour, and the entry of no key
  -- but the queue's has changed. The world's Redis behaves like the reference model and answers.
  pub delete_command_removes :
      (c : String) (xs : List String)
      → (o.view w).entry u ≡ some (list xs)
      → let (r, w') = delete_command redis plist u c w in
        Deleted plist u (o.view w) c xs r (o.view w')
  delete_command_removes c xs e =
      transfer (Deleted plist u (o.view w) c xs) (delete_command-Behaves lawful plist u c) w up
        (delete_command-Deleted plist u c xs (o.view w) e)

module _ {W : Type 0} (o : World W) (redis : Redis W) (lawful : IsRedis o redis) (plist : Plist)
    (make : NewPayload W) (build : String → CommandRequest → Result Payload)
    (made : (q : CommandRequest) → Behaves o (make q) (issue build q)) where
  abbrev commands : Service W
  commands = new_service (redis_db redis plist) make

  -- A command that is made for a device is the one that `NextCommand` returns then, before those
  -- that waited already, and goes to the end of the queue. The world's Redis behaves like the
  -- reference model and answers, the payload can be made and encoded, the device's key holds a
  -- queue or nothing, and the command's UUID is not the device's UDID.
  pub new_command_next :
      (w : W) (q : CommandRequest) (p : Payload) (s : String) (xs : List String)
      → o.up w ≡ true
      → build ((o.view w).uuids (o.view w).issued) q ≡ ok p
      → plist.encode p ≡ ok s
      → waiting (o.view w) q.udid ≡ ok xs
      → q.udid ≢ p.command_uuid
      → let (r, w') = commands.new_command q w in
        let (r', w'') = commands.next_command q.udid w' in
        (r ≡ ok p)
        × (r' ≡ ok (s, length (p.command_uuid ∷ xs)))
        × (waiting (o.view w'') q.udid ≡ ok (xs ++ (p.command_uuid ∷ [])))
  new_command_next w q p s xs up e f g ne =
      let service = new_service-IsService lawful plist made in
      let (same, seen, up') = (service.new_command q).run w up in
      let (r, front, kept, _, _) = new_command-Queued plist build q p s xs (o.view w) e f g ne in
      let (r', back, _) =
        next_command_rotates o redis lawful plist (commands.new_command q w).1 up' q.udid
          p.command_uuid s xs
          (ap (λ b. b.entry q.udid) seen ∙ elements-eq-ok _ p.command_uuid xs front)
          (ap (λ b. b.entry p.command_uuid) seen ∙ kept) in
      (same ∙ r, r', back)

  -- The payload of a command that was made is what `Find` returns for its UUID. The world's Redis
  -- behaves like the reference model and answers, the payload can be made and encoded and its
  -- encoding decodes to it, the device's key holds a queue or nothing, and the command's UUID is
  -- not the device's UDID.
  pub new_command_find :
      (w : W) (q : CommandRequest) (p : Payload) (s : String) (xs : List String)
      → o.up w ≡ true
      → build ((o.view w).uuids (o.view w).issued) q ≡ ok p
      → plist.encode p ≡ ok s
      → plist.decode s ≡ ok p
      → waiting (o.view w) q.udid ≡ ok xs
      → q.udid ≢ p.command_uuid
      → let (r, w') = commands.new_command q w in
        (r ≡ ok p) × ((commands.find p.command_uuid w').0 ≡ ok p)
  new_command_find w q p s xs up e f d g ne =
      let service = new_service-IsService lawful plist made in
      let (same, seen, up') = (service.new_command q).run w up in
      let (r, front, kept, _, _) = new_command-Queued plist build q p s xs (o.view w) e f g ne in
      let (same', _, _) = (service.find p.command_uuid).run (commands.new_command q w).1 up' in
      (
        same ∙ r,
        same'
            ∙ find_kept plist p.command_uuid s p _ (ap (λ b. b.entry p.command_uuid) seen ∙ kept) d,
      )
