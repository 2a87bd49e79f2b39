-- ===== src/Command/Refinement.antt =====
-- The Redis datastore and the service over it, in any world that behaves like the reference model:
-- each operation ends as it ends over the model.
use micromdm.Base.{String, List, [], ◌∷◌, Error, Result, ok, err, panic}
use micromdm.Mdm.{CommandRequest, Payload, Plist, NewPayload}
use micromdm.Services.Redis.{Redis}
use micromdm.Services.Backend.{Backend, cache}
use micromdm.Services.Lawful.{
  World, Behaves, pure-Behaves, return-Behaves, raise-Behaves, bind-Behaves, attempt-Behaves,
  if-Behaves, IsRedis,
}
use micromdm.Command.Datastore.{
  Datastore, is_nil_reply, save_payload, queue_command, after_get, with_total, after_pop,
  next_command, delete_command, load, commands, find, redis_db,
}
use micromdm.Command.Service.{Service, new_command, new_service}

-- Two datastores, of a world and of the model, that end alike in every call.
pub record IsDatastore {W : Type 0} (o : World W) (d : Datastore W) (d' : Datastore Backend)
    : Type 0 where
  pub save_payload : (p : Payload) → Behaves o (d.save_payload p) (d'.save_payload p)
  pub queue_command : (u c : String) → Behaves o (d.queue_command u c) (d'.queue_command u c)
  pub next_command : (u : String) → Behaves o (d.next_command u) (d'.next_command u)
  pub delete_command : (u c : String) → Behaves o (d.delete_command u c) (d'.delete_command u c)
  pub commands : (u : String) → Behaves o (d.commands u) (d'.commands u)
  pub find : (c : String) → Behaves o (d.find c) (d'.find c)

pub record IsService {W : Type 0} (o : World W) (s : Service W) (s' : Service Backend)
    : Type 0 where
  pub new_command : (q : CommandRequest) → Behaves o (s.new_command q) (s'.new_command q)
  pub next_command : (u : String) → Behaves o (s.next_command u) (s'.next_command u)
  pub delete_command : (u c : String) → Behaves o (s.delete_command u c) (s'.delete_command u c)
  pub commands : (u : String) → Behaves o (s.commands u) (s'.commands u)
  pub find : (c : String) → Behaves o (s.find c) (s'.find c)

module _ {W : Type 0} {o : World W} {redis : Redis W} (lawful : IsRedis o redis)
    (plist : Plist) where
  pub save_payload-Behaves :
      (p : Payload) → Behaves o (save_payload redis plist p) (save_payload cache plist p)
  unfolding save_payload
  save_payload-Behaves p =
      bind-Behaves (return-Behaves (plist.encode p)) (λ encoded. lawful.set p.command_uuid encoded)

  with_total-Behaves :
      (u s : String) → Behaves o (with_total redis plist u s) (with_total cache plist u s)
  with_total-Behaves u s = bind-Behaves (lawful.llen u) (λ total. pure-Behaves (s, total))

  after_get-Behaves :
      (u : String) (r : Result String)
      → Behaves o (after_get redis plist u r) (after_get cache plist u r)
  after_get-Behaves u (ok s) = with_total-Behaves u s
  after_get-Behaves u (err e) =
      if-Behaves (is_nil_reply e) (raise-Behaves Error.no_key) (with_total-Behaves u "")
  after_get-Behaves u panic = return-Behaves panic

  after_pop-Behaves :
      (u : String) (r : Result String)
      → Behaves o (after_pop redis plist u r) (after_pop cache plist u r)
  after_pop-Behaves u (ok c) =
      bind-Behaves (attempt-Behaves (lawful.rpush u c))
        (λ _. bind-Behaves (attempt-Behaves (lawful.get c)) (after_get-Behaves u))
  after_pop-Behaves u (err e) = if-Behaves (is_nil_reply e) (pure-Behaves ("", 0)) (raise-Behaves e)
  after_pop-Behaves u panic = return-Behaves panic

  pub next_command-Behaves :
      (u : String) → Behaves o (next_command redis plist u) (next_command cache plist u)
  unfolding next_command
  next_command-Behaves u = bind-Behaves (attempt-Behaves (lawful.lpop u)) (after_pop-Behaves u)

  pub delete_command-Behaves :
      (u c : String) → Behaves o (delete_command redis plist u c) (delete_command cache plist u c)
  unfolding delete_command
  delete_command-Behaves u c =
      bind-Behaves (lawful.lrem u c) (λ _. bind-Behaves (lawful.expire c 3600) (λ _. lawful.llen u))

  pub find-Behaves : (c : String) → Behaves o (find redis plist c) (find cache plist c)
  unfolding find
  find-Behaves c = bind-Behaves (lawful.get c) (λ s. return-Behaves (plist.decode s))

  load-Behaves : (cs : List String) → Behaves o (load redis plist cs) (load cache plist cs)
  unfolding load
  load-Behaves [] = pure-Behaves []
  load-Behaves (c ∷ cs) = bind-Behaves (lawful.get c) (λ s.
      bind-Behaves (return-Behaves (plist.decode s))
        (λ p. bind-Behaves (load-Behaves cs) (λ ps. pure-Behaves (p ∷ ps))))

  commands-Behaves : (u : String) → Behaves o (commands redis plist u) (commands cache plist u)
  unfolding commands
  commands-Behaves u = bind-Behaves (lawful.lrange u) load-Behaves

  -- The datastore over a lawful Redis.
  pub redis_db-IsDatastore : IsDatastore o (redis_db redis plist) (redis_db cache plist)
  unfolding queue_command
  redis_db-IsDatastore = record {
    save_payload = save_payload-Behaves;
    queue_command = lawful.lpush;
    next_command = next_command-Behaves;
    delete_command = delete_command-Behaves;
    commands = commands-Behaves;
    find = find-Behaves;
  }

  -- The command service over a Redis that behaves like the reference model, with a maker of
  -- payloads that behaves like another over the model, behaves, operation by operation, like the
  -- service over the model with that other maker.
  pub new_service-IsService :
      {make : NewPayload W} {make' : NewPayload Backend}
      → ((q : CommandRequest) → Behaves o (make q) (make' q))
      → IsService o
          (new_service (redis_db redis plist) make)
          (new_service (redis_db cache plist) make')
  unfolding new_command queue_command
  new_service-IsService made = record {
    new_command = λ q. bind-Behaves (made q) (λ p.
        bind-Behaves (save_payload-Behaves p)
          (λ _. bind-Behaves (lawful.lpush q.udid p.command_uuid) (λ _. pure-Behaves p)));
    next_command = next_command-Behaves;
    delete_command = delete_command-Behaves;
    commands = commands-Behaves;
    find = find-Behaves;
  }
