-- ===== src/Tests/Data.antt =====
-- A server with one enrolled device and two commands in its queue, over the reference model.
use micromdm.Base.{
  String, ◌==◌, true, false, Option, none, some, [], ◌∷◌, Result, ok, Action, refl, if◌then◌else◌,
}
use micromdm.Mdm.{CommandRequest, Payload, Plist, QueryResponses, Response, CheckinCommand}
use micromdm.Services.Sql.{Row, null, text, bool}
use micromdm.Services.Backend.{Backend, Entry, list, str, cache, tables}
use micromdm.Services.Lawful.{World, Behaves, IsRedis, IsPostgres}
use micromdm.Main.Server.{Library, Environment, model}
use micromdm.Main.Refinement.{IsEnvironment}

abbrev pub world : World Backend
world = record { view = λ b. b; up = λ b. true }

pub itself : {A : Type 0} (m : Action Backend A) → Behaves world m m
itself m = record { run = λ w u. (refl, refl, u) }

-- A payload as the text of its identifier, which names its request type too.
abbrev pub lock : String → Payload
lock id = record { command_uuid = id; request_type = "DeviceLock"; settings = "" }

abbrev pub plist : Plist
plist = record { encode = λ p. ok p.command_uuid; decode = λ s. ok (lock s) }

abbrev pub library : Library
library = record {
  plist = plist;
  marshal = λ q. ok q.serial_number;
  is_device_token_valid = λ t. t == "token";
  profile = "profile";
}

abbrev pub build : String → CommandRequest → Result Payload
build id q = ok (lock id)

abbrev pub environment : Environment Backend
environment = model build []

pub cache-IsRedis : IsRedis world cache
cache-IsRedis = record {
  set = λ k v. itself (cache.set k v);
  get = λ k. itself (cache.get k);
  lpush = λ k v. itself (cache.lpush k v);
  rpush = λ k v. itself (cache.rpush k v);
  lpop = λ k. itself (cache.lpop k);
  lrem = λ k v. itself (cache.lrem k v);
  llen = λ k. itself (cache.llen k);
  lrange = λ k. itself (cache.lrange k);
  expire = λ k n. itself (cache.expire k n);
}

pub tables-IsPostgres : IsPostgres world tables
tables-IsPostgres = record {
  query_row = λ q vs. itself (tables.query_row q vs);
  exec = λ q vs. itself (tables.exec q vs);
  named_exec = λ q r. itself (tables.named_exec q r);
  get = λ q c. itself (tables.get q c);
  select = λ q s. itself (tables.select q s);
  select_by = λ q c. itself (tables.select_by q c);
  delete = λ t qs. itself (tables.delete t qs);
  delete_where = λ t s. itself (tables.delete_where t s);
  select_join = λ q c. itself (tables.select_join q c);
  begin = itself tables.begin;
  commit = itself tables.commit;
  rollback = itself tables.rollback;
}

pub model-IsEnvironment : IsEnvironment world environment environment
model-IsEnvironment = record {
  redis = cache-IsRedis;
  postgres = tables-IsPostgres;
  new_payload = λ q. itself (environment.new_payload q);
  now = itself environment.now;
  send = λ t m. itself (environment.apple.send t m);
}

abbrev pub device_row : Row
device_row c =
    if c == "device_uuid"
    then text "id-1"
    else if c == "udid"
    then text "udid-1"
    else if c == "serial_number"
    then text "serial-1"
    else if c == "awaiting_configuration"
    then bool false
    else if c == "apple_mdm_topic"
    then text "topic"
    else null

abbrev pub entries : String → Option Entry
entries k =
    if k == "udid-1"
    then some (list ("lock-2" ∷ "lock-1" ∷ []))
    else if k == "udid-2"
    then some (list ("gone" ∷ "lock-1" ∷ []))
    else if k == "lock-1"
    then some (str "lock-1")
    else if k == "lock-2"
    then some (str "lock-2")
    else none

abbrev pub server : Backend
server = record {
  entry = entries;
  ttl = λ k. none;
  rows = λ t. if t == "devices" then device_row ∷ [] else [];
  before = none;
  reads = λ s. none;
  uuids = λ n. "fresh";
  issued = 0;
  now = 7;
  pushed = [];
}

-- The same server where the device awaits its configuration and one command waits.
abbrev pub awaiting_row : Row
awaiting_row c = if c == "awaiting_configuration" then bool true else device_row c

abbrev pub awaiting_server : Backend
awaiting_server = record server {
  entry = λ k. if k == "udid-1" then some (list ("lock-1" ∷ [])) else entries k;
  rows = λ t. if t == "devices" then awaiting_row ∷ [] else [];
}

abbrev pub no_answers : QueryResponses
no_answers = record {
  serial_number = "";
  product_name = "";
  build_version = "";
  device_name = "";
  imei = "";
  meid = "";
  model = "";
  os_version = "";
}

abbrev pub request : String → String → Response
request status uuid = record {
  udid = "udid-1";
  user_id = none;
  status = status;
  request_type = "";
  command_uuid = uuid;
  query_responses = no_answers;
  installed_applications = [];
  certificate_list = [];
}

abbrev pub checkin : String → CheckinCommand
checkin message = record {
  message_type = message;
  udid = "udid-1";
  user_id = "";
  serial_number = "serial-1";
  os_version = "10.12";
  build_version = "16A";
  product_name = "Mac";
  imei = "";
  meid = "";
  topic = "other topic";
  model = "model";
  device_name = "";
  token = "token";
  push_magic = "magic";
  unlock_token = "";
  awaiting_configuration = false;
}
