-- ===== src/Application/Datastore.antt =====
-- application/application.go and application/datastore.go
use micromdm.Base.{
  ℕ, String, ◌==◌, Bool, false, List, [], ◌∷◌, Error, Action, pure, raise, wrapping, ◌>>=◌, some,
  none, if◌then◌else◌,
}
use micromdm.Services.Sql.{Value, null, text, bool, num, Row, fail, Insert, Select, Postgres}
use micromdm.Application.Statement.{Param, add_where_filters}

-- `sql.NullString`, `sql.NullInt64` and `sql.NullBool`, with `valid` first
pub record NullString : Type 0 where
  pub string : String
  pub valid : Bool

pub record NullInt64 : Type 0 where
  pub int64 : ℕ
  pub valid : Bool

pub record NullBool : Type 0 where
  pub boolean : Bool
  pub valid : Bool

pub record Application : Type 0 where
  pub uuid : String
  pub identifier : NullString
  pub version : NullString
  pub short_version : NullString
  pub name : String
  pub bundle_size : NullInt64
  pub dynamic_size : NullInt64
  pub is_validated : NullBool

pub record DeviceApplication : Type 0 where
  pub device_uuid : String
  pub application_uuid : String
  pub identifier : NullString
  pub version : NullString
  pub short_version : NullString
  pub name : String
  pub bundle_size : NullInt64
  pub dynamic_size : NullInt64
  pub is_validated : NullBool

pub record Datastore (W : Type 0) : Type 0 where
  pub new_device_app : DeviceApplication → Action W String
  pub applications : List Param → Action W (List Application)
  pub get_applications_by_device_uuid : String → Action W (List Application)
  pub save_application_by_device_uuid : String → Application → Action W (Unit {0})
  pub delete_device_applications : String → Action W (Unit {0})

abbrev pub string_value : NullString → Value
string_value s = if s.valid then text s.string else null

abbrev pub int_value : NullInt64 → Value
int_value n = if n.valid then num n.int64 else null

abbrev pub bool_value : NullBool → Value
bool_value b = if b.valid then bool b.boolean else null

-- The INSERT of `NewDeviceApp`
abbrev pub insert_device_application : Insert
insert_device_application = record {
  table = "devices_applications";
  columns =
      "device_uuid" ∷ "name" ∷ "identifier" ∷ "short_version" ∷ "version" ∷ "bundle_size"
      ∷ "dynamic_size" ∷ "is_validated" ∷ [];
  on_conflict = fail;
  returning = some "application_uuid";
}

abbrev pub device_application_values : DeviceApplication → List Value
device_application_values da =
    text da.device_uuid
    ∷ text da.name
    ∷ string_value da.identifier
    ∷ string_value da.short_version
    ∷ string_value da.version
    ∷ int_value da.bundle_size
    ∷ int_value da.dynamic_size
    ∷ bool_value da.is_validated
    ∷ []

abbrev select_applications : Select
select_applications = record {
  table = "applications";
  columns =
      "application_uuid" ∷ "name" ∷ "identifier" ∷ "short_version" ∷ "version" ∷ "bundle_size"
      ∷ "dynamic_size" ∷ "is_validated" ∷ [];
}

-- The INSERT of `SaveApplicationByDeviceUUID`
abbrev link_application_stmt : Insert
link_application_stmt = record {
  table = "devices_applications";
  columns = "device_uuid" ∷ "application_uuid" ∷ [];
  on_conflict = fail;
  returning = none;
}

module _ {W : Type 0} where
  abbrev read_text : Value → Action W String
  read_text (text s) = pure s
  read_text _ = raise (Error.fault "sql: Scan error on column")

  abbrev read_string : Value → Action W NullString
  read_string (text s) = pure (record { string = s; valid = Bool.true })
  read_string null = pure (record { string = ""; valid = false })
  read_string _ = raise (Error.fault "sql: Scan error on column")

  abbrev read_int : Value → Action W NullInt64
  read_int (num n) = pure (record { int64 = n; valid = Bool.true })
  read_int null = pure (record { int64 = 0; valid = false })
  read_int _ = raise (Error.fault "sql: Scan error on column")

  abbrev read_bool : Value → Action W NullBool
  read_bool (bool b) = pure (record { boolean = b; valid = Bool.true })
  read_bool null = pure (record { boolean = false; valid = false })
  read_bool _ = raise (Error.fault "sql: Scan error on column")

  abbrev scan_application : Row → Action W Application
  scan_application r = do
    id ← read_text (r "application_uuid")
    name ← read_text (r "name")
    identifier ← read_string (r "identifier")
    short_version ← read_string (r "short_version")
    version ← read_string (r "version")
    bundle_size ← read_int (r "bundle_size")
    dynamic_size ← read_int (r "dynamic_size")
    is_validated ← read_bool (r "is_validated")
    pure (record {
      uuid = id;
      identifier = identifier;
      version = version;
      short_version = short_version;
      name = name;
      bundle_size = bundle_size;
      dynamic_size = dynamic_size;
      is_validated = is_validated;
    })

  abbrev scan_applications : List Row → Action W (List Application)
  scan_applications [] = pure []
  scan_applications (r ∷ rs) = do a ← scan_application r; as_ ← scan_applications rs; pure (a ∷ as_)

-- `joined` is the query of `GetApplicationsByDeviceUUID`, a RIGHT JOIN, run for a device.
module _ {W : Type 0} (store : Postgres W) (joined : String → Action W (List Row)) where
  unfoldable pub new_device_app : DeviceApplication → Action W String
  new_device_app da =
      wrapping "inserting application"
        (store.query_row insert_device_application (device_application_values da))

  unfoldable pub delete_device_applications : String → Action W (Unit {0})
  delete_device_applications device_uuid =
      store.delete "devices_applications"
        (record { column = "device_uuid"; value = text device_uuid } ∷ [])

  unfoldable pub applications : List Param → Action W (List Application)
  applications params = wrapping "pgStore Applications" (do
    rows ← store.select select_applications (add_where_filters "OR" params)
    scan_applications rows)

  unfoldable pub get_applications_by_device_uuid : String → Action W (List Application)
  get_applications_by_device_uuid device_uuid =
      if device_uuid == ""
      then raise (Error.new "empty uuid supplied to GetApplicationsByDeviceUUID")
      else joined device_uuid >>= scan_applications

  unfoldable pub save_application_by_device_uuid : String → Application → Action W (Unit {0})
  save_application_by_device_uuid device_uuid app =
      if device_uuid == ""
      then raise (Error.new "empty uuid supplied to SaveApplicationByDeviceUUID for deviceUUID")
      else if app.uuid == ""
      then raise (Error.new "empty uuid supplied to SaveApplicationByDeviceUUID for application")
      else store.exec link_application_stmt (text device_uuid ∷ text app.uuid ∷ [])

  -- `pgStore`
  abbrev pub pg_store : Datastore W
  pg_store = record {
    new_device_app = new_device_app;
    applications = applications;
    get_applications_by_device_uuid = get_applications_by_device_uuid;
    save_application_by_device_uuid = save_application_by_device_uuid;
    delete_device_applications = delete_device_applications;
  }
