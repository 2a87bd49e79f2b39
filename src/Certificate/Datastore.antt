-- ===== src/Certificate/Datastore.antt =====
-- certificate/certificate.go and certificate/datastore.go
use micromdm.Base.{
  String, Bool, List, [], ◌∷◌, Error, Result, ok, err, panic, Action, pure, raise, return, attempt,
  wrapping, ◌>>=◌, ◌>>◌, some,
}
use micromdm.Services.Sql.{Value, null, text, bool, Row, fail, Insert, Join, Select, Postgres}

pub record Certificate : Type 0 where
  pub uuid : String
  pub device_uuid : String
  pub contents : String
  pub common_name : String
  pub is_identity : Bool

-- What `Certificates` takes: no type of the package has a `where` method.
pub record Datastore (W : Type 0) : Type 0 where
  pub new : Certificate → Action W String
  pub certificates : Action W (List Certificate)
  pub get_certificates_by_device_udid : String → Action W (List Certificate)
  pub get_certificates_by_device_uuid : String → Action W (List Certificate)
  pub replace_certificates_by_device_uuid : String → List Certificate → Action W (Unit {0})

-- `insertCertificateStmt`
abbrev pub insert_certificate_stmt : Insert
insert_certificate_stmt = record {
  table = "devices_certificates";
  columns = "device_uuid" ∷ "common_name" ∷ "data" ∷ "is_identity" ∷ [];
  on_conflict = fail;
  returning = some "certificate_uuid";
}

abbrev certificate_columns : List String
certificate_columns =
    "certificate_uuid" ∷ "device_uuid" ∷ "common_name" ∷ "data" ∷ "is_identity" ∷ []

-- `selectCertificatesStmt`
abbrev select_certificates_stmt : Select
select_certificates_stmt = record { table = "devices_certificates"; columns = certificate_columns }

-- `selectCertificatesByDeviceUdidStmt` and `selectCertificatesByDeviceUuidStmt`, whose conditions
-- are on `devices.udid` and on `devices.device_uuid`
abbrev select_certificates_by_device : Join
select_certificates_by_device = record {
  table = "devices_certificates";
  columns = certificate_columns;
  joined = "devices";
  on = "device_uuid";
}

-- The arguments of an insertion: "" stands where the data belongs.
abbrev pub certificate_values : Certificate → List Value
certificate_values c = text c.device_uuid ∷ text c.common_name ∷ text "" ∷ bool c.is_identity ∷ []

module _ {W : Type 0} where
  abbrev pub read_text : Value → Action W String
  read_text (text s) = pure s
  read_text _ = raise (Error.fault "sql: Scan error on column")

  -- A []byte takes a NULL as nil.
  abbrev pub read_bytes : Value → Action W String
  read_bytes (text s) = pure s
  read_bytes null = pure ""
  read_bytes _ = raise (Error.fault "sql: Scan error on column")

  abbrev pub read_bool : Value → Action W Bool
  read_bool (bool b) = pure b
  read_bool _ = raise (Error.fault "sql: Scan error on column")

  abbrev pub scan_certificate : Row → Action W Certificate
  scan_certificate r = do
    id ← read_text (r "certificate_uuid")
    device ← read_text (r "device_uuid")
    name ← read_text (r "common_name")
    contents ← read_bytes (r "data")
    identity ← read_bool (r "is_identity")
    pure (record {
      uuid = id;
      device_uuid = device;
      contents = contents;
      common_name = name;
      is_identity = identity;
    })

  abbrev pub scan_certificates : List Row → Action W (List Certificate)
  scan_certificates [] = pure []
  scan_certificates (r ∷ rs) = do c ← scan_certificate r; cs ← scan_certificates rs; pure (c ∷ cs)

module _ {W : Type 0} (store : Postgres W) where
  unfoldable pub new : Certificate → Action W String
  new c = store.query_row insert_certificate_stmt (certificate_values c)

  unfoldable pub certificates : Action W (List Certificate)
  certificates =
      wrapping "pgStore Certificates"
        (do rows ← store.select select_certificates_stmt ""; scan_certificates rows)

  unfoldable pub get_certificates_by_device_udid : String → Action W (List Certificate)
  get_certificates_by_device_udid udid = wrapping "pgStore GetCertificatesByDeviceUDID" (do
    rows ←
        store.select_join select_certificates_by_device
          (record { column = "udid"; value = text udid })
    scan_certificates rows)

  unfoldable pub get_certificates_by_device_uuid : String → Action W (List Certificate)
  get_certificates_by_device_uuid uuid = wrapping "pgStore GetCertificatesByDeviceUUID" (do
    rows ←
        store.select_join select_certificates_by_device
          (record { column = "device_uuid"; value = text uuid })
    scan_certificates rows)

  abbrev pub or_roll_back : Action W (Unit {0}) → Result String → Action W (Unit {0})
  or_roll_back rest (ok id) = rest
  or_roll_back rest (err e) = attempt store.rollback >>= λ _. raise e
  or_roll_back rest panic = return panic

  -- The loop of `ReplaceCertificatesByDeviceUUID`, then `Commit`, whose error is dropped.
  abbrev pub insert_all : List Certificate → Action W (Unit {0})
  insert_all [] = attempt store.commit >>= λ _. pure tt
  insert_all (c ∷ cs) =
      attempt (store.query_row insert_certificate_stmt (certificate_values c))
      >>= or_roll_back (insert_all cs)

  -- `MustExec` panics on an error.
  abbrev pub must : Result (Unit {0}) → Action W (Unit {0})
  must (ok _) = pure tt
  must (err e) = return panic
  must panic = return panic

  -- On an error of `Beginx` the code calls `Rollback` of a nil transaction, which panics.
  abbrev pub replace_in : String → List Certificate → Result (Unit {0}) → Action W (Unit {0})
  replace_in uuid cs (ok _) = do
    deleted ← attempt (
        store.delete "devices_certificates"
          (record { column = "device_uuid"; value = text uuid } ∷ []))
    must deleted
    insert_all cs
  replace_in uuid cs (err e) = return panic
  replace_in uuid cs panic = return panic

  unfoldable pub replace_certificates_by_device_uuid :
      String → List Certificate → Action W (Unit {0})
  replace_certificates_by_device_uuid uuid cs = attempt store.begin >>= replace_in uuid cs

  -- `pgStore`
  abbrev pub pg_store : Datastore W
  pg_store = record {
    new = new;
    certificates = certificates;
    get_certificates_by_device_udid = get_certificates_by_device_udid;
    get_certificates_by_device_uuid = get_certificates_by_device_uuid;
    replace_certificates_by_device_uuid = replace_certificates_by_device_uuid;
  }
