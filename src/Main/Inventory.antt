-- ===== src/Main/Inventory.antt =====
-- `ackInstalledApplicationList` of connect/service.go with application/datastore.go: the stored
-- applications of a device are those that it reports.
use micromdm.Base.{
  ◌+◌, String, string_dec, ==_refl, true, not, ◌&&◌, List, [], ◌∷◌, ◌++◌, map, some, Result, ok,
  Action, ◌≡◌, refl, ap, ◌∙◌, arith, if◌then◌else◌,
}
use mathlib.Core.Path.{sym}
use micromdm.Mdm.{CommandRequest, Payload, DepDevice, Response, InstalledApplication}
use micromdm.Services.Sql.{Row, Value, text, same}
use micromdm.Services.Schema.{referring, foreign, unique, uuid_column, defaults}
use micromdm.Services.Rows.{all_refer-append, all_refer-keep}
use micromdm.Services.Backend.{
  Backend, tables, insert, first, put, keep, consistent, all_distinct, referred, refers, all_hold,
  refer, all_refer, exists_same, proposed,
}
use mathlib.Core.List.{append-nil, append_assoc}
use micromdm.Main.Server.{Library, Environment, model, command_svc, device_db, apps_db, certs_db}
use micromdm.Device.Laws.{column}
use micromdm.Device.Datastore.{get_device_by_udid}
use micromdm.Device.Columns.{scan_device}
use micromdm.Application.Datastore.{
  delete_device_applications, new_device_app, insert_device_application, device_application_values,
}
use micromdm.Main.Refinement.{IsEnvironment, ack_applications_refines}
use micromdm.Services.Lawful.{World, transfer}
use micromdm.Main.Rows.{own, foreign_rows, keep-append, column-append}
use micromdm.Connect.Service.{
  reported_application, insert_applications, ack_installed_application_list,
}

-- The row that is inserted for an application.
abbrev stored : String → InstalledApplication → String → Row
stored id a fresh =
    proposed insert_device_application (device_application_values (reported_application id a)) fresh

stored-refers :
    (id fresh : String) (a : InstalledApplication) (ts : List Row)
    → exists_same "device_uuid" (text id) ts ≡ true
    → all_refer "device_uuid" ts (stored id a fresh ∷ []) ≡ true
unfolding all_refer string_dec
stored-refers id fresh a ts known = rw known

module _ (joined : String → Action Backend (List Row)) (id : String) where
  -- The tables and the identifiers after the insertion of an application.
  abbrev with_app : InstalledApplication → Backend → Backend
  with_app a b = record b {
    issued = b.issued + 1;
    rows =
        put "devices_applications"
          (b.rows "devices_applications" ++ (stored id a (b.uuids b.issued) ∷ [])) b.rows;
  }

  insert_app :
      (a : InstalledApplication) (b : Backend)
      → all_refer "device_uuid" (b.rows "devices") (b.rows "devices_applications") ≡ true
      → exists_same "device_uuid" (text id) (b.rows "devices") ≡ true
      → new_device_app tables joined (reported_application id a) b
        ≡ (ok (b.uuids b.issued), with_app a b)
  unfolding new_device_app insert consistent all_distinct unique refers all_hold refer foreign
      uuid_column defaults string_dec
  insert_app a b sound known = ground (
    arith,
    all_refer-append "device_uuid" (b.rows "devices") (b.rows "devices_applications")
        (stored id a (b.uuids b.issued)) sound
        (stored-refers id (b.uuids b.issued) a (b.rows "devices") known),
  )

  own-stored :
      (a : InstalledApplication) (fresh : String) (rs : List Row)
      → column "name" (own id (rs ++ (stored id a fresh ∷ [])))
        ≡ column "name" (own id rs) ++ (text a.name ∷ [])
  unfolding string_dec
  own-stored a fresh rs =
      ap (column "name")
        (keep-append (λ r. same (r "device_uuid") (text id)) rs (stored id a fresh ∷ []))
      ∙ column-append "name" (own id rs) (own id (stored id a fresh ∷ []))
      ∙ ap
          (λ t.
            column "name" (own id rs) ++ column "name" (if t then stored id a fresh ∷ [] else []))
          (==_refl id)

  others-stored :
      (a : InstalledApplication) (fresh : String) (rs : List Row)
      → foreign_rows id (rs ++ (stored id a fresh ∷ [])) ≡ foreign_rows id rs
  unfolding string_dec
  others-stored a fresh rs =
      keep-append (λ r. not (same (r "device_uuid") (text id))) rs (stored id a fresh ∷ [])
      ∙ ap (λ t. foreign_rows id rs ++ (if not t then stored id a fresh ∷ [] else [])) (==_refl id)
      ∙ append-nil (foreign_rows id rs)

-- The applications that are stored for the device `id` are named as those of the report, after
-- `before`; those of other devices are as they were.
abbrev pub Lists :
    String → List InstalledApplication → List Value → Backend → Result (Unit {0}) → Backend → Type 0
Lists id as_ before b r c =
    (r ≡ ok tt)
    × (column "name" (own id (c.rows "devices_applications"))
        ≡ before ++ map (λ a. text a.name) as_)
    × (foreign_rows id (c.rows "devices_applications")
        ≡ foreign_rows id (b.rows "devices_applications"))

module _ (l : Library) (build : String → CommandRequest → Result Payload) (fetched : List DepDevice)
    (id : String) where
  abbrev e : Environment Backend
  e = model build fetched

  abbrev insert_reported : List InstalledApplication → Action Backend (Unit {0})
  insert_reported as_ =
      insert_applications (device_db l e) (apps_db l e) (certs_db l e) (command_svc l e) l.marshal
        e.now id as_

  insert_step :
      (a : InstalledApplication) (as_ : List InstalledApplication) (b : Backend)
      → all_refer "device_uuid" (b.rows "devices") (b.rows "devices_applications") ≡ true
      → exists_same "device_uuid" (text id) (b.rows "devices") ≡ true
      → insert_reported (a ∷ as_) b ≡ insert_reported as_ (with_app e.applications_of id a b)
  insert_step a as_ b sound known = rw (insert_app e.applications_of id a b sound known)

  insert-Lists :
      (as_ : List InstalledApplication) (b : Backend)
      → all_refer "device_uuid" (b.rows "devices") (b.rows "devices_applications") ≡ true
      → exists_same "device_uuid" (text id) (b.rows "devices") ≡ true
      → let (r, c) = insert_reported as_ b in
        Lists id as_ (column "name" (own id (b.rows "devices_applications"))) b r c
  unfolding string_dec
  insert-Lists [] b sound known = (refl, sym (append-nil _), refl)
  insert-Lists (a ∷ as_) b sound known =
      let rs = b.rows "devices_applications" in
      let fresh = b.uuids b.issued in
      let d = with_app e.applications_of id a b in
      let (r, own_c, others_c) =
        insert-Lists as_ d
          (all_refer-append "device_uuid" (b.rows "devices") rs (stored id a fresh) sound
            (stored-refers id fresh a (b.rows "devices") known))
          known in
      let eq = insert_step a as_ b sound known in
      (
        ap (λ z. z.0) eq ∙ r,
        ap (λ z. column "name" (own id (z.1.rows "devices_applications"))) eq
            ∙ own_c
            ∙ ap (λ vs. vs ++ map (λ x. text x.name) as_)
                (own-stored e.applications_of id a fresh rs)
            ∙ append_assoc (column "name" (own id rs)) (text a.name ∷ [])
                (map (λ x. text x.name) as_),
        ap (λ z. foreign_rows id (z.1.rows "devices_applications")) eq
            ∙ others_c
            ∙ others-stored e.applications_of id a fresh rs,
      )

  -- The tables after the deletion of the device's applications.
  abbrev cleared : Backend → Backend
  cleared b = record b {
    rows =
        put "devices_applications"
          (keep (λ r. not (same (r "device_uuid") (text id) && true))
            (b.rows "devices_applications"))
          b.rows;
  }

  report_app_step :
      (req : Response) (row : Row) (b : Backend)
      → first (λ q. same (q "udid") (text req.udid)) (b.rows "devices") ≡ some row
      → row "device_uuid" ≡ text id
      → ack_installed_application_list
          (device_db l e)
          (apps_db l e)
          (certs_db l e)
          (command_svc l e)
          l.marshal
          e.now
          req
          b
        ≡ insert_reported req.installed_applications (cleared b)
  unfolding ack_installed_application_list get_device_by_udid scan_device delete_device_applications
      referred all_hold referring string_dec
  report_app_step req row b found named_id = ground arith

  own-cleared :
      (rs : List Row) → own id (keep (λ r. not (same (r "device_uuid") (text id) && true)) rs) ≡ []
  own-cleared [] = refl
  own-cleared (r ∷ rs) = ground (arith, own-cleared rs)

  others-cleared :
      (rs : List Row)
      → foreign_rows id (keep (λ r. not (same (r "device_uuid") (text id) && true)) rs)
        ≡ foreign_rows id rs
  others-cleared [] = refl
  others-cleared (r ∷ rs) = ground (arith, others-cleared rs)

  report_model :
      (req : Response) (row : Row) (b : Backend)
      → first (λ q. same (q "udid") (text req.udid)) (b.rows "devices") ≡ some row
      → row "device_uuid" ≡ text id
      → all_refer "device_uuid" (b.rows "devices") (b.rows "devices_applications") ≡ true
      → exists_same "device_uuid" (text id) (b.rows "devices") ≡ true
      → let (r, c) =
          ack_installed_application_list
            (device_db l e)
            (apps_db l e)
            (certs_db l e)
            (command_svc l e)
            l.marshal
            e.now
            req
            b in
        Lists id req.installed_applications [] b r c
  unfolding string_dec
  report_model req row b found named_id sound known =
      let rs = b.rows "devices_applications" in
      let (r, own_c, others_c) =
        insert-Lists req.installed_applications (cleared b)
          (all_refer-keep "device_uuid" (b.rows "devices")
            (λ r. not (same (r "device_uuid") (text id) && true)) rs sound)
          known in
      let eq = report_app_step req row b found named_id in
      (
        ap (λ z. z.0) eq ∙ r,
        ap (λ z. column "name" (own id (z.1.rows "devices_applications"))) eq
            ∙ own_c
            ∙ ap (λ ss. column "name" ss ++ map (λ a. text a.name) req.installed_applications)
                (own-cleared rs),
        ap (λ z. foreign_rows id (z.1.rows "devices_applications")) eq
            ∙ others_c
            ∙ others-cleared rs,
      )

-- The report of a device's installed applications: it succeeds, the names of the applications that
-- are stored for the device are those of the report, in its order, whatever was stored before, and
-- the rows of the applications of other devices are as they were. The world behaves like the
-- reference model and its services answer, the device is known by its UDID and has an identifier,
-- and every stored application belongs to a device in the table.
pub report_replaces_applications :
    {W : Type 0} (o : World W) (e : Environment W) (l : Library)
    (build : String → CommandRequest → Result Payload) (fetched : List DepDevice)
    → IsEnvironment o e (model build fetched)
    → (req : Response) (id : String) (row : Row) (w : W) → o.up w ≡ true
    → first (λ q. same (q "udid") (text req.udid)) ((o.view w).rows "devices") ≡ some row
    → row "device_uuid" ≡ text id
    → all_refer "device_uuid" ((o.view w).rows "devices") ((o.view w).rows "devices_applications")
      ≡ true
    → exists_same "device_uuid" (text id) ((o.view w).rows "devices") ≡ true
    → let (r, w') =
        ack_installed_application_list
          (device_db l e)
          (apps_db l e)
          (certs_db l e)
          (command_svc l e)
          l.marshal
          e.now
          req
          w in
      Lists id req.installed_applications [] (o.view w) r (o.view w')
report_replaces_applications o e l build fetched lawful req id row w up found named_id sound known =
    transfer (Lists id req.installed_applications [] (o.view w))
      (ack_applications_refines build fetched lawful l req) w up
      (report_model l build fetched id req row (o.view w) found named_id sound known)
