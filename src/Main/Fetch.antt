-- ===== src/Main/Fetch.antt =====
-- `FetchDEPDevices` of management/service.go with `New` of device/datastore.go, on a device whose
-- serial number is in the table already.
use mathlib.Core.Path.{subst, sym}
use micromdm.Base.{
  ℕ, ◌+◌, String, string_dec, Bool, true, false, List, [], ◌∷◌, some, Error, Result, ok, err, panic,
  ◌≢◌, ◌≡◌, refl, ◌∙◌, arith, length, if◌then◌else◌,
}
use micromdm.Mdm.{DepDevice}
use micromdm.Services.Sql.{Row, Value, text, time, bool, same, assign, member}
use micromdm.Services.Backend.{Backend, tables, insert, first, put, consistent, refers, duplicate}
use micromdm.Services.Lawful.{World, IsPostgres, transfer}
use micromdm.Services.Sql.{Postgres}
use micromdm.Device.Model.{new_from_dep, status_value}
use micromdm.Device.Datastore.{new, pg_store}
use micromdm.Device.Refinement.{pg_store-IsDatastore}
use micromdm.Main.Rows.{
  replaced, update_first-replaced, first-replaced, length-replaced, first-meets,
}

-- The columns of the INSERT on "fetch" that a conflict writes.
abbrev written : List String
written =
    "model" ∷ "description" ∷ "color" ∷ "asset_tag" ∷ "dep_profile_status" ∷ "dep_profile_uuid"
    ∷ "dep_profile_assign_time" ∷ "dep_profile_push_time" ∷ "dep_profile_assigned_date"
    ∷ "dep_profile_assigned_by" ∷ "dep_device" ∷ "last_checkin" ∷ []

-- A row with what DEP says of a device, the zero time as its last check-in, and from `row` every
-- column that the INSERT does not write. The three times of the profile are left open: their columns
-- are of type `date`, which keeps no time of day.
abbrev pub Assigned : DepDevice → Row → Row → Type 0
Assigned dd row row' =
    (row' "model" ≡ text dd.model)
    × (row' "description" ≡ text dd.description)
    × (row' "color" ≡ text dd.color)
    × (row' "asset_tag" ≡ text dd.asset_tag)
    × (row' "dep_profile_status" ≡ status_value dd.profile_status)
    × (row' "dep_profile_uuid" ≡ text dd.profile_uuid)
    × (row' "dep_profile_assigned_by" ≡ text dd.device_assigned_by)
    × (row' "dep_device" ≡ bool true)
    × (row' "last_checkin" ≡ time 0)
    × ((c : String) → member c written ≡ false → row' c ≡ row c)

abbrev arguments : DepDevice → List Value
arguments dd =
    text dd.serial_number
    ∷ text dd.model
    ∷ text dd.description
    ∷ text dd.color
    ∷ text dd.asset_tag
    ∷ status_value dd.profile_status
    ∷ text dd.profile_uuid
    ∷ time dd.profile_assign_time
    ∷ time dd.profile_push_time
    ∷ time dd.device_assigned_date
    ∷ text dd.device_assigned_by
    ∷ bool true
    ∷ time 0
    ∷ []

abbrev sets : List (String × ℕ)
sets =
    ("model", 2)
    ∷ ("description", 3)
    ∷ ("color", 4)
    ∷ ("asset_tag", 5)
    ∷ ("dep_profile_status", 6)
    ∷ ("dep_profile_uuid", 7)
    ∷ ("dep_profile_assign_time", 8)
    ∷ ("dep_profile_push_time", 9)
    ∷ ("dep_profile_assigned_date", 10)
    ∷ ("dep_profile_assigned_by", 11)
    ∷ ("dep_device", 12)
    ∷ ("last_checkin", 13)
    ∷ []

assign_other :
    (dd : DepDevice) (row : Row) (c : String)
    → member c written ≡ false
    → assign sets (arguments dd) row c ≡ row c
assign_other dd row c h = ground arith

assign-Assigned : (dd : DepDevice) (row : Row) → Assigned dd row (assign sets (arguments dd) row)
unfolding string_dec
assign-Assigned dd row = (refl, refl, refl, refl, refl, refl, refl, refl, refl, assign_other dd row)

abbrev pub serial_is : DepDevice → Row → Bool
serial_is dd s = same (s "serial_number") (text dd.serial_number)

module _ (dd : DepDevice) (row : Row) (b : Backend) where
  abbrev merged : List Row
  merged = replaced (serial_is dd) (assign sets (arguments dd)) (b.rows "devices")

  fetch_known :
      (id : String)
      → first (serial_is dd) (b.rows "devices") ≡ some row
      → row "device_uuid" ≡ text id
      → new tables "fetch" (new_from_dep dd) b ≡ (
        if consistent "devices" merged then ok id else err duplicate,
        record b {
          issued = b.issued + 1;
          rows = if consistent "devices" merged then put "devices" merged b.rows else b.rows;
        },
      )
  unfolding new new_from_dep insert refers string_dec
  fetch_known id found named_id = ground (
    arith,
    update_first-replaced (serial_is dd) (assign sets (arguments dd)) row (b.rows "devices") found,
  )

-- What is left of a device's row `row` by the record of DEP: on success the row has that record and
-- its identifier is returned; on an error the tables are as before; there are as many devices as
-- before.
abbrev pub IsFetched : DepDevice → String → Row → Backend → Result String → Backend → Type 0
IsFetched dd id row b r c =
    (r ≢ panic)
    × ((x : String)
        → r ≡ ok x
        → (x ≡ id)
          × ((row' : Row) × (first (serial_is dd) (c.rows "devices") ≡ some row')
              × Assigned dd row row'))
    × ((e : Error) → r ≡ err e → c.rows ≡ b.rows)
    × (length (c.rows "devices") ≡ length (b.rows "devices"))

fetch_ends :
    (dd : DepDevice) (id : String) (row : Row) (b : Backend) (rs : List Row) (sound : Bool)
    → first (serial_is dd) rs ≡ some (assign sets (arguments dd) row)
    → length rs ≡ length (b.rows "devices")
    → IsFetched dd id row b (if sound then ok id else err duplicate) (record b {
      issued = b.issued + 1;
      rows = if sound then put "devices" rs b.rows else b.rows;
    })
unfolding string_dec
fetch_ends dd id row b rs true found size = (
  λ h. cc,
  λ x h. (cc, (assign sets (arguments dd) row, found, assign-Assigned dd row)),
  λ e h. cc,
  size,
)
fetch_ends dd id row b rs false found size = (λ h. cc, λ x h. cc, λ e h. refl, refl)

same_serial :
    (dd : DepDevice) (row : Row) → serial_is dd (assign sets (arguments dd) row) ≡ serial_is dd row
unfolding string_dec
same_serial dd row = refl

fetch_model :
    (dd : DepDevice) (id : String) (row : Row) (b : Backend)
    → first (serial_is dd) (b.rows "devices") ≡ some row
    → row "device_uuid" ≡ text id
    → let (r, c) = new tables "fetch" (new_from_dep dd) b in IsFetched dd id row b r c
fetch_model dd id row b found named_id =
    let f = assign sets (arguments dd) in
    let meets_it = same_serial dd row ∙ first-meets (serial_is dd) f row (b.rows "devices") found in
    subst (λ z. IsFetched dd id row b z.0 z.1) (sym (fetch_known dd row b id found named_id))
      (fetch_ends dd id row b (merged dd row b) (consistent "devices" (merged dd row b))
        (first-replaced (serial_is dd) f row (b.rows "devices") found meets_it)
        (length-replaced (serial_is dd) f row (b.rows "devices")))

-- `New` on "fetch" for a device of DEP whose serial number is in the table: it does not panic;
-- where it succeeds, it returns the identifier of the row of that serial number, which has the
-- record of DEP, the zero time as its last check-in, and the columns that the INSERT does not
-- write as before; where it returns an error, the tables are as before; and there are as many
-- devices as before. Of the three times of the profile, whose columns are of type `date`, nothing
-- is said. The world's PostgreSQL behaves like the reference model and answers, and the row has an
-- identifier.
pub fetch-IsFetched :
    {W : Type 0} (o : World W) (store : Postgres W)
    → IsPostgres o store
    → (dd : DepDevice) (id : String) (row : Row) (w : W) → o.up w ≡ true
    → first (serial_is dd) ((o.view w).rows "devices") ≡ some row
    → row "device_uuid" ≡ text id
    → let (r, w') = (pg_store store).new "fetch" (new_from_dep dd) w in
      IsFetched dd id row (o.view w) r (o.view w')
fetch-IsFetched o store lawful dd id row w up found named_id =
    transfer (IsFetched dd id row (o.view w))
      ((pg_store-IsDatastore lawful).new "fetch" (new_from_dep dd)) w up
      (fetch_model dd id row (o.view w) found named_id)
