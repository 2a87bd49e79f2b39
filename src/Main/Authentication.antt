-- ===== src/Main/Authentication.antt =====
-- `Authenticate` of checkin/service.go with `New` of device/datastore.go: a device whose serial
-- number is known, from DEP or from an earlier enrollment, keeps its row.
use micromdm.Base.{
  ℕ, ◌+◌, String, string_dec, ==_refl, Bool, true, false, List, [], ◌∷◌, some, Error, Result, ok,
  err, ◌≡◌, refl, arith, length, if◌then◌else◌,
}
use mathlib.Core.Path.{subst, sym}
use micromdm.Mdm.{CommandRequest, Payload, DepDevice, CheckinCommand}
use micromdm.Services.Sql.{Row, Value, text, time, same, assign, member}
use micromdm.Services.Backend.{Backend, insert, first, put, consistent, refers, duplicate}
use micromdm.Services.Lawful.{World, transfer}
use micromdm.Device.Datastore.{new}
use micromdm.Checkin.Service.{authenticate}
use micromdm.Main.Server.{Library, Environment, model, checkin_svc}
use micromdm.Main.Rows.{replaced, update_first-replaced, first-replaced, length-replaced}
use micromdm.Main.Refinement.{IsEnvironment, authenticate_refines}

-- The columns of the INSERT on "authenticate".
abbrev written : List String
written =
    "udid" ∷ "apple_mdm_topic" ∷ "os_version" ∷ "build_version" ∷ "product_name" ∷ "serial_number"
    ∷ "imei" ∷ "meid" ∷ "model" ∷ "last_checkin" ∷ []

-- A row with what a device says of itself, and everything else from `row`.
abbrev pub Described : CheckinCommand → ℕ → Row → Row → Type 0
Described cmd now row row' =
    (row' "udid" ≡ text cmd.udid)
    × (row' "apple_mdm_topic" ≡ text cmd.topic)
    × (row' "os_version" ≡ text cmd.os_version)
    × (row' "build_version" ≡ text cmd.build_version)
    × (row' "product_name" ≡ text cmd.product_name)
    × (row' "serial_number" ≡ text cmd.serial_number)
    × (row' "imei" ≡ text cmd.imei)
    × (row' "meid" ≡ text cmd.meid)
    × (row' "model" ≡ text cmd.model)
    × (row' "last_checkin" ≡ time now)
    × ((c : String) → member c written ≡ false → row' c ≡ row c)

abbrev arguments : CheckinCommand → ℕ → List Value
arguments cmd now =
    text cmd.udid
    ∷ text cmd.topic
    ∷ text cmd.os_version
    ∷ text cmd.build_version
    ∷ text cmd.product_name
    ∷ text cmd.serial_number
    ∷ text cmd.imei
    ∷ text cmd.meid
    ∷ text cmd.model
    ∷ time now
    ∷ []

abbrev sets : List (String × ℕ)
sets =
    ("udid", 1)
    ∷ ("apple_mdm_topic", 2)
    ∷ ("os_version", 3)
    ∷ ("build_version", 4)
    ∷ ("product_name", 5)
    ∷ ("serial_number", 6)
    ∷ ("imei", 7)
    ∷ ("meid", 8)
    ∷ ("model", 9)
    ∷ ("last_checkin", 10)
    ∷ []

assign_other :
    (cmd : CheckinCommand) (now : ℕ) (row : Row) (c : String)
    → member c written ≡ false
    → assign sets (arguments cmd now) row c ≡ row c
assign_other cmd now row c h = ground arith

assign-Described :
    (cmd : CheckinCommand) (now : ℕ) (row : Row)
    → Described cmd now row (assign sets (arguments cmd now) row)
unfolding string_dec
assign-Described cmd now row =
    (refl, refl, refl, refl, refl, refl, refl, refl, refl, refl, assign_other cmd now row)

module _ (l : Library) (build : String → CommandRequest → Result Payload) (fetched : List DepDevice)
    (cmd : CheckinCommand) (row : Row) (b : Backend) where
  abbrev merged : List Row
  merged =
      replaced (λ s. same (s "serial_number") (text cmd.serial_number))
        (assign sets (arguments cmd b.now)) (b.rows "devices")

  authenticate_known :
      (id : String)
      → first (λ s. same (s "serial_number") (text cmd.serial_number)) (b.rows "devices") ≡ some row
      → row "device_uuid" ≡ text id
      → (checkin_svc l (model build fetched)).authenticate cmd b ≡ (
        if consistent "devices" merged then ok tt else err duplicate,
        record b {
          issued = b.issued + 1;
          rows = if consistent "devices" merged then put "devices" merged b.rows else b.rows;
        },
      )
  unfolding authenticate new insert refers string_dec
  authenticate_known id found named_id = ground (
    arith,
    update_first-replaced (λ s. same (s "serial_number") (text cmd.serial_number))
        (assign sets (arguments cmd b.now)) row (b.rows "devices") found,
  )

same_serial :
    (cmd : CheckinCommand) (now : ℕ) (row : Row)
    → same (assign sets (arguments cmd now) row "serial_number") (text cmd.serial_number) ≡ true
unfolding string_dec
same_serial cmd now row = ==_refl cmd.serial_number

-- What is left of a device's row `row` by `Authenticate`: on success the row is the device's, as it
-- describes itself; on an error the tables are as before; there are as many devices as before.
abbrev pub IsMerged : CheckinCommand → Row → Backend → Result (Unit {0}) → Backend → Type 0
IsMerged cmd row b r c =
    (r ≡ ok tt
      → (row' : Row) × (first (λ s. same (s "serial_number") (text cmd.serial_number))
            (c.rows "devices")
          ≡ some row')
        × Described cmd b.now row row')
    × ((e : Error) → r ≡ err e → c.rows ≡ b.rows)
    × (length (c.rows "devices") ≡ length (b.rows "devices"))

-- The same of a list of devices that replaces the table where `sound`.
merge_ends :
    (cmd : CheckinCommand) (row : Row) (b : Backend) (rs : List Row) (sound : Bool)
    → first (λ s. same (s "serial_number") (text cmd.serial_number)) rs
      ≡ some (assign sets (arguments cmd b.now) row)
    → length rs ≡ length (b.rows "devices")
    → IsMerged cmd row b (if sound then ok tt else err duplicate) (record b {
      issued = b.issued + 1;
      rows = if sound then put "devices" rs b.rows else b.rows;
    })
unfolding string_dec
merge_ends cmd row b rs true found size = (
  λ _. (assign sets (arguments cmd b.now) row, found, assign-Described cmd b.now row),
  λ e h. cc,
  size,
)
merge_ends cmd row b rs false found size = (λ h. cc, λ e h. refl, refl)

authenticate_model :
    (l : Library) (build : String → CommandRequest → Result Payload) (fetched : List DepDevice)
    (cmd : CheckinCommand) (row : Row) (b : Backend) (id : String)
    → first (λ s. same (s "serial_number") (text cmd.serial_number)) (b.rows "devices") ≡ some row
    → row "device_uuid" ≡ text id
    → let (r, c) = (checkin_svc l (model build fetched)).authenticate cmd b in
      IsMerged cmd row b r c
authenticate_model l build fetched cmd row b id found named_id =
    let p : Row → Bool = λ s. same (s "serial_number") (text cmd.serial_number) in
    let f = assign sets (arguments cmd b.now) in
    subst (λ z. IsMerged cmd row b z.0 z.1)
      (sym (authenticate_known l build fetched cmd row b id found named_id))
      (merge_ends cmd row b (replaced p f (b.rows "devices"))
        (consistent "devices" (replaced p f (b.rows "devices")))
        (first-replaced p f row (b.rows "devices") found (same_serial cmd b.now row))
        (length-replaced p f row (b.rows "devices")))

-- `Authenticate` of a device whose serial number is in the table: where it succeeds, the row of
-- that serial number has the ten columns of the INSERT from the message and the clock, and the
-- others as before; where it returns an error, the tables are as before; and there are as many
-- devices as before. The world behaves like the reference model and its services answer, and the
-- row has an identifier.
pub authenticate-IsMerged :
    {W : Type 0} (o : World W) (e : Environment W) (l : Library)
    (build : String → CommandRequest → Result Payload) (fetched : List DepDevice)
    → IsEnvironment o e (model build fetched)
    → (cmd : CheckinCommand) (row : Row) (w : W) (id : String) → o.up w ≡ true
    → first (λ s. same (s "serial_number") (text cmd.serial_number)) ((o.view w).rows "devices")
      ≡ some row
    → row "device_uuid" ≡ text id
    → let (r, w') = (checkin_svc l e).authenticate cmd w in
      IsMerged cmd row (o.view w) r (o.view w')
authenticate-IsMerged o e l build fetched lawful cmd row w id up found named_id =
    transfer (IsMerged cmd row (o.view w)) (authenticate_refines build fetched lawful l cmd) w up
      (authenticate_model l build fetched cmd row (o.view w) id found named_id)
