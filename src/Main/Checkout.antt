-- ===== src/Main/Checkout.antt =====
-- `CheckOut` of checkin/service.go: the row of a device whose profile has been removed.
use micromdm.Base.{
  String, string_dec, ==_refl, true, false, List, [], ◌∷◌, some, Result, ok, ◌≡◌, ◌≢◌, refl, ap,
  ◌∙◌, arith, if◌then◌else◌,
}
use micromdm.Mdm.{CommandRequest, Payload, DepDevice, CheckinCommand}
use micromdm.Services.Sql.{Row, text, bool, same, overwrite}
use micromdm.Services.Backend.{Backend, tables, update_all, put, consistent, first}
use micromdm.Services.Lawful.{World, transfer}
use micromdm.Device.Model.{Device, zero_device}
use micromdm.Device.Columns.{named}
use micromdm.Device.Datastore.{save, save_statement}
use micromdm.Device.Laws.{named_exec-devices, first-update_all}
use micromdm.Checkin.Service.{checkout}
use micromdm.Main.Refinement.{IsEnvironment, checkout_refines}
use micromdm.Main.Server.{Library, Environment, model, checkin_svc}
use micromdm.Main.Enrollment.{known}

abbrev enrolled_column : List String
enrolled_column = "mdm_enrolled" ∷ []

-- What `CheckOut` saves of the device `id`.
abbrev left : String → Device
left id = record zero_device { uuid = id; enrolled = false }

abbrev after : String → Backend → Backend
after id b = record b {
  rows =
      put "devices"
        (update_all (λ r. same (r "device_uuid") (named (left id) "device_uuid"))
          (overwrite enrolled_column (named (left id))) (b.rows "devices"))
        b.rows;
}

save_left :
    (id : String) (b : Backend)
    → consistent "devices" (b.rows "devices") ≡ true
    → save tables "checkout" (left id) b ≡ (ok tt, after id b)
unfolding save save_statement string_dec
save_left id b sound = named_exec-devices enrolled_column (named (left id)) b refl refl sound

checkout_known :
    (l : Library) (build : String → CommandRequest → Result Payload) (fetched : List DepDevice)
    (cmd : CheckinCommand) (id : String) (row : Row) (b : Backend)
    → first (λ r. same (r "udid") (text cmd.udid)) (b.rows "devices") ≡ some row
    → row "device_uuid" ≡ text id
    → consistent "devices" (b.rows "devices") ≡ true
    → (checkin_svc l (model build fetched)).checkout cmd b ≡ (ok tt, after id b)
unfolding checkout
checkout_known l build fetched cmd id row b found named_id sound =
    rw (known l build fetched cmd.udid id row b found named_id, save_left id b sound)

first-after :
    (u id : String) (row : Row) (b : Backend)
    → first (λ r. same (r "udid") (text u)) (b.rows "devices") ≡ some row
    → row "device_uuid" ≡ text id
    → first (λ r. same (r "udid") (text u)) ((after id b).rows "devices")
      ≡ some (overwrite enrolled_column (named (left id)) row)
unfolding string_dec named
first-after u id row b found named_id =
    let row' = overwrite enrolled_column (named (left id)) row in
    first-update_all "udid" (text u) enrolled_column
      (λ r. same (r "device_uuid") (named (left id) "device_uuid")) (named (left id)) row
      (b.rows "devices") refl found
    ∙ ap (λ v. some (if same v (text id) then row' else row)) named_id
    ∙ ap (λ t. some (if t then row' else row)) (==_refl id)

-- The row of a device that has left, from `row`.
abbrev pub HasLeft : Row → Row → Type 0
HasLeft row row' =
    (row' "mdm_enrolled" ≡ bool false) × ((c : String) → c ≢ "mdm_enrolled" → row' c ≡ row c)

abbrev pub IsCheckedOut : String → Row → Backend → Result (Unit {0}) → Backend → Type 0
IsCheckedOut u row b r c =
    (r ≡ ok tt)
    × ((row' : Row) × (first (λ q. same (q "udid") (text u)) (c.rows "devices") ≡ some row')
        × HasLeft row row')
    × (c.entry ≡ b.entry)
    × (c.pushed ≡ b.pushed)

overwrite_other :
    (source row : Row) (c : String)
    → c ≢ "mdm_enrolled"
    → overwrite enrolled_column source row c ≡ row c
overwrite_other source row c h = ground (arith, h)

overwrite-HasLeft :
    (id : String) (row : Row) → HasLeft row (overwrite enrolled_column (named (left id)) row)
unfolding string_dec named
overwrite-HasLeft id row = (refl, overwrite_other (named (left id)) row)

-- A check-out of a known device: it succeeds, the device's row has `false` in `mdm_enrolled` and
-- its other columns as before, and Redis and the notifications are as before. The world behaves
-- like the reference model and its services answer, the row has an identifier, and the table
-- satisfies its unique indexes.
pub checkout-IsCheckedOut :
    {W : Type 0} (o : World W) (e : Environment W) (l : Library)
    (build : String → CommandRequest → Result Payload) (fetched : List DepDevice)
    → IsEnvironment o e (model build fetched)
    → (cmd : CheckinCommand) (id : String) (row : Row) (w : W) → o.up w ≡ true
    → first (λ r. same (r "udid") (text cmd.udid)) ((o.view w).rows "devices") ≡ some row
    → row "device_uuid" ≡ text id
    → consistent "devices" ((o.view w).rows "devices") ≡ true
    → let (r, w') = (checkin_svc l e).checkout cmd w in
      IsCheckedOut cmd.udid row (o.view w) r (o.view w')
checkout-IsCheckedOut o e l build fetched lawful cmd id row w up found named_id sound =
    let eq = checkout_known l build fetched cmd id row (o.view w) found named_id sound in
    transfer (IsCheckedOut cmd.udid row (o.view w)) (checkout_refines build fetched lawful l cmd) w
      up
      (
        ap (λ z. z.0) eq,
        (
          overwrite enrolled_column (named (left id)) row,
          ap (λ z. first (λ q. same (q "udid") (text cmd.udid)) (z.1.rows "devices")) eq
              ∙ first-after cmd.udid id row (o.view w) found named_id,
          overwrite-HasLeft id row,
        ),
        ap (λ z. z.1.entry) eq,
        ap (λ z. z.1.pushed) eq,
      )
