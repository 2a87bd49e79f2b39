-- ===== src/Main/Enrollment.antt =====
-- `TokenUpdate` of checkin/service.go with `Push` of management/service.go: the tokens of a device
-- and the notification that follows.
use micromdm.Base.{
  String, string_dec, ==_refl, true, List, [], ◌∷◌, some, Error, Result, ok, err, ◌≡◌, refl, ap,
  ◌∙◌, arith, if◌then◌else◌,
}
use micromdm.Mdm.{CommandRequest, Payload, DepDevice, CheckinCommand}
use micromdm.Services.Sql.{Row, text, same, overwrite}
use micromdm.Services.Backend.{Backend, tables, update_all, put, consistent, first}
use micromdm.Services.Lawful.{World, transfer}
use micromdm.Device.Model.{zero_device}
use micromdm.Device.Columns.{named, scan_device}
use micromdm.Device.Datastore.{get_device_by_udid, save, save_statement}
use micromdm.Device.Laws.{named_exec-devices, first-update_all}
use micromdm.Management.Service.{push}
use micromdm.Checkin.Service.{token_update, with_tokens}
use micromdm.Main.Refinement.{IsEnvironment, token_update_refines}
use micromdm.Main.Server.{Library, Environment, model, checkin_svc, mgmt_svc}

-- The columns of the UPDATE on "tokenUpdate".
abbrev pub token_columns : List String
token_columns =
    "awaiting_configuration" ∷ "apple_push_magic" ∷ "apple_mdm_token" ∷ "mdm_enrolled"
    ∷ "unlock_token" ∷ "last_checkin" ∷ []

module _ (l : Library) (build : String → CommandRequest → Result Payload)
    (fetched : List DepDevice) where
  abbrev e : Environment Backend
  e = model build fetched

  pub known :
      (u id : String) (row : Row) (b : Backend)
      → first (λ r. same (r "udid") (text u)) (b.rows "devices") ≡ some row
      → row "device_uuid" ≡ text id
      → get_device_by_udid tables u ("device_uuid" ∷ []) b
        ≡ (ok (record zero_device { uuid = id }), b)
  unfolding get_device_by_udid scan_device string_dec
  known u id row b found named_id = ground arith

  push_known :
      (u token magic id : String) (row : Row) (b : Backend)
      → first (λ r. same (r "udid") (text u)) (b.rows "devices") ≡ some row
      → row "device_uuid" ≡ text id
      → row "apple_mdm_token" ≡ text token
      → row "apple_push_magic" ≡ text magic
      → (mgmt_svc l e).push u b ≡ (
        if l.is_device_token_valid token then ok token else err (Error.new "invalid push token"),
        record b {
          pushed = if l.is_device_token_valid token then (token, magic) ∷ b.pushed else b.pushed;
        },
      )
  unfolding push get_device_by_udid scan_device string_dec
  push_known u token magic id row b found a c d = ground arith

  -- The tables after the update of a device's tokens.
  abbrev updated : CheckinCommand → String → Backend → Backend
  updated cmd id b =
      let d = named (with_tokens cmd b.now (record zero_device { uuid = id })) in
      record b {
        rows =
            put "devices"
              (update_all (λ r. same (r "device_uuid") (d "device_uuid"))
                (overwrite token_columns d) (b.rows "devices"))
              b.rows;
      }

  save_tokens :
      (cmd : CheckinCommand) (id : String) (b : Backend)
      → consistent "devices" (b.rows "devices") ≡ true
      → save tables "tokenUpdate" (with_tokens cmd b.now (record zero_device { uuid = id })) b
        ≡ (ok tt, updated cmd id b)
  unfolding save save_statement string_dec
  save_tokens cmd id b sound =
      named_exec-devices token_columns
        (named (with_tokens cmd b.now (record zero_device { uuid = id }))) b refl refl sound

  after_update :
      (cmd : CheckinCommand) (id : String) (row : Row) (b : Backend)
      → first (λ r. same (r "udid") (text cmd.udid)) (b.rows "devices") ≡ some row
      → row "device_uuid" ≡ text id
      → first (λ r. same (r "udid") (text cmd.udid)) ((updated cmd id b).rows "devices")
        ≡ some (
            overwrite token_columns
              (named (with_tokens cmd b.now (record zero_device { uuid = id })))
              row)
  unfolding string_dec named
  after_update cmd id row b found named_id =
      let d = named (with_tokens cmd b.now (record zero_device { uuid = id })) in
      let row' = overwrite token_columns d row in
      first-update_all "udid" (text cmd.udid) token_columns
        (λ r. same (r "device_uuid") (d "device_uuid")) d row (b.rows "devices") refl found
      ∙ ap (λ v. some (if same v (text id) then row' else row)) named_id
      ∙ ap (λ t. some (if t then row' else row)) (==_refl id)

  push_after :
      (cmd : CheckinCommand) (id : String) (row : Row) (b : Backend)
      → first (λ r. same (r "udid") (text cmd.udid)) (b.rows "devices") ≡ some row
      → row "device_uuid" ≡ text id
      → (mgmt_svc l e).push cmd.udid (updated cmd id b) ≡ (
        if l.is_device_token_valid cmd.token
            then ok cmd.token
            else err (Error.new "invalid push token"),
        record (updated cmd id b) {
          pushed =
              if l.is_device_token_valid cmd.token
              then (cmd.token, cmd.push_magic) ∷ b.pushed
              else b.pushed;
        },
      )
  unfolding string_dec named
  push_after cmd id row b found named_id =
      push_known cmd.udid cmd.token cmd.push_magic id _ (updated cmd id b)
        (after_update cmd id row b found named_id) named_id refl refl

  -- What `TokenUpdate` does for a known device: the tables are updated, then a notification with
  -- the new magic goes to the new token, if that is valid.
  pub token_update_known :
      (cmd : CheckinCommand) (id : String) (row : Row) (b : Backend)
      → cmd.user_id ≡ ""
      → first (λ r. same (r "udid") (text cmd.udid)) (b.rows "devices") ≡ some row
      → row "device_uuid" ≡ text id
      → consistent "devices" (b.rows "devices") ≡ true
      → (checkin_svc l e).token_update cmd b ≡ (
        ok tt,
        record (updated cmd id b) {
          pushed =
              if l.is_device_token_valid cmd.token
              then (cmd.token, cmd.push_magic) ∷ b.pushed
              else b.pushed;
        },
      )
  unfolding token_update
  token_update_known cmd id row b user found named_id sound =
      let k = known cmd.udid id row b found named_id in
      let s = save_tokens cmd id b sound in
      let p = push_after cmd id row b found named_id in
      rw (token_update, user, ==_refl "", k, s, p) (ground arith)

-- What a check-in with new tokens leaves: the device's row, and the notifications of Apple.
abbrev pub TokensStored :
    Library → CheckinCommand → String → Row → Backend → Result (Unit {0}) → Backend → Type 0
TokensStored l cmd id row b r c =
    (r ≡ ok tt)
    × (first (λ q. same (q "udid") (text cmd.udid)) (c.rows "devices")
        ≡ some (
            overwrite token_columns
              (named (with_tokens cmd b.now (record zero_device { uuid = id }))) row))
    × (c.pushed ≡ (
        if l.is_device_token_valid cmd.token
        then (cmd.token, cmd.push_magic) ∷ b.pushed
        else b.pushed))
    × (c.entry ≡ b.entry)

-- A check-in with new tokens of a known device: it succeeds, the device's row has the columns of
-- the UPDATE from the message and the others as before, a notification with the new magic went to
-- the new token where that is valid and none where it is not, and Redis is as before. The world
-- behaves like the reference model and its services answer, the message has no user, the row has
-- an identifier, and the table satisfies its unique indexes.
pub token_update_pushes :
    {W : Type 0} (o : World W) (e : Environment W) (l : Library)
    (build : String → CommandRequest → Result Payload) (fetched : List DepDevice)
    → IsEnvironment o e (model build fetched)
    → (cmd : CheckinCommand) (id : String) (row : Row) (w : W) → o.up w ≡ true
    → cmd.user_id ≡ ""
    → first (λ r. same (r "udid") (text cmd.udid)) ((o.view w).rows "devices") ≡ some row
    → row "device_uuid" ≡ text id
    → consistent "devices" ((o.view w).rows "devices") ≡ true
    → let (r, w') = (checkin_svc l e).token_update cmd w in
      TokensStored l cmd id row (o.view w) r (o.view w')
token_update_pushes o e l build fetched lawful cmd id row w up user found named_id sound =
    let eq = token_update_known l build fetched cmd id row (o.view w) user found named_id sound in
    transfer (TokensStored l cmd id row (o.view w))
      (token_update_refines build fetched lawful l cmd) w up
      (
        ap (λ z. z.0) eq,
        ap (λ z. first (λ q. same (q "udid") (text cmd.udid)) (z.1.rows "devices")) eq
            ∙ after_update l build fetched cmd id row (o.view w) found named_id,
        ap (λ z. z.1.pushed) eq,
        ap (λ z. z.1.entry) eq,
      )
