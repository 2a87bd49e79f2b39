-- ===== src/Tests/Enrollment.antt =====
-- Check-ins of the device of the fixture.
use micromdm.Base.{String, string_dec, [], ◌∷◌, ◌≡◌, ◌≢◌, refl, arith}
use package.text.Mathlib.TextEquality.{eq_iff}
use micromdm.Services.Sql.{text}
use micromdm.Services.Backend.{consistent}
use micromdm.Device.Model.{zero_device}
use micromdm.Device.Laws.{column}
use micromdm.Main.Server.{checkin_svc, device_db}
use micromdm.Main.Enrollment.{TokensStored, token_update_pushes}
use micromdm.Main.Authentication.{IsMerged, authenticate-IsMerged}
use micromdm.Main.Checkout.{IsCheckedOut, checkout-IsCheckedOut}
use micromdm.Main.Columns.{token_update_keeps, checkout_keeps, save_keeps}
use micromdm.Tests.Data.{
  world, library, build, environment, model-IsEnvironment, server, checkin, device_row,
}

token_update_pushes_example :
    let (r, w) = (checkin_svc library environment).token_update (checkin "TokenUpdate") server in
    TokensStored library (checkin "TokenUpdate") "id-1" device_row server r w
unfolding string_dec consistent
token_update_pushes_example =
    token_update_pushes world environment library build [] model-IsEnvironment
      (checkin "TokenUpdate") "id-1" device_row server refl refl refl refl refl

token_update_keeps_example :
    let (r, w) = (checkin_svc library environment).token_update (checkin "TokenUpdate") server in
    column "apple_mdm_topic" (w.rows "devices") ≡ text "topic" ∷ []
unfolding string_dec
token_update_keeps_example =
    token_update_keeps world environment library build [] model-IsEnvironment server refl
      "apple_mdm_topic" "devices" (checkin "TokenUpdate") refl

not_enrolled : ◌≢◌ {A = String} "awaiting_configuration" "mdm_enrolled"
not_enrolled = ground (arith, eq_iff "awaiting_configuration" "mdm_enrolled")

checkout_keeps_example :
    let (r, w) = (checkin_svc library environment).checkout (checkin "CheckOut") server in
    column "awaiting_configuration" (w.rows "devices")
    ≡ column "awaiting_configuration" (server.rows "devices")
unfolding string_dec
checkout_keeps_example =
    checkout_keeps world environment library build [] model-IsEnvironment server refl
      "awaiting_configuration" "devices" (checkin "CheckOut") not_enrolled

save_keeps_example :
    let (r, w) =
      (device_db library environment).save "queryResponses"
        (record zero_device { uuid = "id-1" })
        server in
    column "udid" (w.rows "devices") ≡ text "udid-1" ∷ []
unfolding string_dec
save_keeps_example =
    save_keeps world environment library build [] model-IsEnvironment server refl "udid" "devices"
      "queryResponses" (record zero_device { uuid = "id-1" }) refl

authenticate-IsMerged_example :
    let (r, w) = (checkin_svc library environment).authenticate (checkin "Authenticate") server in
    IsMerged (checkin "Authenticate") device_row server r w
unfolding string_dec
authenticate-IsMerged_example =
    authenticate-IsMerged world environment library build [] model-IsEnvironment
      (checkin "Authenticate") device_row server "id-1" refl refl refl

checkout-IsCheckedOut_example :
    let (r, w) = (checkin_svc library environment).checkout (checkin "CheckOut") server in
    IsCheckedOut "udid-1" device_row server r w
unfolding string_dec consistent
checkout-IsCheckedOut_example =
    checkout-IsCheckedOut world environment library build [] model-IsEnvironment
      (checkin "CheckOut") "id-1" device_row server refl refl refl refl
