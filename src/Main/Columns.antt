-- ===== src/Main/Columns.antt =====
-- What the calls of checkin/service.go and `Save` of device/datastore.go leave alone in the tables.
use micromdm.Base.{
  String, ◌==◌, string_dec, true, false, not, List, Result, Error, raise, ok, ◌≡◌, ◌≢◌, refl, arith,
}
use package.text.Mathlib.TextEquality.{eq_iff}
use micromdm.Mdm.{CommandRequest, Payload, DepDevice, CheckinCommand}
use micromdm.Services.Sql.{Update, member}
use micromdm.Services.Lawful.{World, transfer}
use micromdm.Device.Model.{Device}
use micromdm.Device.Datastore.{save_statement}
use micromdm.Device.Laws.{column, saved, saved_columns}
use micromdm.Device.Refinement.{pg_store-IsDatastore}
use micromdm.Device.Keeps.{
  Keeps, same_rows, pure-Keeps, bind-Keeps, attempt-Keeps, wrapping-Keeps, if-Keeps,
  get_device_by_udid-Keeps, save-Keeps,
}
use micromdm.Management.Service.{push}
use micromdm.Checkin.Service.{token_update, checkout}
use micromdm.Main.Server.{Library, Environment, model, device_db, checkin_svc, mgmt_svc}
use micromdm.Main.Refinement.{IsEnvironment, token_update_refines, checkout_refines}
use micromdm.Main.Enrollment.{token_columns}

token_statement :
    (c : String) (q : Update)
    → save_statement "tokenUpdate" ≡ ok q
    → member c token_columns ≡ false
    → member c q.columns ≡ false
unfolding save_statement string_dec
token_statement c q e h = ground arith

checkout_statement :
    (c : String) (q : Update)
    → save_statement "checkout" ≡ ok q
    → c ≢ "mdm_enrolled"
    → member c q.columns ≡ false
unfolding save_statement
checkout_statement c q e h = ground (
  arith,
  eq_iff "checkout" "assignWorkflow",
  eq_iff "checkout" "tokenUpdate",
  eq_iff "checkout" "queryResponses",
)

module _ (l : Library) (build : String → CommandRequest → Result Payload) (fetched : List DepDevice)
    (c : String) where
  push-Keeps : (u : String) → Keeps c ((mgmt_svc l (model build fetched)).push u)
  unfolding push
  push-Keeps u = bind-Keeps c (wrapping-Keeps c _ (get_device_by_udid-Keeps c u _)) (λ d.
      if-Keeps c (l.is_device_token_valid d.token)
        (same_rows c ((model build fetched).apple.send d.token d.push_magic) (λ b. refl))
        (same_rows c (raise (Error.new "invalid push token")) (λ b. refl)))

  token_update-Keeps :
      (cmd : CheckinCommand)
      → member c token_columns ≡ false
      → Keeps c ((checkin_svc l (model build fetched)).token_update cmd)
  unfolding token_update
  token_update-Keeps cmd h = if-Keeps c (not (cmd.user_id == "")) (pure-Keeps c tt) (
      bind-Keeps c (get_device_by_udid-Keeps c cmd.udid _) (λ d.
        bind-Keeps c (same_rows c (model build fetched).now (λ b. refl)) (λ t.
          bind-Keeps c (save-Keeps c "tokenUpdate" _ (λ q e. token_statement c q e h))
            (λ _. bind-Keeps c (attempt-Keeps c (push-Keeps cmd.udid)) (λ _. pure-Keeps c tt)))))

  checkout-Keeps :
      (cmd : CheckinCommand)
      → c ≢ "mdm_enrolled"
      → Keeps c ((checkin_svc l (model build fetched)).checkout cmd)
  unfolding checkout
  checkout-Keeps cmd h =
      bind-Keeps c (get_device_by_udid-Keeps c cmd.udid _)
        (λ d. save-Keeps c "checkout" _ (λ q e. checkout_statement c q e h))

module _ {W : Type 0} (o : World W) (e : Environment W) (l : Library)
    (build : String → CommandRequest → Result Payload) (fetched : List DepDevice)
    (lawful : IsEnvironment o e (model build fetched)) (w : W) (up : o.up w ≡ true)
    (c t : String) where
  -- Whatever the message and the result, `TokenUpdate` keeps the values of a column, in every row
  -- of every table, that is not one of the six columns of its UPDATE. The world behaves like the
  -- reference model and its services answer.
  pub token_update_keeps :
      (cmd : CheckinCommand)
      → member c token_columns ≡ false
      → let (r, w') = (checkin_svc l e).token_update cmd w in
        column c ((o.view w').rows t) ≡ column c ((o.view w).rows t)
  token_update_keeps cmd h =
      transfer (λ r b. column c (b.rows t) ≡ column c ((o.view w).rows t))
        (token_update_refines build fetched lawful l cmd) w up
        ((token_update-Keeps l build fetched c cmd h).kept (o.view w) t)

  -- Whatever the message and the result, `Checkout` keeps the values of every column but
  -- `mdm_enrolled`, in every row of every table. The world behaves like the reference model and
  -- its services answer.
  pub checkout_keeps :
      (cmd : CheckinCommand)
      → c ≢ "mdm_enrolled"
      → let (r, w') = (checkin_svc l e).checkout cmd w in
        column c ((o.view w').rows t) ≡ column c ((o.view w).rows t)
  checkout_keeps cmd h =
      transfer (λ r b. column c (b.rows t) ≡ column c ((o.view w).rows t))
        (checkout_refines build fetched lawful l cmd) w up
        ((checkout-Keeps l build fetched c cmd h).kept (o.view w) t)

  -- Whatever the message, the device and the result, `Save` keeps the values of a column, in every
  -- row of every table, that is not one of the sixteen columns which some message writes. The
  -- world behaves like the reference model and its services answer.
  pub save_keeps :
      (msg : String) (d : Device)
      → member c saved_columns ≡ false
      → let (r, w') = (device_db l e).save msg d w in
        column c ((o.view w').rows t) ≡ column c ((o.view w).rows t)
  save_keeps msg d h =
      transfer (λ r b. column c (b.rows t) ≡ column c ((o.view w).rows t))
        ((pg_store-IsDatastore lawful.postgres).save msg d) w up
        ((save-Keeps c msg d (λ q s. saved msg c s h)).kept (o.view w) t)
