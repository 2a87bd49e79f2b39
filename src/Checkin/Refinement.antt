-- ===== src/Checkin/Refinement.antt =====
-- The checkin service in any world that behaves like the reference model.
use micromdm.Base.{String, ◌==◌, not, Action}
use micromdm.Base.{ℕ}
use micromdm.Mdm.{CheckinCommand}
use micromdm.Services.Backend.{Backend}
use micromdm.Services.Lawful.{
  World, Behaves, pure-Behaves, bind-Behaves, attempt-Behaves, if-Behaves,
}
use micromdm.Device.Datastore as DeviceStore
use micromdm.Device.Refinement as DeviceRefinement
use micromdm.Command.Service as Command
use micromdm.Command.Refinement as CommandRefinement
use micromdm.Checkin.Service.{authenticate, token_update, checkout}

module _ {W : Type 0} {o : World W} {devices : DeviceStore.Datastore W}
    {devices' : DeviceStore.Datastore Backend} {push : String → Action W String}
    {push' : String → Action Backend String} {commands : Command.Service W}
    {commands' : Command.Service Backend} (profile : String) {now : Action W ℕ}
    {now' : Action Backend ℕ} (ds : DeviceRefinement.IsDatastore o devices devices')
    (pushed : (u : String) → Behaves o (push u) (push' u))
    (cs : CommandRefinement.IsService o commands commands') (clock : Behaves o now now') where
  pub authenticate-Behaves :
      (cmd : CheckinCommand)
      → Behaves o
          (authenticate devices push commands profile now cmd)
          (authenticate devices' push' commands' profile now' cmd)
  unfolding authenticate
  authenticate-Behaves cmd =
      bind-Behaves clock (λ t. bind-Behaves (ds.new "authenticate" _) (λ _. pure-Behaves tt))

  pub token_update-Behaves :
      (cmd : CheckinCommand)
      → Behaves o
          (token_update devices push commands profile now cmd)
          (token_update devices' push' commands' profile now' cmd)
  unfolding token_update
  token_update-Behaves cmd = if-Behaves (not (cmd.user_id == "")) (pure-Behaves tt) (
      bind-Behaves (ds.get_device_by_udid cmd.udid _) (λ d. bind-Behaves clock (λ t.
        bind-Behaves (ds.save "tokenUpdate" _)
          (λ _. bind-Behaves (attempt-Behaves (pushed cmd.udid)) (λ _. pure-Behaves tt)))))

  pub checkout-Behaves :
      (cmd : CheckinCommand)
      → Behaves o
          (checkout devices push commands profile now cmd)
          (checkout devices' push' commands' profile now' cmd)
  unfolding checkout
  checkout-Behaves cmd = bind-Behaves (ds.get_device_by_udid cmd.udid _) (λ d. ds.save "checkout" _)
