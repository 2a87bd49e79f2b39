-- ===== src/Management/Missing.antt =====
-- Requests of the administrator's API for what is not there: management/transport.go,
-- management/endpoint_*.go and management/service.go together, over any datastores.
use micromdm.Base.{ℕ, String, none, some, List, [], ◌∷◌, Error, Result, ok, ◌≡◌, refl, arith, Bool}
use mathlib.Core.Path.{subst, sym}
use micromdm.Workflow.Datastore as WorkflowStore
use micromdm.Device.Datastore as DeviceStore
use micromdm.Application.Datastore as ApplicationStore
use micromdm.Certificate.Datastore as CertificateStore
use micromdm.Http.Reply.{Json, Call, Answers, IsStatus, unwrap}
use micromdm.Http.Server.{Request, Kit, IsKit}
use Prim.Native.String.{len}
use micromdm.Management.Service.{Service, Apple, new_service, profile, delete_profile, device}
use micromdm.Management.Endpoint.{
  show_profile_endpoint, delete_profile_endpoint, show_device_endpoint,
}
use micromdm.Management.Shape.{show_profile_shape, delete_profile_shape, show_device_shape}
use micromdm.Management.Transport.{
  Bodies, error_status, encode_error, decode_show_profile_request, decode_delete_profile_request,
  decode_show_device_request,
}
use micromdm.Management.Routes.{show_profile_handler, delete_profile_handler, show_device_handler}
use micromdm.Management.Replies.{failed}

module _ {W : Type 0} (kit : Kit W) (lawful : IsKit kit) (json : Json) (message : Error → String)
    (bodies : Bodies) (status : List Call → ℕ) (http : IsStatus status) where
  -- A reply that encodes an error.
  errs :
      (w : W) (e : Error) (m : Result (List Call) × W)
      → m ≡ (ok (encode_error json message e), w)
      → Answers status (error_status (unwrap e)) m.0 × (m.1 ≡ w)
  errs w e m h =
      subst (λ z. Answers status (error_status (unwrap e)) z.0 × (z.1 ≡ w)) (sym h)
        (http.explicit _ _, refl)

  module _ (devices_db : DeviceStore.Datastore W) (workflows_db : WorkflowStore.Datastore W)
      (is_valid : String → Bool) (apple : Apple W) (apps_db : ApplicationStore.Datastore W)
      (certs_db : CertificateStore.Datastore W) (r : Request) (u : String) (w : W) where
    abbrev svc : Service W
    svc = new_service devices_db workflows_db is_valid apple apps_db certs_db

    -- GET and DELETE of a profile, and GET of a device, where the datastores select no row for the
    -- UUID of the URL, of 36 bytes: the client gets status 404 from each of the three handlers,
    -- and the world is as the query has left it. The datastores may be any; go-kit's server and
    -- the status of a reply are as documented.
    pub missing_is_404 :
        (w' w'' : W)
        → r.vars "uuid" ≡ some u
        → len u ≡ 36
        → workflows_db.profiles (WorkflowStore.profile_uuid u ∷ []) w ≡ (ok [], w')
        → devices_db.devices (DeviceStore.uuid u ∷ []) w ≡ (ok [], w'')
        → let (shown, x) = show_profile_handler kit json message bodies svc r w in
          let (deleted, y) = delete_profile_handler kit json message bodies svc r w in
          let (seen, z) = show_device_handler kit json message bodies svc r w in
          (Answers status 404 shown × (x ≡ w'))
          × (Answers status 404 deleted × (y ≡ w'))
          × (Answers status 404 seen × (z ≡ w''))
    unfolding decode_show_profile_request decode_delete_profile_request decode_show_device_request
        show_profile_endpoint delete_profile_endpoint show_device_endpoint profile delete_profile
        device
    missing_is_404 w' w'' vars size no_profile no_device = (
      errs w' Error.not_found _ (
          failed kit lawful json message (show_profile_endpoint svc) decode_show_profile_request
            (show_profile_shape json) r w w' (record { uuid = u })
            (record { profile = none; error = some Error.not_found }) Error.not_found (ground arith)
            (ground arith) refl),
      errs w' Error.not_found _ (
          failed kit lawful json message (delete_profile_endpoint svc) decode_delete_profile_request
            (delete_profile_shape json) r w w' (record { uuid = u })
            (record { error = some Error.not_found }) Error.not_found (ground arith) (ground arith)
            refl),
      errs w'' Error.not_found _ (
          failed kit lawful json message (show_device_endpoint svc) decode_show_device_request
            (show_device_shape json) r w w'' (record { uuid = u })
            (record { device = none; error = some Error.not_found }) Error.not_found (ground arith)
            (ground arith) refl),
    )
