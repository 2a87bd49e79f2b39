-- ===== src/Checkin/Replies.antt =====
-- What a device gets for a DEP enrollment, a POST to /mdm/checkin: checkin/transport.go,
-- checkin/endpoint.go and checkin/service.go together.
use text.Mathlib.TextLemmas.{native_laws}
use mathlib.Core.Path.{subst}
use micromdm.Base.{
  ℕ, String, none, List, Error, Result, ok, err, panic, Action, ◌≡◌, ◌≢◌, refl, sym, ap,
}
use micromdm.Http.Reply.{Json, Call, IsStatus, Sends}
use micromdm.Http.Server.{Request, Kit, IsKit}
use micromdm.Device.Datastore as DeviceStore
use micromdm.Command.Service as Command
use micromdm.Checkin.Service.{Service, new_service, initial_setup, enroll_dep}
use micromdm.Checkin.Endpoint.{DepEnrollmentRequest, DepEnrollmentResponse, dep_enrollment_endpoint}
use micromdm.Checkin.Transport.{
  Decoders, decode_mdm_enrollment_request, encode_error, encode_dep_enrollment_response,
  dep_enrollment_handler,
}

module _ {W : Type 0} (kit : Kit W) (lawful : IsKit kit) (plist : Json) (message : Error → String)
    (status : List Call → ℕ) (http : IsStatus status) (decoders : Decoders)
    (devices : DeviceStore.Datastore W) (push : String → Action W String)
    (commands : Command.Service W) (profile : String) (now : Action W ℕ) where
  abbrev svc : Service W
  svc = new_service devices push commands profile now

  enrolled :
      (udid serial : String) (x : Result (Unit {0})) (w w' : W)
      → initial_setup devices push commands profile now udid serial w ≡ (x, w')
      → x ≢ panic
      → enroll_dep devices push commands profile now udid serial w ≡ (ok profile, w')
  unfolding enroll_dep
  enrolled udid serial (ok _) w w' run total = rw run
  enrolled udid serial (err e) w w' run total = rw run
  enrolled udid serial panic w w' run total = elim (total refl) [ ]

  answered :
      (req : DepEnrollmentRequest) (w w' : W)
      → enroll_dep devices push commands profile now req.udid req.serial w ≡ (ok profile, w')
      → dep_enrollment_endpoint svc req w ≡ (ok (record { profile = profile; error = none }), w')
  unfolding dep_enrollment_endpoint
  answered req w w' run = rw run

  -- A POST to /mdm/checkin whose body decodes: the client gets status 200 and the profile on disk
  -- as the whole body, and the world is as the initial setup of the device leaves it, whether that
  -- succeeds or returns an error; where it does not panic. go-kit's server and the status of a
  -- reply are as documented.
  pub enrollment_replies :
      (r : Request) (req : DepEnrollmentRequest) (x : Result (Unit {0})) (w w' : W)
      → decode_mdm_enrollment_request decoders r ≡ ok req
      → initial_setup devices push commands profile now req.udid req.serial w ≡ (x, w')
      → x ≢ panic
      → let (y, z) = dep_enrollment_handler plist message kit svc decoders r w in
        (z ≡ w') × Sends status 200 profile y
  enrollment_replies r req x w w' decoded run total =
      let eq =
        lawful.answered DepEnrollmentRequest DepEnrollmentResponse (dep_enrollment_endpoint svc)
          (decode_mdm_enrollment_request decoders) (encode_dep_enrollment_response plist message)
          (encode_error plist message) r w w' req (record { profile = profile; error = none })
          decoded (answered req w w' (enrolled req.udid req.serial x w w' run total)) refl in
      (
        ap (λ y. y.1) eq,
        subst (Sends status 200 profile) (sym (ap (λ y. y.0) eq))
            (http.implicit _ _, native_laws.append-nil profile),
      )
