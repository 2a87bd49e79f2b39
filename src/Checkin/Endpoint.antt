-- ===== src/Checkin/Endpoint.antt =====
-- checkin/endpoint.go
use micromdm.Base.{String, ◌==◌, Option, none, some, Error, Action, pure, respond, if◌then◌else◌}
use micromdm.Mdm.{CheckinCommand}
use micromdm.Checkin.Service.{Service}

pub record CheckinResponse : Type 0 where
  pub error : Option Error

pub record DepEnrollmentRequest : Type 0 where
  pub udid : String
  pub serial : String

pub record DepEnrollmentResponse : Type 0 where
  pub profile : String
  pub error : Option Error

abbrev pub done : Unit {0} → CheckinResponse
done _ = record { error = none }

abbrev pub failed : Error → CheckinResponse
failed e = record { error = some e }

module _ {W : Type 0} (svc : Service W) where
  unfoldable pub checkin_endpoint : CheckinCommand → Action W CheckinResponse
  checkin_endpoint req =
      if req.message_type == "Authenticate"
      then respond done failed (svc.authenticate req)
      else if req.message_type == "TokenUpdate"
      then respond done failed (svc.token_update req)
      else if req.message_type == "CheckOut"
      then respond done failed (svc.checkout req)
      else pure (failed Error.checkin_invalid_message_type)

  unfoldable pub dep_enrollment_endpoint : DepEnrollmentRequest → Action W DepEnrollmentResponse
  dep_enrollment_endpoint req =
      respond (λ profile. record { profile = profile; error = none })
        (λ e. record { profile = ""; error = some e }) (svc.enroll_dep req.udid req.serial)
