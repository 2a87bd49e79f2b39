-- ===== src/Checkin/Transport.antt =====
-- checkin/transport.go
use micromdm.Base.{String, Option, none, some, List, [], ◌∷◌, Error, Result, ok, err, panic, Action}
use micromdm.Mdm.{CheckinCommand}
use micromdm.Http.Reply.{
  Json, ErrorBody, Call, write_header, write, Written, written, encode, encode_dropping, unwrap,
}
use micromdm.Http.Server.{Request, part, Kit, Route}
use micromdm.Checkin.Service.{Service}
use micromdm.Checkin.Endpoint.{
  CheckinResponse, DepEnrollmentRequest, DepEnrollmentResponse, checkin_endpoint,
  dep_enrollment_endpoint,
}

-- `pkcs7.Parse` down to the content, and `plist.Unmarshal` into the two structs.
pub record Decoders : Type 0 where
  pub content : String → Result String
  pub checkin : String → Result CheckinCommand
  pub enrollment : String → Result DepEnrollmentRequest

-- `if err != nil { return nil, err }`
abbrev pub then_ : {A B : Type 0} → Result A → (A → Result B) → Result B
then_ (ok a) f = f a
then_ (err e) f = err e
then_ panic f = panic

module _ (decoders : Decoders) where
  unfoldable pub decode_mdm_checkin_request : Request → Result CheckinCommand
  decode_mdm_checkin_request r = then_ r.body decoders.checkin

  unfoldable pub decode_mdm_enrollment_request : Request → Result DepEnrollmentRequest
  decode_mdm_enrollment_request r =
      then_ r.body (λ data_. then_ (decoders.content data_) decoders.enrollment)

-- `if e, ok := response.(errorer); ok && e.error() != nil { … }`, and the rest.
abbrev pub unless_failed : (Error → List Call) → Option Error → Written → Written
unless_failed encode_error (some e) rest = written (encode_error e)
unless_failed encode_error none rest = rest

module _ (plist : Json) (message : Error → String) where
  abbrev pub encode_error : Error → List Call
  encode_error e =
      write_header 500
      ∷ encode_dropping (plist.encode ErrorBody (record { error = message (unwrap e) }))

  -- `encodeDEPEnrollmentResponse`
  abbrev pub encode_dep_enrollment_response : DepEnrollmentResponse → Written
  encode_dep_enrollment_response r =
      unless_failed encode_error r.error (written (write r.profile ∷ []))

  -- `encodeResponse` on the response of a check-in, which has neither `status` nor `encodeList`.
  abbrev pub encode_response : CheckinResponse → Written
  encode_response r = unless_failed encode_error r.error (encode (plist.encode CheckinResponse r))

  module _ {W : Type 0} (kit : Kit W) (svc : Service W) (decoders : Decoders) where
    abbrev pub checkin_handler : Request → Action W (List Call)
    checkin_handler =
        kit.serve CheckinCommand CheckinResponse (checkin_endpoint svc)
          (decode_mdm_checkin_request decoders) encode_response encode_error

    abbrev pub dep_enrollment_handler : Request → Action W (List Call)
    dep_enrollment_handler =
        kit.serve DepEnrollmentRequest DepEnrollmentResponse (dep_enrollment_endpoint svc)
          (decode_mdm_enrollment_request decoders) encode_dep_enrollment_response encode_error

    abbrev pub service_handler : List (Route W)
    service_handler =
        record {
          method = "PUT";
          pattern = part "mdm" ∷ part "checkin" ∷ [];
          handler = checkin_handler;
        }
        ∷ record {
          method = "POST";
          pattern = part "mdm" ∷ part "checkin" ∷ [];
          handler = dep_enrollment_handler;
        }
        ∷ []
