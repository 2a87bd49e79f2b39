-- ===== src/Enroll/Transport.antt =====
-- enroll/endpoint.go and enroll/transport.go
use micromdm.Base.{
  Option, none, some, List, [], ◌∷◌, Error, Result, ok, panic, Action, return, respond,
}
use micromdm.Http.Reply.{Json, Call, set_header, Written, after, encode}
use micromdm.Http.Server.{Request, part, Kit, Route}
use micromdm.Enroll.Profile.{Profile}
use micromdm.Enroll.Service.{Service}

-- Where there is an error, the embedded profile is the zero one, which is `none` here.
pub record MdmEnrollResponse : Type 0 where
  pub profile : Option Profile
  pub err : Option Error

-- A call of a service that may be nil.
abbrev pub enroll_of : {W : Type 0} → Option (Service W) → Action W Profile
enroll_of none = return panic
enroll_of (some svc) = svc.enroll

unfoldable pub get_enroll_endpoint :
    {W : Type 0} → Option (Service W) → Unit {0} → Action W MdmEnrollResponse
get_enroll_endpoint s _ =
    respond (λ p. record { profile = some p; err = none })
      (λ e. record { profile = none; err = some e }) (enroll_of s)

abbrev pub decode_mdm_enroll_request : Request → Result (Unit {0})
decode_mdm_enroll_request r = ok tt

-- `plist` encodes as plist.NewEncoder does.
module _ (plist : Json) where
  abbrev pub encode_response : MdmEnrollResponse → Written
  encode_response resp =
      after (set_header "Content-Type" "application/x-apple-aspen-config" ∷ [])
        (encode (plist.encode MdmEnrollResponse resp))

  -- `default_error_encoder` is go-kit's, since no option names another.
  abbrev pub make_http_handler :
      {W : Type 0} → Kit W → (Error → List Call) → Option (Service W) → List (Route W)
  make_http_handler {W} kit default_error_encoder svc =
      record {
        method = "GET";
        pattern = part "mdm" ∷ part "enroll" ∷ [];
        handler =
            kit.serve (Unit {0}) MdmEnrollResponse (get_enroll_endpoint svc)
              decode_mdm_enroll_request encode_response default_error_encoder;
      }
      ∷ []
