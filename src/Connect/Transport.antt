-- ===== src/Connect/Transport.antt =====
-- connect/transport.go
use micromdm.Base.{
  String, ◌==◌, none, some, List, [], ◌∷◌, Error, Result, ok, err, panic, Action, if◌then◌else◌,
}
use micromdm.Mdm.{Response}
use micromdm.Http.Reply.{
  Json, ErrorBody, Call, write_header, write, Written, written, failing, encode_dropping,
  respond_with, unwrap,
}
use micromdm.Http.Server.{Request, part, Kit, Route}
use micromdm.Connect.Service.{Service}
use micromdm.Connect.Endpoint.{ConnectResponse, connect_endpoint}

-- `body, _ := ioutil.ReadAll(r.Body)`: what has been read before an error is `partial`.
abbrev pub read : (Error → String) → Result String → Result String
read partial (ok s) = ok s
read partial (err e) = ok (partial e)
read partial panic = panic

-- `plist` decodes the property list of a report.
abbrev pub parsed : (String → Result Response) → Result String → Result Response
parsed plist (ok s) = plist s
parsed plist (err e) = err e
parsed plist panic = panic

unfoldable pub decode_mdm_connect_request :
    (String → Result Response) → (Error → String) → Request → Result Response
decode_mdm_connect_request plist partial r = parsed plist (read partial r.body)

-- The end of `encodeResponse`.
abbrev pub encode_payload : String → Written
encode_payload next = if next == "" then written [] else written (write next ∷ [])

module _ (plist : Json) (message : Error → String) where
  abbrev pub encode_error : Error → List Call
  encode_error e =
      write_header 500
      ∷ encode_dropping (plist.encode ErrorBody (record { error = message (unwrap e) }))

  -- The response has a method `error`, and neither `status` nor `encodeList`.
  abbrev pub encode_response : ConnectResponse → Written
  encode_response r =
      respond_with encode_error []
        (record {
          errorer = some r.error;
          statuser = none;
          list_encoder = none;
          whole = ok r.payload;
        })
        (encode_payload r.payload) (failing (some r.error))

  abbrev pub connect_handler :
      {W : Type 0}
      → Kit W
      → Service W
      → (String → Result Response)
      → (Error → String)
      → Request
      → Action W (List Call)
  connect_handler {W} kit svc decode partial =
      kit.serve Response ConnectResponse (connect_endpoint svc)
        (decode_mdm_connect_request decode partial) encode_response encode_error

  abbrev pub service_handler :
      {W : Type 0}
      → Kit W
      → Service W
      → (String → Result Response)
      → (Error → String)
      → List (Route W)
  service_handler kit svc decode partial =
      record {
        method = "PUT";
        pattern = part "mdm" ∷ part "connect" ∷ [];
        handler = connect_handler kit svc decode partial;
      }
      ∷ []
