-- ===== src/Connect/Replies.antt =====
-- What a device gets for a request of /mdm/connect: connect/transport.go with connect/endpoint.go.
use text.Mathlib.TextLemmas.{native_laws}
use mathlib.Core.Path.{subst}
use micromdm.Base.{
  ℕ, String, ◌==◌, Option, none, some, List, [], Error, Result, ok, ◌≡◌, refl, sym, ap, arith,
  Bool-cases, inl, inr,
}
use micromdm.Mdm.{Response}
use micromdm.Http.Reply.{Json, Call, IsStatus, Answers, Sends}
use micromdm.Http.Server.{Request, Kit, IsKit}
use micromdm.Connect.Service.{Service}
use micromdm.Connect.Endpoint.{ConnectResponse, connect_endpoint}
use micromdm.Connect.Transport.{
  decode_mdm_connect_request, encode_payload, encode_error, encode_response, connect_handler,
}

module _ {W : Type 0} (kit : Kit W) (lawful : IsKit kit) (plist : Json) (message : Error → String)
    (status : List Call → ℕ) (http : IsStatus status) (svc : Service W)
    (decode : String → Result Response) (partial : Error → String) where
  -- The next command, an empty reply where there is none, or an error.
  abbrev pub Replied : ConnectResponse → Result (List Call) → Type 0
  Replied b x = elim b.error [ none ↦ Sends status 200 b.payload x | some e ↦ Answers status 500 x ]

  payload_sends : (p : String) → Sends status 200 p (ok (encode_payload p).calls)
  payload_sends p = elim (Bool-cases (p == "")) [
    | inl e ↦ (ground (arith, e, http.nothing_sent), ground (arith, e))
    | inr n ↦ (ground (arith, n, http.implicit p []), ground (arith, n, native_laws.append-nil p))
  ]

  encoded :
      (p : String) (e : Option Error)
      → let b : ConnectResponse = record { payload = p; error = e } in
        ((encode_response plist message b).outcome ≡ ok tt)
        × Replied b (ok (encode_response plist message b).calls)
  encoded p none = (ground arith, payload_sends p)
  encoded p (some e) = (refl, http.explicit _ _)

  -- The reply to a request whose body decodes and whose endpoint responds.
  pub connect_replies :
      (r : Request) (w w' : W) (req : Response) (b : ConnectResponse)
      → decode_mdm_connect_request decode partial r ≡ ok req
      → connect_endpoint svc req w ≡ (ok b, w')
      → let (x, z) = connect_handler plist message kit svc decode partial r w in
        (z ≡ w') × Replied b x
  connect_replies r w w' req b decoded run =
      let eq =
        lawful.answered Response ConnectResponse (connect_endpoint svc)
          (decode_mdm_connect_request decode partial) (encode_response plist message)
          (encode_error plist message) r w w' req b decoded run (encoded b.payload b.error).0 in
      (ap (λ y. y.1) eq, subst (Replied b) (sym (ap (λ y. y.0) eq)) (encoded b.payload b.error).1)
