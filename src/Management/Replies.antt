-- ===== src/Management/Replies.antt =====
-- What a client of management/transport.go gets for an error, whatever handler it comes from.
use micromdm.Base.{String, some, List, Error, Result, ok, err, Action, ◌≡◌, ap, ◌∙◌}
use micromdm.Http.Reply.{Json, Call, Shape, Written, written}
use micromdm.Http.Server.{Request, Kit, IsKit}
use micromdm.Management.Transport.{encode_error, encode_response, server}

module _ {W : Type 0} (kit : Kit W) (lawful : IsKit kit) (json : Json)
    (message : Error → String) where
  encode_failure :
      (s : Shape) (e : Error)
      → s.errorer ≡ some (some e)
      → encode_response json message s ≡ written (encode_error json message e)
  encode_failure s e h = rw h

  module _ {A B : Type 0} (f : A → Action W B) (d : Request → Result A) (shape : B → Shape)
      (r : Request) (w : W) where
    abbrev reply : W → Written → Result (List Call) × W
    reply w' x = (ok x.calls, w')

    -- An error of the service, in the response of the endpoint.
    pub failed :
        (w' : W) (a : A) (b : B) (e : Error)
        → d r ≡ ok a
        → f a w ≡ (ok b, w')
        → (shape b).errorer ≡ some (some e)
        → server json message kit f d shape r w ≡ (ok (encode_error json message e), w')
    failed w' a b e decoded run h =
        lawful.answered A B f d (λ x. encode_response json message (shape x))
          (encode_error json message) r w w' a b decoded run
          (ap (λ x. x.outcome) (encode_failure (shape b) e h))
        ∙ ap (reply w') (encode_failure (shape b) e h)

    -- A request that the decoder refuses.
    pub refused :
        (e : Error)
        → d r ≡ err e
        → server json message kit f d shape r w ≡ (ok (encode_error json message (Error.kit e)), w)
    refused e h =
        lawful.undecoded A B f d (λ x. encode_response json message (shape x))
          (encode_error json message) r w e h
