-- ===== src/Command/Replies.antt =====
-- What an administrator gets from command/transport.go for the commands of a device.
use text.Mathlib.TextLemmas.{native_laws}
use mathlib.Core.Path.{subst}
use micromdm.Base.{
  ℕ, String, some, List, ◌∷◌, Error, Result, ok, Action, ◌≡◌, refl, sym, ap, ◌∙◌, arith,
}
use micromdm.Http.Reply.{Json, Call, IsStatus, Sends, encode, json_type}
use micromdm.Http.Server.{Request, Kit, IsKit}
use micromdm.Command.Service.{Service}
use micromdm.Command.Endpoint.{
  NextCommandResponse, DeleteCommandResponse, GetCommandsResponse, next_command_endpoint,
  delete_command_endpoint, get_commands_endpoint,
}
use micromdm.Command.Transport.{
  decode_next_command_request, decode_delete_command_request, decode_get_commands_request,
  plain_shape, encode_error, encode_response, server, next_command_handler, delete_command_handler,
  get_commands_handler,
}

module _ {W : Type 0} (kit : Kit W) (lawful : IsKit kit) (json : Json) (message : Error → String)
    (status : List Call → ℕ) (http : IsStatus status) (svc : Service W) where
  encoded :
      (B : Type 0) (b : B) (s : String)
      → json.encode B b ≡ ok s
      → let x = encode_response json message (plain_shape json B b) in
        (x.outcome ≡ ok tt) × Sends status 200 s (ok x.calls)
  encoded B b s h =
      subst
        (λ z. ((encode z).outcome ≡ ok tt) × Sends status 200 s (ok (json_type ∷ (encode z).calls)))
        (sym h) (refl, (http.header _ _ _ ∙ http.implicit _ _, native_laws.append-nil s))

  -- A response without methods, whatever error it holds.
  sent :
      {A B : Type 0} (f : A → Action W B) (d : Request → Result A) (r : Request) (w w' : W) (a : A)
      (b : B) (s : String)
      → d r ≡ ok a
      → f a w ≡ (ok b, w')
      → json.encode B b ≡ ok s
      → let (x, z) = server json message kit f d (plain_shape json B) r w in
        (z ≡ w') × Sends status 200 s x
  sent {A} {B} f d r w w' a b s decoded run coded =
      let (done, sends) = encoded B b s coded in
      let eq =
        lawful.answered A B f d (λ y. encode_response json message (plain_shape json B y))
          (encode_error json message) r w w' a b decoded run done in
      (ap (λ y. y.1) eq, subst (Sends status 200 s) (sym (ap (λ y. y.0) eq)) sends)

  -- GET of the next command, DELETE of a command and GET of the commands of a device: each handler
  -- calls its endpoint with the variables of the URL and sends the response, whether or not it
  -- holds an error, as JSON with status 200. The endpoints respond, the encoder succeeds, and go-
  -- kit's server and the status of a reply are as documented.
  pub responses_are_sent_as_200 :
      (r : Request) (udid uuid : String) (w w1 w2 w3 : W) (b1 : NextCommandResponse)
      (b2 : DeleteCommandResponse) (b3 : GetCommandsResponse) (s1 s2 s3 : String)
      → r.vars "udid" ≡ some udid
      → r.vars "uuid" ≡ some uuid
      → next_command_endpoint svc (record { udid = udid }) w ≡ (ok b1, w1)
      → delete_command_endpoint svc (record { udid = udid; uuid = uuid }) w ≡ (ok b2, w2)
      → get_commands_endpoint svc (record { udid = udid }) w ≡ (ok b3, w3)
      → json.encode NextCommandResponse b1 ≡ ok s1
      → json.encode DeleteCommandResponse b2 ≡ ok s2
      → json.encode GetCommandsResponse b3 ≡ ok s3
      → let (x, x') = next_command_handler json message kit svc r w in
        let (y, y') = delete_command_handler json message kit svc r w in
        let (z, z') = get_commands_handler json message kit svc r w in
        ((x' ≡ w1) × Sends status 200 s1 x)
        × ((y' ≡ w2) × Sends status 200 s2 y)
        × ((z' ≡ w3) × Sends status 200 s3 z)
  unfolding decode_next_command_request decode_delete_command_request decode_get_commands_request
  responses_are_sent_as_200 r udid uuid w w1 w2 w3 b1 b2 b3 s1 s2 s3 h k next delete get c1 c2 c3 =
      (
        sent (next_command_endpoint svc) decode_next_command_request r w w1 _ b1 s1 (ground arith)
            next c1,
        sent (delete_command_endpoint svc) decode_delete_command_request r w w2 _ b2 s2
            (ground arith) delete c2,
        sent (get_commands_endpoint svc) decode_get_commands_request r w w3 _ b3 s3 (ground arith)
            get c3,
      )
