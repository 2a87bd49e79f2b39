-- ===== src/Main/Wire.antt =====
-- A device's conversation over HTTP: connect/transport.go around connect/endpoint.go,
-- connect/service.go and command/datastore.go.
use mathlib.Core.Path.{subst}
use mathlib.Core.List.{cons≢nil, head-eq_of_cons-eq, tail-eq_of_cons-eq}
use micromdm.Base.{
  ℕ, String, List, [], ◌∷◌, ◌++◌, map, none, Error, Result, ok, Action, ◌≡◌, ◌≢◌, refl, sym, ap,
  ◌∙◌, true,
}
use micromdm.Mdm.{CommandRequest, Payload, DepDevice, Response}
use micromdm.Services.Sql.{Row}
use micromdm.Services.Lawful.{World}
use micromdm.Command.Queue.{waiting}
use micromdm.Http.Reply.{Json, Call, IsStatus, Sends}
use micromdm.Http.Server.{Request, Kit, IsKit}
use micromdm.Connect.Service.{Service}
use micromdm.Connect.Endpoint.{ConnectResponse, nothing, sent, connect_endpoint}
use micromdm.Connect.Transport.{decode_mdm_connect_request, connect_handler}
use micromdm.Connect.Replies.{connect_replies}
use micromdm.Main.Server.{Library, Environment, model, connect_svc}
use micromdm.Main.Refinement.{IsEnvironment}
use micromdm.Main.Drain.{talk, idle, report, AllDistinct, Ready, Settled, drain}

-- Requests to a handler one after another, with what is sent.
module _ {W : Type 0} (handler : Request → Action W (List Call)) where
  unfoldable pub exchange : List Request → W → List (Result (List Call)) × W
  exchange [] w = ([], w)
  exchange (r ∷ rs) w = let rest = exchange rs (handler r w).1 in ((handler r w).0 ∷ rest.0, rest.1)

-- Each request carries the report at its place.
abbrev pub Carry : (Request → Result Response) → List Request → List Response → Type 0
Carry decode [] [] = Unit
Carry decode (r ∷ rs) (q ∷ qs) = (decode r ≡ ok q) × Carry decode rs qs
Carry decode _ _ = ⊥

-- The texts are the bodies, each with status 200.
abbrev pub AllSend : (List Call → ℕ) → List String → List (Result (List Call)) → Type 0
AllSend status [] [] = Unit
AllSend status (p ∷ ps) (x ∷ xs) = Sends status 200 p x × AllSend status ps xs
AllSend status _ _ = ⊥

abbrev pub replies : List String → List (Result ConnectResponse)
replies = map (λ p. ok (sent p))

module _ {W : Type 0} (kit : Kit W) (lawful : IsKit kit) (plist : Json) (message : Error → String)
    (status : List Call → ℕ) (http : IsStatus status) (decode : String → Result Response)
    (partial : Error → String) where
  conversation :
      (svc : Service W) (rs : List Request) (qs : List Response) (ps : List String) (w : W)
      → Carry (decode_mdm_connect_request decode partial) rs qs
      → (talk (connect_endpoint svc) qs w).0 ≡ replies ps
      → let (xs, w') = exchange (connect_handler plist message kit svc decode partial) rs w in
        AllSend status ps xs × (w' ≡ (talk (connect_endpoint svc) qs w).1)
  unfolding talk exchange
  conversation svc [] [] [] w c h = (tt, refl)
  conversation svc [] [] (p ∷ ps) w c h = elim (cons≢nil (sym h)) [ ]
  conversation svc [] (q ∷ qs) ps w c h = elim c [ ]
  conversation svc (r ∷ rs) [] ps w c h = elim c [ ]
  conversation svc (r ∷ rs) (q ∷ qs) [] w c h = elim (cons≢nil h) [ ]
  conversation svc (r ∷ rs) (q ∷ qs) (p ∷ ps) w (d, ds) h =
      let v = (connect_endpoint svc q w).1 in
      let (e, sends) =
        connect_replies kit lawful plist message status http svc decode partial r w v q (sent p) d
          (ap (λ z. (z, v)) (head-eq_of_cons-eq h)) in
      let (rest, end) = conversation svc rs qs ps v ds (tail-eq_of_cons-eq h) in
      subst
        (λ u.
          let (xs, w') = exchange (connect_handler plist message kit svc decode partial) rs u in
          (Sends status 200 p (connect_handler plist message kit svc decode partial r w).0
            × AllSend status ps xs)
          × (w' ≡ (talk (connect_endpoint svc) qs v).1))
        (sym e) ((sends, rest), end)

  listed :
      (payload : String → String) (xs : List String)
      → map (λ x. ok (sent (payload x))) xs ++ (ok nothing ∷ [])
        ≡ replies (map payload xs ++ ("" ∷ []))
  listed payload [] = refl
  listed payload (x ∷ xs) = ap (λ z. ok (sent (payload x)) ∷ z) (listed payload xs)

  -- Requests to the handler of /mdm/connect, the bodies of which decode to the report that a
  -- device is idle and then to its acknowledgements of the waiting commands, in the order of the
  -- queue: the bodies of the replies are the payloads of the commands, each once and in that
  -- order, and then an empty one, all with status 200, and no command waits any more. The world
  -- behaves like the reference model, its services answer, the reports carry no user and are not
  -- of type DeviceConfigured, the waiting UUIDs are distinct, each has a payload in Redis of a
  -- type whose result is not stored, the device is known and awaits no configuration, and go-kit's
  -- server and the status of a reply are as documented.
  pub drain_over_http :
      (l : Library) (build : String → CommandRequest → Result Payload) (fetched : List DepDevice)
      (req : Response) (payload : String → String) (command : String → Payload) (o : World W)
      (e : Environment W)
      → IsEnvironment o e (model build fetched)
      → (y : String) (ys : List String) (row : Row) (w : W) (rs : List Request) → o.up w ≡ true
      → req.user_id ≡ none
      → req.request_type ≢ "DeviceConfigured"
      → waiting (o.view w) req.udid ≡ ok (y ∷ ys)
      → AllDistinct (y ∷ ys)
      → Ready l build fetched req payload command (o.view w) (y ∷ ys)
      → Settled l build fetched req payload command (o.view w) row
      → Carry (decode_mdm_connect_request decode partial) rs (idle req ∷ map (report req) (y ∷ ys))
      → let (xs, w') =
          exchange (connect_handler plist message kit (connect_svc l e) decode partial) rs w in
        AllSend status (map payload (y ∷ ys) ++ ("" ∷ [])) xs
        × (waiting (o.view w') req.udid ≡ ok [])
  drain_over_http l build fetched req payload command o e env y ys row w rs up user other queue
        distinct ready settled carry =
      let (replied, left) =
        drain l build fetched req payload command o e env y ys row w up user other queue distinct
          ready settled in
      let (sends, end) =
        conversation (connect_svc l e) rs (idle req ∷ map (report req) (y ∷ ys))
          (map payload (y ∷ ys) ++ ("" ∷ [])) w carry (replied ∙ listed payload (y ∷ ys)) in
      (sends, ap (λ z. waiting (o.view z) req.udid) end ∙ left)
