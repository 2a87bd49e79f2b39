-- ===== src/Main/Unknown.antt =====
-- connect/service.go, lines 44 to 76, on a command whose payload Redis does not have.
use micromdm.Base.{String, true, none, List, Result, panic, ◌≡◌, ap, arith}
use micromdm.Mdm.{CommandRequest, Payload, DepDevice, Response}
use micromdm.Services.Backend.{Backend}
use micromdm.Services.Lawful.{World, transfer}
use micromdm.Connect.Endpoint.{connect_endpoint}
use micromdm.Main.Server.{Library, Environment, model, connect_svc}
use micromdm.Main.Queue.{ack_unknown}
use micromdm.Main.Refinement.{IsEnvironment, connect_refines}

endpoint_unknown :
    (l : Library) (build : String → CommandRequest → Result Payload) (fetched : List DepDevice)
    (req : Response) (b : Backend)
    → req.user_id ≡ none
    → req.status ≡ "Acknowledged"
    → b.entry req.command_uuid ≡ none
    → connect_endpoint (connect_svc l (model build fetched)) req b ≡ (panic, b)
unfolding connect_endpoint
endpoint_unknown l build fetched req b user status missing =
    ground (arith, ack_unknown l build fetched req b missing)

-- An acknowledgement, without a user, of a command whose payload is not in Redis panics, and
-- nothing that can be seen of the world changes. The world behaves like the reference model and
-- its services answer.
pub acknowledge_unknown :
    {W : Type 0} (o : World W) (e : Environment W) (l : Library)
    (build : String → CommandRequest → Result Payload) (fetched : List DepDevice)
    → IsEnvironment o e (model build fetched)
    → (req : Response) (w : W) → o.up w ≡ true
    → req.user_id ≡ none
    → req.status ≡ "Acknowledged"
    → (o.view w).entry req.command_uuid ≡ none
    → let (r, w') = connect_endpoint (connect_svc l e) req w in (r ≡ panic) × (o.view w' ≡ o.view w)
acknowledge_unknown o e l build fetched lawful req w up user status missing =
    let eq = endpoint_unknown l build fetched req (o.view w) user status missing in
    transfer (λ r b. (r ≡ panic) × (b ≡ o.view w)) (connect_refines build fetched lawful l req) w up
      (ap (λ z. z.0) eq, ap (λ z. z.1) eq)
