-- ===== src/Main/Failure.antt =====
-- connect/endpoint.go and connect/service.go on the status "Error": a failed command is dropped,
-- and the device gets the next one.
use package.text.Mathlib.TextEquality.{eq_iff}
use micromdm.Base.{
  ℕ, suc, String, List, [], ◌∷◌, ◌++◌, none, some, Result, ok, ◌≡◌, ◌≢◌, true, ap, ◌∙◌, arith,
  length,
}
use micromdm.Mdm.{CommandRequest, Payload, DepDevice, Response}
use micromdm.Services.Backend.{Backend, list, str, cache, without}
use micromdm.Services.Lawful.{World, transfer}
use micromdm.Command.Datastore.{next_command, delete_command}
use micromdm.Command.Queue.{waiting, next_command-Rotated, delete_command-Deleted}
use micromdm.Command.Cycle.{elements-eq-ok}
use micromdm.Connect.Service.{fail_command}
use micromdm.Connect.Service as ConnectService
use micromdm.Connect.Endpoint.{ConnectResponse, nothing, sent, connect_endpoint}
use micromdm.Main.Server.{Library, Environment, model, connect_svc}
use micromdm.Main.Refinement.{IsEnvironment, connect_refines}

error_other : (◌≢◌ {A = String} "Error" "Acknowledged") × (◌≢◌ {A = String} "Error" "Idle")
error_other = (ground (arith, eq_iff "Error" "Acknowledged"), ground (arith, eq_iff "Error" "Idle"))

module _ (l : Library) (build : String → CommandRequest → Result Payload) (fetched : List DepDevice)
    (req : Response) (b : Backend) where
  -- The world after the deletion.
  abbrev deleted : Backend
  deleted = (delete_command cache l.plist req.udid req.command_uuid b).1

  endpoint_fail :
      (n m : ℕ) (t : String)
      → req.user_id ≡ none
      → req.status ≡ "Error"
      → (delete_command cache l.plist req.udid req.command_uuid b).0 ≡ ok (suc n)
      → (next_command cache l.plist req.udid deleted).0 ≡ ok (t, m)
      → connect_endpoint (connect_svc l (model build fetched)) req b
        ≡ (ok (sent t), (next_command cache l.plist req.udid deleted).1)
  unfolding connect_endpoint fail_command ConnectService.next_command
  endpoint_fail n m t user status d r = ground (arith, error_other)

  endpoint_fail_done :
      req.user_id ≡ none
      → req.status ≡ "Error"
      → (delete_command cache l.plist req.udid req.command_uuid b).0 ≡ ok 0
      → connect_endpoint (connect_svc l (model build fetched)) req b ≡ (ok nothing, deleted)
  unfolding connect_endpoint fail_command
  endpoint_fail_done user status d = ground (arith, error_other)

-- The reply to a failure with `rest` left in the queue, and the queue after it.
abbrev pub Answered :
    (String → String) → String → List String → Result ConnectResponse → Backend → Type 0
Answered payload u [] r c = (r ≡ ok nothing) × (waiting c u ≡ ok [])
Answered payload u (y ∷ ys) r c = (r ≡ ok (sent (payload y))) × (waiting c u ≡ ok (ys ++ (y ∷ [])))

-- The first of some commands has its payload in Redis.
abbrev pub FirstKept : (String → String) → Backend → List String → Type 0
FirstKept payload b [] = Unit
FirstKept payload b (y ∷ ys) = b.entry y ≡ some (str (payload y))

fail_model :
    (l : Library) (build : String → CommandRequest → Result Payload) (fetched : List DepDevice)
    (req : Response) (payload : String → String) (qs rest : List String) (b : Backend)
    → req.user_id ≡ none
    → req.status ≡ "Error"
    → b.entry req.udid ≡ some (list qs)
    → without req.command_uuid qs ≡ rest
    → FirstKept payload b rest
    → let (r, c) = connect_endpoint (connect_svc l (model build fetched)) req b in
      Answered payload req.udid rest r c
fail_model l build fetched req payload qs [] b user status queue left kept =
    let (n, w, _, _) = delete_command-Deleted l.plist req.udid req.command_uuid qs b queue in
    let eq = endpoint_fail_done l build fetched req b user status (n ∙ ap ok (ap length left)) in
    (ap (λ z. z.0) eq, ap (λ z. waiting z.1 req.udid) eq ∙ w ∙ ap ok left)
fail_model l build fetched req payload qs (y ∷ ys) b user status queue left kept =
    let (n, w, _, same_d) = delete_command-Deleted l.plist req.udid req.command_uuid qs b queue in
    let d = deleted l build fetched req b in
    let y-ne : y ≢ req.udid = λ q. cc (ap b.entry q) in
    let (r, q, _) =
      next_command-Rotated l.plist req.udid y (payload y) ys d
        (elements-eq-ok _ y ys (w ∙ ap ok left)) (same_d y y-ne ∙ kept) in
    let eq =
      endpoint_fail l build fetched req b (length ys) (length (y ∷ ys)) (payload y) user status
        (n ∙ ap ok (ap length left)) r in
    (ap (λ z. z.0) eq, ap (λ z. waiting z.1 req.udid) eq ∙ q)

-- A report with the status "Error": the failed command waits no more, and the reply is the payload
-- of the first of the other commands, which goes to the end of the queue, or nothing where none is
-- left. The world behaves like the reference model and its services answer, the request has no
-- user, and the first of the other commands, if there is one, has its payload in Redis.
pub failure_skips :
    {W : Type 0} (o : World W) (e : Environment W) (l : Library)
    (build : String → CommandRequest → Result Payload) (fetched : List DepDevice)
    → IsEnvironment o e (model build fetched)
    → (req : Response) (payload : String → String) (qs : List String) (w : W) → o.up w ≡ true
    → req.user_id ≡ none
    → req.status ≡ "Error"
    → (o.view w).entry req.udid ≡ some (list qs)
    → FirstKept payload (o.view w) (without req.command_uuid qs)
    → let (r, w') = connect_endpoint (connect_svc l e) req w in
      Answered payload req.udid (without req.command_uuid qs) r (o.view w')
failure_skips o e l build fetched lawful req payload qs w up user status queue kept =
    transfer (Answered payload req.udid (without req.command_uuid qs))
      (connect_refines build fetched lawful l req) w up
      (fail_model l build fetched req payload qs (without req.command_uuid qs) (o.view w) user
        status queue (λ i. without req.command_uuid qs) kept)
