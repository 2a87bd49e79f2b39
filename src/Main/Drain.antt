-- ===== src/Main/Drain.antt =====
-- A device's conversation with /mdm/connect (connect/endpoint.go, connect/service.go and
-- command/datastore.go together): requests one after another, until the queue is empty.
use micromdm.Base.{
  String, true, false, List, [], ◌∷◌, ◌++◌, map, none, some, Result, ok, Action, ◌≡◌, ◌≢◌, refl, ap,
  ◌∙◌, arith,
}
use mathlib.Core.Path.{ap₂, subst}
use micromdm.Mdm.{CommandRequest, Payload, DepDevice, Response}
use micromdm.Services.Sql.{Row, text, bool, same, member}
use micromdm.Services.Backend.{Backend, list, str, without, first}
use micromdm.Command.Queue.{waiting}
use micromdm.Command.Cycle.{elements-eq-ok}
use micromdm.Connect.Endpoint.{ConnectResponse, nothing, sent, connect_endpoint}
use micromdm.Main.Server.{Library, Environment, model, connect_svc}
use micromdm.Main.Queue.{IsPlain, ack_next, ack_last, idle_next}
use micromdm.Main.Refinement.{IsEnvironment, connect_refines}
use micromdm.Services.Lawful.{World, Behaves}

-- Requests one after another, with the replies.
module _ {W : Type 0} (endpoint : Response → Action W ConnectResponse) where
  unfoldable pub talk : List Response → W → List (Result ConnectResponse) × W
  talk [] w = ([], w)
  talk (q ∷ qs) w = let rest = talk qs (endpoint q w).1 in ((endpoint q w).0 ∷ rest.0, rest.1)

pub talk-Behaves :
    {W : Type 0} {o : World W} {f : Response → Action W ConnectResponse}
    {f' : Response → Action Backend ConnectResponse} (h : (q : Response) → Behaves o (f q) (f' q))
    (qs : List Response) (w : W)
    → o.up w ≡ true
    → ((talk f qs w).0 ≡ (talk f' qs (o.view w)).0)
      × (o.view (talk f qs w).1 ≡ (talk f' qs (o.view w)).1)
unfolding talk
talk-Behaves h [] w up = (refl, refl)
talk-Behaves {o} {f} {f'} h (q ∷ qs) w up =
    let (r, seen, up') = (h q).run w up in
    let (rs, end) = talk-Behaves {o = o} {f = f} {f' = f'} h qs (f q w).1 up' in
    subst
      (λ b.
        ((f q w).0 ∷ (talk f qs (f q w).1).0 ≡ (f' q (o.view w)).0 ∷ (talk f' qs b).0)
        × (o.view (talk f qs (f q w).1).1 ≡ (talk f' qs b).1))
      seen (ap₂ ◌∷◌ r rs, end)

abbrev pub AllDistinct : List String → Type 0
AllDistinct [] = Unit
AllDistinct (x ∷ xs) = (member x xs ≡ false) × AllDistinct xs

without_absent :
    (x : String) (xs : List String) → member x xs ≡ false → without x (xs ++ (x ∷ [])) ≡ xs
without_absent x [] h = ground arith
without_absent x (y ∷ ys) h = ground (arith, without_absent x ys)

-- The report of a device that `x` is done; `r` gives what the report says besides.
abbrev pub idle : Response → Response
idle r = record r { status = "Idle" }

abbrev pub report : Response → String → Response
report r x = record r { status = "Acknowledged"; command_uuid = x }

module _ (l : Library) (build : String → CommandRequest → Result Payload) (fetched : List DepDevice)
    (req : Response) (payload : String → String) (command : String → Payload) where
  -- The commands have their payloads in Redis, and are of types whose result is not stored.
  abbrev pub Ready : Backend → List String → Type 0
  Ready b [] = Unit
  Ready b (x ∷ xs) =
      (b.entry x ≡ some (str (payload x)))
      × (l.plist.decode (payload x) ≡ ok (command x))
      × IsPlain (command x)
      × Ready b xs

  -- The device is known and awaits no configuration.
  abbrev pub Settled : Backend → Row → Type 0
  Settled b row =
      (first (λ q. same (q "udid") (text req.udid)) (b.rows "devices") ≡ some row)
      × (row "awaiting_configuration" ≡ bool false)

  Ready-same :
      (b c : Backend) (xs qs : List String)
      → b.entry req.udid ≡ some (list qs)
      → ((k : String) → k ≢ req.udid → c.entry k ≡ b.entry k)
      → Ready b xs
      → Ready c xs
  Ready-same b c [] qs e same_c h = tt
  Ready-same b c (x ∷ xs) qs e same_c (p, d, i, h) =
      (same_c x (λ q. cc (ap b.entry q)) ∙ p, d, i, Ready-same b c xs qs e same_c h)

  drain_from :
      (x : String) (ys : List String) (row : Row) (b : Backend)
      → req.user_id ≡ none
      → req.request_type ≢ "DeviceConfigured"
      → waiting b req.udid ≡ ok (ys ++ (x ∷ []))
      → AllDistinct (x ∷ ys)
      → Ready b (x ∷ ys)
      → Settled b row
      → let (rs, c) =
          talk
            (connect_endpoint (connect_svc l (model build fetched)))
            (map (report req) (x ∷ ys))
            b in
        (rs ≡ map (λ y. ok (sent (payload y))) ys ++ (ok nothing ∷ []))
        × (waiting c req.udid ≡ ok [])
  unfolding talk
  drain_from x [] row b user other queue (absent, _) (stored, decoded, plain, _) (found, settled) =
      let (r, w) =
        ack_last l build fetched (report req x) (payload x) (x ∷ []) (command x) row b
          (user, refl, other) (elements-eq-ok _ x [] queue) (without_absent x [] refl) stored
          decoded plain found settled in
      (ap (λ z. z ∷ []) r, w)
  drain_from x (y ∷ ys) row b user other queue (absent, distinct) (stored, decoded, plain, ready)
        (found, settled) =
      let at = elements-eq-ok (b.entry req.udid) y (ys ++ (x ∷ [])) queue in
      let (r, w, same_c, rows) =
        ack_next l build fetched (report req x) (payload x) (payload y) y ys (y ∷ ys ++ (x ∷ []))
          (command x) b (user, refl, other) at (without_absent x (y ∷ ys) absent) stored decoded
          plain ready.0 in
      let c = (connect_endpoint (connect_svc l (model build fetched)) (report req x) b).1 in
      let (rs, w') =
        drain_from y ys row c user other w distinct (Ready-same b c (y ∷ ys) _ at same_c ready) (
          ap (λ t. first (λ q. same (q "udid") (text req.udid)) (t "devices")) rows ∙ found,
          settled,
        ) in
      (ap₂ ◌∷◌ r rs, w')

  drain_model :
      (y : String) (ys : List String) (row : Row) (b : Backend)
      → req.user_id ≡ none
      → req.request_type ≢ "DeviceConfigured"
      → waiting b req.udid ≡ ok (y ∷ ys)
      → AllDistinct (y ∷ ys)
      → Ready b (y ∷ ys)
      → Settled b row
      → let (rs, c) =
          talk
            (connect_endpoint (connect_svc l (model build fetched)))
            (idle req ∷ map (report req) (y ∷ ys))
            b in
        (rs ≡ map (λ x. ok (sent (payload x))) (y ∷ ys) ++ (ok nothing ∷ []))
        × (waiting c req.udid ≡ ok [])
  unfolding talk
  drain_model y ys row b user other queue distinct ready (found, settled) =
      let at = elements-eq-ok (b.entry req.udid) y ys queue in
      let (r, w, same_c, rows) =
        idle_next l build fetched (idle req) (payload y) y ys b user refl at ready.0 in
      let c = (connect_endpoint (connect_svc l (model build fetched)) (idle req) b).1 in
      let (rs, w') =
        drain_from y ys row c user other w distinct (Ready-same b c (y ∷ ys) _ at same_c ready) (
          ap (λ t. first (λ q. same (q "udid") (text req.udid)) (t "devices")) rows ∙ found,
          settled,
        ) in
      (ap₂ ◌∷◌ r rs, w')

  -- A device says that it is idle, and then acknowledges each command that it was sent: it is sent
  -- every command that waited, once and in the order of the queue, then nothing, and none waits
  -- any more. The world behaves like the reference model, its services answer, the requests carry
  -- no user and are not of type DeviceConfigured, the waiting UUIDs are distinct, each has a
  -- payload in Redis of a type whose result is not stored, and the device is known and awaits no
  -- configuration.
  pub drain :
      {W : Type 0} (o : World W) (e : Environment W)
      → IsEnvironment o e (model build fetched)
      → (y : String) (ys : List String) (row : Row) (w : W) → o.up w ≡ true
      → req.user_id ≡ none
      → req.request_type ≢ "DeviceConfigured"
      → waiting (o.view w) req.udid ≡ ok (y ∷ ys)
      → AllDistinct (y ∷ ys)
      → Ready (o.view w) (y ∷ ys)
      → Settled (o.view w) row
      → let (rs, w') =
          talk (connect_endpoint (connect_svc l e)) (idle req ∷ map (report req) (y ∷ ys)) w in
        (rs ≡ map (λ x. ok (sent (payload x))) (y ∷ ys) ++ (ok nothing ∷ []))
        × (waiting (o.view w') req.udid ≡ ok [])
  drain o e lawful y ys row w up user other queue distinct ready settled =
      let (rs, seen) =
        talk-Behaves {o = o} (connect_refines build fetched lawful l)
          (idle req ∷ map (report req) (y ∷ ys)) w up in
      let (rs', left) = drain_model y ys row (o.view w) user other queue distinct ready settled in
      (rs ∙ rs', ap (λ b. waiting b req.udid) seen ∙ left)
