-- ===== src/Management/Inventory.antt =====
-- The reply to a request for the applications of a device: management/transport.go and
-- management/endpoint_installedapps.go.
use mathlib.Core.Path.{subst}
use micromdm.Base.{
  ℕ, String, Option, none, some, List, [], ◌∷◌, Error, Result, ok, err, panic, ◌≡◌, ◌≢◌, refl, true,
  false, Bool, Bool-cases, inl, inr, arith, ap, sym, ◌∙◌,
}
use micromdm.Application.Datastore.{Application}
use micromdm.Http.Reply.{Json, Call, json_type, write, Answers, IsStatus}
use micromdm.Http.Server.{Request, Kit, IsKit, is_eof}
use micromdm.Management.Service.{Service}
use micromdm.Management.Endpoint.{
  InstalledAppsFields, InstalledAppsResponse, InstalledAppsRequest, installed_apps_endpoint,
}
use micromdm.Management.Shape.{installed_apps_shape}
use micromdm.Management.Transport.{
  Bodies, encode_error, encode_response, decode_installed_apps_request,
}
use micromdm.Management.Routes.{installed_apps_handler}
use micromdm.Management.Replies.{refused}

-- The error of a result.
abbrev pub error_of : Result (List Application) → Option Error
error_of (ok _) = none
error_of (err e) = some e
error_of panic = none

abbrev response_of : Result (List Application) → InstalledAppsResponse
response_of (ok as_) = record { applications = as_; error = none }
response_of (err e) = record { applications = []; error = some e }
response_of panic = record { applications = []; error = none }

module _ {W : Type 0} (kit : Kit W) (lawful : IsKit kit) (json : Json) (message : Error → String)
    (bodies : Bodies) (status : List Call → ℕ) (http : IsStatus status) (svc : Service W) where
  endpoint_responds :
      (v : String) (w w' : W) (x : Result (List Application))
      → svc.installed_apps v w ≡ (x, w')
      → x ≢ panic
      → installed_apps_endpoint svc (record { uuid = v }) w ≡ (ok (response_of x), w')
  unfolding installed_apps_endpoint
  endpoint_responds v w w' (ok as_) run total = rw run
  endpoint_responds v w w' (err e) run total = rw run
  endpoint_responds v w w' panic run total = elim (total refl) [ ]

  encoded :
      (x : Result (List Application)) (t : String)
      → json.encode InstalledAppsFields (record { error = error_of x }) ≡ ok t
      → encode_response json message (installed_apps_shape json (response_of x))
        ≡ record { calls = json_type ∷ write t ∷ []; outcome = ok tt }
  encoded (ok as_) t h = rw h
  encoded (err e) t h = rw h
  encoded panic t h = rw h

  -- The reply: that the body is empty, or what `t` encodes.
  abbrev pub IsListing : Bool → String → W → W → Result (List Call) → W → Type 0
  IsListing true t w w' y z = Answers status 400 y × (z ≡ w)
  IsListing false t w w' y z =
      (y ≡ ok (json_type ∷ write t ∷ [])) × (status (json_type ∷ write t ∷ []) ≡ 200) × (z ≡ w')

  module _ (r : Request) (u : String) (w w' : W) (x : Result (List Application)) (t : String)
      (vars : r.vars "uuid" ≡ some u) where
    without_body :
        is_eof (bodies.uuid u r.body).error ≡ true
        → let (y, z) = installed_apps_handler kit json message bodies svc r w in
          IsListing true t w w' y z
    unfolding decode_installed_apps_request
    without_body eof =
        let eq =
          refused kit lawful json message (installed_apps_endpoint svc)
            (decode_installed_apps_request bodies) (installed_apps_shape json) r w
            Error.management_empty_request (ground (arith, vars, eof)) in
        subst (λ m. Answers status 400 m.0 × (m.1 ≡ w)) (sym eq) (http.explicit _ _, refl)

    with_body :
        is_eof (bodies.uuid u r.body).error ≡ false
        → svc.installed_apps (bodies.uuid u r.body).value w ≡ (x, w')
        → x ≢ panic
        → json.encode InstalledAppsFields (record { error = error_of x }) ≡ ok t
        → let (y, z) = installed_apps_handler kit json message bodies svc r w in
          IsListing false t w w' y z
    unfolding decode_installed_apps_request
    with_body body run total coded =
        let v = (bodies.uuid u r.body).value in
        let enc = encoded x t coded in
        let eq =
          lawful.answered InstalledAppsRequest InstalledAppsResponse (installed_apps_endpoint svc)
            (decode_installed_apps_request bodies)
            (λ b. encode_response json message (installed_apps_shape json b))
            (encode_error json message) r w w' (record { uuid = v }) (response_of x)
            (ground (arith, vars, body)) (endpoint_responds v w w' x run total)
            (ap (λ z. z.outcome) enc) in
        (
          ap (λ z. z.0) eq ∙ ap (λ z. ok z.calls) enc,
          http.header _ _ _ ∙ http.implicit _ _,
          ap (λ z. z.1) eq,
        )

  -- GET of a device's applications, where the request has the variable, the service would return
  -- applications or an error, and the encoder succeeds. If the decoder of the body meets its end,
  -- the client gets status 400 and the world is as before. If not, the client gets status 200, and
  -- the body encodes the error of the service, or its absence, and no application. go-kit's server
  -- and the status of a reply are as documented.
  pub installed_apps_are_hidden :
      (r : Request) (u : String) (w w' : W) (x : Result (List Application)) (t : String)
      → r.vars "uuid" ≡ some u
      → svc.installed_apps (bodies.uuid u r.body).value w ≡ (x, w')
      → x ≢ panic
      → json.encode InstalledAppsFields (record { error = error_of x }) ≡ ok t
      → let (y, z) = installed_apps_handler kit json message bodies svc r w in
        IsListing (is_eof (bodies.uuid u r.body).error) t w w' y z
  installed_apps_are_hidden r u w w' x t vars run total coded =
      elim (Bool-cases (is_eof (bodies.uuid u r.body).error)) [
        | inl eof ↦
            subst
              (λ b.
                let (y, z) = installed_apps_handler kit json message bodies svc r w in
                IsListing b t w w' y z)
              (sym eof) (without_body r u w w' x t vars eof)
        | inr body ↦
            subst
              (λ b.
                let (y, z) = installed_apps_handler kit json message bodies svc r w in
                IsListing b t w w' y z)
              (sym body) (with_body r u w w' x t vars body run total coded)
      ]
