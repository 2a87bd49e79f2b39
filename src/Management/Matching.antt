-- ===== src/Management/Matching.antt =====
-- management/transport.go: the variables of each route against those that its decoder reads.
use mathlib.Core.List.{Mem, not-mem-nil, eq-or-mem_of_mem-cons}
use mathlib.Core.Logic.Or
use mathlib.Core.HLevel.{¬_prop}
use mathlib.Core.Path.{subst, sym}
use micromdm.Base.{String, some, List, [], ◌∷◌, Error, Result, ok, err, panic, ◌≢◌, arith}
use micromdm.Http.Reply.{Json, Call}
use micromdm.Http.Server.{Request, Kit, Route, Matched}
use micromdm.Management.Service.{Service}
use micromdm.Management.Transport.{
  Bodies, decode_add_profile_request, decode_add_workflow_request, decode_nothing,
  decode_show_profile_request, decode_delete_profile_request, decode_show_device_request,
  decode_update_device_request, decode_installed_apps_request, decode_push_request,
  decode_certificates_request,
}
use micromdm.Management.Routes.{service_handler}

-- What a decoder returns, without the request that it makes.
abbrev pub seen : {A : Type 0} → Result A → Result (List Call)
seen (ok a) = ok []
seen (err e) = err e
seen panic = panic

-- A server that only decodes, and returns the error of the decoder.
abbrev pub decoding : {W : Type 0} → Kit W
decoding = record { serve = λ A B f d enc ee r w. (seen (d r), w) }

seen_refused :
    {A : Type 0} (x : Result A)
    → x ≢ err Error.management_bad_routing
    → seen x ≢ err Error.management_bad_routing
seen_refused (ok a) h = ground arith
seen_refused (err e) h = λ q. h (ground (arith, q))
seen_refused panic h = ground arith

module _ {W : Type 0} where
  -- Each route of a list decodes the requests that match its pattern.
  abbrev Reads : List (Route W) → Type 0
  Reads [] = Unit
  Reads (route ∷ routes) =
      ((r : Request) (w : W)
        → Matched route.pattern r
        → (route.handler r w).0 ≢ err Error.management_bad_routing)
      × Reads routes

  reads :
      (route : Route W) (routes : List (Route W))
      → Mem route routes
      → Reads routes
      → (r : Request) (w : W) → Matched route.pattern r
      → (route.handler r w).0 ≢ err Error.management_bad_routing
  reads route [] m all r w h = elim (not-mem-nil m) [ ]
  reads route (x ∷ routes) m (one, all) r w h =
      Or.elim ¬_prop (eq-or-mem_of_mem-cons m)
        (λ eq.
          subst (λ y. Matched y.pattern r → (y.handler r w).0 ≢ err Error.management_bad_routing)
            (sym eq) (one r w) h)
        (λ later. reads route routes later all r w h)

module _ {W : Type 0} (json : Json) (message : Error → String) (bodies : Bodies) (svc : Service W)
    (profile_errors : (b : Result String)
      → (bodies.profile b).error ≢ some Error.management_bad_routing)
    (workflow_errors : (b : Result String)
      → (bodies.workflow b).error ≢ some Error.management_bad_routing) where
  add_profile_read :
      (r : Request) → decode_add_profile_request bodies r ≢ err Error.management_bad_routing
  unfolding decode_add_profile_request
  add_profile_read r = ground (arith, profile_errors r.body)

  add_workflow_read :
      (r : Request) → decode_add_workflow_request bodies r ≢ err Error.management_bad_routing
  unfolding decode_add_workflow_request
  add_workflow_read r = ground (arith, workflow_errors r.body)

  all_read : Reads (service_handler decoding json message bodies svc)
  unfolding decode_nothing decode_show_profile_request decode_delete_profile_request
      decode_show_device_request decode_update_device_request decode_push_request
      decode_installed_apps_request decode_certificates_request
  all_read = (
    λ r w h. ground arith,
    (
      λ r w h. ground arith,
      (
        λ r w h. seen_refused (decode_show_device_request r) (ground arith),
        (
          λ r w h. seen_refused (decode_update_device_request bodies r) (ground arith),
          (
            λ r w h. seen_refused (decode_push_request r) (ground arith),
            (
              λ r w h. seen_refused (decode_installed_apps_request bodies r) (ground arith),
              (
                λ r w h. seen_refused (decode_certificates_request r) (ground arith),
                (
                  λ r w h. seen_refused (decode_add_profile_request bodies r) (add_profile_read r),
                  (
                    λ r w h. ground arith,
                    (
                      λ r w h. seen_refused (decode_show_profile_request r) (ground arith),
                      (
                        λ r w h. seen_refused (decode_delete_profile_request r) (ground arith),
                        (
                          λ r w h.
                              seen_refused (decode_add_workflow_request bodies r)
                                (add_workflow_read r),
                          (λ r w h. ground arith, tt),
                        ),
                      ),
                    ),
                  ),
                ),
              ),
            ),
          ),
        ),
      ),
    ),
  )

  -- For every route of the table of the administrator's API, a request that has the variables of
  -- the route's pattern is not refused as badly routed by the decoder of the route's handler: the
  -- handlers are over a server that returns what its decoder returns, and the JSON decoders of a
  -- profile and of a workflow return no error for bad routing.
  pub routes_have_their_variables :
      (route : Route W)
      → Mem route (service_handler decoding json message bodies svc)
      → (r : Request) (w : W) → Matched route.pattern r
      → (route.handler r w).0 ≢ err Error.management_bad_routing
  routes_have_their_variables route m =
      reads route (service_handler decoding json message bodies svc) m all_read
