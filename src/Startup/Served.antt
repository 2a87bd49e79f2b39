-- ===== src/Startup/Served.antt =====
-- main.go from line 190 on: what listens once the services are started.
use mathlib.Core.Path.{subst}
use micromdm.Base.{
  String, ◌<>◌, ◌==◌, ◌&&◌, true, not, Option, none, some, List, [], ◌∷◌, ◌++◌, map, Action,
  if◌then◌else◌, ◌≡◌, ◌≢◌, ◌⊎◌, inl, inr, refl, ap, ◌∙◌, Bool-cases, if_cases, arith,
}
use mathlib.Core.List.{map-append}
use micromdm.Mdm.{DepDevice}
use micromdm.Device.Datastore as DeviceStore
use micromdm.Workflow.Datastore as WorkflowStore
use micromdm.Command.Datastore as CommandStore
use micromdm.Startup.Outcome.{Start, Outcome}
use micromdm.Startup.Flags.{Flags, check_empty_args}
use micromdm.Startup.System.{System, PushService, Handler, Listening}
use micromdm.Startup.Main.{
  start_services, serve, dep_client, enroll_handlers, repo_handlers, listening,
}
use micromdm.Startup.Steps.{EndsIn, outcome_went_on, passed, went_on_inj}

-- The credentials are those of depsim, or all are given.
abbrev pub HasCredentials : Flags → Type 0
HasCredentials fl =
    (fl.dep_sim ≡ true)
    ⊎ ((fl.dep_ck ≢ "") × (fl.dep_cs ≢ "") × (fl.dep_at ≢ "") × (fl.dep_as ≢ ""))

abbrev pub enroll_patterns : Flags → List String
enroll_patterns fl = if check_empty_args (fl.url ∷ fl.scep_url ∷ []) then [] else "/mdm/enroll" ∷ []

abbrev pub repo_patterns : Flags → List String
repo_patterns fl = if fl.pkg_repo == "" then [] else "/repo/" ∷ []

-- What listens, for the flags.
abbrev pub Serves : {W : Type 0} → Flags → Listening W → Type 0
Serves fl l =
    (l.address ≡ ":" <> fl.port)
    × (l.tls ≡ (if fl.tls then some (fl.tls_cert, fl.tls_key) else none))
    × (map (λ p. p.0) l.mux
        ≡ "/management/v1/"
          ∷ "/mdm/commands"
          ∷ "/mdm/commands/"
          ∷ "/mdm/checkin"
          ∷ "/mdm/connect"
          ∷ (enroll_patterns fl ++ repo_patterns fl))

module _ {W Identity Client : Type 0} (s : System W Identity Client) where
  -- What `serve` is given, and what listens.
  abbrev Given : Flags → List (String × Handler W) → Listening W → Type 0
  Given fl mux l =
      (l.address ≡ ":" <> fl.port)
      × (l.tls ≡ (if fl.tls then some (fl.tls_cert, fl.tls_key) else none))
      × (l.mux ≡ mux)

  given :
      (fl : Flags) (tls : Option (String × String)) (mux : List (String × Handler W))
      (cors : Option String) (l : Listening W)
      → tls ≡ (if fl.tls then some (fl.tls_cert, fl.tls_key) else none)
      → Outcome.went_on (listening fl tls mux cors) ≡ Outcome.went_on l
      → Given fl mux l
  given fl tls mux cors l chosen h = subst (Given fl mux) (went_on_inj h) (refl, chosen, refl)

  served :
      (fl : Flags) (mux : List (String × Handler W)) (cors : Option String) (w w' : W)
      (l : Listening W)
      → EndsIn (serve s fl mux cors) w l w'
      → Given fl mux l
  unfolding serve
  served fl mux cors w w' l h =
      elim (if_cases (λ (m : Start W (Listening W)). EndsIn m w l w') fl.tls h) [
        | inl (on, k) ↦
            let (_, _, h1) = outcome_went_on _ _ _ w' l k in
            let (_, _, h2) = outcome_went_on _ _ _ w' l h1 in
            let (_, _, h3) = outcome_went_on _ _ _ w' l h2 in
            given fl _ mux cors l (rw on) (ap (λ z. z.0) h3)
        | inr (off, k) ↦ given fl _ mux cors l (rw off) (ap (λ z. z.0) k)
      ]

  enrolled :
      (fl : Flags) (w w' : W) (hs : List (String × Handler W))
      → EndsIn (enroll_handlers s fl) w hs w'
      → map (λ p. p.0) hs ≡ enroll_patterns fl
  unfolding enroll_handlers
  enrolled fl w w' hs h =
      elim (if_cases (λ (m : Start W (List (String × Handler W))). EndsIn m w hs w')
        (check_empty_args (fl.url ∷ fl.scep_url ∷ [])) h) [
          | inl (empty, k) ↦
              subst (λ z. map (λ p. p.0) z ≡ enroll_patterns fl) (went_on_inj (ap (λ z. z.0) k))
                (rw empty)
          | inr (full, k) ↦
              let (_, _, h1) = outcome_went_on _ _ _ w' hs k in
              subst (λ z. map (λ p. p.0) z ≡ enroll_patterns fl) (went_on_inj (ap (λ z. z.0) h1))
                (rw full)
        ]

  enrolled_by :
      (fl : Flags) (w : W) (hs : List (String × Handler W))
      → (enroll_handlers s fl w).0 ≡ Outcome.went_on hs
      → map (λ p. p.0) hs ≡ enroll_patterns fl
  enrolled_by fl w hs h =
      enrolled fl w (enroll_handlers s fl w).1 hs (ap (λ o. (o, (enroll_handlers s fl w).1)) h)

  rest_listed :
      (fl : Flags) (hs : List (String × Handler W))
      → map (λ p. p.0) hs ≡ enroll_patterns fl
      → map (λ p. p.0) (hs ++ repo_handlers s fl) ≡ enroll_patterns fl ++ repo_patterns fl
  rest_listed fl hs h =
      let repo : map (λ p. p.0) (repo_handlers s fl) ≡ repo_patterns fl = ground arith in
      map-append (λ p. p.0) hs (repo_handlers s fl) ∙ rw (h, repo)

  -- The credentials are checked before the client is made.
  credentials :
      (fl : Flags) (w w' : W) (client : Action W (List DepDevice))
      → EndsIn (dep_client s fl) w client w'
      → HasCredentials fl
  unfolding dep_client check_empty_args
  credentials fl w w' client h =
      let (_, checked, _) = outcome_went_on _ _ _ w' client h in
      let all =
        passed
          (not fl.dep_sim && check_empty_args (fl.dep_ck ∷ fl.dep_cs ∷ fl.dep_at ∷ fl.dep_as ∷ []))
          _ checked in
      elim (Bool-cases fl.dep_sim) [
        | inl sim ↦ inl sim
        | inr off ↦ inr (
          ground (arith, all, off),
          ground (arith, all, off),
          ground (arith, all, off),
          ground (arith, all, off),
        )
      ]

  credentials_by :
      (fl : Flags) (w : W) (client : Action W (List DepDevice))
      → (dep_client s fl w).0 ≡ Outcome.went_on client
      → HasCredentials fl
  credentials_by fl w client h =
      credentials fl w (dep_client s fl w).1 client (ap (λ o. (o, (dep_client s fl w).1)) h)

  pub services_went_on :
      (fl : Flags) (profile : String) (push : PushService Client)
      (device_db : DeviceStore.Datastore W) (workflow_db : WorkflowStore.Datastore W)
      (command_db : CommandStore.Datastore W) (w w' : W) (l : Listening W)
      → EndsIn (start_services s fl profile push device_db workflow_db command_db) w l w'
      → HasCredentials fl × Serves fl l
  unfolding start_services
  services_went_on fl profile push device_db workflow_db command_db w w' l h =
      let (_, _, h1) = outcome_went_on _ _ _ w' l h in
      let (_, _, h2) = outcome_went_on _ _ _ w' l h1 in
      let (_, dep, h3) = outcome_went_on _ _ _ w' l h2 in
      let (hs, enroll, h4) = outcome_went_on _ _ _ w' l h3 in
      let (address, tls, mux) = served fl _ _ _ w' l h4 in
      (
        credentials_by fl _ _ dep,
        (
          address,
          tls,
          ap (map (λ p. p.0)) mux
              ∙ ap
                  (λ z.
                    "/management/v1/" ∷ "/mdm/commands" ∷ "/mdm/commands/" ∷ "/mdm/checkin"
                    ∷ "/mdm/connect" ∷ z)
                  (rest_listed fl hs (enrolled_by fl _ hs enroll)),
        ),
      )
