-- ===== src/Startup/Ready.antt =====
-- What holds of the flags of a server that main.go has brought to listen.
use micromdm.Base.{
  String, ◌==◌, ◌&&◌, false, [], ◌∷◌, ◌≡◌, ◌≢◌, ◌⊎◌, inl, inr, Bool-cases, by_if, if_cases, arith,
}
use micromdm.Device.Datastore as DeviceStore
use micromdm.Workflow.Datastore as WorkflowStore
use micromdm.Command.Datastore as CommandStore
use micromdm.Startup.Outcome.{Start, Outcome}
use micromdm.Startup.Flags.{Flags, flags, check_empty_args, check_tls_flags}
use micromdm.Startup.System.{System, PushService, Listening}
use micromdm.Startup.Main.{
  main, start, start_stores, start_services, with_port, with_pg, with_redis, is_some,
}
use micromdm.Startup.Steps.{EndsIn, exited≢went_on, outcome_went_on, passed}
use micromdm.Startup.Served.{HasCredentials, Serves, services_went_on}

module _ {W Identity Client : Type 0} (s : System W Identity Client) where
  stores_went_on :
      (fl : Flags) (profile : String) (push : PushService Client) (w w' : W) (l : Listening W)
      → EndsIn (start_stores s fl profile push) w l w'
      → ((with_redis s fl).redis_conn ≢ "")
        × ((device_db : DeviceStore.Datastore W) × (workflow_db : WorkflowStore.Datastore W)
            × (command_db : CommandStore.Datastore W) × (w1 : W) × EndsIn
                (start_services s (with_redis s fl) profile push device_db workflow_db command_db)
                w1
                l
                w')
  unfolding start_stores
  stores_went_on fl profile push w w' l h =
      let (_, _, h1) = outcome_went_on _ _ _ w' l h in
      let (workflow_db, _, h2) = outcome_went_on _ _ _ w' l h1 in
      let (device_db, _, h3) = outcome_went_on _ _ _ w' l h2 in
      let (_, redis, h4) = outcome_went_on _ _ _ w' l h3 in
      let (_, _, h5) = outcome_went_on _ _ _ w' l h4 in
      let (command_db, _, h6) = outcome_went_on _ _ _ w' l h5 in
      (
        ground (arith, passed ((with_redis s fl).redis_conn == "") _ redis),
        (device_db, workflow_db, command_db, _, h6),
      )

  start_went_on :
      (fl : Flags) (w w' : W) (l : Listening W)
      → EndsIn (start s fl) w l w'
      → (fl.enrollment ≢ "")
        × ((fl.tls ≡ false) ⊎ ((fl.tls_key ≢ "") × (fl.tls_cert ≢ "")))
        × ((with_pg s fl).pg_conn ≢ "")
        × ((fl.push_cert ≢ "") × (fl.push_pass ≢ ""))
        × ((profile : String) × (push : PushService Client) × (w1 : W) × EndsIn
              (start_stores s (with_pg s fl) profile push)
              w1
              l
              w')
  unfolding start check_tls_flags check_empty_args
  start_went_on fl w w' l h =
      let (_, enrollment, h1) = outcome_went_on _ _ _ w' l h in
      let (profile, _, h2) = outcome_went_on _ _ _ w' l h1 in
      let (_, tls, h3) = outcome_went_on _ _ _ w' l h2 in
      let (_, pg, h4) = outcome_went_on _ _ _ w' l h3 in
      let (_, args, h5) = outcome_went_on _ _ _ w' l h4 in
      let (push, _, h6) = outcome_went_on _ _ _ w' l h5 in
      let checked = passed (fl.tls && is_some s (check_tls_flags fl.tls_key fl.tls_cert)) _ tls in
      let given_args = passed (check_empty_args (fl.push_cert ∷ fl.push_pass ∷ [])) _ args in
      let keys : (fl.tls ≡ false) ⊎ ((fl.tls_key ≢ "") × (fl.tls_cert ≢ "")) =
        elim (Bool-cases fl.tls) [
          | inl on ↦ inr (ground (arith, checked, on), ground (arith, checked, on))
          | inr off ↦ inl off
        ] in
      (
        ground (arith, passed (fl.enrollment == "") _ enrollment),
        keys,
        ground (arith, passed ((with_pg s fl).pg_conn == "") _ pg),
        (ground (arith, given_args), ground (arith, given_args)),
        (profile, push, _, h6),
      )

  -- Everything that a server needs before it listens.
  abbrev pub IsReady : Flags → Listening W → Type 0
  IsReady fl l =
      (fl.version ≡ false)
      × (fl.enrollment ≢ "")
      × ((fl.tls ≡ false) ⊎ ((fl.tls_key ≢ "") × (fl.tls_cert ≢ "")))
      × ((with_pg s fl).pg_conn ≢ "")
      × ((with_redis s fl).redis_conn ≢ "")
      × ((fl.push_cert ≢ "") × (fl.push_pass ≢ ""))
      × HasCredentials fl
      × Serves (with_port fl) l

  -- What the addresses of linked containers leave as it is.
  credentials_settled :
      (fl : Flags) → HasCredentials (with_redis s (with_pg s fl)) → HasCredentials fl
  credentials_settled fl h =
      by_if (λ z. HasCredentials z → HasCredentials fl) _ (λ k. k) (λ k. k)
        (by_if (λ z. HasCredentials z → HasCredentials (with_pg s fl)) _ (λ k. k) (λ k. k) h)

  served_settled :
      (fl : Flags) (l : Listening W) → Serves (with_redis s (with_pg s fl)) l → Serves fl l
  served_settled fl l h =
      by_if (λ z. Serves z l → Serves fl l) _ (λ k. k) (λ k. k)
        (by_if (λ z. Serves z l → Serves (with_pg s fl) l) _ (λ k. k) (λ k. k) h)

  redis_settled :
      (fl : Flags)
      → (with_redis s (with_pg s (with_port fl))).redis_conn ≢ ""
      → (with_redis s fl).redis_conn ≢ ""
  redis_settled fl h = ground (arith, h)

  -- A start that ends in a server that listens: the version was not asked for; the enrollment
  -- profile, both parts of the push certificate, and the addresses of PostgreSQL and Redis are
  -- set, the last two by a flag or by the variables of a linked container; TLS is off, or its key
  -- and certificate are set; the DEP credentials are those of depsim, or all four are given; the
  -- server listens at the flags' port, or the default one, with TLS iff it is on, and its patterns
  -- are the five of the packages, /mdm/enroll iff the URL and the SCEP URL are given, and /repo/
  -- iff there is a package repository.
  pub main-IsReady :
      (w w' : W) (l : Listening W)
      → main s w ≡ (Outcome.went_on l, w')
      → IsReady (flags s.getenv s.parse) l
  unfolding main
  main-IsReady w w' l h =
      let fl0 = flags s.getenv s.parse in
      let fl = with_port fl0 in
      elim (if_cases (λ (m : Start W (Listening W)). EndsIn m w l w') fl0.version h) [
        | inl (shown, k) ↦ elim (exited≢went_on 0 l w w' k) [ ]
        | inr (version, k) ↦
            let (enrollment, keys, pg, args, (profile, push, w1, k1)) = start_went_on fl w w' l k in
            let (redis, (device_db, workflow_db, command_db, w2, k2)) =
              stores_went_on (with_pg s fl) profile push w1 w' l k1 in
            let (dep, serves) =
              services_went_on s (with_redis s (with_pg s fl)) profile push device_db workflow_db
                command_db w2 w' l k2 in
            (
              version,
              enrollment,
              keys,
              ground (arith, pg),
              redis_settled fl0 redis,
              args,
              credentials_settled fl dep,
              served_settled fl l serves,
            )
      ]
