-- ===== src/Connect/Refinement.antt =====
-- The connect service in any world that behaves like the reference model: each request ends as it
-- ends over the model.
use micromdm.Base.{
  ℕ, zero, suc, String, ◌==◌, List, [], ◌∷◌, Result, ok, err, panic, Action, Option, none, some,
}
use micromdm.Mdm.{Response, Payload, QueryResponses, InstalledApplication}
use micromdm.Services.Sql.{Postgres}
use micromdm.Services.Backend.{Backend, tables}
use micromdm.Services.Lawful.{
  World, Behaves, pure-Behaves, return-Behaves, raise-Behaves, bind-Behaves, attempt-Behaves,
  if-Behaves, wrapping-Behaves, respond-Behaves, IsPostgres,
}
use micromdm.Device.Model.{Device}
use micromdm.Device.Datastore as DeviceStore
use micromdm.Device.Refinement as DeviceRefinement
use micromdm.Application.Datastore as ApplicationStore
use micromdm.Application.Datastore.{DeviceApplication, new_device_app, delete_device_applications}
use micromdm.Certificate.Datastore as CertificateStore
use micromdm.Certificate.Datastore.{
  Certificate, replace_certificates_by_device_uuid, replace_in, insert_all, or_roll_back, must,
  insert_certificate_stmt, certificate_values,
}
use micromdm.Command.Service as Command
use micromdm.Command.Refinement as CommandRefinement
use micromdm.Connect.Service.{
  Service, check_requeue, save_responses, insert_applications, ack_installed_application_list,
  dispatch, when_empty, acknowledge, next_command, fail_command, new_service, with_responses,
  reported_application,
}
use micromdm.Connect.Endpoint.{
  nothing, failed, send_rest, after_acknowledge, after_fail, handle, for_user, connect_endpoint,
}

module _ {W : Type 0} {o : World W} {store : Postgres W} (lawful : IsPostgres o store) where
  or_roll_back-Behaves :
      {m : Action W (Unit {0})} {m' : Action Backend (Unit {0})} (r : Result String)
      → Behaves o m m'
      → Behaves o (or_roll_back store m r) (or_roll_back tables m' r)
  or_roll_back-Behaves (ok id) h = h
  or_roll_back-Behaves (err e) h =
      bind-Behaves (attempt-Behaves lawful.rollback) (λ _. raise-Behaves e)
  or_roll_back-Behaves panic h = return-Behaves panic

  insert_all-Behaves :
      (cs : List Certificate) → Behaves o (insert_all store cs) (insert_all tables cs)
  insert_all-Behaves [] = bind-Behaves (attempt-Behaves lawful.commit) (λ _. pure-Behaves tt)
  insert_all-Behaves (c ∷ cs) =
      bind-Behaves
        (attempt-Behaves (lawful.query_row insert_certificate_stmt (certificate_values c)))
        (λ r. or_roll_back-Behaves r (insert_all-Behaves cs))

  must-Behaves : (r : Result (Unit {0})) → Behaves o (must store r) (must tables r)
  must-Behaves (ok _) = pure-Behaves tt
  must-Behaves (err e) = return-Behaves panic
  must-Behaves panic = return-Behaves panic

  replace_in-Behaves :
      (id : String) (cs : List Certificate) (r : Result (Unit {0}))
      → Behaves o (replace_in store id cs r) (replace_in tables id cs r)
  replace_in-Behaves id cs (ok _) =
      bind-Behaves (attempt-Behaves (lawful.delete "devices_certificates" _))
        (λ r. bind-Behaves (must-Behaves r) (λ _. insert_all-Behaves cs))
  replace_in-Behaves id cs (err e) = return-Behaves panic
  replace_in-Behaves id cs panic = return-Behaves panic

  pub replace_certificates-Behaves :
      (id : String) (cs : List Certificate)
      → Behaves o
          (replace_certificates_by_device_uuid store id cs)
          (replace_certificates_by_device_uuid tables id cs)
  unfolding replace_certificates_by_device_uuid
  replace_certificates-Behaves id cs =
      bind-Behaves (attempt-Behaves lawful.begin) (replace_in-Behaves id cs)

-- What the service uses of the stores of applications and certificates.
pub record IsInventory {W : Type 0} (o : World W) (apps : ApplicationStore.Datastore W)
    (apps' : ApplicationStore.Datastore Backend) (certs : CertificateStore.Datastore W)
    (certs' : CertificateStore.Datastore Backend) : Type 0 where
  pub new_device_app :
      (a : DeviceApplication) → Behaves o (apps.new_device_app a) (apps'.new_device_app a)
  pub delete_device_applications :
      (id : String)
      → Behaves o (apps.delete_device_applications id) (apps'.delete_device_applications id)
  pub replace_certificates :
      (id : String) (cs : List Certificate)
      → Behaves o
          (certs.replace_certificates_by_device_uuid id cs)
          (certs'.replace_certificates_by_device_uuid id cs)

module _ {W : Type 0} {o : World W} {devices : DeviceStore.Datastore W}
    {devices' : DeviceStore.Datastore Backend} {apps : ApplicationStore.Datastore W}
    {apps' : ApplicationStore.Datastore Backend} {certs : CertificateStore.Datastore W}
    {certs' : CertificateStore.Datastore Backend} {commands : Command.Service W}
    {commands' : Command.Service Backend} (marshal : QueryResponses → Result String)
    {now : Action W ℕ} {now' : Action Backend ℕ}
    (ds : DeviceRefinement.IsDatastore o devices devices')
    (inv : IsInventory o apps apps' certs certs')
    (cs : CommandRefinement.IsService o commands commands') (clock : Behaves o now now') where
  check_requeue-Behaves :
      (u : String)
      → Behaves o
          (check_requeue devices apps certs commands marshal now u)
          (check_requeue devices' apps' certs' commands' marshal now' u)
  unfolding check_requeue
  check_requeue-Behaves u =
      bind-Behaves (wrapping-Behaves "check and requeue" (ds.get_device_by_udid u _)) (λ d.
        if-Behaves d.awaiting_configuration (bind-Behaves (cs.new_command _) (λ _. pure-Behaves 1))
          (pure-Behaves 0))

  save_responses-Behaves :
      (req : Response) (found : List Device)
      → Behaves o
          (save_responses devices apps certs commands marshal now req found)
          (save_responses devices' apps' certs' commands' marshal now' req found)
  save_responses-Behaves req [] = raise-Behaves _
  save_responses-Behaves req (d ∷ []) = bind-Behaves clock (λ t.
      bind-Behaves (return-Behaves (marshal req.query_responses))
        (λ report. ds.save "queryResponses" (with_responses req.query_responses report t d)))
  save_responses-Behaves req (_ ∷ _ ∷ _) = raise-Behaves _

  insert_applications-Behaves :
      (id : String) (as_ : List InstalledApplication)
      → Behaves o
          (insert_applications devices apps certs commands marshal now id as_)
          (insert_applications devices' apps' certs' commands' marshal now' id as_)
  insert_applications-Behaves id [] = pure-Behaves tt
  insert_applications-Behaves id (a ∷ as_) =
      bind-Behaves
        (wrapping-Behaves "inserting an application for device"
          (inv.new_device_app (reported_application id a)))
        (λ _. insert_applications-Behaves id as_)

  pub ack_installed_application_list-Behaves :
      (req : Response)
      → Behaves o
          (ack_installed_application_list devices apps certs commands marshal now req)
          (ack_installed_application_list devices' apps' certs' commands' marshal now' req)
  unfolding ack_installed_application_list
  ack_installed_application_list-Behaves req =
      bind-Behaves
        (wrapping-Behaves "getting a device record by udid" (ds.get_device_by_udid req.udid _))
        (λ d.
          bind-Behaves
            (wrapping-Behaves "clearing applications for device"
              (inv.delete_device_applications d.uuid))
            (λ _. insert_applications-Behaves d.uuid req.installed_applications))

  dispatch-Behaves :
      (req : Response) (r : Result Payload)
      → Behaves o
          (dispatch devices apps certs commands marshal now req r)
          (dispatch devices' apps' certs' commands' marshal now' req r)
  unfolding dispatch
  dispatch-Behaves req (ok p) =
      if-Behaves (p.request_type == "DeviceInformation")
        (bind-Behaves (wrapping-Behaves "ackQueryResponses fetching device" (ds.devices _))
          (save_responses-Behaves req))
        (if-Behaves (p.request_type == "InstalledApplicationList")
          (ack_installed_application_list-Behaves req)
          (if-Behaves (p.request_type == "CertificateList")
            (bind-Behaves
              (wrapping-Behaves "getting a device record by udid"
                (ds.get_device_by_udid req.udid _))
              (λ d. inv.replace_certificates d.uuid _))
            (pure-Behaves tt)))
  dispatch-Behaves req (err e) = return-Behaves panic
  dispatch-Behaves req panic = return-Behaves panic

  when_empty-Behaves :
      (u : String) (n : ℕ)
      → Behaves o
          (when_empty devices apps certs commands marshal now u n)
          (when_empty devices' apps' certs' commands' marshal now' u n)
  when_empty-Behaves u zero = check_requeue-Behaves u
  when_empty-Behaves u (suc n) = pure-Behaves (suc n)

  pub acknowledge-Behaves :
      (req : Response)
      → Behaves o
          (acknowledge devices apps certs commands marshal now req)
          (acknowledge devices' apps' certs' commands' marshal now' req)
  unfolding acknowledge
  acknowledge-Behaves req = bind-Behaves (attempt-Behaves (cs.find req.command_uuid)) (λ r.
      bind-Behaves (dispatch-Behaves req r) (λ _.
        bind-Behaves (cs.delete_command req.udid req.command_uuid) (when_empty-Behaves req.udid)))

  abbrev service : Service W
  service = new_service devices apps certs commands marshal now

  abbrev service' : Service Backend
  service' = new_service devices' apps' certs' commands' marshal now'

  send_rest-Behaves :
      (req : Response) (n : ℕ) → Behaves o (send_rest service req n) (send_rest service' req n)
  unfolding next_command
  send_rest-Behaves req zero = pure-Behaves nothing
  send_rest-Behaves req (suc n) = respond-Behaves _ failed (cs.next_command req.udid)

  after_acknowledge-Behaves :
      (req : Response) (r : Result ℕ)
      → Behaves o (after_acknowledge service req r) (after_acknowledge service' req r)
  after_acknowledge-Behaves req (ok n) =
      if-Behaves (req.request_type == "DeviceConfigured") (pure-Behaves nothing)
        (send_rest-Behaves req n)
  after_acknowledge-Behaves req (err e) = pure-Behaves (failed e)
  after_acknowledge-Behaves req panic = return-Behaves panic

  after_fail-Behaves :
      (req : Response) (r : Result ℕ)
      → Behaves o (after_fail service req r) (after_fail service' req r)
  after_fail-Behaves req (ok n) = send_rest-Behaves req n
  after_fail-Behaves req (err e) = pure-Behaves (failed e)
  after_fail-Behaves req panic = return-Behaves panic

  handle-Behaves : (req : Response) → Behaves o (handle service req) (handle service' req)
  unfolding next_command fail_command
  handle-Behaves req =
      if-Behaves (req.status == "Acknowledged")
        (bind-Behaves (attempt-Behaves (acknowledge-Behaves req)) (after_acknowledge-Behaves req))
        (if-Behaves (req.status == "Idle") (respond-Behaves _ failed (cs.next_command req.udid)) (
          if-Behaves (req.status == "Error")
            (bind-Behaves (attempt-Behaves (cs.delete_command req.udid req.command_uuid))
              (after_fail-Behaves req))
            (pure-Behaves _)))

  for_user-Behaves :
      (u : Option String) (req : Response)
      → Behaves o
          (for_user service u (handle service req))
          (for_user service' u (handle service' req))
  for_user-Behaves (some _) req = pure-Behaves nothing
  for_user-Behaves none req = handle-Behaves req

  pub connect_endpoint-Behaves :
      (req : Response) → Behaves o (connect_endpoint service req) (connect_endpoint service' req)
  unfolding connect_endpoint
  connect_endpoint-Behaves req = for_user-Behaves req.user_id req
