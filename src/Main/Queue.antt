-- ===== src/Main/Queue.antt =====
-- Single requests to /mdm/connect over the reference model (connect/endpoint.go,
-- connect/service.go).
use micromdm.Base.{
  ℕ, suc, String, false, List, [], ◌∷◌, ◌++◌, none, some, Result, ok, panic, Action, ◌≡◌, ◌≢◌, ap,
  ◌∙◌, arith, length, resume, string_dec,
}
use package.text.Mathlib.TextEquality.{eq_iff}
use micromdm.Mdm.{CommandRequest, Payload, DepDevice, Response}
use micromdm.Services.Sql.{Row, text, bool, same}
use micromdm.Services.Backend.{Backend, list, str, cache, without, first}
use micromdm.Command.Datastore.{next_command, delete_command, find}
use micromdm.Command.Queue.{
  waiting, next_command-Rotated, delete_command-Deleted, delete_command-rows, next_command-rows,
}
use micromdm.Device.Datastore.{get_device_by_udid}
use micromdm.Device.Columns.{scan_device}
use micromdm.Connect.Service.{
  acknowledge, dispatch, check_requeue, when_empty, fail_command, requeue,
}
use micromdm.Connect.Service as ConnectService
use micromdm.Command.Cycle.{elements-eq-ok}
use micromdm.Connect.Endpoint.{nothing, sent, connect_endpoint}
use micromdm.Main.Server.{
  Library, Environment, model, connect_svc, command_svc, device_db, apps_db, certs_db,
}

idle_other : ◌≢◌ {A = String} "Idle" "Acknowledged"
idle_other = ground (arith, eq_iff "Idle" "Acknowledged")

-- The request types that `Acknowledge` stores a result for.
abbrev pub IsPlain : Payload → Type 0
IsPlain p =
    (p.request_type ≢ "DeviceInformation")
    × (p.request_type ≢ "InstalledApplicationList")
    × (p.request_type ≢ "CertificateList")

-- A request of a device that reports a command as done.
abbrev pub IsAck : Response → Type 0
IsAck req =
    (req.user_id ≡ none) × (req.status ≡ "Acknowledged") × (req.request_type ≢ "DeviceConfigured")

module _ (l : Library) (build : String → CommandRequest → Result Payload)
    (fetched : List DepDevice) where
  abbrev e : Environment Backend
  e = model build fetched

  pub resume_ok :
      {n : ℕ} (r : Result ℕ) (f : ℕ → Action Backend ℕ) (d : Backend)
      → r ≡ ok n
      → resume r f d ≡ f n d
  resume_ok r f d h = rw h

  -- Acknowledging a plain command is deleting it, and then looking at what is left.
  pub ack_plain :
      (req : Response) (s : String) (p : Payload) (b : Backend)
      → b.entry req.command_uuid ≡ some (str s)
      → l.plist.decode s ≡ ok p
      → IsPlain p
      → let d = delete_command cache l.plist req.udid req.command_uuid b in
        (connect_svc l e).acknowledge req b
        ≡ resume d.0
            (when_empty
              (device_db l e)
              (apps_db l e)
              (certs_db l e)
              (command_svc l e)
              l.marshal
              e.now
              req.udid)
            d.1
  unfolding acknowledge dispatch find
  ack_plain req s p b stored decoded plain = ground arith

  pub ack_unknown :
      (req : Response) (b : Backend)
      → b.entry req.command_uuid ≡ none
      → (connect_svc l e).acknowledge req b ≡ (panic, b)
  unfolding acknowledge dispatch find
  ack_unknown req b missing = ground arith

  pub requeue_settled :
      (u : String) (r : Row) (b : Backend)
      → first (λ q. same (q "udid") (text u)) (b.rows "devices") ≡ some r
      → r "awaiting_configuration" ≡ bool false
      → check_requeue
          (device_db l e)
          (apps_db l e)
          (certs_db l e)
          (command_svc l e)
          l.marshal
          e.now
          u
          b
        ≡ (ok 0, b)
  unfolding check_requeue get_device_by_udid scan_device string_dec
  requeue_settled u r b found settled = ground arith

  pub endpoint_ack :
      (req : Response) (n m : ℕ) (t : String) (b d : Backend)
      → IsAck req
      → (connect_svc l e).acknowledge req b ≡ (ok (suc n), d)
      → (next_command cache l.plist req.udid d).0 ≡ ok (t, m)
      → connect_endpoint (connect_svc l e) req b
        ≡ (ok (sent t), (next_command cache l.plist req.udid d).1)
  unfolding connect_endpoint ConnectService.next_command
  endpoint_ack req n m t b d h a r = ground arith

  endpoint_ack_done :
      (req : Response) (b d : Backend)
      → IsAck req
      → (connect_svc l e).acknowledge req b ≡ (ok 0, d)
      → connect_endpoint (connect_svc l e) req b ≡ (ok nothing, d)
  unfolding connect_endpoint
  endpoint_ack_done req b d h a = ground arith

  -- The reply to an acknowledgement where `y` waits next.
  pub ack_next :
      (req : Response) (s t y : String) (ys qs : List String) (p : Payload) (b : Backend)
      → IsAck req
      → b.entry req.udid ≡ some (list qs)
      → without req.command_uuid qs ≡ y ∷ ys
      → b.entry req.command_uuid ≡ some (str s)
      → l.plist.decode s ≡ ok p
      → IsPlain p
      → b.entry y ≡ some (str t)
      → let (r, c) = connect_endpoint (connect_svc l e) req b in
        (r ≡ ok (sent t))
        × (waiting c req.udid ≡ ok (ys ++ (y ∷ [])))
        × ((k : String) → k ≢ req.udid → c.entry k ≡ b.entry k)
        × (c.rows ≡ b.rows)
  ack_next req s t y ys qs p b acked queue left stored decoded plain next =
      let a = ack_plain req s p b stored decoded plain in
      let (n, w, _, same_d) = delete_command-Deleted l.plist req.udid req.command_uuid qs b queue in
      let d = (delete_command cache l.plist req.udid req.command_uuid b).1 in
      let y-ne : y ≢ req.udid = λ q. cc (ap b.entry q) in
      let (r, q, same_c) =
        next_command-Rotated l.plist req.udid y t ys d (elements-eq-ok _ y ys (w ∙ ap ok left))
          (same_d y y-ne ∙ next) in
      let eq =
        endpoint_ack req (length ys) (length (y ∷ ys)) t b d acked
          (a ∙ resume_ok _ _ d (n ∙ ap ok (ap length left))) r in
      (
        ap (λ z. z.0) eq,
        ap (λ z. waiting z.1 req.udid) eq ∙ q,
        λ k h. ap (λ z. z.1.entry k) eq ∙ same_c k h ∙ same_d k h,
        ap (λ z. z.1.rows) eq
            ∙ next_command-rows l.plist req.udid y ys d (elements-eq-ok _ y ys (w ∙ ap ok left))
            ∙ delete_command-rows l.plist req.udid req.command_uuid qs b queue,
      )

  -- The reply to an acknowledgement of the last command of a device that awaits no configuration.
  pub ack_last :
      (req : Response) (s : String) (qs : List String) (p : Payload) (r : Row) (b : Backend)
      → IsAck req
      → b.entry req.udid ≡ some (list qs)
      → without req.command_uuid qs ≡ []
      → b.entry req.command_uuid ≡ some (str s)
      → l.plist.decode s ≡ ok p
      → IsPlain p
      → first (λ q. same (q "udid") (text req.udid)) (b.rows "devices") ≡ some r
      → r "awaiting_configuration" ≡ bool false
      → let (x, c) = connect_endpoint (connect_svc l e) req b in
        (x ≡ ok nothing) × (waiting c req.udid ≡ ok [])
  ack_last req s qs p row b acked queue left stored decoded plain found settled =
      let a = ack_plain req s p b stored decoded plain in
      let (n, w, _, _) = delete_command-Deleted l.plist req.udid req.command_uuid qs b queue in
      let d = (delete_command cache l.plist req.udid req.command_uuid b).1 in
      let eq = endpoint_ack_done req b d acked (
        a
        ∙ resume_ok _ _ d (n ∙ ap ok (ap length left))
        ∙ requeue_settled req.udid row d
            (ap (λ t. first (λ q. same (q "udid") (text req.udid)) (t "devices"))
                (delete_command-rows l.plist req.udid req.command_uuid qs b queue)
              ∙ found)
            settled) in
      (ap (λ z. z.0) eq, ap (λ z. waiting z.1 req.udid) eq ∙ w ∙ ap ok left)

  endpoint_idle :
      (req : Response) (n : ℕ) (t : String) (b : Backend)
      → req.user_id ≡ none
      → req.status ≡ "Idle"
      → (next_command cache l.plist req.udid b).0 ≡ ok (t, suc n)
      → connect_endpoint (connect_svc l e) req b
        ≡ (ok (sent t), (next_command cache l.plist req.udid b).1)
  unfolding connect_endpoint ConnectService.next_command
  endpoint_idle req n t b user status r = ground (arith, idle_other)

  -- The reply to an idle device for which `y` waits.
  pub idle_next :
      (req : Response) (t y : String) (ys : List String) (b : Backend)
      → req.user_id ≡ none
      → req.status ≡ "Idle"
      → b.entry req.udid ≡ some (list (y ∷ ys))
      → b.entry y ≡ some (str t)
      → let (r, c) = connect_endpoint (connect_svc l e) req b in
        (r ≡ ok (sent t))
        × (waiting c req.udid ≡ ok (ys ++ (y ∷ [])))
        × ((k : String) → k ≢ req.udid → c.entry k ≡ b.entry k)
        × (c.rows ≡ b.rows)
  idle_next req t y ys b user status queue next =
      let (r, q, same_c) = next_command-Rotated l.plist req.udid y t ys b queue next in
      let eq = endpoint_idle req (length ys) t b user status r in
      (
        ap (λ z. z.0) eq,
        ap (λ z. waiting z.1 req.udid) eq ∙ q,
        λ k h. ap (λ z. z.1.entry k) eq ∙ same_c k h,
        ap (λ z. z.1.rows) eq ∙ next_command-rows l.plist req.udid y ys b queue,
      )
