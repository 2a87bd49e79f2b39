-- ===== src/Management/Conflict.antt =====
-- A profile whose payload identifier is stored already: management/transport.go down to the tables.
use micromdm.Base.{
  ℕ, String, string_dec, Bool, true, none, some, List, [], ◌∷◌, Error, err, ◌≡◌, ◌≢◌, refl, sym, ap,
  arith, ◌+◌,
}
use mathlib.Core.Path.{subst}
use micromdm.Services.Sql.{Row, Value, text, same}
use micromdm.Services.Backend.{Backend, tables, clash, clashes, exists_same, insert}
use micromdm.Workflow.Model.{Profile}
use micromdm.Workflow.Datastore as WorkflowStore
use micromdm.Workflow.Datastore.{create_profile}
use micromdm.Device.Datastore as DeviceStore
use micromdm.Application.Datastore as ApplicationStore
use micromdm.Certificate.Datastore as CertificateStore
use micromdm.Http.Reply.{Json, Call, Answers, IsStatus}
use micromdm.Http.Server.{Request, Kit, IsKit}
use micromdm.Management.Service.{Service, Apple, new_service, add_profile}
use micromdm.Management.Endpoint.{add_profile_endpoint}
use micromdm.Management.Shape.{add_profile_shape}
use micromdm.Management.Transport.{Bodies, decode_add_profile_request}
use micromdm.Management.Routes.{add_profile_handler}
use micromdm.Management.Replies.{failed}

clashes_with_same :
    (c : String) (v : Value) (r : Row) (rs : List Row)
    → r c ≡ v
    → exists_same c v rs ≡ true
    → clashes (c ∷ []) r rs ≡ true
unfolding clashes clash exists_same
clashes_with_same c v r [] e h = h
clashes_with_same c v r (s ∷ rs) e h =
    ground (arith, e, h, ap (λ x. same x (s c)) e, clashes_with_same c v r rs e)

create_existing :
    (p : Profile) (b : Backend)
    → exists_same "payload_identifier" (text p.payload_identifier) (b.rows "profiles") ≡ true
    → create_profile tables p b ≡ (err Error.exists, record b { issued = b.issued + 1 })
unfolding create_profile insert string_dec
create_existing p b h = rw (
    clashes_with_same "payload_identifier" (text p.payload_identifier) _ (b.rows "profiles") refl h)

module _ (kit : Kit Backend) (lawful : IsKit kit) (json : Json) (message : Error → String)
    (bodies : Bodies) (status : List Call → ℕ) (http : IsStatus status) (is_valid : String → Bool)
    (apple : Apple Backend) (apps_db : ApplicationStore.Datastore Backend) where
  abbrev svc : Service Backend
  svc =
      new_service (DeviceStore.pg_store tables) (WorkflowStore.pg_store tables) is_valid apple
        apps_db (CertificateStore.pg_store tables)

  -- A POST of a profile over the reference tables, where a stored profile has its payload
  -- identifier: the client gets status 409, and no table changes. The body decodes to the profile,
  -- and its identifier is not empty; go-kit's server and the status of a reply are as documented.
  pub existing_profile_is_409 :
      (r : Request) (p : Profile) (b : Backend)
      → bodies.profile r.body ≡ record { value = some p; error = none }
      → p.payload_identifier ≢ ""
      → exists_same "payload_identifier" (text p.payload_identifier) (b.rows "profiles") ≡ true
      → let (x, b') = add_profile_handler kit json message bodies svc r b in
        Answers status 409 x × (b'.rows ≡ b.rows)
  unfolding decode_add_profile_request add_profile_endpoint add_profile
  existing_profile_is_409 r p b body named stored =
      let b' : Backend = record b { issued = b.issued + 1 } in
      let eq =
        failed kit lawful json message (add_profile_endpoint svc)
          (decode_add_profile_request bodies) (add_profile_shape json) r b b'
          (record { profile = p }) (record { profile = none; error = some Error.exists })
          Error.exists (ground (arith, body, named)) (rw (create_existing p b stored)) refl in
      subst (λ z. Answers status 409 z.0 × ((z.1).rows ≡ b.rows)) (sym eq) (http.explicit _ _, refl)
