-- ===== src/Tests/Web.antt =====
-- go-kit's server, the status of a reply, and encodings, as concrete functions.
use micromdm.Base.{
  ℕ, String, none, some, List, [], ◌∷◌, ◌++◌, Error, Result, ok, err, panic, Action, refl,
}
use micromdm.Workflow.Model.{Profile}
use micromdm.Http.Reply.{Call, set_header, write_header, write, Json, Written, IsStatus}
use micromdm.Http.Server.{Request, Kit, IsKit}
use micromdm.Management.Transport.{Bodies}

abbrev encoded_as : (Error → List Call) → List Call → Result (Unit {0}) → Result (List Call)
encoded_as ee cs (ok _) = ok cs
encoded_as ee cs (err e) = ok (cs ++ ee (Error.kit e))
encoded_as ee cs panic = panic

abbrev replied : {B : Type 0} → (B → Written) → (Error → List Call) → Result B → Result (List Call)
replied enc ee (ok b) = encoded_as ee (enc b).calls (enc b).outcome
replied enc ee (err e) = ok (ee (Error.kit e))
replied enc ee panic = panic

abbrev run :
    {W A B : Type 0}
    → (A → Action W B)
    → (B → Written)
    → (Error → List Call)
    → Result A
    → Action W (List Call)
run f enc ee (ok a) w = (replied enc ee (f a w).0, (f a w).1)
run f enc ee (err e) w = (ok (ee (Error.kit e)), w)
run f enc ee panic w = (panic, w)

abbrev pub kit : {W : Type 0} → Kit W
kit {W} = record { serve = λ A B f d enc ee r. run f enc ee (d r) }

pub kit-IsKit : {W : Type 0} → IsKit (kit {W = W})
kit-IsKit = record {
  undecoded = λ A B f d enc ee r w e h. rw h;
  undecoded_panic = λ A B f d enc ee r w h. rw h;
  answered = λ A B f d enc ee r w w' a b h k o. rw (h, k, o);
  unencoded = λ A B f d enc ee r w w' a b e h k o. rw (h, k, o);
  crashed = λ A B f d enc ee r w w' a h k. rw (h, k);
}

abbrev pub status : List Call → ℕ
status [] = 200
status (set_header k v ∷ cs) = status cs
status (write_header n ∷ cs) = n
status (write s ∷ cs) = 200

pub status-IsStatus : IsStatus status
status-IsStatus = record {
  nothing_sent = refl;
  header = λ k v cs. refl;
  explicit = λ n cs. refl;
  implicit = λ s cs. refl;
}

abbrev pub json : Json
json = record { encode = λ A a. ok "{}"; indent = λ A a. ok "[]" }

abbrev pub message : Error → String
message e = "error"

abbrev pub wifi : Profile
wifi = record { uuid = ""; payload_identifier = "wifi"; profile_data = "data" }

abbrev pub bodies : Bodies
bodies = record {
  profile = λ b. record { value = some wifi; error = none };
  workflow = λ b. record { value = none; error = some Error.eof };
  workflow_uuid = λ b. record { value = none; error = none };
  uuid = λ u b. record { value = u; error = none };
}

abbrev pub uuid : String
uuid = "00000000-0000-0000-0000-000000000000"

-- Every variable is the UUID.
abbrev pub web_request : Request
web_request = record { vars = λ v. some uuid; body = ok "body" }
