-- ===== src/Tests/Workflow.antt =====
-- The update of a workflow's profiles, over the reference tables.
use micromdm.Base.{String, string_dec, ◌==◌, true, [], ◌∷◌, ok, ◌≡◌, refl, arith, if◌then◌else◌}
use micromdm.Services.Sql.{Row, text, null}
use micromdm.Services.Backend.{Backend, tables, clash, clashes, distinct, exists_same, all_refer}
use micromdm.Workflow.Model.{Profile, Workflow}
use micromdm.Workflow.Datastore.{update_profiles}
use micromdm.Workflow.Links.{any_uuid, update_links}
use micromdm.Workflow.LinkRows.{linked, linked_in, may_link}
use micromdm.Workflow.Tables.{tables-IsLinkTable}
use micromdm.Tests.Data.{server}

abbrev workflow_row : Row
workflow_row c = if c == "workflow_uuid" then text "workflow-1" else null

abbrev profile_row : String → Row
profile_row id c = if c == "profile_uuid" then text id else null

abbrev link_row : String → Row
link_row id c =
    if c == "workflow_uuid"
    then text "workflow-1"
    else if c == "profile_uuid"
    then text id
    else null

-- A workflow with two of three profiles.
abbrev office : Backend
office = record server {
  rows = λ t.
      if t == "workflows"
      then workflow_row ∷ []
      else if t == "profiles"
      then profile_row "id-1" ∷ profile_row "id-2" ∷ profile_row "id-3" ∷ []
      else if t == "workflow_profile"
      then link_row "id-1" ∷ link_row "id-2" ∷ []
      else [];
}

abbrev profile : String → String → Profile
profile uuid identifier = record { uuid = uuid; payload_identifier = identifier; profile_data = "" }

abbrev stored : Workflow
stored = record {
  uuid = "workflow-1";
  name = "office";
  profiles = profile "id-1" "wifi" ∷ profile "id-2" "vpn" ∷ [];
}

abbrev updated : Workflow
updated = record stored { profiles = profile "id-2" "vpn" ∷ profile "id-3" "mail" ∷ [] }

stored_linked : (v : String) → linked "workflow-1" office v ≡ any_uuid stored.profiles v
unfolding linked_in any_uuid string_dec
stored_linked v = refl

updated_known :
    (u : String) → any_uuid updated.profiles u ≡ true → may_link "workflow-1" office u ≡ true
unfolding any_uuid string_dec clash clashes distinct exists_same all_refer
updated_known u h = ground (arith, h)

update_links_example :
    let (r, w') = update_profiles tables updated stored office in
    (r ≡ ok tt) × ((v : String) → linked "workflow-1" w' v ≡ any_uuid updated.profiles v)
unfolding any_uuid string_dec
update_links_example =
    update_links tables (linked "workflow-1") (may_link "workflow-1") updated stored
      (tables-IsLinkTable "workflow-1") office stored_linked updated_known (refl, (refl, tt))
      (refl, (refl, tt))
