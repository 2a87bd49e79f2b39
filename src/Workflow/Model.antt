-- ===== src/Workflow/Model.antt =====
-- workflow/workflow.go and workflow/profile.go
use micromdm.Base.{String, ◌==◌, Bool, true, false, List, [], ◌∷◌, if◌then◌else◌}

pub record Profile : Type 0 where
  pub uuid : String
  pub payload_identifier : String
  pub profile_data : String

pub record Workflow : Type 0 where
  pub uuid : String
  pub name : String
  pub profiles : List Profile

abbrev pub any_profile : List Profile → String → Bool
any_profile [] pi = false
any_profile (p ∷ ps) pi = if p.payload_identifier == pi then true else any_profile ps pi

-- `HasProfile`
abbrev pub has_profile : Workflow → String → Bool
has_profile wf pi = any_profile wf.profiles pi
