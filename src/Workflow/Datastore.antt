-- ===== src/Workflow/Datastore.antt =====
-- workflow/datastore.go, workflow/workflow_store.go and workflow/profile_store.go: profiles and
-- workflows in PostgreSQL.
use micromdm.Base.{
  String, ◌<>◌, ◌==◌, ◌||◌, none, some, List, [], ◌∷◌, Error, Result, ok, err, panic, Action, pure,
  raise, return, attempt, wrapping, ◌>>=◌, ◌>>◌, if◌then◌else◌, join,
}
use micromdm.Services.Sql.{Value, text, Row, do_nothing, Insert, Join, Select, Postgres}
use micromdm.Workflow.Model.{Profile, Workflow, has_profile}

-- The filters `WrkflowUUID`, `ProfileUUID` and `PayloadIdentifier`, and values of other types.
pub data Param : Type 0 where
  workflow_uuid : String → Param
  profile_uuid : String → Param
  payload_identifier : String → Param
  other : Param

pub record Datastore (W : Type 0) : Type 0 where
  pub create_workflow : Workflow → Action W Workflow
  pub workflows : List Param → Action W (List Workflow)
  pub update_workflow : Workflow → Action W Workflow
  pub create_profile : Profile → Action W Profile
  pub delete_profile : Profile → Action W (Unit {0})
  pub profiles : List Param → Action W (List Profile)

abbrev wheres : List Param → List String
wheres [] = []
wheres (workflow_uuid s ∷ ps) = ("workflow_uuid = '" <> (s <> "'")) ∷ wheres ps
wheres (profile_uuid s ∷ ps) = ("profile_uuid = '" <> (s <> "'")) ∷ wheres ps
wheres (payload_identifier s ∷ ps) = ("payload_identifier = '" <> (s <> "'")) ∷ wheres ps
wheres (other ∷ ps) = wheres ps

-- `addWhereFilters`: the text after WHERE, "" where the statement gets no WHERE.
abbrev pub add_where_filters : List Param → String
add_where_filters params = join "," (wheres params)

-- `createWorkflowStmt`
abbrev create_workflow_stmt : Insert
create_workflow_stmt = record {
  table = "workflows";
  columns = "name" ∷ [];
  on_conflict = do_nothing ("name" ∷ []);
  returning = some "workflow_uuid";
}

-- `selectWorkflowsStmt`
abbrev select_workflows_stmt : Select
select_workflows_stmt = record { table = "workflows"; columns = "workflow_uuid" ∷ "name" ∷ [] }

-- `addProfileStmt` of profile_store.go
abbrev add_profile_stmt : Insert
add_profile_stmt = record {
  table = "profiles";
  columns = "payload_identifier" ∷ "profile_data" ∷ [];
  on_conflict = do_nothing ("payload_identifier" ∷ []);
  returning = some "profile_uuid";
}

-- `selectProfilesStmt`
abbrev select_profiles_stmt : Select
select_profiles_stmt = record {
  table = "profiles";
  columns = "profile_uuid" ∷ "payload_identifier" ∷ "profile_data" ∷ [];
}

-- A text column, which the scan of a NULL into a Go string refuses.
abbrev pub read_text : {W : Type 0} → Value → Action W String
read_text (text s) = pure s
read_text _ = raise (Error.fault "sql: Scan error on column")

module _ {W : Type 0} where
  abbrev pub scan_profile : Row → Action W Profile
  scan_profile r = do
    id ← read_text (r "profile_uuid")
    identifier ← read_text (r "payload_identifier")
    contents ← read_text (r "profile_data")
    pure (record { uuid = id; payload_identifier = identifier; profile_data = contents })

  -- A row of `getProfilesForWorkflowStmt`, which selects no data.
  abbrev pub scan_link : Row → Action W Profile
  scan_link r = do
    id ← read_text (r "profile_uuid")
    identifier ← read_text (r "payload_identifier")
    pure (record { uuid = id; payload_identifier = identifier; profile_data = "" })

  abbrev pub scan_workflow : Row → Action W Workflow
  scan_workflow r = do
    id ← read_text (r "workflow_uuid")
    name ← read_text (r "name")
    pure (record { uuid = id; name = name; profiles = [] })

  abbrev pub traverse : {A B : Type 0} → (A → Action W B) → List A → Action W (List B)
  traverse f [] = pure []
  traverse f (a ∷ as_) = do b ← f a; bs ← traverse f as_; pure (b ∷ bs)

  -- A loop that stops at the first error.
  abbrev pub each : {A : Type 0} → (A → Action W (Unit {0})) → List A → Action W (Unit {0})
  each f [] = pure tt
  each f (a ∷ as_) = f a >> each f as_

-- `getProfilesForWorkflowStmt`. A profile that no row of `workflow_profile` joins has a NULL
-- workflow there, which the WHERE clause drops.
abbrev get_profiles_for_workflow_stmt : Join
get_profiles_for_workflow_stmt = record {
  table = "profiles";
  columns = "profile_uuid" ∷ "payload_identifier" ∷ [];
  joined = "workflow_profile";
  on = "profile_uuid";
}

-- The statement of `addProfile`
abbrev pub link_profile_stmt : Insert
link_profile_stmt = record {
  table = "workflow_profile";
  columns = "workflow_uuid" ∷ "profile_uuid" ∷ [];
  on_conflict = do_nothing ("workflow_uuid" ∷ "profile_uuid" ∷ []);
  returning = none;
}

module _ {W : Type 0} (store : Postgres W) where
  -- `err == sql.ErrNoRows` after an INSERT that does nothing on a conflict.
  abbrev pub created : String → Result String → Action W String
  created message (ok id) = pure id
  created message (err Error.no_rows) = raise Error.exists
  created message (err e) = raise (Error.wrap message e)
  created message panic = return panic

  unfoldable pub create_profile : Profile → Action W Profile
  create_profile prf = do
    result ← attempt (
        store.query_row add_profile_stmt (text prf.payload_identifier ∷ text prf.profile_data ∷ []))
    id ← created "pgStore add profile" result
    pure (record prf { uuid = id })

  unfoldable pub delete_profile : Profile → Action W (Unit {0})
  delete_profile p =
      if p.uuid == "" || p.payload_identifier == ""
      then pure tt
      else wrapping "delete profile"
          (store.delete_where "profiles" (add_where_filters (profile_uuid p.uuid ∷ [])))

  unfoldable pub profiles : List Param → Action W (List Profile)
  profiles params = wrapping "pgStore Profiles" (do
    rows ← store.select select_profiles_stmt (add_where_filters params)
    traverse scan_profile rows)

  -- `addProfile` and `removeProfile` of workflow_store.go
  unfoldable pub add_profile : String → String → Action W (Unit {0})
  add_profile wf_uuid pf_uuid =
      wrapping "pgStore add profile to workflow"
        (store.exec link_profile_stmt (text wf_uuid ∷ text pf_uuid ∷ []))

  unfoldable pub remove_profile : String → String → Action W (Unit {0})
  remove_profile wf_uuid pf_uuid = wrapping "remove profile from workflow" (
      store.delete "workflow_profile" (
        record { column = "workflow_uuid"; value = text wf_uuid }
        ∷ record { column = "profile_uuid"; value = text pf_uuid }
        ∷ []))

  unfoldable pub add_profiles : String → List Profile → Action W (Unit {0})
  unfolding add_profile
  add_profiles wf_uuid ps = each (λ p. add_profile wf_uuid p.uuid) ps

  unfoldable pub create_workflow : Workflow → Action W Workflow
  unfolding add_profiles
  create_workflow wf = do
    result ← attempt (store.query_row create_workflow_stmt (text wf.name ∷ []))
    id ← created "pgStore create workflow" result
    add_profiles id wf.profiles
    pure (record wf { uuid = id })

  unfoldable pub find_profiles_for_workflow : String → Action W (List Profile)
  find_profiles_for_workflow wf_uuid = do
    rows ←
        store.select_join get_profiles_for_workflow_stmt
          (record { column = "workflow_uuid"; value = text wf_uuid })
    traverse scan_link rows

  abbrev with_profiles : Workflow → Action W Workflow
  with_profiles wf = do ps ← find_profiles_for_workflow wf.uuid; pure (record wf { profiles = ps })

  unfoldable pub workflows : List Param → Action W (List Workflow)
  unfolding find_profiles_for_workflow
  workflows params = do
    found ← wrapping "pgStore Workflows" (do
      rows ← store.select select_workflows_stmt (add_where_filters params)
      traverse scan_workflow rows)
    traverse with_profiles found

  -- The two loops of `updateProfiles`.
  abbrev pub drop_missing : Workflow → String → Profile → Action W (Unit {0})
  drop_missing updated id p =
      if has_profile updated p.payload_identifier then pure tt else remove_profile id p.uuid

  abbrev pub add_missing : Workflow → String → Profile → Action W (Unit {0})
  add_missing in_datastore id p =
      if has_profile in_datastore p.payload_identifier
      then pure tt
      else wrapping "update wf, add profile" (add_profile id p.uuid)

  unfoldable pub update_profiles : Workflow → Workflow → Action W (Unit {0})
  unfolding add_profile remove_profile
  update_profiles updated in_datastore = do
    each (drop_missing updated in_datastore.uuid) in_datastore.profiles
    each (add_missing in_datastore in_datastore.uuid) updated.profiles

  abbrev update_found : Workflow → List Workflow → Action W Workflow
  update_found wf [] = raise (Error.new "workflow not found in datastore")
  update_found wf (ret_wf ∷ _) = do
    update_profiles wf ret_wf
    pure (record ret_wf { profiles = wf.profiles })

  unfoldable pub update_workflow : Workflow → Action W Workflow
  unfolding workflows update_profiles
  update_workflow wf =
      if wf.uuid == "" || wf.name == ""
      then raise (Error.new "workflow must have UUID or name to be updated")
      else workflows (workflow_uuid wf.uuid ∷ []) >>= update_found wf

  -- `pgStore`
  abbrev pub pg_store : Datastore W
  pg_store = record {
    create_workflow = create_workflow;
    workflows = workflows;
    update_workflow = update_workflow;
    create_profile = create_profile;
    delete_profile = delete_profile;
    profiles = profiles;
  }
