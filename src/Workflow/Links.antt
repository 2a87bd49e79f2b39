-- ===== src/Workflow/Links.antt =====
-- `updateProfiles` of workflow/workflow_store.go: the profiles that are linked to a workflow.
use micromdm.Base.{
  String, ◌==◌, Bool, true, false, not, ◌&&◌, ◌||◌, List, [], ◌∷◌, ok, Action, resume, ◌>>◌, ◌≡◌,
  refl, ap, ◌∙◌, Bool-cases, inl, inr, arith,
}
use micromdm.Services.Sql.{Postgres, Value, Condition, text}
use micromdm.Workflow.Model.{Profile, Workflow, has_profile}
use micromdm.Workflow.Datastore.{
  link_profile_stmt, each, add_profile, remove_profile, drop_missing, add_missing, update_profiles,
}

-- A profile of the list has the UUID.
unfoldable pub any_uuid : List Profile → String → Bool
any_uuid [] v = false
any_uuid (p ∷ ps) v = (v == p.uuid) || any_uuid ps v

-- The arguments of the INSERT, and the conditions of the DELETE.
abbrev pub link_values : String → String → List Value
link_values id u = text id ∷ text u ∷ []

abbrev pub link_conditions : String → String → List Condition
link_conditions id u =
    record { column = "workflow_uuid"; value = text id }
    ∷ record { column = "profile_uuid"; value = text u }
    ∷ []

-- What PostgreSQL documents of the two statements on the table of links, `linked` being the profiles
-- that are linked to the workflow `id`, and `may_link` those that may be: the rows that a link of the
-- profile refers to are there.
pub record IsLinkTable {W : Type 0} (store : Postgres W) (id : String)
    (linked may_link : W → String → Bool) : Type 0 where
  pub added :
      (u : String) (w : W)
      → may_link w u ≡ true
      → (store.exec link_profile_stmt (link_values id u) w).0 ≡ ok tt
  pub links :
      (u v : String) (w : W)
      → may_link w u ≡ true
      → linked (store.exec link_profile_stmt (link_values id u) w).1 v ≡ ((v == u) || linked w v)
  pub links_keep :
      (u v : String) (w : W)
      → may_link w u ≡ true
      → may_link w v ≡ true
      → may_link (store.exec link_profile_stmt (link_values id u) w).1 v ≡ true
  pub deleted :
      (u : String) (w : W) → (store.delete "workflow_profile" (link_conditions id u) w).0 ≡ ok tt
  pub unlinks :
      (u v : String) (w : W)
      → linked (store.delete "workflow_profile" (link_conditions id u) w).1 v
        ≡ (not (v == u) && linked w v)
  pub unlinks_keep :
      (u v : String) (w : W)
      → may_link w v ≡ true
      → may_link (store.delete "workflow_profile" (link_conditions id u) w).1 v ≡ true

-- The UUIDs of `ps` stand in `qs` where their payload identifiers do.
abbrev pub Agree : List Profile → Workflow → Type 0
Agree [] wf = Unit
Agree (p ∷ ps) wf =
    (any_uuid wf.profiles p.uuid ≡ has_profile wf p.payload_identifier) × Agree ps wf

module _ {W : Type 0} (store : Postgres W) (linked may_link : W → String → Bool)
    (updated stored : Workflow) (table : IsLinkTable store stored.uuid linked may_link) where
  continued : (m k : Action W (Unit {0})) (w : W) → (m w).0 ≡ ok tt → (m >> k) w ≡ k (m w).1
  continued m k w h = ap (λ x. resume x (λ _. k) (m w).1) h

  -- What may be linked before may be linked after.
  abbrev Keeps : W → W → Type 0
  Keeps w w' = (v : String) → may_link w v ≡ true → may_link w' v ≡ true

  dropped_one :
      (p : Profile) (w : W)
      → any_uuid updated.profiles p.uuid ≡ has_profile updated p.payload_identifier
      → let (r, w') = drop_missing store updated stored.uuid p w in
        (r ≡ ok tt)
        × ((v : String)
            → linked w' v
              ≡ (not ((v == p.uuid) && not (any_uuid updated.profiles v)) && linked w v))
        × Keeps w w'
  unfolding remove_profile
  dropped_one p w agree = elim (Bool-cases (has_profile updated p.payload_identifier)) [
    | inl kept ↦ (rw kept, λ v. ground (arith, kept, agree), λ v may. ground (arith, kept, may))
    | inr gone ↦ (
      ground (arith, gone, table.deleted p.uuid w),
      λ v. ground (arith, gone, agree, table.unlinks p.uuid v w),
      λ v may. ground (arith, gone, table.unlinks_keep p.uuid v w may),
    )
  ]

  dropped :
      (ps : List Profile) (w : W)
      → Agree ps updated
      → let (r, w') = each (drop_missing store updated stored.uuid) ps w in
        (r ≡ ok tt)
        × ((v : String)
            → linked w' v
              ≡ (not (any_uuid ps v && not (any_uuid updated.profiles v)) && linked w v))
        × Keeps w w'
  unfolding any_uuid
  dropped [] w agree = (refl, λ v. refl, λ v may. may)
  dropped (p ∷ ps) w (a, agree) =
      let m = drop_missing store updated stored.uuid p in
      let (h, one, keeps) = dropped_one p w a in
      let (h', rest, keep) = dropped ps (m w).1 agree in
      let eq = continued m (each (drop_missing store updated stored.uuid) ps) w h in
      (
        ap (λ x. x.0) eq ∙ h',
        λ v. ap (λ x. linked x.1 v) eq ∙ ground (arith, one v, rest v),
        λ v may. ap (λ x. may_link x.1 v) eq ∙ keep v (keeps v may),
      )

  linked_one :
      (p : Profile) (w : W)
      → any_uuid stored.profiles p.uuid ≡ has_profile stored p.payload_identifier
      → may_link w p.uuid ≡ true
      → let (r, w') = add_missing store stored stored.uuid p w in
        (r ≡ ok tt)
        × ((v : String)
            → linked w' v ≡ (((v == p.uuid) && not (any_uuid stored.profiles v)) || linked w v))
        × Keeps w w'
  unfolding add_profile
  linked_one p w agree there = elim (Bool-cases (has_profile stored p.payload_identifier)) [
    | inl kept ↦ (rw kept, λ v. ground (arith, kept, agree), λ v may. ground (arith, kept, may))
    | inr missing ↦ (
      ground (arith, missing, table.added p.uuid w there),
      λ v. ground (arith, missing, agree, table.links p.uuid v w there),
      λ v may. ground (arith, missing, table.links_keep p.uuid v w there may),
    )
  ]

  linked_all :
      (ps : List Profile) (w : W)
      → Agree ps stored
      → ((u : String) → any_uuid ps u ≡ true → may_link w u ≡ true)
      → let (r, w') = each (add_missing store stored stored.uuid) ps w in
        (r ≡ ok tt)
        × ((v : String)
            → linked w' v ≡ ((any_uuid ps v && not (any_uuid stored.profiles v)) || linked w v))
  unfolding any_uuid
  linked_all [] w agree there = (refl, λ v. refl)
  linked_all (p ∷ ps) w (a, agree) there =
      let m = add_missing store stored stored.uuid p in
      let (h, one, keeps) = linked_one p w a (there p.uuid (ground arith)) in
      let (h', rest) = linked_all ps (m w).1 agree (λ u k. keeps u (there u (ground (arith, k)))) in
      let eq = continued m (each (add_missing store stored stored.uuid) ps) w h in
      (ap (λ x. x.0) eq ∙ h', λ v. ap (λ x. linked x.1 v) eq ∙ ground (arith, one v, rest v))

  -- updateProfiles succeeds, and then the profiles that are linked to the workflow are those of
  -- the updated workflow: where those linked before are the profiles of the stored workflow; each
  -- of the updated profiles may be linked, the rows that its link refers to being there; the two
  -- lists agree on which UUID belongs to which payload identifier; and the table of links behaves
  -- as PostgreSQL documents.
  pub update_links :
      (w : W)
      → ((v : String) → linked w v ≡ any_uuid stored.profiles v)
      → ((u : String) → any_uuid updated.profiles u ≡ true → may_link w u ≡ true)
      → Agree stored.profiles updated
      → Agree updated.profiles stored
      → let (r, w') = update_profiles store updated stored w in
        (r ≡ ok tt) × ((v : String) → linked w' v ≡ any_uuid updated.profiles v)
  unfolding update_profiles
  update_links w current known old new =
      let m = each (drop_missing store updated stored.uuid) stored.profiles in
      let (h, gone, keeps) = dropped stored.profiles w old in
      let (h', there) = linked_all updated.profiles (m w).1 new (λ u k. keeps u (known u k)) in
      let eq = continued m (each (add_missing store stored stored.uuid) updated.profiles) w h in
      (
        ap (λ x. x.0) eq ∙ h',
        λ v. ap (λ x. linked x.1 v) eq ∙ ground (arith, current v, gone v, there v),
      )
