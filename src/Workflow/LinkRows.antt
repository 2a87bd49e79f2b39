-- ===== src/Workflow/LinkRows.antt =====
-- The rows of `workflow_profile` in the reference tables, which link profiles to workflows.
use micromdm.Base.{
  String, string_dec, ◌==◌, Bool, true, false, not, ◌&&◌, ◌||◌, List, [], ◌∷◌, ◌++◌, ◌≡◌, refl, ◌∙◌,
  arith,
}
use micromdm.Services.Sql.{Value, null, text, bool, time, num, Row, same, meets}
use micromdm.Services.Backend.{
  Backend, keep, proposed, clash, clashes, distinct, exists_same, all_refer,
}
use micromdm.Services.Rows.{same-text, all_refer-append, distinct-append}
use micromdm.Workflow.Datastore.{link_profile_stmt}
use micromdm.Workflow.Links.{link_values, link_conditions}

abbrev pub key : List String
key = "workflow_uuid" ∷ "profile_uuid" ∷ []

module _ (id : String) where
  -- A row links the profile `v` to the workflow.
  abbrev links_it : String → Row → Bool
  links_it v r = same (text id) (r "workflow_uuid") && same (text v) (r "profile_uuid")

  unfoldable pub linked_in : List Row → String → Bool
  linked_in [] v = false
  linked_in (r ∷ rs) v = links_it v r || linked_in rs v

  abbrev pub linked : Backend → String → Bool
  linked b v = linked_in (b.rows "workflow_profile") v

  -- The indexes and references of the table of links, whose rows are `rs`.
  abbrev pub sound : List Row → Backend → Bool
  sound rs b =
      distinct key rs
      && (all_refer "workflow_uuid" (b.rows "workflows") rs
          && all_refer "profile_uuid" (b.rows "profiles") rs)

  -- The workflow and the profile are there, and so are those of the rows of the table.
  abbrev pub may_link : Backend → String → Bool
  may_link b v =
      exists_same "workflow_uuid" (text id) (b.rows "workflows")
      && (exists_same "profile_uuid" (text v) (b.rows "profiles")
          && sound (b.rows "workflow_profile") b)

  abbrev pub new_row : String → Backend → Row
  new_row u b = proposed link_profile_stmt (link_values id u) (b.uuids b.issued)

  pub clashes-linked_in :
      (u : String) (b : Backend) (rs : List Row) → clashes key (new_row u b) rs ≡ linked_in rs u
  unfolding clashes linked_in string_dec
  clashes-linked_in u b [] = refl
  clashes-linked_in u b (r ∷ rs) = ground (arith, clashes-linked_in u b rs)

  clash_turned :
      (u : String) (b : Backend) (s : Row) → clash key s (new_row u b) ≡ clash key (new_row u b) s
  unfolding clash string_dec
  clash_turned u b s = rw (same-text id (s "workflow_uuid"), same-text u (s "profile_uuid"))

  -- The table with the new row is sound.
  pub sound-append :
      (u : String) (b : Backend)
      → may_link b u ≡ true
      → linked b u ≡ false
      → sound (b.rows "workflow_profile" ++ (new_row u b ∷ [])) b ≡ true
  unfolding all_refer string_dec
  sound-append u b may fresh =
      let rs = b.rows "workflow_profile" in
      ground (
        arith,
        may,
        distinct-append key (new_row u b) rs (clash_turned u b) (ground (arith, may))
            (clashes-linked_in u b rs ∙ fresh),
        all_refer-append "workflow_uuid" (b.rows "workflows") rs (new_row u b) (ground (arith, may))
            (ground (arith, may)),
        all_refer-append "profile_uuid" (b.rows "profiles") rs (new_row u b) (ground (arith, may))
            (ground (arith, may)),
      )

  same_id : (id == id) ≡ true
  same_id = ground arith

  pub linked_in-append :
      (u v : String) (b : Backend) (rs : List Row)
      → linked_in (rs ++ (new_row u b ∷ [])) v ≡ ((v == u) || linked_in rs v)
  unfolding linked_in string_dec
  linked_in-append u v b [] = ground (arith, same_id)
  linked_in-append u v b (r ∷ rs) = ground (arith, linked_in-append u v b rs)

  -- A value that is `v` and not `u`, as a value that is `v` where `v` is not `u`.
  same-same :
      (u v : String) (x : Value)
      → (same (text v) x && not (same x (text u))) ≡ (not (v == u) && same (text v) x)
  same-same u v null = ground arith
  same-same u v (text s) = ground arith
  same-same u v (bool true) = ground arith
  same-same u v (bool false) = ground arith
  same-same u v (time t) = ground arith
  same-same u v (num t) = ground arith

  pub linked_in-keep :
      (u v : String) (rs : List Row)
      → linked_in (keep (λ r. not (meets r (link_conditions id u))) rs) v
        ≡ (not (v == u) && linked_in rs v)
  unfolding linked_in
  linked_in-keep u v [] = ground arith
  linked_in-keep u v (r ∷ rs) = ground (
    arith,
    same-text id (r "workflow_uuid"),
    same-same u v (r "profile_uuid"),
    linked_in-keep u v rs,
  )
