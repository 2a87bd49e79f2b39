-- ===== src/Workflow/Tables.antt =====
-- The links of a workflow in the reference tables: the statements of workflow/workflow_store.go on
-- `workflow_profile`, as what the update of a workflow's profiles relies on.
use mathlib.Core.Path.{subst}
use micromdm.Base.{
  String, string_dec, ◌+◌, ◌==◌, true, false, not, ◌&&◌, ◌||◌, List, [], ◌∷◌, ◌++◌, ok, err, Error,
  ◌≡◌, refl, sym, ◌∙◌, ap, arith, Bool-cases, inl, inr, Result,
}
use micromdm.Services.Sql.{Row, meets}
use micromdm.Services.Backend.{
  Backend, tables, put, keep, insert, consistent, refers, referred, no_row_is_fine,
}
use micromdm.Services.Rows.{all_refer-keep, distinct-keep}
use micromdm.Workflow.Datastore.{link_profile_stmt}
use micromdm.Workflow.Links.{IsLinkTable, link_values, link_conditions}
use micromdm.Workflow.LinkRows.{
  key, linked, linked_in, sound, may_link, new_row, clashes-linked_in, sound-append,
  linked_in-append, linked_in-keep,
}

module _ (id : String) where
  abbrev appended : String → Backend → String → List Row
  appended u b = put "workflow_profile" (b.rows "workflow_profile" ++ (new_row id u b ∷ [])) b.rows

  insert-linked :
      (u : String) (b : Backend)
      → linked id b u ≡ true
      → insert link_profile_stmt (link_values id u) b
        ≡ (err Error.no_rows, record b { issued = b.issued + 1 })
  unfolding insert
  insert-linked u b there = rw (clashes-linked_in id u b (b.rows "workflow_profile"), there)

  sound-consistent :
      (rs : List Row) (b : Backend)
      → sound id rs b ≡ true
      → (consistent "workflow_profile" rs ≡ true)
        × (refers "workflow_profile" (put "workflow_profile" rs b.rows) ≡ true)
  unfolding consistent refers string_dec
  sound-consistent rs b h = (ground (arith, h), ground (arith, h))

  insert_missing :
      (u : String) (b : Backend)
      → may_link id b u ≡ true
      → linked id b u ≡ false
      → insert link_profile_stmt (link_values id u) b
        ≡ (ok "", record b { issued = b.issued + 1; rows = appended u b })
  unfolding insert
  insert_missing u b may missing =
      let rs = b.rows "workflow_profile" ++ (new_row id u b ∷ []) in
      let (unique, known) = sound-consistent rs b (sound-append id u b may missing) in
      rw (clashes-linked_in id u b (b.rows "workflow_profile"), missing, unique, known)

  module _ (u : String) (b : Backend) (may : may_link id b u ≡ true) where
    abbrev after : Result (Unit {0}) × Backend
    after = tables.exec link_profile_stmt (link_values id u) b

    -- What the INSERT does, in its two cases.
    abbrev Linked : Result (Unit {0}) × Backend → Type 0
    Linked (r, b') =
        (r ≡ ok tt)
        × ((v : String) → linked id b' v ≡ ((v == u) || linked id b v))
        × ((v : String) → may_link id b v ≡ true → may_link id b' v ≡ true)

    linked_already :
        linked id b u ≡ true → (v : String) → linked id b v ≡ ((v == u) || linked id b v)
    linked_already there v = ground (arith, there)

    may_link-appended :
        linked id b u ≡ false
        → (v : String) → may_link id b v ≡ true
        → may_link id (record b { issued = b.issued + 1; rows = appended u b }) v ≡ true
    unfolding string_dec
    may_link-appended missing v h = ground (arith, h, sound-append id u b may missing)

    exec-Linked : Linked after
    unfolding string_dec
    exec-Linked = elim (Bool-cases (linked id b u)) [
      | inl there ↦
          subst (λ x. Linked (no_row_is_fine x.0, x.1)) (sym (insert-linked u b there))
            (refl, linked_already there, λ v h. h)
      | inr missing ↦
          subst (λ x. Linked (no_row_is_fine x.0, x.1)) (sym (insert_missing u b may missing))
            (
              refl,
              λ v. linked_in-append id u v b (b.rows "workflow_profile"),
              may_link-appended missing,
            )
    ]

  abbrev kept : String → List Row → List Row
  kept u rs = keep (λ r. not (meets r (link_conditions id u))) rs

  sound-kept :
      (u : String) (rs : List Row) (b : Backend)
      → sound id rs b ≡ true
      → sound id (kept u rs) b ≡ true
  sound-kept u rs b h =
      let p = λ (r : Row). not (meets r (link_conditions id u)) in
      ground (
        arith,
        distinct-keep key p rs (ground (arith, h)),
        all_refer-keep "workflow_uuid" (b.rows "workflows") p rs (ground (arith, h)),
        all_refer-keep "profile_uuid" (b.rows "profiles") p rs (ground (arith, h)),
      )

  delete_kept :
      (u : String) (b : Backend)
      → tables.delete "workflow_profile" (link_conditions id u) b ≡ (
        ok tt,
        record b { rows = put "workflow_profile" (kept u (b.rows "workflow_profile")) b.rows },
      )
  unfolding referred string_dec
  delete_kept u b = refl

  may_link-kept :
      (u v : String) (b : Backend)
      → may_link id b v ≡ true
      → may_link id
          (record b { rows = put "workflow_profile" (kept u (b.rows "workflow_profile")) b.rows })
          v
        ≡ true
  unfolding string_dec
  may_link-kept u v b h =
      ground (arith, h, sound-kept u (b.rows "workflow_profile") b (ground (arith, h)))

  linked_in-put :
      (u v : String) (b : Backend)
      → linked_in id
          (put "workflow_profile" (kept u (b.rows "workflow_profile")) b.rows "workflow_profile")
          v
        ≡ (not (v == u) && linked id b v)
  unfolding string_dec
  linked_in-put u v b = linked_in-keep id u v (b.rows "workflow_profile")

  -- The reference tables are a table of links for the workflow.
  pub tables-IsLinkTable : IsLinkTable tables id (linked id) (may_link id)
  tables-IsLinkTable = record {
    added = λ u b may. (exec-Linked u b may).0;
    links = λ u v b may. (exec-Linked u b may).1 v;
    links_keep = λ u v b may. (exec-Linked u b may).2 v;
    deleted = λ u b. ap (λ x. x.0) (delete_kept u b);
    unlinks = λ u v b. ap (λ x. linked id x.1 v) (delete_kept u b) ∙ linked_in-put u v b;
    unlinks_keep =
        λ u v b may. ap (λ x. may_link id x.1 v) (delete_kept u b) ∙ may_link-kept u v b may;
  }
