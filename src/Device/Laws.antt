-- ===== src/Device/Laws.antt =====
-- The UPDATE statements of device/datastore.go over the reference model: the columns and the unique
-- indexes that they keep.
use micromdm.Base.{
  String, Bool, true, false, not, ◌&&◌, some, List, [], ◌∷◌, ok, ◌≡◌, refl, ap, arith,
  if◌then◌else◌, string_dec,
}
use micromdm.Services.Sql.{Value, Row, Update, same, member, overwrite}
use micromdm.Services.Backend.{
  Backend, tables, update_all, put, consistent, clash, clashes, distinct, refers, first,
}
use micromdm.Device.Datastore.{save_statement}

-- The values of a column, row by row.
abbrev pub column : String → List Row → List Value
column c [] = []
column c (r ∷ rs) = r c ∷ column c rs

column-update_all :
    (c : String) (p : Row → Bool) (names : List String) (source : Row) (rs : List Row)
    → member c names ≡ false
    → column c (update_all p (overwrite names source) rs) ≡ column c rs
column-update_all c p names source [] h = refl
column-update_all c p names source (r ∷ rs) h =
    ground (arith, column-update_all c p names source rs h)

-- The columns that an UPDATE does not name keep their values in every row of every table.
pub update_columns :
    (q : Update) (source : Row) (b : Backend) (c t : String)
    → member c q.columns ≡ false
    → column c ((tables.named_exec q source b).1.rows t) ≡ column c (b.rows t)
update_columns q source b c t h = ground (
  arith,
  column-update_all c (λ r. same (r q.key) (source q.key)) q.columns source (b.rows q.table) h,
  ap (λ k. column c (b.rows k)),
)

-- The columns that `Save` writes on some message.
abbrev pub saved_columns : List String
saved_columns =
    "workflow_uuid" ∷ "awaiting_configuration" ∷ "apple_push_magic" ∷ "apple_mdm_token"
    ∷ "mdm_enrolled" ∷ "unlock_token" ∷ "last_checkin" ∷ "last_query_response" ∷ "device_name"
    ∷ "serial_number" ∷ "model" ∷ "product_name" ∷ "imei" ∷ "meid" ∷ "os_version" ∷ "build_version"
    ∷ []

pub saved :
    (msg c : String) {q : Update}
    → save_statement msg ≡ ok q
    → member c saved_columns ≡ false
    → member c q.columns ≡ false
unfolding save_statement
saved msg c e h = ground arith

abbrev disjoint : List String → List String → Bool
disjoint [] names = true
disjoint (c ∷ cs) names = not (member c names) && disjoint cs names

-- Two rows agree on a list of columns, row by row.
abbrev Agree : List String → Row → Row → Type 0
Agree [] r s = Unit
Agree (c ∷ cs) r s = (r c ≡ s c) × Agree cs r s

overwrite-Agree :
    (cs names : List String) (p : Bool) (source r : Row)
    → disjoint cs names ≡ true
    → Agree cs (if p then overwrite names source r else r) r
overwrite-Agree [] names p source r h = tt
overwrite-Agree (c ∷ cs) names p source r h =
    (ground arith, overwrite-Agree cs names p source r (ground arith))

clash-Agree :
    (cs : List String) (r r' s s' : Row)
    → Agree cs r r'
    → Agree cs s s'
    → clash cs r s ≡ clash cs r' s'
unfolding clash
clash-Agree [] r r' s s' h k = refl
clash-Agree (c ∷ cs) r r' s s' (e, h) (f, k) = rw (e, f, clash-Agree cs r r' s s' h k)

module _ (cs names : List String) (p : Row → Bool) (source : Row)
    (h : disjoint cs names ≡ true) where
  clashes-update_all :
      (r r' : Row) (rs : List Row)
      → Agree cs r r'
      → clashes cs r (update_all p (overwrite names source) rs) ≡ clashes cs r' rs
  unfolding clashes
  clashes-update_all r r' [] e = refl
  clashes-update_all r r' (s ∷ rs) e = rw (
    clash-Agree cs r r' _ s e (overwrite-Agree cs names (p s) source s h),
    clashes-update_all r r' rs e,
  )

  distinct-update_all :
      (rs : List Row) → distinct cs (update_all p (overwrite names source) rs) ≡ distinct cs rs
  unfolding distinct
  distinct-update_all [] = refl
  distinct-update_all (r ∷ rs) = rw (
    clashes-update_all _ r rs (overwrite-Agree cs names (p r) source r h),
    distinct-update_all rs,
  )

-- An UPDATE that names neither the serial number nor the UDID keeps the unique indexes.
pub consistent-update_all :
    (names : List String) (p : Row → Bool) (source : Row) (rs : List Row)
    → member "serial_number" names ≡ false
    → member "udid" names ≡ false
    → consistent "devices" (update_all p (overwrite names source) rs) ≡ consistent "devices" rs
unfolding consistent string_dec
consistent-update_all names p source rs h k = rw (
  distinct-update_all ("serial_number" ∷ []) names p source (ground arith) rs,
  distinct-update_all ("udid" ∷ []) names p source (ground arith) rs,
)

-- Such an UPDATE of a consistent table succeeds.
pub named_exec-devices :
    (names : List String) (source : Row) (b : Backend)
    → member "serial_number" names ≡ false
    → member "udid" names ≡ false
    → consistent "devices" (b.rows "devices") ≡ true
    → let q : Update = record { table = "devices"; columns = names; key = "device_uuid" } in
      tables.named_exec q source b ≡ (
        ok tt,
        record b {
          rows =
              put "devices"
                (update_all
                  (λ r. same (r "device_uuid") (source "device_uuid"))
                  (overwrite names source)
                  (b.rows "devices"))
                b.rows;
        },
      )
unfolding refers string_dec
named_exec-devices names source b h k sound = rw (
  consistent-update_all names (λ r. same (r "device_uuid") (source "device_uuid")) source
      (b.rows "devices") h k,
  sound,
)

-- The row that a search finds after an UPDATE which leaves the searched column alone.
pub first-update_all :
    (c : String) (v : Value) (names : List String) (p : Row → Bool) (source row : Row)
    (rs : List Row)
    → member c names ≡ false
    → first (λ r. same (r c) v) rs ≡ some row
    → first (λ r. same (r c) v) (update_all p (overwrite names source) rs)
      ≡ some (if p row then overwrite names source row else row)
first-update_all c v names p source row [] h e = cc
first-update_all c v names p source row (r ∷ rs) h e =
    ground (arith, first-update_all c v names p source row rs h)
