-- ===== src/Services/Backend/Tables.antt =====
-- The documented effect of each SQL statement on the tables.
use micromdm.Base.{
  String, ◌+◌, ◌==◌, Bool, true, false, not, ◌&&◌, ◌||◌, Option, none, some, List, [], ◌∷◌, ◌++◌,
  Action, Result, ok, err, panic, Error, if◌then◌else◌,
}
use micromdm.Services.Sql.{
  Value, null, text, Row, OnConflict, fail, do_nothing, do_update, Insert, Update, Select, same,
  given, assign, overwrite, project, meets, meets_one, Postgres,
}
use micromdm.Services.Schema.{defaults, unique, uuid_column, foreign, referring}
use micromdm.Services.Backend.State.{Backend, put}

abbrev pub duplicate : Error
duplicate = Error.fault "duplicate key value violates unique constraint"

-- Two rows hold the same values in all of `columns`.
unfoldable pub clash : List String → Row → Row → Bool
clash [] r s = true
clash (c ∷ cs) r s = same (r c) (s c) && clash cs r s

unfoldable pub clashes : List String → Row → List Row → Bool
unfolding clash
clashes columns r [] = false
clashes columns r (s ∷ rs) = clash columns r s || clashes columns r rs

unfoldable pub distinct : List String → List Row → Bool
unfolding clashes
distinct columns [] = true
distinct columns (r ∷ rs) = not (clashes columns r rs) && distinct columns rs

unfoldable pub all_distinct : List (List String) → List Row → Bool
unfolding distinct
all_distinct [] rs = true
all_distinct (i ∷ is) rs = distinct i rs && all_distinct is rs

-- The unique indexes of a table hold.
unfoldable pub consistent : String → List Row → Bool
unfolding all_distinct unique
consistent t rs = all_distinct (unique t) rs

abbrev pub dangling : Error
dangling = Error.fault "violates foreign key constraint"

unfoldable pub exists_same : String → Value → List Row → Bool
exists_same c v [] = false
exists_same c v (r ∷ rs) = same v (r c) || exists_same c v rs

-- Every value of column `c` is NULL or stands in column `c` of `targets`.
unfoldable pub all_refer : String → List Row → List Row → Bool
unfolding exists_same
all_refer c targets [] = true
all_refer c targets (r ∷ rs) =
    elim (r c) [ null ↦ true | v ↦ exists_same c v targets ] && all_refer c targets rs

unfoldable pub refer : List (String × String) → List Row → (String → List Row) → Bool
unfolding all_refer
refer [] rs ts = true
refer ((c, t) ∷ more) rs ts = all_refer c (ts t) rs && refer more rs ts

-- The references of some tables hold.
unfoldable pub all_hold : List String → (String → List Row) → Bool
unfolding refer foreign
all_hold [] ts = true
all_hold (t ∷ more) ts = refer (foreign t) (ts t) ts && all_hold more ts

unfoldable pub refers : String → (String → List Row) → Bool
unfolding all_hold
refers t ts = all_hold (t ∷ []) ts

unfoldable pub referred : String → (String → List Row) → Bool
unfolding all_hold referring
referred t ts = all_hold (referring t) ts

abbrev pub keep : (Row → Bool) → List Row → List Row
keep p [] = []
keep p (r ∷ rs) = if p r then r ∷ keep p rs else keep p rs

-- A statement that breaks an index or a reference changes nothing.
abbrev commit : {A : Type 0} → String → List Row → Result A → Action Backend A
commit t rs r b =
    if consistent t rs
    then if refers t (put t rs b.rows)
      then (r, record b { rows = put t rs b.rows })
      else (err dangling, b)
    else (err duplicate, b)

abbrev remove : String → (Row → Bool) → Action Backend (Unit {0})
remove t p b =
    let rows' = put t (keep (λ r. not (p r)) (b.rows t)) b.rows in
    if referred t rows' then (ok tt, record b { rows = rows' }) else (err dangling, b)

abbrev pub text_of : Value → Result String
text_of (text s) = ok s
text_of _ = err (Error.fault "converting NULL to string is unsupported")

-- The first row that a conflicting INSERT finds, changed; `none` where there is no conflict.
abbrev pub update_first : (Row → Bool) → (Row → Row) → List Row → Option (Row × List Row)
update_first p f [] = none
update_first p f (r ∷ rs) =
    let rest = update_first p f rs in
    if p r
    then some (f r, f r ∷ rs)
    else elim rest [ none ↦ none | some (s, rs') ↦ some (s, r ∷ rs') ]

abbrev pub update_all : (Row → Bool) → (Row → Row) → List Row → List Row
update_all p f [] = []
update_all p f (r ∷ rs) = (if p r then f r else r) ∷ update_all p f rs

abbrev pub first : (Row → Bool) → List Row → Option Row
first p [] = none
first p (r ∷ rs) = if p r then some r else first p rs

abbrev pub view_all : List String → List Row → List Row
view_all names [] = []
view_all names (r ∷ rs) = project names r ∷ view_all names rs

-- What RETURNING scans into a string.
abbrev shown : Option String → Row → Result String
shown none r = ok ""
shown (some c) r = text_of (r c)

-- The row that an INSERT proposes.
abbrev pub proposed : Insert → List Value → String → Row
proposed q args id c =
    given q.columns args c (if c == uuid_column q.table then text id else defaults q.table c)

abbrev resolve : OnConflict → Insert → List Value → Row → Action Backend String
resolve fail q args r b = commit q.table (b.rows q.table ++ (r ∷ [])) (shown q.returning r) b
resolve (do_nothing columns) q args r b =
    if clashes columns r (b.rows q.table)
    then (err Error.no_rows, b)
    else commit q.table (b.rows q.table ++ (r ∷ [])) (shown q.returning r) b
resolve (do_update column sets) q args r b =
    elim (update_first (λ s. same (s column) (r column)) (assign sets args) (b.rows q.table)) [
      | none ↦ commit q.table (b.rows q.table ++ (r ∷ [])) (shown q.returning r) b
      | some (s, rs) ↦ commit q.table rs (shown q.returning s) b
    ]

unfoldable pub insert : Insert → List Value → Action Backend String
unfolding consistent refers clashes uuid_column defaults
insert q args b =
    resolve q.on_conflict q args (proposed q args (b.uuids b.issued))
      (record b { issued = b.issued + 1 })

abbrev update : Update → Row → Action Backend (Unit {0})
update q source b =
    commit q.table
      (update_all (λ r. same (r q.key) (source q.key)) (overwrite q.columns source)
        (b.rows q.table))
      (ok tt) b

-- The rows that a WHERE clause selects: all without a clause; none is a syntax error.
abbrev pub chosen : String → Backend → Result (Row → Bool)
chosen clause b = if clause == "" then ok (λ _. true) else elim (b.reads clause) [
  | none ↦ err (Error.fault "syntax error in WHERE clause")
  | some qs ↦ ok (λ r. meets_one r qs)
]

abbrev found : Select → Option Row → Result Row
found q none = err Error.no_rows
found q (some r) = ok (project q.columns r)

abbrev pub no_row_is_fine : Result String → Result (Unit {0})
no_row_is_fine (ok _) = ok tt
no_row_is_fine (err Error.no_rows) = ok tt
no_row_is_fine (err e) = err e
no_row_is_fine panic = panic

abbrev any_row : (Row → Bool) → List Row → Bool
any_row p [] = false
any_row p (r ∷ rs) = p r || any_row p rs

abbrev roll_back : Option (String → List Row) → Backend → Backend
roll_back none b = b
roll_back (some ts) b = record b { rows = ts; before = none }

abbrev pub tables : Postgres Backend
tables = record {
  query_row = insert;
  exec = λ q args b. (no_row_is_fine (insert q args b).0, (insert q args b).1);
  named_exec = update;
  get = λ q c b. (found q (first (λ r. same (r c.column) c.value) (b.rows q.table)), b);
  select = λ q clause b. elim (chosen clause b) [
    | ok p ↦ (ok (view_all q.columns (keep p (b.rows q.table))), b)
    | err e ↦ (err e, b)
    | panic ↦ (panic, b)
  ];
  select_by = λ q c b.
      (ok (view_all q.columns (keep (λ r. same (r c.column) c.value) (b.rows q.table))), b);
  select_join = λ q c b. (
    ok (
        view_all q.columns (
          keep
            (λ r.
              any_row (λ s. same (r q.on) (s q.on) && same (s c.column) c.value) (b.rows q.joined))
            (b.rows q.table))),
    b,
  );
  delete = λ t qs. remove t (λ r. meets r qs);
  delete_where = λ t clause b. elim (chosen clause b) [
    | ok p ↦ remove t p b
    | err e ↦ (err e, b)
    | panic ↦ (panic, b)
  ];
  begin = λ b. (ok tt, record b { before = some b.rows });
  commit = λ b. (ok tt, record b { before = none });
  rollback = λ b. (ok tt, roll_back b.before b);
}
