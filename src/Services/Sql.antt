-- ===== src/Services/Sql.antt =====
-- The SQL statements of the datastores as data: the columns that a statement names, in its order,
-- with `$n` as a position. A column holds a value or NULL.
use micromdm.Base.{
  String, ℕ, zero, suc, Bool, true, false, ◌==◌, Option, List, [], ◌∷◌, Action, if◌then◌else◌, eqb,
  ◌||◌, ◌&&◌,
}

pub data Value : Type 0 where
  null : Value
  text : String → Value
  bool : Bool → Value
  -- an instant, counted from Go's zero `time.Time`
  time : ℕ → Value
  num : ℕ → Value

abbrev pub Row : Type 0
Row = String → Value

-- What a unique index does with a clash: `ON CONFLICT (column) DO UPDATE SET column = $n, …`,
-- `ON CONFLICT … DO NOTHING`, or an error.
pub data OnConflict : Type 0 where
  fail : OnConflict
  do_nothing : List String → OnConflict
  do_update : String → List (String × ℕ) → OnConflict

-- `INSERT INTO table (columns) VALUES ($1, …, $n) … RETURNING returning`
pub record Insert : Type 0 where
  pub table : String
  pub columns : List String
  pub on_conflict : OnConflict
  pub returning : Option String

-- `UPDATE table SET c=:c, … WHERE key=:key`
pub record Update : Type 0 where
  pub table : String
  pub columns : List String
  pub key : String

-- `SELECT columns FROM table`
pub record Select : Type 0 where
  pub table : String
  pub columns : List String

-- `SELECT columns FROM table JOIN joined ON table.on = joined.on`, with a condition on `joined`
pub record Join : Type 0 where
  pub table : String
  pub columns : List String
  pub joined : String
  pub on : String

-- A condition `column = value`.
pub record Condition : Type 0 where
  pub column : String
  pub value : Value

-- `a = b` in SQL: NULL is equal to nothing.
abbrev pub same : Value → Value → Bool
same (text s) (text t) = s == t
same (bool true) (bool b) = b
same (bool false) (bool true) = false
same (bool false) (bool false) = true
same (time s) (time t) = eqb s t
same (num s) (num t) = eqb s t
same _ _ = false

abbrev pub member : String → List String → Bool
member c [] = false
member c (d ∷ ds) = c == d || member c ds

-- `$n`, counted from 1.
abbrev pub argument : List Value → ℕ → Value
argument [] n = null
argument (v ∷ vs) zero = null
argument (v ∷ vs) (suc zero) = v
argument (v ∷ vs) (suc (suc n)) = argument vs (suc n)

-- The value of a column among the columns of an INSERT, or `d`.
abbrev pub given : List String → List Value → String → Value → Value
given [] vs c d = d
given (k ∷ ks) [] c d = d
given (k ∷ ks) (v ∷ vs) c d = if c == k then v else given ks vs c d

abbrev pub assign : List (String × ℕ) → List Value → Row → Row
assign [] vs r c = r c
assign ((k, n) ∷ ks) vs r c = if c == k then argument vs n else assign ks vs r c

-- The columns of `names` from `source`, the others from `r`.
abbrev pub overwrite : List String → Row → Row → Row
overwrite names source r c = if member c names then source c else r c

-- What a SELECT of `names` shows of a row.
abbrev pub project : List String → Row → Row
project names r c = if member c names then r c else null

abbrev pub meets : Row → List Condition → Bool
meets r [] = true
meets r (q ∷ qs) = same (r q.column) q.value && meets r qs

abbrev pub meets_one : Row → List Condition → Bool
meets_one r [] = false
meets_one r (q ∷ qs) = same (r q.column) q.value || meets_one r qs

-- The calls of `database/sql` and `sqlx` that the datastores make.
pub record Postgres (W : Type 0) : Type 0 where
  -- `QueryRow(stmt, args...).Scan(&id)`, with `no_rows` where the statement returns no row
  pub query_row : Insert → List Value → Action W String
  -- `Exec(stmt, args...)` of an INSERT, which reports no missing row
  pub exec : Insert → List Value → Action W (Unit {0})
  -- `NamedExec(stmt, struct)`
  pub named_exec : Update → Row → Action W (Unit {0})
  -- `Get(&v, "SELECT … WHERE column=$1 LIMIT 1", value)`, with `no_rows` where none matches
  pub get : Select → Condition → Action W Row
  -- `Select(&vs, stmt)` with the text of the WHERE clause, or "" for none
  pub select : Select → String → Action W (List Row)
  -- `Select(&vs, "SELECT … WHERE column=$1", value)`
  pub select_by : Select → Condition → Action W (List Row)
  -- `Select(&vs, "SELECT … JOIN … WHERE joined.column=$1", value)`
  pub select_join : Join → Condition → Action W (List Row)
  -- `Exec("DELETE FROM table WHERE …")` with all the conditions
  pub delete : String → List Condition → Action W (Unit {0})
  -- `Exec("DELETE FROM table …")` with the text of the WHERE clause
  pub delete_where : String → String → Action W (Unit {0})
  -- `Beginx`, and the transaction's `Commit` and `Rollback`
  pub begin : Action W (Unit {0})
  pub commit : Action W (Unit {0})
  pub rollback : Action W (Unit {0})
