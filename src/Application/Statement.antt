-- ===== src/Application/Statement.antt =====
-- application/statement.go: filters and groups of conditions as text.
use micromdm.Base.{ℕ, zero, suc, String, ◌<>◌, List, [], ◌∷◌, ◌++◌, join, map, length}

-- The filters `UUID`, `Name` and `Version`, and values of other types.
pub data Param : Type 0 where
  uuid : String → Param
  name : String → Param
  version : String → Param
  other : Param

abbrev wheres : List Param → List String
wheres [] = []
wheres (uuid s ∷ ps) = ("application_uuid = '" <> (s <> "'")) ∷ wheres ps
wheres (name s ∷ ps) = ("name = '" <> (s <> "'")) ∷ wheres ps
wheres (version s ∷ ps) = ("version = '" <> (s <> "'")) ∷ wheres ps
wheres (other ∷ ps) = wheres ps

-- `addWhereFilters`: the text after WHERE, "" where the statement gets no WHERE.
abbrev pub add_where_filters : String → List Param → String
add_where_filters separator params = join (" " <> (separator <> " ")) (wheres params)

pub record WhereClause : Type 0 where
  pub operator : String
  pub field : String
  pub value : String
  pub placeholder : String

pub record WhereClauseGroup : Type 0 where
  pub operator : String
  pub clauses : List WhereClause

-- `whereClause.String`, which shows the value and not the placeholder
abbrev pub clause_text : WhereClause → String
clause_text c = c.field <> (" " <> (c.operator <> (" " <> c.value)))

-- `Where`
abbrev pub where_clause : String → String → String → WhereClause
where_clause field operator value = record {
  operator = operator;
  field = field;
  value = value;
  placeholder = "$1";
}

-- `WhereAnd` and `WhereOr`
abbrev pub where_and : List WhereClause → WhereClauseGroup
where_and clauses = record { operator = "AND"; clauses = clauses }

abbrev pub where_or : List WhereClause → WhereClauseGroup
where_or clauses = record { operator = "OR"; clauses = clauses }

abbrev replicate : ℕ → String → List String
replicate zero s = []
replicate (suc n) s = s ∷ replicate n s

-- `whereClauseGroup.String`: the texts joined by the bare operator, and the values, appended to a
-- slice that was made with the length of the clauses.
unfoldable pub group_text : WhereClauseGroup → String × List String
group_text cg = (
  join cg.operator (map clause_text cg.clauses),
  replicate (length cg.clauses) "" ++ map (λ c. c.value) cg.clauses,
)
