-- ===== src/Certificate/Statement.antt =====
-- certificate/statement.go: conditions as text.
use micromdm.Base.{String, ◌<>◌, ◌==◌, Bool, List, [], ◌∷◌, if◌then◌else◌, join}

-- The dynamic types of `Where.Value` that the code tells apart; an int by its decimal text.
pub data Operand : Type 0 where
  nil : Operand
  text : String → Operand
  bool : Bool → Operand
  texts : List String → Operand
  int : String → Operand
  other : Operand

pub record Where : Type 0 where
  pub field : String
  pub value : Operand
  pub operator : String

abbrev operator_of : Operand → String → String
operator_of nil op = "IS"
operator_of (texts ss) op = "IN"
operator_of _ op = if op == "" then "=" else op

abbrev quoted : Operand → String
quoted nil = "NULL"
quoted (text s) = "'" <> (s <> "'")
quoted (bool b) = if b then "true" else "false"
quoted (texts ss) = "('" <> (join "','" ss <> "')")
quoted (int n) = n
quoted other = ""

-- `Where.String`
unfoldable pub condition : Where → String
condition w = w.field <> (" " <> (operator_of w.value w.operator <> (" " <> quoted w.value)))

-- The loops of `WhereAnd.String` and `WhereOr.String`: the separator after all but the last.
abbrev conditions : String → List Where → String
conditions separator [] = ""
conditions separator (w ∷ []) = condition w
conditions separator (w ∷ v ∷ ws) = condition w <> (separator <> conditions separator (v ∷ ws))

unfoldable pub where_and : List Where → String
unfolding condition
where_and ws = conditions " AND " ws

unfoldable pub where_or : List Where → String
unfolding condition
where_or ws = conditions " OR " ws
