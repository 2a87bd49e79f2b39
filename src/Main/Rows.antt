-- ===== src/Main/Rows.antt =====
-- Lemmas on the rows of a table: those that refer to a device, and the first one that meets a test.
use micromdm.Base.{
  some, if◌then◌else◌, length, String, Bool, true, not, List, [], ◌∷◌, ◌++◌, ◌≡◌, refl, ap, arith,
}
use micromdm.Services.Sql.{Row, text, same}
use micromdm.Services.Backend.{first, update_first, keep}
use micromdm.Device.Laws.{column}

-- The rows of a device, and those of the others.
abbrev pub own : String → List Row → List Row
own id rs = keep (λ r. same (r "device_uuid") (text id)) rs

abbrev pub foreign_rows : String → List Row → List Row
foreign_rows id rs = keep (λ r. not (same (r "device_uuid") (text id))) rs

pub keep-append : (p : Row → Bool) (rs ss : List Row) → keep p (rs ++ ss) ≡ keep p rs ++ keep p ss
keep-append p [] ss = refl
keep-append p (r ∷ rs) ss = ground (arith, keep-append p rs ss)

pub column-append :
    (c : String) (rs ss : List Row) → column c (rs ++ ss) ≡ column c rs ++ column c ss
column-append c [] ss = refl
column-append c (r ∷ rs) ss = ap (λ vs. r c ∷ vs) (column-append c rs ss)

-- The rows with the first of those that meet `p` changed.
abbrev pub replaced : (Row → Bool) → (Row → Row) → List Row → List Row
replaced p f [] = []
replaced p f (r ∷ rs) = if p r then f r ∷ rs else r ∷ replaced p f rs

module _ (p : Row → Bool) (f : Row → Row) (row : Row) where
  pub update_first-replaced :
      (rs : List Row) → first p rs ≡ some row → update_first p f rs ≡ some (f row, replaced p f rs)
  update_first-replaced [] h = cc
  update_first-replaced (r ∷ rs) h = ground (arith, update_first-replaced rs)

  pub first-replaced :
      (rs : List Row)
      → first p rs ≡ some row
      → p (f row) ≡ true
      → first p (replaced p f rs) ≡ some (f row)
  first-replaced [] h k = cc
  first-replaced (r ∷ rs) h k = ground (arith, first-replaced rs)

  pub length-replaced : (rs : List Row) → length (replaced p f rs) ≡ length rs
  length-replaced [] = refl
  length-replaced (r ∷ rs) = ground (arith, length-replaced rs)

  pub first-meets : (rs : List Row) → first p rs ≡ some row → p row ≡ true
  first-meets [] h = cc
  first-meets (r ∷ rs) h = ground (arith, first-meets rs)
