-- ===== src/Services/Rows.antt =====
-- The unique indexes and the references of the reference tables, where a row is appended or rows are
-- deleted.
use micromdm.Base.{String, Bool, true, false, ◌||◌, List, [], ◌∷◌, ◌++◌, ◌≡◌, refl, arith}
use micromdm.Services.Sql.{Value, null, text, bool, time, num, Row, same}
use micromdm.Services.Backend.{clash, clashes, distinct, all_refer, keep}

-- A comparison with a text may be turned round.
pub same-text : (s : String) (v : Value) → same v (text s) ≡ same (text s) v
same-text s null = refl
same-text s (text t) = ground arith
same-text s (bool true) = refl
same-text s (bool false) = refl
same-text s (time t) = refl
same-text s (num t) = refl

module _ (c : String) (ts : List Row) where
  pub all_refer-append :
      (rs : List Row) (r : Row)
      → all_refer c ts rs ≡ true
      → all_refer c ts (r ∷ []) ≡ true
      → all_refer c ts (rs ++ (r ∷ [])) ≡ true
  unfolding all_refer
  all_refer-append [] r h k = k
  all_refer-append (s ∷ rs) r h k = ground (arith, all_refer-append rs r)

  pub all_refer-keep :
      (p : Row → Bool) (rs : List Row)
      → all_refer c ts rs ≡ true
      → all_refer c ts (keep p rs) ≡ true
  unfolding all_refer
  all_refer-keep p [] h = refl
  all_refer-keep p (r ∷ rs) h = ground (arith, all_refer-keep p rs)

module _ (cs : List String) where
  clashes-append :
      (s r : Row) (rs : List Row)
      → clash cs s r ≡ clash cs r s
      → clashes cs s (rs ++ (r ∷ [])) ≡ (clashes cs s rs || clash cs r s)
  unfolding clashes
  clashes-append s r [] turned = ground (arith, turned)
  clashes-append s r (t ∷ rs) turned = ground (arith, clashes-append s r rs turned)

  pub distinct-append :
      (r : Row) (rs : List Row)
      → ((s : Row) → clash cs s r ≡ clash cs r s)
      → distinct cs rs ≡ true
      → clashes cs r rs ≡ false
      → distinct cs (rs ++ (r ∷ [])) ≡ true
  unfolding distinct
  distinct-append r [] turned h k = refl
  distinct-append r (s ∷ rs) turned h k =
      ground (arith, h, k, distinct-append r rs turned, clashes-append s r rs (turned s))

  clashes-keep :
      (p : Row → Bool) (r : Row) (rs : List Row)
      → clashes cs r rs ≡ false
      → clashes cs r (keep p rs) ≡ false
  unfolding clashes
  clashes-keep p r [] h = refl
  clashes-keep p r (s ∷ rs) h = ground (arith, clashes-keep p r rs)

  pub distinct-keep :
      (p : Row → Bool) (rs : List Row) → distinct cs rs ≡ true → distinct cs (keep p rs) ≡ true
  unfolding distinct
  distinct-keep p [] h = refl
  distinct-keep p (r ∷ rs) h = ground (arith, distinct-keep p rs, clashes-keep p r rs)
