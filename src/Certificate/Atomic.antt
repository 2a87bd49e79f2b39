-- ===== src/Certificate/Atomic.antt =====
-- certificate/datastore.go, lines 127 to 149: the transaction that replaces a device's certificates.
-- PostgreSQL refuses the DELETE for an identifier that is no UUID.
use mathlib.Core.Path.{subst}
use micromdm.Base.{
  String, Option, List, [], ◌∷◌, none, some, Error, Result, ok, err, panic, ◌≡◌, ◌≢◌, refl, sym,
  ◌∙◌, arith, resume, returned, ◌>>◌,
}
use micromdm.Services.Sql.{Value, text, Insert, Condition, Postgres}
use micromdm.Certificate.Datastore.{
  Certificate, insert_certificate_stmt, certificate_values, insert_all, or_roll_back, must,
  replace_in, replace_certificates_by_device_uuid,
}

-- What PostgreSQL and database/sql document of a transaction, where `rows` are the tables, and
-- `before` the tables as they were when the open transaction began, if one is open. Any statement
-- may fail.
pub record IsTransactional {W T : Type 0} (store : Postgres W) (rows : W → T)
    (before : W → Option T) : Type 0 where
  pub begins : (w : W) → (store.begin w).0 ≡ ok tt → before (store.begin w).1 ≡ some (rows w)
  pub delete_stays_open :
      (t : String) (qs : List Condition) (w : W) → before (store.delete t qs w).1 ≡ before w
  pub insert_stays_open :
      (q : Insert) (vs : List Value) (w : W) → before (store.query_row q vs w).1 ≡ before w
  pub insert_returns : (q : Insert) (vs : List Value) (w : W) → (store.query_row q vs w).0 ≢ panic
  pub commits : (w : W) → (before (store.commit w).1 ≡ none) × ((store.commit w).0 ≢ panic)
  pub rolls_back :
      (w : W) (ts : T)
      → before w ≡ some ts
      → (rows (store.rollback w).1 ≡ ts)
        × (before (store.rollback w).1 ≡ none)
        × ((store.rollback w).0 ≢ panic)

-- The conditions of the DELETE.
abbrev pub of_device : String → List Condition
of_device id = record { column = "device_uuid"; value = text id } ∷ []

module _ {W T : Type 0} (store : Postgres W) (rows : W → T) (before : W → Option T) where
  -- What a replacement may come to, by the result of its DELETE, where the tables were `ts`.
  abbrev pub IsAtomic : T → Result (Unit {0}) → Result (Unit {0}) → W → Type 0
  IsAtomic ts (ok _) r w = (r ≢ panic) × ((e : Error) → r ≡ err e → rows w ≡ ts) × (before w ≡ none)
  IsAtomic ts (err _) r w = (r ≡ panic) × (before w ≡ some ts)
  IsAtomic ts panic r w = (r ≡ panic) × (before w ≡ some ts)

  module _ (lawful : IsTransactional store rows before) (ts : T) where
    -- The result of a call that is dropped.
    dropped :
        (r end : Result (Unit {0})) (w : W)
        → r ≢ panic
        → resume (returned r) (λ _ w. (end, w)) w ≡ (end, w)
    dropped (ok _) end w total = refl
    dropped (err _) end w total = refl
    dropped panic end w total = elim (total refl) [ ]

    after_insert :
        (cs : List Certificate) (r : Result String) (w : W)
        → r ≢ panic
        → before w ≡ some ts
        → IsAtomic ts (ok tt) (insert_all store cs w).0 (insert_all store cs w).1
        → let (r', w') = resume (returned r) (or_roll_back store (insert_all store cs)) w in
          IsAtomic ts (ok tt) r' w'
    after_insert cs (ok id) w total began rest = rest
    after_insert cs (err e) w total began rest =
        let (restored, over, returns) = lawful.rolls_back w ts began in
        subst (λ x. IsAtomic ts (ok tt) x.0 x.1)
          (sym (dropped (store.rollback w).0 (err e) (store.rollback w).1 returns))
          (ground arith, λ _ q. restored, over)
    after_insert cs panic w total began rest = elim (total refl) [ ]

    insert_all-IsAtomic :
        (cs : List Certificate) (w : W)
        → before w ≡ some ts
        → IsAtomic ts (ok tt) (insert_all store cs w).0 (insert_all store cs w).1
    insert_all-IsAtomic [] w began =
        let (over, returns) = lawful.commits w in
        subst (λ x. IsAtomic ts (ok tt) x.0 x.1)
          (sym (dropped (store.commit w).0 (ok tt) (store.commit w).1 returns))
          (ground arith, λ e q. ground (arith, q), over)
    insert_all-IsAtomic (c ∷ cs) w began =
        let m = store.query_row insert_certificate_stmt (certificate_values c) w in
        let kept =
          lawful.insert_stays_open insert_certificate_stmt (certificate_values c) w ∙ began in
        after_insert cs m.0 m.1
          (lawful.insert_returns insert_certificate_stmt (certificate_values c) w) kept
          (insert_all-IsAtomic cs m.1 kept)

    after_delete :
        (cs : List Certificate) (d : Result (Unit {0})) (w : W)
        → before w ≡ some ts
        → let (r, w') = resume (returned d) (λ x. must store x >> insert_all store cs) w in
          IsAtomic ts d r w'
    after_delete cs (ok _) w began = insert_all-IsAtomic cs w began
    after_delete cs (err e) w began = (refl, began)
    after_delete cs panic w began = (refl, began)

    begun :
        (id : String) (cs : List Certificate) (x : Result (Unit {0})) (w : W)
        → x ≡ ok tt
        → before w ≡ some ts
        → let d = store.delete "devices_certificates" (of_device id) w in
          let (r, w') = resume (returned x) (replace_in store id cs) w in IsAtomic ts d.0 r w'
    begun id cs (ok _) w h began =
        let d = store.delete "devices_certificates" (of_device id) w in
        after_delete cs d.0 d.1
          (lawful.delete_stays_open "devices_certificates" (of_device id) w ∙ began)
    begun id cs (err e) w h began = ground (arith, h)
    begun id cs panic w h began = ground (arith, h)

  -- Replacing the certificates of a device, where the transaction begins. If the DELETE succeeds,
  -- the replacement does not panic; where it returns an error, the tables are as they were before;
  -- and no transaction is left open. If the DELETE fails, the replacement panics, and the
  -- transaction is left open. The store is transactional, and any statement of it may fail.
  pub replace-IsAtomic :
      IsTransactional store rows before
      → (id : String) (cs : List Certificate) (w : W) → (store.begin w).0 ≡ ok tt
      → let (d, _) = store.delete "devices_certificates" (of_device id) (store.begin w).1 in
        let (r, w') = replace_certificates_by_device_uuid store id cs w in IsAtomic (rows w) d r w'
  unfolding replace_certificates_by_device_uuid
  replace-IsAtomic lawful id cs w began =
      begun lawful (rows w) id cs (store.begin w).0 (store.begin w).1 began (lawful.begins w began)
