-- ===== src/Device/Keeps.antt =====
-- Calls over the reference model that leave a column of every table as it is.
use micromdm.Base.{
  String, Bool, true, false, List, Result, ok, err, panic, Action, ◌≡◌, refl, ◌∙◌, ap, pure, return,
  attempt, resume, wrapping, ◌>>=◌, if◌then◌else◌,
}
use micromdm.Services.Sql.{Update, text, member}
use micromdm.Services.Backend.{Backend, tables}
use micromdm.Device.Model.{Device}
use micromdm.Device.Columns.{named}
use micromdm.Device.Datastore.{save, save_statement, get_device_by_udid}
use micromdm.Device.Laws.{column, update_columns}

module _ (c : String) where
  pub record Keeps {A : Type 0} (m : Action Backend A) : Type 0 where
    pub kept : (b : Backend) (t : String) → column c ((m b).1.rows t) ≡ column c (b.rows t)

  -- A call that leaves the tables as they are.
  pub same_rows :
      {A : Type 0} (m : Action Backend A) → ((b : Backend) → (m b).1.rows ≡ b.rows) → Keeps m
  same_rows m h = record { kept = λ b t. ap (λ ts. column c (ts t)) (h b) }

  pub pure-Keeps : {A : Type 0} (a : A) → Keeps (pure a)
  pure-Keeps a = record { kept = λ b t. refl }

  pub return-Keeps : {A : Type 0} (r : Result A) → Keeps (return r)
  return-Keeps r = record { kept = λ b t. refl }

  resume-Keeps :
      {A B : Type 0} (f : A → Action Backend B)
      → ((a : A) → Keeps (f a))
      → (r : Result A) (b : Backend) (t : String)
      → column c ((resume r f b).1.rows t) ≡ column c (b.rows t)
  resume-Keeps f h (ok a) b t = (h a).kept b t
  resume-Keeps f h (err e) b t = refl
  resume-Keeps f h panic b t = refl

  pub bind-Keeps :
      {A B : Type 0} {m : Action Backend A} {f : A → Action Backend B}
      → Keeps m
      → ((a : A) → Keeps (f a))
      → Keeps (m >>= f)
  bind-Keeps {m} {f} h k = record { kept = λ b t. resume-Keeps f k (m b).0 (m b).1 t ∙ h.kept b t }

  pub attempt-Keeps : {A : Type 0} {m : Action Backend A} → Keeps m → Keeps (attempt m)
  attempt-Keeps h = record { kept = λ b t. h.kept b t }

  pub wrapping-Keeps :
      {A : Type 0} {m : Action Backend A} (message : String) → Keeps m → Keeps (wrapping message m)
  wrapping-Keeps message h = record { kept = λ b t. h.kept b t }

  pub if-Keeps :
      {A : Type 0} {m n : Action Backend A} (p : Bool)
      → Keeps m
      → Keeps n
      → Keeps (if p then m else n)
  if-Keeps true h k = h
  if-Keeps false h k = k

  pub get_device_by_udid-Keeps :
      (u : String) (fields : List String) → Keeps (get_device_by_udid tables u fields)
  unfolding get_device_by_udid
  get_device_by_udid-Keeps u fields =
      bind-Keeps
        (same_rows
          (tables.get (record { table = "devices"; columns = fields })
            (record { column = "udid"; value = text u }))
          (λ b. refl))
        (λ r. return-Keeps _)

  -- `Save` keeps a column that its UPDATE does not name.
  pub save-Keeps :
      (msg : String) (d : Device)
      → ((q : Update) → save_statement msg ≡ ok q → member c q.columns ≡ false)
      → Keeps (save tables msg d)
  unfolding save
  save-Keeps msg d h = record { kept = λ b t. split (save_statement msg) refl b t }
    where
      split :
          (r : Result Update)
          → save_statement msg ≡ r
          → (b : Backend) (t : String)
          → column c ((resume r (λ q. tables.named_exec q (named d)) b).1.rows t)
            ≡ column c (b.rows t)
      split (ok q) e b t = update_columns q (named d) b c t (h q e)
      split (err x) e b t = refl
      split panic e b t = refl
