-- ===== src/Services/Lawful.antt =====
-- When a world behaves like the reference model: while its services can be reached, each call
-- returns what the model returns and changes what can be seen of the world as the model does.
use micromdm.Base.{
  ◌≡◌, refl, ap, Bool, true, ℕ, String, List, Action, Result, ok, err, panic, returned, answer,
  respond, Error, raise, false, if◌then◌else◌, pure, return, attempt, resume, wrapping,
  change_error, ◌>>=◌,
}
use mathlib.Core.Path.{subst, subst₂, sym}
use micromdm.Services.Redis.{Redis}
use micromdm.Services.Sql.{Insert, Value, Join, Update, Select, Condition, Row, Postgres}
use micromdm.Services.Backend.{Backend, cache, tables}

pub record World (W : Type 0) : Type 0 where
  pub view : W → Backend
  -- the services answer
  pub up : W → Bool

-- The two calls, made at a world and at what is seen of it, end alike.
abbrev pub EndsLike : {W A : Type 0} → World W → Result A × W → Result A × Backend → Type 0
EndsLike o (r, w) (r', b) = (r ≡ r') × (o.view w ≡ b) × (o.up w ≡ true)

pub record Behaves {W A : Type 0} (o : World W) (m : Action W A) (m' : Action Backend A)
    : Type 0 where
  pub run : (w : W) → o.up w ≡ true → EndsLike o (m w) (m' (o.view w))

abbrev value_or : {A : Type 0} → A → Result A → A
value_or d (ok a) = a
value_or d (err e) = d
value_or d panic = d

module _ {W : Type 0} {o : World W} where
  pub pure-Behaves : {A : Type 0} (a : A) → Behaves o (pure a) (pure a)
  pure-Behaves a = record { run = λ w u. (refl, refl, u) }

  pub return-Behaves : {A : Type 0} (r : Result A) → Behaves o (return r) (return r)
  return-Behaves r = record { run = λ w u. (refl, refl, u) }

  pub raise-Behaves : {A : Type 0} (e : Error) → Behaves o (raise {A = A} e) (raise e)
  raise-Behaves e = record { run = λ w u. (refl, refl, u) }

  pub if-Behaves :
      {A : Type 0} {m n : Action W A} {m' n' : Action Backend A} (b : Bool)
      → Behaves o m m'
      → Behaves o n n'
      → Behaves o (if b then m else n) (if b then m' else n')
  if-Behaves true h k = h
  if-Behaves false h k = k

  resume-EndsLike :
      {A B : Type 0} (f : A → Action W B) (f' : A → Action Backend B)
      → ((a : A) → Behaves o (f a) (f' a))
      → (x : Result A × W) (y : Result A × Backend) → EndsLike o x y
      → EndsLike o (resume x.0 f x.1) (resume y.0 f' y.1)
  resume-EndsLike f f' h (ok a, w) (ok a', b) (p, q, u) =
      subst (λ c. EndsLike o (f a w) (f' c b)) (ap (value_or a) p)
        (subst (λ v. EndsLike o (f a w) (f' a v)) q ((h a).run w u))
  resume-EndsLike f f' h (ok a, w) (err e', b) (p, q, u) = cc
  resume-EndsLike f f' h (ok a, w) (panic, b) (p, q, u) = cc
  resume-EndsLike f f' h (err e, w) (ok a', b) (p, q, u) = cc
  resume-EndsLike f f' h (err e, w) (panic, b) (p, q, u) = cc
  resume-EndsLike f f' h (panic, w) (ok a', b) (p, q, u) = cc
  resume-EndsLike f f' h (panic, w) (err e', b) (p, q, u) = cc
  resume-EndsLike f f' h (panic, w) (panic, b) (p, q, u) = (refl, q, u)
  resume-EndsLike f f' h (err e, w) (err e', b) (p, q, u) = (cc, q, u)

  pub bind-Behaves :
      {A B : Type 0} {m : Action W A} {m' : Action Backend A} {f : A → Action W B}
      {f' : A → Action Backend B}
      → Behaves o m m'
      → ((a : A) → Behaves o (f a) (f' a))
      → Behaves o (m >>= f) (m' >>= f')
  bind-Behaves {m} {m'} {f} {f'} h k = record {
    run = λ w u. resume-EndsLike f f' k (m w) (m' (o.view w)) (h.run w u);
  }

  pub attempt-Behaves :
      {A : Type 0} {m : Action W A} {m' : Action Backend A}
      → Behaves o m m'
      → Behaves o (attempt m) (attempt m')
  attempt-Behaves h = record {
    run = λ w u. (ap returned (h.run w u).0, (h.run w u).1, (h.run w u).2);
  }

  pub wrapping-Behaves :
      {A : Type 0} {m : Action W A} {m' : Action Backend A} (message : String)
      → Behaves o m m'
      → Behaves o (wrapping message m) (wrapping message m')
  wrapping-Behaves message h = record {
    run =
        λ w u. (ap (change_error (Error.wrap message)) (h.run w u).0, (h.run w u).1, (h.run w u).2);
  }

module _ {W A R : Type 0} {o : World W} (good : A → R) (bad : Error → R) where
  answer-Behaves : (r : Result A) → Behaves o (answer good bad r) (answer good bad r)
  answer-Behaves (ok a) = pure-Behaves (good a)
  answer-Behaves (err e) = pure-Behaves (bad e)
  answer-Behaves panic = return-Behaves panic

  pub respond-Behaves :
      {m : Action W A} {m' : Action Backend A}
      → Behaves o m m'
      → Behaves o (respond good bad m) (respond good bad m')
  respond-Behaves h = bind-Behaves (attempt-Behaves h) answer-Behaves

-- What holds of a call over the model holds of it in a world that behaves like the model.
pub transfer {ℓ} :
    {W A : Type 0} {o : World W} {m : Action W A} {m' : Action Backend A}
    (P : Result A → Backend → Type ℓ)
    → Behaves o m m'
    → (w : W) → o.up w ≡ true
    → P (m' (o.view w)).0 (m' (o.view w)).1
    → P (m w).0 (o.view (m w).1)
transfer P h w u p = subst₂ P (sym (h.run w u).0) (sym (h.run w u).1) p

-- What the program relies on of Redis.
pub record IsRedis {W : Type 0} (o : World W) (r : Redis W) : Type 0 where
  pub set : (k v : String) → Behaves o (r.set k v) (cache.set k v)
  pub get : (k : String) → Behaves o (r.get k) (cache.get k)
  pub lpush : (k v : String) → Behaves o (r.lpush k v) (cache.lpush k v)
  pub rpush : (k v : String) → Behaves o (r.rpush k v) (cache.rpush k v)
  pub lpop : (k : String) → Behaves o (r.lpop k) (cache.lpop k)
  pub lrem : (k v : String) → Behaves o (r.lrem k v) (cache.lrem k v)
  pub llen : (k : String) → Behaves o (r.llen k) (cache.llen k)
  pub lrange : (k : String) → Behaves o (r.lrange k) (cache.lrange k)
  pub expire : (k : String) (n : ℕ) → Behaves o (r.expire k n) (cache.expire k n)

-- What the program relies on of PostgreSQL: for every value here, where a real one asks that a value
-- respects the type of its column.
pub record IsPostgres {W : Type 0} (o : World W) (p : Postgres W) : Type 0 where
  pub query_row :
      (q : Insert) (vs : List Value) → Behaves o (p.query_row q vs) (tables.query_row q vs)
  pub exec : (q : Insert) (vs : List Value) → Behaves o (p.exec q vs) (tables.exec q vs)
  pub named_exec : (q : Update) (r : Row) → Behaves o (p.named_exec q r) (tables.named_exec q r)
  pub get : (q : Select) (c : Condition) → Behaves o (p.get q c) (tables.get q c)
  pub select : (q : Select) (s : String) → Behaves o (p.select q s) (tables.select q s)
  pub select_by : (q : Select) (c : Condition) → Behaves o (p.select_by q c) (tables.select_by q c)
  pub delete : (t : String) (qs : List Condition) → Behaves o (p.delete t qs) (tables.delete t qs)
  pub delete_where : (t s : String) → Behaves o (p.delete_where t s) (tables.delete_where t s)
  pub select_join :
      (q : Join) (c : Condition) → Behaves o (p.select_join q c) (tables.select_join q c)
  pub begin : Behaves o p.begin tables.begin
  pub commit : Behaves o p.commit tables.commit
  pub rollback : Behaves o p.rollback tables.rollback
