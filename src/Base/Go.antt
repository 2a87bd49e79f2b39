-- ===== src/Base/Go.antt =====
-- Go's errors as values, and a call that may change the state of the world and fail.
use Prim.Native.String.{String}

-- The sentinel errors that the code compares with, and errors that carry a text or wrap another.
pub data Error : Type 0 where
  -- redis.ErrNil, sql.ErrNoRows and io.EOF
  nil_reply no_rows eof : Error
  -- the sentinels of the packages command, connect, checkin, management and workflow
  no_key command_empty_request command_bad_routing : Error
  connect_invalid_message_type checkin_invalid_message_type : Error
  not_found management_empty_request management_bad_routing bad_uuid exists : Error
  -- errors.New and fmt.Errorf; a fault of a library or a service; errors.Wrap
  new : String → Error
  fault : String → Error
  wrap : String → Error → Error
  -- go-kit's `http.Error`, around an error that its server hands to an error encoder
  kit : Error → Error

pub data Result {ℓ} (A : Type ℓ) : Type ℓ where
  ok : A → Result A
  err : Error → Result A
  -- a run-time panic, which no caller in the repository recovers
  panic : Result A

-- A Go function over the state `W`: what it returns, and the state that it leaves.
abbrev pub Action : Type 0 → Type 0 → Type 0
Action W A = W → Result A × W

abbrev pub change_error {ℓ} : {A : Type ℓ} → (Error → Error) → Result A → Result A
change_error g (ok a) = ok a
change_error g (err e) = err (g e)
change_error g panic = panic

-- What `v, err := m()` binds: any return, but no panic.
abbrev pub returned {ℓ} : {A : Type ℓ} → Result A → Result (Result A)
returned (ok a) = ok (ok a)
returned (err e) = ok (err e)
returned panic = panic

module _ {W A : Type 0} where
  abbrev pub pure : A → Action W A
  pure a w = (ok a, w)

  abbrev pub raise : Error → Action W A
  raise e w = (err e, w)

  abbrev pub return : Result A → Action W A
  return r w = (r, w)

  -- `v, err := m()` where the code looks at `err` itself.
  abbrev pub attempt : Action W A → Action W (Result A)
  attempt m w = (returned (m w).0, (m w).1)

  -- `if err != nil { return f(err) }`
  abbrev pub resume : {B : Type 0} → Result A → (A → Action W B) → Action W B
  resume (ok a) f w = f a w
  resume (err e) f w = (err e, w)
  resume panic f w = (panic, w)

  -- `return errors.Wrap(err, message)` on an error, or `fmt.Errorf("message: %s", err)`, which has
  -- the same text.
  abbrev pub wrapping : String → Action W A → Action W A
  wrapping message m w = (change_error (wrap message) (m w).0, (m w).1)

infixl 5 ◌>>=◌ ◌>>◌
abbrev pub ◌>>=◌ : {W A B : Type 0} → Action W A → (A → Action W B) → Action W B
◌>>=◌ m f w = resume (m w).0 f (m w).1

abbrev pub ◌>>◌ : {W A B : Type 0} → Action W A → Action W B → Action W B
m >> k = m >>= λ _. k

-- What an endpoint does with the result of a service call: a response either way.
module _ {W : Type 0} where
  -- A call whose error is put into the response.
  abbrev pub answer : {A R : Type 0} → (A → R) → (Error → R) → Result A → Action W R
  answer good bad (ok a) = pure (good a)
  answer good bad (err e) = pure (bad e)
  answer good bad panic = return panic

  abbrev pub respond : {A R : Type 0} → (A → R) → (Error → R) → Action W A → Action W R
  respond good bad m = attempt m >>= answer good bad
