-- ===== src/Startup/Outcome.antt =====
-- What the code of main.go may do besides returning: exit with a status (`os.Exit`), or panic.
use micromdm.Base.{ℕ, Result, ok, err, panic, Action, Bool, true, false}

pub data Outcome {ℓ} (A : Type ℓ) : Type ℓ where
  went_on : A → Outcome A
  exited : ℕ → Outcome A
  crashed : Outcome A

abbrev pub Start {ℓ} : Type 0 → Type ℓ → Type ℓ
Start W A = W → Outcome A × W

abbrev pub going {ℓ κ} : {A : Type ℓ} {B : Type κ} → Outcome A → (A → B) → Outcome B
going (Outcome.went_on a) f = Outcome.went_on (f a)
going (Outcome.exited n) f = Outcome.exited n
going Outcome.crashed f = Outcome.crashed

unfoldable pub next {ℓ κ} :
    {W : Type 0} {A : Type ℓ} {B : Type κ} → Outcome A → (A → Start W B) → Start W B
next (Outcome.went_on a) f w = f a w
next (Outcome.exited n) f w = (Outcome.exited n, w)
next Outcome.crashed f w = (Outcome.crashed, w)

infixl 5 ◌>>=◌
abbrev pub ◌>>=◌ {ℓ κ} :
    {W : Type 0} {A : Type ℓ} {B : Type κ} → Start W A → (A → Start W B) → Start W B
m >>= f = λ w. next (m w).0 f (m w).1

module _ {ℓ} {W : Type 0} {A : Type ℓ} where
  abbrev pub go : A → Start W A
  go a w = (Outcome.went_on a, w)

  abbrev pub exit : ℕ → Start W A
  exit n w = (Outcome.exited n, w)

abbrev pub tested : Bool → Outcome (Unit {0})
tested true = Outcome.exited 1
tested false = Outcome.went_on tt

-- `if test { … os.Exit(1) }`
abbrev pub exit_if : {W : Type 0} → Bool → Start W (Unit {0})
exit_if test w = (tested test, w)

abbrev pub or_exit : {A : Type 0} → Result A → Outcome A
or_exit (ok a) = Outcome.went_on a
or_exit (err e) = Outcome.exited 1
or_exit panic = Outcome.crashed

-- `if err != nil { … os.Exit(1) }`
abbrev pub must : {W A : Type 0} → Action W A → Start W A
must m w = (or_exit (m w).0, (m w).1)
