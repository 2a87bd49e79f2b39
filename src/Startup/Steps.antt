-- ===== src/Startup/Steps.antt =====
-- A sequence of steps that goes on, taken apart.
use micromdm.Base.{ℕ, Bool, true, false, ◌≡◌, ◌≢◌, refl, ap, arith}
use micromdm.Startup.Outcome.{Start, Outcome, next, tested}

module _ {ℓ} {A : Type ℓ} {W : Type 0} where
  pub exited≢went_on :
      (n : ℕ) (a : A) (w w' : W)
      → ◌≢◌ {A = Outcome A × W} (Outcome.exited n, w) (Outcome.went_on a, w')
  exited≢went_on n a w w' h = ground (arith, ap (λ x. x.0) h)

  pub crashed≢went_on :
      (a : A) (w w' : W) → ◌≢◌ {A = Outcome A × W} (Outcome.crashed, w) (Outcome.went_on a, w')
  crashed≢went_on a w w' h = ground (arith, ap (λ x. x.0) h)

-- A sequence goes on only where each of its steps does.
module _ {ℓ κ} {W : Type 0} {A : Type ℓ} {B : Type κ} where
  pub outcome_went_on :
      (x : Outcome A) (f : A → Start W B) (w w' : W) (b : B)
      → next x f w ≡ (Outcome.went_on b, w')
      → (a : A) × (x ≡ Outcome.went_on a) × (f a w ≡ (Outcome.went_on b, w'))
  unfolding next
  outcome_went_on (Outcome.went_on a) f w w' b h = (a, refl, h)
  outcome_went_on (Outcome.exited n) f w w' b h = elim (exited≢went_on n b w w' h) [ ]
  outcome_went_on Outcome.crashed f w w' b h = elim (crashed≢went_on b w w' h) [ ]

-- What a step hands on.
or_else {ℓ} : {A : Type ℓ} → A → Outcome A → A
or_else a (Outcome.went_on b) = b
or_else a (Outcome.exited n) = a
or_else a Outcome.crashed = a

pub went_on_inj {ℓ} : {A : Type ℓ} {a b : A} → Outcome.went_on a ≡ Outcome.went_on b → a ≡ b
unfolding or_else
went_on_inj {a} h = ap (or_else a) h

-- A check that is passed.
pub passed : (t : Bool) (a : Unit {0}) → tested t ≡ Outcome.went_on a → t ≡ false
passed true a h = ground (arith, h)
passed false a h = refl

-- The steps reach the value `a`, and the world `w'`.
abbrev pub EndsIn : {W A : Type 0} → Start W A → W → A → W → Type 0
EndsIn m w a w' = m w ≡ (Outcome.went_on a, w')
