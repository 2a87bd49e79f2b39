-- ===== src/Startup/Retry.antt =====
-- The loop that waits for a store: lines 134 to 147 of main.go, `NewDB` of device, workflow,
-- application and certificate, and `checkRedisConn` of command/datastore.go.
use mathlib.Core.Path.{subst}
use micromdm.Base.{
  ℕ, zero, suc, ◌+◌, ◌<◌, ◌≤◌, Option, none, some, Error, ◌≡◌, ◌≢◌, refl, ◌⊎◌, inl, inr, ◌∙◌, sym,
  leb, if◌then◌else◌, arith,
}

-- `db.Ping()`, or a PING of Redis, and `time.Sleep` of a number of seconds.
pub record Store (W : Type 0) : Type 0 where
  pub ping : W → Option Error × W
  pub sleep : ℕ → W → W

abbrev pub max_attempts : ℕ
max_attempts = 20

pub ≤_cases : {j k : ℕ} → j ≤ k → (j < k) ⊎ (j ≡ k)
≤_cases {j} {k} le = grind arith

module _ {W : Type 0} (s : Store W) where
  -- `for attempts := 1; attempts <= maxAttempts; attempts++`, on fuel; the result is `dbError`.
  unfoldable pub attempt_from : (fuel attempts : ℕ) → Option Error → W → Option (Option Error) × W
  attempt_from zero attempts db_error w = (none, w)
  attempt_from (suc fuel) attempts db_error w =
      let (r, w') = s.ping w in
      let rest = attempt_from fuel (suc attempts) r (s.sleep attempts w') in
      if leb attempts max_attempts
      then elim r [ none ↦ (some none, w') | some e ↦ rest ]
      else (some db_error, w)

  -- One more than the attempts is fuel enough.
  unfoldable pub retry : W → Option (Option Error) × W
  retry w = attempt_from (suc max_attempts) 1 none w

  -- The world after `k` failed attempts.
  unfoldable pub after : ℕ → W → W
  after zero w = w
  after (suc k) w = s.sleep (suc k) (s.ping (after k w)).1

  abbrev pub Fails : W → ℕ → Type 0
  Fails w j = (s.ping (after j w)).0 ≢ none

  failed_once :
      (j fuel : ℕ) (e : Option Error) (w : W)
      → j < 20
      → Fails w j
      → attempt_from (suc fuel) (suc j) e (after j w)
        ≡ attempt_from fuel (suc (suc j)) (s.ping (after j w)).0 (after (suc j) w)
  unfolding attempt_from after
  failed_once j fuel e w le fails = ground arith

  succeeded :
      (j fuel : ℕ) (e : Option Error) (w : W)
      → j < 20
      → (s.ping (after j w)).0 ≡ none
      → attempt_from (suc fuel) (suc j) e (after j w) ≡ (some none, (s.ping (after j w)).1)
  unfolding attempt_from after
  succeeded j fuel e w le h = ground arith

  -- What the attempt before left in `dbError`.
  unfoldable last_error : W → ℕ → Option Error
  last_error w zero = none
  last_error w (suc j) = (s.ping (after j w)).0

  gave_up : (fuel : ℕ) (e : Option Error) (w : W) → attempt_from (suc fuel) 21 e w ≡ (some e, w)
  unfolding attempt_from
  gave_up fuel e w = refl

  -- From the attempt after `j` failures, where the one after `k` is the first that succeeds.
  walk :
      (fuel j k : ℕ) (e : Option Error) (w : W)
      → j ≤ k
      → k < 20
      → k < fuel + j
      → ((i : ℕ) → i < k → Fails w i)
      → (s.ping (after k w)).0 ≡ none
      → attempt_from fuel (suc j) e (after j w) ≡ (some none, (s.ping (after k w)).1)
  walk zero j k e w le small room fails h = ground arith
  walk (suc fuel) j k e w le small room fails h = elim (≤_cases le) [
    | inl lt ↦
        failed_once j fuel e w (omega (arith, lt, small)) (fails j lt)
        ∙ walk fuel (suc j) k _ w (omega (arith, lt)) small (omega (arith, room)) fails h
    | inr eq ↦
        subst
          (λ i. attempt_from (suc fuel) (suc j) e (after j w) ≡ (some none, (s.ping (after i w)).1))
          eq
          (succeeded j fuel e w (omega (arith, eq, small))
            (subst (λ i. (s.ping (after i w)).0 ≡ none) (sym eq) h))
  ]

  -- The same where all attempts fail.
  exhaust :
      (fuel j : ℕ) (w : W)
      → j ≤ 20
      → 20 < fuel + j
      → ((i : ℕ) → i < 20 → Fails w i)
      → attempt_from fuel (suc j) (last_error w j) (after j w)
        ≡ (some (last_error w 20), after 20 w)
  unfolding last_error
  exhaust zero j w le room fails = ground arith
  exhaust (suc fuel) j w le room fails = elim (≤_cases le) [
    | inl lt ↦
        failed_once j fuel (last_error w j) w lt (fails j lt)
        ∙ exhaust fuel (suc j) w (omega (arith, lt)) (omega (arith, room)) fails
    | inr eq ↦
        subst
          (λ i.
            attempt_from (suc fuel) (suc i) (last_error w i) (after i w)
            ≡ (some (last_error w 20), after 20 w))
          (sym eq) (gave_up fuel (last_error w 20) (after 20 w))
  ]

  -- Where an attempt among the first twenty succeeds.
  pub retry_connects :
      (w : W) (k : ℕ)
      → k < 20
      → ((j : ℕ) → j < k → Fails w j)
      → (s.ping (after k w)).0 ≡ none
      → retry w ≡ (some none, (s.ping (after k w)).1)
  unfolding retry after
  retry_connects w k small fails h =
      walk 21 0 k none w (omega arith) small (omega (arith, small)) fails h

  -- Where the first twenty attempts fail.
  pub retry_gives_up :
      (w : W)
      → ((j : ℕ) → j < 20 → Fails w j)
      → retry w ≡ (some (s.ping (after 19 w)).0, after 20 w)
  unfolding retry after last_error
  retry_gives_up w fails = exhaust 21 0 w (omega arith) (omega arith) fails
