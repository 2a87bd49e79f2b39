-- ===== src/Startup/Bounds.antt =====
-- How long the loop that waits for a store can take, whatever the store does.
use micromdm.Base.{
  ℕ, zero, suc, ◌+◌, ◌<◌, ◌≤◌, Option, none, Error, ◌≡◌, ◌≢◌, refl, inl, inr, arith,
}
use micromdm.Startup.Retry.{Store, retry, attempt_from, ≤_cases}

-- The seconds of the first `j` pauses.
unfoldable pub pauses : ℕ → ℕ
pauses zero = 0
pauses (suc j) = pauses j + suc j

pauses_mono : (j k : ℕ) → j ≤ k → pauses j ≤ pauses k
unfolding pauses
pauses_mono j zero le = ground arith
pauses_mono j (suc k) le = elim (≤_cases le) [
  | inl lt ↦ ground (arith, pauses_mono j k (omega (arith, lt)))
  | inr eq ↦ ground (arith, eq)
]

pauses_20 : pauses 20 ≡ 210
unfolding pauses
pauses_20 = refl

-- `pings` counts the pings of a world, and `slept` its seconds of sleep.
pub record Counts {W : Type 0} (s : Store W) (pings slept : W → ℕ) : Type 0 where
  pub ping_counts : (w : W) → pings (s.ping w).1 ≡ suc (pings w)
  pub ping_waits : (w : W) → slept (s.ping w).1 ≡ slept w
  pub sleep_counts : (n : ℕ) (w : W) → pings (s.sleep n w) ≡ pings w
  pub sleep_waits : (n : ℕ) (w : W) → slept (s.sleep n w) ≡ slept w + n

module _ {W : Type 0} (s : Store W) (pings slept : W → ℕ) (counts : Counts s pings slept) where
  within :
      (fuel j : ℕ) (e : Option Error) (w : W)
      → j ≤ 20
      → 20 < fuel + j
      → let (x, w') = attempt_from s fuel (suc j) e w in
        (x ≢ none) × (pings w' + j ≤ pings w + 20) × (slept w' + pauses j ≤ slept w + pauses 20)
  unfolding attempt_from pauses
  within zero j e w le room = ground arith
  within (suc fuel) j e w le room =
      let (r, w1) = s.ping w in
      let mono = pauses_mono j 20 le in
      elim (≤_cases le) [
        | inl lt ↦ ground (
          arith,
          mono,
          counts.ping_counts w,
          counts.ping_waits w,
          counts.sleep_counts (suc j) w1,
          counts.sleep_waits (suc j) w1,
          within fuel (suc j) r (s.sleep (suc j) w1) (omega (arith, lt)) (omega (arith, room)),
        )
        | inr eq ↦ ground (arith, eq)
      ]

  -- The loop that waits for a store ends before its fuel does, with at most 20 more pings and at
  -- most 210 more seconds of sleep, whatever the pings return: for any count of pings that a ping
  -- raises by one and a sleep leaves alone, and any count of seconds that a sleep of n raises by n
  -- and a ping leaves alone.
  pub retry-IsBounded :
      (w : W)
      → let (x, w') = retry s w in
        (x ≢ none) × (pings w' ≤ pings w + 20) × (slept w' ≤ slept w + 210)
  unfolding retry pauses
  retry-IsBounded w =
      let h = within 21 0 none w (omega arith) (omega arith) in
      (h.0, omega (arith, h.1), omega (arith, h.2))
