-- ===== src/Tests/Startup.antt =====
-- The theorems on the start of a server, at stores that answer at the second ping or never.
use micromdm.Base.{
  ℕ, suc, ◌+◌, ◌≤◌, String, ◌==◌, true, Option, none, some, [], ◌∷◌, Error, ◌≡◌, ◌≢◌, ◌↔◌, refl,
  arith, ltb, if◌then◌else◌,
}
use mathlib.Core.List.{Mem}
use micromdm.Startup.Retry.{Store, retry}
use micromdm.Startup.Bounds.{Counts, retry-IsBounded}
use micromdm.Startup.Flags.{flags, check_empty_args}
use micromdm.Startup.Configured.{check_empty_args_iff, tls_variable_is_ignored}

-- The world counts pings and seconds.
abbrev World : Type 0
World = ℕ × ℕ

abbrev ping : ℕ → World → Option Error × World
ping needed (pings, slept) =
    (if ltb pings needed then some (Error.fault "refused") else none, (suc pings, slept))

abbrev sleep : ℕ → World → World
sleep n (pings, slept) = (pings, slept + n)

abbrev store : ℕ → Store World
store needed = record { ping = ping needed; sleep = sleep }

store-Counts : (needed : ℕ) → Counts (store needed) (λ w. w.0) (λ w. w.1)
store-Counts needed = record {
  ping_counts = λ w. refl;
  ping_waits = λ w. refl;
  sleep_counts = λ n w. refl;
  sleep_waits = λ n w. refl;
}

retry-IsBounded_example :
    let (x, w') = retry (store 50) (0, 0) in (x ≢ none) × (w'.0 ≤ 0 + 20) × (w'.1 ≤ 0 + 210)
retry-IsBounded_example = retry-IsBounded (store 50) (λ w. w.0) (λ w. w.1) (store-Counts 50) (0, 0)

check_empty_args_iff_example :
    (check_empty_args ("cert" ∷ "" ∷ []) ≡ true) ↔ Mem {A = String} "" ("cert" ∷ "" ∷ [])
check_empty_args_iff_example = check_empty_args_iff ("cert" ∷ "" ∷ [])

abbrev environment : String → String
environment k = if k == "MICROMDM_USE_TLS" then "false" else ""

abbrev no_environment : String → String
no_environment k = ""

tls_variable_is_ignored_example : flags environment (λ fl. fl) ≡ flags no_environment (λ fl. fl)
tls_variable_is_ignored_example =
    tls_variable_is_ignored environment no_environment (λ k n. ground (arith, n)) (λ fl. fl)
