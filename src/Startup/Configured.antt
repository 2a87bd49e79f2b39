-- ===== src/Startup/Configured.antt =====
-- main.go: what the helpers for flags and variables come to.
use mathlib.Core.List.{Mem, mem-cons_self, mem-cons_of_mem, not-mem-nil, eq-or-mem_of_mem-cons}
use mathlib.Core.Logic.Or
use mathlib.Core.Bool.{Bool-set}
use mathlib.Core.Path.{subst}
use micromdm.Base.{
  String, ◌==◌, string_dec, true, false, List, [], ◌∷◌, ◌≡◌, ◌≢◌, ◌↔◌, refl, sym, Bool-cases, inl,
  inr, arith,
}
use micromdm.Startup.Flags.{Flags, flags, env_string, env_bool, check_empty_args}

found : (args : List String) → check_empty_args args ≡ true → Mem "" args
unfolding check_empty_args
found [] h = ground (arith, h)
found (arg ∷ args) h = elim (Bool-cases (arg == "")) [
  | inl e ↦ subst (λ z. Mem "" (z ∷ args)) (ground (arith, e)) mem-cons_self
  | inr n ↦ mem-cons_of_mem arg (found args (ground (arith, h, n)))
]

missed : (args : List String) → Mem "" args → check_empty_args args ≡ true
unfolding check_empty_args
missed [] m = elim (not-mem-nil m) [ ]
missed (arg ∷ args) m = elim (Bool-cases (arg == "")) [
  | inl e ↦ ground (arith, e)
  | inr n ↦
      Or.elim (Bool-set _ _) (eq-or-mem_of_mem-cons m) (λ e. ground (arith, sym e))
        (λ k. ground (arith, missed args k))
]

-- checkEmptyArgs is true iff the empty text is one of its arguments.
pub check_empty_args_iff : (args : List String) → (check_empty_args args ≡ true) ↔ Mem "" args
check_empty_args_iff args = (found args, missed args)

module _ (getenv getenv' : String → String)
    (same : (key : String) → key ≢ "MICROMDM_USE_TLS" → getenv key ≡ getenv' key) where
  other : (key : String) → (key == "MICROMDM_USE_TLS") ≡ false → getenv key ≡ getenv' key
  other key differs = same key (λ e. ground (arith, differs, e))

  -- Two environments that agree on every variable but MICROMDM_USE_TLS give the same flags,
  -- whatever the command line.
  pub tls_variable_is_ignored : (parse : Flags → Flags) → flags getenv parse ≡ flags getenv' parse
  unfolding flags env_string env_bool string_dec
  tls_variable_is_ignored parse = rw (
    other "MICROMDM_URL" refl,
    other "MICROMDM_HTTP_LISTEN_PORT" refl,
    other "MICROMDM_TLS_CERT" refl,
    other "MICROMDM_TLS_KEY" refl,
    other "MICROMDM_TLS_CA_CERT" refl,
    other "MICROMDM_SCEP_URL" refl,
    other "MICROMDM_SCEP_CHALLENGE" refl,
    other "MICROMDM_POSTGRES_CONN_URL" refl,
    other "MICROMDM_REDIS_CONN_URL" refl,
    other "MICROMDM_PUSH_CERT" refl,
    other "MICROMDM_PUSH_PASS" refl,
    other "MICROMDM_ENROLL_PROFILE" refl,
    other "DEP_CONSUMER_KEY" refl,
    other "DEP_CONSUMER_SECRET" refl,
    other "DEP_ACCESS_TOKEN" refl,
    other "DEP_ACCESS_SECRET" refl,
    other "DEP_USE_DEPSIM" refl,
    other "DEP_SERVER_URL" refl,
    other "MICROMDM_PKG_REPO" refl,
    other "MICROMDM_CORS_ORIGIN" refl,
  )
