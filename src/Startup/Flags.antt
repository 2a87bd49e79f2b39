-- ===== src/Startup/Flags.antt =====
-- main.go: the flags and the environment's variables.
use micromdm.Base.{
  String, ◌<>◌, ◌==◌, ◌||◌, Bool, true, false, Option, none, some, List, [], ◌∷◌, Error,
  if◌then◌else◌,
}

-- `getenv` is `os.Getenv`: empty where the variable is not set.
module _ (getenv : String → String) where
  unfoldable pub env_string : (key def : String) → String
  env_string key def = let env = getenv key in if env == "" then def else env

  unfoldable pub env_bool : String → Bool
  env_bool key = if getenv key == "true" then true else false

unfoldable pub check_empty_args : List String → Bool
check_empty_args [] = false
check_empty_args (arg ∷ args) = let rest = check_empty_args args in if arg == "" then true else rest

unfoldable pub check_tls_flags : (key cert : String) → Option Error
check_tls_flags key cert =
    if key == "" || cert == ""
    then some (Error.new "You must provide a valid path to a TLS cert and key")
    else none

unfoldable pub default_port : Bool → String
default_port tls = if tls then "443" else "80"

module _ (getenv : String → String) where
  abbrev pub or_default : String → String → String
  or_default value def = if value == "" then def else value

  -- `getPGConnFromENV`
  unfoldable pub get_pg_conn_from_env : (host : String) → String
  get_pg_conn_from_env host =
      let user = or_default (getenv "POSTGRES_ENV_POSTGRES_USER") "postgres" in
      let dbname = or_default (getenv "POSTGRES_ENV_POSTGRES_DB") user in
      let password = or_default (getenv "POSTGRES_ENV_POSTGRES_PASSWORD") "postgres" in
      let sslmode = or_default (getenv "POSTGRES_ENV_SSLMODE") "require" in
      "user=" <> user <> " password=" <> password <> " dbname=" <> dbname <> " sslmode=" <> sslmode
      <> " host=" <> host

  -- `getRedisConnFromENV`
  unfoldable pub get_redis_conn_from_env : (host : String) → String
  get_redis_conn_from_env host = host <> ":" <> getenv "REDIS_PORT_6379_TCP_PORT"

-- The flags.
pub record Flags : Type 0 where
  pub url : String
  pub port : String
  pub tls : Bool
  pub tls_cert : String
  pub tls_key : String
  pub tls_ca_cert : String
  pub scep_url : String
  pub scep_challenge : String
  pub pg_conn : String
  pub redis_conn : String
  pub version : Bool
  pub push_cert : String
  pub push_pass : String
  pub enrollment : String
  pub dep_ck : String
  pub dep_cs : String
  pub dep_at : String
  pub dep_as : String
  pub dep_sim : Bool
  pub dep_server_url : String
  pub pkg_repo : String
  pub cors_origin : String

module _ (getenv : String → String) where
  abbrev pub declared : Flags
  declared = record {
    url = env_string getenv "MICROMDM_URL" "";
    port = env_string getenv "MICROMDM_HTTP_LISTEN_PORT" "";
    tls = env_bool getenv "MICROMDM_USE_TLS";
    tls_cert = env_string getenv "MICROMDM_TLS_CERT" "";
    tls_key = env_string getenv "MICROMDM_TLS_KEY" "";
    tls_ca_cert = env_string getenv "MICROMDM_TLS_CA_CERT" "";
    scep_url = env_string getenv "MICROMDM_SCEP_URL" "";
    scep_challenge = env_string getenv "MICROMDM_SCEP_CHALLENGE" "";
    pg_conn = env_string getenv "MICROMDM_POSTGRES_CONN_URL" "";
    redis_conn = env_string getenv "MICROMDM_REDIS_CONN_URL" "";
    version = false;
    push_cert = env_string getenv "MICROMDM_PUSH_CERT" "";
    push_pass = env_string getenv "MICROMDM_PUSH_PASS" "";
    enrollment = env_string getenv "MICROMDM_ENROLL_PROFILE" "";
    dep_ck = env_string getenv "DEP_CONSUMER_KEY" "";
    dep_cs = env_string getenv "DEP_CONSUMER_SECRET" "";
    dep_at = env_string getenv "DEP_ACCESS_TOKEN" "";
    dep_as = env_string getenv "DEP_ACCESS_SECRET" "";
    dep_sim = env_bool getenv "DEP_USE_DEPSIM";
    dep_server_url = env_string getenv "DEP_SERVER_URL" "";
    pkg_repo = env_string getenv "MICROMDM_PKG_REPO" "";
    cors_origin = env_string getenv "MICROMDM_CORS_ORIGIN" "";
  }

  -- `*flTLS = true`, and `flag.Parse()`, which sets what the command line names.
  unfoldable pub flags : (parse : Flags → Flags) → Flags
  flags parse = parse (record declared { tls = true })
