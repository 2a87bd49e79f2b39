-- ===== src/Startup/System.antt =====
-- What main.go calls of the operating system and of libraries, as parameters, and what it ends with.
use micromdm.Base.{ℕ, String, Bool, Option, List, Error, Result, Action}
use micromdm.Mdm.{CommandRequest, Plist, NewPayload, QueryResponses, DepDevice, Response}
use micromdm.Http.Reply.{Json, Call}
use micromdm.Http.Server.{Kit, Decoded, Route}
use micromdm.Enroll.Topic.{Name}
use micromdm.Management.Transport.{Bodies}
use micromdm.Checkin.Transport.{Decoders}
use micromdm.Startup.Flags.{Flags}
use micromdm.Startup.Stores.{Db, Pool}

-- dep.Config
pub record DepConfig : Type 0 where
  pub consumer_key : String
  pub consumer_secret : String
  pub access_token : String
  pub access_secret : String

-- push.Service: a client, and the host that it sends to.
pub record PushService (Client : Type 0) : Type 0 where
  pub client : Client
  pub host : String

pub record System (W Identity Client : Type 0) : Type 1 where
  -- os.Getenv; flag.Parse on a command line that it accepts; ioutil.ReadFile, time.Sleep and
  -- time.Now
  pub getenv : String → String
  pub parse : Flags → Flags
  pub read_file : String → Action W String
  pub sleep : ℕ → W → W
  pub now : Action W ℕ
  -- sql.Open and sqlx.Open, the pool of an address, and gomigrate
  pub open_sql : String → String → Action W (Db W)
  pub open_sqlx : String → String → Action W (Db W)
  pub pool : String → Pool W
  pub migrate : Db W → Action W (Unit {0})
  -- buford: certificate.Load, push.NewClient with certificate.TLS, push.Production, the check of a
  -- device token, and a notification
  pub load : String → String → Action W Identity
  pub new_client : Identity → Result Client
  pub production : String
  pub is_device_token_valid : String → Bool
  pub push : PushService Client → String → String → Action W String
  -- dep.NewClient, with `dep.ServerURL` where a URL is given; of the client, its `FetchDevices`
  pub new_dep_client : DepConfig → Option String → Result (Action W (List DepDevice))
  -- tls.LoadX509KeyPair down to the leaf, x509.ParseCertificate and Verify
  pub load_key_pair : String → String → Action W String
  pub parse_certificate : String → Result String
  pub verify : String → Option Error
  -- pkcs12, uuid, mdm and plist
  pub pkcs12 : String → String → Result (List Name)
  pub new_v4 : W → String × W
  pub new_payload : NewPayload W
  pub plist : Plist
  pub marshal : QueryResponses → Result String
  -- go-kit, and the encodings of the handlers
  pub kit : Kit W
  pub default_error_encoder : Error → List Call
  pub message : Error → String
  pub json : Json
  pub encode_plist : Json
  pub bodies : Bodies
  pub command_body : Result String → Decoded (Option CommandRequest)
  pub report : String → Result Response
  pub partial : Error → String
  pub checkin_decoders : Decoders

-- What `mux.Handle` is given: the routes of a package, or the files of a directory.
pub data Handler (W : Type 0) : Type 0 where
  routes : List (Route W) → Handler W
  files : String → Handler W

-- A server that listens: its address and certificate, its handlers, and the origin that CORS allows.
pub record Listening (W : Type 0) : Type 0 where
  pub address : String
  pub tls : Option (String × String)
  pub mux : List (String × Handler W)
  pub cors_origin : Option String
