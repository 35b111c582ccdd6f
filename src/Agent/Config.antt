-- ===== src/Agent/Config.antt =====
-- drop/agent/Config.h and Config.cpp. The JSON library is not part of the program: its operations are
-- the argument `lib`, and each may throw.
pub mod Loading
use mini_drop.Base.{ℕ, String, Bool, true, false, Option, none, some, List, [], ◌∷◌}

pub data LoadError : Type 0 where
  cannot_open : String → LoadError
  json_error : String → LoadError
  no_servers : LoadError

-- A value, or the exception that the call throws.
pub data Result {ℓ} (A : Type ℓ) : Type ℓ where
  thrown : LoadError → Result A
  returned : A → Result A

infixl 5 ◌>>=◌
abbrev pub ◌>>=◌ {ℓ κ} : {A : Type ℓ} {B : Type κ} → Result A → (A → Result B) → Result B
thrown error >>= next = thrown error
returned x >>= next = next x

-- `ifs >> j`, `at`, `get` at two types, and `value` at two types with its default.
pub record JsonLib : Type 1 where
  pub Json : Type 0
  pub parse : String → Result Json
  pub at : Json → String → Result Json
  pub get_string : Json → Result String
  pub get_strings : Json → Result (List String)
  pub value_string : Json → String → String → Result String
  pub value_bool : Json → String → Bool → Result Bool

pub record MinioConfig : Type 0 where
  pub endpoint : String
  pub access_key : String
  pub secret_key : String
  pub bucket : String
  pub use_ssl : Bool

pub record AgentConfig : Type 0 where
  pub server_ips : List String
  pub agent_uid : String
  pub agent_version : String
  pub minio : MinioConfig
  pub log_level : String

abbrev pub open_file : Option String → String → Result String
open_file none path = thrown (cannot_open path)
open_file (some text) path = returned text

abbrev pub not_empty : List String → Result (Unit {0})
not_empty [] = thrown no_servers
not_empty (ip ∷ ips) = returned tt

module _ (lib : JsonLib) where
  open lib use {Json, parse, at, get_string, get_strings, value_string, value_bool}

  unfoldable pub load_minio : Json → Result MinioConfig
  load_minio m = do
    endpoint ← at m "endpoint" >>= get_string
    access_key ← at m "access_key" >>= get_string
    secret_key ← at m "secret_key" >>= get_string
    bucket ← at m "bucket" >>= get_string
    use_ssl ← value_bool m "use_ssl" false
    returned (record {
      endpoint = endpoint;
      access_key = access_key;
      secret_key = secret_key;
      bucket = bucket;
      use_ssl = use_ssl;
    })

  unfoldable pub load_fields : Json → Result AgentConfig
  unfolding load_minio
  load_fields j = do
    server_ips ← at j "server_ips" >>= get_strings
    agent_uid ← at j "agent_uid" >>= get_string
    agent_version ← at j "agent_version" >>= get_string
    log_level ← value_string j "log_level" "info"
    m ← at j "minio"
    minio ← load_minio m
    checked ← not_empty server_ips
    returned (record {
      server_ips = server_ips;
      agent_uid = agent_uid;
      agent_version = agent_version;
      minio = minio;
      log_level = log_level;
    })

  -- `files` gives the text of each file that can be opened.
  unfoldable pub load_config : (String → Option String) → String → Result AgentConfig
  unfolding load_fields
  load_config files path = do text ← open_file (files path) path; j ← parse text; load_fields j
