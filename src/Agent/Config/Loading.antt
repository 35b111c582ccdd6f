-- ===== src/Agent/Config/Loading.antt =====
-- Config.cpp: what a loaded configuration comes from, and what fails.
use mini_drop.Base.{
  String, false, Option, some, [], ◌≡◌, ◌≢◌, ◌⊎◌, refl, arith, inl, inr, Option-cases,
}
use mini_drop.Agent.Config.{
  LoadError, Result, returned, thrown, ◌>>=◌, JsonLib, MinioConfig, AgentConfig, load_minio,
  load_fields, load_config,
}

pub Result-cases {ℓ} :
    {A : Type ℓ} (r : Result A) → ((a : A) × (r ≡ returned a)) ⊎ ((e : LoadError) × (r ≡ thrown e))
Result-cases (returned a) = inl (a, refl)
Result-cases (thrown e) = inr (e, refl)

module _ (lib : JsonLib) where
  open lib use {Json, parse, at, get_string, get_strings, value_string, value_bool}

  -- The credentials are the fields of the object; only `use_ssl` may be absent.
  pub record IsMinio (m : Json) (cfg : MinioConfig) : Type 0 where
    pub endpoint_read : (at m "endpoint" >>= get_string) ≡ returned cfg.endpoint
    pub access_key_read : (at m "access_key" >>= get_string) ≡ returned cfg.access_key
    pub secret_key_read : (at m "secret_key" >>= get_string) ≡ returned cfg.secret_key
    pub bucket_read : (at m "bucket" >>= get_string) ≡ returned cfg.bucket
    pub use_ssl_read : value_bool m "use_ssl" false ≡ returned cfg.use_ssl

  load_minio-IsMinio :
      (m : Json) (cfg : MinioConfig) → load_minio lib m ≡ returned cfg → IsMinio m cfg
  unfolding load_minio
  load_minio-IsMinio m cfg h = ground arith

  -- So is each field of the configuration; only `log_level` may be absent.
  pub record IsConfig (j : Json) (cfg : AgentConfig) : Type 0 where
    pub server_ips_read : (at j "server_ips" >>= get_strings) ≡ returned cfg.server_ips
    pub agent_uid_read : (at j "agent_uid" >>= get_string) ≡ returned cfg.agent_uid
    pub agent_version_read : (at j "agent_version" >>= get_string) ≡ returned cfg.agent_version
    pub log_level_read : value_string j "log_level" "info" ≡ returned cfg.log_level
    pub minio_read : (m : Json) × (at j "minio" ≡ returned m) × IsMinio m cfg.minio
    pub has_server : cfg.server_ips ≢ []

  load_fields-IsConfig :
      (j : Json) (cfg : AgentConfig) → load_fields lib j ≡ returned cfg → IsConfig j cfg
  unfolding load_fields
  load_fields-IsConfig j cfg h = elim (Result-cases (at j "minio")) [
    | inr (e, failed) ↦ absurd (ground arith)
    | inl (m, found) ↦ record {
      server_ips_read = ground arith;
      agent_uid_read = ground arith;
      agent_version_read = ground arith;
      log_level_read = ground arith;
      minio_read = (m, found, load_minio-IsMinio m cfg.minio (ground arith));
      has_server = λ none_left. ground arith;
    }
  ]

  -- If `LoadConfig` returns a configuration, the file could be opened and parsed, every field is the
  -- one that the file gives for its key, and there is a server. A missing file, text that is no JSON,
  -- a missing required key and an empty list of servers are all thrown.
  pub load_config-IsConfig :
      (files : String → Option String) (path : String) (cfg : AgentConfig)
      → load_config lib files path ≡ returned cfg
      → (text : String) × (j : Json) × (files path ≡ some text)
        × (parse text ≡ returned j)
        × IsConfig j cfg
  unfolding load_config
  load_config-IsConfig files path cfg h = elim (Option-cases (files path)) [
    | inl absent ↦ absurd (ground arith)
    | inr (text, opened) ↦ elim (Result-cases (parse text)) [
      | inr (e, failed) ↦ absurd (ground arith)
      | inl (j, parsed) ↦ (text, j, opened, parsed, load_fields-IsConfig j cfg (ground arith))
    ]
  ]
