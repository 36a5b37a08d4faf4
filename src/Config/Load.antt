-- ===== src/Config/Load.antt =====
-- src/config.rs: the defaults of the settings that a configuration omits, and `Config::load`. The file
-- and the crates `toml` and `serde` are parameters: they read the file into a `RawConfig`, the fields
-- of which are those of the configuration's types, omitted or not.
pub mod Loaded
use llm_conduit.Prelude.{
  ℕ, List, [], ◌∷◌, ◌++◌, Option, none, some, Bool, true, false, Result, ok, ◌>>=◌, ◌>>◌, map_err,
  unwrap_or,
}
use llm_conduit.Prelude.Map.{Map}
use llm_conduit.Prelude.Text.{Text, codes}
use llm_conduit.Errors.{StartupError}
use llm_conduit.Http.{Uris}
use llm_conduit.Config.{
  Config, ServerConfig, HealthConfig, HealthMode, models, tcp, TlsServerConfig, AuthConfig,
  UpstreamConfig, validate,
}

abbrev pub default_max_body_bytes : ℕ
default_max_body_bytes = 200000000

abbrev pub default_true : Bool
default_true = true

abbrev pub default_health_interval_secs : ℕ
default_health_interval_secs = 10

abbrev pub default_health_timeout_secs : ℕ
default_health_timeout_secs = 2

-- `#[default]` of `HealthMode`
abbrev pub default_mode : HealthMode
default_mode = models

-- `HealthConfig::default`
unfoldable pub default_health : HealthConfig
default_health = record {
  enabled = true;
  interval_secs = default_health_interval_secs;
  timeout_secs = default_health_timeout_secs;
  mode = default_mode;
}

-- `HealthMode::as_str`
unfoldable pub as_str : HealthMode → Text
as_str models = codes "models"
as_str tcp = codes "tcp"

pub record RawHealth : Type 0 where
  pub enabled : Option Bool
  pub interval_secs : Option ℕ
  pub timeout_secs : Option ℕ
  pub mode : Option HealthMode

pub record RawServer : Type 0 where
  pub listen : Text
  pub default_upstream : Option Text
  pub max_body_bytes : Option ℕ
  pub tls : Option TlsServerConfig
  pub health : Option RawHealth

pub record RawAuth : Type 0 where
  pub enabled : Option Bool
  pub keys : Option (Map Text)

pub record RawUpstream : Type 0 where
  pub base_url : Text
  pub api_key : Option Text
  pub upstream_model : Option Text
  pub insecure_skip_verify : Option Bool

pub record RawConfig : Type 0 where
  pub server : RawServer
  pub auth : Option RawAuth
  pub upstreams : Map RawUpstream

-- The attributes `#[serde(default ...)]` of each struct.
unfoldable pub health_config_of : RawHealth → HealthConfig
health_config_of raw = record {
  enabled = unwrap_or raw.enabled default_true;
  interval_secs = unwrap_or raw.interval_secs default_health_interval_secs;
  timeout_secs = unwrap_or raw.timeout_secs default_health_timeout_secs;
  mode = unwrap_or raw.mode default_mode;
}

unfoldable pub health_or_default : Option RawHealth → HealthConfig
health_or_default none = default_health
health_or_default (some raw) = health_config_of raw

unfoldable pub server_of : RawServer → ServerConfig
server_of raw = record {
  listen = raw.listen;
  default_upstream = raw.default_upstream;
  max_body_bytes = unwrap_or raw.max_body_bytes default_max_body_bytes;
  tls = raw.tls;
  health = health_or_default raw.health;
}

unfoldable pub auth_of : Option RawAuth → AuthConfig
auth_of none = record { enabled = false; keys = [] }
auth_of (some raw) = record { enabled = unwrap_or raw.enabled false; keys = unwrap_or raw.keys [] }

unfoldable pub upstream_config_of : RawUpstream → UpstreamConfig
upstream_config_of raw = record {
  base_url = raw.base_url;
  api_key = raw.api_key;
  upstream_model = raw.upstream_model;
  insecure_skip_verify = unwrap_or raw.insecure_skip_verify false;
}

unfoldable pub upstream_configs_of : Map RawUpstream → Map UpstreamConfig
upstream_configs_of [] = []
upstream_configs_of ((name, raw) ∷ rest) = (name, upstream_config_of raw) ∷ upstream_configs_of rest

unfoldable pub config_of : RawConfig → Config
config_of raw = record {
  server = server_of raw.server;
  auth = auth_of raw.auth;
  upstreams = upstream_configs_of raw.upstreams;
}

-- The file system and the TOML reader; their failures are the texts that are printed.
pub record ConfigFiles : Type 0 where
  pub read_to_string : Text → Result Text Text
  pub from_str : Text → Result Text RawConfig

abbrev at_path : Text → Text → Text → Text
at_path message path e = message ++ (path ++ (codes ": " ++ e))

module _ (files : ConfigFiles) (u : Uris) {Addr : Type 0} (parse_addr : Text → Option Addr) where
  -- `Config::load`
  unfoldable pub load : Text → Result StartupError Config
  load path = do
    text ← map_err (at_path (codes "failed to read config file ") path) (files.read_to_string path)
    raw ← map_err (at_path (codes "failed to parse config file ") path) (files.from_str text)
    map_err (at_path (codes "invalid config file ") path) (validate u parse_addr (config_of raw))
    ok (config_of raw)
