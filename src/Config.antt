-- ===== src/Config.antt =====
-- src/config.rs: the configuration, its validation, and the upstreams that it resolves to. The TOML
-- text is read by a crate; `Config` is what it hands over.
pub mod Checked
pub mod Upstreams
pub mod Valid
pub mod Order
pub mod Load
pub mod Resolves
use llm_conduit.Prelude.{
  ℕ, List, [], ◌∷◌, ◌++◌, Option, none, some, Bool, true, false, not, ◌&&◌, ◌||◌, Result, ok, err,
  ◌>>=◌, ◌>>◌, if◌then◌else◌, is_empty, is_none, ◌==◌, and_then, ok_or, map_err, unwrap_or,
  trim_end_by,
}
use llm_conduit.Prelude.Map.{Map, get, insert}
use llm_conduit.Prelude.Text.{Text, codes, text_eq, trim}
use llm_conduit.Errors.{StartupError, GatewayError, internal}
use llm_conduit.Http.{Uris}

pub data HealthMode : Type 0 where
  models tcp : HealthMode

pub record HealthConfig : Type 0 where
  pub enabled : Bool
  pub interval_secs : ℕ
  pub timeout_secs : ℕ
  pub mode : HealthMode

pub record TlsServerConfig : Type 0 where
  pub cert_path : Text
  pub key_path : Text

pub record ServerConfig : Type 0 where
  pub listen : Text
  pub default_upstream : Option Text
  pub max_body_bytes : ℕ
  pub tls : Option TlsServerConfig
  pub health : HealthConfig

pub record AuthConfig : Type 0 where
  pub enabled : Bool
  pub keys : Map Text

pub record UpstreamConfig : Type 0 where
  pub base_url : Text
  pub api_key : Option Text
  pub upstream_model : Option Text
  pub insecure_skip_verify : Bool

pub record Config : Type 0 where
  pub server : ServerConfig
  pub auth : AuthConfig
  pub upstreams : Map UpstreamConfig

-- `is_some_and(|text| text.trim().is_empty())`
unfoldable pub is_blank : Option Text → Bool
is_blank none = false
is_blank (some text) = is_empty (trim text)

abbrev pub refuse_if : Bool → Text → Result StartupError (Unit {0})
refuse_if true message = err message
refuse_if false message = ok tt

abbrev is_web : Option Text → Bool
is_web none = false
is_web (some scheme) = text_eq scheme (codes "http") || text_eq scheme (codes "https")

abbrev pub about : Text → Text → Text
about name message = codes "upstream '" ++ (name ++ (codes "': " ++ message))

abbrev quoted : Text → Text
quoted text = codes "\"" ++ (text ++ codes "\"")

-- `"/" | "" => String::new(), path => path.trim_end_matches('/').to_string()`
unfoldable pub prefix_of : Text → Text
prefix_of path =
    if text_eq path (codes "/") || is_empty path then [] else trim_end_by (λ c. c == b'/') path

unfoldable pub query_suffix : Option Text → Text
query_suffix none = []
query_suffix (some query) = b'?' ∷ query

unfoldable pub undefined_default : Option Text → Map UpstreamConfig → Bool
undefined_default none upstreams = false
undefined_default (some name) upstreams = is_none (get name upstreams)

module _ (u : Uris) where
  pub record Upstream : Type 0 where
    pub name : Text
    pub base : u.Uri
    pub path_prefix : Text
    pub api_key : Option Text
    pub upstream_model : Option Text
    pub insecure_skip_verify : Bool

  unfoldable pub parse_base_url : Text → Text → Result StartupError (u.Uri × Text)
  parse_base_url name base_url = do
    uri ←
        map_err
          (λ e.
            about name
              (codes "base_url " ++ (quoted base_url ++ (codes " is not a valid URI: " ++ e))))
          (u.parse base_url)
    refuse_if (not (is_web (u.scheme_str uri))) (
        about name (
          codes "base_url must use http:// or https:// (current scheme: "
          ++ (unwrap_or (u.scheme_str uri) (codes "none") ++ codes ")")))
    refuse_if (is_none (u.authority uri))
        (about name (codes "base_url " ++ (quoted base_url ++ codes " has no host")))
    refuse_if (not (is_none (u.query uri)))
        (about name (codes "base_url must not contain a query (put the path prefix in the path)"))
    ok (uri, prefix_of (u.path uri))

  abbrev pub upstream_of : Text → UpstreamConfig → u.Uri × Text → Upstream
  upstream_of name cfg parsed = record {
    name = name;
    base = parsed.0;
    path_prefix = parsed.1;
    api_key = cfg.api_key;
    upstream_model = cfg.upstream_model;
    insecure_skip_verify = cfg.insecure_skip_verify;
  }

  -- `Upstream::from_config`
  unfoldable pub from_config : Text → UpstreamConfig → Result StartupError Upstream
  from_config name cfg = do
    parsed ← parse_base_url name cfg.base_url
    ok (upstream_of name cfg parsed)

  -- `Upstream::target_uri`
  unfoldable pub target_uri : Upstream → u.Uri → Result GatewayError u.Uri
  target_uri up req = do
    authority ← ok_or (u.authority up.base) (internal (codes "upstream base_url has no host"))
    map_err (λ e. internal (codes "failed to build upstream URL: " ++ e))
        (u.build (unwrap_or (u.scheme_str up.base) (codes "http")) authority
          (up.path_prefix ++ (u.path req ++ query_suffix (u.query req))))

  unfoldable pub uses_tls : Upstream → Bool
  uses_tls up = elim (u.scheme_str up.base) [
    | none ↦ false
    | some scheme ↦ text_eq scheme (codes "https")
  ]

  -- The loop of `validate` over the upstreams: its body, and the loop.
  unfoldable pub validate_upstream : Text → UpstreamConfig → Result StartupError (Unit {0})
  validate_upstream name cfg = do
    refuse_if (is_empty (trim name)) (codes "upstream name must not be empty")
    _ ← parse_base_url name cfg.base_url
    refuse_if (is_blank cfg.api_key) (about name (codes "api_key must not be an empty string"))
    refuse_if (is_blank cfg.upstream_model)
        (about name (codes "upstream_model must not be an empty string"))

  unfoldable pub validate_upstreams : Map UpstreamConfig → Result StartupError (Unit {0})
  validate_upstreams [] = ok tt
  validate_upstreams ((name, cfg) ∷ rest) = do validate_upstream name cfg; validate_upstreams rest

  -- The loop of `resolve_upstreams`.
  unfoldable pub resolve_from :
      Map Upstream → Map UpstreamConfig → Result StartupError (Map Upstream)
  resolve_from resolved [] = ok resolved
  resolve_from resolved ((name, cfg) ∷ rest) = do
    up ← from_config name cfg
    resolve_from (insert name up resolved) rest

  unfoldable pub resolve_upstreams : Config → Result StartupError (Map Upstream)
  resolve_upstreams config = resolve_from [] config.upstreams

  -- `SocketAddr` is the standard library's: its parser is a parameter.
  module _ {Addr : Type 0} (parse_addr : Text → Option Addr) where
    unfoldable pub socket_addr : Config → Result StartupError Addr
    socket_addr config = ok_or (parse_addr config.server.listen) (
        codes "server.listen = "
        ++ (quoted config.server.listen ++ codes " is not a valid <IP>:<port>"))

    unfoldable pub validate : Config → Result StartupError (Unit {0})
    validate config = do
      refuse_if (is_empty (trim config.server.listen)) (codes "server.listen must not be empty")
      socket_addr config
      refuse_if (config.server.max_body_bytes == 0)
          (codes "server.max_body_bytes must be greater than 0")
      refuse_if (config.server.health.enabled && config.server.health.interval_secs == 0)
          (codes "server.health.interval_secs must be greater than 0")
      refuse_if (config.server.health.enabled && config.server.health.timeout_secs == 0)
          (codes "server.health.timeout_secs must be greater than 0")
      refuse_if (is_empty config.upstreams)
          (codes "at least one [upstreams.<name>] upstream must be configured")
      refuse_if (config.auth.enabled && is_empty config.auth.keys)
          (codes "auth.enabled = true but auth.keys is empty: every request would be rejected")
      validate_upstreams config.upstreams
      refuse_if (undefined_default config.server.default_upstream config.upstreams) (
          codes "server.default_upstream = "
          ++ (quoted (unwrap_or config.server.default_upstream [])
              ++ codes " is not defined in [upstreams]"))
