-- ===== src/Main.antt =====
-- src/main.rs: the command line, and the way from a configuration file to a server that listens.
-- The arguments as `clap` parses them, the file system, the crates and the sockets are parameters;
-- `server::run` itself, which ends only with `Ok(())`, is Server.
pub mod Starts
pub mod Serves
pub mod Process
pub mod Ends
use llm_conduit.Prelude.{
  ℕ, List, [], ◌∷◌, ◌++◌, Option, none, some, Bool, Result, ok, err, ◌>>=◌, ◌>>◌, map_err,
  unwrap_or, is_some, if◌then◌else◌,
}
use llm_conduit.Prelude.Text.{Text, Bytes, codes}
use llm_conduit.Prelude.Map.{keys}
use llm_conduit.Json.{Printer}
use llm_conduit.Errors.{StartupError}
use llm_conduit.Http.{Headers, Uris}
use llm_conduit.Serde.{SerdeJson}
use llm_conduit.Config.{TlsServerConfig, Config, HealthConfig, socket_addr}
use llm_conduit.Config.Load.{ConfigFiles, load}
use llm_conduit.Health.{HealthState}
use llm_conduit.Proxy.{Client}
use llm_conduit.Gateway.{Gateway}
use llm_conduit.Gateway.New.{Setup, new_gateway, spawn_health_prober}
use llm_conduit.Tls.{Pem, load_server_config, Crypto, Https, install_crypto_provider, build_client}

-- `Cli`: the positional argument, with its environment variable and its default, and the flag.
pub record Cli : Type 0 where
  pub config : Text
  pub config_flag : Option Text

unfoldable pub config_path : Cli → Text
config_path cli = unwrap_or cli.config_flag cli.config

-- The exit code of the process, and what it prints on standard error.
pub data Exit : Type 0 where
  success : Exit
  failure : Text → Exit

-- The log line of a start.
pub record StartupLine : Type 0 where
  pub listen : Text
  pub scheme : Text
  pub auth_enabled : Bool
  pub default_upstream : Text
  pub upstreams : List Text
  pub config_file : Text

unfoldable pub startup_line : {A : Type 0} → Text → Option A → Config → Text → StartupLine
startup_line listen tls_acceptor config path = record {
  listen = listen;
  scheme = if is_some tls_acceptor then codes "https" else codes "http";
  auth_enabled = config.auth.enabled;
  default_upstream = unwrap_or config.server.default_upstream (codes "-");
  upstreams = keys config.upstreams;
  config_file = path;
}

-- The lines that are logged ahead of that one.
pub data Notice : Type 0 where
  tls_enabled : Text → Notice
  probing_enabled : HealthConfig → Notice
  probing_disabled : Notice

unfoldable pub tls_notices : Option TlsServerConfig → List Notice
tls_notices none = []
tls_notices (some tls) = tls_enabled tls.cert_path ∷ []

-- `spawn_health_prober().is_some()`, with the settings of the configuration.
unfoldable pub probing_notice : HealthConfig → Bool → Notice
probing_notice health spawned = if spawned then probing_enabled health else probing_disabled

module _ (h : Headers) (u : Uris) (s : SerdeJson) (from_static : Text → h.HeaderValue)
    {Addr : Type 0} (parse_addr : Text → Option Addr) where
  -- What `run` takes from outside.
  pub record Host : Type 1 where
    pub files : ConfigFiles
    pub pem : Pem
    pub crypto : Crypto
    pub default_provider : Option crypto.Provider
    pub https : Https crypto
    pub client : https.HttpClient → Client h u
    pub print : Printer
    -- The time, in seconds, at which the listing of the models is made.
    pub created : ℕ
    pub Listener : Type 0
    pub bind : Addr → Result Text Listener
    pub show_addr : Addr → Text

  module _ (host : Host) where
    -- What stands when the accept loop begins.
    pub record Started : Type 0 where
      pub listener : host.Listener
      pub tls_acceptor : Option host.pem.ServerConfig
      pub gateway : Gateway h u s from_static
      pub health : HealthState
      -- What the probe loop was started with.
      pub probing : Option HealthConfig
      -- What was logged, in its order, and the line behind it.
      pub notices : List Notice
      pub line : StartupLine

    unfoldable pub acceptor_for :
        Option TlsServerConfig → Result StartupError (Option host.pem.ServerConfig)
    acceptor_for none = ok none
    acceptor_for (some tls) = do
      server_config ← load_server_config host.pem tls.cert_path tls.key_path
      ok (some server_config)

    -- The client of the upstreams, built behind `install_crypto_provider`.
    unfoldable pub http_client : Bool → Result StartupError (Client h u)
    http_client insecure_skip_verify = do
      client ←
          build_client host.crypto (install_crypto_provider host.crypto host.default_provider)
            host.https insecure_skip_verify
      ok (host.client client)

    abbrev pub setup : Setup h u s from_static parse_addr
    setup = record { build_client = http_client; print = host.print; created = host.created }

    unfoldable pub listen_on : Addr → Result StartupError host.Listener
    listen_on addr =
        map_err (λ e. codes "failed to bind " ++ (host.show_addr addr ++ (codes ": " ++ e)))
          (host.bind addr)

    -- `run` up to the accept loop.
    unfoldable pub start : Text → Result StartupError Started
    start path = do
      config ← load host.files u parse_addr path
      addr ← socket_addr u parse_addr config
      tls_acceptor ← acceptor_for config.server.tls
      (gateway, health) ← new_gateway h u s from_static parse_addr setup config
      listener ← listen_on addr
      ok (record {
        listener = listener;
        tls_acceptor = tls_acceptor;
        gateway = gateway;
        health = health;
        probing = spawn_health_prober h u s from_static gateway;
        notices =
            tls_notices config.server.tls
            ++ probing_notice config.server.health
                (is_some (spawn_health_prober h u s from_static gateway))
              ∷ [];
        line = startup_line (host.show_addr addr) tls_acceptor config path;
      })

    -- `main`, for a server that has come to its end.
    abbrev exit_of : Result StartupError Started → Exit
    exit_of (ok started) = success
    exit_of (err e) = failure (codes "llm-conduit: " ++ e)

    unfoldable pub main : Cli → Exit
    main cli = exit_of (start (config_path cli))
