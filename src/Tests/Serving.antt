-- ===== src/Tests/Serving.antt =====
-- src/server.rs, src/main.rs, src/tls.rs and `Config::load` at a concrete run.
use llm_conduit.Prelude.{
  ◌≡◌, refl, ℕ, List, [], ◌∷◌, none, some, Bool, true, false, ok, err, trim_start_by, trim_end_by,
}
use llm_conduit.Prelude.Map.{get, insert, keys}
use llm_conduit.Prelude.Text.{Text, Bytes, codes, text_eq, trim, is_whitespace}
use llm_conduit.Config.{
  validate, socket_addr, validate_upstreams, validate_upstream, parse_base_url, is_blank, prefix_of,
  undefined_default, resolve_upstreams, resolve_from, from_config,
}
use llm_conduit.Config.Load.{
  RawConfig, RawUpstream, ConfigFiles, config_of, server_of, auth_of, health_or_default,
  default_health, health_config_of, upstream_configs_of, upstream_config_of, load,
}
use llm_conduit.Health.{HealthState, new_state}
use llm_conduit.Gateway.New.{new_gateway, insecure_for, spawn_health_prober}
use llm_conduit.Gateway.Serve.{Served, serve}
use llm_conduit.Tls.{
  collect, Pem, load_certificates, load_private_key, load_server_config, Crypto, Https, connector,
  build_client, install_crypto_provider,
}
use llm_conduit.Server.{
  accepting, draining, returned, serving, closing, here, over, State, initial, Signals,
  is_signalled, tell, accept, signal, answer, last_answer, shut_down, Reach, stay, step, started,
  handled,
}
use llm_conduit.Server.Invariant.{IsSound, IsFinal, initial-reaches-IsSound}
use llm_conduit.Server.Shutdown.{count, IsBounded, Reach-IsBounded, IsReturning, Reach-IsReturning}
use llm_conduit.Gateway.Models.{models_body}
use llm_conduit.Main.{
  startup_line, tls_notices, probing_notice, tls_enabled, probing_enabled, Host, Started,
  acceptor_for, http_client, listen_on, start,
}
use llm_conduit.Main.Serves.{IsServing, start-IsServing}
use llm_conduit.Tests.Toys.{json}
use llm_conduit.Tests.Wire.{wire, read_address, addresses, client}
use llm_conduit.Tests.Settings.{upstream}
use llm_conduit.Tests.Requests.{chunked, parts}
use llm_conduit.Tests.Gates.{static, gateway}

abbrev St : Type 0
St = State wire addresses json static (λ t. t) gateway

abbrev fresh : HealthState
fresh = new_state []

abbrev reply : Served wire addresses json static
reply = serve wire addresses json static fresh 0 (λ t. t) gateway none 7 5 parts chunked

abbrev one_served : St
one_served = record {
  phase = accepting;
  connections = serving ∷ [];
  watchers = 1;
  answers = reply ∷ [];
}

served :
    Reach wire addresses json static
      (λ t. t)
      gateway
      false
      (initial wire addresses json static (λ t. t) gateway)
      one_served
unfolding initial started
served =
    step fresh (step fresh stay (accept refl refl))
      (answer (serving ∷ []) reply (here []) (handled 0 none 7 5 parts chunked) refl)

-- A ctrl-c.
abbrev interrupted : Signals
interrupted = record { ctrl_c_ended = true; terminate_installed = true; terminate_received = false }

abbrev one_drained : St
one_drained = record one_served { phase = draining; connections = closing ∷ [] }

drains :
    Reach wire addresses json static
      (λ t. t)
      gateway
      false
      (initial wire addresses json static (λ t. t) gateway)
      one_drained
unfolding is_signalled tell
drains = step fresh served (signal interrupted refl refl refl)

-- The connection answers the request that it is at, and is over.
abbrev all_returned : St
all_returned = record {
  phase = returned;
  connections = over ∷ [];
  watchers = 0;
  answers = reply ∷ reply ∷ [];
}

drained : Reach wire addresses json static (λ t. t) gateway false one_drained all_returned
drained =
    step fresh
      (step fresh stay
        (last_answer (over ∷ []) reply (here []) (handled 0 none 7 5 parts chunked) refl))
      (shut_down refl refl refl)

ends :
    Reach wire addresses json static
      (λ t. t)
      gateway
      false
      (initial wire addresses json static (λ t. t) gateway)
      all_returned
ends =
    step fresh
      (step fresh drains
        (last_answer (over ∷ []) reply (here []) (handled 0 none 7 5 parts chunked) refl))
      (shut_down refl refl refl)

initial-reaches-IsSound_example :
    IsSound wire addresses json static (λ t. t) gateway false all_returned
    × (all_returned.phase ≡ returned
        → IsFinal wire addresses json static (λ t. t) gateway false all_returned)
initial-reaches-IsSound_example =
    initial-reaches-IsSound wire addresses json static (λ t. t) gateway false all_returned ends

Reach-IsBounded_example :
    IsBounded wire addresses json static
      (λ t. t)
      gateway
      false
      one_drained
      all_returned
      (count wire addresses json static (λ t. t) gateway false drained)
Reach-IsBounded_example =
    Reach-IsBounded wire addresses json static (λ t. t) gateway false one_drained all_returned
      drained (λ e. cc)

Reach-IsReturning_example :
    IsReturning wire addresses json static
      (λ t. t)
      gateway
      false
      one_drained
      all_returned
      (count wire addresses json static (λ t. t) gateway false drained)
Reach-IsReturning_example =
    Reach-IsReturning wire addresses json static (λ t. t) gateway false one_drained all_returned
      drains (λ e. cc) drained

abbrev raw_upstream : RawUpstream
raw_upstream = record {
  base_url = codes "host";
  api_key = none;
  upstream_model = none;
  insecure_skip_verify = none;
}

abbrev raw : RawConfig
raw = record {
  server = record {
    listen = codes "a:1";
    default_upstream = none;
    max_body_bytes = none;
    tls = some (record { cert_path = codes "c"; key_path = codes "k" });
    health = none;
  };
  auth = none;
  upstreams = (codes "m", raw_upstream) ∷ [];
}

abbrev files : ConfigFiles
files = record { read_to_string = λ path. ok path; from_str = λ text. ok raw }

-- Every file holds one certificate and its key, both of which are the path of the file.
abbrev pem : Pem
pem = record {
  Certificate = Bytes;
  PrivateKey = Bytes;
  ServerConfig = List Bytes × Bytes;
  open_file = λ path. ok path;
  certs = λ file. ok file ∷ [];
  private_key = λ file. ok (some file);
  with_single_cert = λ chain key. ok (chain, key);
}

abbrev crypto : Crypto
crypto = record {
  Provider = ℕ;
  Certificate = Bytes;
  Signature = Bytes;
  Algorithms = ℕ;
  Scheme = ℕ;
  aws_lc_rs = 1;
  algorithms = λ provider. provider;
  supported_schemes = λ a. a ∷ [];
  verify_tls12 = λ message certificate signature a. ok tt;
  verify_tls13 = λ message certificate signature a. ok tt;
}

-- The system has no root certificates.
abbrev https : Https crypto
https = record {
  Builder = Bool;
  Connector = Bool;
  HttpClient = ℕ × ℕ × Bool;
  with_verifier = λ v. false;
  with_native_roots = err (codes "no roots");
  with_webpki_roots = true;
  https_or_http = λ b. b;
  client = λ idle most b. (idle, most, b);
}

abbrev pub host : Host wire addresses json static (λ t. some t)
host = record {
  files = files;
  pem = pem;
  crypto = crypto;
  default_provider = none;
  https = https;
  client = λ c. client;
  print = λ j. none;
  created = 0;
  Listener = Text;
  bind = λ address. ok address;
  show_addr = λ address. address;
}

abbrev up : Started wire addresses json static (λ t. some t) host
up = record {
  listener = codes "a:1";
  tls_acceptor = some (codes "c" ∷ [], codes "k");
  gateway = record {
    config = config_of raw;
    upstreams = (codes "m", record upstream { api_key = none }) ∷ [];
    client = client;
    insecure_client = none;
    models = [];
  };
  health = new_state (codes "m" ∷ []);
  probing = some (config_of raw).server.health;
  notices = tls_enabled (codes "c") ∷ probing_enabled (config_of raw).server.health ∷ [];
  line = record {
    listen = codes "a:1";
    scheme = codes "https";
    auth_enabled = false;
    default_upstream = codes "-";
    upstreams = codes "m" ∷ [];
    config_file = codes "other.toml";
  };
}

pub is_up : start wire addresses json static (λ t. some t) host (codes "other.toml") ≡ ok up
unfolding start load config_of server_of auth_of health_or_default default_health health_config_of
    upstream_configs_of upstream_config_of validate socket_addr validate_upstreams validate_upstream
    parse_base_url read_address is_blank codes text_eq trim trim_start_by trim_end_by is_whitespace
    prefix_of undefined_default get acceptor_for load_server_config load_certificates
    load_private_key collect new_gateway resolve_upstreams resolve_from from_config insert
    http_client build_client connector install_crypto_provider insecure_for keys listen_on
    spawn_health_prober models_body startup_line tls_notices probing_notice
is_up = refl

start-IsServing_example :
    IsServing wire addresses json static (λ t. some t) host (codes "other.toml") up
start-IsServing_example =
    start-IsServing wire addresses json static (λ t. some t) host (codes "other.toml") up is_up
